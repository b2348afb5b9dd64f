-- ===== src/Lib.antt =====
-- Models and proofs for public_golibs, a collection of Go modules.
--
-- A Go string is a list of code points (texts are taken to be valid UTF-8), a Go int or int64 an
-- integer of Common.Int, with the wrap to 64 bits written out where the code multiplies or subtracts,
-- or a natural number where it is a count, and time.Time a number of nanoseconds. A method returns the
-- new state of its receiver. What runs under a mutex is one step, which reads the clock once.
--
-- Common has what the components share: Boolean tests, lists, texts and how package strings splits and
-- trims them, decimal numbers, and integers. Where the code makes letters small to compare a text with
-- words of ASCII letters, only A to Z are changed; the filters of mails take strings.ToLower as an
-- argument. Each component's Tests has runs at concrete inputs.
--
-- proxypool (ProxyPool): a pool of HTTP proxies, each with a use limit and an expiry.
--   proxypool/proxy_item.go is ProxyPool.Item: the record ProxyItem and a function for each method.
--   proxypool/pool.go is ProxyPool.Pool. The slice of pointers is a list of references into a memory
--   of items, so an item is shared between the pool and whoever it was handed to. New, the setters and
--   AddProxy are in State, Refresh in Refresh, Get in Get, the removals and counters in Queries. Get
--   takes two times, of the cleanup and of the choice; the background refresh that it may start is a
--   flag of the result. Steps has the critical sections as actions, so that goroutines interleave as
--   lists of actions. A fetch function is a function of the time and the address; one that panics, or
--   a callback that calls the pool back, is not modelled.
--   proxypool/proxy.go is ProxyPool.Manager: the four modes, and GetProxy, whose retry loop runs over
--   a list of rounds, each with the stop flag that it reads; with a round that finds the flag set the
--   list is long enough. The fetch function and the numbers of math/rand are arguments.
--   proxypool/singleton.go is ProxyPool.Default. proxypool/utils.go and the default manager of proxy.go
--   are not modelled.
--
-- workerpool (WorkerPool): tasks behind a queue of 10000 places and a bounded number of workers.
--   workerpool/pool.go is WorkerPool.Pool and Steps. The goroutines (the dispatcher, the workers, those
--   inside Submit and Resize, and the one inside Stop) take steps between the points at which another
--   may run, and a schedule is a list of steps; a step that cannot be taken is passed over. The
--   dispatcher's place in its loop is the type Dispatcher, that of Stop the type Stopper. A wake-up of
--   the condition variable is lost on a dispatcher that does not sleep. What a task does is not
--   modelled: its worker may end at any time, or never. WaitIdle is its test, IsIdle, repeated. Balance,
--   Progress, Bound, Idle and Resizes are about schedules.
--   workerpool/singleton.go is WorkerPool.Default.
--
-- filewriter (FileWriter): lines appended to the files of a directory.
--   filewriter/writer.go: buildContent and normalizeFilename are in FileWriter.Names, filepath.Clean and
--   Join, as far as they are used, in Paths, the methods of a writer in Writer, the default writer in
--   Default, calls in any order in Keeps. What the operating system answers is an argument, so it may
--   fail in any call, and a write may break off; a file is its content, by its path, and nobody else
--   changes it. The flags that a file is opened with say whether the opening empties it and whether a
--   write goes to its end. Each method is one step in which its locks are free, so the interleaving of
--   AppendLine with SetDir and Close is not modelled. Appends, Grows and Closed are about the files.
--
-- web3utils/bitcoin (Web3Utils.Bitcoin): transaction.go and wallet.go, of which the amounts are in
--   Amount and AmountTrip, the unspent outputs and their choice in Coins, the listing in Unspent and
--   Listing, the
--   sending of all that there is in Sweep, from the unspent outputs on, with InputTotals, Paid and Spent
--   about it, the fee rate in Fees and FeeChoice, the options and the wait for a receipt in Transfers
--   and Waits; the wait runs over a list of polls, each with whether the time is over behind it. The
--   preparing of a transfer with change is not modelled. The value of an output is an integer, with the
--   wrap of the running total; chainhash.NewHashFromStr is an argument, and so is the answer of the
--   service. Keys, scripts and signatures belong to other packages.
--
-- pop3client (Pop3Client): mails over the protocol POP3.
--   pop3client/client.go is Pop3Client.Wire (lines and answers), Commands, and Login (connecting, TLS
--   and APOP). A connection is the bytes that were written and those that the other side is still going
--   to send, of which a read takes a line; that a write, a handshake or the closing fails is an argument
--   of each call. The loop over the lines of an answer runs on fuel, a round for each byte and one more,
--   which is enough, since a round takes a byte; what the other side sends on one connection is finite, so
--   an answer that goes on for ever is not modelled. Framing, AnswerEnds and StatTrip are about answers,
--   Opens about connections.
--   pop3client/proxy.go is Proxy. pop3client/email_client.go is Email and NewMail. Added to the client is
--   a record of all connections that were made for it and that it does not hold: given up, overwritten,
--   or failed in the making. Sessions, MailCalls and NewMailLaws are about its calls in any order,
--   NewMailFound about the mail that is found.
--   pop3client/message.go is Message: the parsers of net/mail, mime and charset are an argument; parts
--   inside parts run on fuel, the length of the message and one more, which is enough where a part is
--   shorter than what it is a part of. Texts and Bodies say what a mail consists of, MailEnds that parsing
--   ends. The debug level, log lines and deadlines are left out.
--
-- websocket (Websocket): websocket/codec.go is Websocket.Codec, websocket/config.go is Config and
--   Normalize, websocket/proxy.go is Proxy. websocket/client.go is Client (connecting and closing), Frames
--   (what is sent and received, the heartbeats) and Listen. A connection is the frames that were written;
--   what the library answers is an argument of each call. Each method runs to its end before the next, and
--   a heartbeat beats between them, so methods that run at the same time are not modelled. A record of the
--   connections that were given up is added to the client. Wellformed, Calls and Sessions are about any
--   calls, Peer is a specification of what the other sides see of all sessions, Deliveries says which frame
--   a call writes, Runs joins the two, HexRelay joins client and codec.
--   RecvJSON, whose result is the caller's, and the copies that Config hands out are left out.
--
-- Not modelled: httpclient, httpclienttls, logger and the other packages of web3utils, which
-- mostly pass on what network libraries do, and the programs under test.
pub mod Common
pub mod ProxyPool
pub mod WorkerPool
pub mod FileWriter
pub mod Web3Utils
pub mod Websocket
pub mod Pop3Client
