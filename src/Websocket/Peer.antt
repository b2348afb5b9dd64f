-- ===== src/Websocket/Peer.antt =====
-- websocket/client.go: what the other side of a client sees, as a specification.
use public_golibs.Common.{
  ◌≡◌, refl, Bool-cases, Option, none, some, List, [], ◌∷◌, ◌++◌, Text, ◌⊎◌, inl, inr,
}
use public_golibs.Common.Int.{pos, ltb_ℤ}
use public_golibs.Websocket.Config.{Config}
use public_golibs.Websocket.Proxy.{ProxyError}
use public_golibs.Websocket.Client.{
  Client, Socket, Heart, Lib, Message, close_message, Dialer, wrote, connect_context, connect_on,
  dial_with, dialled, store, build_dialer, handshake_headers, new_socket, start_background,
  stop_background, close_with_reason, close_on, say_goodbye,
}
use public_golibs.Websocket.Frames.{write_message, write_on, end_heart, end_on}
use public_golibs.Websocket.Wellformed.{NotClose}
use public_golibs.Websocket.Calls.{IsKept}

-- The sessions that have ended, the latest first, with all frames that came in each, and the one that
-- goes on, if there is one.
pub record Peer : Type 0 where
  pub past : List (List Message)
  pub now : Option (List Message)

-- A session begins with no frame where none goes on; a frame that is no close frame comes behind the
-- others; and a session ends, with a close frame as its last one or without, and joins the past ones.
-- Nothing else happens: what came is neither changed nor forgotten.
pub data Step : Peer → Peer → Type 0 where
  begins :
      (past : List (List Message))
      → Step (record { past = past; now = none }) (record { past = past; now = some [] })
  comes :
      (past : List (List Message)) (ms : List Message) (m : Message)
      → NotClose m.kind
      → Step
          (record { past = past; now = some ms })
          (record { past = past; now = some (ms ++ m ∷ []) })
  ends :
      (past : List (List Message)) (ms : List Message)
      → Step (record { past = past; now = some ms }) (record { past = ms ∷ past; now = none })
  says_goodbye :
      (past : List (List Message)) (ms : List Message) (m : Message)
      → m.kind ≡ close_message
      → Step
          (record { past = past; now = some ms })
          (record { past = (ms ++ m ∷ []) ∷ past; now = none })

pub data Steps : Peer → Peer → Type 0 where
  stays : (p : Peer) → Steps p p
  goes : (p q r : Peer) → Step p q → Steps q r → Steps p r

Steps-append : (p q r : Peer) → Steps p q → Steps q r → Steps p r
Steps-append p q r (stays _) t = t
Steps-append p q r (goes _ mid _ s u) t = goes p mid r s (Steps-append mid q r u t)

single_move : (p q : Peer) → Step p q → Steps p q
single_move p q s = goes p q q s (stays q)

abbrev pub sent_in : List Socket → List (List Message)
sent_in [] = []
sent_in (s ∷ sockets) = s.sent ∷ sent_in sockets

abbrev pub sent_on : Option Socket → Option (List Message)
sent_on none = none
sent_on (some s) = some s.sent

abbrev pub peer_on : List Socket → Option Socket → Peer
peer_on gone o = record { past = sent_in gone; now = sent_on o }

-- What the other sides of all its connections have seen of a client.
abbrev pub peer_of : Client → Peer
peer_of c = peer_on c.gone c.conn

abbrev pub Simulates : Client → Client → Type 0
Simulates c d = Steps (peer_of c) (peer_of d)

stays-same : (c : Client) (o : Option Socket) → c.conn ≡ o → Steps (peer_on c.gone o) (peer_of c)
stays-same c o e = rw (← e) (stays (peer_of c))

wrote-Steps :
    (e : Option Text) (f : Message) (s : Socket) (gone : List Socket)
    → NotClose f.kind
    → Steps (peer_on gone (some s)) (peer_on gone (some (wrote e f s)))
wrote-Steps none f s gone n =
    single_move (peer_on gone (some s)) (peer_on gone (some (wrote none f s)))
      (comes (sent_in gone) s.sent f n)
wrote-Steps (some e) f s gone n = stays (peer_on gone (some s))

write_on-Steps :
    (lib : Lib) (f : Message) (o : Option Socket) (c : Client)
    → c.conn ≡ o
    → NotClose f.kind
    → Steps (peer_on c.gone o) (peer_of (write_on lib f o c).0)
write_on-Steps lib f none c e n = stays-same c none e
write_on-Steps lib f (some s) c e n = wrote-Steps (lib.write_error f) f s c.gone n

store-Steps :
    (s : Socket) (o : Option Socket) (c : Client)
    → o ≡ none
    → s.sent ≡ []
    → Steps (peer_on c.gone none) (peer_of (store s o c).0)
unfolding start_background
store-Steps s none c e n = rw n (
    single_move (peer_on c.gone none) (record { past = sent_in c.gone; now = some [] })
      (begins (sent_in c.gone)))
store-Steps s (some held) c e n = cc

dialled-Steps :
    (r : Option (Text × Option Text)) (c : Client)
    → c.conn ≡ none
    → Steps (peer_on c.gone none) (peer_of (dialled r c).0)
dialled-Steps none c e = store-Steps (new_socket c.cfg) c.conn c e refl
dialled-Steps (some (x, status)) c e = stays-same c none e

dial_with-Steps :
    (lib : Lib) (d : Dialer ⊎ ProxyError) (c : Client)
    → c.conn ≡ none
    → Steps (peer_on c.gone none) (peer_of (dial_with lib d c).0)
dial_with-Steps lib (inr x) c e = stays-same c none e
dial_with-Steps lib (inl d) c e =
    dialled-Steps (lib.dial d c.cfg.url (handshake_headers lib.canonical c.cfg)) c e

connect_on-Steps :
    (lib : Lib) (o : Option Socket) (c : Client)
    → c.conn ≡ o
    → Steps (peer_on c.gone o) (peer_of (connect_on lib o c).0)
connect_on-Steps lib (some s) c e = stays-same c (some s) e
connect_on-Steps lib none c e = dial_with-Steps lib (build_dialer lib.urls c.cfg) c e

wrote-ends :
    (e : Option Text) (f : Message) (s : Socket) (gone : List Socket)
    → f.kind ≡ close_message
    → Steps
        (peer_on gone (some s))
        (record { past = (wrote e f s).sent ∷ sent_in gone; now = none })
wrote-ends none f s gone k =
    single_move (peer_on gone (some s))
      (record { past = (s.sent ++ f ∷ []) ∷ sent_in gone; now = none })
      (says_goodbye (sent_in gone) s.sent f k)
wrote-ends (some e) f s gone k =
    single_move (peer_on gone (some s)) (record { past = s.sent ∷ sent_in gone; now = none })
      (ends (sent_in gone) s.sent)

goodbye-Steps :
    (lib : Lib) (cfg : Config) (f : Message) (s : Socket) (gone : List Socket)
    → f.kind ≡ close_message
    → Steps
        (peer_on gone (some s))
        (record { past = (say_goodbye lib cfg f s).0.sent ∷ sent_in gone; now = none })
goodbye-Steps lib cfg f s gone k = elim (Bool-cases (ltb_ℤ (pos 0) cfg.close_timeout)) [
  | inl e ↦ rw e (wrote-ends (lib.write_error f) f s gone k)
  | inr e ↦ rw e (
      single_move (peer_on gone (some s)) (record { past = s.sent ∷ sent_in gone; now = none })
        (ends (sent_in gone) s.sent))
]

close_on-Steps :
    (lib : Lib) (f : Message) (o : Option Socket) (c : Client)
    → c.conn ≡ o
    → f.kind ≡ close_message
    → Steps (peer_on c.gone o) (peer_of (close_on lib f o (stop_background c)).0)
unfolding stop_background
close_on-Steps lib f none c e k = stays-same c none e
close_on-Steps lib f (some s) c e k = goodbye-Steps lib c.cfg f s c.gone k

end_on-Steps :
    (h : Heart) (b : Option (List Heart)) (c : Client) → Steps (peer_of c) (peer_of (end_on h b c))
end_on-Steps h none c = stays (peer_of c)
end_on-Steps h (some hs) c = stays (peer_of c)

pub Simulates-IsKept : IsKept Simulates
unfolding connect_context close_with_reason write_message end_heart
Simulates-IsKept = record {
  kept_none = λ c. stays (peer_of c);
  kept_both = λ c d e f g. Steps-append (peer_of c) (peer_of d) (peer_of e) f g;
  kept_connect = λ lib c. connect_on-Steps lib c.conn c refl;
  kept_close = λ lib code reason c.
      close_on-Steps lib (record { kind = close_message; bytes = lib.close_payload code reason })
        c.conn c refl refl;
  kept_write = λ lib kind payload c n.
      write_on-Steps lib (record { kind = kind; bytes = payload }) c.conn c refl n;
  kept_end = λ h c. end_on-Steps h c.background c;
}
