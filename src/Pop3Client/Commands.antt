-- ===== src/Pop3Client/Commands.antt =====
-- pop3client/client.go: the commands of a connection.
use public_golibs.Common.{
  Option, none, some, List, [], ◌∷◌, ◌++◌, Text, codes, if◌then◌else◌, text_eq,
}
use public_golibs.Common.Int.{ℤ}
use public_golibs.Common.Words.{atoi, fields, format_int}
use public_golibs.Pop3Client.Wire.{
  closed, protocol, network, syntax, Result, ok, err, stuck, Conn, Net, Pop3Client, put_line,
  get_resp, get_long_resp, LongResp,
}

-- A read of the connection that the client holds.
abbrev pub on_conn {ℓ} :
    {A : Type ℓ} → (Conn → Conn × Result A) → Option Conn → Pop3Client → Pop3Client × Result A
on_conn read none c = (c, err closed)
on_conn read (some s) c = let (t, r) = read s in (record c { conn = some t }, r)

abbrev pub after_put {ℓ} :
    {A : Type ℓ} → (Conn → Conn × Result A) → Pop3Client × Result (Unit {0}) → Pop3Client × Result A
after_put read (c, ok u) = on_conn read c.conn c
after_put read (c, err e) = (c, err e)
after_put read (c, stuck) = (c, stuck)

unfoldable pub short_cmd : Net → Text → Pop3Client → Pop3Client × Result Text
unfolding put_line get_resp
short_cmd net line c = after_put get_resp (put_line net line c)

unfoldable pub long_cmd : Net → Text → Pop3Client → Pop3Client × Result LongResp
unfolding put_line get_long_resp
long_cmd net line c = after_put get_long_resp (put_line net line c)

unfoldable pub user : Net → Text → Pop3Client → Pop3Client × Result Text
unfolding short_cmd
user net name c = short_cmd net (codes "USER " ++ name) c

unfoldable pub pass : Net → Text → Pop3Client → Pop3Client × Result Text
unfolding short_cmd
pass net password c = short_cmd net (codes "PASS " ++ password) c

unfoldable pub rpop : Net → Text → Pop3Client → Pop3Client × Result Text
unfolding short_cmd
rpop net name c = short_cmd net (codes "RPOP " ++ name) c

unfoldable pub noop : Net → Pop3Client → Pop3Client × Result Text
unfolding short_cmd
noop net c = short_cmd net (codes "NOOP") c

unfoldable pub rset : Net → Pop3Client → Pop3Client × Result Text
unfolding short_cmd
rset net c = short_cmd net (codes "RSET") c

unfoldable pub utf8 : Net → Pop3Client → Pop3Client × Result Text
unfolding short_cmd
utf8 net c = short_cmd net (codes "UTF8") c

unfoldable pub dele : Net → ℤ → Pop3Client → Pop3Client × Result Text
unfolding short_cmd format_int
dele net which c = short_cmd net (codes "DELE " ++ format_int which) c

abbrev number : Option ℤ → Text → Result ℤ
number none t = err (syntax t)
number (some n) t = ok n

abbrev two_numbers : Result ℤ → Result ℤ → Result (ℤ × ℤ)
two_numbers (ok n) (ok m) = ok (n, m)
two_numbers (ok n) (err e) = err e
two_numbers (ok n) stuck = stuck
two_numbers (err e) r = err e
two_numbers stuck r = stuck

abbrev pub stat_of : Text → List Text → Result (ℤ × ℤ)
stat_of resp (sign ∷ count ∷ size ∷ rest) =
    two_numbers (number (atoi count) count) (number (atoi size) size)
stat_of resp (sign ∷ count ∷ []) = err (protocol resp)
stat_of resp (sign ∷ []) = err (protocol resp)
stat_of resp [] = err (protocol resp)

abbrev pub stat_result : Result Text → Result (ℤ × ℤ)
stat_result (ok resp) = stat_of resp (fields resp)
stat_result (err e) = err e
stat_result stuck = stuck

-- The number and the size of the messages.
unfoldable pub stat : Net → Pop3Client → Pop3Client × Result (ℤ × ℤ)
unfolding short_cmd fields atoi
stat net c = let (d, r) = short_cmd net (codes "STAT") c in (d, stat_result r)

abbrev with_line : Result Text → Result LongResp
with_line (ok resp) = ok (resp, [], 0)
with_line (err e) = err e
with_line stuck = stuck

-- List and Uidl: of one message, or of all.
abbrev listing : Net → Text → Option ℤ → Pop3Client → Pop3Client × Result LongResp
listing net name none c = long_cmd net name c
listing net name (some which) c =
    let (d, r) = short_cmd net (name ++ b' ' ∷ format_int which) c in (d, with_line r)

unfoldable pub list : Net → Option ℤ → Pop3Client → Pop3Client × Result LongResp
unfolding short_cmd long_cmd format_int
list net which c = listing net (codes "LIST") which c

unfoldable pub uidl : Net → Option ℤ → Pop3Client → Pop3Client × Result LongResp
unfolding short_cmd long_cmd format_int
uidl net which c = listing net (codes "UIDL") which c

unfoldable pub retr : Net → ℤ → Pop3Client → Pop3Client × Result LongResp
unfolding long_cmd format_int
retr net which c = long_cmd net (codes "RETR " ++ format_int which) c

unfoldable pub top : Net → ℤ → ℤ → Pop3Client → Pop3Client × Result LongResp
unfolding long_cmd format_int
top net which how_much c =
    long_cmd net (codes "TOP " ++ (format_int which ++ b' ' ∷ format_int how_much)) c

-- A later line for one capability replaces an earlier one.
abbrev pub set_cap : Text → List Text → List (Text × List Text) → List (Text × List Text)
set_cap key values [] = (key, values) ∷ []
set_cap key values ((k, v) ∷ caps) =
    if text_eq k key then (k, values) ∷ caps else (k, v) ∷ set_cap key values caps

abbrev add_cap : List Text → List (Text × List Text) → List (Text × List Text)
add_cap [] caps = caps
add_cap (key ∷ values) caps = set_cap key values caps

abbrev caps_of : List Text → List (Text × List Text) → List (Text × List Text)
caps_of [] caps = caps
caps_of (line ∷ lines) caps = caps_of lines (add_cap (fields line) caps)

abbrev capa_result : Result LongResp → Result (List (Text × List Text))
capa_result (ok (resp, lines, octets)) = ok (caps_of lines [])
capa_result (err e) = err (protocol (codes "-ERR CAPA not supported by server"))
capa_result stuck = stuck

unfoldable pub capa : Net → Pop3Client → Pop3Client × Result (List (Text × List Text))
unfolding long_cmd fields
capa net c = let (d, r) = long_cmd net (codes "CAPA") c in (d, capa_result r)

abbrev closing : Option Text → Result (Unit {0})
closing none = ok tt
closing (some e) = err (network e)

abbrev pub close_on : Net → Option Conn → Pop3Client → Pop3Client × Result (Unit {0})
close_on net none c = (c, ok tt)
close_on net (some s) c = (record c { conn = none }, closing net.close_error)

unfoldable pub close : Net → Pop3Client → Pop3Client × Result (Unit {0})
close net c = close_on net c.conn c

abbrev quit_result : Result Text → Result (Unit {0}) → Result Text
quit_result (ok resp) (ok u) = ok resp
quit_result (ok resp) (err e) = err e
quit_result (ok resp) stuck = stuck
quit_result (err e) r = err e
quit_result stuck r = stuck

unfoldable pub quit : Net → Pop3Client → Pop3Client × Result Text
unfolding short_cmd close
quit net c =
    let (d, resp) = short_cmd net (codes "QUIT") c in
    let (e, done) = close net d in (e, quit_result resp done)
