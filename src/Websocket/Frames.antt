-- ===== src/Websocket/Frames.antt =====
-- websocket/client.go: what is sent and received. Deadlines only bound how long a call may take.
use public_golibs.Common.{
  ℕ, Bool, true, false, ◌&&◌, ◌||◌, Option, none, some, List, [], ◌∷◌, Text, codes, if◌then◌else◌,
  is_empty, text_eq, ◌⊎◌, inl, inr, ◌==◌,
}
use public_golibs.Websocket.Codec.{
  Value, text, bytes, other, bytes_from_hex, bytes_to_hex, text_bytes,
}
use public_golibs.Websocket.Codec
use public_golibs.Websocket.Config.{Any, nil, string, byte_slice, composite, simple}
use public_golibs.Websocket.Client.{
  MessageType, text_message, binary_message, ping_message, pong_message, Message, Socket, Client,
  Heart, protocol_heart, app_heart, not_connected, network, unsupported_message, unsupported_mode,
  codec_error, json_error, Result, ok, err, Lib, Done, wrote,
}

abbrev pub require_conn : Client → Result Socket
require_conn c = elim c.conn as (λ o. Result Socket) [ none ↦ err not_connected | some s ↦ ok s ]

abbrev pub outcome : Option Text → Result (Unit {0})
outcome none = ok tt
outcome (some e) = err (network e)

abbrev pub write_on : Lib → Message → Option Socket → Client → Done
write_on lib f none c = (c, err not_connected)
write_on lib f (some s) c =
    (record c { conn = some (wrote (lib.write_error f) f s) }, outcome (lib.write_error f))

-- writeMessage and writeControl
unfoldable pub write_message : Lib → MessageType → List ℕ → Client → Done
write_message lib kind payload c = write_on lib (record { kind = kind; bytes = payload }) c.conn c

unfoldable pub send_text : Lib → Text → Client → Done
unfolding write_message
send_text lib t c = write_message lib text_message (text_bytes t) c

unfoldable pub send_binary : Lib → List ℕ → Client → Done
unfolding write_message
send_binary lib payload c = write_message lib binary_message payload c

unfoldable pub send : Lib → Any → Client → Done
unfolding send_text send_binary
send lib (string t) c = send_text lib t c
send lib (byte_slice payload) c = send_binary lib payload c
send lib nil c = (c, err unsupported_message)
send lib (composite t) c = (c, err unsupported_message)
send lib (simple t) c = (c, err unsupported_message)

abbrev pub value_of : Any → Value
value_of (string t) = text t
value_of (byte_slice payload) = bytes payload
value_of nil = other
value_of (composite t) = other
value_of (simple t) = other

abbrev pub send_decoded : Lib → Codec.Result (List ℕ) → Client → Done
send_decoded lib (Codec.ok payload) c = send_binary lib payload c
send_decoded lib (Codec.err e) c = (c, err codec_error)

unfoldable pub send_hex : Lib → Any → Client → Done
unfolding send_binary bytes_from_hex
send_hex lib v c = send_decoded lib (bytes_from_hex (value_of v)) c

-- bytes.TrimRight of line feeds
unfoldable pub trim_line_feeds : List ℕ → List ℕ
trim_line_feeds [] = []
trim_line_feeds (b ∷ s) =
    let rest = trim_line_feeds s in if b == 10 && is_empty rest then [] else b ∷ rest

abbrev pub marshalled : List ℕ ⊎ Text → Result (List ℕ)
marshalled (inl encoded) = ok (trim_line_feeds encoded)
marshalled (inr e) = err (json_error e)

unfoldable pub marshal_json : Lib → Any → Result (List ℕ)
unfolding trim_line_feeds
marshal_json lib v = marshalled (lib.encode v)

abbrev pub send_encoded : Lib → Result (List ℕ) → Client → Done
send_encoded lib (ok payload) c = write_message lib text_message payload c
send_encoded lib (err e) c = (c, err e)

unfoldable pub send_json : Lib → Any → Client → Done
unfolding write_message marshal_json
send_json lib v c = send_encoded lib (marshal_json lib v) c

abbrev pub read_result : Message ⊎ Text → Result Message
read_result (inl m) = ok m
read_result (inr e) = err (network e)

abbrev recv_on : Lib → Option Socket → Result Message
recv_on lib none = err not_connected
recv_on lib (some s) = read_result lib.read

unfoldable pub recv : Lib → Client → Result Message
recv lib c = recv_on lib c.conn

abbrev payload_of : Result Message → Result (List ℕ)
payload_of (ok m) = ok m.bytes
payload_of (err e) = err e

-- RecvText, RecvBinary and RecvBytes: a Go string of the bytes is these bytes.
unfoldable pub recv_binary : Lib → Client → Result (List ℕ)
unfolding recv
recv_binary lib c = payload_of (recv lib c)

abbrev pub hex_result : Codec.Result Text → Result Text
hex_result (Codec.ok t) = ok t
hex_result (Codec.err e) = err codec_error

abbrev hex_of_payload : Text → Bool → Result (List ℕ) → Result Text
hex_of_payload separator uppercase (ok payload) =
    hex_result (bytes_to_hex (bytes payload) separator uppercase)
hex_of_payload separator uppercase (err e) = err e

unfoldable pub recv_hex_with_options : Lib → Text → Bool → Client → Result Text
unfolding recv_binary bytes_to_hex
recv_hex_with_options lib separator uppercase c =
    hex_of_payload separator uppercase (recv_binary lib c)

unfoldable pub recv_hex : Lib → Client → Result Text
unfolding recv_hex_with_options
recv_hex lib c = recv_hex_with_options lib [] false c

abbrev pub asked {ℓ} : {A : Type ℓ} → (Client → Result A) → Done → Client × Result A
asked answer (c, ok u) = (c, answer c)
asked answer (c, err e) = (c, err e)

unfoldable pub request : Lib → Any → Client → Client × Result Message
unfolding send recv
request lib v c = asked (recv lib) (send lib v c)

unfoldable pub request_text : Lib → Text → Client → Client × Result (List ℕ)
unfolding send_text recv_binary
request_text lib t c = asked (recv_binary lib) (send_text lib t c)

unfoldable pub request_hex_with_options : Lib → Any → Text → Bool → Client → Client × Result Text
unfolding send_hex recv_hex_with_options
request_hex_with_options lib v separator uppercase c =
    asked (recv_hex_with_options lib separator uppercase) (send_hex lib v c)

unfoldable pub ping : Lib → List ℕ → Client → Done
unfolding write_message
ping lib payload c = write_message lib ping_message payload c

unfoldable pub pong : Lib → List ℕ → Client → Done
unfolding write_message
pong lib payload c = write_message lib pong_message payload c

abbrev pub is_json_like : Any → Bool
is_json_like (composite t) = true
is_json_like nil = false
is_json_like (string t) = false
is_json_like (byte_slice payload) = false
is_json_like (simple t) = false

abbrev pub send_bytes_of : Lib → Any → Client → Done
send_bytes_of lib (byte_slice payload) c = send_binary lib payload c
send_bytes_of lib nil c = send_binary lib (text_bytes (lib.sprint nil)) c
send_bytes_of lib (string t) c = send_binary lib (text_bytes (lib.sprint (string t))) c
send_bytes_of lib (composite t) c = send_binary lib (text_bytes (lib.sprint (composite t))) c
send_bytes_of lib (simple t) c = send_binary lib (text_bytes (lib.sprint (simple t))) c

unfoldable pub send_app_heartbeat_once : Lib → Client → Done
unfolding send_hex send_json send_binary send_text send
send_app_heartbeat_once lib c =
    let mode = c.cfg.app_heartbeat.mode in
    let message = c.cfg.app_heartbeat.message in
    if text_eq mode (codes "hex")
    then send_hex lib message c
    else if text_eq mode (codes "json")
    then send_json lib message c
    else if text_eq mode (codes "binary")
    then send_bytes_of lib message c
    else if text_eq mode (codes "text")
    then send_text lib (lib.sprint message) c
    else if is_empty mode
    then if is_json_like message then send_json lib message c else send lib message c
    else (c, err unsupported_mode)

abbrev same_heart : Heart → Heart → Bool
same_heart protocol_heart protocol_heart = true
same_heart protocol_heart app_heart = false
same_heart app_heart protocol_heart = false
same_heart app_heart app_heart = true

abbrev pub runs : Heart → List Heart → Bool
runs h [] = false
runs h (k ∷ hs) = same_heart h k || runs h hs

abbrev pub without_heart : Heart → List Heart → List Heart
without_heart h [] = []
without_heart h (k ∷ hs) = if same_heart h k then without_heart h hs else k ∷ without_heart h hs

abbrev pub end_on : Heart → Option (List Heart) → Client → Client
end_on h none c = c
end_on h (some hs) c = record c { background = some (without_heart h hs) }

unfoldable pub end_heart : Heart → Client → Client
end_heart h c = end_on h c.background c

abbrev pub after_beat : Heart → Done → Client
after_beat h (c, ok u) = c
after_beat h (c, err e) = end_heart h c

abbrev pub beat_once : Lib → Heart → Client → Done
beat_once lib protocol_heart c = ping lib [] c
beat_once lib app_heart c = send_app_heartbeat_once lib c

abbrev pub beat_of : Lib → Heart → Option (List Heart) → Client → Client
beat_of lib h none c = c
beat_of lib h (some hs) c = if runs h hs then after_beat h (beat_once lib h c) else c

-- A tick of a heartbeat, or the immediate message before the first: one that fails ends it.
unfoldable pub beat : Lib → Heart → Client → Client
unfolding ping send_app_heartbeat_once end_heart
beat lib h c = beat_of lib h c.background c
