-- ===== src/Websocket/Deliveries.antt =====
-- websocket/client.go: the one frame that a sending call writes.
use public_golibs.Common.{◌≡◌, refl, ◌∙◌, Option, none, some, List, [], ◌∷◌, ◌++◌, Text, ℕ}
use public_golibs.Websocket.Codec
use public_golibs.Websocket.Codec.{bytes_from_hex, text_bytes}
use public_golibs.Websocket.Config.{Any, nil, string, byte_slice, composite, simple}
use public_golibs.Websocket.Client.{
  MessageType, text_message, binary_message, ping_message, pong_message, Message, Socket, Client,
  Result, ok, err, Lib, Done, wrote,
}
use public_golibs.Websocket.Frames.{
  write_message, write_on, send, send_text, send_binary, send_hex, send_json, send_decoded,
  send_encoded, ping, pong, request, request_text, request_hex_with_options, asked, recv,
  recv_binary, recv_hex_with_options, value_of, marshal_json,
}
use public_golibs.Websocket.Calls.{
  Op, op_connect, op_close, op_reconnect, op_send, op_send_hex, op_send_json, op_request,
  op_send_text, op_request_text, op_send_binary, op_ping, op_pong, op_request_hex, op_beat, run_op,
}

abbrev frame : MessageType → List ℕ → Message
frame kind payload = record { kind = kind; bytes = payload }

abbrev hex_frame : Codec.Result (List ℕ) → Option Message
hex_frame (Codec.ok payload) = some (frame binary_message payload)
hex_frame (Codec.err e) = none

abbrev json_frame : Result (List ℕ) → Option Message
json_frame (ok payload) = some (frame text_message payload)
json_frame (err e) = none

abbrev any_frame : Any → Option Message
any_frame (string t) = some (frame text_message (text_bytes t))
any_frame (byte_slice payload) = some (frame binary_message payload)
any_frame nil = none
any_frame (composite t) = none
any_frame (simple t) = none

-- The frame that a call is to write: a text as a text frame of its bytes, bytes as a binary frame, a
-- hexadecimal text as the binary frame of the bytes that it stands for, a value as the text frame of its
-- JSON, a ping and a pong with their payload; and none where the argument cannot be sent.
abbrev pub frame_of : Lib → Op → Option Message
frame_of lib (op_send _ v) = any_frame v
frame_of lib (op_request _ v) = any_frame v
frame_of lib (op_send_text _ t) = some (frame text_message (text_bytes t))
frame_of lib (op_request_text _ t) = some (frame text_message (text_bytes t))
frame_of lib (op_send_binary _ payload) = some (frame binary_message payload)
frame_of lib (op_ping _ payload) = some (frame ping_message payload)
frame_of lib (op_pong _ payload) = some (frame pong_message payload)
frame_of lib (op_send_hex _ v) = hex_frame (bytes_from_hex (value_of v))
frame_of lib (op_request_hex _ v separator uppercase) = hex_frame (bytes_from_hex (value_of v))
frame_of lib (op_send_json _ v) = json_frame (marshal_json lib v)
frame_of lib (op_connect _) = none
frame_of lib (op_close _ code reason) = none
frame_of lib (op_reconnect _) = none
frame_of lib (op_beat _ h) = none

-- The calls that send, with what other packages answer to them.
abbrev pub Sends : Lib → Op → Type 0
Sends lib (op_send l v) = l ≡ lib
Sends lib (op_request l v) = l ≡ lib
Sends lib (op_send_text l t) = l ≡ lib
Sends lib (op_request_text l t) = l ≡ lib
Sends lib (op_send_binary l payload) = l ≡ lib
Sends lib (op_ping l payload) = l ≡ lib
Sends lib (op_pong l payload) = l ≡ lib
Sends lib (op_send_hex l v) = l ≡ lib
Sends lib (op_request_hex l v separator uppercase) = l ≡ lib
Sends lib (op_send_json l v) = l ≡ lib
Sends lib (op_connect l) = ⊥
Sends lib (op_close l code reason) = ⊥
Sends lib (op_reconnect l) = ⊥
Sends lib (op_beat l h) = ⊥

abbrev pub put_frame : Message → Option Text → Option Socket → Option Socket
put_frame f e none = none
put_frame f none (some s) = some (record s { sent = s.sent ++ f ∷ [] })
put_frame f (some e) (some s) = some s

-- The connection behind the frame: with the frame as its last one when the network took it.
abbrev pub with_frame : Lib → Option Message → Option Socket → Option Socket
with_frame lib none o = o
with_frame lib (some f) o = put_frame f (lib.write_error f) o

abbrev Writes : Lib → Option Message → Client → Client → Type 0
Writes lib f c d = d ≡ record c { conn = with_frame lib f c.conn }

write_on_lem :
    (lib : Lib) (f : Message) (o : Option Socket) (c : Client)
    → c.conn ≡ o
    → (write_on lib f o c).0 ≡ record c { conn = with_frame lib (some f) o }
write_on_lem lib f none c e = λ i. record c { conn = e i }
write_on_lem lib f (some s) c e = put_lem (lib.write_error f)
  where
    put_lem :
        (x : Option Text)
        → record c { conn = some (wrote x f s) } ≡ record c { conn = put_frame f x (some s) }
    put_lem none = refl
    put_lem (some x) = refl

write_message_lem :
    (lib : Lib) (kind : MessageType) (payload : List ℕ) (c : Client)
    → Writes lib (some (frame kind payload)) c (write_message lib kind payload c).0
unfolding write_message
write_message_lem lib kind payload c = write_on_lem lib (frame kind payload) c.conn c refl

send_lem : (lib : Lib) (v : Any) (c : Client) → Writes lib (any_frame v) c (send lib v c).0
unfolding send send_text send_binary
send_lem lib (string t) c = write_message_lem lib text_message (text_bytes t) c
send_lem lib (byte_slice payload) c = write_message_lem lib binary_message payload c
send_lem lib nil c = refl
send_lem lib (composite t) c = refl
send_lem lib (simple t) c = refl

send_decoded_lem :
    (lib : Lib) (r : Codec.Result (List ℕ)) (c : Client)
    → Writes lib (hex_frame r) c (send_decoded lib r c).0
unfolding send_binary
send_decoded_lem lib (Codec.ok payload) c = write_message_lem lib binary_message payload c
send_decoded_lem lib (Codec.err e) c = refl

send_hex_lem :
    (lib : Lib) (v : Any) (c : Client)
    → Writes lib (hex_frame (bytes_from_hex (value_of v))) c (send_hex lib v c).0
unfolding send_hex
send_hex_lem lib v c = send_decoded_lem lib (bytes_from_hex (value_of v)) c

send_encoded_lem :
    (lib : Lib) (r : Result (List ℕ)) (c : Client)
    → Writes lib (json_frame r) c (send_encoded lib r c).0
send_encoded_lem lib (ok payload) c = write_message_lem lib text_message payload c
send_encoded_lem lib (err e) c = refl

-- Waiting for an answer leaves the client as it is.
asked_lem {κ} : {A : Type κ} (answer : Client → Result A) (p : Done) → (asked answer p).0 ≡ p.0
asked_lem answer (c, ok u) = refl
asked_lem answer (c, err e) = refl

-- A call that sends, alone or as a request, writes exactly the frame that it stands for behind the others
-- on the connection that the client holds, when there is one and the network takes the frame, and
-- otherwise nothing; and it leaves all else of the client as it is.
pub run_op-with_frame :
    (op : Op) (lib : Lib) (c : Client)
    → Sends lib op
    → run_op op c ≡ record c { conn = with_frame lib (frame_of lib op) c.conn }
unfolding run_op request request_text request_hex_with_options send_text send_binary send_json ping
    pong
run_op-with_frame (op_send l v) lib c e = rw (← e) (send_lem l v c)
run_op-with_frame (op_request l v) lib c e =
    rw (← e) (asked_lem (recv l) (send l v c) ∙ send_lem l v c)
run_op-with_frame (op_send_text l t) lib c e =
    rw (← e) (write_message_lem l text_message (text_bytes t) c)
run_op-with_frame (op_request_text l t) lib c e = rw (← e) (
    asked_lem (recv_binary l) (send_text l t c) ∙ write_message_lem l text_message (text_bytes t) c)
run_op-with_frame (op_send_binary l payload) lib c e =
    rw (← e) (write_message_lem l binary_message payload c)
run_op-with_frame (op_ping l payload) lib c e =
    rw (← e) (write_message_lem l ping_message payload c)
run_op-with_frame (op_pong l payload) lib c e =
    rw (← e) (write_message_lem l pong_message payload c)
run_op-with_frame (op_send_hex l v) lib c e = rw (← e) (send_hex_lem l v c)
run_op-with_frame (op_request_hex l v separator uppercase) lib c e =
    rw (← e) (
      asked_lem (recv_hex_with_options l separator uppercase) (send_hex l v c) ∙ send_hex_lem l v c)
run_op-with_frame (op_send_json l v) lib c e = rw (← e) (send_encoded_lem l (marshal_json l v) c)
run_op-with_frame (op_connect l) lib c e = absurd e
run_op-with_frame (op_close l code reason) lib c e = absurd e
run_op-with_frame (op_reconnect l) lib c e = absurd e
run_op-with_frame (op_beat l h) lib c e = absurd e
