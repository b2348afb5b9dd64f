-- ===== src/Websocket/Calls.antt =====
-- websocket/client.go: what each method does to a client is to connect, to close, to write one frame, or
-- nothing.
use public_golibs.Common.{
  Bool, true, false, Option, none, some, List, [], ◌∷◌, Text, codes, if◌then◌else◌, is_empty,
  text_eq, inl, inr, Bool-cases, ℕ,
}
use public_golibs.Common.Int.{ℤ, pos}
use public_golibs.Websocket.Codec
use public_golibs.Websocket.Codec.{bytes_from_hex, text_bytes}
use public_golibs.Websocket.Config.{Any, nil, string, byte_slice, composite, simple}
use public_golibs.Websocket.Client.{
  MessageType, text_message, binary_message, ping_message, pong_message, Client, Heart,
  protocol_heart, app_heart, Result, ok, err, Lib, Done, close_with_reason, connect_context,
  reconnect, then_connect, close, unsupported_mode,
}
use public_golibs.Websocket.Frames.{
  write_message, send, send_text, send_binary, send_hex, send_json, send_decoded, send_encoded,
  send_bytes_of, ping, pong, request, request_text, request_hex_with_options, asked, recv,
  recv_binary, recv_hex_with_options, beat, beat_of, beat_once, after_beat, runs, end_heart,
  send_app_heartbeat_once, value_of, marshal_json, is_json_like,
}
use public_golibs.Websocket.Wellformed.{NotClose}

pub data Op : Type 0 where
  op_connect : Lib → Op
  op_close : Lib → ℤ → Text → Op
  op_reconnect : Lib → Op
  op_send op_send_hex op_send_json op_request : Lib → Any → Op
  op_send_text op_request_text : Lib → Text → Op
  op_send_binary op_ping op_pong : Lib → List ℕ → Op
  op_request_hex : Lib → Any → Text → Bool → Op
  op_beat : Lib → Heart → Op

unfoldable pub run_op : Op → Client → Client
unfolding connect_context close_with_reason reconnect send send_hex send_json request send_text
    request_text send_binary ping pong request_hex_with_options beat
run_op (op_connect lib) c = (connect_context lib c).0
run_op (op_close lib code reason) c = (close_with_reason lib code reason c).0
run_op (op_reconnect lib) c = (reconnect lib c).0
run_op (op_send lib v) c = (send lib v c).0
run_op (op_send_hex lib v) c = (send_hex lib v c).0
run_op (op_send_json lib v) c = (send_json lib v c).0
run_op (op_request lib v) c = (request lib v c).0
run_op (op_send_text lib t) c = (send_text lib t c).0
run_op (op_request_text lib t) c = (request_text lib t c).0
run_op (op_send_binary lib payload) c = (send_binary lib payload c).0
run_op (op_ping lib payload) c = (ping lib payload c).0
run_op (op_pong lib payload) c = (pong lib payload c).0
run_op (op_request_hex lib v separator uppercase) c =
    (request_hex_with_options lib v separator uppercase c).0
run_op (op_beat lib h) c = beat lib h c

unfoldable pub run_ops : List Op → Client → Client
unfolding run_op
run_ops [] c = c
run_ops (op ∷ ops) c = run_ops ops (run_op op c)

-- A property of clients that connecting, closing, writing a frame that is no close frame, and the end of
-- a heartbeat carry from one client to the next.
pub record IsKept {ℓ} (R : Client → Client → Type ℓ) : Type ℓ where
  pub kept_none : (c : Client) → R c c
  pub kept_both : (c d e : Client) → R c d → R d e → R c e
  pub kept_connect : (lib : Lib) (c : Client) → R c (connect_context lib c).0
  pub kept_close :
      (lib : Lib) (code : ℤ) (reason : Text) (c : Client)
      → R c (close_with_reason lib code reason c).0
  pub kept_write :
      (lib : Lib) (kind : MessageType) (payload : List ℕ) (c : Client)
      → NotClose kind
      → R c (write_message lib kind payload c).0
  pub kept_end : (h : Heart) (c : Client) → R c (end_heart h c)

module _ {ℓ} (R : Client → Client → Type ℓ) (k : IsKept R) where
  send-kept : (lib : Lib) (v : Any) (c : Client) → R c (send lib v c).0
  unfolding send send_text send_binary
  send-kept lib (string t) c = k.kept_write lib text_message (text_bytes t) c tt
  send-kept lib (byte_slice payload) c = k.kept_write lib binary_message payload c tt
  send-kept lib nil c = k.kept_none c
  send-kept lib (composite t) c = k.kept_none c
  send-kept lib (simple t) c = k.kept_none c

  send_decoded-kept :
      (lib : Lib) (r : Codec.Result (List ℕ)) (c : Client) → R c (send_decoded lib r c).0
  unfolding send_binary
  send_decoded-kept lib (Codec.ok payload) c = k.kept_write lib binary_message payload c tt
  send_decoded-kept lib (Codec.err e) c = k.kept_none c

  send_hex-kept : (lib : Lib) (v : Any) (c : Client) → R c (send_hex lib v c).0
  unfolding send_hex
  send_hex-kept lib v c = send_decoded-kept lib (bytes_from_hex (value_of v)) c

  send_encoded-kept : (lib : Lib) (r : Result (List ℕ)) (c : Client) → R c (send_encoded lib r c).0
  send_encoded-kept lib (ok payload) c = k.kept_write lib text_message payload c tt
  send_encoded-kept lib (err e) c = k.kept_none c

  send_json-kept : (lib : Lib) (v : Any) (c : Client) → R c (send_json lib v c).0
  unfolding send_json
  send_json-kept lib v c = send_encoded-kept lib (marshal_json lib v) c

  send_bytes_of-kept : (lib : Lib) (v : Any) (c : Client) → R c (send_bytes_of lib v c).0
  unfolding send_binary
  send_bytes_of-kept lib (byte_slice payload) c = k.kept_write lib binary_message payload c tt
  send_bytes_of-kept lib nil c = k.kept_write lib binary_message (text_bytes (lib.sprint nil)) c tt
  send_bytes_of-kept lib (string t) c =
      k.kept_write lib binary_message (text_bytes (lib.sprint (string t))) c tt
  send_bytes_of-kept lib (composite t) c =
      k.kept_write lib binary_message (text_bytes (lib.sprint (composite t))) c tt
  send_bytes_of-kept lib (simple t) c =
      k.kept_write lib binary_message (text_bytes (lib.sprint (simple t))) c tt

  asked-kept {κ} :
      {A : Type κ} (answer : Client → Result A) (c : Client) (p : Done)
      → R c p.0
      → R c (asked answer p).0
  asked-kept answer c (d, ok u) h = h
  asked-kept answer c (d, err e) h = h

  then_connect-kept : (lib : Lib) (c : Client) (p : Done) → R c p.0 → R c (then_connect lib p).0
  then_connect-kept lib c (d, ok u) h =
      k.kept_both c d (connect_context lib d).0 h (k.kept_connect lib d)
  then_connect-kept lib c (d, err e) h = h

  either-kept :
      (b : Bool) (c : Client) (p q : Done) → R c p.0 → R c q.0 → R c (if b then p else q).0
  either-kept true c p q h g = h
  either-kept false c p q h g = g

  send_app_heartbeat_once-kept : (lib : Lib) (c : Client) → R c (send_app_heartbeat_once lib c).0
  unfolding send_app_heartbeat_once send_text
  send_app_heartbeat_once-kept lib c =
      let mode = c.cfg.app_heartbeat.mode in
      let v = c.cfg.app_heartbeat.message in
      let as_text = send_text lib (lib.sprint v) c in
      let json_or_plain : Done = if is_json_like v then send_json lib v c else send lib v c in
      let auto : Done = if is_empty mode then json_or_plain else (c, err unsupported_mode) in
      let from_text : Done = if text_eq mode (codes "text") then as_text else auto in
      let from_binary : Done =
        if text_eq mode (codes "binary") then send_bytes_of lib v c else from_text in
      let from_json : Done =
        if text_eq mode (codes "json") then send_json lib v c else from_binary in
      either-kept (text_eq mode (codes "hex")) c (send_hex lib v c) from_json
        (send_hex-kept lib v c)
        (either-kept (text_eq mode (codes "json")) c (send_json lib v c) from_binary
          (send_json-kept lib v c)
          (either-kept (text_eq mode (codes "binary")) c (send_bytes_of lib v c) from_text
            (send_bytes_of-kept lib v c)
            (either-kept (text_eq mode (codes "text")) c as_text auto
              (k.kept_write lib text_message (text_bytes (lib.sprint v)) c tt)
              (either-kept (is_empty mode) c json_or_plain (c, err unsupported_mode)
                (either-kept (is_json_like v) c (send_json lib v c) (send lib v c)
                  (send_json-kept lib v c) (send-kept lib v c))
                (k.kept_none c)))))

  after_beat-kept : (h : Heart) (c : Client) (p : Done) → R c p.0 → R c (after_beat h p)
  after_beat-kept h c (d, ok u) r = r
  after_beat-kept h c (d, err e) r = k.kept_both c d (end_heart h d) r (k.kept_end h d)

  beat_once-kept : (lib : Lib) (h : Heart) (c : Client) → R c (beat_once lib h c).0
  unfolding ping
  beat_once-kept lib protocol_heart c = k.kept_write lib ping_message [] c tt
  beat_once-kept lib app_heart c = send_app_heartbeat_once-kept lib c

  beat_of-kept :
      (lib : Lib) (h : Heart) (b : Option (List Heart)) (c : Client) → R c (beat_of lib h b c)
  beat_of-kept lib h none c = k.kept_none c
  beat_of-kept lib h (some hs) c = elim (Bool-cases (runs h hs)) [
    | inl running ↦ rw running (after_beat-kept h c (beat_once lib h c) (beat_once-kept lib h c))
    | inr over ↦ rw over (k.kept_none c)
  ]

  pub run_op-kept : (op : Op) (c : Client) → R c (run_op op c)
  unfolding run_op reconnect close request request_text request_hex_with_options send_text
      send_binary ping pong beat
  run_op-kept (op_connect lib) c = k.kept_connect lib c
  run_op-kept (op_close lib code reason) c = k.kept_close lib code reason c
  run_op-kept (op_reconnect lib) c =
      then_connect-kept lib c (close_with_reason lib (pos 1000) [] c)
        (k.kept_close lib (pos 1000) [] c)
  run_op-kept (op_send lib v) c = send-kept lib v c
  run_op-kept (op_send_hex lib v) c = send_hex-kept lib v c
  run_op-kept (op_send_json lib v) c = send_json-kept lib v c
  run_op-kept (op_request lib v) c = asked-kept (recv lib) c (send lib v c) (send-kept lib v c)
  run_op-kept (op_send_text lib t) c = k.kept_write lib text_message (text_bytes t) c tt
  run_op-kept (op_request_text lib t) c =
      asked-kept (recv_binary lib) c (send_text lib t c)
        (k.kept_write lib text_message (text_bytes t) c tt)
  run_op-kept (op_send_binary lib payload) c = k.kept_write lib binary_message payload c tt
  run_op-kept (op_ping lib payload) c = k.kept_write lib ping_message payload c tt
  run_op-kept (op_pong lib payload) c = k.kept_write lib pong_message payload c tt
  run_op-kept (op_request_hex lib v separator uppercase) c =
      asked-kept (recv_hex_with_options lib separator uppercase) c (send_hex lib v c)
        (send_hex-kept lib v c)
  run_op-kept (op_beat lib h) c = beat_of-kept lib h c.background c

  pub run_ops-kept : (ops : List Op) (c : Client) → R c (run_ops ops c)
  unfolding run_ops
  run_ops-kept [] c = k.kept_none c
  run_ops-kept (op ∷ ops) c =
      k.kept_both c (run_op op c) (run_ops ops (run_op op c)) (run_op-kept op c)
        (run_ops-kept ops (run_op op c))
