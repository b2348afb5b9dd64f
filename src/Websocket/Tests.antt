-- ===== src/Websocket/Tests.antt =====
-- The hexadecimal codec and a client at concrete inputs.
use public_golibs.Common.{
  false, none, some, List, inl, inr, ◌≡◌, refl, true, [], ◌∷◌, Text, codes, arith, trim_space,
}
use public_golibs.Websocket.Codec.{
  bytes, text, ok, err, odd_digits, bytes_to_hex, bytes_from_hex, without_char, without_pair,
}
use public_golibs.Websocket.HexTrip.{from_hex-to_hex}
use public_golibs.Common.Int.{pos, negsuc}
use public_golibs.Websocket.Config.{string, Config, default_config, with_timeout, with_heartbeat}
use public_golibs.Websocket.Normalize.{normalize, check_config, IsUsable, normalize-IsUsable}
use public_golibs.Websocket.Client
use public_golibs.Websocket.Client.{
  Client, Socket, Lib, Message, text_message, binary_message, protocol_heart, fresh, network,
}
use public_golibs.Websocket.Frames.{recv_hex_with_options, send_hex}
use public_golibs.Websocket.Wellformed.{IsValid}
use public_golibs.Websocket.Calls.{Op, op_connect, op_send, op_close, op_beat, run_ops}
use public_golibs.Websocket.Sessions.{run_ops-IsValid}
use public_golibs.Websocket.Runs.{Runs}
use public_golibs.Websocket.Deliveries.{frame_of, with_frame, run_op-with_frame}
use public_golibs.Websocket.Calls.{run_op, op_request_hex}
use public_golibs.Websocket.Client.{Client}
use public_golibs.Websocket.HexRelay.{send_hex-recv_hex}
use public_golibs.Websocket.Listen.{listen, reads, breaks, failed, listen-reads}

separated_text : bytes_to_hex (text (codes "Az")) (codes ":") true ≡ ok (codes "41:7A")
unfolding bytes_to_hex
separated_text = refl

marked_text : bytes_from_hex (text (codes " 0x0F-a0 ")) ≡ ok (15 ∷ 160 ∷ [])
unfolding bytes_from_hex without_char without_pair trim_space
marked_text = refl

odd_text : bytes_from_hex (text (codes "abc")) ≡ err odd_digits
unfolding bytes_from_hex without_char without_pair trim_space
odd_text = refl

from_hex-to_hex_example :
    (s : Text) × (bytes_to_hex (bytes (15 ∷ 160 ∷ [])) [] true ≡ ok s)
    × (bytes_from_hex (text s) ≡ ok (15 ∷ 160 ∷ []))
from_hex-to_hex_example = from_hex-to_hex (15 ∷ 160 ∷ []) true (omega arith, (omega arith, tt))

abbrev two_bytes : Message
two_bytes = record { kind = binary_message; bytes = 15 ∷ 160 ∷ [] }

abbrev working : Lib
working = record {
  canonical = λ key. key;
  urls = record { parse = λ t. inr t; split_host_port = λ t. none };
  dial = λ dialer url headers. none;
  write_error = λ m. none;
  close_error = none;
  close_payload = λ code reason. [];
  read = inl two_bytes;
  encode = λ v. inl [];
  sprint = λ v. [];
}

abbrev local_config : Config
local_config = with_heartbeat true (pos 0) (pos 0) (default_config (codes "ws://localhost"))

abbrev calls : List Op
calls =
    op_connect working
    ∷ op_send working (string (codes "hi"))
    ∷ op_beat working protocol_heart
    ∷ op_close working (pos 1000) []
    ∷ []

run_ops-IsValid_example : IsValid (run_ops calls (fresh local_config))
run_ops-IsValid_example = run_ops-IsValid local_config calls

abbrev greeted : Client
greeted = run_ops (op_connect working ∷ []) (fresh local_config)

run_op-with_frame_example :
    run_op (op_request_hex working (string (codes "0fA0")) [] true) greeted ≡ record greeted {
      conn =
          with_frame working
            (frame_of working (op_request_hex working (string (codes "0fA0")) [] true))
            greeted.conn;
    }
run_op-with_frame_example =
    run_op-with_frame (op_request_hex working (string (codes "0fA0")) [] true) working greeted refl

-- The frame that a request of a hexadecimal text writes.
hex_comes :
    with_frame working
      (frame_of working (op_request_hex working (string (codes "0fA0")) [] true))
      (some (record { sent = []; read_limit = none; is_open = true }))
    ≡ some (record { sent = two_bytes ∷ []; read_limit = none; is_open = true })
unfolding bytes_from_hex without_char without_pair trim_space
hex_comes = refl

normalize-IsUsable_example :
    IsUsable (normalize (with_timeout (negsuc 0) (pos 0) (pos 0) local_config))
normalize-IsUsable_example =
    normalize-IsUsable (with_timeout (negsuc 0) (pos 0) (pos 0) local_config)
      (unfold check_config normalize in refl)

abbrev empty_socket : Socket
empty_socket = record { sent = []; read_limit = none; is_open = true }

abbrev connected_now : Client
connected_now = record (fresh local_config) { conn = some empty_socket; background = some [] }

send_hex-recv_hex_example :
    (hex : Text) × (recv_hex_with_options working [] true connected_now ≡ Client.ok hex)
    × (send_hex working (string hex) connected_now ≡ (
      record connected_now { conn = some (record empty_socket { sent = two_bytes ∷ [] }) },
      Client.ok tt,
    ))
send_hex-recv_hex_example =
    send_hex-recv_hex working working two_bytes true connected_now connected_now empty_socket
      empty_socket (omega arith, (omega arith, tt)) refl refl refl refl

listen-reads_example :
    listen
      (λ m. none)
      (reads working two_bytes ∷ breaks working (codes "EOF") false ∷ [])
      connected_now
    ≡ some (two_bytes ∷ [], failed (network (codes "EOF")))
listen-reads_example =
    listen-reads (λ m. none) working (two_bytes ∷ []) (codes "EOF") false [] connected_now
      empty_socket (λ m. refl) refl
