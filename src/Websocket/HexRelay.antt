-- ===== src/Websocket/HexRelay.antt =====
-- websocket/client.go with websocket/codec.go: a hexadecimal text goes from one connection to another.
use public_golibs.Common.{
  ◌≡◌, refl, ap, ◌∙◌, Bool, none, some, List, [], ◌∷◌, ◌++◌, ℕ, Text, inl, All,
}
use public_golibs.Websocket.Codec.{bytes, bytes_to_hex}
use public_golibs.Websocket.HexTrip.{IsByte, from_hex-to_hex}
use public_golibs.Websocket.Config.{string}
use public_golibs.Websocket.Client.{Client, Socket, Lib, Message, MessageType, binary_message, ok}
use public_golibs.Websocket.Frames.{
  recv_hex_with_options, recv, send_hex, send_decoded, hex_result, write_message, recv_binary,
  send_binary,
}

write_message-written :
    (lib : Lib) (kind : MessageType) (payload : List ℕ) (c : Client) (s : Socket)
    → c.conn ≡ some s
    → lib.write_error (record { kind = kind; bytes = payload }) ≡ none
    → write_message lib kind payload c ≡ (
      record c {
        conn = some (record s { sent = s.sent ++ record { kind = kind; bytes = payload } ∷ [] });
      },
      ok tt,
    )
unfolding write_message
write_message-written lib kind payload c s held taken = simp (held, taken) refl

recv_hex-read :
    (lib : Lib) (m : Message) (uppercase : Bool) (c : Client) (s : Socket)
    → c.conn ≡ some s
    → lib.read ≡ inl m
    → recv_hex_with_options lib [] uppercase c
      ≡ hex_result (bytes_to_hex (bytes m.bytes) [] uppercase)
unfolding recv_hex_with_options recv_binary recv
recv_hex-read lib m uppercase c s held got = simp (held, got) refl

-- The text that RecvHexWithOptions gives for a message without a separator, in either case of letters, is
-- read by SendHex of any connected client as the bytes of the message: one binary frame with these bytes
-- goes out behind what was sent before. The bytes of the message are bytes, and the network takes the
-- frame.
pub send_hex-recv_hex :
    (from to : Lib) (m : Message) (uppercase : Bool) (c d : Client) (s t : Socket)
    → All IsByte m.bytes
    → c.conn ≡ some s
    → from.read ≡ inl m
    → d.conn ≡ some t
    → to.write_error (record { kind = binary_message; bytes = m.bytes }) ≡ none
    → (hex : Text) × (recv_hex_with_options from [] uppercase c ≡ ok hex)
      × (send_hex to (string hex) d ≡ (
        record d {
          conn = some (record t {
            sent = t.sent ++ record { kind = binary_message; bytes = m.bytes } ∷ [];
          });
        },
        ok tt,
      ))
unfolding send_hex send_binary
send_hex-recv_hex from to m uppercase c d s t are_bytes held got there taken =
    let (hex, spelled, read) = from_hex-to_hex m.bytes uppercase are_bytes in
    (
      hex,
      recv_hex-read from m uppercase c s held got ∙ ap hex_result spelled,
      ap (λ r. send_decoded to r d) read
          ∙ write_message-written to binary_message m.bytes d t there taken,
    )
