-- ===== src/Websocket/Runs.antt =====
-- websocket/client.go: calls in any order refine the specification of what the other sides see.
use public_golibs.Common.{◌≡◌, Option, none, some, List, [], ◌∷◌, ◌++◌, Text}
use public_golibs.Websocket.Client.{Client, Lib, Message}
use public_golibs.Websocket.Calls.{Op}
use public_golibs.Websocket.Deliveries.{Sends, frame_of}
use public_golibs.Websocket.Peer.{Peer, Steps}

-- A frame that comes when a session goes on and the network takes the frame.
abbrev pub come : Message → Option Text → Option (List Message) → Option (List Message)
come f e none = none
come f none (some ms) = some (ms ++ f ∷ [])
come f (some e) (some ms) = some ms

abbrev pub come_of : Lib → Option Message → Option (List Message) → Option (List Message)
come_of lib none now = now
come_of lib (some f) now = come f (lib.write_error f) now

-- A call makes steps of the specification, and one that sends makes this one frame come, and nothing else.
pub record Does (op : Op) (p q : Peer) : Type 0 where
  pub steps : Steps p q
  pub sends_frame :
      (lib : Lib) → Sends lib op → q ≡ record p { now = come_of lib (frame_of lib op) p.now }

pub data Runs : List Op → Peer → Peer → Type 0 where
  ready : (p : Peer) → Runs [] p p
  after :
      (op : Op) (ops : List Op) (p q r : Peer) → Does op p q → Runs ops q r → Runs (op ∷ ops) p r
