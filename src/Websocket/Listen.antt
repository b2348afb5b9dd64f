-- ===== src/Websocket/Listen.antt =====
-- websocket/client.go: Listen. A round of its loop finds the context cancelled, or reads; when the context
-- is cancelled another goroutine closes the client, before or after the next read.
use public_golibs.Common.{
  ◌≡◌, refl, Bool, false, Option, none, some, List, [], ◌∷◌, ◌++◌, Text, map, inl, inr,
  if◌then◌else◌,
}
use public_golibs.Websocket.Client.{
  Client, Socket, Lib, Message, Error, network, Result, ok, err, close,
}
use public_golibs.Websocket.Frames.{recv}

-- `cancelled` is what the first test finds, `closes` whether the client is closed behind it, and
-- `cancelled_after` what the test behind a failed read finds.
pub record Round : Type 0 where
  pub lib : Lib
  pub cancelled : Bool
  pub closes : Bool
  pub cancelled_after : Bool

pub data Reason : Type 0 where
  context_done : Reason
  failed : Error → Reason
  handler_failed : Text → Reason

-- The messages that the handler was given, and why listening ended.
abbrev pub Heard : Type 0
Heard = Option (List Message × Reason)

abbrev pub with_message : Message → Heard → Heard
with_message m none = none
with_message m (some (ms, why)) = some (m ∷ ms, why)

abbrev pub handled : Message → Option Text → Heard → Heard
handled m (some e) rest = some (m ∷ [], handler_failed e)
handled m none rest = with_message m rest

abbrev pub on_read : (Message → Option Text) → Bool → Result Message → Heard → Heard
on_read handler cancelled (err e) rest = some ([], if cancelled then context_done else failed e)
on_read handler cancelled (ok m) rest = handled m (handler m) rest

abbrev pub watched : Round → Client → Client
watched r c = if r.closes then (close r.lib c).0 else c

-- There is no answer when the rounds end before the loop does.
unfoldable pub listen : (Message → Option Text) → List Round → Client → Heard
unfolding recv close
listen handler [] c = none
listen handler (r ∷ rounds) c =
    let d = watched r c in
    let rest = listen handler rounds d in
    if r.cancelled
    then some ([], context_done)
    else on_read handler r.cancelled_after (recv r.lib d) rest

abbrev pub reads : Lib → Message → Round
reads lib m = record {
  lib = record lib { read = inl m };
  cancelled = false;
  closes = false;
  cancelled_after = false;
}

abbrev pub breaks : Lib → Text → Bool → Round
breaks lib e cancelled = record {
  lib = record lib { read = inr e };
  cancelled = false;
  closes = false;
  cancelled_after = cancelled;
}

-- While the context is not cancelled and the handler does not fail, Listen of a connected client gives the
-- handler every message that is read, in order, until a read fails; then it returns the error of the
-- read, or that of the context if it is cancelled by then.
pub listen-reads :
    (handler : Message → Option Text) (lib : Lib) (ms : List Message) (e : Text) (cancelled : Bool)
    (rounds : List Round) (c : Client) (s : Socket)
    → ((m : Message) → handler m ≡ none)
    → c.conn ≡ some s
    → listen handler (map (reads lib) ms ++ breaks lib e cancelled ∷ rounds) c
      ≡ some (ms, if cancelled then context_done else failed (network e))
unfolding listen recv
listen-reads handler lib [] e cancelled rounds c s quiet held = simp (held) refl
listen-reads handler lib (m ∷ ms) e cancelled rounds c s quiet held =
    simp (held, quiet m, listen-reads handler lib ms e cancelled rounds c s quiet held) refl
