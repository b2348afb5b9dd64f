-- ===== src/Web3Utils/Bitcoin/Waits.antt =====
-- web3utils/bitcoin/transaction.go: the wait for a confirmation.
use public_golibs.Common.{
  ◌≡◌, refl, Bool, true, false, Option, none, some, List, [], ◌∷◌, Text, if◌then◌else◌, Bool-cases,
  ◌⊎◌, inl, inr,
}
use public_golibs.Web3Utils.Bitcoin.Unspent.{is_transaction_id}
use public_golibs.Web3Utils.Bitcoin.Transfers.{
  EsploraStatus, Poll, Waited, confirmed_with, gave_up, polling, WaitError, confirmation_timeout,
  service_error, wait_for_transaction_receipt, on_poll, poll_status, transaction_status_map,
  StatusMap,
}

-- The time is over behind one of the polls.
abbrev pub SomeLast : List Poll → Type 0
SomeLast [] = ⊥
SomeLast (p ∷ polls) = (p.over ≡ true) ⊎ SomeLast polls

-- A wait that has ended says truly whether the transaction was confirmed.
abbrev pub Settled : Waited → Type 0
Settled (confirmed_with m) = m.is_confirmed ≡ true
Settled (gave_up none e) = ⊥
Settled (gave_up (some m) e) = m.is_confirmed ≡ false
Settled polling = ⊥

abbrev IsOpen : Option EsploraStatus → Type 0
IsOpen none = Unit
IsOpen (some s) = s.confirmed ≡ false

status_of_open :
    (tx_hash : Text) (last : Option EsploraStatus)
    → IsOpen last
    → (transaction_status_map tx_hash last).is_confirmed ≡ false
unfolding transaction_status_map
status_of_open tx_hash none h = refl
status_of_open tx_hash (some s) h = h

confirmed-map :
    (tx_hash : Text) (s : EsploraStatus)
    → s.confirmed ≡ true
    → (transaction_status_map tx_hash (some s)).is_confirmed ≡ true
unfolding transaction_status_map
confirmed-map tx_hash s h = h

either-Settled :
    (over : Bool) (m : StatusMap) (e : WaitError) (w : Waited)
    → m.is_confirmed ≡ false
    → (over ≡ true) ⊎ Settled w
    → Settled (if over then gave_up (some m) e else w)
either-Settled true m e w h k = h
either-Settled false m e w h (inl over) = cc
either-Settled false m e w h (inr s) = s

on_poll-Settled :
    (tx_hash : Text) (last : Option EsploraStatus) (answer : EsploraStatus ⊎ Text) (over : Bool)
    (next : Option EsploraStatus → Waited)
    → IsOpen last
    → ((seen : Option EsploraStatus) → IsOpen seen → (over ≡ true) ⊎ Settled (next seen))
    → Settled (on_poll tx_hash last answer over next)
on_poll-Settled tx_hash last (inl s) over next o k = elim (Bool-cases s.confirmed) [
  | inl found ↦ simp (found) (confirmed-map tx_hash s found)
  | inr still ↦ simp (still) (
      either-Settled over (transaction_status_map tx_hash (some s)) confirmation_timeout
        (next (some s)) (status_of_open tx_hash (some s) still) (k (some s) still))
]
on_poll-Settled tx_hash last (inr e) over next o k =
    either-Settled over (transaction_status_map tx_hash last) (service_error e) (next last)
      (status_of_open tx_hash last o) (k last o)

poll_status-Settled :
    (tx_hash : Text) (last : Option EsploraStatus) (polls : List Poll)
    → IsOpen last
    → SomeLast polls
    → Settled (poll_status tx_hash last polls)
unfolding poll_status
poll_status-Settled tx_hash last [] o h = absurd h
poll_status-Settled tx_hash last (p ∷ polls) o (inl over) =
    on_poll-Settled tx_hash last p.answer p.over (λ seen. poll_status tx_hash seen polls) o
      (λ seen s. inl over)
poll_status-Settled tx_hash last (p ∷ polls) o (inr later) =
    on_poll-Settled tx_hash last p.answer p.over (λ seen. poll_status tx_hash seen polls) o
      (λ seen s. inr (poll_status-Settled tx_hash seen polls s later))

-- Waiting for a well-formed transaction, with an API, ends when the time is over behind one of its polls,
-- at the latest, and says truly whether the transaction is confirmed: it reports a confirmation only with
-- a status that is confirmed, and gives up only with one that is not.
pub wait_for_transaction_receipt-Settled :
    (tx_hash : Text) (polls : List Poll)
    → is_transaction_id tx_hash ≡ true
    → SomeLast polls
    → Settled (wait_for_transaction_receipt true tx_hash polls)
unfolding wait_for_transaction_receipt
wait_for_transaction_receipt-Settled tx_hash polls id h =
    rw id (poll_status-Settled tx_hash none polls tt h)
