-- ===== src/Web3Utils/Bitcoin/Coins.antt =====
-- web3utils/bitcoin/transaction.go: unspent outputs, and which of them pay for a transaction. A hash of
-- 32 bytes is not modelled: what package chainhash makes of a text is an argument.
use public_golibs.Common.{
  ℕ, zero, suc, Bool, ◌&&◌, Option, none, some, List, [], ◌∷◌, Text, if◌then◌else◌, length, ◌==◌,
}
use public_golibs.Common.Int.{ℤ, pos, pos_part, ◌+ℤ◌, leb_ℤ, ltb_ℤ, wrap64}

pub record EsploraUtxo : Type 0 where
  pub tx_id : Text
  pub vout : ℕ
  pub value : ℤ
  pub confirmed : Bool

-- The last of the outputs at the front that each pay for the target alone.
unfoldable pub single : ℤ → Option EsploraUtxo → List EsploraUtxo → Option EsploraUtxo
single target best [] = best
single target best (u ∷ utxos) =
    let rest = single target (some u) utxos in if leb_ℤ target u.value then rest else best

-- The loop over the first `limit` outputs.
unfoldable pub gather : ℤ → ℕ → ℤ → List EsploraUtxo → List EsploraUtxo
gather target zero total utxos = []
gather target (suc limit) total [] = []
gather target (suc limit) total (u ∷ utxos) =
    let sum = wrap64 (total +ℤ u.value) in
    let rest = gather target limit sum utxos in u ∷ (if leb_ℤ target sum then [] else rest)

abbrev pub limit_of : ℤ → ℕ → ℕ
limit_of max_inputs n =
    if ltb_ℤ (pos 0) max_inputs && ltb_ℤ max_inputs (pos n) then pos_part max_inputs else n

abbrev pub single_or : List EsploraUtxo → Option EsploraUtxo → List EsploraUtxo
single_or gathered none = gathered
single_or gathered (some u) = u ∷ []

unfoldable pub select_utxos : List EsploraUtxo → ℤ → ℤ → List EsploraUtxo
unfolding single gather
select_utxos utxos target max_inputs =
    single_or (gather target (limit_of max_inputs (length utxos)) (pos 0) utxos)
      (single target none utxos)

-- What an input source returns: the total, the inputs, each with its output, its value and its script,
-- and the lack of funds with the required and the available amount.
pub record Input (Hash : Type 0) : Type 0 where
  pub hash : Hash
  pub index : ℕ
  pub sequence : ℕ

pub data Source (Hash : Type 0) : Type 0 where
  invalid_tx_id : Text → Source Hash
  sourced : ℤ → List (Input Hash) → List ℤ → List (List ℕ) → Option (ℤ × ℤ) → Source Hash

abbrev pub add_input : {Hash : Type 0} → ℤ → Input Hash → ℤ → List ℕ → Source Hash → Source Hash
add_input target input value script (invalid_tx_id t) = invalid_tx_id t
add_input target input value script (sourced total inputs values scripts e) =
    sourced total (input ∷ inputs) (value ∷ values) (script ∷ scripts) e

module _ {Hash : Type 0} (new_hash_from_str : Text → Option Hash) where
  abbrev checked : Text → Option Hash → Option Hash
  checked t none = none
  checked t (some h) = if length t == 64 then some h else none

  abbrev with_hash :
      (ℤ → Source Hash) → ℤ → ℤ → List ℕ → ℕ → EsploraUtxo → Option Hash → Source Hash
  with_hash rest total target script sequence u none = invalid_tx_id u.tx_id
  with_hash rest total target script sequence u (some h) =
      add_input target (record { hash = h; index = u.vout; sequence = sequence }) u.value script
        (rest (wrap64 (total +ℤ u.value)))

  pub make_inputs : ℤ → List ℕ → ℕ → List EsploraUtxo → ℤ → Source Hash
  make_inputs target script sequence [] total =
      sourced total [] [] [] (if ltb_ℤ total target then some (target, total) else none)
  make_inputs target script sequence (u ∷ utxos) total =
      with_hash (make_inputs target script sequence utxos) total target script sequence u
        (checked u.tx_id (new_hash_from_str u.tx_id))

  unfoldable pub new_esplora_input_source : List EsploraUtxo → List ℕ → ℕ → ℤ → ℤ → Source Hash
  unfolding make_inputs select_utxos
  new_esplora_input_source utxos script sequence max_inputs target =
      make_inputs target script sequence (select_utxos utxos target max_inputs) (pos 0)
