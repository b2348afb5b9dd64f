-- ===== src/Web3Utils/Bitcoin/Sweep.antt =====
-- web3utils/bitcoin/transaction.go: sending all that an address has, from its unspent outputs on, and the
-- check of the outputs that are spent. The fee for a size, with the rate that was found, the dust limit,
-- signing (with the execution of the scripts), the hashes and the service are arguments; those of one call
-- do not change.
use public_golibs.Common.{
  ℕ, zero, suc, Bool, true, false, ◌&&◌, ◌||◌, not, Option, none, some, List, [], ◌∷◌, Text,
  if◌then◌else◌, length, ltb, text_eq, trim_space, get_elem?, ◌⊎◌, inl, inr, ◌-◌,
}
use public_golibs.Common.Int.{ℤ, pos, ltb_ℤ, leb_ℤ, ◌+ℤ◌, ◌-ℤ◌, wrap64, two63}
use public_golibs.Common.Words.{to_lower}
use public_golibs.Web3Utils.Bitcoin.Coins.{EsploraUtxo, Input}
use public_golibs.Web3Utils.Bitcoin.Unspent.{is_transaction_id}

pub record Previous : Type 0 where
  pub tx_hash : Text
  pub outputs : List (ℤ × List ℕ)

pub data VerifyError : Type 0 where
  inputs_differ hash_mismatch no_output value_mismatch script_mismatch : VerifyError
  not_fetched : Text → VerifyError

pub data SweepError : Type 0 where
  no_utxos too_many_inputs total_overflows not_affordable below_dust : SweepError
  not_converged not_created invalid_response other_id : SweepError
  invalid_utxo no_fee_rate sign_failed post_failed : Text → SweepError
  not_verified : VerifyError → SweepError

pub data Result {ℓ} (A : Type ℓ) : Type ℓ where
  ok : A → Result A
  err : SweepError → Result A

-- What is signed: its output, its virtual size, its bytes and its identifier.
pub record Signed : Type 0 where
  pub amount : ℤ
  pub vsize : ℤ
  pub raw : Text
  pub id : Text

abbrev pub eq_ℤ : ℤ → ℤ → Bool
eq_ℤ a b = leb_ℤ a b && leb_ℤ b a

abbrev pub check_output : Option (ℤ × List ℕ) → ℤ → List ℕ → Option VerifyError
check_output none value script = some no_output
check_output (some (v, s)) value script =
    if not (eq_ℤ v value)
    then some value_mismatch
    else if not (text_eq s script)
    then some script_mismatch
    else none

abbrev pub check_previous : Text → Previous ⊎ Text → ℕ → ℤ → List ℕ → Option VerifyError
check_previous id (inr e) index value script = some (not_fetched e)
check_previous id (inl p) index value script =
    if not (text_eq p.tx_hash id)
    then some hash_mismatch
    else check_output (get_elem? p.outputs index) value script

abbrev pub first_error : Option VerifyError → Option VerifyError → Option VerifyError
first_error (some e) later = some e
first_error none later = later

module _ {Hash : Type 0} (show : Hash → Text) (fetch : Text → Previous ⊎ Text) where
  -- The loop, over lists of one length.
  unfoldable pub verify_inputs : List (Input Hash) → List ℤ → List (List ℕ) → Option VerifyError
  verify_inputs [] values scripts = none
  verify_inputs (i ∷ inputs) [] scripts = none
  verify_inputs (i ∷ inputs) (v ∷ values) [] = none
  verify_inputs (i ∷ inputs) (v ∷ values) (s ∷ scripts) =
      first_error (check_previous (show i.hash) (fetch (show i.hash)) i.index v s)
        (verify_inputs inputs values scripts)

  unfoldable pub verify_selected_prev_outputs :
      List (Input Hash) → List ℤ → List (List ℕ) → Option VerifyError
  unfolding verify_inputs
  verify_selected_prev_outputs inputs values scripts =
      if ltb (length inputs) (length scripts)
        || ltb (length scripts) (length inputs)
        || ltb (length inputs) (length values)
        || ltb (length values) (length inputs)
      then some inputs_differ
      else verify_inputs inputs values scripts

-- The value of the outputs, in the 64 bits of the running sum.
abbrev pub sum_outputs : ℤ → List ℤ → ℤ
sum_outputs total [] = total
sum_outputs total (v ∷ values) = sum_outputs (wrap64 (total +ℤ v)) values

unfoldable pub transaction_fee : ℤ → List ℤ → ℤ
transaction_fee total outputs = wrap64 (total -ℤ sum_outputs (pos 0) outputs)

abbrev pub max_int64 : ℤ
max_int64 = pos (two63 - 1)

abbrev pub Inputs : Type 0 → Type 0
Inputs Hash = List (Input Hash) × List ℤ × ℤ

abbrev pub with_input :
    {Hash : Type 0} → Input Hash → ℤ → Result (Inputs Hash) → Result (Inputs Hash)
with_input input value (err e) = err e
with_input input value (ok (inputs, values, total)) = ok (input ∷ inputs, value ∷ values, total)

abbrev pub sweep_input :
    {Hash : Type 0}
    → ℕ
    → ℤ
    → EsploraUtxo
    → Option Hash
    → Result (Inputs Hash)
    → Result (Inputs Hash)
sweep_input sequence total u none rest = err (invalid_utxo u.tx_id)
sweep_input sequence total u (some h) rest =
    if ltb_ℤ (wrap64 (max_int64 -ℤ total)) u.value
    then err total_overflows
    else with_input (record { hash = h; index = u.vout; sequence = sequence }) u.value rest

-- The loop over the outputs, with the total so far.
unfoldable pub sweep_inputs :
    {Hash : Type 0} → (Text → Option Hash) → ℕ → List EsploraUtxo → ℤ → Result (Inputs Hash)
unfolding wrap64 ◌-ℤ◌ ◌+ℤ◌
sweep_inputs new_hash sequence [] total = ok ([], [], total)
sweep_inputs new_hash sequence (u ∷ utxos) total =
    sweep_input sequence total u (new_hash u.tx_id)
      (sweep_inputs new_hash sequence utxos (wrap64 (total +ℤ u.value)))

module _ (fee_of : ℤ → ℤ) (is_dust : ℤ → Bool) (sign : ℤ → (ℤ × Text × Text) ⊎ Text) where
  -- A fee that is too low is raised by what is missing, and there is another attempt.
  abbrev pub after_signing :
      ℤ → ℤ → ℤ → (ℤ → Result Signed) → (ℤ × Text × Text) ⊎ Text → Result Signed
  after_signing total amount fee again (inr e) = err (sign_failed e)
  after_signing total amount fee again (inl (vsize, raw, id)) =
      let actual = transaction_fee total (amount ∷ []) in
      if leb_ℤ (fee_of vsize) actual
      then ok (record { amount = amount; vsize = vsize; raw = raw; id = id })
      else again (wrap64 (fee +ℤ wrap64 (fee_of vsize -ℤ actual)))

  abbrev pub verified : Option VerifyError → Result Signed → Result Signed
  verified (some e) r = err (not_verified e)
  verified none r = r

  -- One attempt, with the amount that the fee leaves.
  abbrev pub attempt : ℤ → Option VerifyError → ℤ → ℤ → (ℤ → Result Signed) → Result Signed
  attempt total check fee amount again =
      if leb_ℤ amount (pos 0)
      then err not_affordable
      else if is_dust amount
      then err below_dust
      else verified check (after_signing total amount fee again (sign amount))

  -- The attempts that are left; the outputs are checked in the first.
  unfoldable pub sweep_attempts : ℕ → ℤ → Option VerifyError → ℤ → Result Signed
  unfolding transaction_fee
  sweep_attempts zero total check fee = err not_created
  sweep_attempts (suc zero) total check fee =
      attempt total check fee (wrap64 (total -ℤ fee)) (λ more. err not_converged)
  sweep_attempts (suc (suc n)) total check fee =
      attempt total check fee (wrap64 (total -ℤ fee)) (sweep_attempts (suc n) total none)

abbrev pub at_least_one : ℤ → ℤ
at_least_one fee = if ltb_ℤ fee (pos 1) then pos 1 else fee

abbrev pub accepted : Signed → Text ⊎ Text → Result Signed
accepted s (inr e) = err (post_failed e)
accepted s (inl response) =
    let t = trim_space response in
    if not (is_transaction_id t)
    then err invalid_response
    else if not (text_eq (to_lower t) (to_lower s.id))
    then err other_id
    else ok s

abbrev pub broadcast : (Text → Text ⊎ Text) → Result Signed → Result Signed
broadcast post (err e) = err e
broadcast post (ok s) = accepted s (post s.raw)

-- What the rest of the program and other packages answer in one call.
pub record Services (Hash : Type 0) : Type 0 where
  pub new_hash : Text → Option Hash
  pub show : Hash → Text
  pub fetch : Text → Previous ⊎ Text
  pub fee_of : (ℤ → ℤ) ⊎ Text
  pub estimated_vsize : ℤ
  pub is_dust : ℤ → Bool
  pub sign : List (Input Hash) → ℤ → (ℤ × Text × Text) ⊎ Text
  pub post : Text → Text ⊎ Text

pub record SweepOptions : Type 0 where
  pub max_inputs : ℤ
  pub verify_utxos : Bool
  pub enable_rbf : Bool

abbrev pub repeated : ℕ → List ℕ → List (List ℕ)
repeated zero script = []
repeated (suc n) script = script ∷ repeated n script

abbrev pub sweep_from :
    {Hash : Type 0}
    → Services Hash
    → SweepOptions
    → List ℕ
    → (ℤ → ℤ)
    → Result (Inputs Hash)
    → Result Signed
sweep_from s options script fee_of (err e) = err e
sweep_from s options script fee_of (ok (inputs, values, total)) =
    let found =
      verify_selected_prev_outputs s.show s.fetch inputs values (repeated (length inputs) script) in
    let check = if options.verify_utxos then found else none in
    broadcast s.post (
      sweep_attempts fee_of s.is_dust (s.sign inputs) 4 total check
        (at_least_one (fee_of s.estimated_vsize)))

abbrev pub max_sequence : ℕ
max_sequence = 0xFFFFFFFF

abbrev pub sequence_of : SweepOptions → ℕ
sequence_of options = if options.enable_rbf then max_sequence - 2 else max_sequence

abbrev pub sweep_rated :
    {Hash : Type 0}
    → Services Hash
    → SweepOptions
    → List ℕ
    → List EsploraUtxo
    → (ℤ → ℤ) ⊎ Text
    → Result Signed
sweep_rated s options script utxos (inr e) = err (no_fee_rate e)
sweep_rated s options script utxos (inl fee_of) =
    sweep_from s options script fee_of (sweep_inputs s.new_hash (sequence_of options) utxos (pos 0))

abbrev pub is_none_left : List EsploraUtxo → Bool
is_none_left [] = true
is_none_left (u ∷ utxos) = false

-- buildSignAndBroadcastSweep, from the unspent outputs on, with the script of their address.
unfoldable pub sweep :
    {Hash : Type 0} → Services Hash → SweepOptions → List ℕ → List EsploraUtxo → Result Signed
unfolding sweep_inputs sweep_attempts verify_selected_prev_outputs is_transaction_id
sweep s options script utxos =
    if is_none_left utxos
    then err no_utxos
    else if ltb_ℤ (pos 0) options.max_inputs && ltb_ℤ options.max_inputs (pos (length utxos))
    then err too_many_inputs
    else sweep_rated s options script utxos s.fee_of
