-- ===== src/Web3Utils/Bitcoin/Paid.antt =====
-- web3utils/bitcoin/transaction.go: where the money of a sweep goes.
use public_golibs.Common.{
  ℕ, zero, suc, ◌+◌, ◌<◌, ◌≡◌, ap, ◌∙◌, Bool, true, false, ◌&&◌, not, Option, none, some, List, [],
  ◌∷◌, Text, if◌then◌else◌, length, arith, Bool-cases, text_eq, trim_space, All, ◌⊎◌, inl, inr,
}
use public_golibs.Common.Int.{
  ℤ, pos, negsuc, pos_part, neg_part, ltb_ℤ, leb_ℤ, ◌≤ℤ◌, ◌<ℤ◌, ◌+ℤ◌, ◌-ℤ◌, wrap64, wrap64-eq,
  IsInt64, two63, +ℤ_parts, -ℤ_parts, eq_of_parts,
}
use public_golibs.Common.Words.{to_lower}
use public_golibs.Web3Utils.Bitcoin.Unspent.{is_transaction_id}
use public_golibs.Web3Utils.Bitcoin.Coins.{EsploraUtxo}
use public_golibs.Web3Utils.Bitcoin.Select.{total_of}
use public_golibs.Web3Utils.Bitcoin.Sweep.{
  VerifyError, not_converged, Result, ok, err, Signed, Inputs, sweep_inputs, transaction_fee,
  after_signing, verified, attempt, sweep_attempts, accepted, broadcast, Services, SweepOptions,
  sweep_from, sweep_rated, sweep, is_none_left, sequence_of, invalid_response, other_id, no_utxos,
  too_many_inputs, at_least_one, repeated, verify_selected_prev_outputs,
}
use public_golibs.Web3Utils.Bitcoin.InputTotals.{Totals, sweep_inputs-Totals}

wrap64-IsInt64 : (a : ℤ) → IsInt64 (wrap64 a)
unfolding wrap64
wrap64-IsInt64 a = ground arith

-- The amount and the fee are what there is.
pub record IsPaid (fee_of : ℤ → ℤ) (is_dust : ℤ → Bool) (total : ℕ) (s : Signed) : Type 0 where
  pub amount_positive : pos 0 <ℤ s.amount
  pub not_dust : is_dust s.amount ≡ false
  pub fee : ℕ
  pub all_spent : pos_part s.amount + fee ≡ total
  pub fee_enough : fee_of s.vsize ≤ℤ pos fee

difference-IsInt64 :
    (x : ℤ) (n a : ℕ) → pos_part x + a ≡ neg_part x + n → n < two63 → a < two63 → IsInt64 x
difference-IsInt64 (pos p) n a e h i = (omega arith, omega arith)
difference-IsInt64 (negsuc p) n a e h i = (omega arith, omega arith)

zero_plus : (a : ℕ) → pos 0 +ℤ pos a ≡ pos a
zero_plus a = eq_of_parts (pos 0 +ℤ pos a) (pos a) (omega (arith, +ℤ_parts (pos 0) (pos a)))

-- The fee of a transaction with one output is what the output leaves of the total.
transaction_fee-eq :
    (n a : ℕ) → n < two63 → a < two63 → transaction_fee (pos n) (pos a ∷ []) ≡ pos n -ℤ pos a
unfolding transaction_fee
transaction_fee-eq n a h i =
    let out : wrap64 (pos 0 +ℤ pos a) ≡ pos a =
      ap wrap64 (zero_plus a) ∙ wrap64-eq (pos a) (i, omega arith) in
    let diff = pos n -ℤ pos a in
    let fits : IsInt64 diff =
      difference-IsInt64 diff n a (omega (arith, -ℤ_parts (pos n) (pos a))) h i in
    ap (λ x. wrap64 (pos n -ℤ x)) out ∙ wrap64-eq diff fits

-- What is left over is a number where a fee that is not negative is at most as much.
left_over :
    (x : ℤ) (n a : ℕ) (required : ℤ)
    → pos_part x + a ≡ neg_part x + n
    → pos 0 ≤ℤ required
    → required ≤ℤ x
    → (fee : ℕ) × (a + fee ≡ n) × (required ≤ℤ pos fee)
left_over (pos p) n a required e h l = (p, omega arith, l)
left_over (negsuc p) n a required e h l = absurd (omega arith)

-- A result, where there is one, is paid.
abbrev Pays : (ℤ → ℤ) → (ℤ → Bool) → ℕ → Result Signed → Type 0
Pays fee_of is_dust n (ok s) = IsPaid fee_of is_dust n s
Pays fee_of is_dust n (err e) = Unit

module _ (fee_of : ℤ → ℤ) (is_dust : ℤ → Bool) (sign : ℤ → (ℤ × Text × Text) ⊎ Text) (n : ℕ)
    (h : n < two63) (fee_positive : (v : ℤ) → pos 0 ≤ℤ fee_of v) where
  after_signing-Pays :
      (a : ℕ) (fee : ℤ) (again : ℤ → Result Signed) (signed : (ℤ × Text × Text) ⊎ Text)
      → a < two63
      → 0 < a
      → is_dust (pos a) ≡ false
      → ((f : ℤ) → Pays fee_of is_dust n (again f))
      → Pays fee_of is_dust n (after_signing fee_of is_dust sign (pos n) (pos a) fee again signed)
  after_signing-Pays a fee again (inr e) i p dust k = tt
  after_signing-Pays a fee again (inl (vsize, raw, id)) i p dust k =
      let actual = transaction_fee (pos n) (pos a ∷ []) in
      elim (Bool-cases (leb_ℤ (fee_of vsize) actual)) [
        | inl enough ↦
            let diff = pos n -ℤ pos a in
            let covered : fee_of vsize ≤ℤ actual = ground (arith, enough) in
            let covered_diff : fee_of vsize ≤ℤ diff = rw (transaction_fee-eq n a h i) at covered in
            let (left, spent, is_enough) =
              left_over diff n a (fee_of vsize) (omega (arith, -ℤ_parts (pos n) (pos a)))
                (fee_positive vsize) covered_diff in
            rw enough (record {
              amount_positive = omega arith;
              not_dust = dust;
              fee = left;
              all_spent = spent;
              fee_enough = is_enough;
            })
        | inr little ↦ rw little (k (wrap64 (fee +ℤ wrap64 (fee_of vsize -ℤ actual))))
      ]

  positive_amount :
      (amount fee : ℤ) (again : ℤ → Result Signed) (signed : (ℤ × Text × Text) ⊎ Text)
      → IsInt64 amount
      → leb_ℤ amount (pos 0) ≡ false
      → is_dust amount ≡ false
      → ((f : ℤ) → Pays fee_of is_dust n (again f))
      → Pays fee_of is_dust n (after_signing fee_of is_dust sign (pos n) amount fee again signed)
  positive_amount (pos a) fee again signed i rich large k =
      after_signing-Pays a fee again signed i.0 (ground (arith, rich)) large k
  positive_amount (negsuc a) fee again signed i rich large k = absurd (ground (arith, rich))

  verified-Pays :
      (check : Option VerifyError) (r : Result Signed)
      → Pays fee_of is_dust n r
      → Pays fee_of is_dust n (verified fee_of is_dust sign check r)
  verified-Pays none r p = p
  verified-Pays (some e) r p = tt

  attempt-Pays :
      (check : Option VerifyError) (fee amount : ℤ) (again : ℤ → Result Signed)
      → IsInt64 amount
      → ((f : ℤ) → Pays fee_of is_dust n (again f))
      → Pays fee_of is_dust n (attempt fee_of is_dust sign (pos n) check fee amount again)
  attempt-Pays check fee amount again i k = elim (Bool-cases (leb_ℤ amount (pos 0))) [
    | inl poor ↦ rw poor tt
    | inr rich ↦ rw rich (elim (Bool-cases (is_dust amount)) [
      | inl small ↦ rw small tt
      | inr large ↦ rw large (
          verified-Pays check
            (after_signing fee_of is_dust sign (pos n) amount fee again (sign amount))
            (positive_amount amount fee again (sign amount) i rich large k))
    ])
  ]

  sweep_attempts-Pays :
      (attempts : ℕ) (check : Option VerifyError) (fee : ℤ)
      → Pays fee_of is_dust n (sweep_attempts fee_of is_dust sign attempts (pos n) check fee)
  unfolding sweep_attempts
  sweep_attempts-Pays zero check fee = tt
  sweep_attempts-Pays (suc zero) check fee =
      attempt-Pays check fee (wrap64 (pos n -ℤ fee)) (λ more. err not_converged)
        (wrap64-IsInt64 (pos n -ℤ fee)) (λ f. tt)
  sweep_attempts-Pays (suc (suc m)) check fee =
      attempt-Pays check fee (wrap64 (pos n -ℤ fee))
        (sweep_attempts fee_of is_dust sign (suc m) (pos n) none) (wrap64-IsInt64 (pos n -ℤ fee))
        (sweep_attempts-Pays (suc m) none)

either-Pays :
    (fee_of : ℤ → ℤ) (is_dust : ℤ → Bool) (n : ℕ) (b : Bool) (x y : Result Signed)
    → Pays fee_of is_dust n x
    → Pays fee_of is_dust n y
    → Pays fee_of is_dust n (if b then x else y)
either-Pays fee_of is_dust n true x y p q = p
either-Pays fee_of is_dust n false x y p q = q

accepted-Pays :
    (fee_of : ℤ → ℤ) (is_dust : ℤ → Bool) (n : ℕ) (s : Signed) (response : Text ⊎ Text)
    → IsPaid fee_of is_dust n s
    → Pays fee_of is_dust n (accepted s response)
accepted-Pays fee_of is_dust n s (inr e) p = tt
accepted-Pays fee_of is_dust n s (inl response) p =
    either-Pays fee_of is_dust n (not (is_transaction_id (trim_space response)))
      (err invalid_response)
      (if not (text_eq (to_lower (trim_space response)) (to_lower s.id))
        then err other_id
        else ok s)
      tt
      (either-Pays fee_of is_dust n (not (text_eq (to_lower (trim_space response)) (to_lower s.id)))
        (err other_id) (ok s) tt p)

broadcast-Pays :
    (fee_of : ℤ → ℤ) (is_dust : ℤ → Bool) (n : ℕ) (post : Text → Text ⊎ Text) (r : Result Signed)
    → Pays fee_of is_dust n r
    → Pays fee_of is_dust n (broadcast post r)
broadcast-Pays fee_of is_dust n post (ok s) p = accepted-Pays fee_of is_dust n s (post s.raw) p
broadcast-Pays fee_of is_dust n post (err e) p = tt

sweep_from-Pays :
    {Hash : Type 0} (s : Services Hash) (options : SweepOptions) (script : List ℕ) (fee_of : ℤ → ℤ)
    (n : ℕ) (r : Result (Inputs Hash))
    → ((v : ℤ) → pos 0 ≤ℤ fee_of v)
    → Totals n r
    → Pays fee_of s.is_dust n (sweep_from s options script fee_of r)
sweep_from-Pays s options script fee_of n (err e) f t = tt
sweep_from-Pays s options script fee_of n (ok (inputs, values, total)) f t =
    let found =
      verify_selected_prev_outputs s.show s.fetch inputs values (repeated (length inputs) script) in
    let check = if options.verify_utxos then found else none in
    let first = at_least_one (fee_of s.estimated_vsize) in
    rw t.0 (
      broadcast-Pays fee_of s.is_dust n s.post
        (sweep_attempts fee_of s.is_dust (s.sign inputs) 4 (pos n) check first)
        (sweep_attempts-Pays fee_of s.is_dust (s.sign inputs) n t.1 f 4 check first))

-- What a sweep broadcasts, where it succeeds, is paid: the amount is positive and no dust, the amount and
-- the fee are together the value of all outputs of the address, and the fee is at least the one for the
-- size of what was signed. The outputs have positive values, as those that are listed have, and no fee is
-- negative.
pub sweep-IsPaid :
    {Hash : Type 0} (s : Services Hash) (options : SweepOptions) (script : List ℕ)
    (utxos : List EsploraUtxo) (fee_of : ℤ → ℤ) (signed : Signed)
    → All (λ u. pos 0 <ℤ u.value) utxos
    → s.fee_of ≡ inl fee_of
    → ((v : ℤ) → pos 0 ≤ℤ fee_of v)
    → sweep s options script utxos ≡ ok signed
    → IsPaid fee_of s.is_dust (total_of utxos) signed
unfolding sweep
sweep-IsPaid s options script utxos fee_of signed v e f done =
    let n = total_of utxos in
    let inputs = sweep_inputs s.new_hash (sequence_of options) utxos (pos 0) in
    let same : 0 + n ≡ n = omega arith in
    let counted = sweep_inputs-Totals s.new_hash (sequence_of options) utxos 0 (omega arith) v in
    let totals : Totals n inputs = rw same at counted in
    let rated : Pays fee_of s.is_dust n (sweep_rated s options script utxos s.fee_of) =
      simp (e) (sweep_from-Pays s options script fee_of n inputs f totals) in
    let many = ltb_ℤ (pos 0) options.max_inputs && ltb_ℤ options.max_inputs (pos (length utxos)) in
    let paid : Pays fee_of s.is_dust n (sweep s options script utxos) =
      either-Pays fee_of s.is_dust n (is_none_left utxos) (err no_utxos)
        (if many then err too_many_inputs else sweep_rated s options script utxos s.fee_of) tt
        (either-Pays fee_of s.is_dust n many (err too_many_inputs)
          (sweep_rated s options script utxos s.fee_of) tt rated) in
    rw done at paid
