-- ===== src/Web3Utils/Bitcoin/InputTotals.antt =====
-- web3utils/bitcoin/transaction.go: the total of the inputs of a sweep.
use public_golibs.Common.{
  ℕ, ◌+◌, ◌-◌, ◌<◌, ◌≡◌, ap, ◌∙◌, false, Option, none, some, List, [], ◌∷◌, Text, arith, Bool-cases,
  All, inl, inr,
}
use public_golibs.Common.Int.{
  ℤ, pos, negsuc, pos_part, ltb_ℤ, ◌<ℤ◌, ◌+ℤ◌, ◌-ℤ◌, wrap64, wrap64-eq, two63, +ℤ_parts, -ℤ_parts,
  eq_of_parts,
}
use public_golibs.Web3Utils.Bitcoin.Coins.{EsploraUtxo, Input}
use public_golibs.Web3Utils.Bitcoin.Select.{total_of}
use public_golibs.Web3Utils.Bitcoin.Sweep.{
  Result, ok, err, Inputs, max_int64, with_input, sweep_input, sweep_inputs,
}

-- The total of the inputs is that of the outputs which are spent.
abbrev pub Totals : {Hash : Type 0} → ℕ → Result (Inputs Hash) → Type 0
Totals n (ok (inputs, values, total)) = (total ≡ pos n) × (n < two63)
Totals n (err e) = Unit

room : (t : ℕ) → t < two63 → wrap64 (max_int64 -ℤ pos t) ≡ pos (two63 - 1 - t)
room t h =
    ap wrap64 (
      eq_of_parts (max_int64 -ℤ pos t) (pos (two63 - 1 - t))
        (omega (arith, -ℤ_parts max_int64 (pos t))))
    ∙ wrap64-eq (pos (two63 - 1 - t)) (omega arith, omega arith)

-- A value for which there is room is added without a wrap.
sum_fits :
    (t : ℕ) (v : ℤ)
    → t < two63
    → pos 0 <ℤ v
    → ltb_ℤ (wrap64 (max_int64 -ℤ pos t)) v ≡ false
    → (wrap64 (pos t +ℤ v) ≡ pos (t + pos_part v)) × (t + pos_part v < two63)
sum_fits t (negsuc k) h p e = absurd (omega arith)
sum_fits t (pos k) h p e =
    let e' : ltb_ℤ (pos (two63 - 1 - t)) (pos k) ≡ false = rw (room t h) at e in
    let fits : t + k < two63 = ground (arith, e') in
    (
      ap wrap64
            (eq_of_parts (pos t +ℤ pos k) (pos (t + k)) (omega (arith, +ℤ_parts (pos t) (pos k))))
          ∙ wrap64-eq (pos (t + k)) (fits, omega arith),
      fits,
    )

with_input-Totals :
    {Hash : Type 0} (n : ℕ) (input : Input Hash) (value : ℤ) (r : Result (Inputs Hash))
    → Totals n r
    → Totals n (with_input input value r)
with_input-Totals n input value (ok (inputs, values, total)) h = h
with_input-Totals n input value (err e) h = tt

sweep_input-Totals :
    {Hash : Type 0} (n sequence t : ℕ) (u : EsploraUtxo) (o : Option Hash)
    (rest : Result (Inputs Hash))
    → (ltb_ℤ (wrap64 (max_int64 -ℤ pos t)) u.value ≡ false → Totals n rest)
    → Totals n (sweep_input sequence (pos t) u o rest)
sweep_input-Totals n sequence t u none rest k = tt
sweep_input-Totals n sequence t u (some h) rest k =
    elim (Bool-cases (ltb_ℤ (wrap64 (max_int64 -ℤ pos t)) u.value)) [
      | inl over ↦ rw over tt
      | inr fits ↦ rw fits (
          with_input-Totals n (record { hash = h; index = u.vout; sequence = sequence }) u.value
            rest (k fits))
    ]

pub sweep_inputs-Totals :
    {Hash : Type 0} (new_hash : Text → Option Hash) (sequence : ℕ) (us : List EsploraUtxo) (t : ℕ)
    → t < two63
    → All (λ u. pos 0 <ℤ u.value) us
    → Totals (t + total_of us) (sweep_inputs new_hash sequence us (pos t))
unfolding sweep_inputs
sweep_inputs-Totals new_hash sequence [] t h v = (ap pos (omega arith), omega arith)
sweep_inputs-Totals new_hash sequence (u ∷ us) t h v =
    sweep_input-Totals (t + total_of (u ∷ us)) sequence t u (new_hash u.tx_id)
      (sweep_inputs new_hash sequence us (wrap64 (pos t +ℤ u.value)))
      (λ fits.
        let (sum, less) = sum_fits t u.value h v.0 fits in
        let same : t + total_of (u ∷ us) ≡ t + pos_part u.value + total_of us = omega arith in
        rw (sum, same) (sweep_inputs-Totals new_hash sequence us (t + pos_part u.value) less v.1))
