-- ===== src/Web3Utils/Bitcoin/Select.antt =====
-- web3utils/bitcoin/transaction.go: what selectUTXOs chooses.
use public_golibs.Common.{
  take, ℕ, zero, suc, ◌+◌, ◌≤◌, ◌<◌, ◌≡◌, Option, none, some, List, [], ◌∷◌, arith, length,
  Option-cases, Bool-cases, inl, inr, All,
}
use public_golibs.Common.Int.{ℤ, pos, pos_part, ◌+ℤ◌, leb_ℤ, ◌≤ℤ◌, ◌<ℤ◌, wrap64, two63}
use public_golibs.Web3Utils.Bitcoin.Coins.{EsploraUtxo, single, gather, limit_of, select_utxos}

-- The sum without wrapping of outputs whose values are positive, as those are that listUnspent keeps.
abbrev pub total_of : List EsploraUtxo → ℕ
total_of [] = 0
total_of (u ∷ utxos) = pos_part u.value + total_of utxos

abbrev pub AllPositive : List EsploraUtxo → Type 0
AllPositive = All (λ u. pos 0 <ℤ u.value)

gather-length :
    (target total : ℤ) (n : ℕ) (us : List EsploraUtxo) → length (gather target n total us) ≤ n
unfolding gather
gather-length target total zero us = omega arith
gather-length target total (suc n) [] = omega arith
gather-length target total (suc n) (u ∷ us) =
    ground (arith, gather-length target (wrap64 (total +ℤ u.value)) n us)

-- The running total does not wrap.
sum_eq :
    (t : ℕ) (v : ℤ)
    → pos 0 <ℤ v
    → t + pos_part v < two63
    → wrap64 (pos t +ℤ v) ≡ pos (t + pos_part v)
unfolding wrap64 ◌+ℤ◌
sum_eq t (pos n) h b = ground arith
sum_eq t (ℤ.negsuc n) h b = absurd (omega arith)

gather_covers :
    (goal t n : ℕ) (us : List EsploraUtxo)
    → AllPositive us
    → t + total_of us < two63
    → goal ≤ t + total_of (take n us)
    → goal ≤ t + total_of (gather (pos goal) n (pos t) us)
unfolding gather
gather_covers goal t zero us p b h = h
gather_covers goal t (suc n) [] p b h = h
gather_covers goal t (suc n) (u ∷ us) p b h =
    rw (sum_eq t u.value p.0 (omega arith))
      (ground (arith, gather_covers goal (t + pos_part u.value) n us p.1))

-- What is chosen but for the last.
abbrev pub total_but_last : List EsploraUtxo → ℕ
total_but_last [] = 0
total_but_last (u ∷ []) = 0
total_but_last (u ∷ v ∷ rest) = pos_part u.value + total_but_last (v ∷ rest)

cons_but_last :
    (u : EsploraUtxo) (us : List EsploraUtxo) (t goal : ℕ)
    → t + pos_part u.value < goal
    → t + pos_part u.value + total_but_last us < goal
    → t + total_but_last (u ∷ us) < goal
cons_but_last u [] t goal a b = omega arith
cons_but_last u (v ∷ us) t goal a b = omega arith

gather_minimal :
    (goal t n : ℕ) (us : List EsploraUtxo)
    → AllPositive us
    → t + total_of us < two63
    → t < goal
    → t + total_but_last (gather (pos goal) n (pos t) us) < goal
unfolding gather
gather_minimal goal t zero us p b h = omega arith
gather_minimal goal t (suc n) [] p b h = omega arith
gather_minimal goal t (suc n) (u ∷ us) p b h =
    let sum = t + pos_part u.value in
    rw (sum_eq t u.value p.0 (omega arith)) (elim (Bool-cases (leb_ℤ (pos goal) (pos sum))) [
      | inl e ↦ rw e (omega arith)
      | inr e ↦ rw e (
          cons_but_last u _ t goal (ground arith)
            (gather_minimal goal sum n us p.1 (omega arith) (ground arith)))
    ])

abbrev Covers : ℕ → Option EsploraUtxo → Type 0
Covers goal none = Unit
Covers goal (some u) = pos goal ≤ℤ u.value

single-Covers :
    (goal : ℕ) (best : Option EsploraUtxo) (us : List EsploraUtxo)
    → Covers goal best
    → Covers goal (single (pos goal) best us)
unfolding single
single-Covers goal best [] h = h
single-Covers goal best (v ∷ us) h = elim (Bool-cases (leb_ℤ (pos goal) v.value)) [
  | inl e ↦ rw e (single-Covers goal (some v) us (ground arith))
  | inr e ↦ rw e h
]

covers_total : (goal : ℕ) (u : EsploraUtxo) → pos goal ≤ℤ u.value → goal ≤ total_of (u ∷ [])
covers_total goal u h = ground arith

limit_of-suc : (m : ℤ) (n : ℕ) → 1 ≤ limit_of m (suc n)
limit_of-suc m n = ground arith

-- Where the first outputs, up to the largest number of inputs, pay for the target, the chosen ones do; the
-- outputs have positive values, whose sum is below 2 ^ 63.
pub select_utxos_covers :
    (utxos : List EsploraUtxo) (goal : ℕ) (max_inputs : ℤ)
    → AllPositive utxos
    → total_of utxos < two63
    → goal ≤ total_of (take (limit_of max_inputs (length utxos)) utxos)
    → goal ≤ total_of (select_utxos utxos (pos goal) max_inputs)
unfolding select_utxos
select_utxos_covers utxos goal max_inputs p b h =
    let alone = single-Covers goal none utxos tt in
    elim (Option-cases (single (pos goal) none utxos)) [
      | inl e ↦ rw e (
          omega (
            arith,
            gather_covers goal 0 (limit_of max_inputs (length utxos)) utxos p (omega arith)
                (omega arith),
          ))
      | inr (u, e) ↦
          let fits : Covers goal (some u) = rw e at alone in rw e (covers_total goal u fits)
    ]

-- For a positive target, no more outputs are chosen than are allowed, and none too many: without the last
-- one those that are chosen do not pay for the target. The outputs have positive values, whose sum is
-- below 2 ^ 63.
pub select_utxos_minimal :
    (utxos : List EsploraUtxo) (goal : ℕ) (max_inputs : ℤ)
    → AllPositive utxos
    → total_of utxos < two63
    → 0 < goal
    → (length (select_utxos utxos (pos goal) max_inputs) ≤ limit_of max_inputs (length utxos))
      × (total_but_last (select_utxos utxos (pos goal) max_inputs) < goal)
unfolding select_utxos
select_utxos_minimal [] goal max_inputs p b h = unfold gather single in ground arith
select_utxos_minimal (v ∷ us) goal max_inputs p b h =
    let n = limit_of max_inputs (length (v ∷ us)) in
    elim (Option-cases (single (pos goal) none (v ∷ us))) [
      | inl e ↦ rw e (
        gather-length (pos goal) (pos 0) n (v ∷ us),
        omega (arith, gather_minimal goal 0 n (v ∷ us) p (omega arith) h),
      )
      | inr (u, e) ↦ rw e (limit_of-suc max_inputs (length us), h)
    ]
