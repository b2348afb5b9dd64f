-- ===== src/Web3Utils/Bitcoin/FeeChoice.antt =====
-- web3utils/bitcoin/transaction.go: which of the estimates gives the fee rate.
use public_golibs.Common.{
  ℕ, ◌≤◌, ◌<◌, ◌≡◌, refl, ap, ◌∙◌, true, false, Option, none, some, List, [], ◌∷◌, leb, arith,
  Bool-cases, Option-cases, All, ◌⊎◌, inl, inr,
}
use public_golibs.Web3Utils.Bitcoin.Fees.{
  is_better, largest_below, is_smaller, smallest, choose_estimate,
}

module _ {Rate : Type 0} where
  abbrev pub In : ℕ × Rate → List (ℕ × Rate) → Type 0
  In c [] = ⊥
  In c (d ∷ cs) = (c ≡ d) ⊎ In c cs

  -- At most the target, and no other is nearer to it from below.
  abbrev pub IsNearest : ℕ → ℕ → List (ℕ × Rate) → Type 0
  IsNearest target best cs = (best ≤ target) × All (λ c. (target < c.0) ⊎ (c.0 ≤ best)) cs

  -- All are above the target, and none is smaller.
  abbrev pub IsLeast : ℕ → ℕ → List (ℕ × Rate) → Type 0
  IsLeast target best cs = All (λ c. target < c.0) cs × All (λ c. best ≤ c.0) cs

  abbrev Below : ℕ → Option (ℕ × Rate) → Type 0
  Below target none = Unit
  Below target (some (b, q)) = b ≤ target

  -- What is found is at least as large as an earlier one.
  abbrev Grows : Option (ℕ × Rate) → Option (ℕ × Rate) → Type 0
  Grows none r = Unit
  Grows (some (b, q)) none = ⊥
  Grows (some (b, q)) (some (b', q')) = b ≤ b'

  Grows-trans : (x y z : Option (ℕ × Rate)) → Grows x y → Grows y z → Grows x z
  Grows-trans none y z f g = tt
  Grows-trans (some (b, q)) none z f g = absurd f
  Grows-trans (some (b, q)) (some (b', q')) none f g = g
  Grows-trans (some (b, q)) (some (b', q')) (some (b'', q'')) f g = omega arith

  better-Below :
      (target t : ℕ) (q : Rate) (best : Option (ℕ × Rate))
      → is_better target t best ≡ true
      → (t ≤ target) × Grows best (some (t, q))
  better-Below target t q none e = (ground (arith, e), tt)
  better-Below target t q (some (b, p)) e = (ground (arith, e), ground (arith, e))

  largest_below-Below :
      (target : ℕ) (best : Option (ℕ × Rate)) (cs : List (ℕ × Rate))
      → Below target best
      → Below target (largest_below target best cs) × Grows best (largest_below target best cs)
  unfolding largest_below
  largest_below-Below target none [] h = (tt, tt)
  largest_below-Below target (some (b, q)) [] h = (h, omega arith)
  largest_below-Below target best ((t, q) ∷ cs) h = elim (Bool-cases (is_better target t best)) [
    | inl better ↦
        let (low, grows) = better-Below target t q best better in
        let (below, more) = largest_below-Below target (some (t, q)) cs low in
        rw better
          (below, Grows-trans best (some (t, q)) (largest_below target (some (t, q)) cs) grows more)
    | inr worse ↦ rw worse (largest_below-Below target best cs h)
  ]

  -- A candidate that was passed is above the target, or not above what is found.
  abbrev Passed : ℕ → ℕ → Option (ℕ × Rate) → Type 0
  Passed target t none = target < t
  Passed target t (some (b, q)) = (target < t) ⊎ (t ≤ b)

  worse-Passed :
      (target t : ℕ) (best r : Option (ℕ × Rate))
      → is_better target t best ≡ false
      → Grows best r
      → Passed target t r
  worse-Passed target t none none e g = ground (arith, e)
  worse-Passed target t none (some (b, q)) e g = inl (ground (arith, e))
  worse-Passed target t (some (b, q)) none e g = absurd g
  worse-Passed target t (some (b, q)) (some (b', q')) e g = elim (Bool-cases (leb t target)) [
    | inl low ↦ inr (ground (arith, e, low, g))
    | inr high ↦ inl (ground (arith, high))
  ]

  taken-Passed :
      (target t : ℕ) (q : Rate) (r : Option (ℕ × Rate)) → Grows (some (t, q)) r → Passed target t r
  taken-Passed target t q none g = absurd g
  taken-Passed target t q (some (b, p)) g = inr g

  largest_below-Passed :
      (target : ℕ) (best r : Option (ℕ × Rate)) (cs : List (ℕ × Rate))
      → Below target best
      → largest_below target best cs ≡ r
      → All (λ c. Passed target c.0 r) cs
  unfolding largest_below
  largest_below-Passed target best r [] h e = tt
  largest_below-Passed target best r ((t, q) ∷ cs) h e =
      elim (Bool-cases (is_better target t best)) [
        | inl better ↦
            let (low, grows) = better-Below target t q best better in
            let rest : largest_below target (some (t, q)) cs ≡ r = rw better at e in
            let more : Grows (some (t, q)) r =
              rw rest at (largest_below-Below target (some (t, q)) cs low).1 in
            (
              taken-Passed target t q r more,
              largest_below-Passed target (some (t, q)) r cs low rest,
            )
        | inr worse ↦
            let rest : largest_below target best cs ≡ r = rw worse at e in
            let more : Grows best r = rw rest at (largest_below-Below target best cs h).1 in
            (worse-Passed target t best r worse more, largest_below-Passed target best r cs h rest)
      ]

  abbrev From : Option (ℕ × Rate) → List (ℕ × Rate) → Option (ℕ × Rate) → Type 0
  From best cs none = Unit
  From best cs (some c) = (best ≡ some c) ⊎ In c cs

  From-cons :
      (best r : Option (ℕ × Rate)) (d : ℕ × Rate) (cs : List (ℕ × Rate))
      → From best cs r
      → From best (d ∷ cs) r
  From-cons best none d cs f = tt
  From-cons best (some c) d cs (inl e) = inl e
  From-cons best (some c) d cs (inr i) = inr (inr i)

  From-head :
      (best r : Option (ℕ × Rate)) (d : ℕ × Rate) (cs : List (ℕ × Rate))
      → From (some d) cs r
      → From best (d ∷ cs) r
  From-head best none d cs f = tt
  From-head best (some c) d cs (inl e) = let same : c ≡ d = cc in inr (inl same)
  From-head best (some c) d cs (inr i) = inr (inr i)

  From-refl : (best : Option (ℕ × Rate)) → From best [] best
  From-refl none = tt
  From-refl (some c) = inl refl

  largest_below-From :
      (target : ℕ) (best : Option (ℕ × Rate)) (cs : List (ℕ × Rate))
      → From best cs (largest_below target best cs)
  unfolding largest_below
  largest_below-From target best [] = From-refl best
  largest_below-From target best ((t, q) ∷ cs) = elim (Bool-cases (is_better target t best)) [
    | inl better ↦ rw better (
        From-head best (largest_below target (some (t, q)) cs) (t, q) cs
          (largest_below-From target (some (t, q)) cs))
    | inr worse ↦ rw worse (
        From-cons best (largest_below target best cs) (t, q) cs (largest_below-From target best cs))
  ]

  -- What is found is at most as large as an earlier one.
  abbrev Shrinks : Option (ℕ × Rate) → Option (ℕ × Rate) → Type 0
  Shrinks none r = Unit
  Shrinks (some (b, q)) none = ⊥
  Shrinks (some (b, q)) (some (b', q')) = b' ≤ b

  abbrev AtMost : ℕ → Option (ℕ × Rate) → Type 0
  AtMost t none = ⊥
  AtMost t (some (b, q)) = b ≤ t

  Shrinks-trans : (x y z : Option (ℕ × Rate)) → Shrinks x y → Shrinks y z → Shrinks x z
  Shrinks-trans none y z f g = tt
  Shrinks-trans (some (b, q)) none z f g = absurd f
  Shrinks-trans (some (b, q)) (some (b', q')) none f g = g
  Shrinks-trans (some (b, q)) (some (b', q')) (some (b'', q'')) f g = omega arith

  AtMost-Shrinks : (t : ℕ) (x y : Option (ℕ × Rate)) → AtMost t x → Shrinks x y → AtMost t y
  AtMost-Shrinks t none y f g = absurd f
  AtMost-Shrinks t (some (b, q)) none f g = g
  AtMost-Shrinks t (some (b, q)) (some (b', q')) f g = omega arith

  smaller-Shrinks :
      (t : ℕ) (q : Rate) (best : Option (ℕ × Rate))
      → is_smaller t best ≡ true
      → Shrinks best (some (t, q))
  smaller-Shrinks t q none e = tt
  smaller-Shrinks t q (some (b, p)) e = ground (arith, e)

  larger-AtMost : (t : ℕ) (best : Option (ℕ × Rate)) → is_smaller t best ≡ false → AtMost t best
  larger-AtMost t none e = cc
  larger-AtMost t (some (b, p)) e = ground (arith, e)

  smallest-Shrinks :
      (best : Option (ℕ × Rate)) (cs : List (ℕ × Rate)) → Shrinks best (smallest best cs)
  unfolding smallest
  smallest-Shrinks none [] = tt
  smallest-Shrinks (some (b, q)) [] = omega arith
  smallest-Shrinks best ((t, q) ∷ cs) = elim (Bool-cases (is_smaller t best)) [
    | inl smaller ↦ rw smaller (
        Shrinks-trans best (some (t, q)) (smallest (some (t, q)) cs)
          (smaller-Shrinks t q best smaller) (smallest-Shrinks (some (t, q)) cs))
    | inr larger ↦ rw larger (smallest-Shrinks best cs)
  ]

  smallest-AtMost :
      (best r : Option (ℕ × Rate)) (cs : List (ℕ × Rate))
      → smallest best cs ≡ r
      → All (λ c. AtMost c.0 r) cs
  unfolding smallest
  smallest-AtMost best r [] e = tt
  smallest-AtMost best r ((t, q) ∷ cs) e = elim (Bool-cases (is_smaller t best)) [
    | inl smaller ↦
        let rest : smallest (some (t, q)) cs ≡ r = rw smaller at e in
        let less : Shrinks (some (t, q)) r = rw rest at (smallest-Shrinks (some (t, q)) cs) in
        (
          AtMost-Shrinks t (some (t, q)) r (omega arith) less,
          smallest-AtMost (some (t, q)) r cs rest,
        )
    | inr larger ↦
        let rest : smallest best cs ≡ r = rw larger at e in
        let less : Shrinks best r = rw rest at (smallest-Shrinks best cs) in
        (AtMost-Shrinks t best r (larger-AtMost t best larger) less, smallest-AtMost best r cs rest)
  ]

  smallest-From :
      (best : Option (ℕ × Rate)) (cs : List (ℕ × Rate)) → From best cs (smallest best cs)
  unfolding smallest
  smallest-From best [] = From-refl best
  smallest-From best ((t, q) ∷ cs) = elim (Bool-cases (is_smaller t best)) [
    | inl smaller ↦
        rw smaller
          (From-head best (smallest (some (t, q)) cs) (t, q) cs (smallest-From (some (t, q)) cs))
    | inr larger ↦ rw larger (From-cons best (smallest best cs) (t, q) cs (smallest-From best cs))
  ]

  From-In : (c : ℕ × Rate) (cs : List (ℕ × Rate)) → From none cs (some c) → In c cs
  From-In c cs (inl e) = cc
  From-In c cs (inr i) = i

  some-injective : (c d : ℕ × Rate) → ◌≡◌ {A = Option (ℕ × Rate)} (some c) (some d) → c ≡ d
  some-injective c d e = cc

  -- The estimate that the fee rate is taken from is one of those that the service gave and that are not
  -- passed over, and either its target is at most the wanted one and no other target is nearer to it from
  -- below, or all targets are above the wanted one and none is smaller than this.
  pub choose_estimate-IsNearest :
      (target : ℕ) (cs : List (ℕ × Rate)) (t : ℕ) (rate : Rate)
      → choose_estimate target cs ≡ some (t, rate)
      → In (t, rate) cs × (IsNearest target t cs ⊎ IsLeast target t cs)
  unfolding choose_estimate
  choose_estimate-IsNearest target cs t rate e =
      elim (Option-cases (largest_below target none cs)) [
        | inl nothing ↦
            let found : smallest none cs ≡ some (t, rate) = rw nothing at e in
            (
              From-In (t, rate) cs (rw found at (smallest-From none cs)),
              inr (
                largest_below-Passed target none none cs tt nothing,
                smallest-AtMost none (some (t, rate)) cs found,
              ),
            )
        | inr (c, found) ↦
            let same : c ≡ (t, rate) = some-injective c (t, rate) (rw found at e) in
            let found' : largest_below target none cs ≡ some (t, rate) = found ∙ ap some same in
            (
              From-In (t, rate) cs (rw found' at (largest_below-From target none cs)),
              inl (
                rw found' at (largest_below-Below target none cs tt).0,
                largest_below-Passed target none (some (t, rate)) cs tt found',
              ),
            )
      ]
