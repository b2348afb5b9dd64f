-- ===== src/Web3Utils/Bitcoin/Fees.antt =====
-- web3utils/bitcoin/transaction.go: the fee rate. Rates are floating-point numbers, whose tests and product
-- are arguments; the estimates of the service are a list in the order in which a map is gone through.
use public_golibs.Common.{
  ℕ, zero, suc, Bool, true, ◌&&◌, ◌||◌, not, Option, none, some, List, [], ◌∷◌, Text, if◌then◌else◌,
  ltb, leb, ◌⊎◌, inl, inr,
}
use public_golibs.Common.Int.{ℤ, pos, negsuc}
use public_golibs.Common.Words.{atoi}

pub data FeeError : Type 0 where
  fee_not_positive fee_too_high no_estimate : FeeError
  not_answered : Text → FeeError

-- The tests of a rate, and what is computed of one.
pub record Rates (Rate : Type 0) : Type 0 where
  pub is_positive : Rate → Bool
  pub is_finite : Rate → Bool
  pub above_maximum : Rate → Bool
  pub below_one : Rate → Bool
  pub one : Rate
  pub times : Rate → Rate → Rate

module _ {Rate : Type 0} (f : Rates Rate) where
  unfoldable pub validate_fee_rate : Rate → Rate ⊎ FeeError
  validate_fee_rate rate =
      if not (f.is_finite rate) || not (f.is_positive rate)
      then inr fee_not_positive
      else if f.above_maximum rate
      then inr fee_too_high
      else inl (if f.below_one rate then f.one else rate)

  abbrev pub block_target : Option ℤ → Option ℕ
  block_target none = none
  block_target (some (negsuc n)) = none
  block_target (some (pos zero)) = none
  block_target (some (pos (suc n))) = some (suc n)

  abbrev pub put_candidate : Option ℕ → Rate → List (ℕ × Rate) → List (ℕ × Rate)
  put_candidate none rate rest = rest
  put_candidate (some t) rate rest = if f.is_positive rate then (t, rate) ∷ rest else rest

  -- The estimates that the loops do not pass over, with their targets.
  unfoldable pub candidates : List (Text × Rate) → List (ℕ × Rate)
  unfolding atoi
  candidates [] = []
  candidates ((text, rate) ∷ estimates) =
      put_candidate (block_target (atoi text)) rate (candidates estimates)

abbrev pub is_better : {Rate : Type 0} → ℕ → ℕ → Option (ℕ × Rate) → Bool
is_better target t none = leb t target
is_better target t (some (best, rate)) = leb t target && ltb best t

-- The loop for the largest target that is at most the one that is wanted.
unfoldable pub largest_below :
    {Rate : Type 0} → ℕ → Option (ℕ × Rate) → List (ℕ × Rate) → Option (ℕ × Rate)
largest_below target best [] = best
largest_below target best ((t, rate) ∷ rest) =
    largest_below target (if is_better target t best then some (t, rate) else best) rest

abbrev pub is_smaller : {Rate : Type 0} → ℕ → Option (ℕ × Rate) → Bool
is_smaller t none = true
is_smaller t (some (best, rate)) = ltb t best

-- The loop for the smallest target.
unfoldable pub smallest : {Rate : Type 0} → Option (ℕ × Rate) → List (ℕ × Rate) → Option (ℕ × Rate)
smallest best [] = best
smallest best ((t, rate) ∷ rest) =
    smallest (if is_smaller t best then some (t, rate) else best) rest

abbrev pub or_smallest : {Rate : Type 0} → Option (ℕ × Rate) → List (ℕ × Rate) → Option (ℕ × Rate)
or_smallest none cs = smallest none cs
or_smallest (some best) cs = some best

unfoldable pub choose_estimate : {Rate : Type 0} → ℕ → List (ℕ × Rate) → Option (ℕ × Rate)
unfolding largest_below smallest
choose_estimate target cs = or_smallest (largest_below target none cs) cs

abbrev pub buffered : {Rate : Type 0} → Rates Rate → Rate → Option (ℕ × Rate) → Rate ⊎ FeeError
buffered f buffer none = inr no_estimate
buffered f buffer (some (target, rate)) = validate_fee_rate f (f.times rate buffer)

abbrev pub estimated :
    {Rate : Type 0} → Rates Rate → ℕ → Rate → List (Text × Rate) ⊎ Text → Rate ⊎ FeeError
estimated f target buffer (inr e) = inr (not_answered e)
estimated f target buffer (inl estimates) =
    buffered f buffer (choose_estimate target (candidates f estimates))

-- With the rate, the wanted target and the buffer of the options.
unfoldable pub resolve_fee_rate :
    {Rate : Type 0} → Rates Rate → Rate → ℕ → Rate → List (Text × Rate) ⊎ Text → Rate ⊎ FeeError
unfolding validate_fee_rate choose_estimate candidates
resolve_fee_rate f given target buffer answer =
    if f.is_positive given then validate_fee_rate f given else estimated f target buffer answer
