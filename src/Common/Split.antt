-- ===== src/Common/Split.antt =====
-- strings.SplitN, Split, Cut and Join, by one separator.
use Prim.Native.Nat.{ℕ, zero, suc, ◌≤◌}
use mathlib.Core.Path.{◌≡◌, refl, sym}
use mathlib.Core.Logic.{◌≢◌, inl, inr}
use mathlib.Core.List.{List, [], ◌∷◌, ◌++◌}
use mathlib.Core.Option.{Option, none, some}
use native.Mathlib.Omega.{arith}
use public_golibs.Common.Tests.{◌==◌, if◌then◌else◌, Bool-cases, Option-cases}
use public_golibs.Common.Lists.{length, All}
use public_golibs.Common.Texts.{Text}

-- No character of the text is the separator.
abbrev pub Lacks : ℕ → Text → Type 0
Lacks sep = All (λ c. c ≢ sep)

abbrev consed : ℕ → Option (Text × Text) → Option (Text × Text)
consed c none = none
consed c (some (a, b)) = some (c ∷ a, b)

-- What stands before and behind the first separator.
unfoldable pub cut : ℕ → Text → Option (Text × Text)
cut sep [] = none
cut sep (c ∷ s) = if c == sep then some ([], s) else consed c (cut sep s)

-- strings.SplitN for a positive number of parts
unfoldable pub split_n : ℕ → ℕ → Text → List Text
split_n sep zero s = []
split_n sep (suc zero) s = s ∷ []
split_n sep (suc (suc n)) s = elim (cut sep s) [
  | none ↦ s ∷ []
  | some (a, b) ↦ a ∷ split_n sep (suc n) b
]

abbrev onto_first : ℕ → List Text → List Text
onto_first c [] = []
onto_first c (p ∷ ps) = (c ∷ p) ∷ ps

-- strings.Split
unfoldable pub split : ℕ → Text → List Text
split sep [] = [] ∷ []
split sep (c ∷ s) = if c == sep then [] ∷ split sep s else onto_first c (split sep s)

-- strings.Join
unfoldable pub join : ℕ → List Text → Text
join sep [] = []
join sep (p ∷ []) = p
join sep (p ∷ q ∷ ps) = p ++ sep ∷ join sep (q ∷ ps)

pub cut_append : (sep : ℕ) (a b : Text) → Lacks sep a → cut sep (a ++ sep ∷ b) ≡ some (a, b)
unfolding cut
cut_append sep [] b l = ground arith
cut_append sep (c ∷ a) b l = ground (arith, cut_append sep a b l.1)

pub cut-Lacks : (sep : ℕ) (a : Text) → Lacks sep a → cut sep a ≡ none
unfolding cut
cut-Lacks sep [] l = refl
cut-Lacks sep (c ∷ a) l = ground (arith, cut-Lacks sep a l.1)

-- The two parts spell the text, and the first lacks the separator.
pub cut-some : (sep : ℕ) (s a b : Text) → cut sep s ≡ some (a, b) → (s ≡ a ++ sep ∷ b) × Lacks sep a
unfolding cut
cut-some sep [] a b e = cc
cut-some sep (c ∷ s) a b e = elim (Bool-cases (c == sep)) [
  | inl hit ↦ ground arith
  | inr miss ↦ elim (Option-cases (cut sep s)) [
    | inl e' ↦ ground arith
    | inr (r, e') ↦ ground (arith, cut-some sep s r.0 r.1)
  ]
]

split_n-ne-nil : (sep n : ℕ) (s : Text) → split_n sep (suc n) s ≢ []
unfolding split_n
split_n-ne-nil sep zero s = λ e. cc
split_n-ne-nil sep (suc n) s = ground arith

join-cons :
    (sep : ℕ) (p : Text) (ps : List Text) → ps ≢ [] → join sep (p ∷ ps) ≡ p ++ sep ∷ join sep ps
unfolding join
join-cons sep p [] h = absurd (h refl)
join-cons sep p (q ∷ ps) h = refl

pub split_n-cut :
    (sep n : ℕ) (s a b : Text)
    → cut sep s ≡ some (a, b)
    → split_n sep (suc (suc n)) s ≡ a ∷ split_n sep (suc n) b
unfolding split_n
split_n-cut sep n s a b e = rw (e, split_n)

pub split_n_uncut : (sep n : ℕ) (s : Text) → cut sep s ≡ none → split_n sep (suc n) s ≡ s ∷ []
unfolding split_n
split_n_uncut sep zero s e = refl
split_n_uncut sep (suc n) s e = rw (e, split_n)

-- Joining the parts gives the text back, whatever the number of parts asked for.
pub join-split_n : (sep n : ℕ) (s : Text) → join sep (split_n sep (suc n) s) ≡ s
unfolding split_n
join-split_n sep zero s = unfold join in refl
join-split_n sep (suc n) s = elim (Option-cases (cut sep s)) [
  | inl e ↦ rw (e, split_n) (unfold join in refl)
  | inr (r, e) ↦
      rw (e, split_n)
        (rw
          (
            join-cons sep r.0 (split_n sep (suc n) r.1) (split_n-ne-nil sep n r.1),
            join-split_n sep n r.1,
          )
          (sym (cut-some sep s r.0 r.1 e).0))
]

pub length-split_n : (sep n : ℕ) (s : Text) → length (split_n sep n s) ≤ n
unfolding split_n
length-split_n sep zero s = omega arith
length-split_n sep (suc zero) s = omega arith
length-split_n sep (suc (suc n)) s = elim (Option-cases (cut sep s)) [
  | inl e ↦ rw (e, split_n) (omega arith)
  | inr (r, e) ↦ rw (e, split_n) (omega (arith, length-split_n sep (suc n) r.1))
]

pub split-append : (sep : ℕ) (a b : Text) → Lacks sep a → split sep (a ++ sep ∷ b) ≡ a ∷ split sep b
unfolding split
split-append sep [] b l = ground arith
split-append sep (c ∷ a) b l = ground (arith, split-append sep a b l.1)

pub split-Lacks : (sep : ℕ) (a : Text) → Lacks sep a → split sep a ≡ a ∷ []
unfolding split
split-Lacks sep [] l = refl
split-Lacks sep (c ∷ a) l = ground (arith, split-Lacks sep a l.1)
