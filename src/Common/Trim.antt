-- ===== src/Common/Trim.antt =====
-- strings.TrimRight and TrimSpace: what they leave.
use Prim.Native.Nat.{ℕ}
use mathlib.Core.Path.{◌≡◌, refl}
use mathlib.Core.Bool.{Bool, true, false}
use mathlib.Core.List.{[], ◌∷◌, ◌++◌}
use public_golibs.Common.Lists.{All}
use public_golibs.Common.Texts.{Text, trim_space, trim_left, trim_right, put_unless, is_space}

pub All-imp : {P Q : ℕ → Type 0} → ((c : ℕ) → P c → Q c) → (s : Text) → All P s → All Q s
All-imp f [] h = tt
All-imp f (c ∷ s) h = (f c h.0, All-imp f s h.1)

put_back : (c : ℕ) (s : Text) → put_unless false c s ≡ c ∷ s
put_back c [] = refl
put_back c (d ∷ s) = refl

-- Nothing is trimmed where no character is of the kind, and nothing before one that is not.
pub trim_right-none : (p : ℕ → Bool) (s : Text) → All (λ c. p c ≡ false) s → trim_right p s ≡ s
unfolding trim_right
trim_right-none p [] h = refl
trim_right-none p (c ∷ s) h = rw (trim_right-none p s h.1, h.0) (put_back c s)

put_on : (b : Bool) (d : ℕ) (a s : Text) (c : ℕ) → put_unless b d (a ++ c ∷ s) ≡ d ∷ (a ++ c ∷ s)
put_on b d [] s c = refl
put_on b d (e ∷ a) s c = refl

pub trim_right-append :
    (p : ℕ → Bool) (a s : Text) (c : ℕ)
    → p c ≡ false
    → trim_right p (a ++ c ∷ s) ≡ a ++ c ∷ trim_right p s
unfolding trim_right
trim_right-append p [] s c e = rw e (put_back c (trim_right p s))
trim_right-append p (d ∷ a) s c e =
    rw (trim_right-append p a s c e) (put_on (p d) d a (trim_right p s) c)

pub trim_right-last :
    (p : ℕ → Bool) (a : Text) (c : ℕ)
    → All (λ d. p d ≡ false) a
    → p c ≡ true
    → trim_right p (a ++ c ∷ []) ≡ a
unfolding trim_right
trim_right-last p [] c h e = rw e refl
trim_right-last p (d ∷ a) c h e = rw (trim_right-last p a c h.1 e, h.0) (put_back d a)

put_unless-All :
    (P : ℕ → Type 0) (b : Bool) (c : ℕ) (r : Text) → P c → All P r → All P (put_unless b c r)
put_unless-All P true c [] h hs = tt
put_unless-All P false c [] h hs = (h, tt)
put_unless-All P b c (d ∷ r) h hs = (h, hs)

pub trim_right-All : (P : ℕ → Type 0) (p : ℕ → Bool) (s : Text) → All P s → All P (trim_right p s)
unfolding trim_right
trim_right-All P p [] h = tt
trim_right-All P p (c ∷ s) h =
    put_unless-All P (p c) c (trim_right p s) h.0 (trim_right-All P p s h.1)

pub trim_space-none : (s : Text) → All (λ c. is_space c ≡ false) s → trim_space s ≡ s
unfolding trim_space trim_left
trim_space-none [] h = refl
trim_space-none (c ∷ s) h = rw (h.0) (trim_right-none is_space (c ∷ s) h)
