-- ===== src/Web3Utils/Bitcoin/Unspent.antt =====
-- web3utils/bitcoin/transaction.go: the unspent outputs of an address, from what the service answers.
use public_golibs.Common.{
  ℕ, ◌≤◌, ◌≡◌, ◌⊎◌, refl, Bool, true, false, ◌&&◌, ◌||◌, not, List, [], ◌∷◌, ◌++◌, arith, Text,
  if◌then◌else◌, length, ltb, leb, ◌==◌, Bool-cases, inl, inr, All, count_by, text_eq, text_eq_iff,
}
use public_golibs.Common.Int.{ℤ, pos, leb_ℤ, ltb_ℤ, ◌≤ℤ◌}
use public_golibs.Common.Decimal.{format}
use public_golibs.Web3Utils.Bitcoin.Coins.{EsploraUtxo}

abbrev pub is_hex_digit : ℕ → Bool
is_hex_digit c =
    (leb b'0' c && leb c b'9') || (leb b'a' c && leb c b'f') || (leb b'A' c && leb c b'F')

abbrev pub all_hex : Text → Bool
all_hex [] = true
all_hex (c ∷ s) = is_hex_digit c && all_hex s

unfoldable pub is_transaction_id : Text → Bool
is_transaction_id t = length t == 64 && all_hex t

unfoldable pub key : EsploraUtxo → Text
key u = u.tx_id ++ b':' ∷ format u.vout

abbrev pub is_usable : Bool → EsploraUtxo → Bool
is_usable include_unconfirmed u =
    ltb_ℤ (pos 0) u.value && is_transaction_id u.tx_id && (include_unconfirmed || u.confirmed)

abbrev pub mem : Text → List Text → Bool
mem k [] = false
mem k (s ∷ seen) = text_eq k s || mem k seen

-- The loop over the answer, with the keys that were seen.
unfoldable pub keep_new : Bool → List Text → List EsploraUtxo → List EsploraUtxo
keep_new include seen [] = []
keep_new include seen (u ∷ rest) =
    let skip = keep_new include seen rest in
    let keep = keep_new include (key u ∷ seen) rest in
    if is_usable include u && not (mem (key u) seen) then u ∷ keep else skip

-- The order of strings, on the characters.
abbrev text_lt : Text → Text → Bool
text_lt s [] = false
text_lt [] (d ∷ t) = true
text_lt (c ∷ s) (d ∷ t) = ltb c d || (c == d && text_lt s t)

abbrev z_eq : ℤ → ℤ → Bool
z_eq a b = leb_ℤ a b && leb_ℤ b a

unfoldable pub goes_before : EsploraUtxo → EsploraUtxo → Bool
goes_before a b =
    if z_eq a.value b.value
    then (if text_eq a.tx_id b.tx_id then ltb a.vout b.vout else text_lt a.tx_id b.tx_id)
    else ltb_ℤ b.value a.value

-- sort.SliceStable
unfoldable pub insert : EsploraUtxo → List EsploraUtxo → List EsploraUtxo
insert u [] = u ∷ []
insert u (v ∷ sorted) =
    let rest = insert u sorted in if goes_before v u then v ∷ rest else u ∷ v ∷ sorted

unfoldable pub sort : List EsploraUtxo → List EsploraUtxo
unfolding insert
sort [] = []
sort (u ∷ utxos) = insert u (sort utxos)

-- The answer of the service, or the error of the request.
unfoldable pub list_unspent : {E : Type 0} → E ⊎ List EsploraUtxo → Bool → E ⊎ List EsploraUtxo
unfolding sort keep_new
list_unspent (inl e) include_unconfirmed = inl e
list_unspent (inr response) include_unconfirmed =
    inr (sort (keep_new include_unconfirmed [] response))

abbrev pub Usable : Bool → List EsploraUtxo → Type 0
Usable include = All (λ u. is_usable include u ≡ true)

abbrev pub Descending : List EsploraUtxo → Type 0
Descending [] = Unit
Descending (u ∷ []) = Unit
Descending (u ∷ v ∷ rest) = (v.value ≤ℤ u.value) × Descending (v ∷ rest)

abbrev pub has_key : Text → EsploraUtxo → Bool
has_key k u = text_eq k (key u)

pub keep_new-Usable :
    (i : Bool) (seen : List Text) (us : List EsploraUtxo) → Usable i (keep_new i seen us)
unfolding keep_new
keep_new-Usable i seen [] = tt
keep_new-Usable i seen (u ∷ us) =
    ground (arith, keep_new-Usable i seen us, keep_new-Usable i (key u ∷ seen) us)

-- A key that was seen does not come again, and any other comes at most once.
abbrev pub bound : Bool → ℕ
bound seen = if seen then 0 else 1

fresh : (a b : Bool) → (a && not b) ≡ true → b ≡ false
fresh a b h = ground arith

pub keep_new-count :
    (i : Bool) (k : Text) (seen : List Text) (us : List EsploraUtxo)
    → count_by (has_key k) (keep_new i seen us) ≤ bound (mem k seen)
unfolding keep_new
keep_new-count i k seen [] = ground arith
keep_new-count i k seen (u ∷ us) =
    let new = is_usable i u && not (mem (key u) seen) in
    let skip = keep_new-count i k seen us in
    let keep = keep_new-count i k (key u ∷ seen) us in
    elim (Bool-cases new) [
      | inl e ↦ rw e (elim (Bool-cases (text_eq k (key u))) [
        | inl same ↦
            let is_new = fresh (is_usable i u) (mem (key u) seen) e in
            let not_seen : mem k seen ≡ false = rw ((text_eq_iff k (key u)).0 same) is_new in
            let none_left = rw same at keep in rw (same, not_seen) (omega (arith, none_left))
        | inr other ↦ let same_left = rw other at keep in rw other same_left
      ])
      | inr e ↦ rw e skip
    ]

insert-Usable :
    (i : Bool) (u : EsploraUtxo) (us : List EsploraUtxo)
    → is_usable i u ≡ true
    → Usable i us
    → Usable i (insert u us)
unfolding insert
insert-Usable i u [] h hs = (h, tt)
insert-Usable i u (v ∷ us) h hs = elim (Bool-cases (goes_before v u)) [
  | inl e ↦ rw e (hs.0, insert-Usable i u us h hs.1)
  | inr e ↦ rw e (h, hs)
]

pub sort-Usable : (i : Bool) (us : List EsploraUtxo) → Usable i us → Usable i (sort us)
unfolding sort
sort-Usable i [] h = tt
sort-Usable i (u ∷ us) h = insert-Usable i u (sort us) h.0 (sort-Usable i us h.1)

insert-count :
    (p : EsploraUtxo → Bool) (u : EsploraUtxo) (us : List EsploraUtxo)
    → count_by p (insert u us) ≡ count_by p (u ∷ us)
unfolding insert
insert-count p u [] = refl
insert-count p u (v ∷ us) = elim (Bool-cases (goes_before v u)) [
  | inl e ↦ rw e (ground (arith, insert-count p u us))
  | inr e ↦ rw e refl
]

pub sort-count :
    (p : EsploraUtxo → Bool) (us : List EsploraUtxo) → count_by p (sort us) ≡ count_by p us
unfolding sort
sort-count p [] = refl
sort-count p (u ∷ us) = ground (arith, insert-count p u (sort us), sort-count p us)

goes_before-le : (a b : EsploraUtxo) → goes_before a b ≡ true → b.value ≤ℤ a.value
unfolding goes_before
goes_before-le a b h = ground arith

not_before-le : (a b : EsploraUtxo) → goes_before a b ≡ false → a.value ≤ℤ b.value
unfolding goes_before
not_before-le a b h = ground arith

insert-Descending :
    (u : EsploraUtxo) (us : List EsploraUtxo) → Descending us → Descending (insert u us)
unfolding insert
insert-Descending u [] h = tt
insert-Descending u (v ∷ []) h = elim (Bool-cases (goes_before v u)) [
  | inl e ↦ rw e (goes_before-le v u e, tt)
  | inr e ↦ rw e (not_before-le v u e, tt)
]
insert-Descending u (v ∷ w ∷ us) h =
    let deeper = insert-Descending u (w ∷ us) h.1 in
    elim (Bool-cases (goes_before v u)) [
      | inl e ↦ rw e (elim (Bool-cases (goes_before w u)) [
        | inl f ↦ rw f (h.0, rw f at deeper)
        | inr f ↦ rw f (goes_before-le v u e, rw f at deeper)
      ])
      | inr e ↦ rw e (not_before-le v u e, h)
    ]

pub sort-Descending : (us : List EsploraUtxo) → Descending (sort us)
unfolding sort
sort-Descending [] = tt
sort-Descending (u ∷ us) = insert-Descending u (sort us) (sort-Descending us)
