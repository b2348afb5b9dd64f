-- ===== src/Web3Utils/Bitcoin/Listing.antt =====
-- web3utils/bitcoin/transaction.go: what is listed of the outputs that the service answers.
use public_golibs.Common.{
  ℕ, ◌≤◌, ◌≡◌, ◌⊎◌, refl, Bool, true, false, ◌&&◌, ◌||◌, not, List, [], ◌∷◌, ◌++◌, arith, Text,
  length, Bool-cases, inl, inr, All, count_by, text_eq, text_eq_iff, text_eq_refl,
}
use public_golibs.Common.Int.{pos, ◌≤ℤ◌}
use public_golibs.Web3Utils.Bitcoin.Coins.{EsploraUtxo}
use public_golibs.Web3Utils.Bitcoin.Unspent.{
  all_hex, is_transaction_id, key, is_usable, mem, keep_new, sort, list_unspent, Usable, Descending,
  has_key, keep_new-Usable, keep_new-count, sort-Usable, sort-count, sort-Descending,
}

abbrev pub IsHex : ℕ → Type 0
IsHex c = ((b'0' ≤ c) × (c ≤ b'9')) ⊎ (((b'a' ≤ c) × (c ≤ b'f')) ⊎ ((b'A' ≤ c) × (c ≤ b'F')))

-- An output that is worth listing: it has a value, its transaction has an identifier of 64 hexadecimal
-- digits, and it is confirmed, unless the unconfirmed are asked for.
pub record IsWorthy (include_unconfirmed : Bool) (u : EsploraUtxo) : Type 0 where
  pub some_value : pos 1 ≤ℤ u.value
  pub id_length : length u.tx_id ≡ 64
  pub id_digits : All IsHex u.tx_id
  pub settled : (include_unconfirmed ≡ true) ⊎ (u.confirmed ≡ true)

all_hex-IsHex : (t : Text) → all_hex t ≡ true → All IsHex t
all_hex-IsHex [] h = tt
all_hex-IsHex (c ∷ t) h = ground (arith, all_hex-IsHex t)

IsHex-all_hex : (t : Text) → All IsHex t → all_hex t ≡ true
IsHex-all_hex [] h = refl
IsHex-all_hex (c ∷ t) h = ground (arith, IsHex-all_hex t h.1)

is_usable-IsWorthy : (i : Bool) (u : EsploraUtxo) → is_usable i u ≡ true → IsWorthy i u
unfolding is_transaction_id
is_usable-IsWorthy i u h = ground (arith, all_hex-IsHex u.tx_id)

IsWorthy-is_usable : (i : Bool) (u : EsploraUtxo) → IsWorthy i u → is_usable i u ≡ true
unfolding is_transaction_id
IsWorthy-is_usable i u w = ground (arith, IsHex-all_hex u.tx_id w.id_digits)

All-IsWorthy : (i : Bool) (us : List EsploraUtxo) → Usable i us → All (IsWorthy i) us
All-IsWorthy i [] h = tt
All-IsWorthy i (u ∷ us) h = (is_usable-IsWorthy i u h.0, All-IsWorthy i us h.1)

-- Nothing is kept that the answer does not have.
keep_new-sub :
    (p : EsploraUtxo → Bool) (i : Bool) (seen : List Text) (us : List EsploraUtxo)
    → count_by p (keep_new i seen us) ≤ count_by p us
unfolding keep_new
keep_new-sub p i seen [] = omega arith
keep_new-sub p i seen (u ∷ us) =
    ground (arith, keep_new-sub p i seen us, keep_new-sub p i (key u ∷ seen) us)

abbrev wanted : Bool → Text → List EsploraUtxo → Bool
wanted i k [] = false
wanted i k (u ∷ us) = (is_usable i u && has_key k u) || wanted i k us

wanted-append :
    (i : Bool) (u : EsploraUtxo) (front back : List EsploraUtxo)
    → is_usable i u ≡ true
    → wanted i (key u) (front ++ u ∷ back) ≡ true
wanted-append i u [] back h = rw (h, text_eq_refl (key u)) refl
wanted-append i u (v ∷ front) back h = ground (arith, wanted-append i u front back h)

skipped_other :
    (usable same other k_seen : Bool)
    → (usable && not k_seen) ≡ false
    → k_seen ≡ false
    → ((usable && same) || other) ≡ true
    → other ≡ true
skipped_other usable same other k_seen e n w = ground arith

-- A key of a usable output that was not seen before is among the kept.
keep_new_complete :
    (i : Bool) (k : Text) (seen : List Text) (us : List EsploraUtxo)
    → wanted i k us ≡ true
    → mem k seen ≡ false
    → 1 ≤ count_by (has_key k) (keep_new i seen us)
unfolding keep_new
keep_new_complete i k seen [] w n = cc
keep_new_complete i k seen (u ∷ us) w n = elim (Bool-cases (text_eq k (key u))) [
  | inl same ↦
      let at_k : mem (key u) seen ≡ false = rw (← (text_eq_iff k (key u)).0 same) n in
      let skip = keep_new_complete i k seen us in ground (arith, skip)
  | inr other ↦
      let skip = keep_new_complete i k seen us in
      let keep = keep_new_complete i k (key u ∷ seen) us in ground (arith, skip, keep)
]

-- Of an answer of the service exactly the worthy outputs are listed, each key once: every output listed is
-- worthy and is in the answer, at most as often as there; no two of them have one key; every worthy
-- output of the answer has its key among them; and the largest values come first.
pub record Listing (include_unconfirmed : Bool) (response found : List EsploraUtxo) : Type 0 where
  pub worthy : All (IsWorthy include_unconfirmed) found
  pub from_response : (p : EsploraUtxo → Bool) → count_by p found ≤ count_by p response
  pub once : (k : Text) → count_by (has_key k) found ≤ 1
  pub complete :
      (u : EsploraUtxo) (front back : List EsploraUtxo)
      → response ≡ front ++ u ∷ back
      → IsWorthy include_unconfirmed u
      → 1 ≤ count_by (has_key (key u)) found
  pub sorted : Descending found

sort_complete :
    (i : Bool) (u : EsploraUtxo) (front back response : List EsploraUtxo)
    → response ≡ front ++ u ∷ back
    → IsWorthy i u
    → 1 ≤ count_by (has_key (key u)) (sort (keep_new i [] response))
sort_complete i u front back response e w =
    let there = wanted-append i u front back (IsWorthy-is_usable i u w) in
    rw (sort-count (has_key (key u)) (keep_new i [] response), e)
      (keep_new_complete i (key u) [] (front ++ u ∷ back) there refl)

-- From an answer of the service the listing gives exactly its worthy outputs, one for each key: those of
-- some value with a well-formed identifier and, unless the unconfirmed are asked for, a confirmation. Each
-- is one of the answer, none is missing but for its key being listed already, and the largest values come
-- first.
pub list_unspent-Listing :
    {E : Type 0}
    → (response : List EsploraUtxo) (include_unconfirmed : Bool)
    → (found : List EsploraUtxo) × (list_unspent {E = E} (inr response) include_unconfirmed
        ≡ inr found)
      × Listing include_unconfirmed response found
unfolding list_unspent
list_unspent-Listing response i =
    let kept = keep_new i [] response in
    (
      sort kept,
      refl,
      record {
        worthy = All-IsWorthy i (sort kept) (sort-Usable i kept (keep_new-Usable i [] response));
        from_response = λ p. rw (sort-count p kept) (keep_new-sub p i [] response);
        once = λ k. rw (sort-count (has_key k) kept) (keep_new-count i k [] response);
        complete = λ u front back e w. sort_complete i u front back response e w;
        sorted = sort-Descending kept;
      },
    )
