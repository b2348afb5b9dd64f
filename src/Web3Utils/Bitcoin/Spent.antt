-- ===== src/Web3Utils/Bitcoin/Spent.antt =====
-- web3utils/bitcoin/transaction.go: the check of the outputs that are spent.
use public_golibs.Common.{
  ℕ, ◌≡◌, refl, true, ◌||◌, Option, none, some, List, [], ◌∷◌, Text, length, ltb, text_eq,
  text_eq→eq, get_elem?, arith, Bool-cases, ◌⊎◌, inl, inr,
}
use public_golibs.Common.Int.{ℤ, eq_of_parts}
use public_golibs.Web3Utils.Bitcoin.Coins.{Input}
use public_golibs.Web3Utils.Bitcoin.Sweep.{
  Previous, VerifyError, eq_ℤ, check_output, check_previous, first_error, verify_inputs,
  verify_selected_prev_outputs,
}

-- The transaction that the service gives for an identifier has it, and the output of this value and script.
abbrev pub HasOutput : Text → Previous ⊎ Text → ℕ → ℤ → List ℕ → Type 0
HasOutput id (inr e) index value script = ⊥
HasOutput id (inl p) index value script =
    (p.tx_hash ≡ id) × (get_elem? p.outputs index ≡ some (value, script))

eq_ℤ→eq : (a b : ℤ) → eq_ℤ a b ≡ true → a ≡ b
eq_ℤ→eq a b h = eq_of_parts a b (ground (arith, h))

check_output-lem :
    (o : Option (ℤ × List ℕ)) (value : ℤ) (script : List ℕ)
    → check_output o value script ≡ none
    → o ≡ some (value, script)
check_output-lem none value script h = cc
check_output-lem (some (v, s)) value script h = elim (Bool-cases (eq_ℤ v value)) [
  | inl same ↦ elim (Bool-cases (text_eq s script)) [
    | inl same_script ↦
        let a = eq_ℤ→eq v value same in let b = text_eq→eq s script same_script in rw (a, b) refl
    | inr other ↦ let wrong = rw (same, other) at h in cc
  ]
  | inr other ↦ let wrong = rw other at h in cc
]

check_previous-HasOutput :
    (id : Text) (r : Previous ⊎ Text) (index : ℕ) (value : ℤ) (script : List ℕ)
    → check_previous id r index value script ≡ none
    → HasOutput id r index value script
check_previous-HasOutput id (inr e) index value script h = cc
check_previous-HasOutput id (inl p) index value script h =
    elim (Bool-cases (text_eq p.tx_hash id)) [
      | inl same ↦
          let rest : check_output (get_elem? p.outputs index) value script ≡ none = rw same at h in
          (
            text_eq→eq p.tx_hash id same,
            check_output-lem (get_elem? p.outputs index) value script rest,
          )
      | inr other ↦ let wrong = rw other at h in cc
    ]

first_error-none : (a b : Option VerifyError) → first_error a b ≡ none → (a ≡ none) × (b ≡ none)
first_error-none none b h = (refl, h)
first_error-none (some e) b h = cc

module _ {Hash : Type 0} (show : Hash → Text) (fetch : Text → Previous ⊎ Text) where
  -- Each input has its value and its script, and the output that it refers to has them too.
  abbrev pub AllHaveOutputs : List (Input Hash) → List ℤ → List (List ℕ) → Type 0
  AllHaveOutputs [] [] [] = Unit
  AllHaveOutputs [] [] (s ∷ scripts) = ⊥
  AllHaveOutputs [] (v ∷ values) scripts = ⊥
  AllHaveOutputs (i ∷ inputs) [] scripts = ⊥
  AllHaveOutputs (i ∷ inputs) (v ∷ values) [] = ⊥
  AllHaveOutputs (i ∷ inputs) (v ∷ values) (s ∷ scripts) =
      HasOutput (show i.hash) (fetch (show i.hash)) i.index v s
      × AllHaveOutputs inputs values scripts

  verify_inputs-AllHaveOutputs :
      (inputs : List (Input Hash)) (values : List ℤ) (scripts : List (List ℕ))
      → length inputs ≡ length scripts
      → length inputs ≡ length values
      → verify_inputs show fetch inputs values scripts ≡ none
      → AllHaveOutputs inputs values scripts
  unfolding verify_inputs
  verify_inputs-AllHaveOutputs [] [] [] a b h = tt
  verify_inputs-AllHaveOutputs [] [] (s ∷ scripts) a b h = absurd (omega arith)
  verify_inputs-AllHaveOutputs [] (v ∷ values) scripts a b h = absurd (omega arith)
  verify_inputs-AllHaveOutputs (i ∷ inputs) [] scripts a b h = absurd (omega arith)
  verify_inputs-AllHaveOutputs (i ∷ inputs) (v ∷ values) [] a b h = absurd (omega arith)
  verify_inputs-AllHaveOutputs (i ∷ inputs) (v ∷ values) (s ∷ scripts) a b h =
      let id = show i.hash in
      let (here, later) =
        first_error-none (check_previous id (fetch id) i.index v s)
          (verify_inputs show fetch inputs values scripts) h in
      (
        check_previous-HasOutput id (fetch id) i.index v s here,
        verify_inputs-AllHaveOutputs inputs values scripts (omega arith) (omega arith) later,
      )

  -- Where the check of the spent outputs finds nothing, there is a value and a script for each input, and
  -- the transaction that the service gives for the identifier of the input has this identifier and, at the
  -- index of the input, an output of this value and this script.
  pub verify_selected-AllHaveOutputs :
      (inputs : List (Input Hash)) (values : List ℤ) (scripts : List (List ℕ))
      → verify_selected_prev_outputs show fetch inputs values scripts ≡ none
      → AllHaveOutputs inputs values scripts
  unfolding verify_selected_prev_outputs
  verify_selected-AllHaveOutputs inputs values scripts h =
      let differ =
        ltb (length inputs) (length scripts)
        || ltb (length scripts) (length inputs)
        || ltb (length inputs) (length values)
        || ltb (length values) (length inputs) in
      elim (Bool-cases differ) [
        | inl yes_differ ↦ let wrong = rw yes_differ at h in cc
        | inr same ↦
            let checked : verify_inputs show fetch inputs values scripts ≡ none = rw same at h in
            verify_inputs-AllHaveOutputs inputs values scripts (ground (arith, same))
              (ground (arith, same)) checked
      ]
