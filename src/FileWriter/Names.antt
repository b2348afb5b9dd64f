-- ===== src/FileWriter/Names.antt =====
-- filewriter/writer.go: the text of a line and the name of a file.
use public_golibs.Common.{
  ℕ, ◌≡◌, ◌≢◌, ◌↔◌, refl, Bool, false, ◌&&◌, ◌||◌, not, [], ◌∷◌, ◌++◌, arith, Text, codes,
  if◌then◌else◌, ◌==◌, is_empty, trim_space, All-append, Bool-cases, inl, inr,
}
use public_golibs.Common.Split.{Lacks}

abbrev pub default_filename : Text
default_filename = codes "export"

abbrev pub default_ext : Text
default_ext = codes ".txt"

abbrev dashes : Text
dashes = codes "----"

unfoldable pub build_content : Text → Text → Text → Text → Text
build_content one two three four =
    if not (is_empty four)
    then one ++ dashes ++ two ++ dashes ++ three ++ dashes ++ four
    else if not (is_empty three)
    then one ++ dashes ++ two ++ dashes ++ three
    else if not (is_empty two)
    then one ++ dashes ++ two
    else if not (is_empty one)
    then one
    else []

-- strings.ReplaceAll of one character by another
unfoldable pub replace_char : ℕ → ℕ → Text → Text
replace_char old new [] = []
replace_char old new (c ∷ s) = (if c == old then new else c) ∷ replace_char old new s

abbrev pub contains_char : ℕ → Text → Bool
contains_char c [] = false
contains_char c (d ∷ s) = d == c || contains_char c s

-- filepath.Ext: the end of the name from its last dot, if no slash follows.
unfoldable pub ext : Text → Text
ext [] = []
ext (c ∷ s) =
    let rest = ext s in
    if not (is_empty rest)
    then rest
    else if c == b'.' && not (contains_char b'/' s)
    then c ∷ s
    else []

abbrev named : Text → Text
named name = if is_empty name then default_filename else name

abbrev without_slashes : Text → Text
without_slashes name = replace_char b'\\' b'_' (replace_char b'/' b'_' name)

abbrev with_ext : Text → Text
with_ext name = if is_empty (ext name) then name ++ default_ext else name

unfoldable pub normalize_filename : Text → Text
normalize_filename filename = with_ext (without_slashes (named (trim_space filename)))

-- What is behind in an empty text is empty.
behind_empty : (a b : Text) → a ++ b ≡ [] → b ≡ []
behind_empty [] b h = h
behind_empty (c ∷ a) b h = cc

not_empty : (a : Text) (c : ℕ) (b : Text) → a ++ c ∷ b ≢ []
not_empty a c b h = let h' = behind_empty a (c ∷ b) h in cc

-- The content is empty just if all four parts are.
pub build_content_empty :
    (one two three four : Text)
    → (build_content one two three four ≡ [])
      ↔ ((one ≡ []) × (two ≡ []) × (three ≡ []) × (four ≡ []))
unfolding build_content
build_content_empty [] [] [] [] = ground arith
build_content_empty (c ∷ a) [] [] [] = ground arith
build_content_empty a (c ∷ b) [] [] =
    (λ h. absurd (not_empty (a ++ dashes) c b h), λ (o, t, r, f). cc)
build_content_empty a b (c ∷ d) [] =
    (λ h. absurd (not_empty (a ++ dashes ++ b ++ dashes) c d h), λ (o, t, r, f). cc)
build_content_empty a b d (c ∷ e) =
    (λ h. absurd (not_empty (a ++ dashes ++ b ++ dashes ++ d ++ dashes) c e h), λ (o, t, r, f). cc)

pub replace_char-Lacks : (old new : ℕ) (s : Text) → new ≢ old → Lacks old (replace_char old new s)
unfolding replace_char
replace_char-Lacks old new [] d = tt
replace_char-Lacks old new (c ∷ s) d = ground (arith, replace_char-Lacks old new s d)

pub replace_char-keeps :
    (c old new : ℕ) (s : Text) → new ≢ c → Lacks c s → Lacks c (replace_char old new s)
unfolding replace_char
replace_char-keeps c old new [] d l = tt
replace_char-keeps c old new (x ∷ s) d l = ground (arith, replace_char-keeps c old new s d l.1)

ext-append : (s : Text) → is_empty (ext (s ++ default_ext)) ≡ false
unfolding ext
ext-append [] = refl
ext-append (c ∷ s) = ground (arith, ext-append s)

with_ext-Lacks : (c : ℕ) (s : Text) → Lacks c default_ext → Lacks c s → Lacks c (with_ext s)
with_ext-Lacks c s d l = elim (Bool-cases (is_empty (ext s))) [
  | inl e ↦ rw e (All-append _ s default_ext l d)
  | inr e ↦ rw e l
]

with_ext-ext : (s : Text) → is_empty (ext (with_ext s)) ≡ false
with_ext-ext s = elim (Bool-cases (is_empty (ext s))) [
  | inl e ↦ rw e (ext-append s)
  | inr e ↦ rw (e, e) refl
]

-- Whatever text it is made from, the name of a file has neither a slash nor a backslash, so it names no
-- other directory by them, and it has an extension, so it is not empty.
pub normalize_filename_lem :
    (filename : Text)
    → Lacks b'/' (normalize_filename filename)
      × Lacks b'\\' (normalize_filename filename)
      × (is_empty (ext (normalize_filename filename)) ≡ false)
unfolding normalize_filename
normalize_filename_lem filename =
    let name = named (trim_space filename) in
    let first = replace_char b'/' b'_' name in
    (
      with_ext-Lacks b'/' (without_slashes name) (ground arith) (
          replace_char-keeps b'/' b'\\' b'_' first (omega arith)
            (replace_char-Lacks b'/' b'_' name (omega arith))),
      with_ext-Lacks b'\\' (without_slashes name) (ground arith)
          (replace_char-Lacks b'\\' b'_' first (omega arith)),
      with_ext-ext (without_slashes name),
    )
