-- ===== src/FileWriter/Paths.antt =====
-- Package filepath on Unix, as far as filewriter/writer.go uses it.
use public_golibs.Common.{
  Bool, false, ◌||◌, List, [], ◌∷◌, ◌++◌, Text, codes, if◌then◌else◌, ◌==◌, is_empty, text_eq,
}
use public_golibs.Common.Split.{split, join}

abbrev dot_dot : Text
dot_dot = codes ".."

-- The parts kept so far stand with the last one first.
abbrev keep_part : Bool → List Text → Text → List Text
keep_part rooted [] part =
    if is_empty part || text_eq part (codes ".")
    then []
    else if text_eq part dot_dot
    then (if rooted then [] else part ∷ [])
    else part ∷ []
keep_part rooted (last ∷ kept) part =
    if is_empty part || text_eq part (codes ".")
    then last ∷ kept
    else if text_eq part dot_dot
    then (if text_eq last dot_dot then part ∷ last ∷ kept else kept)
    else part ∷ last ∷ kept

abbrev keep_parts : Bool → List Text → List Text → List Text
keep_parts rooted kept [] = kept
keep_parts rooted kept (part ∷ rest) = keep_parts rooted (keep_part rooted kept part) rest

abbrev onto : List Text → List Text → List Text
onto [] done = done
onto (part ∷ kept) done = onto kept (part ∷ done)

abbrev is_rooted : Text → Bool
is_rooted [] = false
is_rooted (c ∷ s) = c == b'/'

abbrev spelled : Bool → Text → Text
spelled rooted body = if rooted then b'/' ∷ body else if is_empty body then codes "." else body

-- filepath.Clean
unfoldable pub clean : Text → Text
unfolding split join
clean path =
    let rooted = is_rooted path in
    spelled rooted (join b'/' (onto (keep_parts rooted [] (split b'/' path)) []))

-- filepath.Join of two parts that are not empty
unfoldable pub join_path : Text → Text → Text
unfolding clean
join_path dir name = clean (dir ++ b'/' ∷ name)
