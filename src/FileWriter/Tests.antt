-- ===== src/FileWriter/Tests.antt =====
-- Runs of the file writer, and its theorems at concrete inputs.
use public_golibs.Common.{
  ◌≡◌, refl, false, none, some, List, [], ◌∷◌, ◌++◌, codes, text_eq, is_empty, inl, trim_space,
  trim_right,
}
use public_golibs.Common.Split.{Lacks}
use public_golibs.FileWriter.Names.{normalize_filename, normalize_filename_lem, ext}
use public_golibs.FileWriter.Paths.{clean, join_path}
use public_golibs.FileWriter.Writer.{Os, World, new_in, append_line, resolve_dir, ok, line_of}
use public_golibs.FileWriter.Keeps.{
  Call, appends, sets_dir, closes, run_calls, IsValid, run_calls-IsValid,
}
use public_golibs.FileWriter.Grows.{Grows, run_calls-Grows}
use public_golibs.FileWriter.Appends.{append_line_written, extend}
use public_golibs.FileWriter.Closed.{Sealed, close_seals}
use public_golibs.FileWriter.Default.{Globals}

clean_up : clean (codes "/data/./x/../log//") ≡ codes "/data/log"
unfolding clean text_eq
clean_up = refl

clean_relative : clean (codes "a/../../b") ≡ codes "../b"
unfolding clean text_eq
clean_relative = refl

clean_empty : clean [] ≡ codes "."
unfolding clean text_eq
clean_empty = refl

abbrev calm : Os
calm = record {
  getwd = (none, codes "/home");
  mkdir_error = λ path. none;
  open_error = λ path. none;
  write_error = λ path text. none;
  sync_error = λ path. none;
  close_error = λ path. none;
}

-- A full disk takes two characters of each write.
abbrev full_disk : Os
full_disk = record calm { write_error = λ path text. some (2, codes "ENOSPC") }

abbrev start : World
start = record { writer = new_in (codes "/data"); disk = λ path. [] }

one_full : is_empty (line_of (codes "one")) ≡ false
unfolding trim_right
one_full = refl

one_line_full : is_empty (line_of (codes "one\n")) ≡ false
unfolding trim_right
one_line_full = refl

slash_resolves : resolve_dir calm (codes "/new/") ≡ ok (codes "/new")
unfolding resolve_dir clean text_eq trim_space
slash_resolves = refl

new_resolves : resolve_dir calm (codes "/new") ≡ ok (codes "/new")
unfolding resolve_dir clean text_eq trim_space
new_resolves = refl

data_resolves : resolve_dir calm (codes "/data") ≡ ok (codes "/data")
unfolding resolve_dir clean text_eq trim_space
data_resolves = refl

abbrev calls : List (Os × Call)
calls =
    (calm, appends (codes "a/b") (codes "one\n"))
    ∷ (full_disk, appends (codes "a/b") (codes "two"))
    ∷ (calm, sets_dir (codes "/new/"))
    ∷ (calm, appends (codes "a/b") (codes "three"))
    ∷ (calm, closes)
    ∷ []

normalize_filename_lem_example :
    Lacks b'/' (normalize_filename (codes " ../x\\y "))
    × Lacks b'\\' (normalize_filename (codes " ../x\\y "))
    × (is_empty (ext (normalize_filename (codes " ../x\\y "))) ≡ false)
normalize_filename_lem_example = normalize_filename_lem (codes " ../x\\y ")

run_calls-IsValid_example : IsValid (run_calls calls start).writer
run_calls-IsValid_example = run_calls-IsValid calls start (tt, inl refl)

run_calls-Grows_example : Grows start.disk (run_calls calls start).disk
run_calls-Grows_example = run_calls-Grows calls start

append_line_written_example :
    let (after, e) = append_line calm (codes "log") (codes "one\n") start in
    let path = join_path (codes "/data") (normalize_filename (codes "log")) in
    (e ≡ none)
    × (after.disk ≡ extend path (line_of (codes "one\n") ++ 10 ∷ []) start.disk)
    × (after.writer.dir ≡ codes "/data")
    × (after.writer.closed ≡ false)
append_line_written_example =
    append_line_written calm (codes "log") (codes "one\n") start (tt, inl refl) refl one_line_full
      refl refl

-- What comes after the closing of a writer with one handle.
abbrev late_calls : List (Os × Call)
late_calls =
    (calm, appends (codes "log") (codes "late"))
    ∷ (calm, sets_dir (codes "/new/"))
    ∷ (calm, closes)
    ∷ []

abbrev one_written : World
one_written = run_calls ((calm, appends (codes "log") (codes "one")) ∷ []) start

close_seals_example : Sealed one_written.disk (run_calls ((calm, closes) ∷ late_calls) one_written)
close_seals_example =
    close_seals calm late_calls one_written
      (run_calls-IsValid ((calm, appends (codes "log") (codes "one")) ∷ []) start (tt, inl refl))

abbrev globals : Globals
globals = record { default_dir = codes "/data"; default_writer = some start.writer }
