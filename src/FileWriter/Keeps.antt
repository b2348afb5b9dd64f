-- ===== src/FileWriter/Keeps.antt =====
-- filewriter/writer.go: the calls of a writer in any order, and what they keep.
use public_golibs.Common.{
  ◌≡◌, ◌⊎◌, false, Option, some, List, [], ◌∷◌, ◌++◌, arith, Text, is_empty, Bool-cases, inl, inr,
  text_eq_iff,
}
use public_golibs.FileWriter.Names.{normalize_filename, build_content}
use public_golibs.FileWriter.Paths.{join_path}
use public_golibs.FileWriter.Writer.{
  Os, Error, Result, ok, err, Disk, FileWriter, World, resolve_dir, set_resolved, write_to,
  append_line, save_data, close, set_dir, find_handle, get_or_create_file_lock,
  get_or_create_file_handle, line_of, name_or_default, detach_handles, handle_disk,
}

pub data Call : Type 0 where
  appends : Text → Text → Call
  saves : Text → Text → Text → Text → List Text → Call
  sets_dir : Text → Call
  closes : Call

abbrev on_writer : FileWriter × Option Error → Disk → World × Option Error
on_writer (w, e) disk = (record { writer = w; disk = disk }, e)

unfoldable pub call : Os → Call → World → World × Option Error
call os (appends filename text) world = append_line os filename text world
call os (saves one two three four filename) world = save_data os one two three four filename world
call os (sets_dir dir) world = on_writer (set_dir os dir world.writer) world.disk
call os closes world = on_writer (close os world.writer) world.disk

-- The operating system may answer each call in another way.
unfoldable pub run_calls : List (Os × Call) → World → World
unfolding call
run_calls [] world = world
run_calls ((os, c) ∷ rest) world = run_calls rest (call os c world).0

-- Each handle was opened for its name in the directory that the writer has now.
abbrev pub InDir : Text → List (Text × Text) → Type 0
InDir dir [] = Unit
InDir dir ((k, h) ∷ rest) = (h ≡ join_path dir k) × InDir dir rest

-- A closed writer has no handles.
abbrev pub IsValid : FileWriter → Type 0
IsValid w = InDir w.dir w.file_handles × ((w.closed ≡ false) ⊎ (w.file_handles ≡ []))

pub find_handle-InDir :
    (dir key h : Text) (handles : List (Text × Text))
    → InDir dir handles
    → find_handle key handles ≡ some h
    → h ≡ join_path dir key
find_handle-InDir dir key h [] v e = cc
find_handle-InDir dir key h ((k, g) ∷ rest) v e =
    ground (arith, text_eq_iff key k, find_handle-InDir dir key h rest)

pub lock-IsValid :
    (key : Text) (w : FileWriter) → IsValid w → IsValid (get_or_create_file_lock key w)
unfolding get_or_create_file_lock
lock-IsValid key w v = ground arith

handle-IsValid :
    (os : Os) (key : Text) (w : FileWriter)
    → IsValid w
    → IsValid (get_or_create_file_handle os key w).0
unfolding get_or_create_file_handle
handle-IsValid os key w v = ground arith

write_to-IsValid :
    (os : Os) (text : Text) (w : FileWriter) (r : Result Text) (disk : Disk)
    → IsValid w
    → IsValid (write_to os text (w, r) disk).0.writer
write_to-IsValid os text w (ok path) disk v = v
write_to-IsValid os text w (err e) disk v = v

append_line-IsValid :
    (os : Os) (filename text : Text) (world : World)
    → IsValid world.writer
    → IsValid (append_line os filename text world).0.writer
unfolding append_line
append_line-IsValid os filename text world v =
    let key = normalize_filename filename in
    let locked = get_or_create_file_lock key world.writer in
    let (w, r) = get_or_create_file_handle os key locked in
    let wrote =
      write_to-IsValid os (line_of text ++ 10 ∷ []) w r (handle_disk os key locked world.disk)
        (handle-IsValid os key locked (lock-IsValid key world.writer v)) in
    elim (Bool-cases (is_empty (line_of text))) [ inl e ↦ rw e v | inr e ↦ rw e wrote ]

save_data-IsValid :
    (os : Os) (one two three four : Text) (filename : List Text) (world : World)
    → IsValid world.writer
    → IsValid (save_data os one two three four filename world).0.writer
unfolding save_data
save_data-IsValid os one two three four filename world v =
    let content = build_content one two three four in
    let appended = append_line-IsValid os (name_or_default filename) content world v in
    elim (Bool-cases (is_empty content)) [ inl e ↦ rw e v | inr e ↦ rw e appended ]

set_resolved-IsValid :
    (os : Os) (r : Result Text) (w : FileWriter) → IsValid w → IsValid (set_resolved os r w).0
unfolding detach_handles
set_resolved-IsValid os (ok dir) w v = ground arith
set_resolved-IsValid os (err e) w v = v

set_dir-IsValid : (os : Os) (dir : Text) (w : FileWriter) → IsValid w → IsValid (set_dir os dir w).0
unfolding set_dir
set_dir-IsValid os dir w v = set_resolved-IsValid os (resolve_dir os dir) w v

close-IsValid : (os : Os) (w : FileWriter) → IsValid w → IsValid (close os w).0
unfolding close detach_handles
close-IsValid os w v = ground arith

-- Whatever calls are made on a new writer, and whatever the operating system answers, each open handle
-- belongs to its name in the directory that the writer has now, and a closed writer has no handles.
pub run_calls-IsValid :
    (calls : List (Os × Call)) (world : World)
    → IsValid world.writer
    → IsValid (run_calls calls world).writer
unfolding run_calls call
run_calls-IsValid [] world v = v
run_calls-IsValid ((os, appends f t) ∷ rest) world v =
    run_calls-IsValid rest _ (append_line-IsValid os f t world v)
run_calls-IsValid ((os, saves a b c d f) ∷ rest) world v =
    run_calls-IsValid rest _ (save_data-IsValid os a b c d f world v)
run_calls-IsValid ((os, sets_dir d) ∷ rest) world v =
    run_calls-IsValid rest _ (set_dir-IsValid os d world.writer v)
run_calls-IsValid ((os, closes) ∷ rest) world v =
    run_calls-IsValid rest _ (close-IsValid os world.writer v)
