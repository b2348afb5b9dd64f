-- ===== src/FileWriter/Grows.antt =====
-- filewriter/writer.go: what is in the files stays there.
use public_golibs.Common.{
  ℕ, ◌≡◌, refl, Option, none, some, List, [], ◌∷◌, ◌++◌, Text, is_empty, Bool-cases, inl, inr,
  text_eq, append-nil, append_assoc, sym,
}
use public_golibs.FileWriter.Names.{normalize_filename, build_content}
use public_golibs.FileWriter.Paths.{join_path}
use public_golibs.FileWriter.Writer.{
  Os, OsError, Result, ok, err, Disk, FileWriter, World, append_line, save_data,
  get_or_create_file_lock, get_or_create_file_handle, write_string, line_of, find_handle,
  open_flags, put_at, opened_disk, handle_disk, name_or_default, write_to, written,
}
use public_golibs.FileWriter.Keeps.{Call, appends, saves, sets_dir, closes, call, run_calls}

-- Each file of the later disk begins with its content on the earlier one.
abbrev pub Grows : Disk → Disk → Type 0
Grows before after = (path : Text) → (more : Text) × (after path ≡ before path ++ more)

Grows-refl : (d : Disk) → Grows d d
Grows-refl d path = ([], sym (append-nil (d path)))

Grows-trans : (a b c : Disk) → Grows a b → Grows b c → Grows a c
Grows-trans a b c g h path =
    let (x, p) = g path in let (y, q) = h path in (x ++ y, rw (q, p) (append_assoc (a path) x y))

put_at-Grows : (path text : Text) (d : Disk) → Grows d (put_at open_flags path text d)
put_at-Grows path text d p = elim (Bool-cases (text_eq p path)) [
  | inl e ↦ (text, rw e refl)
  | inr e ↦ ([], rw e (sym (append-nil (d p))))
]

written-Grows :
    (path text : Text) (o : Option (ℕ × OsError)) (d : Disk) → Grows d (written path text o d).0
written-Grows path text none d = put_at-Grows path text d
written-Grows path text (some (n, e)) d = put_at-Grows path _ d

opened_disk-Grows :
    (e : Option OsError) (path : Text) (h : Option Text) (d : Disk)
    → Grows d (opened_disk e path h d)
opened_disk-Grows none path none d = Grows-refl d
opened_disk-Grows (some e) path none d = Grows-refl d
opened_disk-Grows none path (some h) d = Grows-refl d
opened_disk-Grows (some e) path (some h) d = Grows-refl d

-- Opening a file for a handle leaves what is in it.
handle_disk-Grows :
    (os : Os) (key : Text) (w : FileWriter) (d : Disk) → Grows d (handle_disk os key w d)
unfolding handle_disk
handle_disk-Grows os key w d =
    let path = join_path w.dir key in
    elim (Bool-cases w.closed) [
      | inl e ↦ simp (e) (Grows-refl d)
      | inr e ↦
          simp (e) (opened_disk-Grows (os.open_error path) path (find_handle key w.file_handles) d)
    ]

write_to-Grows :
    (os : Os) (text : Text) (w : FileWriter) (r : Result Text) (d : Disk)
    → Grows d (write_to os text (w, r) d).0.disk
write_to-Grows os text w (ok path) d =
    unfold write_string in written-Grows path text (os.write_error path text) d
write_to-Grows os text w (err e) d = Grows-refl d

append_line-Grows :
    (os : Os) (filename text : Text) (world : World)
    → Grows world.disk (append_line os filename text world).0.disk
unfolding append_line
append_line-Grows os filename text world = elim (Bool-cases (is_empty (line_of text))) [
  | inl e ↦ rw e (Grows-refl world.disk)
  | inr e ↦
      let key = normalize_filename filename in
      let locked = get_or_create_file_lock key world.writer in
      let (w, r) = get_or_create_file_handle os key locked in
      let ready = handle_disk os key locked world.disk in
      rw e (
        Grows-trans world.disk ready _ (handle_disk-Grows os key locked world.disk)
          (write_to-Grows os (line_of text ++ 10 ∷ []) w r ready))
]

save_data-Grows :
    (os : Os) (one two three four : Text) (filename : List Text) (world : World)
    → Grows world.disk (save_data os one two three four filename world).0.disk
unfolding save_data
save_data-Grows os one two three four filename world =
    let content = build_content one two three four in
    elim (Bool-cases (is_empty content)) [
      | inl e ↦ rw e (Grows-refl world.disk)
      | inr e ↦ rw e (append_line-Grows os (name_or_default filename) content world)
    ]

-- Nothing that is in a file is ever overwritten or cut off: with the flags that the writer opens its files
-- with, after any calls, whatever the operating system answers,
-- writes that break off included, each file begins with what was in it before.
pub run_calls-Grows :
    (calls : List (Os × Call)) (world : World) → Grows world.disk (run_calls calls world).disk
unfolding run_calls call
run_calls-Grows [] world = Grows-refl world.disk
run_calls-Grows ((os, appends f t) ∷ rest) world =
    Grows-trans world.disk (append_line os f t world).0.disk _ (append_line-Grows os f t world)
      (run_calls-Grows rest (append_line os f t world).0)
run_calls-Grows ((os, saves a b c d f) ∷ rest) world =
    Grows-trans world.disk (save_data os a b c d f world).0.disk _
      (save_data-Grows os a b c d f world) (run_calls-Grows rest (save_data os a b c d f world).0)
run_calls-Grows ((os, sets_dir d) ∷ rest) world = run_calls-Grows rest _
run_calls-Grows ((os, closes) ∷ rest) world = run_calls-Grows rest _
