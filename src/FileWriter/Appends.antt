-- ===== src/FileWriter/Appends.antt =====
-- filewriter/writer.go: where the lines go.
use public_golibs.Common.{
  ◌≡◌, refl, false, none, some, [], ◌∷◌, ◌++◌, arith, Text, is_empty, Option-cases, Bool-cases, inl,
  inr, if◌then◌else◌, ap, Option, text_eq, ◌∙◌,
}
use public_golibs.FileWriter.Names.{normalize_filename}
use public_golibs.FileWriter.Paths.{join_path}
use public_golibs.FileWriter.Writer.{
  Os, Result, ok, Disk, FileWriter, World, resolve_dir, append_line, set_dir, find_handle,
  get_or_create_file_lock, get_or_create_file_handle, write_string, line_of, OsError, opened_disk,
  handle_disk, detach_handles, write_to, open_or,
}
use public_golibs.FileWriter.Keeps.{IsValid, InDir, find_handle-InDir, lock-IsValid}

-- The files with a text behind what is in one of them.
abbrev pub extend : Text → Text → Disk → Disk
extend path text disk p = if text_eq p path then disk p ++ text else disk p

-- What the step to a handle gives, where the handle is there or is granted.
record Reached (path dir : Text) (r : FileWriter × Result Text) : Type 0 where
  at_path : r.1 ≡ ok path
  same_dir : r.0.dir ≡ dir
  still_open : r.0.closed ≡ false

open_or-Reached :
    (os : Os) (key : Text) (w : FileWriter)
    → InDir w.dir w.file_handles
    → w.closed ≡ false
    → os.open_error (join_path w.dir key) ≡ none
    → Reached (join_path w.dir key) w.dir (open_or os key (find_handle key w.file_handles) w)
open_or-Reached os key w v up granted = elim (Option-cases (find_handle key w.file_handles)) [
  | inl e ↦ rw (e, granted) (record { at_path = refl; same_dir = refl; still_open = up })
  | inr (h, e) ↦ rw e (record {
    at_path = ap ok (find_handle-InDir w.dir key h w.file_handles v e);
    same_dir = refl;
    still_open = up;
  })
]

handle-Reached :
    (os : Os) (key : Text) (w : FileWriter)
    → InDir w.dir w.file_handles
    → w.closed ≡ false
    → os.open_error (join_path w.dir key) ≡ none
    → Reached (join_path w.dir key) w.dir (get_or_create_file_handle os key w)
unfolding get_or_create_file_handle
handle-Reached os key w v up granted = simp (up) (open_or-Reached os key w v up granted)

lock_keeps :
    (key : Text) (w : FileWriter)
    → ((get_or_create_file_lock key w).dir ≡ w.dir)
      × ((get_or_create_file_lock key w).closed ≡ w.closed)
unfolding get_or_create_file_lock
lock_keeps key w = ground arith

locked-Reached :
    (os : Os) (key : Text) (w : FileWriter)
    → IsValid w
    → w.closed ≡ false
    → os.open_error (join_path w.dir key) ≡ none
    → Reached
        (join_path w.dir key)
        w.dir
        (get_or_create_file_handle os key (get_or_create_file_lock key w))
unfolding get_or_create_file_lock
locked-Reached os key w v up granted =
    let locked = get_or_create_file_lock key w in
    let (same, still) = lock_keeps key w in
    let there =
      handle-Reached os key locked (lock-IsValid key w v).0 (still ∙ up) (rw same granted) in
    rw same at there

opened_disk_kept :
    (e : Option OsError) (path : Text) (h : Option Text) (d : Disk) → opened_disk e path h d ≡ d
opened_disk_kept none path none d = refl
opened_disk_kept (some e) path none d = refl
opened_disk_kept none path (some h) d = refl
opened_disk_kept (some e) path (some h) d = refl

-- Coming to a handle changes no file.
handle_disk_kept : (os : Os) (key : Text) (w : FileWriter) (d : Disk) → handle_disk os key w d ≡ d
unfolding handle_disk
handle_disk_kept os key w d =
    let path = join_path w.dir key in
    elim (Bool-cases w.closed) [
      | inl e ↦ simp (e) refl
      | inr e ↦
          simp (e) (opened_disk_kept (os.open_error path) path (find_handle key w.file_handles) d)
    ]

write_to-Reached :
    (os : Os) (text path dir : Text) (r : FileWriter × Result Text) (d : Disk)
    → Reached path dir r
    → os.write_error path text ≡ none
    → write_to os text r d ≡ (record { writer = r.0; disk = extend path text d }, none)
unfolding write_string
write_to-Reached os text path dir r d h e = rw (h.at_path, e) refl

-- On an open writer with valid handles, where the operating system grants the opening and the writing of
-- the file, a text that is not empty without the line breaks at its end is appended to the file of the
-- normalised name in the writer's directory, with one line break behind it. All other files stay as they
-- are, the writer stays open, in its directory, and no error is returned.
pub append_line_written :
    (os : Os) (filename text : Text) (world : World)
    → IsValid world.writer
    → world.writer.closed ≡ false
    → is_empty (line_of text) ≡ false
    → os.open_error (join_path world.writer.dir (normalize_filename filename)) ≡ none
    → os.write_error
        (join_path world.writer.dir (normalize_filename filename))
        (line_of text ++ 10 ∷ [])
      ≡ none
    → let (after, e) = append_line os filename text world in
      let path = join_path world.writer.dir (normalize_filename filename) in
      (e ≡ none)
      × (after.disk ≡ extend path (line_of text ++ 10 ∷ []) world.disk)
      × (after.writer.dir ≡ world.writer.dir)
      × (after.writer.closed ≡ false)
unfolding append_line
append_line_written os filename text world v up full granted wrote =
    let key = normalize_filename filename in
    let there = locked-Reached os key world.writer v up granted in
    rw
      (
        full,
        handle_disk_kept os key (get_or_create_file_lock key world.writer) world.disk,
        write_to-Reached os (line_of text ++ 10 ∷ []) (join_path world.writer.dir key)
            world.writer.dir _ world.disk there wrote,
      )
      (refl, refl, there.same_dir, there.still_open)

set_dir_moved :
    (os : Os) (dir d : Text) (w : FileWriter)
    → w.closed ≡ false
    → resolve_dir os dir ≡ ok d
    → (set_dir os dir w).0 ≡ record w { dir = d; file_handles = [] }
unfolding set_dir detach_handles
set_dir_moved os dir d w up resolved = rw (resolved, up) refl

-- After the directory of an open writer was changed, whatever handles it had, the next line goes into the
-- file in the new directory, where the operating system grants that, and into no other file.
append_line-set_dir :
    (os later : Os) (dir d filename text : Text) (world : World)
    → world.writer.closed ≡ false
    → resolve_dir os dir ≡ ok d
    → is_empty (line_of text) ≡ false
    → later.open_error (join_path d (normalize_filename filename)) ≡ none
    → later.write_error (join_path d (normalize_filename filename)) (line_of text ++ 10 ∷ []) ≡ none
    → let moved = record world { writer = (set_dir os dir world.writer).0 } in
      let (after, e) = append_line later filename text moved in
      (e ≡ none)
      × (after.disk
          ≡ extend (join_path d (normalize_filename filename)) (line_of text ++ 10 ∷ []) world.disk)
append_line-set_dir os later dir d filename text world up resolved full granted wrote =
    let moved = record world { writer = record world.writer { dir = d; file_handles = [] } } in
    let (e, disk, rest, still) =
      append_line_written later filename text moved (tt, inl up) up full granted wrote in
    rw (set_dir_moved os dir d world.writer up resolved) (e, disk)
