-- ===== src/FileWriter/Closed.antt =====
-- filewriter/writer.go: a writer that was closed.
use public_golibs.Common.{
  ◌≡◌, refl, ◌∙◌, true, List, [], ◌∷◌, arith, Text, is_empty, Bool-cases, inl, inr,
}
use public_golibs.FileWriter.Names.{normalize_filename, build_content}
use public_golibs.FileWriter.Writer.{
  Os, writer_closed, Result, ok, err, Disk, FileWriter, World, resolve_dir, set_resolved,
  append_line, save_data, close, set_dir, get_or_create_file_lock, get_or_create_file_handle,
  handle_disk, line_of, name_or_default, detach_handles,
}
use public_golibs.FileWriter.Keeps.{
  Call, appends, saves, sets_dir, closes, call, run_calls, IsValid,
}

-- The writer is closed and has no handle, and the files are those given.
pub record Sealed (disk : Disk) (world : World) : Type 0 where
  pub is_closed : world.writer.closed ≡ true
  pub no_handles : world.writer.file_handles ≡ []
  pub same_disk : world.disk ≡ disk

closed-handle :
    (os : Os) (key : Text) (w : FileWriter)
    → w.closed ≡ true
    → get_or_create_file_handle os key w ≡ (w, err writer_closed)
unfolding get_or_create_file_handle
closed-handle os key w down = simp (down) refl

closed-handle_disk :
    (os : Os) (key : Text) (w : FileWriter) (d : Disk)
    → w.closed ≡ true
    → handle_disk os key w d ≡ d
unfolding handle_disk
closed-handle_disk os key w d down = simp (down) refl

lock_keeps :
    (key : Text) (w : FileWriter)
    → ((get_or_create_file_lock key w).closed ≡ w.closed)
      × ((get_or_create_file_lock key w).file_handles ≡ w.file_handles)
unfolding get_or_create_file_lock
lock_keeps key w = ground arith

append_line-Sealed :
    (os : Os) (filename text : Text) (d : Disk) (world : World)
    → Sealed d world
    → Sealed d (append_line os filename text world).0
unfolding append_line
append_line-Sealed os filename text d world s =
    let key = normalize_filename filename in
    let locked = get_or_create_file_lock key world.writer in
    let (still, bare) = lock_keeps key world.writer in
    let down = still ∙ s.is_closed in
    elim (Bool-cases (is_empty (line_of text))) [
      | inl e ↦ rw e s
      | inr e ↦
          rw (e, closed-handle os key locked down, closed-handle_disk os key locked world.disk down)
            (record { is_closed = down; no_handles = bare ∙ s.no_handles; same_disk = s.same_disk })
    ]

save_data-Sealed :
    (os : Os) (one two three four : Text) (filename : List Text) (d : Disk) (world : World)
    → Sealed d world
    → Sealed d (save_data os one two three four filename world).0
unfolding save_data
save_data-Sealed os one two three four filename d world s =
    let content = build_content one two three four in
    elim (Bool-cases (is_empty content)) [
      | inl e ↦ rw e s
      | inr e ↦ rw e (append_line-Sealed os (name_or_default filename) content d world s)
    ]

set_resolved-Sealed :
    (os : Os) (r : Result Text) (w : FileWriter) → w.closed ≡ true → (set_resolved os r w).0 ≡ w
set_resolved-Sealed os (ok dir) w down = simp (down) refl
set_resolved-Sealed os (err e) w down = refl

call-Sealed :
    (os : Os) (c : Call) (d : Disk) (world : World) → Sealed d world → Sealed d (call os c world).0
unfolding call
call-Sealed os (appends f t) d world s = append_line-Sealed os f t d world s
call-Sealed os (saves one two three four f) d world s =
    save_data-Sealed os one two three four f d world s
call-Sealed os (sets_dir dir) d world s =
    let w = world.writer in
    let kept : (set_dir os dir w).0 ≡ w =
      unfold set_dir in set_resolved-Sealed os (resolve_dir os dir) w s.is_closed in
    rw kept (record { is_closed = s.is_closed; no_handles = s.no_handles; same_disk = s.same_disk })
call-Sealed os closes d world s =
    let w = world.writer in
    let kept : (close os w).0 ≡ w = unfold close in simp (s.is_closed) refl in
    rw kept (record { is_closed = s.is_closed; no_handles = s.no_handles; same_disk = s.same_disk })

run_calls-Sealed :
    (calls : List (Os × Call)) (d : Disk) (world : World)
    → Sealed d world
    → Sealed d (run_calls calls world)
unfolding run_calls
run_calls-Sealed [] d world s = s
run_calls-Sealed ((os, c) ∷ rest) d world s =
    run_calls-Sealed rest d (call os c world).0 (call-Sealed os c d world s)

close-Sealed :
    (os : Os) (world : World) → IsValid world.writer → Sealed world.disk (call os closes world).0
unfolding call close detach_handles
close-Sealed os world v = elim (Bool-cases world.writer.closed) [
  | inl down ↦
      simp (down) (record { is_closed = down; no_handles = ground arith; same_disk = refl })
  | inr up ↦ simp (up) (record { is_closed = refl; no_handles = refl; same_disk = refl })
]

-- Once a writer with valid handles was closed, whatever calls follow, in any order and with any answers
-- of the operating system, leave it closed and without a handle, and every file as it was at the closing.
pub close_seals :
    (os : Os) (calls : List (Os × Call)) (world : World)
    → IsValid world.writer
    → Sealed world.disk (run_calls ((os, closes) ∷ calls) world)
unfolding run_calls
close_seals os calls world v =
    run_calls-Sealed calls world.disk (call os closes world).0 (close-Sealed os world v)
