-- ===== src/FileWriter/Writer.antt =====
-- filewriter/writer.go: a writer that appends lines to the files of a directory. What the operating
-- system answers is an argument; a file is its content, by its path, and a handle is the path it was
-- opened with; the flags of the opening say what that and a write do to the content. Each method is one step, in which the locks that it takes are free.
use public_golibs.Common.{
  take, drop, length, ℕ, Bool, true, false, ◌&&◌, ◌||◌, Option, none, some, List, [], ◌∷◌, ◌++◌,
  Text, if◌then◌else◌, ◌==◌, is_empty, trim_space, trim_right, text_eq,
}
use public_golibs.FileWriter.Names.{build_content, normalize_filename, default_filename}
use public_golibs.FileWriter.Paths.{clean, join_path}

abbrev pub OsError : Type 0
OsError = Text

-- `write_error path text` is `some (n, e)` when only n characters get into the file.
pub record Os : Type 0 where
  pub getwd : Option OsError × Text
  pub mkdir_error : Text → Option OsError
  pub open_error : Text → Option OsError
  pub write_error : Text → Text → Option (ℕ × OsError)
  pub sync_error : Text → Option OsError
  pub close_error : Text → Option OsError

pub data Error : Type 0 where
  empty_content writer_closed : Error
  cwd_failed create_failed open_failed write_failed : OsError → Error
  joined : List OsError → Error

pub data Result {ℓ} (A : Type ℓ) : Type ℓ where
  ok : A → Result A
  err : Error → Result A

-- A missing file has the empty content.
abbrev pub Disk : Type 0
Disk = Text → Text

pub record FileWriter : Type 0 where
  pub dir : Text
  pub file_locks : List Text
  pub file_handles : List (Text × Text)
  pub closed : Bool

pub record World : Type 0 where
  pub writer : FileWriter
  pub disk : Disk

abbrev made_dir : Option OsError → Text → Result Text
made_dir none path = ok path
made_dir (some e) path = err (create_failed e)

abbrev make_dir : Os → Text → Result Text
make_dir os path = made_dir (os.mkdir_error path) path

abbrev pub in_cwd : Os → Option OsError × Text → Result Text
in_cwd os (none, cwd) = make_dir os (clean cwd)
in_cwd os (some e, cwd) = err (cwd_failed e)

unfoldable pub resolve_dir : Os → Text → Result Text
resolve_dir os dir =
    if is_empty (trim_space dir) then in_cwd os os.getwd else make_dir os (clean dir)

abbrev pub new_in : Text → FileWriter
new_in dir = record { dir = dir; file_locks = []; file_handles = []; closed = false }

abbrev pub made : Result Text → Result FileWriter
made (ok dir) = ok (new_in dir)
made (err e) = err e

unfoldable pub new : Os → Text → Result FileWriter
unfolding resolve_dir
new os dir = made (resolve_dir os dir)

abbrev pub has_key : Text → List Text → Bool
has_key key [] = false
has_key key (k ∷ ks) = text_eq key k || has_key key ks

unfoldable pub get_or_create_file_lock : Text → FileWriter → FileWriter
get_or_create_file_lock key w =
    if has_key key w.file_locks then w else record w { file_locks = key ∷ w.file_locks }

abbrev pub find_handle : Text → List (Text × Text) → Option Text
find_handle key [] = none
find_handle key ((k, h) ∷ rest) = if text_eq key k then some h else find_handle key rest

abbrev pub opened : Text → Text → Option OsError → FileWriter → FileWriter × Result Text
opened key path none w = (record w { file_handles = (key, path) ∷ w.file_handles }, ok path)
opened key path (some e) w = (w, err (open_failed e))

abbrev pub open_or : Os → Text → Option Text → FileWriter → FileWriter × Result Text
open_or os key (some h) w = (w, ok h)
open_or os key none w = let path = join_path w.dir key in opened key path (os.open_error path) w

unfoldable pub get_or_create_file_handle : Os → Text → FileWriter → FileWriter × Result Text
get_or_create_file_handle os key w =
    if w.closed then (w, err writer_closed) else open_or os key (find_handle key w.file_handles) w

-- What of the flags of os.OpenFile decides what becomes of the content of a file.
pub record Flags : Type 0 where
  pub append : Bool
  pub truncate : Bool

-- os.O_APPEND | os.O_CREATE | os.O_WRONLY
abbrev pub open_flags : Flags
open_flags = record { append = true; truncate = false }

-- O_TRUNC empties the file that is opened.
abbrev pub emptied : Flags → Text → Disk → Disk
emptied flags path disk p = if flags.truncate && text_eq p path then [] else disk p

-- With O_APPEND a write goes to the end of the file, without it to the start, for a new handle.
abbrev pub placed : Flags → Text → Text → Text
placed flags text old = if flags.append then old ++ text else text ++ drop (length text) old

abbrev pub put_at : Flags → Text → Text → Disk → Disk
put_at flags path text disk p = if text_eq p path then placed flags text (disk p) else disk p

-- The files when a writer that has a handle, or none, has come to one.
abbrev pub opened_disk : Option OsError → Text → Option Text → Disk → Disk
opened_disk (some e) path none disk = disk
opened_disk none path none disk = emptied open_flags path disk
opened_disk e path (some h) disk = disk

unfoldable pub handle_disk : Os → Text → FileWriter → Disk → Disk
handle_disk os key w disk =
    let path = join_path w.dir key in
    if w.closed
    then disk
    else opened_disk (os.open_error path) path (find_handle key w.file_handles) disk

abbrev pub written : Text → Text → Option (ℕ × OsError) → Disk → Disk × Option Error
written path text none disk = (put_at open_flags path text disk, none)
written path text (some (n, e)) disk =
    (put_at open_flags path (take n text) disk, some (write_failed e))

unfoldable pub write_string : Os → Text → Text → Disk → Disk × Option Error
write_string os path text disk = written path text (os.write_error path text) disk

abbrev pub is_newline : ℕ → Bool
is_newline c = c == 13 || c == 10

abbrev pub line_of : Text → Text
line_of text = trim_right is_newline text

abbrev pub write_to : Os → Text → FileWriter × Result Text → Disk → World × Option Error
write_to os text (w, err e) disk = (record { writer = w; disk = disk }, some e)
write_to os text (w, ok path) disk =
    let (d, e) = write_string os path text disk in (record { writer = w; disk = d }, e)

abbrev pub write_line : Os → Text → Text → World → World × Option Error
write_line os key line world =
    let w = get_or_create_file_lock key world.writer in
    write_to os (line ++ 10 ∷ []) (get_or_create_file_handle os key w)
      (handle_disk os key w world.disk)

unfoldable pub append_line : Os → Text → Text → World → World × Option Error
append_line os filename text world =
    let line = line_of text in
    if is_empty line
    then (world, some empty_content)
    else write_line os (normalize_filename filename) line world

-- The optional file name: the first of those given, unless it is blank.
abbrev pub name_or_default : List Text → Text
name_or_default [] = default_filename
name_or_default (f ∷ fs) = if is_empty (trim_space f) then default_filename else f

unfoldable pub save_data : Os → Text → Text → Text → Text → List Text → World → World × Option Error
unfolding append_line
save_data os one two three four filename world =
    let content = build_content one two three four in
    if is_empty content
    then (world, some empty_content)
    else append_line os (name_or_default filename) content world

abbrev listed : Option OsError → List OsError
listed none = []
listed (some e) = e ∷ []

abbrev close_errors : Os → List (Text × Text) → List OsError
close_errors os [] = []
close_errors os ((k, h) ∷ rest) =
    listed (os.sync_error h) ++ listed (os.close_error h) ++ close_errors os rest

-- errors.Join
abbrev join_errors : List OsError → Option Error
join_errors [] = none
join_errors (e ∷ es) = some (joined (e ∷ es))

unfoldable pub close_handles : Os → List (Text × Text) → Option Error
close_handles os handles = join_errors (close_errors os handles)

unfoldable pub detach_handles : FileWriter → FileWriter × List (Text × Text)
detach_handles w = (record w { file_handles = [] }, w.file_handles)

unfoldable pub close : Os → FileWriter → FileWriter × Option Error
unfolding detach_handles close_handles
close os w =
    if w.closed
    then (w, none)
    else let (bare, handles) = detach_handles (record w { closed = true }) in
      (bare, close_handles os handles)

abbrev pub set_resolved : Os → Result Text → FileWriter → FileWriter × Option Error
set_resolved os (err e) w = (w, some e)
set_resolved os (ok dir) w =
    if w.closed
    then (w, some writer_closed)
    else let (bare, handles) = detach_handles w in
      (record bare { dir = dir }, close_handles os handles)

unfoldable pub set_dir : Os → Text → FileWriter → FileWriter × Option Error
unfolding resolve_dir detach_handles close_handles
set_dir os dir w = set_resolved os (resolve_dir os dir) w

unfoldable pub dir : FileWriter → Text
dir w = w.dir
