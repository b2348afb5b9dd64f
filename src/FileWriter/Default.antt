-- ===== src/FileWriter/Default.antt =====
-- filewriter/writer.go: the default writer of the package.
use public_golibs.Common.{◌≡◌, refl, false, Option, none, some, List, [], Text}
use public_golibs.FileWriter.Writer.{
  Os, Error, Result, ok, err, Disk, FileWriter, World, new, resolve_dir, append_line, save_data,
  set_dir, set_resolved, detach_handles, name_or_default, new_in, made,
}
use public_golibs.FileWriter.Writer

pub record Globals : Type 0 where
  pub default_dir : Text
  pub default_writer : Option FileWriter

abbrev keep_made : Globals → Result FileWriter → Globals × Result FileWriter
keep_made g (ok w) = (record g { default_writer = some w }, ok w)
keep_made g (err e) = (g, err e)

abbrev default_or : Os → Globals → Option FileWriter → Globals × Result FileWriter
default_or os g (some w) = (g, ok w)
default_or os g none = keep_made g (new os g.default_dir)

unfoldable pub default : Os → Globals → Globals × Result FileWriter
unfolding new
default os g = default_or os g g.default_writer

abbrev switch : Os → Text → Globals → Option FileWriter → Globals × Option Error
switch os dir g none = (g, none)
switch os dir g (some w) =
    let (v, e) = set_dir os dir w in (record g { default_writer = some v }, e)

abbrev set_default_resolved : Os → Result Text → Globals → Globals × Option Error
set_default_resolved os (err e) g = (g, some e)
set_default_resolved os (ok dir) g =
    let h = record g { default_dir = dir } in switch os dir h h.default_writer

unfoldable pub set_default_dir : Os → Text → Globals → Globals × Option Error
unfolding resolve_dir set_dir
set_default_dir os dir g = set_default_resolved os (resolve_dir os dir) g

abbrev with_world : Globals → World × Option Error → (Globals × Disk) × Option Error
with_world g (world, e) = ((record g { default_writer = some world.writer }, world.disk), e)

abbrev through_default :
    (World → World × Option Error)
    → Globals × Result FileWriter
    → Disk
    → (Globals × Disk) × Option Error
through_default f (g, err e) disk = ((g, disk), some e)
through_default f (g, ok w) disk = with_world g (f (record { writer = w; disk = disk }))

unfoldable pub save_line : Os → Text → List Text → Globals × Disk → (Globals × Disk) × Option Error
unfolding default append_line
save_line os text filename (g, disk) =
    through_default (append_line os (name_or_default filename) text) (default os g) disk

unfoldable pub save_data_default :
    Os → Text → Text → Text → Text → List Text → Globals × Disk → (Globals × Disk) × Option Error
unfolding default save_data
save_data_default os one two three four filename (g, disk) =
    through_default (save_data os one two three four filename) (default os g) disk

abbrev closed_error : Os → Option FileWriter → Option Error
closed_error os none = none
closed_error os (some w) = (Writer.close os w).1

unfoldable pub close_default : Os → Globals → Globals × Option Error
unfolding Writer.close
close_default os g = (record g { default_writer = none }, closed_error os g.default_writer)

-- After the default writer was closed, it is made again in the default directory by the next call that
-- needs it, if the operating system lets that directory be resolved; that writer is open and has no
-- handles.
pub default-close_default :
    (os later : Os) (g : Globals) (dir : Text)
    → resolve_dir later g.default_dir ≡ ok dir
    → default later (close_default os g).0
      ≡ (record g { default_writer = some (new_in dir) }, ok (new_in dir))
unfolding default close_default new
default-close_default os later g dir e = rw e refl

-- A new default directory, where the operating system grants it, is the default directory from now on,
-- and the directory of the default writer too, if that is open and resolving the resolved directory
-- changes nothing; the writer keeps no handle into the old directory and stays open.
pub set_default_dir_lem :
    (os : Os) (dir d : Text) (g : Globals) (w : FileWriter)
    → resolve_dir os dir ≡ ok d
    → resolve_dir os d ≡ ok d
    → g.default_writer ≡ some w
    → w.closed ≡ false
    → let after = (set_default_dir os dir g).0 in
      (after.default_dir ≡ d)
      × (after.default_writer ≡ some (record w { dir = d; file_handles = [] }))
unfolding set_default_dir set_dir detach_handles
set_default_dir_lem os dir d g w e again set up = rw (e, set, again, up) (refl, refl)
