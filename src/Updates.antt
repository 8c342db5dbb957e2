-- ===== src/Updates.antt =====
-- crates/oxidarr-prowl/src/definitions_sync.rs: definitions that were unpacked beside the installed ones are swapped
-- with them.
pub mod Swap
pub mod Fetch
pub mod Run
use oxidarr.Common.{
  ℕ, zero, suc, ◌+◌, ◌-◌, ◌==◌, Bool, true, false, not, ◌&&◌, ◌||◌, Option, none, some, List, [],
  ◌∷◌, ◌++◌, any, Text, codes, text_eq, length, if◌then◌else◌,
}
use oxidarr.Common.Outcome.{Outcome, ok, err}
use oxidarr.Common.Act.{Act, pure, fail, next, ◌>>=◌, ◌>>◌, lift}
use oxidarr.Common.Ordered.{put}
use oxidarr.Common.Split.{starts_with}
use oxidarr.Dates.Fuzzy.{strip_suffix}

-- The files of a directory by their names.
abbrev pub Directory : Type 0
Directory = List (Text × List ℕ)

-- `definitions`, and beside it `definitions.previous` and `definitions.staging`. Each call that
-- changes the disk takes the next of `faults`, and fails if it is an error's text.
pub record Disk : Type 0 where
  pub live : Option Directory
  pub previous : Option Directory
  pub staging : Option Directory
  pub faults : List (Option Text)

pub data Place : Type 0 where
  at_live at_previous at_staging : Place

pub data SyncError : Type 0 where
  download : Text → Text → SyncError
  archive : Text → SyncError
  no_definitions : SyncError
  io : Text → Place → Text → SyncError

abbrev pub next_faults : List (Option Text) → List (Option Text)
next_faults [] = []
next_faults (fault ∷ faults) = faults

-- The call succeeds with `done`, or fails and leaves `torn`.
abbrev pub attempt :
    List (Option Text) → (Text → SyncError) → Disk → Disk → Outcome SyncError (Unit {0}) × Disk
attempt [] wrap torn done = (ok tt, done)
attempt (none ∷ faults) wrap torn done = (ok tt, done)
attempt (some e ∷ faults) wrap torn done = (err (wrap e), torn)

abbrev pub exists : Option Directory → Bool
exists none = false
exists (some d) = true

-- `rename(live, previous)`, when `previous` does not exist, and `rename(staging, live)`, when
-- `live` does not.
unfoldable pub move_aside : Act Disk SyncError (Unit {0})
move_aside disk =
    let disk' = record disk { faults = next_faults disk.faults } in
    attempt disk.faults (io (codes "moving the previous definitions aside") at_previous) disk'
      (record disk' { previous = disk.live; live = none })

abbrev pub moved_in : Disk → Option Directory → Outcome SyncError (Unit {0}) × Disk
moved_in disk none = (
  err (io (codes "installing the new definitions") at_live (codes "not found")),
  record disk { faults = next_faults disk.faults },
)
moved_in disk (some d) =
    let disk' = record disk { faults = next_faults disk.faults } in
    attempt disk.faults (io (codes "installing the new definitions") at_live) disk'
      (record disk' { live = some d; staging = none })

unfoldable pub move_in : Act Disk SyncError (Unit {0})
move_in disk = moved_in disk disk.staging

-- What a removal that fails leaves of a directory.
module _ (torn : Directory → Directory) where
  abbrev left : Option Directory → Option Directory
  left none = none
  left (some d) = some (torn d)

  unfoldable pub remove_previous : Text → Act Disk SyncError (Unit {0})
  remove_previous action disk =
      let disk' = record disk { faults = next_faults disk.faults } in
      attempt disk.faults (io action at_previous) (record disk' { previous = left disk.previous })
        (record disk' { previous = none })

  abbrev pub when : Bool → Act Disk SyncError (Unit {0}) → Act Disk SyncError (Unit {0})
  when true act = act
  when false act = pure tt

  unfoldable pub clear_previous : Text → Act Disk SyncError (Unit {0})
  unfolding remove_previous
  clear_previous action disk = when (exists disk.previous) (remove_previous action) disk

  unfoldable pub set_aside : Act Disk SyncError (Unit {0})
  unfolding move_aside
  set_aside disk = when (exists disk.live) move_aside disk

  unfoldable pub install_definitions : Act Disk SyncError (Unit {0})
  unfolding clear_previous set_aside move_in
  install_definitions =
      clear_previous (codes "clearing a stranded previous definitions directory")
      >> set_aside
      >> move_in
      >> clear_previous (codes "removing the previous definitions")
