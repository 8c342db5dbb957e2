-- ===== src/Updates/Fetch.antt =====
-- Unpacking, staging and one run of the updater, in crates/oxidarr-prowl/src/definitions_sync.rs.
use oxidarr.Common.{
  ℕ, zero, suc, ◌+◌, ◌==◌, Bool, true, false, not, ◌&&◌, Option, none, some, List, [], ◌∷◌, any,
  Text, codes, length, if◌then◌else◌,
}
use oxidarr.Common.Outcome.{Outcome, ok, err, map_err}
use oxidarr.Common.Act.{Act, pure, fail, lift, ◌>>=◌, ◌>>◌}
use oxidarr.Common.Ordered.{put}
use oxidarr.Common.Split.{starts_with}
use oxidarr.Common.Str.{drop}
use oxidarr.Dates.Fuzzy.{strip_suffix}
use oxidarr.Updates.{
  Directory, Disk, SyncError, archive, no_definitions, io, at_staging, attempt, next_faults, exists,
  install_definitions,
}

-- `split_once` at `definitions/v11/`, and what follows it.
unfoldable pub after_marker : Text → Option Text
unfolding starts_with drop
after_marker [] = none
after_marker (c ∷ s) =
    let later = after_marker s in
    if starts_with (codes "definitions/v11/") (c ∷ s)
    then some (drop (length (codes "definitions/v11/")) (c ∷ s))
    else later

abbrev is_some : Option Text → Bool
is_some none = false
is_some (some s) = true

-- A name that ends in `.yml`, of one component on a system whose separator is `/`.
unfoldable pub is_definition_name : Text → Bool
unfolding strip_suffix
is_definition_name rest =
    is_some (strip_suffix (codes ".yml") rest)
    && not (any (λ c. c == 92) rest)
    && not (any (λ c. c == 47) rest)

abbrev named : Option Text → Option Text
named none = none
named (some rest) = if is_definition_name rest then some rest else none

unfoldable pub definition_file_name : Text → Option Text
unfolding after_marker is_definition_name
definition_file_name path = named (after_marker path)

-- An entry of an archive, with the errors of the `tar` and `flate2` crates: its path, which may
-- not be Unicode, and its contents.
pub record Entry : Type 0 where
  pub path : Outcome Text (Option Text)
  pub body : Outcome Text (List ℕ)

abbrev pub Unpack : Type 0
Unpack = List ℕ → Outcome Text (List (Outcome Text Entry))

abbrev pub name_of : Option Text → Option Text
name_of none = none
name_of (some path) = definition_file_name path

abbrev add_file : Text → List ℕ → Option Directory → Option Directory
add_file name body none = none
add_file name body (some d) = some (put name body d)

module _ (torn : Directory → Directory) (unpack : Unpack) where
  abbrev left : Option Directory → Option Directory
  left none = none
  left (some d) = some (torn d)

  -- `std::fs::write` into the staging directory.
  unfoldable pub write_definition : Text → List ℕ → Act Disk SyncError (Unit {0})
  write_definition name body disk =
      let disk' = record disk { faults = next_faults disk.faults } in
      attempt disk.faults (io (codes "writing definition") at_staging)
        (record disk' { staging = left disk.staging })
        (record disk' { staging = add_file name body disk.staging })

  abbrev pub write_entry : Outcome Text (List ℕ) → Option Text → Act Disk SyncError ℕ
  write_entry body none = pure 0
  write_entry body (some name) =
      lift (map_err archive body) >>= λ bytes. write_definition name bytes >>= λ u. pure 1

  unfoldable pub extract_entry : Outcome Text Entry → Act Disk SyncError ℕ
  unfolding write_definition definition_file_name
  extract_entry (err e) = fail (archive e)
  extract_entry (ok entry) =
      lift (map_err archive entry.path) >>= λ path. write_entry entry.body (name_of path)

  unfoldable pub extract_entries : List (Outcome Text Entry) → ℕ → Act Disk SyncError ℕ
  unfolding extract_entry
  extract_entries [] written = pure written
  extract_entries (entry ∷ entries) written =
      extract_entry entry >>= λ n. extract_entries entries (written + n)

  abbrev pub some_written : ℕ → Act Disk SyncError ℕ
  some_written zero = fail no_definitions
  some_written (suc n) = pure (suc n)

  unfoldable pub extract_definitions : List ℕ → Act Disk SyncError ℕ
  unfolding extract_entries
  extract_definitions bytes = lift (map_err archive (unpack bytes)) >>= λ entries.
      extract_entries entries 0 >>= some_written

  unfoldable pub remove_staging : Act Disk SyncError (Unit {0})
  remove_staging disk =
      let disk' = record disk { faults = next_faults disk.faults } in
      attempt disk.faults (io (codes "clearing the staging directory") at_staging)
        (record disk' { staging = left disk.staging }) (record disk' { staging = none })

  abbrev pub clear_staging : Bool → Act Disk SyncError (Unit {0})
  clear_staging true = remove_staging
  clear_staging false = pure tt

  unfoldable pub create_staging : Act Disk SyncError (Unit {0})
  create_staging disk =
      let disk' = record disk { faults = next_faults disk.faults } in
      attempt disk.faults (io (codes "creating the staging directory") at_staging) disk'
        (record disk' { staging = some [] })

  unfoldable pub stage : List ℕ → Act Disk SyncError ℕ
  unfolding remove_staging create_staging extract_definitions
  stage body disk =
      (clear_staging (exists disk.staging) >> create_staging >> extract_definitions body) disk

  -- A failure takes the staging directory with it, if it can.
  abbrev pub cleaned : Outcome SyncError ℕ × Disk → Outcome SyncError ℕ × Disk
  cleaned (ok n, disk) = (ok n, disk)
  cleaned (err e, disk) = (err e, (clear_staging (exists disk.staging) disk).1)

  -- A run, from what the download gave.
  unfoldable pub sync_once : Outcome SyncError (List ℕ) → Act Disk SyncError ℕ
  unfolding stage install_definitions remove_staging
  sync_once (err e) disk = (err e, disk)
  sync_once (ok body) disk =
      cleaned ((stage body >>= λ count. install_definitions torn >> pure count) disk)
