-- ===== src/Examples/Updates.antt =====
-- The theorem on installing definitions, at a disk that fails.
use oxidarr.Common.{◌≡◌, refl, none, some, [], ◌∷◌, codes}
use oxidarr.Common.Outcome.{ok, err}
use oxidarr.Common.Ordered.{put}
use oxidarr.Updates.{Directory, Disk, io, at_live, install_definitions}
use oxidarr.Updates.Fetch.{Unpack, definition_file_name, stage, sync_once}
use oxidarr.Updates.Run as Ran
use oxidarr.Updates.Run.{IsRun}

abbrev old : Directory
old = (codes "a.yml", 1 ∷ []) ∷ []

abbrev new : Directory
new = (codes "b.yml", 2 ∷ []) ∷ []

-- The second rename fails.
abbrev disk : Disk
disk = record {
  live = some old;
  previous = none;
  staging = some new;
  faults = none ∷ some (codes "no space") ∷ [];
}

torn_disk : install_definitions (λ d. []) disk ≡ (
  err (io (codes "installing the new definitions") at_live (codes "no space")),
  record { live = none; previous = some old; staging = some new; faults = [] },
)
unfolding install_definitions
torn_disk = refl

-- A next run at which the same call fails removes the only definitions there are.
abbrev next_disk : Disk
next_disk = record {
  live = none;
  previous = some old;
  staging = some new;
  faults = none ∷ some (codes "no space") ∷ [];
}

lost_definitions : install_definitions (λ d. []) next_disk ≡ (
  err (io (codes "installing the new definitions") at_live (codes "no space")),
  record { live = none; previous = none; staging = some new; faults = [] },
)
unfolding install_definitions
lost_definitions = refl

-- An archive of one definition and one other file, at a disk where the second rename fails.
abbrev entries : Unpack
entries bytes = ok (
    ok (record { path = ok (some (codes "r/README.md")); body = ok (3 ∷ []) })
    ∷ ok (record { path = ok (some (codes "r/definitions/v11/c.yml")); body = ok (4 ∷ []) })
    ∷ [])

abbrev staged : Directory
staged = (codes "c.yml", 4 ∷ []) ∷ []

abbrev first_disk : Disk
first_disk = record {
  live = some old;
  previous = none;
  staging = none;
  faults = none ∷ none ∷ none ∷ some (codes "no space") ∷ [];
}

updated_disk :
    sync_once (λ d. []) entries (ok []) (record first_disk { faults = [] })
    ≡ (ok 1, record { live = some staged; previous = none; staging = none; faults = [] })
unfolding sync_once put
updated_disk = refl

failed_run : sync_once (λ d. []) entries (ok []) first_disk ≡ (
  err (io (codes "installing the new definitions") at_live (codes "no space")),
  record { live = none; previous = some old; staging = none; faults = [] },
)
unfolding sync_once
failed_run = refl

escaping_name : definition_file_name (codes "r/definitions/v11/../x.yml") ≡ none
unfolding definition_file_name
escaping_name = refl

sync_once-IsRun_example :
    IsRun
      (λ d. [])
      entries
      first_disk
      (stage (λ d. []) entries [] first_disk)
      (sync_once (λ d. []) entries (ok []) first_disk).1
sync_once-IsRun_example = Ran.sync_once-IsRun (λ d. []) entries [] first_disk
