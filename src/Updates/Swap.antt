-- ===== src/Updates/Swap.antt =====
-- The swap of crates/oxidarr-prowl/src/definitions_sync.rs, whatever fails.
use oxidarr.Common.{
  ◌≡◌, ◌⊎◌, inl, inr, refl, sym, ◌∙◌, Option, none, some, List, [], ◌∷◌, Text, Bool, true, false,
}
use oxidarr.Common.Outcome.{Outcome, ok, err}
use oxidarr.Common.Act.{next}
use oxidarr.Updates.{
  attempt, when, moved_in, next_faults, exists, Directory, Disk, SyncError, move_aside, move_in,
  remove_previous, clear_previous, set_aside, install_definitions,
}

-- The installed definitions are the old ones or the new ones, or they are gone and the old ones
-- stand aside.
abbrev pub IsOldOrNew : Disk → Disk → Type 0
IsOldOrNew before after =
    (after.live ≡ before.live)
    ⊎ ((after.live ≡ before.staging) ⊎ ((after.live ≡ none) × (after.previous ≡ before.live)))

-- What holds of the disk after an action that succeeded, and after one that failed.
abbrev After : (Disk → Type 0) → (Disk → Type 0) → Outcome SyncError (Unit {0}) × Disk → Type 0
After P Q (ok u, disk) = P disk
After P Q (err e, disk) = Q disk

After-next :
    (P Q R : Disk → Type 0) (r : Outcome SyncError (Unit {0}) × Disk)
    (f : Unit {0} → Disk → Outcome SyncError (Unit {0}) × Disk)
    → After P R r
    → ((disk : Disk) → P disk → After Q R (f tt disk))
    → After Q R (next r f)
After-next P Q R (ok u, disk) f h k = k disk h
After-next P Q R (err e, disk) f h k = h

After-attempt :
    (P R : Disk → Type 0) (faults : List (Option Text)) (wrap : Text → SyncError) (torn done : Disk)
    → R torn
    → P done
    → After P R (attempt faults wrap torn done)
After-attempt P R [] wrap torn done h k = k
After-attempt P R (none ∷ faults) wrap torn done h k = k
After-attempt P R (some e ∷ faults) wrap torn done h k = h

After-any : (P : Disk → Type 0) (r : Outcome SyncError (Unit {0}) × Disk) → After P P r → P r.1
After-any P (ok u, disk) h = h
After-any P (err e, disk) h = h

module _ (torn : Directory → Directory) (before : Disk) where
  abbrev Untouched : Disk → Type 0
  Untouched disk = (disk.live ≡ before.live) × (disk.staging ≡ before.staging)

  abbrev Aside : Disk → Type 0
  Aside disk =
      (disk.staging ≡ before.staging)
      × ((disk.live ≡ before.live) ⊎ ((disk.live ≡ none) × (disk.previous ≡ before.live)))

  abbrev Installed : Disk → Type 0
  Installed disk = disk.live ≡ before.staging

  cleared :
      (action : Text) (disk : Disk) (P R : Disk → Type 0)
      → ((previous : Option Directory) (faults : List (Option Text))
          → P (record disk { previous = previous; faults = faults }))
      → ((d : Disk) → P d → R d)
      → (there : Bool) → After P R (when torn there (remove_previous torn action) disk)
  unfolding remove_previous
  cleared action disk P R h k false = h disk.previous disk.faults
  cleared action disk P R h k true = After-attempt P R disk.faults _ _ _ (k _ (h _ _)) (h _ _)

  first_move :
      (there : Bool) (disk : Disk)
      → Untouched disk
      → After Aside (IsOldOrNew before) (when torn there move_aside disk)
  unfolding move_aside
  first_move false disk (l, s) = (s, inl l)
  first_move true disk (l, s) =
      After-attempt Aside (IsOldOrNew before) disk.faults _ _ _ (inl l) (s, inr (refl, l))

  old_still : (disk : Disk) → Aside disk → IsOldOrNew before disk
  old_still disk (s, inl l) = inl l
  old_still disk (s, inr (l, p)) = inr (inr (l, p))

  moved :
      (disk : Disk) (staging : Option Directory)
      → disk.staging ≡ staging
      → Aside disk
      → After Installed (IsOldOrNew before) (moved_in disk staging)
  moved disk none e h = old_still (record disk { faults = next_faults disk.faults }) h
  moved disk (some d) e h =
      After-attempt Installed (IsOldOrNew before) disk.faults _ _ _
        (old_still (record disk { faults = next_faults disk.faults }) h) (sym e ∙ h.0)

  -- Whatever fails in an installation, the definitions that are installed after it are the old ones
  -- or the new ones as a whole, or there are none and the old ones stand aside as a whole.
  pub install_definitions-IsOldOrNew : IsOldOrNew before (install_definitions torn before).1
  unfolding install_definitions clear_previous set_aside move_in
  install_definitions-IsOldOrNew = After-any (IsOldOrNew before) (install_definitions torn before) (
      After-next Installed (IsOldOrNew before) (IsOldOrNew before) _ _
        (After-next Aside Installed (IsOldOrNew before) _ _
          (After-next Untouched Aside (IsOldOrNew before) _ _
            (cleared _ before Untouched (IsOldOrNew before) (λ p f. (refl, refl)) (λ d u. inl u.0)
              (exists before.previous))
            (λ disk u. first_move (exists disk.live) disk u))
          (λ disk a. moved disk disk.staging refl a))
        (λ disk i.
          cleared _ disk (IsOldOrNew before) (IsOldOrNew before) (λ p f. inr (inl i)) (λ d x. x)
            (exists disk.previous)))
