-- ===== src/Updates/Run.antt =====
-- What one run of the updater in crates/oxidarr-prowl/src/definitions_sync.rs leaves installed.
use oxidarr.Common.{
  ℕ, zero, suc, ◌+◌, ◌≡◌, refl, ◌∙◌, ◌⊎◌, inl, inr, Bool, true, false, Option, none, some, List, [],
  ◌∷◌, Text,
}
use oxidarr.Common.Outcome.{Outcome, ok, err, map_err}
use oxidarr.Common.Act.{
  pure, next, lift, ◌>>◌, Relates, IsPreorder, Relates-pure, Relates-fail, Relates-lift,
  Relates-bind,
}
use oxidarr.Updates.{Directory, Disk, SyncError, archive, attempt, exists, install_definitions}
use oxidarr.Updates.Swap.{IsOldOrNew, install_definitions-IsOldOrNew}
use oxidarr.Updates.Fetch.{
  Entry, Unpack, name_of, write_definition, write_entry, extract_entry, extract_entries,
  some_written, extract_definitions, remove_staging, clear_staging, create_staging, stage, cleaned,
  sync_once,
}

-- The installed definitions, and those that stand aside, stay as they are.
abbrev Keeps : Disk → Disk → Type 0
Keeps before after = (after.live ≡ before.live) × (after.previous ≡ before.previous)

keeps : IsPreorder Keeps
keeps = record { stay = λ s. (refl, refl); step = λ h k. (k.0 ∙ h.0, k.1 ∙ h.1) }

Keeps-attempt :
    (faults : List (Option Text)) (wrap : Text → SyncError) (before torn done : Disk)
    → Keeps before torn
    → Keeps before done
    → Keeps before (attempt faults wrap torn done).1
Keeps-attempt [] wrap before torn done h k = k
Keeps-attempt (none ∷ faults) wrap before torn done h k = k
Keeps-attempt (some e ∷ faults) wrap before torn done h k = h

module _ (torn : Directory → Directory) (unpack : Unpack) where
  write_definition-Relates :
      (name : Text) (body : List ℕ) → Relates Keeps (write_definition torn unpack name body)
  unfolding write_definition
  write_definition-Relates name body = record {
    at = λ disk. Keeps-attempt disk.faults _ disk _ _ (refl, refl) (refl, refl);
  }

  write_entry-Relates :
      (body : Outcome Text (List ℕ)) (name : Option Text)
      → Relates Keeps (write_entry torn unpack body name)
  write_entry-Relates body none = Relates-pure keeps 0
  write_entry-Relates body (some name) =
      Relates-bind keeps (lift (map_err archive body)) _ (Relates-lift keeps _) λ bytes.
        Relates-bind keeps (write_definition torn unpack name bytes) _
          (write_definition-Relates name bytes) λ u. Relates-pure keeps 1

  extract_entry-Relates :
      (entry : Outcome Text Entry) → Relates Keeps (extract_entry torn unpack entry)
  unfolding extract_entry
  extract_entry-Relates (err e) = Relates-fail keeps (archive e)
  extract_entry-Relates (ok entry) =
      Relates-bind keeps (lift (map_err archive entry.path)) _ (Relates-lift keeps _)
        λ path. write_entry-Relates entry.body (name_of path)

  extract_entries-Relates :
      (entries : List (Outcome Text Entry)) (written : ℕ)
      → Relates Keeps (extract_entries torn unpack entries written)
  unfolding extract_entries
  extract_entries-Relates [] written = Relates-pure keeps written
  extract_entries-Relates (entry ∷ entries) written =
      Relates-bind keeps (extract_entry torn unpack entry) _ (extract_entry-Relates entry)
        λ n. extract_entries-Relates entries (written + n)

  some_written-Relates : (n : ℕ) → Relates Keeps (some_written torn unpack n)
  some_written-Relates zero = Relates-fail keeps _
  some_written-Relates (suc n) = Relates-pure keeps (suc n)

  extract_definitions-Relates :
      (bytes : List ℕ) → Relates Keeps (extract_definitions torn unpack bytes)
  unfolding extract_definitions
  extract_definitions-Relates bytes =
      Relates-bind keeps (lift (map_err archive (unpack bytes))) _ (Relates-lift keeps _) λ entries.
        Relates-bind keeps (extract_entries torn unpack entries 0) _
          (extract_entries-Relates entries 0) some_written-Relates

  clear_staging-Relates : (there : Bool) → Relates Keeps (clear_staging torn unpack there)
  unfolding remove_staging
  clear_staging-Relates false = Relates-pure keeps tt
  clear_staging-Relates true = record {
    at = λ disk. Keeps-attempt disk.faults _ disk _ _ (refl, refl) (refl, refl);
  }

  create_staging-Relates : Relates Keeps (create_staging torn unpack)
  unfolding create_staging
  create_staging-Relates = record {
    at = λ disk. Keeps-attempt disk.faults _ disk _ _ (refl, refl) (refl, refl);
  }

  stage-Keeps : (body : List ℕ) (disk : Disk) → Keeps disk (stage torn unpack body disk).1
  unfolding stage
  stage-Keeps body disk =
      (Relates-bind keeps
          (clear_staging torn unpack (exists disk.staging) >> create_staging torn unpack) _
          (Relates-bind keeps (clear_staging torn unpack (exists disk.staging)) _
            (clear_staging-Relates (exists disk.staging)) λ u. create_staging-Relates)
          λ v. extract_definitions-Relates body).at
        disk

  cleaned-Keeps : (r : Outcome SyncError ℕ × Disk) → Keeps r.1 (cleaned torn unpack r).1
  cleaned-Keeps (ok n, disk) = (refl, refl)
  cleaned-Keeps (err e, disk) = (clear_staging-Relates (exists disk.staging)).at disk

  -- The definitions are those of before, or those that were staged, or they are gone and those of
  -- before stand aside.
  abbrev pub IsRun : Disk → Outcome SyncError ℕ × Disk → Disk → Type 0
  IsRun before (ok n, staged) after =
      (after.live ≡ before.live)
      ⊎ ((after.live ≡ staged.staging) ⊎ ((after.live ≡ none) × (after.previous ≡ before.live)))
  IsRun before (err e, staged) after =
      (after.live ≡ before.live) × (after.previous ≡ before.previous)

  installed :
      (before : Disk) (n : ℕ) (staged after after' : Disk)
      → Keeps before staged
      → Keeps after after'
      → IsOldOrNew staged after
      → IsRun before (ok n, staged) after'
  installed before n staged after after' (l, p) (l', p') (inl h) = inl (l' ∙ h ∙ l)
  installed before n staged after after' (l, p) (l', p') (inr (inl h)) = inr (inl (l' ∙ h))
  installed before n staged after after' (l, p) (l', p') (inr (inr (h, k))) =
      inr (inr (l' ∙ h, p' ∙ k ∙ l))

  next-IsOldOrNew :
      (n : ℕ) (before : Disk) (r : Outcome SyncError (Unit {0}) × Disk)
      → IsOldOrNew before r.1
      → IsOldOrNew before (next r λ u. pure n).1
  next-IsOldOrNew n before (ok u, disk) h = h
  next-IsOldOrNew n before (err e, disk) h = h

  ran :
      (before : Disk) (r : Outcome SyncError ℕ × Disk)
      → Keeps before r.1
      → IsRun before r
          (cleaned torn unpack (next r λ count. install_definitions torn >> pure count)).1
  ran before (ok n, staged) k =
      installed before n staged (next (install_definitions torn staged) λ u. pure n).1
        (cleaned torn unpack (next (install_definitions torn staged) λ u. pure n)).1 k
        (cleaned-Keeps (next (install_definitions torn staged) λ u. pure n))
        (next-IsOldOrNew n staged (install_definitions torn staged)
          (install_definitions-IsOldOrNew torn staged))
  ran before (err e, staged) k =
      ((cleaned-Keeps (err e, staged)).0 ∙ k.0, (cleaned-Keeps (err e, staged)).1 ∙ k.1)

  -- A run whose staging fails leaves the installed definitions as they are; after any other run
  -- they are as before, or the ones that were staged, or there are none and those of before stand
  -- aside as a whole.
  pub sync_once-IsRun :
      (body : List ℕ) (disk : Disk)
      → IsRun disk (stage torn unpack body disk) (sync_once torn unpack (ok body) disk).1
  unfolding sync_once
  sync_once-IsRun body disk = ran disk (stage torn unpack body disk) (stage-Keeps body disk)
