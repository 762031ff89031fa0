-- ===== src/Database/Once.antt =====
-- Each version is applied once, in rising order.
use mathlib.Core.Path.{subst, sym, ap, ◌∙◌}
use cogitator.Base.{
  ℕ, ◌≤◌, ◌≡◌, refl, inl, inr, true, ◌||◌, List, [], ◌∷◌, ◌++◌, Option, none, some, arith, All,
  Bool-cases,
}
use cogitator.Base.Texts.{Bytes}
use cogitator.Base.Results.{Result, ok, err}
use cogitator.Base.Numbers.{ℤ, pos, negsuc, int_eq}
use cogitator.Base.Rows.{anyb-append}
use cogitator.Base.Sorting.{Rising, sort_by-Rising}
use cogitator.Database.{
  Sqlite, Entry, MigrationFile, Failure, Db, has_version, apply_migration, apply_content, recorded,
  exec_all, split_statements, run_files, after_apply, run_numbered_migrations, collected,
  migration_files, rank,
}

int_refl : (v : ℤ) → int_eq v v ≡ true
int_refl (pos n) = ground arith
int_refl (negsuc n) = ground arith

append_nil : (vs : List ℤ) → vs ++ [] ≡ vs
append_nil [] = refl
append_nil (v ∷ vs) = ap (λ ws. v ∷ ws) (append_nil vs)

append_assoc : (vs : List ℤ) (v : ℤ) (ws : List ℤ) → (vs ++ v ∷ []) ++ ws ≡ vs ++ v ∷ ws
append_assoc [] v ws = refl
append_assoc (u ∷ vs) v ws = ap (λ us. u ∷ us) (append_assoc vs v ws)

module _ (Q : Sqlite) where
  -- What a success adds to the recorded versions.
  abbrev Recorded : List ℤ → ℤ → Db Q × Result Failure (Unit {0}) → Type 0
  Recorded applied v (t, ok _) = t.applied ≡ applied ++ v ∷ []
  Recorded applied v (t, err e) = Unit

  apply-Recorded :
      (db : Db Q) (f : MigrationFile) → Recorded db.applied f.version (apply_migration Q db f)
  unfolding apply_migration
  apply-Recorded db f = content f.content
    where
      done : (r : Result Failure Q.Data) → Recorded db.applied f.version (recorded Q db f.version r)
      done (err e) = tt
      done (ok d) = elim (Bool-cases (has_version db.applied f.version)) [
        | inl twice ↦ rw twice tt
        | inr new ↦ rw new refl
      ]

      content : (c : Option Bytes) → Recorded db.applied f.version (apply_content Q db f.version c)
      content none = tt
      content (some sql) = done (exec_all Q db.rows (split_statements sql))

  -- After a run that succeeds the versions are those of before and new ones, which rise, lie above
  -- whatever all files lie above, and make up all versions of the files together with the seen ones.
  abbrev Added : List ℤ → Db Q → List MigrationFile → ℕ → Db Q × Result Failure (Unit {0}) → Type 0
  Added seen db files low (t, err e) = Unit
  Added seen db files low (t, ok _) =
      (new : List ℤ) × (t.applied ≡ db.applied ++ new)
      × Rising rank new
      × All (λ v. low ≤ rank v) new
      × All
          (λ (f : MigrationFile). (has_version seen f.version || has_version new f.version) ≡ true)
          files

  run-Added :
      (seen : List ℤ) (db : Db Q) (files : List MigrationFile) (low : ℕ)
      → Rising (λ f. rank f.version) files
      → All (λ f. low ≤ rank f.version) files
      → Added seen db files low (run_files Q seen db files)
  unfolding run_files
  run-Added seen db [] low rising above = ([], sym (append_nil db.applied), tt, tt, tt)
  run-Added seen db (f ∷ files) low rising above = elim (Bool-cases (has_version seen f.version)) [
    | inl skip ↦
        rw skip
          (skipped (run_files Q seen db files) (run-Added seen db files low rising.1 above.1) skip)
    | inr fresh ↦ rw fresh (
        applied (apply_migration Q db f) (apply-Recorded db f)
          (λ t. run-Added seen t files (rank f.version) rising.1 rising.0))
  ]
    where
      skipped :
          (r : Db Q × Result Failure (Unit {0}))
          → Added seen db files low r
          → has_version seen f.version ≡ true
          → Added seen db (f ∷ files) low r
      skipped (t, err e) h skip = tt
      skipped (t, ok x) (new, grown, rise, high, cover) skip =
          (new, grown, rise, high, (ground (arith, skip), cover))

      later :
          (t : Db Q) (r : Db Q × Result Failure (Unit {0}))
          → t.applied ≡ db.applied ++ f.version ∷ []
          → Added seen t files (rank f.version) r
          → Added seen db (f ∷ files) low r
      later t (u, err x) e h = tt
      later t (u, ok x) e (new, grown, rise, high, cover) = (
        f.version ∷ new,
        grown ∙ ap (λ vs. vs ++ new) e ∙ append_assoc db.applied f.version new,
        (high, rise),
        (above.0, weaken new high),
        (ground (arith, int_refl f.version), widen files cover),
      )
        where
          weaken :
              (vs : List ℤ) → All (λ v. rank f.version ≤ rank v) vs → All (λ v. low ≤ rank v) vs
          weaken [] h = tt
          weaken (v ∷ vs) h = (omega (arith, h.0, above.0), weaken vs h.1)

          widen :
              (fs : List MigrationFile)
              → All
                  (λ (g : MigrationFile).
                    (has_version seen g.version || has_version new g.version) ≡ true)
                  fs
              → All
                  (λ (g : MigrationFile).
                    (has_version seen g.version || has_version (f.version ∷ new) g.version) ≡ true)
                  fs
          widen [] h = tt
          widen (g ∷ fs) h = (ground (arith, h.0), widen fs h.1)

      applied :
          (r : Db Q × Result Failure (Unit {0}))
          → Recorded db.applied f.version r
          → ((t : Db Q) → Added seen t files (rank f.version) (run_files Q seen t files))
          → Added seen db (f ∷ files) low (after_apply Q (λ t. run_files Q seen t files) r)
      applied (t, err e) h rest = tt
      applied (t, ok x) h rest = later t (run_files Q seen t files) h (rest t)

  skip-All :
      (seen : List ℤ) (db : Db Q) (files : List MigrationFile)
      → All (λ (f : MigrationFile). has_version seen f.version ≡ true) files
      → run_files Q seen db files ≡ (db, ok tt)
  unfolding run_files
  skip-All seen db [] h = refl
  skip-All seen db (f ∷ files) h = rw h.0 (skip-All seen db files h.1)

lowest : (fs : List MigrationFile) → All (λ (f : MigrationFile). 0 ≤ rank f.version) fs
lowest [] = tt
lowest (f ∷ fs) = (omega arith, lowest fs)

module _ (Q : Sqlite) (db t : Db Q) (entries : List Entry)
    (ran : run_numbered_migrations Q db (some entries) ≡ (t, ok tt)) where
  added : Added Q db.applied db (collected entries) 0 (t, ok tt)
  unfolding run_numbered_migrations
  added = subst (Added Q db.applied db (collected entries) 0) ran (
      run-Added Q db.applied db (collected entries) 0
        (sort_by-Rising (λ f. rank f.version) (migration_files entries))
        (lowest (collected entries)))

  -- A start on the same directory after a run that succeeded succeeds and applies nothing; and the
  -- versions that the run has recorded are new rows after those of before, in rising order.
  pub run-once :
      (run_numbered_migrations Q t (some entries) ≡ (t, ok tt))
      × ((new : List ℤ) × (t.applied ≡ db.applied ++ new) × Rising rank new)
  unfolding run_numbered_migrations
  run-once =
      let (new, grown, rise, high, cover) = added in
      (
        skip-All Q t.applied t (collected entries) (covered new grown (collected entries) cover),
        (new, grown, rise),
      )
    where
      covered :
          (new : List ℤ)
          → t.applied ≡ db.applied ++ new
          → (fs : List MigrationFile)
          → All
              (λ (f : MigrationFile).
                (has_version db.applied f.version || has_version new f.version) ≡ true)
              fs
          → All (λ (f : MigrationFile). has_version t.applied f.version ≡ true) fs
      covered new e [] h = tt
      covered new e (f ∷ fs) h = (
        subst (λ vs. has_version vs f.version ≡ true) (sym e)
            (anyb-append (λ w. int_eq w f.version) db.applied new ∙ h.0),
        covered new e fs h.1,
      )
