-- ===== src/Database/Atomic.antt =====
-- A run that fails stops at one file, of which nothing stays.
use mathlib.Core.Path.{subst, sym, ap}
use cogitator.Base.{
  ◌≡◌, refl, inl, inr, true, false, List, [], ◌∷◌, ◌++◌, Option, none, some, Bool-cases,
}
use cogitator.Base.Texts.{Bytes}
use cogitator.Base.Results.{Result, ok, err}
use cogitator.Base.Numbers.{ℤ}
use cogitator.Database.{
  Sqlite, MigrationFile, Failure, Db, has_version, apply_migration, apply_content, recorded,
  exec_all, split_statements, run_files, after_apply,
}

module _ (Q : Sqlite) where
  -- A failed migration has changed nothing.
  abbrev Untouched : Db Q → Db Q × Result Failure (Unit {0}) → Type 0
  Untouched db (t, ok _) = Unit
  Untouched db (t, err e) = t ≡ db

  pub apply-Untouched : (db : Db Q) (f : MigrationFile) → Untouched db (apply_migration Q db f)
  unfolding apply_migration
  apply-Untouched db f = content f.content
    where
      done : (r : Result Failure Q.Data) → Untouched db (recorded Q db f.version r)
      done (err e) = refl
      done (ok d) = elim (Bool-cases (has_version db.applied f.version)) [
        | inl twice ↦ rw twice refl
        | inr new ↦ rw new tt
      ]

      content : (c : Option Bytes) → Untouched db (apply_content Q db f.version c)
      content none = refl
      content (some sql) = done (exec_all Q db.rows (split_statements sql))

  -- Where a run of files has failed: what is before the file was applied, and nothing else.
  abbrev FailedAt : List ℤ → Db Q → List MigrationFile → Db Q × Result Failure (Unit {0}) → Type 0
  FailedAt seen db files (t, ok _) = Unit
  FailedAt seen db files (t, err e) =
      (before : List MigrationFile) × (f : MigrationFile) × (after : List MigrationFile) × (files
        ≡ before ++ f ∷ after)
      × (run_files Q seen db before ≡ (t, ok tt))
      × (apply_migration Q t f ≡ (t, err e))

  run-FailedAt :
      (seen : List ℤ) (db : Db Q) (files : List MigrationFile)
      → FailedAt seen db files (run_files Q seen db files)
  unfolding run_files
  run-FailedAt seen db [] = tt
  run-FailedAt seen db (f ∷ files) = elim (Bool-cases (has_version seen f.version)) [
    | inl skip ↦ rw skip (skipped (run_files Q seen db files) (run-FailedAt seen db files) skip)
    | inr new ↦ rw new (
        applied (apply_migration Q db f) refl (apply-Untouched db f)
          (λ t. run-FailedAt seen t files) new)
  ]
    where
      skipped :
          (r : Db Q × Result Failure (Unit {0}))
          → FailedAt seen db files r
          → has_version seen f.version ≡ true
          → FailedAt seen db (f ∷ files) r
      skipped (t, ok x) h skip = tt
      skipped (t, err e) (before, g, after, split, ran, failed) skip =
          (f ∷ before, g, after, ap (λ fs. f ∷ fs) split, rw skip ran, failed)

      later :
          (t : Db Q) (r : Db Q × Result Failure (Unit {0}))
          → apply_migration Q db f ≡ (t, ok tt)
          → FailedAt seen t files r
          → has_version seen f.version ≡ false
          → FailedAt seen db (f ∷ files) r
      later t (u, ok x) e h new = tt
      later t (u, err x) e (before, g, after, split, ran, failed) new =
          (f ∷ before, g, after, ap (λ fs. f ∷ fs) split, rw (new, e) ran, failed)

      applied :
          (r : Db Q × Result Failure (Unit {0}))
          → apply_migration Q db f ≡ r
          → Untouched db r
          → ((t : Db Q) → FailedAt seen t files (run_files Q seen t files))
          → has_version seen f.version ≡ false
          → FailedAt seen db (f ∷ files) (after_apply Q (λ t. run_files Q seen t files) r)
      applied (t, ok x) e u rest new = later t (run_files Q seen t files) e (rest t) new
      applied (t, err x) e u rest new = (
        [],
        f,
        files,
        refl,
        ap (λ d. (d, ok tt)) (sym u),
        subst (λ d. apply_migration Q d f ≡ (t, err x)) (sym u) e,
      )

-- A run that fails has applied the files before one, in full, and then that file failed and left
-- the data and the recorded versions as they were; no later file was tried.
pub run_files-fails :
    (Q : Sqlite) (seen : List ℤ) (db t : Db Q) (files : List MigrationFile) (e : Failure)
    → run_files Q seen db files ≡ (t, err e)
    → (before : List MigrationFile) × (f : MigrationFile) × (after : List MigrationFile) × (files
        ≡ before ++ f ∷ after)
      × (run_files Q seen db before ≡ (t, ok tt))
      × (apply_migration Q t f ≡ (t, err e))
run_files-fails Q seen db t files e h =
    subst (FailedAt Q seen db files) h (run-FailedAt Q seen db files)
