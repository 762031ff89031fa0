-- ===== src/Database/Tests.antt =====
-- Migrations over a database whose data are the statements that it has executed.
use cogitator.Base.{◌≡◌, refl, false, List, [], ◌∷◌, ◌++◌, none, some, if◌then◌else◌}
use cogitator.Base.Texts.{Bytes, codes, bytes_eq, contains, has_prefix}
use cogitator.Base.Numbers.{ℤ, pos, negsuc}
use cogitator.Base.Results.{ok, err}
use cogitator.Base.Sorting.{Rising}
use cogitator.Database.{
  Sqlite, Entry, MigrationFile, exec_sql, record_version, Db, apply_migration, exec_all,
  split_statements, run_files, run_numbered_migrations, parse_version, rank,
}
use cogitator.Database.Atomic.{run_files-fails}
use cogitator.Database.Once.{run-once}

abbrev toy : Sqlite
toy = record {
  Data = List Bytes;
  exec = λ d stmt.
      if bytes_eq stmt (codes "BAD")
      then err (codes "syntax error")
      else if bytes_eq stmt (codes "AGAIN")
      then err (codes "duplicate column name: x")
      else ok (d ++ stmt ∷ []);
}

abbrev entry : Bytes → Bytes → Entry
entry name sql = record { name = name; is_dir = false; content = some sql }

abbrev directory : List Entry
directory =
    entry (codes "0002_b.sql") (codes "AGAIN; B1 ;; B2")
    ∷ entry (codes "0001_a.sql") (codes "A1;")
    ∷ entry (codes "README.md") (codes "BAD")
    ∷ []

abbrev empty : Db toy
empty = record { rows = []; applied = [] }

runs : Unit {0}
unfolding run_numbered_migrations run_files apply_migration exec_all split_statements parse_version
    contains has_prefix
runs = tt

abbrev full : Db toy
full = record { rows = codes "A1" ∷ codes "B1" ∷ codes "B2" ∷ []; applied = pos 1 ∷ pos 2 ∷ [] }

run-once_example :
    (run_numbered_migrations toy full (some directory) ≡ (full, ok tt))
    × ((new : List ℤ) × (full.applied ≡ empty.applied ++ new) × Rising rank new)
unfolding runs
run-once_example = run-once toy empty full directory refl

abbrev good : MigrationFile
good = record { name = codes "0001_a.sql"; version = pos 1; content = some (codes "A1") }

abbrev bad : MigrationFile
bad = record { name = codes "0002_b.sql"; version = pos 2; content = some (codes "B1;BAD") }

abbrev after_good : Db toy
after_good = record { rows = codes "A1" ∷ []; applied = pos 1 ∷ [] }

run_files-fails_example :
    (before : List MigrationFile) × (f : MigrationFile) × (after : List MigrationFile) × (good ∷ bad
        ∷ []
      ≡ before ++ f ∷ after)
    × (run_files toy [] empty before ≡ (after_good, ok tt))
    × (apply_migration toy after_good f ≡ (after_good, err (exec_sql (codes "syntax error"))))
unfolding runs
run_files-fails_example =
    run_files-fails toy [] empty after_good (good ∷ bad ∷ []) (exec_sql (codes "syntax error")) refl

-- Two files of one version: the first run fails at the second file, and the next one passes it over.
abbrev twins : List Entry
twins = entry (codes "0001_a.sql") (codes "A1") ∷ entry (codes "0001_b.sql") (codes "B1") ∷ []

twins_skip :
    (run_numbered_migrations toy empty (some twins) ≡ (after_good, err record_version))
    × (run_numbered_migrations toy after_good (some twins) ≡ (after_good, ok tt))
unfolding runs
twins_skip = (refl, refl)

-- A sign counts as the start of a version.
signed :
    (parse_version (codes "-5_x.sql") ≡ some (negsuc 4)) × (parse_version (codes "x_1.sql") ≡ none)
unfolding parse_version
signed = (refl, refl)
