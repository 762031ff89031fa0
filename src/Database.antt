-- ===== src/Database.antt =====
-- server/internal/database/migration_runner.go: the numbered migrations. SQLite is the interface
-- `Sqlite`: what one statement makes of the data, or the text of its error; `schema_migrations` is
-- the list of its rows, whose version is the primary key. The directory is the list of its entries
-- as `fs.ReadDir` gives them, each with what reading it gives. That a transaction begins and
-- commits is taken for granted.
pub mod Atomic
pub mod Once
mod Tests
use cogitator.Base.{
  ℕ, ◌+◌, ◌-◌, ◌^◌, ◌≡◌, Bool, true, false, not, ◌||◌, ◌&&◌, List, [], ◌∷◌, ◌++◌, Option, none,
  some, anyb, if◌then◌else◌,
}
use cogitator.Base.Texts.{Bytes, codes, is_empty, trim_space, split, contains, bytes_eq}
use cogitator.Base.Numbers.{ℤ, pos, negsuc, int_eq, atoi}
use cogitator.Base.Results.{Result, ok, err}
use cogitator.Base.Sorting.{sort_by}

pub record Sqlite : Type 1 where
  pub Data : Type 0
  pub exec : Data → Bytes → Result Bytes Data

pub record Entry : Type 0 where
  pub name : Bytes
  pub is_dir : Bool
  pub content : Option Bytes

pub record MigrationFile : Type 0 where
  pub name : Bytes
  pub version : ℤ
  pub content : Option Bytes

-- `filepath.Ext`: from the last dot on, or nothing.
abbrev pub ext_or : ℕ → Bytes → Bytes → Bytes
ext_or c s [] = if bytes_eq (c ∷ []) (codes ".") then c ∷ s else []
ext_or c s (d ∷ rest) = d ∷ rest

abbrev pub ext : Bytes → Bytes
ext [] = []
ext (c ∷ s) = ext_or c s (ext s)

-- What stands before the first underscore, if there is one.
abbrev pub cons_some : ℕ → Option Bytes → Option Bytes
cons_some c none = none
cons_some c (some s) = some (c ∷ s)

abbrev pub prefix : Bytes → Option Bytes
prefix [] = none
prefix (c ∷ s) = if bytes_eq (c ∷ []) (codes "_") then some [] else cons_some c (prefix s)

-- An empty prefix (`idx <= 0`) has no version.
abbrev pub version_of : Option Bytes → Option ℤ
version_of none = none
version_of (some []) = none
version_of (some (c ∷ s)) = atoi (c ∷ s)

unfoldable pub parse_version : Bytes → Option ℤ
parse_version name = version_of (prefix name)

abbrev pub with_version : Entry → Option ℤ → List MigrationFile → List MigrationFile
with_version e none rest = rest
with_version e (some v) rest = record { name = e.name; version = v; content = e.content } ∷ rest

abbrev pub migration_files : List Entry → List MigrationFile
unfolding parse_version
migration_files [] = []
migration_files (e ∷ entries) =
    let rest = migration_files entries in
    if e.is_dir || not (bytes_eq (ext e.name) (codes ".sql"))
    then rest
    else with_version e (parse_version e.name) rest

-- The integers of 64 bits in their order.
abbrev pub rank : ℤ → ℕ
rank (pos n) = 2 ^ 63 + n
rank (negsuc n) = 2 ^ 63 - (n + 1)

-- `none` where the directory cannot be read.
abbrev pub collected : List Entry → List MigrationFile
collected entries = sort_by (λ f. rank f.version) (migration_files entries)

-- The pieces between semicolons that are not blank.
abbrev pub nonblank : List Bytes → List Bytes
nonblank [] = []
nonblank (p ∷ ps) =
    let rest = nonblank ps in let s = trim_space p in if is_empty s then rest else s ∷ rest

unfoldable pub split_statements : Bytes → List Bytes
split_statements sql = nonblank (split b';' sql)

-- The steps at which a migration fails.
pub data Failure : Type 0 where
  read_dir read_file record_version : Failure
  exec_sql : Bytes → Failure

abbrev pub has_version : List ℤ → ℤ → Bool
has_version applied v = anyb (λ w. int_eq w v) applied

module _ (Q : Sqlite) where
  pub record Db : Type 0 where
    pub rows : Q.Data
    pub applied : List ℤ

  -- "duplicate column" of an ALTER TABLE is passed over.
  abbrev pub tolerates : Bytes → Bool
  unfolding contains
  tolerates message = contains message (codes "duplicate column")

  unfoldable pub exec_all : Q.Data → List Bytes → Result Failure Q.Data
  exec_all d [] = ok d
  exec_all d (stmt ∷ stmts) = elim (Q.exec d stmt) [
    | ok d' ↦ exec_all d' stmts
    | err message ↦ if tolerates message then exec_all d stmts else err (exec_sql message)
  ]

  -- The INSERT of the version, and the commit.
  abbrev pub recorded : Db → ℤ → Result Failure Q.Data → Db × Result Failure (Unit {0})
  recorded db v (err e) = (db, err e)
  recorded db v (ok d) =
      if has_version db.applied v
      then (db, err record_version)
      else (record { rows = d; applied = db.applied ++ v ∷ [] }, ok tt)

  abbrev pub apply_content : Db → ℤ → Option Bytes → Db × Result Failure (Unit {0})
  apply_content db v none = (db, err read_file)
  apply_content db v (some sql) = recorded db v (exec_all db.rows (split_statements sql))

  unfoldable pub apply_migration : Db → MigrationFile → Db × Result Failure (Unit {0})
  unfolding exec_all split_statements
  apply_migration db f = apply_content db f.version f.content

  -- The loop; `seen` are the versions that were read before it.
  abbrev pub after_apply :
      (Db → Db × Result Failure (Unit {0}))
      → Db × Result Failure (Unit {0})
      → Db × Result Failure (Unit {0})
  after_apply rest (db, err e) = (db, err e)
  after_apply rest (db, ok _) = rest db

  unfoldable pub run_files : List ℤ → Db → List MigrationFile → Db × Result Failure (Unit {0})
  run_files seen db [] = (db, ok tt)
  run_files seen db (f ∷ files) =
      if has_version seen f.version
      then run_files seen db files
      else after_apply (λ db'. run_files seen db' files) (apply_migration db f)

  -- No file system is an empty one.
  unfoldable pub run_numbered_migrations : Db → Option (List Entry) → Db × Result Failure (Unit {0})
  run_numbered_migrations db none = (db, err read_dir)
  run_numbered_migrations db (some entries) = run_files db.applied db (collected entries)
