-- ===== src/Migrate/World.antt =====
-- ddl/migrate_cmd.go: the data of the command, and what it does not implement: the database behind
-- database/sql, the migration directory, the driver's hooks and the hash. They are parameters.
use sqddl.Base.{ℕ, Bool, Option, none, some, List, Bytes, ◌≡◌}

-- What Open and ReadFrom give for a file: its contents, or the error of one of them.
pub data File (Error : Type 0) : Type 0 where
  contents : Bytes → File Error
  not_exist open_failed read_failed : Error → File Error

-- The type `migration`, and a row of the history table, which is the same without `valid`.
pub record Migration : Type 0 where
  pub valid : Bool
  pub filename : Bytes
  pub checksum : Bytes
  pub started_at : Option ℕ
  pub time_taken : Option ℕ
  pub success : Bool

pub record Row : Type 0 where
  pub filename : Bytes
  pub checksum : Bytes
  pub started_at : Option ℕ
  pub time_taken : Option ℕ
  pub success : Bool

-- An error of `run`, with the step that failed; `script` is a MigrationError.
pub data RunError (Error : Type 0) : Type 0 where
  begin_tx file history commit_tx : Error → RunError Error
  script : (error : Error) (filename text : Bytes) (started_at time_taken : ℕ) → RunError Error

-- The result of executing a script, with the readings of the clock round the call.
pub record Executed (Db Error : Type 0) : Type 0 where
  pub state : Db
  pub started_at : ℕ
  pub time_taken : ℕ
  pub error : Option Error

-- `Db` is the state of the database as the connection sees it, a transaction that it is in included.
-- `begin`, `rollback` and `commit` are those of the transaction; `upsert` writes rows to the history
-- table. A call gives the state that it leaves, and its error. `is_lock_timeout` is none where the
-- driver has no such hook, and `annotate` is the identity where it has no AnnotateError.
-- `checksum_of` is the hex of the SHA-256, and `pick` a random number below the bound.
pub record World : Type 1 where
  pub Db : Type 0
  pub Error : Type 0
  pub read : Bytes → File Error
  pub begin : Db → Db × Option Error
  pub exec : Db → Bytes → Executed Db Error
  pub upsert : Db → List Row → Db × Option Error
  pub rollback : Db → Db
  pub commit : Db → Db × Option Error
  pub annotate : Error → Bytes → Error
  pub is_lock_timeout : Option (RunError Error → Bool)
  pub checksum_of : Bytes → Bytes
  pub pick : (attempts bound : ℕ) → ℕ

-- What a database with transactions promises. `Within db now` says that a transaction that began at
-- state `db` is at state `now`: rolling it back, or a commit that fails, restores `db`.
pub record Transactional (world : World) : Type 1 where
  pub Within : world.Db → world.Db → Type 0
  pub begun : (db now : world.Db) → world.begin db ≡ (now, none) → Within db now
  pub not_begun : (db now : world.Db) (e : world.Error) → world.begin db ≡ (now, some e) → now ≡ db
  pub executed :
      (db now : world.Db) (text : Bytes) → Within db now → Within db (world.exec now text).state
  pub upserted :
      (db now : world.Db) (rows : List Row) → Within db now → Within db (world.upsert now rows).0
  pub rolled_back : (db now : world.Db) → Within db now → world.rollback now ≡ db
  pub not_committed :
      (db now last : world.Db) (e : world.Error)
      → Within db now
      → world.commit now ≡ (last, some e)
      → last ≡ db

-- The flags of the command that its behaviour depends on; delays are in nanoseconds.
pub record Command : Type 0 where
  pub dialect : Bytes
  pub max_attempts : ℕ
  pub base_delay : ℕ
  pub max_delay : ℕ
  pub skip_history_table : Bool
  pub verbose : Bool

-- A line on standard error, its timestamps and durations left out.
pub data Line : Type 0 where
  began rolled_back committed : Line
  started failed passed undoing : Bytes → Line
  timed_out : Bytes → (attempts : ℕ) → Line
  timed_out_retrying : Bytes → (attempts delay : ℕ) → Line
  history_failed : Line
