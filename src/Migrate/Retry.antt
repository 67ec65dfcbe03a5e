-- ===== src/Migrate/Retry.antt =====
-- ddl/migrate_cmd.go: runWithRetry, which runs a queue again when a lock was not had in time, and
-- undo, which runs the undo script of a migration that failed without a transaction.
use sqddl.Base.{
  ℕ, zero, suc, max, ◌+◌, ◌*◌, ◌/◌, ◌%◌, ◌^◌, Bool, true, false, ◌&&◌, List, [], ◌∷◌, ◌++◌, Option,
  none, some, if◌then◌else◌, ltb, leb, ◌==◌, map, take, Bytes, codes, trim_suffix, trim_space,
  count, reverse,
}
use sqddl.Migrate.World.{
  World, Command, Migration, Row, File, contents, not_exist, open_failed, read_failed, RunError,
  Line, undoing, timed_out, timed_out_retrying, history_failed,
}
use sqddl.Migrate.Run.{uses_tx, row_of, Ran, run}

abbrev pub starts_in : ℕ → Bytes → Bool
starts_in b [] = false
starts_in b (c ∷ s) = c == b

abbrev pub ends_in : ℕ → Bytes → Bool
ends_in b s = starts_in b (reverse s)

-- one semicolon, at the end of the trimmed text
unfoldable pub is_statement : Bytes → Bool
is_statement text = count b';' (trim_space text) == 1 && ends_in b';' (trim_space text)

unfoldable pub undo_name : Bytes → Bytes
undo_name filename =
    trim_suffix (trim_suffix filename (codes ".sql")) (codes ".txoff") ++ codes ".undo.sql"

-- The argument of rng.Intn, in whole seconds: none is its panic on a number that is not positive.
-- The product is an int64, which wraps around; from 2^63 on it is negative. From attempt 63 on,
-- int(math.Exp2(attempts)) does not fit; as on amd64, where it is -2^63, the product is then not
-- positive.
unfoldable pub delay_bound : ℕ → ℕ → Option ℕ
delay_bound base attempts =
    let product = base * 2 ^ attempts % 2 ^ 64 in
    if leb (2 ^ 63) product
    then none
    else if product / 1000000000 == 0
    then none
    else some (product / 1000000000)

-- the delay before the next attempt, for the random number of seconds `picked`
unfoldable pub clamp_delay : ℕ → ℕ → ℕ → ℕ
clamp_delay base most picked =
    if ltb (picked * 1000000000) base
    then base
    else if ltb most (picked * 1000000000)
    then most
    else picked * 1000000000

-- `original`, or the original error with that of the undo script behind it.
pub data Undone (Error : Type 0) : Type 0 where
  original : RunError Error → Undone Error
  with_undo : RunError Error → (undo_file : Bytes) → Error → Undone Error

-- What runWithRetry returns: nil, an error of reading the file, or a migration's error, which has
-- the migration's name in front unless `stoppedAt` is -1.
pub data Reported (Error : Type 0) : Type 0 where
  succeeded : Reported Error
  unreadable : Error → Reported Error
  unnamed : Undone Error → Reported Error
  named : Bytes → Undone Error → Reported Error

-- `index_panic` is queue[-1], `intn_panic` that of rng.Intn.
pub data Retried (Db Error : Type 0) : Type 0 where
  returned : Db → Reported Error → List Line → Retried Db Error
  index_panic intn_panic out_of_fuel : Retried Db Error

abbrev pub failed_row : Migration → Row
failed_row m = record (row_of m) { success = false }

abbrev pub name_at : List Migration → ℕ → Bytes
name_at [] i = []
name_at (m ∷ ms) zero = m.filename
name_at (m ∷ ms) (suc i) = name_at ms i

module _ (world : World) (cmd : Command) where
  open world use {Db, Error, read, exec, upsert, is_lock_timeout, pick}

  -- the database, the error that undo returns and the lines it writes
  pub record Undoing : Type 0 where
    pub state : Db
    pub error : Undone Error
    pub lines : List Line

  unfoldable pub undo_executed : Bytes → RunError Error → Db → Option Error → Undoing
  undo_executed undo_file e state none = record {
    state = state;
    error = original e;
    lines = undoing undo_file ∷ [];
  }
  undo_executed undo_file e state (some u) = record {
    state = state;
    error = with_undo e undo_file u;
    lines = undoing undo_file ∷ [];
  }

  unfoldable pub undo_file_read : Db → Bytes → RunError Error → File Error → Undoing
  undo_file_read db undo_file e (contents text) =
      let r = exec db text in undo_executed undo_file e r.state r.error
  undo_file_read db undo_file e (not_exist u) = record {
    state = db;
    error = original e;
    lines = [];
  }
  undo_file_read db undo_file e (open_failed u) = undo_executed undo_file e db (some u)
  undo_file_read db undo_file e (read_failed u) = undo_executed undo_file e db (some u)

  unfoldable pub undo : Db → Migration → RunError Error → Undoing
  undo db m e = undo_file_read db (undo_name m.filename) e (read (undo_name m.filename))

  abbrev pub times_out : RunError Error → Option (RunError Error → Bool) → Bool
  times_out e none = false
  times_out e (some test) = test e

  -- The history rows of a failed run have been written, with this result.
  unfoldable pub recorded : Bytes → Undone Error → List Line → Db × Option Error → Retried Db Error
  recorded name e lines (state, none) = returned state (named name e) lines
  recorded name e lines (state, some u) =
      returned state (named name e) (lines ++ history_failed ∷ [])

  -- the end of a run that failed for good: `queue` as the run left it, `undone` after undo
  unfoldable pub report : List Migration → Option ℕ → Undoing → List Line → Retried Db Error
  report queue none undone lines = returned undone.state (unnamed undone.error) lines
  report queue (some i) undone lines =
      if cmd.skip_history_table
      then returned undone.state (named (name_at queue i) undone.error) lines
      else recorded (name_at queue i) undone.error lines
          (upsert undone.state (map failed_row (take (i + 1) queue)))

  unfoldable pub fail_for_good :
      Bool → Migration → Ran Db Error → RunError Error → List Line → Retried Db Error
  fail_for_good retryable first r e lines =
      let undone =
        if retryable
        then record { state = r.state; error = original e; lines = [] }
        else undo r.state first e in
      report r.migrations r.stopped_at undone (lines ++ undone.lines)

  -- Attempt `attempts` timed out at migration `name`; `again` is the next attempt, after a delay of
  -- a random number of seconds below the bound.
  unfoldable pub retry_after :
      (List Line → Retried Db Error) → ℕ → Bytes → List Line → Option ℕ → Retried Db Error
  retry_after again attempts name lines none = intn_panic
  retry_after again attempts name lines (some bound) = again (
      lines
      ++ timed_out_retrying name attempts
          (clamp_delay cmd.base_delay cmd.max_delay (pick attempts bound))
        ∷ [])

  -- queue[-1], which stands behind rng.Intn
  unfoldable pub no_name : Option ℕ → Retried Db Error
  no_name none = intn_panic
  no_name (some bound) = index_panic

  unfoldable pub wait_or_stop :
      (List Line → Retried Db Error)
      → ℕ
      → Ran Db Error
      → RunError Error
      → Option ℕ
      → List Line
      → Retried Db Error
  wait_or_stop again attempts r e none lines =
      if leb cmd.max_attempts attempts
      then index_panic
      else no_name (delay_bound cmd.base_delay attempts)
  wait_or_stop again attempts r e (some i) lines =
      if leb cmd.max_attempts attempts
      then returned r.state (named (name_at r.migrations i) (original e))
          (lines ++ timed_out (name_at r.migrations i) attempts ∷ [])
      else retry_after again attempts (name_at r.migrations i) lines
          (delay_bound cmd.base_delay attempts)

  -- what follows a run of the queue that starts with `first`
  unfoldable pub after_run :
      (List Line → Retried Db Error)
      → Bool
      → ℕ
      → Migration
      → Ran Db Error
      → List Line
      → Option (RunError Error)
      → Retried Db Error
  after_run again retryable attempts first r lines none = returned r.state succeeded lines
  after_run again retryable attempts first r lines (some e) =
      if retryable && times_out e is_lock_timeout
      then wait_or_stop again attempts r e r.stopped_at lines
      else fail_for_good retryable first r e lines

  -- The loop, with fuel for its rounds; `attempts` are behind. A run writes into the queue.
  unfoldable pub retry_from : ℕ → Bool → ℕ → List Migration → Db → List Line → Retried Db Error
  retry_from zero retryable attempts queue db lines = out_of_fuel
  retry_from (suc fuel) retryable attempts [] db lines = index_panic
  retry_from (suc fuel) retryable attempts (first ∷ rest) db lines =
      let r = run world cmd db first rest in
      after_run (retry_from fuel retryable (attempts + 1) r.migrations r.state) retryable
        (attempts + 1) first r (lines ++ r.log) r.error

  -- Attempt number `max_attempts` is the last, and there is always a first.
  abbrev pub retry_all : Bool → List Migration → Db → Retried Db Error
  retry_all retryable queue db = retry_from (max 1 cmd.max_attempts) retryable 0 queue db []

  -- the file of the only migration has been read, to see if it is one statement
  unfoldable pub retry_alone : Migration → Db → File Error → Retried Db Error
  retry_alone m db (contents text) = retry_all (is_statement text) (m ∷ []) db
  retry_alone m db (not_exist e) = returned db (unreadable e) []
  retry_alone m db (open_failed e) = returned db (unreadable e) []
  retry_alone m db (read_failed e) = returned db (unreadable e) []

  unfoldable pub run_with_retry : List Migration → Db → Retried Db Error
  run_with_retry [] db = index_panic
  run_with_retry (first ∷ rest) db =
      if uses_tx cmd.dialect first rest
      then retry_all true (first ∷ rest) db
      else retry_alone first db (read first.filename)
