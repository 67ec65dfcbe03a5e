-- ===== src/Migrate/Failed.antt =====
-- What is left where a queue that runs in a transaction fails for good.
use sqddl.Base.{
  ℕ, zero, suc, max, ◌+◌, ◌<◌, Bool, true, false, List, [], ◌∷◌, Option, some, ◌≡◌, refl, ap, ◌∙◌,
  if◌then◌else◌, map, take, append-nil, arith,
}
use sqddl.Migrate.World.{World, Transactional, Command, Migration, RunError, Line}
use sqddl.Migrate.Run.{uses_tx, Ran, run}
use sqddl.Migrate.Retry.{
  original, Retried, failed_row, name_at, Undoing, times_out, recorded, report, fail_for_good,
  after_run, retry_from, run_with_retry,
}
use sqddl.Migrate.Rollback.{run-reverts}

if_false : {A : Type 0} (b : Bool) (x y : A) → b ≡ false → (if b then x else y) ≡ y
if_false b x y h = rw h refl

module _ (world : World) (cmd : Command) where
  open world use {Db, Error, upsert, is_lock_timeout}

  -- The rows of the migrations up to the one at which the run stopped, marked as failed, are written
  -- to state `db`, and the error has that one's name.
  abbrev pub failure_recorded : Db → Ran Db Error → RunError Error → ℕ → Retried Db Error
  failure_recorded db r e i =
      recorded world cmd (name_at r.migrations i) (original e) r.log
        (upsert db (map failed_row (take (i + 1) r.migrations)))

  report-failed :
      (queue : List Migration) (stopped : Option ℕ) (i : ℕ) (undone : Undoing world cmd)
      (lines : List Line)
      → stopped ≡ some i
      → cmd.skip_history_table ≡ false
      → report world cmd queue stopped undone lines
        ≡ recorded world cmd
            (name_at queue i)
            undone.error
            lines
            (upsert undone.state (map failed_row (take (i + 1) queue)))
  unfolding report
  report-failed queue stopped i undone lines s kept =
      rw s (if_false cmd.skip_history_table _ _ kept)

  after_run-failed :
      (again : List Line → Retried Db Error) (k : ℕ) (first : Migration) (r : Ran Db Error)
      (e : RunError Error) (i : ℕ)
      → times_out world cmd e is_lock_timeout ≡ false
      → r.stopped_at ≡ some i
      → cmd.skip_history_table ≡ false
      → after_run world cmd again true k first r r.log (some e) ≡ failure_recorded r.state r e i
  unfolding after_run fail_for_good
  after_run-failed again k first r e i t s kept = rw t (
      report-failed r.migrations r.stopped_at i _ _ s kept
      ∙ ap
          (λ l.
            recorded world cmd (name_at r.migrations i) (original e) l
              (upsert r.state (map failed_row (take (i + 1) r.migrations))))
          (append-nil r.log))

  retry_from-failed :
      (fuel : ℕ) (db : Db) (first : Migration) (rest : List Migration) (e : RunError Error) (i : ℕ)
      → 0 < fuel
      → (run world cmd db first rest).error ≡ some e
      → times_out world cmd e is_lock_timeout ≡ false
      → (run world cmd db first rest).stopped_at ≡ some i
      → cmd.skip_history_table ≡ false
      → retry_from world cmd fuel true 0 (first ∷ rest) db []
        ≡ failure_recorded (run world cmd db first rest).state (run world cmd db first rest) e i
  unfolding retry_from
  retry_from-failed zero db first rest e i pos f t s kept = absurd (omega arith)
  retry_from-failed (suc fuel) db first rest e i pos f t s kept =
      ap
        (after_run world cmd _ true (0 + 1) first (run world cmd db first rest)
          (run world cmd db first rest).log)
        f
      ∙ after_run-failed _ (0 + 1) first (run world cmd db first rest) e i t s kept

  -- Where a queue runs in a transaction and fails with an error that is not a lock timeout, there is
  -- no second attempt, and the database is left as it was before but for the rows of the history: one
  -- for each migration of the queue up to the one that failed, all of them marked as failed. The
  -- error that is returned has the name of the one that failed. The history table is kept, and the
  -- database is one with transactions.
  pub run_with_retry-failed :
      (law : Transactional world) (db : Db) (first : Migration) (rest : List Migration)
      (e : RunError Error) (i : ℕ)
      → uses_tx cmd.dialect first rest ≡ true
      → (run world cmd db first rest).error ≡ some e
      → times_out world cmd e is_lock_timeout ≡ false
      → (run world cmd db first rest).stopped_at ≡ some i
      → cmd.skip_history_table ≡ false
      → run_with_retry world cmd (first ∷ rest) db
        ≡ failure_recorded db (run world cmd db first rest) e i
  unfolding run_with_retry
  run_with_retry-failed law db first rest e i tx f t s kept = rw tx (
      retry_from-failed (max 1 cmd.max_attempts) db first rest e i (ground arith) f t s kept
      ∙ ap (λ state. failure_recorded state (run world cmd db first rest) e i)
          (run-reverts world cmd law db first rest e tx f))
