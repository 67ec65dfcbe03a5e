-- ===== src/Migrate/Tests.antt =====
-- A small database and directory for ddl/migrate_cmd.go, runs of the command on them, and the
-- theorems at them.
use sqddl.Base.{
  ℕ, Bool, true, false, List, [], ◌∷◌, ◌++◌, Option, none, some, ◌≡◌, ◌≢◌, refl, ap, arith, map,
  if◌then◌else◌, ◌==◌, Bytes, codes, text_eq, has_suffix, has_prefix, length,
}
use sqddl.Catalog.{dialect_postgres}
use sqddl.Migrate.World.{
  World, Transactional, Command, Migration, Row, File, contents, not_exist, RunError, script,
}
use sqddl.Migrate.Run.{
  uses_tx, run, run_from, after_begin, after_read, after_exec, after_upsert, conclude, after_commit,
  finished, give_up, reverted, rollback_lines,
}
use sqddl.Migrate.Retry.{
  intn_panic, out_of_fuel, run_with_retry, retry_alone, retry_from, after_run, wait_or_stop,
  retry_after, fail_for_good, report, recorded, undo, undo_file_read, undo_executed, undo_name,
  delay_bound, clamp_delay,
}
use sqddl.Migrate.Queue.{
  choose, choose_repeatable, pending, skip, run_queues, after_choice, enqueue, must_flush,
  flush_last, after_queue, unix_lines,
}
use sqddl.Migrate.Applied.{Completes, run-Completes}
use sqddl.Migrate.Rollback.{run-reverts}
use sqddl.Migrate.Failed.{failure_recorded, run_with_retry-failed}
use sqddl.Migrate.Stopped.{WellStopped, run-WellStopped}
use sqddl.Migrate.ShortDelay.{run_with_retry-intn_panic}
use sqddl.Migrate.Termination.{run_with_retry-ends, Returns, run_with_retry-Returns}
use sqddl.Migrate.Groups.{nothing, left_out, taken, RunsGroups, run_queues-Groups}

-- The database is what was done to it, in order: the texts executed and the names of the rows
-- written. In a transaction the state that it began with is behind that. The script `bad` has an
-- error, and `slow` runs into a lock timeout, with error number 9.
abbrev Store : Type 0
Store = List (List Bytes)

abbrev top : Store → List Bytes
top [] = []
top (now ∷ store) = now

abbrev push : List Bytes → Store → Store
push more [] = more ∷ []
push more (now ∷ store) = (now ++ more) ∷ store

abbrev drop_top : Store → Store
drop_top [] = []
drop_top (now ∷ store) = store

abbrev commit_top : Store → Store
commit_top (now ∷ before ∷ store) = now ∷ store
commit_top store = store

abbrev error_of : Bytes → Option ℕ
error_of text =
    if text_eq text (codes "bad")
    then some 1
    else if text_eq text (codes "slow")
    then some 9
    else none

abbrev file_at : Bytes → File ℕ
file_at name =
    if text_eq name (codes "a.sql")
    then contents (codes "A")
    else if text_eq name (codes "b.sql")
    then contents (codes "bad")
    else if text_eq name (codes "c.tx.sql")
    then contents (codes "C")
    else if text_eq name (codes "d.sql")
    then contents (codes "slow")
    else not_exist 0

abbrev is_nine : RunError ℕ → Bool
is_nine (script e name text start lasted) = e == 9
is_nine _ = false

abbrev small : World
small = record {
  Db = Store;
  Error = ℕ;
  read = file_at;
  begin = λ db. (top db ∷ db, none);
  exec = λ db text. record {
    state = push (text ∷ []) db;
    started_at = length (top db);
    time_taken = 1;
    error = error_of text;
  };
  upsert = λ db rows. (push (map (λ (r : Row). r.filename) rows) db, none);
  rollback = drop_top;
  commit = λ db. (commit_top db, none);
  annotate = λ e text. e;
  is_lock_timeout = some is_nine;
  checksum_of = λ text. text;
  pick = λ attempts bound. 0;
}

push_on :
    (more : List Bytes) (db now : Store)
    → ((c : List Bytes) × (now ≡ c ∷ db))
    → (c : List Bytes) × (push more now ≡ c ∷ db)
push_on more db now (c, e) = (c ++ more, ap (push more) e)

small_transactional : Transactional small
small_transactional = record {
  Within = λ db now. (c : List Bytes) × (now ≡ c ∷ db);
  begun = λ db now e. (top db, cc);
  not_begun = λ db now e h. cc;
  executed = λ db now text. push_on (text ∷ []) db now;
  upserted = λ db now rows. push_on (map (λ (r : Row). r.filename) rows) db now;
  rolled_back = λ db now w. ap drop_top w.1;
  not_committed = λ db now last e w h. cc;
}

abbrev command : Command
command = record {
  dialect = dialect_postgres;
  max_attempts = 3;
  base_delay = 1000000000;
  max_delay = 300000000000;
  skip_history_table = false;
  verbose = false;
}

abbrev file_named : Bytes → Migration
file_named name = record {
  valid = false;
  filename = name;
  checksum = [];
  started_at = none;
  time_taken = none;
  success = false;
}

abbrev migration_a : Migration
migration_a = file_named (codes "a.sql")

abbrev migration_b : Migration
migration_b = file_named (codes "b.sql")

abbrev migration_c : Migration
migration_c = file_named (codes "c.tx.sql")

abbrev migration_d : Migration
migration_d = file_named (codes "d.sql")

-- one that the history table has
abbrev migration_e : Migration
migration_e = record (file_named (codes "e.sql")) { valid = true; success = true }

steps : Unit {0}
unfolding text_eq has_suffix has_prefix uses_tx run run_from after_begin after_read after_exec
    after_upsert conclude after_commit finished give_up reverted rollback_lines run_with_retry
    retry_alone retry_from after_run wait_or_stop retry_after fail_for_good report recorded undo
    undo_file_read undo_executed undo_name delay_bound clamp_delay choose choose_repeatable
    run_queues after_choice enqueue must_flush flush_last after_queue unix_lines
steps = tt

applied_test :
    (run small command [] migration_a (migration_c ∷ [])).state
    ≡ (codes "A" ∷ codes "a.sql" ∷ codes "C" ∷ codes "c.tx.sql" ∷ []) ∷ []
unfolding steps
applied_test = refl

runs_well : (run small command ([] ∷ []) migration_a (migration_c ∷ [])).error ≡ none
unfolding steps
runs_well = refl

run-Completes_example :
    Completes small command
      ([] ∷ [])
      migration_a
      (migration_c ∷ [])
      (run small command ([] ∷ []) migration_a (migration_c ∷ []))
run-Completes_example =
    run-Completes small command ([] ∷ []) migration_a (migration_c ∷ []) runs_well

abbrev old : Store
old = (codes "old" ∷ []) ∷ []

in_tx : uses_tx command.dialect migration_a (migration_b ∷ []) ≡ true
unfolding steps
in_tx = refl

runs_badly :
    (run small command old migration_a (migration_b ∷ [])).error
    ≡ some (script 1 (codes "b.sql") (codes "bad") 3 1)
unfolding steps
runs_badly = refl

run-reverts_example : (run small command old migration_a (migration_b ∷ [])).state ≡ old
run-reverts_example =
    run-reverts small command small_transactional old migration_a (migration_b ∷ [])
      (script 1 (codes "b.sql") (codes "bad") 3 1) in_tx runs_badly

stops_at_b : (run small command old migration_a (migration_b ∷ [])).stopped_at ≡ some 1
unfolding steps
stops_at_b = refl

run_with_retry-failed_example :
    run_with_retry small command (migration_a ∷ migration_b ∷ []) old
    ≡ failure_recorded small command old
        (run small command old migration_a (migration_b ∷ []))
        (script 1 (codes "b.sql") (codes "bad") 3 1)
        1
run_with_retry-failed_example =
    run_with_retry-failed small command small_transactional old migration_a (migration_b ∷ [])
      (script 1 (codes "b.sql") (codes "bad") 3 1) 1 in_tx runs_badly refl stops_at_b refl

run-WellStopped_example :
    WellStopped small command 2 (run small command [] migration_a (migration_b ∷ []))
run-WellStopped_example = run-WellStopped small command [] migration_a (migration_b ∷ [])

run_with_retry-ends_example : run_with_retry small command (migration_d ∷ []) [] ≢ out_of_fuel
run_with_retry-ends_example = run_with_retry-ends small command migration_d [] []

run_with_retry-Returns_example :
    Returns small command (run_with_retry small command (migration_d ∷ []) [])
run_with_retry-Returns_example =
    run_with_retry-Returns small command migration_d [] [] (λ e. refl) (omega arith) (omega arith)

abbrev hasty : Command
hasty = record command { base_delay = 400000000 }

hasty_in_tx : uses_tx hasty.dialect migration_a (migration_d ∷ []) ≡ true
unfolding steps
hasty_in_tx = refl

runs_slowly :
    (run small hasty old migration_a (migration_d ∷ [])).error
    ≡ some (script 9 (codes "d.sql") (codes "slow") 3 1)
unfolding steps
runs_slowly = refl

run_with_retry-intn_panic_example :
    run_with_retry small hasty (migration_a ∷ migration_d ∷ []) old ≡ intn_panic
run_with_retry-intn_panic_example =
    run_with_retry-intn_panic small hasty old migration_a (migration_d ∷ [])
      (script 9 (codes "d.sql") (codes "slow") 3 1) hasty_in_tx runs_slowly refl (omega arith)
      (omega arith)

chooses_a : choose small command migration_a ≡ pending migration_a
unfolding steps
chooses_a = refl

leaves_e : choose small command migration_e ≡ skip
unfolding steps
leaves_e = refl

chooses_c : choose small command migration_c ≡ pending migration_c
unfolding steps
chooses_c = refl

run_queues-Groups_example :
    RunsGroups small command
      (run_queues small command (migration_a ∷ migration_e ∷ migration_c ∷ []) [])
      (migration_a ∷ migration_c ∷ [])
run_queues-Groups_example =
    run_queues-Groups small command (taken chooses_a (left_out leaves_e (taken chooses_c nothing)))
