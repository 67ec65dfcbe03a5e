-- ===== src/Migrate/ShortDelay.antt =====
-- runWithRetry of ddl/migrate_cmd.go where the base delay is below half a second.
use sqddl.Base.{
  ℕ, zero, suc, max, ◌+◌, ◌<◌, true, false, List, [], ◌∷◌, Option, none, some, ◌≡◌, refl, ap, ◌∙◌,
  leb, arith,
}
use sqddl.Migrate.World.{World, Command, Migration, RunError, Line}
use sqddl.Migrate.Run.{uses_tx, Ran, run}
use sqddl.Migrate.Retry.{
  Retried, intn_panic, times_out, delay_bound, no_name, retry_after, wait_or_stop, after_run,
  retry_from, run_with_retry,
}
use sqddl.Migrate.Delay.{delay_bound-none}

module _ (world : World) (cmd : Command) where
  open world use {Db, Error, is_lock_timeout}

  wait_or_stop-intn_panic :
      (again : List Line → Retried Db Error) (r : Ran Db Error) (e : RunError Error)
      (stopped : Option ℕ) (lines : List Line)
      → 1 < cmd.max_attempts
      → delay_bound cmd.base_delay 1 ≡ none
      → wait_or_stop world cmd again 1 r e stopped lines ≡ intn_panic
  unfolding wait_or_stop no_name retry_after
  wait_or_stop-intn_panic again r e none lines more short =
      let goes_on : leb cmd.max_attempts 1 ≡ false = ground arith in rw (goes_on, short) refl
  wait_or_stop-intn_panic again r e (some i) lines more short =
      let goes_on : leb cmd.max_attempts 1 ≡ false = ground arith in rw (goes_on, short) refl

  retry_from-intn_panic :
      (fuel : ℕ) (db : Db) (first : Migration) (rest : List Migration) (e : RunError Error)
      → 0 < fuel
      → (run world cmd db first rest).error ≡ some e
      → times_out world cmd e is_lock_timeout ≡ true
      → 1 < cmd.max_attempts
      → delay_bound cmd.base_delay 1 ≡ none
      → retry_from world cmd fuel true 0 (first ∷ rest) db [] ≡ intn_panic
  unfolding retry_from after_run
  retry_from-intn_panic zero db first rest e pos f t more short = absurd (omega arith)
  retry_from-intn_panic (suc fuel) db first rest e pos f t more short =
      ap
        (after_run world cmd _ true (0 + 1) first (run world cmd db first rest)
          (run world cmd db first rest).log)
        f
      ∙ rw t (wait_or_stop-intn_panic _ (run world cmd db first rest) e _ _ more short)

  -- Where a queue runs in a transaction and its first run ends with an error that the driver takes
  -- for a lock timeout, more than one attempt is allowed, and the base delay is below half a second,
  -- runWithRetry does not try again: it panics in rng.Intn.
  pub run_with_retry-intn_panic :
      (db : Db) (first : Migration) (rest : List Migration) (e : RunError Error)
      → uses_tx cmd.dialect first rest ≡ true
      → (run world cmd db first rest).error ≡ some e
      → times_out world cmd e is_lock_timeout ≡ true
      → 1 < cmd.max_attempts
      → cmd.base_delay < 500000000
      → run_with_retry world cmd (first ∷ rest) db ≡ intn_panic
  unfolding run_with_retry
  run_with_retry-intn_panic db first rest e tx f t more short = rw tx (
      retry_from-intn_panic (max 1 cmd.max_attempts) db first rest e (ground arith) f t more
        ((delay_bound-none cmd.base_delay 1 (omega arith)).1 (omega arith)))
