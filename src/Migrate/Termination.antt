-- ===== src/Migrate/Termination.antt =====
-- runWithRetry comes to an end: the fuel of its loop is enough, and under stated conditions it
-- returns instead of panicking.
use sqddl.Base.{
  ℕ, zero, suc, max, ◌+◌, ◌*◌, ◌^◌, ◌<◌, ◌≤◌, Bool, true, false, ◌&&◌, List, [], ◌∷◌, Option, none,
  some, ◌≡◌, ◌≢◌, ◌⊎◌, inl, inr, refl, sym, ◌∙◌, &&-eq-true, some-eq_of_eq, false≢true,
  if◌then◌else◌, leb, length, arith, Bytes,
}
use sqddl.Migrate.World.{World, Command, Migration, File, contents, RunError, begin_tx, Line}
use sqddl.Migrate.Run.{uses_tx, Ran, run}
use sqddl.Migrate.Retry.{
  delay_bound, Reported, Retried, returned, index_panic, intn_panic, out_of_fuel, Undoing, recorded,
  report, fail_for_good, retry_after, no_name, wait_or_stop, after_run, retry_from, retry_alone,
  run_with_retry, times_out, is_statement,
}
use sqddl.Migrate.Delay.{delay_bound-some}
use sqddl.Migrate.Stopped.{WellStopped, run-WellStopped}

-- `P` holds of a queue's end. What is not shown of the two panics is assumed of `P`.
module _ (world : World) (cmd : Command) (P : Retried world.Db world.Error → Type 0)
    (holds : (db : world.Db) (e : Reported world.Error) (lines : List Line)
      → P (returned db e lines))
    (index : P index_panic
      ⊎ ((e : world.Error) → times_out world cmd (begin_tx e) world.is_lock_timeout ≡ false))
    (intn : P intn_panic
      ⊎ ((k : ℕ)
          → 0 < k
          → k < cmd.max_attempts
          → (bound : ℕ) × (delay_bound cmd.base_delay k ≡ some bound))) where
  open world use {Db, Error, read, upsert, is_lock_timeout}

  recorded-P :
      (name : Bytes) (e : _) (lines : List Line) (r : Db × Option Error)
      → P (recorded world cmd name e lines r)
  unfolding recorded
  recorded-P name e lines (db, none) = holds _ _ _
  recorded-P name e lines (db, some u) = holds _ _ _

  if-P :
      (b : Bool) (x y : Retried Db Error)
      → (b ≡ true → P x)
      → (b ≡ false → P y)
      → P (if b then x else y)
  if-P true x y f g = f refl
  if-P false x y f g = g refl

  report-P :
      (queue : List Migration) (i : Option ℕ) (u : Undoing world cmd) (lines : List Line)
      → P (report world cmd queue i u lines)
  unfolding report
  report-P queue none u lines = holds _ _ _
  report-P queue (some i) u lines =
      if-P cmd.skip_history_table _ _ (λ _. holds _ _ _) (λ _. recorded-P _ _ _ _)

  retry_after-P :
      (again : List Line → Retried Db Error) (k : ℕ) (name : Bytes) (lines : List Line)
      (bound : Option ℕ)
      → bound ≡ delay_bound cmd.base_delay k
      → 0 < k
      → k < cmd.max_attempts
      → ((lines : List Line) → P (again lines))
      → P (retry_after world cmd again k name lines bound)
  unfolding retry_after
  retry_after-P again k name lines (some bound) e pos lt ih = ih _
  retry_after-P again k name lines none e pos lt ih = elim intn [
    | inl p ↦ p
    | inr d ↦ let (bound, b) = d k pos lt in absurd cc
  ]

  no_name-P :
      (k : ℕ) (bound : Option ℕ)
      → bound ≡ delay_bound cmd.base_delay k
      → 0 < k
      → k < cmd.max_attempts
      → P index_panic
      → P (no_name world cmd bound)
  unfolding no_name
  no_name-P k (some bound) e pos lt p = p
  no_name-P k none e pos lt p = elim intn [
    | inl q ↦ q
    | inr d ↦ let (bound, b) = d k pos lt in absurd cc
  ]

  wait_or_stop-P :
      (again : List Line → Retried Db Error) (k : ℕ) (r : Ran Db Error) (e : RunError Error)
      (i : Option ℕ) (lines : List Line)
      → (i ≡ none → P index_panic)
      → 0 < k
      → (k < cmd.max_attempts → (lines : List Line) → P (again lines))
      → P (wait_or_stop world cmd again k r e i lines)
  unfolding wait_or_stop
  wait_or_stop-P again k r e none lines f pos ih =
      if-P (leb cmd.max_attempts k) _ _ (λ _. f refl)
        (λ more. no_name-P k _ refl pos (ground arith) (f refl))
  wait_or_stop-P again k r e (some i) lines f pos ih =
      if-P (leb cmd.max_attempts k) _ _ (λ _. holds _ _ _)
        (λ more. retry_after-P again k _ lines _ refl pos (ground arith) (ih (ground arith)))

  index-P :
      (r : Ran Db Error) (e : RunError Error) (n : ℕ)
      → r.error ≡ some e
      → WellStopped world cmd n r
      → times_out world cmd e is_lock_timeout ≡ true
      → r.stopped_at ≡ none
      → P index_panic
  index-P r e n h (l, inl (i, (q, lt))) t at = absurd cc
  index-P r e n h (l, inr (b, (q, _))) t at = elim index [
    | inl p ↦ p
    | inr never ↦
        let f = never b in
        let eq = some-eq_of_eq (sym h ∙ q) in absurd (false≢true (sym f ∙ rw (sym eq) t))
  ]

  after_run-P :
      (again : List Line → Retried Db Error) (retryable : Bool) (k : ℕ) (first : Migration)
      (r : Ran Db Error) (lines : List Line) (e : Option (RunError Error)) (n : ℕ)
      → r.error ≡ e
      → WellStopped world cmd n r
      → 0 < k
      → (k < cmd.max_attempts → (lines : List Line) → P (again lines))
      → P (after_run world cmd again retryable k first r lines e)
  unfolding after_run fail_for_good
  after_run-P again retryable k first r lines none n h s pos ih = holds _ _ _
  after_run-P again retryable k first r lines (some e) n h s pos ih =
      if-P (retryable && times_out world cmd e is_lock_timeout) _ _
        (λ t.
          wait_or_stop-P again k r e r.stopped_at lines
            (index-P r e n h s (&&-eq-true retryable _ t).1) pos ih)
        (λ _. report-P _ _ _ _)

  retry_from-P :
      (fuel : ℕ) (retryable : Bool) (k : ℕ) (queue : List Migration) (db : Db) (lines : List Line)
      → 0 < fuel
      → 0 < length queue
      → cmd.max_attempts ≤ k + fuel
      → P (retry_from world cmd fuel retryable k queue db lines)
  unfolding retry_from
  retry_from-P zero retryable k queue db lines f q m = absurd (omega arith)
  retry_from-P (suc fuel) retryable k [] db lines f q m = absurd (omega arith)
  retry_from-P (suc fuel) retryable k (first ∷ rest) db lines f q m =
      let s = run-WellStopped world cmd db first rest in
      after_run-P _ retryable (k + 1) first (run world cmd db first rest) _ _ _ refl s (omega arith)
        (λ lt more.
          retry_from-P fuel retryable (k + 1) _ _ more (omega arith) (let l = s.0 in omega arith)
            (omega arith))

  retry_all-P :
      (retryable : Bool) (m : Migration) (rest : List Migration) (db : Db)
      → P (retry_from world cmd (max 1 cmd.max_attempts) retryable 0 (m ∷ rest) db [])
  retry_all-P retryable m rest db =
      retry_from-P (max 1 cmd.max_attempts) retryable 0 (m ∷ rest) db [] (ground arith)
        (omega arith) (ground arith)

  retry_alone-P : (m : Migration) (db : Db) (f : File Error) → P (retry_alone world cmd m db f)
  unfolding retry_alone
  retry_alone-P m db (contents text) = retry_all-P (is_statement text) m [] db
  retry_alone-P m db _ = holds _ _ _

  run_with_retry-P :
      (first : Migration) (rest : List Migration) (db : Db)
      → P (run_with_retry world cmd (first ∷ rest) db)
  unfolding run_with_retry
  run_with_retry-P first rest db =
      if-P (uses_tx cmd.dialect first rest) _ _ (λ _. retry_all-P true first rest db)
        (λ _. retry_alone-P first db (read first.filename))

module _ (world : World) (cmd : Command) where
  open world use {Db, Error}

  -- The loop of runWithRetry ends within max(1, MaxAttempts) rounds, whatever fails and however
  -- often: the model of a non-empty queue never runs out of the fuel that it is given.
  pub run_with_retry-ends :
      (first : Migration) (rest : List Migration) (db : Db)
      → run_with_retry world cmd (first ∷ rest) db ≢ out_of_fuel
  run_with_retry-ends first rest db =
      run_with_retry-P world cmd (λ r. r ≢ out_of_fuel) (λ db e lines h. cc) (inl (λ h. cc))
        (inl (λ h. cc)) first rest db

  -- The queue's end is a return, with an error or without one.
  abbrev pub Returns : Retried Db Error → Type 0
  Returns r = (db : Db) × ((e : Reported Error) × ((lines : List Line) × (r ≡ returned db e lines)))

  -- runWithRetry returns, with an error or without one, and does not panic, if a failure of BeginTx
  -- is not taken for a lock timeout, the base delay is half a second at least, and the base delay
  -- doubled MaxAttempts times is below 2^63 nanoseconds.
  pub run_with_retry-Returns :
      (first : Migration) (rest : List Migration) (db : Db)
      → ((e : Error) → times_out world cmd (begin_tx e) world.is_lock_timeout ≡ false)
      → 500000000 ≤ cmd.base_delay
      → cmd.base_delay * 2 ^ cmd.max_attempts < 2 ^ 63
      → Returns (run_with_retry world cmd (first ∷ rest) db)
  run_with_retry-Returns first rest db never least most =
      run_with_retry-P world cmd Returns (λ db e lines. (db, (e, (lines, refl)))) (inr never)
        (inr (λ k pos lt. delay_bound-some cmd.base_delay k cmd.max_attempts least pos lt most))
        first rest db
