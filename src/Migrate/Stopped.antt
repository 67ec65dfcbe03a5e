-- ===== src/Migrate/Stopped.antt =====
-- The index at which (*MigrateCmd).run says that it stopped: callers index the queue with it.
use sqddl.Base.{
  ℕ, suc, ◌+◌, ◌<◌, Bool, true, false, List, [], ◌∷◌, Option, none, some, ◌≡◌, ◌⊎◌, inl, inr, refl,
  ◌∙◌, if◌then◌else◌, Bool-cases, length, length-append, arith, Bytes,
}
use sqddl.Migrate.World.{
  World, Command, Migration, File, contents, RunError, begin_tx, Executed, Line,
}
use sqddl.Migrate.Run.{
  uses_tx, Ran, Progress, give_up, after_upsert, after_exec, after_read, finished, after_commit,
  conclude, run_from, after_begin, run, timed, advance, last_index,
}

module _ (world : World) (cmd : Command) where
  open world use {Db, Error, read, begin, exec, upsert, commit}

  -- The run has all `n` migrations, and stopped at one of them.
  abbrev Placed : ℕ → Ran Db Error → Type 0
  Placed n r = (length r.migrations ≡ n) × ((i : ℕ) × ((r.stopped_at ≡ some i) × (i < n)))

  -- The run has all `n` migrations, and stopped at one of them unless no transaction began.
  abbrev pub WellStopped : ℕ → Ran Db Error → Type 0
  WellStopped n r =
      (length r.migrations ≡ n)
      × (((i : ℕ) × ((r.stopped_at ≡ some i) × (i < n)))
          ⊎ ((e : Error) × ((r.error ≡ some (begin_tx e)) × (r.stopped_at ≡ none))))

  abbrev Places : (Progress world cmd → Ran Db Error) → List Migration → Type 0
  Places next ms =
      (p : Progress world cmd) (n : ℕ) → length p.behind + length ms ≡ n → 0 < n → Placed n (next p)

  give_up-Placed :
      (p : Progress world cmd) (m : Migration) (rest : List Migration) (e : RunError Error) (n : ℕ)
      → length p.behind + suc (length rest) ≡ n
      → Placed n (give_up world cmd p (m ∷ rest) e)
  unfolding give_up
  give_up-Placed p m rest e n h =
      (length-append p.behind (m ∷ rest) ∙ h, (length p.behind, (refl, omega arith)))

  next-Placed :
      (next : Progress world cmd → Ran Db Error) (p : Progress world cmd) (now : Db) (m : Migration)
      (rest : List Migration) (n : ℕ)
      → Places next rest
      → length p.behind + suc (length rest) ≡ n
      → 0 < n
      → Placed n (next (advance world cmd p now m))
  next-Placed next p now m rest n ih h pos =
      ih (advance world cmd p now m) n (let e = length-append p.behind (m ∷ []) in omega arith) pos

  after_upsert-Placed :
      (next : Progress world cmd → Ran Db Error) (p : Progress world cmd) (m : Migration)
      (rest : List Migration) (r : Db × Option Error) (n : ℕ)
      → Places next rest
      → length p.behind + suc (length rest) ≡ n
      → 0 < n
      → Placed n (after_upsert world cmd next p m rest r)
  unfolding after_upsert
  after_upsert-Placed next p m rest (now, none) n ih h pos =
      next-Placed next p now m rest n ih h pos
  after_upsert-Placed next p m rest (now, some e) n ih h pos = give_up-Placed _ m rest _ n h

  if-Placed :
      (n : ℕ) (b : Bool) (x y : Ran Db Error)
      → Placed n x
      → Placed n y
      → Placed n (if b then x else y)
  if-Placed n true x y f g = f
  if-Placed n false x y f g = g

  after_exec-Placed :
      (next : Progress world cmd → Ran Db Error) (p : Progress world cmd) (m : Migration)
      (rest : List Migration) (text : Bytes) (r : Executed Db Error) (e : Option Error) (n : ℕ)
      → Places next rest
      → length p.behind + suc (length rest) ≡ n
      → 0 < n
      → Placed n (after_exec world cmd next p m rest text r e)
  unfolding after_exec
  after_exec-Placed next p m rest text r (some e) n ih h pos = give_up-Placed _ _ rest _ n h
  after_exec-Placed next p m rest text r none n ih h pos =
      if-Placed n cmd.skip_history_table _ _
        (next-Placed next p r.state (timed world cmd m r true) rest n ih h pos)
        (after_upsert-Placed next p (timed world cmd m r true) rest _ n ih h pos)

  after_read-Placed :
      (next : Progress world cmd → Ran Db Error) (p : Progress world cmd) (m : Migration)
      (rest : List Migration) (f : File Error) (n : ℕ)
      → Places next rest
      → length p.behind + suc (length rest) ≡ n
      → 0 < n
      → Placed n (after_read world cmd next p m rest f)
  unfolding after_read
  after_read-Placed next p m rest (contents text) n ih h pos =
      after_exec-Placed next p m rest text (exec p.now text) _ n ih h pos
  after_read-Placed next p m rest _ n ih h pos = give_up-Placed p m rest _ n h

  last_index-lt :
      (ms : List Migration) (n : ℕ)
      → length ms ≡ n
      → 0 < n
      → (i : ℕ) × ((last_index world cmd ms ≡ some i) × (i < n))
  last_index-lt [] n h pos = absurd (omega arith)
  last_index-lt (m ∷ ms) n h pos = (length ms, (refl, omega arith))

  finished-Placed :
      (p : Progress world cmd) (db : Db) (e : Option (RunError Error)) (more : List Line) (n : ℕ)
      → length p.behind ≡ n
      → 0 < n
      → Placed n (finished world cmd p db e more)
  unfolding finished
  finished-Placed p db e more n h pos = (h, last_index-lt p.behind n h pos)

  after_commit-Placed :
      (p : Progress world cmd) (r : Db × Option Error) (n : ℕ)
      → length p.behind ≡ n
      → 0 < n
      → Placed n (after_commit world cmd p r)
  unfolding after_commit
  after_commit-Placed p (state, none) n h pos = finished-Placed p _ _ _ n h pos
  after_commit-Placed p (state, some e) n h pos = finished-Placed p _ _ _ n h pos

  conclude-Placed :
      (p : Progress world cmd) (n : ℕ)
      → length p.behind ≡ n
      → 0 < n
      → Placed n (conclude world cmd p.in_tx p)
  unfolding conclude
  conclude-Placed p n h pos =
      if-Placed n p.in_tx _ _ (after_commit-Placed p (commit p.now) n h pos)
        (finished-Placed p _ _ _ n h pos)

  run_from-Places : (ms : List Migration) → Places (run_from world cmd ms) ms
  unfolding run_from
  run_from-Places [] p n h pos = conclude-Placed p n (omega arith) pos
  run_from-Places (m ∷ rest) p n h pos =
      after_read-Placed (run_from world cmd rest) p m rest (read m.filename) n
        (run_from-Places rest) h pos

  run_from-WellStopped :
      (in_tx : Bool) (db : Db) (lines : List Line) (m : Migration) (ms : List Migration)
      → WellStopped (length (m ∷ ms)) (
          run_from world cmd
            (m ∷ ms)
            (record { in_tx = in_tx; now = db; behind = []; lines = lines }))
  run_from-WellStopped in_tx db lines m ms =
      let (l, s) = run_from-Places (m ∷ ms) _ (length (m ∷ ms)) (omega arith) (omega arith) in
      (l, inl s)

  after_begin-WellStopped :
      (m : Migration) (ms : List Migration) (r : Db × Option Error)
      → WellStopped (length (m ∷ ms)) (after_begin world cmd (m ∷ ms) r)
  unfolding after_begin
  after_begin-WellStopped m ms (db, some e) = (refl, inr (e, (refl, refl)))
  after_begin-WellStopped m ms (db, none) = run_from-WellStopped true db _ m ms

  -- However a run ends, it leaves as many migrations as it was given, and the index that it returns
  -- is one of theirs. The exception is a transaction that could not begin, where it returns -1.
  pub run-WellStopped :
      (db : Db) (first : Migration) (rest : List Migration)
      → WellStopped (length (first ∷ rest)) (run world cmd db first rest)
  unfolding run
  run-WellStopped db first rest = elim (Bool-cases (uses_tx cmd.dialect first rest)) [
    | inl tx ↦ rw tx (after_begin-WellStopped first rest (begin db))
    | inr alone ↦ rw alone (run_from-WellStopped false db [] first rest)
  ]
