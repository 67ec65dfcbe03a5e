-- ===== src/Migrate/Applied.antt =====
-- A run of (*MigrateCmd).run that succeeds, and the place where a run stops.
use sqddl.Base.{
  Bool, true, false, List, [], ◌∷◌, ◌++◌, Option, none, some, ◌≡◌, inl, inr, refl, sym, ◌∙◌,
  if◌then◌else◌, Bool-cases, Bytes, append_assoc, append-nil,
}
use sqddl.Migrate.World.{World, Command, Migration, File, contents, RunError}
use sqddl.Migrate.Run.{
  uses_tx, row_of, Ran, Progress, give_up, after_upsert, after_exec, after_read, finished,
  after_commit, conclude, run_from, after_begin, run, timed, advance,
}

module _ (world : World) (cmd : Command) where
  open world use {Db, Error, read, begin, exec, upsert, rollback, commit}

  -- The history has the row of a migration that was executed, unless the table is not kept.
  abbrev pub IsRecorded : Db → Migration → Db → Type 0
  IsRecorded executed m now =
      if cmd.skip_history_table
      then executed ≡ now
      else upsert executed (row_of m ∷ []) ≡ (now, none)

  -- The scripts of the migrations were executed in order, each without an error and recorded.
  pub data Applied : Db → List Migration → Db → List Migration → Type 0 where
    done : {db : Db} → Applied db [] db []
    step :
        {db now last : Db} {m : Migration} {ms ms' : List Migration} (text : Bytes)
        → read m.filename ≡ contents text
        → (exec db text).error ≡ none
        → IsRecorded (exec db text).state (timed world cmd m (exec db text) true) now
        → Applied now ms last ms'
        → Applied db (m ∷ ms) last (timed world cmd m (exec db text) true ∷ ms')

  -- `now` is committed and leaves `last`, or there is no transaction.
  abbrev IsKept : Bool → Db → Db → Type 0
  IsKept true now last = commit now ≡ (last, none)
  IsKept false now last = now ≡ last

  -- The run succeeded and applied `ms` from state `db`; `behind` had been applied before.
  pub record Applies (in_tx : Bool) (db : Db) (behind ms : List Migration) (r : Ran Db Error)
      : Type 0 where
    pub now : Db
    pub ahead : List Migration
    pub applied : Applied db ms now ahead
    pub is_kept : IsKept in_tx now r.state
    pub all : r.migrations ≡ behind ++ ahead

  abbrev Succeeds : (Progress world cmd → Ran Db Error) → List Migration → Type 0
  Succeeds next ms =
      (p : Progress world cmd) → (next p).error ≡ none → Applies p.in_tx p.now p.behind ms (next p)

  give_up-error :
      (p : Progress world cmd) (ahead : List Migration) (e : RunError Error)
      → (give_up world cmd p ahead e).error ≡ some e
  unfolding give_up
  give_up-error p ahead e = refl

  prepended :
      (in_tx : Bool) (db now : Db) (m : Migration) (behind ms : List Migration) (r : Ran Db Error)
      (text : Bytes)
      → read m.filename ≡ contents text
      → (exec db text).error ≡ none
      → IsRecorded (exec db text).state (timed world cmd m (exec db text) true) now
      → Applies in_tx now (behind ++ timed world cmd m (exec db text) true ∷ []) ms r
      → Applies in_tx db behind (m ∷ ms) r
  prepended in_tx db now m behind ms r text f x h a = record {
    now = a.now;
    ahead = timed world cmd m (exec db text) true ∷ a.ahead;
    applied = step text f x h a.applied;
    is_kept = a.is_kept;
    all = a.all ∙ append_assoc behind _ a.ahead;
  }

  next-Applies :
      (next : Progress world cmd → Ran Db Error) (p : Progress world cmd) (m : Migration)
      (rest : List Migration) (text : Bytes) (now : Db)
      → read m.filename ≡ contents text
      → (exec p.now text).error ≡ none
      → IsRecorded (exec p.now text).state (timed world cmd m (exec p.now text) true) now
      → Succeeds next rest
      → (next (advance world cmd p now (timed world cmd m (exec p.now text) true))).error ≡ none
      → Applies p.in_tx p.now p.behind
          (m ∷ rest)
          (next (advance world cmd p now (timed world cmd m (exec p.now text) true)))
  next-Applies next p m rest text now f x recorded ih h =
      prepended p.in_tx p.now now m p.behind rest
        (next (advance world cmd p now (timed world cmd m (exec p.now text) true))) text f x
        recorded (ih _ h)

  after_upsert-Applied :
      (next : Progress world cmd → Ran Db Error) (p : Progress world cmd) (m : Migration)
      (rest : List Migration) (text : Bytes) (r : Db × Option Error)
      → cmd.skip_history_table ≡ false
      → read m.filename ≡ contents text
      → (exec p.now text).error ≡ none
      → upsert (exec p.now text).state (row_of (timed world cmd m (exec p.now text) true) ∷ []) ≡ r
      → Succeeds next rest
      → (after_upsert world cmd next p (timed world cmd m (exec p.now text) true) rest r).error
        ≡ none
      → Applies p.in_tx p.now p.behind
          (m ∷ rest)
          (after_upsert world cmd next p (timed world cmd m (exec p.now text) true) rest r)
  unfolding after_upsert
  after_upsert-Applied next p m rest text (now, some e) kept f x u ih h = cc (give_up-error _ _ _)
  after_upsert-Applied next p m rest text (now, none) kept f x u ih h =
      next-Applies next p m rest text now f x (rw kept u) ih h

  if-Applies :
      (in_tx : Bool) (db : Db) (behind ms : List Migration) (b : Bool) (x y : Ran Db Error)
      → (b ≡ true → x.error ≡ none → Applies in_tx db behind ms x)
      → (b ≡ false → y.error ≡ none → Applies in_tx db behind ms y)
      → (if b then x else y).error ≡ none
      → Applies in_tx db behind ms (if b then x else y)
  if-Applies in_tx db behind ms true x y f g h = f refl h
  if-Applies in_tx db behind ms false x y f g h = g refl h

  after_exec-Applied :
      (next : Progress world cmd → Ran Db Error) (p : Progress world cmd) (m : Migration)
      (rest : List Migration) (text : Bytes) (result : Option Error)
      → read m.filename ≡ contents text
      → (exec p.now text).error ≡ result
      → Succeeds next rest
      → (after_exec world cmd next p m rest text (exec p.now text) result).error ≡ none
      → Applies p.in_tx p.now p.behind
          (m ∷ rest)
          (after_exec world cmd next p m rest text (exec p.now text) result)
  unfolding after_exec
  after_exec-Applied next p m rest text (some e) f x ih = λ h. cc (give_up-error _ _ _)
  after_exec-Applied next p m rest text none f x ih =
      if-Applies p.in_tx p.now p.behind (m ∷ rest) cmd.skip_history_table _ _
        (λ skipped. next-Applies next p m rest text _ f x (rw skipped refl) ih)
        (λ kept. after_upsert-Applied next p m rest text _ kept f x refl ih)

  after_read-Applied :
      (next : Progress world cmd → Ran Db Error) (p : Progress world cmd) (m : Migration)
      (rest : List Migration) (f : File Error)
      → read m.filename ≡ f
      → Succeeds next rest
      → (after_read world cmd next p m rest f).error ≡ none
      → Applies p.in_tx p.now p.behind (m ∷ rest) (after_read world cmd next p m rest f)
  unfolding after_read
  after_read-Applied next p m rest (contents text) f ih h =
      after_exec-Applied next p m rest text _ f refl ih h
  after_read-Applied next p m rest _ f ih h = cc (give_up-error _ _ _)

  after_commit-Applied :
      (p : Progress world cmd) (r : Db × Option Error)
      → commit p.now ≡ r
      → (after_commit world cmd p r).error ≡ none
      → Applies true p.now p.behind [] (after_commit world cmd p r)
  unfolding after_commit finished
  after_commit-Applied p (last, none) c h = record {
    now = p.now;
    ahead = [];
    applied = done;
    is_kept = c;
    all = sym (append-nil p.behind);
  }
  after_commit-Applied p (last, some e) c h = cc

  conclude-Applied :
      (in_tx : Bool) (p : Progress world cmd)
      → (conclude world cmd in_tx p).error ≡ none
      → Applies in_tx p.now p.behind [] (conclude world cmd in_tx p)
  unfolding conclude finished
  conclude-Applied true p h = after_commit-Applied p (commit p.now) refl h
  conclude-Applied false p h = record {
    now = p.now;
    ahead = [];
    applied = done;
    is_kept = refl;
    all = sym (append-nil p.behind);
  }

  run_from-Applied : (ms : List Migration) → Succeeds (run_from world cmd ms) ms
  unfolding run_from
  run_from-Applied [] p h = conclude-Applied p.in_tx p h
  run_from-Applied (m ∷ rest) p h =
      after_read-Applied (run_from world cmd rest) p m rest (read m.filename) refl
        (run_from-Applied rest) h

  -- The migrations were applied and are there to stay: outside of a transaction, or in one that began
  -- and was committed.
  pub data Completes (db : Db) (first : Migration) (rest : List Migration) (r : Ran Db Error)
      : Type 0 where
    in_transaction :
        (begun last : Db)
        → uses_tx cmd.dialect first rest ≡ true
        → begin db ≡ (begun, none)
        → Applied begun (first ∷ rest) last r.migrations
        → commit last ≡ (r.state, none)
        → Completes db first rest r
    outside :
        uses_tx cmd.dialect first rest ≡ false
        → Applied db (first ∷ rest) r.state r.migrations
        → Completes db first rest r

  after_begin-Completes :
      (db : Db) (first : Migration) (rest : List Migration) (r : Db × Option Error)
      → uses_tx cmd.dialect first rest ≡ true
      → begin db ≡ r
      → (after_begin world cmd (first ∷ rest) r).error ≡ none
      → Completes db first rest (after_begin world cmd (first ∷ rest) r)
  unfolding after_begin
  after_begin-Completes db first rest (now, some e) tx b h = cc
  after_begin-Completes db first rest (now, none) tx b h =
      let a = run_from-Applied (first ∷ rest) _ h in
      in_transaction now a.now tx b (rw (sym a.all) at a.applied) a.is_kept

  outside-Completes :
      (db : Db) (first : Migration) (rest : List Migration) (r : Ran Db Error)
      → uses_tx cmd.dialect first rest ≡ false
      → Applies false db [] (first ∷ rest) r
      → Completes db first rest r
  outside-Completes db first rest r alone a =
      outside alone (rw (sym a.all) at (rw a.is_kept at a.applied))

  -- A run that returns no error has executed the scripts of all its migrations, in order and each
  -- once, without an error, and has recorded each of them in the history table unless that is not
  -- kept. Where they run in a transaction, it began, and was committed behind the last of them. The
  -- state of the database and the migrations written into the queue are those.
  pub run-Completes :
      (db : Db) (first : Migration) (rest : List Migration)
      → (run world cmd db first rest).error ≡ none
      → Completes db first rest (run world cmd db first rest)
  unfolding run
  run-Completes db first rest = elim (Bool-cases (uses_tx cmd.dialect first rest)) [
    | inl tx ↦ rw tx (after_begin-Completes db first rest (begin db) tx refl)
    | inr alone ↦
        rw alone
          (λ h. outside-Completes db first rest _ alone (run_from-Applied (first ∷ rest) _ h))
  ]
