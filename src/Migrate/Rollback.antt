-- ===== src/Migrate/Rollback.antt =====
-- A run of (*MigrateCmd).run that fails in a transaction, which is rolled back.
use sqddl.Base.{
  Bool, true, false, false≢true, if◌then◌else◌, List, [], ◌∷◌, Option, none, some, ◌≡◌, refl, Bytes,
}
use sqddl.Migrate.World.{
  World, Transactional, Command, Migration, File, contents, RunError, Executed,
}
use sqddl.Migrate.Run.{
  uses_tx, Ran, Progress, reverted, give_up, after_upsert, after_exec, after_read, finished,
  after_commit, conclude, run_from, after_begin, run, timed, advance,
}

module _ (world : World) (cmd : Command) (law : Transactional world) where
  open world use {Db, Error, read, begin, exec, upsert, rollback, commit}
  open law use {Within, begun, not_begun, executed, upserted, rolled_back, not_committed}

  -- A run that failed left state `db`.
  abbrev Reverts : Db → Ran Db Error → Type 0
  Reverts db r = (e : RunError Error) → r.error ≡ some e → r.state ≡ db

  -- The loop is in a transaction that began at `db`.
  abbrev IsIn : Db → Progress world cmd → Type 0
  IsIn db p = (p.in_tx ≡ true) × Within db p.now

  give_up-Reverts :
      (db : Db) (p : Progress world cmd) (ahead : List Migration) (e : RunError Error)
      → IsIn db p
      → Reverts db (give_up world cmd p ahead e)
  unfolding give_up reverted
  give_up-Reverts db p ahead e (b, w) f h = rw b (rolled_back db p.now w)

  after_upsert-Reverts :
      (db : Db) (next : Progress world cmd → Ran Db Error) (p : Progress world cmd) (m : Migration)
      (rest : List Migration) (r : Db × Option Error)
      → p.in_tx ≡ true
      → Within db r.0
      → ((q : Progress world cmd) → IsIn db q → Reverts db (next q))
      → Reverts db (after_upsert world cmd next p m rest r)
  unfolding after_upsert
  after_upsert-Reverts db next p m rest (now, none) b w ih = ih (advance world cmd p now m) (b, w)
  after_upsert-Reverts db next p m rest (now, some e) b w ih = give_up-Reverts db _ _ _ (b, w)

  if-Reverts :
      (db : Db) (b : Bool) (x y : Ran Db Error)
      → Reverts db x
      → Reverts db y
      → Reverts db (if b then x else y)
  if-Reverts db true x y f g = f
  if-Reverts db false x y f g = g

  after_exec-Reverts :
      (db : Db) (next : Progress world cmd → Ran Db Error) (p : Progress world cmd) (m : Migration)
      (rest : List Migration) (text : Bytes) (r : Executed Db Error) (e : Option Error)
      → p.in_tx ≡ true
      → Within db r.state
      → ((q : Progress world cmd) → IsIn db q → Reverts db (next q))
      → Reverts db (after_exec world cmd next p m rest text r e)
  unfolding after_exec
  after_exec-Reverts db next p m rest text r (some e) b w ih = give_up-Reverts db _ _ _ (b, w)
  after_exec-Reverts db next p m rest text r none b w ih =
      if-Reverts db cmd.skip_history_table _ _
        (ih (advance world cmd p r.state (timed world cmd m r true)) (b, w))
        (after_upsert-Reverts db next p (timed world cmd m r true) rest _ b
          (upserted db r.state _ w) ih)

  after_read-Reverts :
      (db : Db) (next : Progress world cmd → Ran Db Error) (p : Progress world cmd) (m : Migration)
      (rest : List Migration) (f : File Error)
      → IsIn db p
      → ((q : Progress world cmd) → IsIn db q → Reverts db (next q))
      → Reverts db (after_read world cmd next p m rest f)
  unfolding after_read
  after_read-Reverts db next p m rest (contents text) (b, w) ih =
      after_exec-Reverts db next p m rest text (exec p.now text) _ b (executed db p.now text w) ih
  after_read-Reverts db next p m rest _ i ih = give_up-Reverts db _ _ _ i

  after_commit-Reverts :
      (db : Db) (p : Progress world cmd) (r : Db × Option Error)
      → Within db p.now
      → commit p.now ≡ r
      → Reverts db (after_commit world cmd p r)
  unfolding after_commit finished
  after_commit-Reverts db p (last, none) w c e h = cc
  after_commit-Reverts db p (last, some u) w c e h = not_committed db p.now last u w c

  conclude-Reverts :
      (db : Db) (in_tx : Bool) (p : Progress world cmd)
      → in_tx ≡ true
      → Within db p.now
      → Reverts db (conclude world cmd in_tx p)
  unfolding conclude
  conclude-Reverts db true p b w = after_commit-Reverts db p (commit p.now) w refl
  conclude-Reverts db false p b w = absurd (false≢true b)

  run_from-Reverts :
      (db : Db) (ms : List Migration) (p : Progress world cmd)
      → IsIn db p
      → Reverts db (run_from world cmd ms p)
  unfolding run_from
  run_from-Reverts db [] p (b, w) = conclude-Reverts db p.in_tx p b w
  run_from-Reverts db (m ∷ rest) p i =
      after_read-Reverts db (run_from world cmd rest) p m rest (read m.filename) i
        (run_from-Reverts db rest)

  after_begin-Reverts :
      (db : Db) (ms : List Migration) (r : Db × Option Error)
      → begin db ≡ r
      → Reverts db (after_begin world cmd ms r)
  unfolding after_begin
  after_begin-Reverts db ms (now, some e) b f h = not_begun db now e b
  after_begin-Reverts db ms (now, none) b f h = run_from-Reverts db ms _ (refl, begun db now b) f h

  -- Where migrations run in a transaction, a run that returns an error leaves the database as it
  -- was, whichever step failed: no script and no row of the history has had an effect. The database
  -- is one with transactions: a rollback, or a commit that fails, restores the state.
  pub run-reverts :
      (db : Db) (first : Migration) (rest : List Migration) (e : RunError Error)
      → uses_tx cmd.dialect first rest ≡ true
      → (run world cmd db first rest).error ≡ some e
      → (run world cmd db first rest).state ≡ db
  unfolding run
  run-reverts db first rest e tx = rw tx (after_begin-Reverts db (first ∷ rest) (begin db) refl e)
