-- ===== src/Migrate/Run.antt =====
-- ddl/migrate_cmd.go: (*MigrateCmd).run, which executes migrations in one transaction or one
-- without a transaction.
use sqddl.Base.{
  ℕ, Bool, true, false, not, ◌&&◌, ◌||◌, List, [], ◌∷◌, ◌++◌, Option, none, some, if◌then◌else◌,
  ltb, length, Bytes, codes, has_suffix, text_eq,
}
use sqddl.Catalog.{dialect_mysql}
use sqddl.Migrate.World.{
  World, Command, Migration, Row, File, contents, not_exist, open_failed, read_failed, RunError,
  begin_tx, file, history, commit_tx, script, Executed, Line, began, rolled_back, committed,
  started, failed, passed,
}

abbrev pub is_tx_file : Bytes → Bool
is_tx_file name = has_suffix name (codes ".tx.sql")

abbrev pub is_txoff_file : Bytes → Bool
is_txoff_file name = has_suffix name (codes ".txoff.sql")

-- whether migrations `first ∷ rest` run in a transaction
unfoldable pub uses_tx : Bytes → Migration → List Migration → Bool
uses_tx dialect first rest =
    ltb 1 (length (first ∷ rest))
    || (not (is_txoff_file first.filename) && not (text_eq dialect dialect_mysql))
    || is_tx_file first.filename

abbrev pub row_of : Migration → Row
row_of m = record {
  filename = m.filename;
  checksum = m.checksum;
  started_at = m.started_at;
  time_taken = m.time_taken;
  success = m.success;
}

-- The end of `run`: the state of the database, the migrations with what was written into them,
-- `stoppedAt` (none for -1), the error and the lines written.
pub record Ran (Db Error : Type 0) : Type 0 where
  pub state : Db
  pub migrations : List Migration
  pub stopped_at : Option ℕ
  pub error : Option (RunError Error)
  pub log : List Line

module _ (world : World) (cmd : Command) where
  open world use {Db, Error, read, begin, exec, upsert, rollback, commit, annotate}

  -- Where the loop is: whether there is a transaction, the state now, the migrations behind and the
  -- lines so far.
  pub record Progress : Type 0 where
    pub in_tx : Bool
    pub now : Db
    pub behind : List Migration
    pub lines : List Line

  -- the state after rollback(tx)
  unfoldable pub reverted : Bool → Db → Db
  reverted in_tx now = if in_tx then rollback now else now

  unfoldable pub rollback_lines : Bool → List Line
  rollback_lines in_tx = if in_tx then rolled_back ∷ [] else []

  -- rollback(tx); return i, err
  unfoldable pub give_up : Progress → List Migration → RunError Error → Ran Db Error
  give_up p ahead error = record {
    state = reverted p.in_tx p.now;
    migrations = p.behind ++ ahead;
    stopped_at = some (length p.behind);
    error = some error;
    log = p.lines ++ rollback_lines p.in_tx;
  }

  abbrev pub start_lines : Bytes → List Line
  start_lines name = if cmd.verbose then started name ∷ [] else []

  -- m with its times and `success` set
  abbrev pub timed : Migration → Executed Db Error → Bool → Migration
  timed m r ok = record m {
    started_at = some r.started_at;
    time_taken = some r.time_taken;
    success = ok;
  }

  -- the migration is behind, and the loop goes on from state `now`
  abbrev pub advance : Progress → Db → Migration → Progress
  advance p now m = record p {
    now = now;
    behind = p.behind ++ m ∷ [];
    lines = p.lines ++ (start_lines m.filename ++ passed m.filename ∷ []);
  }

  unfoldable pub after_upsert :
      (Progress → Ran Db Error)
      → Progress
      → Migration
      → List Migration
      → Db × Option Error
      → Ran Db Error
  after_upsert next p m rest (now, none) = next (advance p now m)
  after_upsert next p m rest (now, some e) =
      give_up
        (record p {
          now = now;
          lines = p.lines ++ (start_lines m.filename ++ passed m.filename ∷ []);
        })
        (m ∷ rest) (history e)

  -- The script of `m`, which is `text`, has been executed with result `r`; `error` is its error.
  unfoldable pub after_exec :
      (Progress → Ran Db Error)
      → Progress
      → Migration
      → List Migration
      → Bytes
      → Executed Db Error
      → Option Error
      → Ran Db Error
  after_exec next p m rest text r (some e) =
      give_up
        (record p {
          now = r.state;
          lines = p.lines ++ (start_lines m.filename ++ failed m.filename ∷ []);
        })
        (timed m r false ∷ rest)
        (script (annotate e text) m.filename text r.started_at r.time_taken)
  after_exec next p m rest text r none =
      let done = timed m r true in
      if cmd.skip_history_table
      then next (advance p r.state done)
      else after_upsert next p done rest (upsert r.state (row_of done ∷ []))

  unfoldable pub after_read :
      (Progress → Ran Db Error) → Progress → Migration → List Migration → File Error → Ran Db Error
  after_read next p m rest (contents text) =
      let r = exec p.now text in after_exec next p m rest text r r.error
  after_read next p m rest (not_exist e) = give_up p (m ∷ rest) (file e)
  after_read next p m rest (open_failed e) = give_up p (m ∷ rest) (file e)
  after_read next p m rest (read_failed e) = give_up p (m ∷ rest) (file e)

  abbrev pub last_index : List Migration → Option ℕ
  last_index [] = none
  last_index (m ∷ ms) = some (length ms)

  unfoldable pub finished : Progress → Db → Option (RunError Error) → List Line → Ran Db Error
  finished p state error more = record {
    state = state;
    migrations = p.behind;
    stopped_at = last_index p.behind;
    error = error;
    log = p.lines ++ more;
  }

  unfoldable pub after_commit : Progress → Db × Option Error → Ran Db Error
  after_commit p (state, none) = finished p state none (committed ∷ [])
  after_commit p (state, some e) = finished p state (some (commit_tx e)) (committed ∷ [])

  -- behind the loop
  unfoldable pub conclude : Bool → Progress → Ran Db Error
  conclude in_tx p = if in_tx then after_commit p (commit p.now) else finished p p.now none []

  -- the loop over the migrations
  unfoldable pub run_from : List Migration → Progress → Ran Db Error
  run_from [] p = conclude p.in_tx p
  run_from (m ∷ rest) p = after_read (run_from rest) p m rest (read m.filename)

  unfoldable pub after_begin : List Migration → Db × Option Error → Ran Db Error
  after_begin ms (state, some e) = record {
    state = state;
    migrations = ms;
    stopped_at = none;
    error = some (begin_tx e);
    log = began ∷ [];
  }
  after_begin ms (state, none) =
      run_from ms (record { in_tx = true; now = state; behind = []; lines = began ∷ [] })

  unfoldable pub run : Db → Migration → List Migration → Ran Db Error
  run db first rest =
      if uses_tx cmd.dialect first rest
      then after_begin (first ∷ rest) (begin db)
      else run_from (first ∷ rest) (record { in_tx = false; now = db; behind = []; lines = [] })
