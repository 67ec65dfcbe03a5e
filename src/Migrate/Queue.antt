-- ===== src/Migrate/Queue.antt =====
-- ddl/migrate_cmd.go: the loop of (*MigrateCmd).Run over the migrations, which leaves out those
-- that need not run and hands the others to runWithRetry in queues.
use sqddl.Base.{
  Bool, ◌&&◌, ◌||◌, List, [], ◌∷◌, ◌++◌, if◌then◌else◌, ◌==◌, Bytes, codes, has_prefix, text_eq,
}
use sqddl.Catalog.{dialect_mysql}
use sqddl.Migrate.World.{
  World, Command, Migration, File, contents, not_exist, open_failed, read_failed, Line,
}
use sqddl.Migrate.Run.{is_tx_file, is_txoff_file}
use sqddl.Migrate.Retry.{
  Retried, returned, index_panic, intn_panic, out_of_fuel, succeeded, run_with_retry,
}

abbrev pub is_repeatable : Migration → Bool
is_repeatable m = has_prefix m.filename (codes "repeatable/")

-- bytes.ReplaceAll(text, "\r\n", "\n")
unfoldable pub unix_lines : Bytes → Bytes
unix_lines [] = []
unix_lines (c ∷ []) = c ∷ []
unix_lines (c ∷ d ∷ s) =
    let rest = unix_lines (d ∷ s) in if c == 13 && d == 10 then rest else c ∷ rest

-- What the loop does with a migration: leave it out, run it, or return an error of its file.
pub data Choice (Error : Type 0) : Type 0 where
  skip : Choice Error
  pending : Migration → Choice Error
  unreadable_file : Error → Choice Error

-- whether `m` cannot share a queue with others
abbrev pub stands_alone : Migration → Bool
stands_alone m = is_tx_file m.filename || is_txoff_file m.filename

-- whether queue `first ∷ …` is run before `m` joins
unfoldable pub must_flush : Bytes → Migration → Migration → Bool
must_flush dialect first m = text_eq dialect dialect_mysql || stands_alone first || stands_alone m

module _ (world : World) (cmd : Command) where
  open world use {Db, Error, read, checksum_of}

  unfoldable pub choose_repeatable : Migration → File Error → Choice Error
  choose_repeatable m (contents text) =
      let sum = checksum_of (unix_lines text) in
      if text_eq sum m.checksum && m.valid && m.success
      then skip
      else pending (record m { checksum = sum })
  choose_repeatable m (not_exist e) = unreadable_file e
  choose_repeatable m (open_failed e) = unreadable_file e
  choose_repeatable m (read_failed e) = unreadable_file e

  unfoldable pub choose : Migration → Choice Error
  choose m =
      if is_repeatable m
      then choose_repeatable m (read m.filename)
      else if m.valid && m.success
      then skip
      else pending m

  -- The end of the loop: `failed_file` returns the error of reading a repeatable migration.
  pub data Ended : Type 0 where
    ended : Retried Db Error → Ended
    failed_file : Db → Error → List Line → Ended

  -- After a queue has been run: go on from the state that it left if it succeeded.
  unfoldable pub after_queue : (Db → List Line → Ended) → List Line → Retried Db Error → Ended
  after_queue next lines (returned db succeeded more) = next db (lines ++ more)
  after_queue next lines (returned db error more) = ended (returned db error (lines ++ more))
  after_queue next lines index_panic = ended index_panic
  after_queue next lines intn_panic = ended intn_panic
  after_queue next lines out_of_fuel = ended out_of_fuel

  -- run `queue`, then go on
  abbrev pub flush : (Db → List Line → Ended) → List Migration → Db → List Line → Ended
  flush next queue db lines = after_queue next lines (run_with_retry world cmd queue db)

  -- behind the loop
  unfoldable pub flush_last : List Migration → Db → List Line → Ended
  flush_last [] db lines = ended (returned db succeeded lines)
  flush_last (m ∷ queue) db lines =
      flush (λ db lines. ended (returned db succeeded lines)) (m ∷ queue) db lines

  -- `m` joins the queue, which is run first if it must be
  unfoldable pub enqueue :
      (List Migration → Db → List Line → Ended)
      → List Migration
      → Migration
      → Db
      → List Line
      → Ended
  enqueue next [] m db lines = next (m ∷ []) db lines
  enqueue next (first ∷ queue) m db lines =
      if must_flush cmd.dialect first m
      then flush (next (m ∷ [])) (first ∷ queue) db lines
      else next ((first ∷ queue) ++ m ∷ []) db lines

  unfoldable pub after_choice :
      (List Migration → Db → List Line → Ended)
      → List Migration
      → Choice Error
      → Db
      → List Line
      → Ended
  after_choice next queue skip db lines = next queue db lines
  after_choice next queue (pending m) db lines = enqueue next queue m db lines
  after_choice next queue (unreadable_file e) db lines = failed_file db e lines

  unfoldable pub run_queues : List Migration → List Migration → Db → List Line → Ended
  run_queues [] queue db lines = flush_last queue db lines
  run_queues (m ∷ ms) queue db lines = after_choice (run_queues ms) queue (choose m) db lines
