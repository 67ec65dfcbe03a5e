-- ===== src/Migrate/Groups.antt =====
-- The loop of (*MigrateCmd).Run against its specification: the migrations that it runs are cut into
-- groups, in order, and the groups are run one after the other.
use sqddl.Base.{
  false, List, [], ◌∷◌, ◌++◌, ◌≡◌, inl, inr, refl, ap, ◌∙◌, fun_ext, Bool-cases, All, All-append,
  append_assoc, arith, Bytes, text_eq,
}
use sqddl.Catalog.{dialect_mysql}
use sqddl.Migrate.World.{World, Command, Migration, Line}
use sqddl.Migrate.Retry.{Retried, returned, succeeded, run_with_retry}
use sqddl.Migrate.Queue.{
  skip, pending, stands_alone, must_flush, choose, Ended, ended, after_queue, flush_last, enqueue,
  after_choice, run_queues,
}

-- The migrations of a group can share a transaction: there is one, or no file name ends in .tx.sql or
-- .txoff.sql and the database is not MySQL.
pub data IsGroup (dialect : Bytes) : List Migration → Type 0 where
  alone : (m : Migration) → IsGroup dialect (m ∷ [])
  shared :
      (m n : Migration) (ms : List Migration)
      → text_eq dialect dialect_mysql ≡ false
      → All (λ m. stands_alone m ≡ false) (m ∷ n ∷ ms)
      → IsGroup dialect (m ∷ n ∷ ms)

abbrev pub joined : List (List Migration) → List Migration
joined [] = []
joined (g ∷ gs) = g ++ joined gs

must_flush-false :
    (dialect : Bytes) (first m : Migration)
    → must_flush dialect first m ≡ false
    → (text_eq dialect dialect_mysql ≡ false)
      × ((stands_alone first ≡ false) × (stands_alone m ≡ false))
unfolding must_flush
must_flush-false dialect first m h = ground arith

IsGroup-append :
    (dialect : Bytes) (first m : Migration) (queue : List Migration)
    → must_flush dialect first m ≡ false
    → IsGroup dialect (first ∷ queue)
    → IsGroup dialect ((first ∷ queue) ++ m ∷ [])
IsGroup-append dialect first m [] h (alone _) =
    let (d, (a, b)) = must_flush-false dialect first m h in shared first m [] d (a, (b, tt))
IsGroup-append dialect first m (n ∷ ms) h (shared _ _ _ d a) =
    let (_, (_, b)) = must_flush-false dialect first m h in
    shared first n (ms ++ m ∷ []) d (All-append _ (first ∷ n ∷ ms) (m ∷ []) a (b, tt))

module _ (world : World) (cmd : Command) where
  open world use {Db, Error}

  -- The migrations that the loop does not leave out, as it runs them; every file could be read.
  pub data Chosen : List Migration → List Migration → Type 0 where
    nothing : Chosen [] []
    left_out :
        {m : Migration} {ms chosen : List Migration}
        → choose world cmd m ≡ skip
        → Chosen ms chosen
        → Chosen (m ∷ ms) chosen
    taken :
        {m m' : Migration} {ms chosen : List Migration}
        → choose world cmd m ≡ pending m'
        → Chosen ms chosen
        → Chosen (m ∷ ms) (m' ∷ chosen)

  -- The groups are run in order, until one does not succeed.
  abbrev pub run_groups : List (List Migration) → Db → List Line → Ended world cmd
  run_groups [] db lines = ended (returned db succeeded lines)
  run_groups (g ∷ gs) db lines =
      after_queue world cmd (run_groups gs) lines (run_with_retry world cmd g db)

  -- What the loop does from `queue` on, with `chosen` ahead.
  abbrev Cuts : (Db → List Line → Ended world cmd) → List Migration → List Migration → Type 0
  Cuts loop queue chosen =
      (gs : List (List Migration)) × ((joined gs ≡ queue ++ chosen)
        × (All (IsGroup cmd.dialect) gs
            × ((db : Db) (lines : List Line) → loop db lines ≡ run_groups gs db lines)))

  -- A queue can be empty, or is a group.
  abbrev IsQueue : List Migration → Type 0
  IsQueue [] = Unit
  IsQueue (m ∷ ms) = IsGroup cmd.dialect (m ∷ ms)

  after_queue-ext :
      (f g : Db → List Line → Ended world cmd) (lines : List Line) (r : Retried Db Error)
      → ((db : Db) (lines : List Line) → f db lines ≡ g db lines)
      → after_queue world cmd f lines r ≡ after_queue world cmd g lines r
  after_queue-ext f g lines r h =
      ap (λ next. after_queue world cmd next lines r)
        (fun_ext (λ db. fun_ext (λ lines. h db lines)))

  flush_last-Cuts :
      (queue : List Migration) → IsQueue queue → Cuts (flush_last world cmd queue) queue []
  unfolding flush_last
  flush_last-Cuts [] q = ([], (refl, (tt, λ db lines. refl)))
  flush_last-Cuts (m ∷ queue) q = ((m ∷ queue) ∷ [], (refl, ((q, tt), λ db lines. refl)))

  enqueue-Cuts :
      (next : List Migration → Db → List Line → Ended world cmd) (queue : List Migration)
      (m : Migration) (chosen : List Migration)
      → IsQueue queue
      → ((queue : List Migration) → IsQueue queue → Cuts (next queue) queue chosen)
      → Cuts (enqueue world cmd next queue m) queue (m ∷ chosen)
  unfolding enqueue
  enqueue-Cuts next [] m chosen q ih = ih (m ∷ []) (alone m)
  enqueue-Cuts next (first ∷ queue) m chosen q ih =
      elim (Bool-cases (must_flush cmd.dialect first m)) [
        | inl now ↦
            let (gs, (e, (a, same))) = ih (m ∷ []) (alone m) in
            (
              (first ∷ queue) ∷ gs,
              (
                ap (λ l. first ∷ queue ++ l) e,
                ((q, a), λ db lines. rw now (after_queue-ext _ _ lines _ same)),
              ),
            )
        | inr later ↦
            let (gs, (e, (a, same))) =
              ih ((first ∷ queue) ++ m ∷ []) (IsGroup-append cmd.dialect first m queue later q) in
            (
              gs,
              (
                e ∙ append_assoc (first ∷ queue) (m ∷ []) chosen,
                (a, λ db lines. rw later (same db lines)),
              ),
            )
      ]

  run_queues-Cuts :
      {ms chosen : List Migration}
      → Chosen ms chosen
      → (queue : List Migration) → IsQueue queue
      → Cuts (run_queues world cmd ms queue) queue chosen
  unfolding run_queues after_choice
  run_queues-Cuts nothing queue q = flush_last-Cuts queue q
  run_queues-Cuts (left_out {m} {ms} h c) queue q = rw h (run_queues-Cuts c queue q)
  run_queues-Cuts (taken {m} {m'} {ms} {chosen} h c) queue q = rw h (
      enqueue-Cuts (run_queues world cmd ms) queue m' chosen q
        (λ next ok. run_queues-Cuts c next ok))

  -- The loop is the run of some groups, which together are `chosen`.
  abbrev pub RunsGroups : (Db → List Line → Ended world cmd) → List Migration → Type 0
  RunsGroups loop chosen =
      (gs : List (List Migration)) × ((joined gs ≡ chosen)
        × (All (IsGroup cmd.dialect) gs × (loop ≡ run_groups gs)))

  -- Where the files of the repeatable migrations can be read, the loop cuts the migrations that it
  -- does not leave out into groups, in order and with none lost or repeated, and runs one group
  -- after the other until one does not succeed. Migrations share a group only if no file name of
  -- theirs ends in .tx.sql or .txoff.sql and the database is not MySQL.
  pub run_queues-Groups :
      {ms chosen : List Migration}
      → Chosen ms chosen
      → RunsGroups (run_queues world cmd ms []) chosen
  run_queues-Groups c =
      let (gs, (e, (a, same))) = run_queues-Cuts c [] tt in
      (gs, (e, (a, fun_ext (λ db. fun_ext (λ lines. same db lines)))))
