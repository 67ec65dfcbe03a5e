-- ===== src/Diff/Mysql/Total.antt =====
-- newMySQLMigration does not panic on well-formed catalogs.
use sqddl.Base.{Bool, List, [], Option, none, some, All}
use sqddl.Cache.Build.{new_catalog_cache}
use sqddl.Cache.Build.WellFormed.{IsWellFormed}
use sqddl.Cache.Constraints.{constraint_ignored}
use sqddl.Cache.Slots.{Outcome, ret}
use sqddl.Cache.State.{CatalogCache}
use sqddl.Cache.Tables.{column_ignored, index_ignored}
use sqddl.Catalog.{Catalog, Schema, Table, Constraint, dialect_mysql}
use sqddl.Diff.Mysql.{
  MysqlMigration, MysqlKeys, start_mysql, mysql_constraint_step, alter_mysql_table,
  create_mysql_table, create_unless_ignored, drop_mysql_table, drop_unless_found, drop_table_step,
  create_or_alter, table_step, create_or_diff_schema, schema_step, drop_fkeys_step,
  drop_schema_unless_found, drop_schema_step, new_mysql_migration,
}
use sqddl.Diff.Steps.{if_dropping}
use sqddl.Diff.Usable.{
  IsTyped, HasTypes, IsUsable, IsUsableSchema, schemas_are_usable, find_schema-Yields,
  find_table-Yields, find_column-Yields, find_constraint-Returns, find_index-Returns,
  columns_differ-Returns,
}
use sqddl.Diff.Yields.{
  Returns, Returns-ret, Returns-bind, Returns-if, Yields-bind, IfFound, each_step-Returns,
  missing-Returns, compared-Returns, Returns-of_Yields, each_step-Returns_any,
}

module _ (src_cache dest_cache : CatalogCache) (drop_objects : Bool) where
  abbrev OfSrc : Table → Type 0
  OfSrc = IsUsable dialect_mysql src_cache

  abbrev OfDest : Table → Type 0
  OfDest = IsUsable dialect_mysql dest_cache

  mysql_constraint_step-Returns :
      (src : Table)
      → OfSrc src
      → (x : Constraint) (keys : MysqlKeys)
      → Returns (mysql_constraint_step src_cache dest_cache drop_objects src x keys)
  unfolding mysql_constraint_step
  mysql_constraint_step-Returns src u x keys = Returns-if x.ignore _ _ (Returns-ret keys) (
      Returns-bind _ _ (find_constraint-Returns dialect_mysql src_cache src x.constraint_name u)
        (λ found. Returns-ret _))

  if_dropping-Returns :
      {A : Type 0} (m : Outcome (List A)) → Returns m → Returns (if_dropping drop_objects m)
  if_dropping-Returns m h = Returns-if drop_objects m (ret []) h (Returns-ret [])

  alter_mysql_table-Returns :
      (src dest : Table) (m : MysqlMigration)
      → OfSrc src
      → OfDest dest
      → Returns (alter_mysql_table src_cache dest_cache drop_objects src dest m)
  unfolding alter_mysql_table
  alter_mysql_table-Returns src dest m u v =
      Returns-bind _ _
        (if_dropping-Returns _ (
          missing-Returns constraint_ignored _
            (λ x. find_constraint-Returns dialect_mysql dest_cache dest x.constraint_name v)
            src.constraints))
        (λ lost.
          Returns-bind _ _
            (if_dropping-Returns _ (
              missing-Returns index_ignored _
                (λ x. find_index-Returns dialect_mysql dest_cache dest x.index_name v) src.indexes))
            (λ lost_indexes.
              Returns-bind _ _
                (if_dropping-Returns _ (
                  missing-Returns column_ignored _
                    (λ x.
                      Returns-of_Yields (IfFound (IsTyped dialect_mysql)) _
                        (find_column-Yields dialect_mysql dest_cache dest x.column_name v))
                    src.columns))
                (λ lost_columns.
                  Returns-bind _ _
                    (compared-Returns (IsTyped dialect_mysql) column_ignored _ _
                      (λ x. find_column-Yields dialect_mysql src_cache src x.column_name u)
                      (λ old x. columns_differ-Returns dialect_mysql m.default_collation old x)
                      dest.columns v.types)
                    (λ columns.
                      Returns-bind _ _
                        (missing-Returns index_ignored _
                          (λ x. find_index-Returns dialect_mysql src_cache src x.index_name u)
                          dest.indexes)
                        (λ created.
                          Returns-bind _ _
                            (each_step-Returns_any _ (mysql_constraint_step-Returns src u)
                              dest.constraints _)
                            (λ keys. Returns-ret _))))))

  create_mysql_table-Returns :
      (t : Table) (m : MysqlMigration)
      → OfDest t
      → Returns (create_mysql_table src_cache dest_cache drop_objects t m)
  unfolding create_mysql_table
  create_mysql_table-Returns t m u = Returns-bind _ _ u.fkeys (λ fkeys. Returns-ret _)

  create_unless_ignored-Returns :
      (t : Table) (m : MysqlMigration)
      → OfDest t
      → Returns (create_unless_ignored src_cache dest_cache drop_objects t m)
  unfolding create_unless_ignored
  create_unless_ignored-Returns t m u =
      Returns-if t.ignore _ _ (Returns-ret m) (create_mysql_table-Returns t m u)

  drop_unless_found-Returns :
      (t : Table) (m : MysqlMigration) (o : Option Table)
      → OfSrc t
      → Returns (drop_unless_found src_cache dest_cache drop_objects t m o)
  unfolding drop_unless_found drop_mysql_table
  drop_unless_found-Returns t m none u = Returns-bind _ _ u.fkeys (λ fkeys. Returns-ret _)
  drop_unless_found-Returns t m (some v) u = Returns-ret m

  drop_table_step-Returns :
      (dest : Schema)
      → IsUsableSchema dialect_mysql dest_cache dest
      → (t : Table) (m : MysqlMigration) → OfSrc t
      → Returns (drop_table_step src_cache dest_cache drop_objects dest t m)
  unfolding drop_table_step
  drop_table_step-Returns dest v t m u = Returns-if t.ignore _ _ (Returns-ret m) (
      Returns-bind _ _
        (Returns-of_Yields _ _ (find_table-Yields dialect_mysql dest_cache dest t.table_name v))
        (λ found. drop_unless_found-Returns t m found u))

  create_or_alter-Returns :
      (t : Table) (m : MysqlMigration) (o : Option Table)
      → OfDest t
      → IfFound OfSrc o
      → Returns (create_or_alter src_cache dest_cache drop_objects t m o)
  unfolding create_or_alter
  create_or_alter-Returns t m none v f = create_mysql_table-Returns t m v
  create_or_alter-Returns t m (some old) v u = alter_mysql_table-Returns old t m u v

  table_step-Returns :
      (src : Schema)
      → IsUsableSchema dialect_mysql src_cache src
      → (t : Table) (m : MysqlMigration) → OfDest t
      → Returns (table_step src_cache dest_cache drop_objects src t m)
  unfolding table_step
  table_step-Returns src u t m v = Returns-if t.ignore _ _ (Returns-ret m) (
      Yields-bind (IfFound OfSrc) (λ a. Unit) _ _
        (find_table-Yields dialect_mysql src_cache src t.table_name u)
        (λ found f. create_or_alter-Returns t m found v f))

  create_or_diff_schema-Returns :
      (dest : Schema) (m : MysqlMigration) (o : Option Schema)
      → IsUsableSchema dialect_mysql dest_cache dest
      → IfFound (IsUsableSchema dialect_mysql src_cache) o
      → Returns (create_or_diff_schema src_cache dest_cache drop_objects dest m o)
  unfolding create_or_diff_schema
  create_or_diff_schema-Returns dest m none v f =
      each_step-Returns OfDest _ create_unless_ignored-Returns dest.tables v.tables _
  create_or_diff_schema-Returns dest m (some src) v u =
      Returns-bind _ _
        (Returns-if drop_objects _ _
          (each_step-Returns OfSrc _ (drop_table_step-Returns dest v) src.tables u.tables m)
          (Returns-ret m))
        (λ dropped.
          each_step-Returns OfDest _ (table_step-Returns src u) dest.tables v.tables dropped)

  drop_fkeys_step-Returns :
      (t : Table) (m : MysqlMigration)
      → OfSrc t
      → Returns (drop_fkeys_step src_cache dest_cache drop_objects t m)
  unfolding drop_fkeys_step
  drop_fkeys_step-Returns t m u =
      Returns-if t.ignore _ _ (Returns-ret m) (Returns-bind _ _ u.fkeys (λ fkeys. Returns-ret _))

  drop_schema_unless_found-Returns :
      (src : Schema) (m : MysqlMigration) (o : Option Schema)
      → IsUsableSchema dialect_mysql src_cache src
      → Returns (drop_schema_unless_found src_cache dest_cache drop_objects src m o)
  unfolding drop_schema_unless_found
  drop_schema_unless_found-Returns src m none u =
      each_step-Returns OfSrc _ drop_fkeys_step-Returns src.tables u.tables _
  drop_schema_unless_found-Returns src m (some dest) u = Returns-ret m

module _ (src dest : Catalog) (drop_objects : Bool) (v : IsWellFormed src)
    (w : IsWellFormed dest) where
  abbrev src_cache : CatalogCache
  src_cache = new_catalog_cache src

  abbrev dest_cache : CatalogCache
  dest_cache = new_catalog_cache dest

  schema_step-Returns :
      All (IsUsableSchema dialect_mysql src_cache) src.schemas
      → (d : Schema) (m : MysqlMigration) → IsUsableSchema dialect_mysql dest_cache d
      → Returns (schema_step src_cache dest_cache drop_objects src d m)
  unfolding schema_step
  schema_step-Returns all d m u = Returns-if d.ignore _ _ (Returns-ret m) (
      Yields-bind (IfFound (IsUsableSchema dialect_mysql src_cache)) (λ a. Unit) _ _
        (find_schema-Yields dialect_mysql src d.schema_name _ v all)
        (λ found f. create_or_diff_schema-Returns src_cache dest_cache drop_objects d m found u f))

  drop_schema_step-Returns :
      All (IsUsableSchema dialect_mysql dest_cache) dest.schemas
      → (s : Schema) (m : MysqlMigration) → IsUsableSchema dialect_mysql src_cache s
      → Returns (drop_schema_step src_cache dest_cache drop_objects dest s m)
  unfolding drop_schema_step
  drop_schema_step-Returns all s m u = Returns-if s.ignore _ _ (Returns-ret m) (
      Returns-bind _ _
        (Returns-of_Yields _ _ (find_schema-Yields dialect_mysql dest s.schema_name _ w all))
        (λ found. drop_schema_unless_found-Returns src_cache dest_cache drop_objects s m found u))

-- newMySQLMigration returns a migration, and does not panic, whether or not objects may be dropped,
-- if normalizeColumnType panics on none of the types in the catalogs. Both catalogs must
-- have distinct names of schemas, of the tables and views together within a
-- schema, and of the columns, of the constraints and of the indexes of each table; a name in every
-- constraint; and in every table the name of its schema.
pub new_mysql_migration-Returns :
    (src dest : Catalog) (drop_objects : Bool)
    → IsWellFormed src
    → IsWellFormed dest
    → HasTypes dialect_mysql src
    → HasTypes dialect_mysql dest
    → Returns (new_mysql_migration src dest drop_objects)
unfolding new_mysql_migration
new_mysql_migration-Returns src dest drop_objects v w p q =
    let sources = schemas_are_usable dialect_mysql src v p in
    let targets = schemas_are_usable dialect_mysql dest w q in
    Returns-bind _ _
      (Returns-if drop_objects _ _
        (each_step-Returns (IsUsableSchema dialect_mysql (new_catalog_cache src)) _
          (drop_schema_step-Returns src dest drop_objects v w targets) src.schemas sources
          (start_mysql src))
        (Returns-ret (start_mysql src)))
      (λ m.
        each_step-Returns (IsUsableSchema dialect_mysql (new_catalog_cache dest)) _
          (schema_step-Returns src dest drop_objects v w sources) dest.schemas targets m)
