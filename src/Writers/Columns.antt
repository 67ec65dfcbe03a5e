-- ===== src/Writers/Columns.antt =====
-- ddl/dump_cmd.go: writeColumnDefinition.
use sqddl.Base.{Bool, not, ◌&&◌, ◌||◌, [], ◌∷◌, ◌++◌, if◌then◌else◌, Bytes, codes, text_eq}
use sqddl.Catalog.{
  Column, dialect_sqlite, dialect_postgres, dialect_mysql, dialect_sqlserver, no_action,
}
use sqddl.Helpers.Brackets.{to_upper, wrap_brackets}
use sqddl.Sql.Quote.{quote_identifier, escape_quote}
use sqddl.Writers.Pieces.{texts, when, is_given, is_foreign}

unfoldable pub is_generated_on_sqlserver : Bytes → Column → Bool
is_generated_on_sqlserver dialect x = text_eq dialect dialect_sqlserver && is_given x.generated_expr

unfoldable pub write_type : Bytes → Column → Bytes
write_type dialect x =
    if is_given x.domain_name
    then codes " " ++ x.domain_name
    else if x.is_enum
    then codes " " ++ x.column_type
    else when (is_given x.column_type && not (is_generated_on_sqlserver dialect x))
        (codes " " ++ to_upper x.column_type)

unfoldable pub write_autoincrement : Bytes → Column → Bytes
write_autoincrement dialect x = when x.is_autoincrement (
    if text_eq dialect dialect_sqlite
    then codes " AUTOINCREMENT"
    else when (text_eq dialect dialect_mysql) (codes " AUTO_INCREMENT"))

unfoldable pub write_collation : Bytes → Bytes → Column → Bytes
write_collation dialect default_collation x = when (is_foreign x.collation_name default_collation) (
    if text_eq dialect dialect_postgres
    then texts (codes " COLLATE \"" ∷ escape_quote x.collation_name b'"' ∷ codes "\"" ∷ [])
    else codes " COLLATE " ++ x.collation_name)

unfoldable pub write_generated : Bytes → Column → Bytes
write_generated dialect x =
    let expr = wrap_brackets x.generated_expr in
    when (is_given x.generated_expr) (
      if text_eq dialect dialect_sqlite || text_eq dialect dialect_postgres
      then texts (codes " GENERATED ALWAYS AS " ∷ expr ∷ codes " STORED" ∷ [])
      else if text_eq dialect dialect_mysql
      then texts (codes " AS " ∷ expr ∷ when x.generated_expr_stored (codes " STORED") ∷ [])
      else when (text_eq dialect dialect_sqlserver)
          (texts (codes " AS " ∷ expr ∷ when x.generated_expr_stored (codes " PERSISTED") ∷ [])))

-- a rule of ON UPDATE or ON DELETE that has to be written
abbrev pub is_rule : Bytes → Bool
is_rule rule = is_given rule && not (text_eq rule no_action)

unfoldable pub write_deferrable : Bytes → Bool → Bool → Bytes
write_deferrable dialect deferrable deferred =
    when (deferrable && (text_eq dialect dialect_sqlite || text_eq dialect dialect_postgres))
      (codes " DEFERRABLE" ++ when deferred (codes " INITIALLY DEFERRED"))

unfoldable pub write_rules : Bytes → Bytes → Bytes
write_rules update delete =
    when (is_rule update) (codes " ON UPDATE " ++ update)
    ++ when (is_rule delete) (codes " ON DELETE " ++ delete)

unfoldable pub write_references : Bytes → Column → Bytes
write_references dialect x = texts (
    codes " REFERENCES "
    ∷ when (is_foreign x.references_schema x.table_schema)
        (quote_identifier dialect x.references_schema ++ codes ".")
    ∷ quote_identifier dialect x.references_table
    ∷ codes " ("
    ∷ quote_identifier dialect x.references_column
    ∷ codes ")"
    ∷ write_rules x.update_rule x.delete_rule
    ∷ write_deferrable dialect x.is_deferrable x.is_initially_deferred
    ∷ [])

unfoldable pub write_column_definition : Bytes → Bytes → Column → Bool → Bytes
write_column_definition dialect default_collation x column_level = texts (
    quote_identifier dialect x.column_name
    ∷ write_type dialect x
    ∷ when (x.is_primary_key && (column_level || text_eq dialect dialect_sqlite))
        (codes " PRIMARY KEY")
    ∷ write_autoincrement dialect x
    ∷ when (x.is_not_null && not (is_generated_on_sqlserver dialect x)) (codes " NOT NULL")
    ∷ when (x.is_unique && column_level) (codes " UNIQUE")
    ∷ when
        (is_given x.column_identity
          && (text_eq dialect dialect_postgres || text_eq dialect dialect_sqlserver))
        (codes " " ++ x.column_identity)
    ∷ when (is_given x.column_default) (codes " DEFAULT " ++ x.column_default)
    ∷ when (x.on_update_current_timestamp && text_eq dialect dialect_mysql)
        (codes " ON UPDATE CURRENT_TIMESTAMP")
    ∷ write_collation dialect default_collation x
    ∷ write_generated dialect x
    ∷ when (column_level && (is_given x.references_table && is_given x.references_column))
        (write_references dialect x)
    ∷ [])
