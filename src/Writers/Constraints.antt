-- ===== src/Writers/Constraints.antt =====
-- ddl/dump_cmd.go: writeConstraintDefinition.
use sqddl.Base.{not, ◌&&◌, List, [], ◌∷◌, ◌++◌, if◌then◌else◌, Bytes, codes, text_eq}
use sqddl.Catalog.{
  Constraint, primary_key, foreign_key, check, exclude, dialect_postgres, dialect_mysql,
}
use sqddl.Sql.Quote.{quote_identifier}
use sqddl.Writers.Pieces.{texts, when, is_given, is_foreign, write_column_names}
use sqddl.Writers.Columns.{write_rules, write_deferrable}

unfoldable pub write_referenced_table : Bytes → Bytes → Constraint → Bytes
write_referenced_table dialect current x =
    let table = quote_identifier dialect x.references_table in
    if is_foreign x.references_schema current
    then texts (quote_identifier dialect x.references_schema ∷ codes "." ∷ table ∷ [])
    else if text_eq dialect dialect_mysql && not (text_eq x.table_schema x.references_schema)
    then texts (
        quote_identifier dialect
          (if is_given x.references_schema then x.references_schema else current)
        ∷ codes "."
        ∷ table
        ∷ [])
    else table

unfoldable pub write_foreign_key : Bytes → Bytes → Constraint → Bytes
write_foreign_key dialect current x = texts (
    codes " REFERENCES "
    ∷ write_referenced_table dialect current x
    ∷ codes " ("
    ∷ write_column_names dialect x.references_columns
    ∷ codes ")"
    ∷ write_rules x.update_rule x.delete_rule
    ∷ [])

-- the operator of the column, if there is one
abbrev pub first_text : List Bytes → Bytes
first_text [] = []
first_text (t ∷ ts) = t

abbrev pub other_texts : List Bytes → List Bytes
other_texts [] = []
other_texts (t ∷ ts) = ts

-- the loop over the columns of an exclude constraint; `comma` stands in front of all but the first
unfoldable pub write_exclusions : Bytes → List Bytes → List Bytes → Bytes
write_exclusions comma [] operators = []
write_exclusions comma (c ∷ columns) operators = texts (
    comma
    ∷ c
    ∷ codes " WITH "
    ∷ first_text operators
    ∷ write_exclusions (codes ", ") columns (other_texts operators)
    ∷ [])

unfoldable pub write_exclusion : Constraint → Bytes
write_exclusion x = texts (
    when (is_given x.exclusion_index_type) (codes " USING " ++ x.exclusion_index_type)
    ∷ codes " ("
    ∷ write_exclusions [] x.columns x.exclusion_operators
    ∷ codes ")"
    ∷ when (is_given x.exclusion_predicate)
        (texts (codes " WHERE (" ∷ x.exclusion_predicate ∷ codes ")" ∷ []))
    ∷ [])

-- what stands behind the type of a constraint that is no check
unfoldable pub write_constraint_body : Bytes → Bytes → Constraint → Bytes
write_constraint_body dialect current x = texts (
    when (not (text_eq x.constraint_type exclude))
      (texts (codes " (" ∷ write_column_names dialect x.columns ∷ codes ")" ∷ []))
    ∷ when (text_eq x.constraint_type foreign_key) (write_foreign_key dialect current x)
    ∷ when (text_eq x.constraint_type exclude && text_eq dialect dialect_postgres)
        (write_exclusion x)
    ∷ write_deferrable dialect x.is_deferrable x.is_initially_deferred
    ∷ [])

unfoldable pub write_constraint_definition : Bytes → Bytes → Constraint → Bytes
write_constraint_definition dialect current x =
    if text_eq x.constraint_type primary_key && text_eq dialect dialect_mysql
    then texts (codes "PRIMARY KEY (" ∷ write_column_names dialect x.columns ∷ codes ")" ∷ [])
    else texts (
        when (is_given x.constraint_name) (
          texts (codes "CONSTRAINT " ∷ quote_identifier dialect x.constraint_name ∷ codes " " ∷ []))
        ∷ x.constraint_type
        ∷ (if text_eq x.constraint_type check
            then texts (codes " (" ∷ x.check_expr ∷ codes ")" ∷ [])
            else write_constraint_body dialect current x)
        ∷ [])
