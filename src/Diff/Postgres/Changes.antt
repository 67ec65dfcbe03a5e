-- ===== src/Diff/Postgres/Changes.antt =====
-- ddl/postgres_migration.go: the method sql, on one column that is altered.
use sqddl.Base.{
  ℕ, Bool, not, ◌&&◌, ◌||◌, List, [], ◌∷◌, ◌++◌, if◌then◌else◌, ltb, ◌==◌, Bytes, codes, text_eq,
}
use sqddl.Catalog.{Column, dialect_postgres}
use sqddl.Diff.Files.{add_block}
use sqddl.Diff.Steps.{triple_eq, collations_differ}
use sqddl.Helpers.ColumnTypes.{normalize_column_default}
use sqddl.Helpers.Literals.{is_literal}
use sqddl.Helpers.Numbers.{atoi, negative_atoi, go_quote}
use sqddl.Helpers.Versions.{lower_than}
use sqddl.Sql.Quote.{quote_identifier, escape_quote}
use sqddl.Writers.Pieces.{texts, when, newline, is_given, is_foreign}

-- A block that says ALTER TABLE ... ALTER COLUMN ..., and the warnings.
module _ (version : List ℕ) (default_collation table : Bytes) (old new : Column) where
  abbrev pub alter_column : List Bytes → Bytes → Bytes
  alter_column parts = add_block (
      texts (
        codes "ALTER TABLE "
        ∷ table
        ∷ codes " ALTER COLUMN "
        ∷ new.column_name
        ∷ texts parts
        ∷ codes ";"
        ∷ newline
        ∷ []))

  abbrev pub warning_of : List Bytes → List Bytes
  warning_of parts =
      texts (table ∷ codes ": column " ∷ go_quote new.column_name ∷ texts parts ∷ []) ∷ []

  abbrev pub from_to : Bytes → Bytes → List Bytes
  from_to what how =
      warning_of
        (what ∷ go_quote old.column_type ∷ codes " to " ∷ go_quote new.column_type ∷ how ∷ [])

  unfoldable pub limit_warning : ℕ → ℕ → List Bytes
  limit_warning from to =
      if ltb 0 from && (ltb 0 to && ltb to from)
      then from_to (codes " decreasing limit from ") (codes " is unsafe")
      else []

  -- a scale is what it is above 0 and what it is below
  unfoldable pub scale_warning : ℕ × ℕ → ℕ × ℕ → List Bytes
  scale_warning from to =
      if not (from.0 == to.0 && from.1 == to.1) && not (to.0 == 0 && to.1 == 0)
      then from_to (codes " changing scale from ") (codes " is unsafe")
      else []

  unfoldable pub precision_warning : ℕ → ℕ → List Bytes
  precision_warning from to =
      if ltb 0 from && (ltb 0 to && ltb to from)
      then from_to (codes " decreasing precision from ") (codes " is unsafe")
      else []

  abbrev pub are_types : Bytes → Bytes → Bytes × Bytes × Bytes → Bytes × Bytes × Bytes → Bool
  are_types a b from to = text_eq from.0 a && text_eq to.0 b

  unfoldable pub type_warning : Bytes × Bytes × Bytes → Bytes × Bytes × Bytes → List Bytes
  type_warning from to =
      if are_types (codes "CIDR") (codes "INET") from to
        || are_types (codes "VARCHAR") (codes "TEXT") from to
      then []
      else if are_types (codes "TEXT") (codes "VARCHAR") from to
      then (if is_given to.1
          then warning_of (
              codes " changing type from \"TEXT\" to "
              ∷ go_quote new.column_type
              ∷ codes " is unsafe"
              ∷ [])
          else [])
      else if are_types (codes "VARCHAR") (codes "VARCHAR") from to
      then limit_warning (atoi from.1) (atoi to.1)
      else if are_types (codes "NUMERIC") (codes "NUMERIC") from to
      then scale_warning (atoi from.2, negative_atoi from.2) (atoi to.2, negative_atoi to.2)
        ++ precision_warning (atoi from.1) (atoi to.1)
      else from_to (codes " changing type from ") (codes " may be unsafe")

  abbrev pub collate : Bytes
  collate = texts (codes " COLLATE \"" ∷ escape_quote new.collation_name b'"' ∷ codes "\"" ∷ [])

  unfoldable pub change_type : Bool → Bytes → Bytes
  change_type same buf =
      if not same
      then alter_column
          (codes " TYPE "
            ∷ new.column_type
            ∷ when (is_foreign new.collation_name default_collation) collate
            ∷ [])
          buf
      else if collations_differ default_collation old new
      then alter_column (codes " TYPE " ∷ new.column_type ∷ collate ∷ []) buf
      else buf

  -- by the normalized defaults
  unfoldable pub change_default : Bytes → Bytes → Bytes → Bytes
  change_default from to buf =
      if is_given from && not (is_given to)
      then alter_column (codes " DROP DEFAULT" ∷ []) buf
      else if (not (is_given from) && is_given to)
          || (is_literal from && (is_literal to && not (text_eq from to)))
      then alter_column (codes " SET DEFAULT " ∷ to ∷ []) buf
      else buf

  abbrev pub not_null_check : Bytes
  not_null_check =
      quote_identifier dialect_postgres
        (texts (new.table_name ∷ codes "_" ∷ new.column_name ∷ codes "_not_null_check" ∷ []))

  abbrev pub becomes_not_null : Bool
  becomes_not_null = not old.is_not_null && new.is_not_null

  unfoldable pub set_not_null : Bytes → Bytes
  set_not_null buf =
      if lower_than version (12 ∷ [])
      then alter_column (codes " SET NOT NULL" ∷ []) buf
      else add_block
          (texts (
            codes "ALTER TABLE "
            ∷ table
            ∷ codes " ADD CONSTRAINT "
            ∷ not_null_check
            ∷ codes " CHECK ("
            ∷ new.column_name
            ∷ codes " IS NOT NULL) NOT VALID;"
            ∷ newline
            ∷ []))
          buf

  unfoldable pub change_not_null : Bytes → Bytes
  change_not_null buf =
      if old.is_not_null && not new.is_not_null
      then alter_column (codes " DROP NOT NULL" ∷ []) buf
      else if becomes_not_null
      then set_not_null buf
      else buf

  unfoldable pub not_null_warning : List Bytes
  not_null_warning =
      if becomes_not_null && lower_than version (12 ∷ [])
      then texts (
          table
          ∷ codes ": setting NOT NULL on column "
          ∷ go_quote new.column_name
          ∷ codes " is unsafe for large tables. Upgrade to Postgres 12+ to avoid this issue"
          ∷ [])
        ∷ []
      else []

  unfoldable pub change_identity : Bytes → Bytes
  change_identity buf =
      if is_given old.column_identity && not (is_given new.column_identity)
      then alter_column (codes " DROP IDENTITY" ∷ []) buf
      else if not (is_given old.column_identity) && is_given new.column_identity
      then alter_column (codes " ADD " ∷ new.column_identity ∷ []) buf
      else buf

  -- the whole of it, by the normalized types
  unfoldable pub change_column : Bytes × Bytes × Bytes → Bytes × Bytes × Bytes → Bytes → Bytes
  change_column from to buf = change_identity (
      change_not_null (
        change_default (normalize_column_default dialect_postgres old.column_default)
          (normalize_column_default dialect_postgres new.column_default)
          (change_type (triple_eq from to) buf)))

  unfoldable pub change_warnings : Bytes × Bytes × Bytes → Bytes × Bytes × Bytes → List Bytes
  change_warnings from to =
      (if triple_eq from to then [] else type_warning from to) ++ not_null_warning
