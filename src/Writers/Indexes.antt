-- ===== src/Writers/Indexes.antt =====
-- ddl/dump_cmd.go: writeIndexDefinition and writeCreateIndex.
use sqddl.Base.{
  Bool, true, false, not, ◌&&◌, ◌||◌, List, [], ◌∷◌, ◌++◌, if◌then◌else◌, Bytes, codes, text_eq,
  has_prefix, drop_prefix,
}
use sqddl.Catalog.{Index, dialect_sqlite, dialect_postgres, dialect_mysql, dialect_sqlserver}
use sqddl.Helpers.Brackets.{wrapped_in_brackets, equal_fold}
use sqddl.Sql.Quote.{quote_identifier}
use sqddl.Writers.Pieces.{texts, when, is_given, qualified, newline, write_column_names}

-- the second test reads the name of the index where the first reads its type
unfoldable pub is_fulltext_or_spatial : Bytes → Index → Bool
is_fulltext_or_spatial dialect x =
    text_eq dialect dialect_mysql
    && (equal_fold x.index_type (codes "FULLTEXT") || equal_fold x.index_name (codes "SPATIAL"))

abbrev pub first_flag : List Bool → Bool
first_flag [] = false
first_flag (b ∷ bs) = b

abbrev pub other_flags : List Bool → List Bool
other_flags [] = []
other_flags (b ∷ bs) = bs

-- the loop over the columns; `comma` stands in front of all but the first
unfoldable pub write_index_columns : Bytes → Bytes → List Bytes → List Bool → Bytes
write_index_columns dialect comma [] descending = []
write_index_columns dialect comma (c ∷ columns) descending = texts (
    comma
    ∷ (if wrapped_in_brackets c then c else quote_identifier dialect c)
    ∷ when (first_flag descending) (codes " DESC")
    ∷ write_index_columns dialect (codes ", ") columns (other_flags descending)
    ∷ [])

unfoldable pub write_index_kind : Bytes → Index → Bytes
write_index_kind dialect x =
    if x.is_unique
    then codes "UNIQUE "
    else when (is_fulltext_or_spatial dialect x) (x.index_type ++ codes " ")

-- the access method where MySQL has it, behind the name, and where Postgres has it
unfoldable pub write_mysql_method : Bytes → Index → Bool → Bytes
write_mysql_method dialect x inline =
    when
      (is_given x.index_type
        && (text_eq dialect dialect_mysql
            && (not (equal_fold x.index_type (codes "BTREE"))
                && not (is_fulltext_or_spatial dialect x))))
      (texts (when (not inline) (codes " USING") ∷ codes " " ∷ x.index_type ∷ []))

unfoldable pub write_postgres_method : Bytes → Index → Bytes
write_postgres_method dialect x =
    when
      (is_given x.index_type
        && (text_eq dialect dialect_postgres && not (equal_fold x.index_type (codes "BTREE"))))
      (codes " USING " ++ x.index_type)

abbrev pub has_columns : List Bytes → Bool
has_columns [] = false
has_columns (c ∷ cs) = true

unfoldable pub write_index_definition : Bytes → Bytes → Index → Bool → Bool → Bytes
write_index_definition dialect current x concurrently inline = texts (
    write_index_kind dialect x
    ∷ codes "INDEX "
    ∷ when (concurrently && text_eq dialect dialect_postgres) (codes "CONCURRENTLY ")
    ∷ quote_identifier dialect x.index_name
    ∷ write_mysql_method dialect x inline
    ∷ when (not inline) (codes " ON " ++ qualified dialect current x.table_schema x.table_name)
    ∷ write_postgres_method dialect x
    ∷ codes " ("
    ∷ write_index_columns dialect [] x.columns x.descending
    ∷ codes ")"
    ∷ when
        (has_columns x.include_columns
          && (text_eq dialect dialect_postgres || text_eq dialect dialect_sqlserver))
        (texts (codes " INCLUDE (" ∷ write_column_names dialect x.include_columns ∷ codes ")" ∷ []))
    ∷ when
        (is_given x.predicate
          && (text_eq dialect dialect_sqlite
              || (text_eq dialect dialect_postgres || text_eq dialect dialect_sqlserver)))
        (codes " WHERE " ++ x.predicate)
    ∷ [])

-- strings.Replace(s, old, new, 1), for an `old` that is not empty
unfoldable pub replace_first : Bytes → Bytes → Bytes → Bytes
replace_first old new [] = []
replace_first old new (c ∷ s) =
    if has_prefix (c ∷ s) old then new ++ drop_prefix (c ∷ s) old else c ∷ replace_first old new s

-- the SQL of an index that has some, with CONCURRENTLY put in
unfoldable pub given_index_sql : Bytes → Index → Bool → Bytes
given_index_sql dialect x concurrently =
    let name = quote_identifier dialect x.index_name in
    if concurrently && text_eq dialect dialect_postgres
    then replace_first (codes "CREATE INDEX " ++ name) (codes "CREATE INDEX CONCURRENTLY " ++ name)
        x.sql
    else x.sql

unfoldable pub write_create_index : Bytes → Bytes → Index → Bool → Bytes
write_create_index dialect current x concurrently =
    if is_given x.sql
    then given_index_sql dialect x concurrently ++ newline
    else texts (
        codes "CREATE "
        ∷ write_index_definition dialect current x concurrently false
        ∷ codes ";"
        ∷ newline
        ∷ [])
