-- ===== src/Sql/Keywords/Postgres.antt =====
-- ddl/sq.go: the words that QuoteIdentifier quotes for dialect postgres.
use sqddl.Base.{List, [], ◌∷◌, Bytes, codes}

abbrev pub postgres_keywords : List Bytes
postgres_keywords =
    codes "all"
    ∷ codes "analyse"
    ∷ codes "analyze"
    ∷ codes "and"
    ∷ codes "any"
    ∷ codes "array"
    ∷ codes "as"
    ∷ codes "asc"
    ∷ codes "asymmetric"
    ∷ codes "authorization"
    ∷ codes "binary"
    ∷ codes "both"
    ∷ codes "case"
    ∷ codes "cast"
    ∷ codes "check"
    ∷ codes "collate"
    ∷ codes "collation"
    ∷ codes "column"
    ∷ codes "concurrently"
    ∷ codes "constraint"
    ∷ codes "create"
    ∷ codes "cross"
    ∷ codes "current_catalog"
    ∷ codes "current_date"
    ∷ codes "current_role"
    ∷ codes "current_schema"
    ∷ codes "current_time"
    ∷ codes "current_timestamp"
    ∷ codes "current_user"
    ∷ codes "default"
    ∷ codes "deferrable"
    ∷ codes "desc"
    ∷ codes "distinct"
    ∷ codes "do"
    ∷ codes "else"
    ∷ codes "end"
    ∷ codes "except"
    ∷ codes "false"
    ∷ codes "fetch"
    ∷ codes "for"
    ∷ codes "foreign"
    ∷ codes "freeze"
    ∷ codes "from"
    ∷ codes "full"
    ∷ codes "grant"
    ∷ codes "group"
    ∷ codes "having"
    ∷ codes "ilike"
    ∷ codes "in"
    ∷ codes "initially"
    ∷ codes "inner"
    ∷ codes "intersect"
    ∷ codes "into"
    ∷ codes "is"
    ∷ codes "isnull"
    ∷ codes "join"
    ∷ codes "lateral"
    ∷ codes "leading"
    ∷ codes "left"
    ∷ codes "like"
    ∷ codes "limit"
    ∷ codes "localtime"
    ∷ codes "localtimestamp"
    ∷ codes "natural"
    ∷ codes "not"
    ∷ codes "notnull"
    ∷ codes "null"
    ∷ codes "offset"
    ∷ codes "on"
    ∷ codes "only"
    ∷ codes "or"
    ∷ codes "order"
    ∷ codes "outer"
    ∷ codes "overlaps"
    ∷ codes "placing"
    ∷ codes "primary"
    ∷ codes "references"
    ∷ codes "returning"
    ∷ codes "right"
    ∷ codes "select"
    ∷ codes "session_user"
    ∷ codes "similar"
    ∷ codes "some"
    ∷ codes "symmetric"
    ∷ codes "table"
    ∷ codes "tablesample"
    ∷ codes "then"
    ∷ codes "to"
    ∷ codes "trailing"
    ∷ codes "true"
    ∷ codes "union"
    ∷ codes "unique"
    ∷ codes "user"
    ∷ codes "using"
    ∷ codes "variadic"
    ∷ codes "verbose"
    ∷ codes "when"
    ∷ codes "where"
    ∷ codes "window"
    ∷ codes "with"
    ∷ []
