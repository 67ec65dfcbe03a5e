-- ===== src/Sql/Keywords/Sqlite.antt =====
-- ddl/sq.go: the words that QuoteIdentifier quotes for dialect sqlite.
use sqddl.Base.{List, [], ◌∷◌, Bytes, codes}

abbrev pub sqlite_keywords : List Bytes
sqlite_keywords =
    codes "abort"
    ∷ codes "action"
    ∷ codes "add"
    ∷ codes "after"
    ∷ codes "all"
    ∷ codes "alter"
    ∷ codes "always"
    ∷ codes "analyze"
    ∷ codes "and"
    ∷ codes "as"
    ∷ codes "asc"
    ∷ codes "attach"
    ∷ codes "autoincrement"
    ∷ codes "before"
    ∷ codes "begin"
    ∷ codes "between"
    ∷ codes "by"
    ∷ codes "cascade"
    ∷ codes "case"
    ∷ codes "cast"
    ∷ codes "check"
    ∷ codes "collate"
    ∷ codes "column"
    ∷ codes "commit"
    ∷ codes "conflict"
    ∷ codes "constraint"
    ∷ codes "create"
    ∷ codes "cross"
    ∷ codes "current"
    ∷ codes "current_date"
    ∷ codes "current_time"
    ∷ codes "current_timestamp"
    ∷ codes "database"
    ∷ codes "default"
    ∷ codes "deferrable"
    ∷ codes "deferred"
    ∷ codes "delete"
    ∷ codes "desc"
    ∷ codes "detach"
    ∷ codes "distinct"
    ∷ codes "do"
    ∷ codes "drop"
    ∷ codes "each"
    ∷ codes "else"
    ∷ codes "end"
    ∷ codes "escape"
    ∷ codes "except"
    ∷ codes "exclude"
    ∷ codes "exclusive"
    ∷ codes "exists"
    ∷ codes "explain"
    ∷ codes "fail"
    ∷ codes "filter"
    ∷ codes "first"
    ∷ codes "following"
    ∷ codes "for"
    ∷ codes "foreign"
    ∷ codes "from"
    ∷ codes "full"
    ∷ codes "generated"
    ∷ codes "glob"
    ∷ codes "group"
    ∷ codes "groups"
    ∷ codes "having"
    ∷ codes "if"
    ∷ codes "ignore"
    ∷ codes "immediate"
    ∷ codes "in"
    ∷ codes "index"
    ∷ codes "indexed"
    ∷ codes "initially"
    ∷ codes "inner"
    ∷ codes "insert"
    ∷ codes "instead"
    ∷ codes "intersect"
    ∷ codes "into"
    ∷ codes "is"
    ∷ codes "isnull"
    ∷ codes "join"
    ∷ codes "key"
    ∷ codes "last"
    ∷ codes "left"
    ∷ codes "like"
    ∷ codes "limit"
    ∷ codes "match"
    ∷ codes "materialized"
    ∷ codes "natural"
    ∷ codes "no"
    ∷ codes "not"
    ∷ codes "nothing"
    ∷ codes "notnull"
    ∷ codes "null"
    ∷ codes "nulls"
    ∷ codes "of"
    ∷ codes "offset"
    ∷ codes "on"
    ∷ codes "or"
    ∷ codes "order"
    ∷ codes "others"
    ∷ codes "outer"
    ∷ codes "over"
    ∷ codes "partition"
    ∷ codes "plan"
    ∷ codes "pragma"
    ∷ codes "preceding"
    ∷ codes "primary"
    ∷ codes "query"
    ∷ codes "raise"
    ∷ codes "range"
    ∷ codes "recursive"
    ∷ codes "references"
    ∷ codes "regexp"
    ∷ codes "reindex"
    ∷ codes "release"
    ∷ codes "rename"
    ∷ codes "replace"
    ∷ codes "restrict"
    ∷ codes "returning"
    ∷ codes "right"
    ∷ codes "rollback"
    ∷ codes "row"
    ∷ codes "rows"
    ∷ codes "savepoint"
    ∷ codes "select"
    ∷ codes "set"
    ∷ codes "table"
    ∷ codes "temp"
    ∷ codes "temporary"
    ∷ codes "then"
    ∷ codes "ties"
    ∷ codes "to"
    ∷ codes "transaction"
    ∷ codes "trigger"
    ∷ codes "unbounded"
    ∷ codes "union"
    ∷ codes "unique"
    ∷ codes "update"
    ∷ codes "using"
    ∷ codes "vacuum"
    ∷ codes "values"
    ∷ codes "view"
    ∷ codes "virtual"
    ∷ codes "when"
    ∷ codes "where"
    ∷ codes "window"
    ∷ codes "with"
    ∷ codes "without"
    ∷ []
