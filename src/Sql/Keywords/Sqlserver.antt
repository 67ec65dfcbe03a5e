-- ===== src/Sql/Keywords/Sqlserver.antt =====
-- ddl/sq.go: the words that QuoteIdentifier quotes for dialect sqlserver.
use sqddl.Base.{List, [], ◌∷◌, Bytes, codes}

abbrev pub sqlserver_keywords : List Bytes
sqlserver_keywords =
    codes "add"
    ∷ codes "external"
    ∷ codes "procedure"
    ∷ codes "all"
    ∷ codes "fetch"
    ∷ codes "public"
    ∷ codes "alter"
    ∷ codes "file"
    ∷ codes "raiserror"
    ∷ codes "and"
    ∷ codes "fillfactor"
    ∷ codes "read"
    ∷ codes "any"
    ∷ codes "for"
    ∷ codes "readtext"
    ∷ codes "as"
    ∷ codes "foreign"
    ∷ codes "reconfigure"
    ∷ codes "asc"
    ∷ codes "freetext"
    ∷ codes "references"
    ∷ codes "authorization"
    ∷ codes "freetexttable"
    ∷ codes "replication"
    ∷ codes "backup"
    ∷ codes "from"
    ∷ codes "restore"
    ∷ codes "begin"
    ∷ codes "full"
    ∷ codes "restrict"
    ∷ codes "between"
    ∷ codes "function"
    ∷ codes "return"
    ∷ codes "break"
    ∷ codes "goto"
    ∷ codes "revert"
    ∷ codes "browse"
    ∷ codes "grant"
    ∷ codes "revoke"
    ∷ codes "bulk"
    ∷ codes "group"
    ∷ codes "right"
    ∷ codes "by"
    ∷ codes "having"
    ∷ codes "rollback"
    ∷ codes "cascade"
    ∷ codes "holdlock"
    ∷ codes "rowcount"
    ∷ codes "case"
    ∷ codes "identity"
    ∷ codes "rowguidcol"
    ∷ codes "check"
    ∷ codes "identity_insert"
    ∷ codes "rule"
    ∷ codes "checkpoint"
    ∷ codes "identitycol"
    ∷ codes "save"
    ∷ codes "close"
    ∷ codes "if"
    ∷ codes "schema"
    ∷ codes "clustered"
    ∷ codes "in"
    ∷ codes "securityaudit"
    ∷ codes "coalesce"
    ∷ codes "index"
    ∷ codes "select"
    ∷ codes "collate"
    ∷ codes "inner"
    ∷ codes "semantickeyphrasetable"
    ∷ codes "column"
    ∷ codes "insert"
    ∷ codes "semanticsimilaritydetailstable"
    ∷ codes "commit"
    ∷ codes "intersect"
    ∷ codes "semanticsimilaritytable"
    ∷ codes "compute"
    ∷ codes "into"
    ∷ codes "session_user"
    ∷ codes "constraint"
    ∷ codes "is"
    ∷ codes "set"
    ∷ codes "contains"
    ∷ codes "join"
    ∷ codes "setuser"
    ∷ codes "containstable"
    ∷ codes "key"
    ∷ codes "shutdown"
    ∷ codes "continue"
    ∷ codes "kill"
    ∷ codes "some"
    ∷ codes "convert"
    ∷ codes "left"
    ∷ codes "statistics"
    ∷ codes "create"
    ∷ codes "like"
    ∷ codes "system_user"
    ∷ codes "cross"
    ∷ codes "lineno"
    ∷ codes "table"
    ∷ codes "current"
    ∷ codes "load"
    ∷ codes "tablesample"
    ∷ codes "current_date"
    ∷ codes "merge"
    ∷ codes "textsize"
    ∷ codes "current_time"
    ∷ codes "national"
    ∷ codes "then"
    ∷ codes "current_timestamp"
    ∷ codes "nocheck"
    ∷ codes "to"
    ∷ codes "current_user"
    ∷ codes "nonclustered"
    ∷ codes "top"
    ∷ codes "cursor"
    ∷ codes "not"
    ∷ codes "tran"
    ∷ codes "database"
    ∷ codes "null"
    ∷ codes "transaction"
    ∷ codes "dbcc"
    ∷ codes "nullif"
    ∷ codes "trigger"
    ∷ codes "deallocate"
    ∷ codes "of"
    ∷ codes "truncate"
    ∷ codes "declare"
    ∷ codes "off"
    ∷ codes "try_convert"
    ∷ codes "default"
    ∷ codes "offsets"
    ∷ codes "tsequal"
    ∷ codes "delete"
    ∷ codes "on"
    ∷ codes "union"
    ∷ codes "deny"
    ∷ codes "open"
    ∷ codes "unique"
    ∷ codes "desc"
    ∷ codes "opendatasource"
    ∷ codes "unpivot"
    ∷ codes "disk"
    ∷ codes "openquery"
    ∷ codes "update"
    ∷ codes "distinct"
    ∷ codes "openrowset"
    ∷ codes "updatetext"
    ∷ codes "distributed"
    ∷ codes "openxml"
    ∷ codes "use"
    ∷ codes "double"
    ∷ codes "option"
    ∷ codes "user"
    ∷ codes "drop"
    ∷ codes "or"
    ∷ codes "values"
    ∷ codes "dump"
    ∷ codes "order"
    ∷ codes "varying"
    ∷ codes "else"
    ∷ codes "outer"
    ∷ codes "view"
    ∷ codes "end"
    ∷ codes "over"
    ∷ codes "waitfor"
    ∷ codes "errlvl"
    ∷ codes "percent"
    ∷ codes "when"
    ∷ codes "escape"
    ∷ codes "pivot"
    ∷ codes "where"
    ∷ codes "except"
    ∷ codes "plan"
    ∷ codes "while"
    ∷ codes "exec"
    ∷ codes "precision"
    ∷ codes "with"
    ∷ codes "execute"
    ∷ codes "primary"
    ∷ codes "within group"
    ∷ codes "exists"
    ∷ codes "print"
    ∷ codes "writetext"
    ∷ codes "exit"
    ∷ codes "proc"
    ∷ []
