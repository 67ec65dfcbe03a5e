-- ===== src/Sql/Keywords/Mysql.antt =====
-- ddl/sq.go: the words that QuoteIdentifier quotes for dialect mysql.
use sqddl.Base.{List, [], ◌∷◌, Bytes, codes}

abbrev pub mysql_keywords : List Bytes
mysql_keywords =
    codes "accessible"
    ∷ codes "add"
    ∷ codes "all"
    ∷ codes "alter"
    ∷ codes "analyze"
    ∷ codes "and"
    ∷ codes "as"
    ∷ codes "asc"
    ∷ codes "asensitive"
    ∷ codes "before"
    ∷ codes "between"
    ∷ codes "bigint"
    ∷ codes "binary"
    ∷ codes "blob"
    ∷ codes "both"
    ∷ codes "by"
    ∷ codes "call"
    ∷ codes "cascade"
    ∷ codes "case"
    ∷ codes "change"
    ∷ codes "char"
    ∷ codes "character"
    ∷ codes "check"
    ∷ codes "collate"
    ∷ codes "column"
    ∷ codes "condition"
    ∷ codes "constraint"
    ∷ codes "continue"
    ∷ codes "convert"
    ∷ codes "create"
    ∷ codes "cross"
    ∷ codes "cube"
    ∷ codes "cume_dist"
    ∷ codes "current_date"
    ∷ codes "current_time"
    ∷ codes "current_timestamp"
    ∷ codes "current_user"
    ∷ codes "cursor"
    ∷ codes "database"
    ∷ codes "databases"
    ∷ codes "day_hour"
    ∷ codes "day_microsecond"
    ∷ codes "day_minute"
    ∷ codes "day_second"
    ∷ codes "dec"
    ∷ codes "decimal"
    ∷ codes "declare"
    ∷ codes "default"
    ∷ codes "delayed"
    ∷ codes "delete"
    ∷ codes "dense_rank"
    ∷ codes "desc"
    ∷ codes "describe"
    ∷ codes "deterministic"
    ∷ codes "distinct"
    ∷ codes "distinctrow"
    ∷ codes "div"
    ∷ codes "double"
    ∷ codes "drop"
    ∷ codes "dual"
    ∷ codes "each"
    ∷ codes "else"
    ∷ codes "elseif"
    ∷ codes "empty"
    ∷ codes "enclosed"
    ∷ codes "escaped"
    ∷ codes "except"
    ∷ codes "exists"
    ∷ codes "exit"
    ∷ codes "explain"
    ∷ codes "false"
    ∷ codes "fetch"
    ∷ codes "first_value"
    ∷ codes "float"
    ∷ codes "float4"
    ∷ codes "float8"
    ∷ codes "for"
    ∷ codes "force"
    ∷ codes "foreign"
    ∷ codes "from"
    ∷ codes "fulltext"
    ∷ codes "function"
    ∷ codes "generated"
    ∷ codes "get"
    ∷ codes "grant"
    ∷ codes "group"
    ∷ codes "grouping"
    ∷ codes "groups"
    ∷ codes "having"
    ∷ codes "high_priority"
    ∷ codes "hour_microsecond"
    ∷ codes "hour_minute"
    ∷ codes "hour_second"
    ∷ codes "if"
    ∷ codes "ignore"
    ∷ codes "in"
    ∷ codes "index"
    ∷ codes "infile"
    ∷ codes "inner"
    ∷ codes "inout"
    ∷ codes "insensitive"
    ∷ codes "insert"
    ∷ codes "int"
    ∷ codes "int1"
    ∷ codes "int2"
    ∷ codes "int3"
    ∷ codes "int4"
    ∷ codes "int8"
    ∷ codes "integer"
    ∷ codes "intersect"
    ∷ codes "interval"
    ∷ codes "into"
    ∷ codes "io_after_gtids"
    ∷ codes "io_before_gtids"
    ∷ codes "is"
    ∷ codes "iterate"
    ∷ codes "join"
    ∷ codes "json_table"
    ∷ codes "key"
    ∷ codes "keys"
    ∷ codes "kill"
    ∷ codes "lag"
    ∷ codes "last_value"
    ∷ codes "lateral"
    ∷ codes "lead"
    ∷ codes "leading"
    ∷ codes "leave"
    ∷ codes "left"
    ∷ codes "like"
    ∷ codes "limit"
    ∷ codes "linear"
    ∷ codes "lines"
    ∷ codes "load"
    ∷ codes "localtime"
    ∷ codes "localtimestamp"
    ∷ codes "lock"
    ∷ codes "long"
    ∷ codes "longblob"
    ∷ codes "longtext"
    ∷ codes "loop"
    ∷ codes "low_priority"
    ∷ codes "master_bind"
    ∷ codes "master_ssl_verify_server_cert"
    ∷ codes "match"
    ∷ codes "maxvalue"
    ∷ codes "mediumblob"
    ∷ codes "mediumint"
    ∷ codes "mediumtext"
    ∷ codes "middleint"
    ∷ codes "minute_microsecond"
    ∷ codes "minute_second"
    ∷ codes "mod"
    ∷ codes "modifies"
    ∷ codes "natural"
    ∷ codes "not"
    ∷ codes "no_write_to_binlog"
    ∷ codes "nth_value"
    ∷ codes "ntile"
    ∷ codes "null"
    ∷ codes "numeric"
    ∷ codes "of"
    ∷ codes "on"
    ∷ codes "optimize"
    ∷ codes "optimizer_costs"
    ∷ codes "option"
    ∷ codes "optionally"
    ∷ codes "or"
    ∷ codes "order"
    ∷ codes "out"
    ∷ codes "outer"
    ∷ codes "outfile"
    ∷ codes "over"
    ∷ codes "partition"
    ∷ codes "percent_rank"
    ∷ codes "precision"
    ∷ codes "primary"
    ∷ codes "procedure"
    ∷ codes "purge"
    ∷ codes "range"
    ∷ codes "rank"
    ∷ codes "read"
    ∷ codes "reads"
    ∷ codes "read_write"
    ∷ codes "real"
    ∷ codes "recursive"
    ∷ codes "references"
    ∷ codes "regexp"
    ∷ codes "release"
    ∷ codes "rename"
    ∷ codes "repeat"
    ∷ codes "replace"
    ∷ codes "require"
    ∷ codes "resignal"
    ∷ codes "restrict"
    ∷ codes "return"
    ∷ codes "revoke"
    ∷ codes "right"
    ∷ codes "rlike"
    ∷ codes "row"
    ∷ codes "rows"
    ∷ codes "row_number"
    ∷ codes "schema"
    ∷ codes "schemas"
    ∷ codes "second_microsecond"
    ∷ codes "select"
    ∷ codes "sensitive"
    ∷ codes "separator"
    ∷ codes "set"
    ∷ codes "show"
    ∷ codes "signal"
    ∷ codes "smallint"
    ∷ codes "spatial"
    ∷ codes "specific"
    ∷ codes "sql"
    ∷ codes "sqlexception"
    ∷ codes "sqlstate"
    ∷ codes "sqlwarning"
    ∷ codes "sql_big_result"
    ∷ codes "sql_calc_found_rows"
    ∷ codes "sql_small_result"
    ∷ codes "ssl"
    ∷ codes "starting"
    ∷ codes "stored"
    ∷ codes "straight_join"
    ∷ codes "system"
    ∷ codes "table"
    ∷ codes "terminated"
    ∷ codes "then"
    ∷ codes "tinyblob"
    ∷ codes "tinyint"
    ∷ codes "tinytext"
    ∷ codes "to"
    ∷ codes "trailing"
    ∷ codes "trigger"
    ∷ codes "true"
    ∷ codes "undo"
    ∷ codes "union"
    ∷ codes "unique"
    ∷ codes "unlock"
    ∷ codes "unsigned"
    ∷ codes "update"
    ∷ codes "usage"
    ∷ codes "use"
    ∷ codes "using"
    ∷ codes "utc_date"
    ∷ codes "utc_time"
    ∷ codes "utc_timestamp"
    ∷ codes "values"
    ∷ codes "varbinary"
    ∷ codes "varchar"
    ∷ codes "varcharacter"
    ∷ codes "varying"
    ∷ codes "virtual"
    ∷ codes "when"
    ∷ codes "where"
    ∷ codes "while"
    ∷ codes "window"
    ∷ codes "with"
    ∷ codes "write"
    ∷ codes "xor"
    ∷ codes "year_month"
    ∷ codes "zerofill"
    ∷ []
