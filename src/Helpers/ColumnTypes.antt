-- ===== src/Helpers/ColumnTypes.antt =====
-- ddl/ddl.go: normalizeColumnType and normalizeColumnDefault, on ASCII.
use sqddl.Base.{
  ℕ, Bool, not, ◌&&◌, ◌||◌, [], ◌∷◌, ◌++◌, Option, none, some, if◌then◌else◌, ◌==◌, Bytes, codes,
  text_eq, contains, span, has_prefix, has_suffix, trim_suffix, trim_space,
}
use sqddl.Cache.Slots.{Outcome, ret, panic}
use sqddl.Catalog.{dialect_sqlite, dialect_postgres, dialect_mysql, dialect_sqlserver}
use sqddl.Helpers.Brackets.{to_upper}
use sqddl.Sql.Quote.{is_among}

-- normalizedType, arg1, arg2, and the suffix behind the brackets
pub record ColumnType : Type 0 where
  pub name : Bytes
  pub arg1 : Bytes
  pub arg2 : Bytes
  pub suffix : Bytes

abbrev pub keep_first : ℕ → Option (Bytes × Bytes) → Bytes → Bool → Option (Bytes × Bytes)
keep_first c (some (before, behind)) s found = some (c ∷ before, behind)
keep_first c none s found = if found then some ([], s) else none

-- what stands in front of the last `b` and behind it
unfoldable pub cut_last : ℕ → Bytes → Option (Bytes × Bytes)
cut_last b [] = none
cut_last b (c ∷ s) = keep_first c (cut_last b s) s (c == b)

-- strings.ReplaceAll(s, " ", "")
unfoldable pub without_spaces : Bytes → Bytes
without_spaces [] = []
without_spaces (c ∷ s) = if c == b' ' then without_spaces s else c ∷ without_spaces s

-- the text behind the byte that `span` stopped at, if there is one
abbrev pub behind_stop : Bytes → Option Bytes
behind_stop [] = none
behind_stop (c ∷ s) = some s

abbrev pub bare_type : Bytes → ColumnType
bare_type s = record { name = s; arg1 = []; arg2 = []; suffix = [] }

unfoldable pub split_type_args : Bytes → Bytes → Bytes → ColumnType
split_type_args name args suffix =
    let (first, rest) = span (λ c. not (c == b',')) args in
    elim (behind_stop rest) [
      | none ↦ record { name = name; arg1 = trim_space args; arg2 = []; suffix = suffix }
      | some second ↦ record {
        name = name;
        arg1 = trim_space first;
        arg2 = trim_space second;
        suffix = suffix;
      }
    ]

unfoldable pub close_type : Bytes → Bytes → Option (Bytes × Bytes) → ColumnType
close_type s before none = bare_type s
close_type s before (some (args, suffix)) =
    split_type_args (trim_space before) (trim_space args) (trim_space suffix)

-- The text of the type is split at its first and last bracket. A closing one alone makes `j > i`
-- with i = -1, and columnType[:i] panics.
unfoldable pub open_type : Bytes → Bytes → Option Bytes → Outcome ColumnType
open_type s before none = if contains b')' s then panic else ret (bare_type s)
open_type s before (some behind) = ret (close_type s before (cut_last b')' behind))

unfoldable pub split_type : Bytes → Outcome ColumnType
split_type s =
    let (before, rest) = span (λ c. not (c == b'(')) s in open_type s before (behind_stop rest)

abbrev pub with_name : ColumnType → Bytes → ColumnType
with_name t name = record t { name = name }

abbrev pub has_time_zone : ColumnType → Bool
has_time_zone t = text_eq (without_spaces t.suffix) (codes "WITHTIMEZONE")

unfoldable pub postgres_type : ColumnType → Bytes
postgres_type t =
    let word = without_spaces t.name in
    if is_among (codes "INTEGER" ∷ codes "SERIAL" ∷ codes "SERIAL4" ∷ codes "INT4" ∷ []) word
    then codes "INT"
    else if is_among (codes "BIGSERIAL" ∷ codes "SERIAL8" ∷ codes "INT8" ∷ []) word
    then codes "BIGINT"
    else if is_among (codes "SMALLSERIAL" ∷ codes "SERIAL2" ∷ codes "INT2" ∷ []) word
    then codes "SMALLINT"
    else if text_eq word (codes "DECIMAL")
    then codes "NUMERIC"
    else if text_eq word (codes "FLOAT4")
    then codes "REAL"
    else if text_eq word (codes "FLOAT8")
    then codes "DOUBLE PRECISION"
    else if text_eq word (codes "CHARACTERVARYING")
    then codes "VARCHAR"
    else if text_eq word (codes "CHARACTER")
    then codes "CHAR"
    else if text_eq word (codes "TIMESTAMPWITHOUTTIMEZONE")
    then codes "TIMESTAMP"
    else if text_eq word (codes "TIMESTAMPWITHTIMEZONE")
    then codes "TIMESTAMPTZ"
    else if text_eq word (codes "TIMESTAMP")
    then (if has_time_zone t then codes "TIMESTAMPTZ" else t.name)
    else if text_eq word (codes "TIMEWITHOUTTIMEZONE")
    then codes "TIME"
    else if text_eq word (codes "TIMEWITHTIMEZONE")
    then codes "TIMETZ"
    else if text_eq word (codes "TIME")
    then (if has_time_zone t then codes "TIMETZ" else t.name)
    else if text_eq word (codes "BITVARYING")
    then codes "VARBIT"
    else if text_eq word (codes "BOOL")
    then codes "BOOLEAN"
    else t.name

unfoldable pub mysql_type : ColumnType → ColumnType
mysql_type t =
    let word = without_spaces t.name in
    if text_eq word (codes "INTEGER")
    then record t { name = codes "INT"; arg1 = []; arg2 = [] }
    else if is_among (codes "DEC" ∷ codes "DECIMAL" ∷ []) word
    then with_name t (codes "NUMERIC")
    else if is_among (codes "BOOL" ∷ codes "BOOLEAN" ∷ []) word
    then record t { name = codes "TINYINT"; arg1 = codes "1"; arg2 = [] }
    else if text_eq word (codes "TINYINT")
    then record t { arg1 = if text_eq t.arg1 (codes "1") then t.arg1 else []; arg2 = [] }
    else if is_among (codes "SMALLINT" ∷ codes "MEDIUMINT" ∷ codes "INT" ∷ codes "BIGINT" ∷ []) word
    then record t { arg1 = []; arg2 = [] }
    else t

abbrev pub unsigned : ColumnType → ColumnType
unsigned t = with_name t (t.name ++ codes " UNSIGNED")

unfoldable pub mysql_signed : ColumnType → ColumnType
mysql_signed t =
    if has_suffix t.name (codes " UNSIGNED")
    then unsigned (mysql_type (with_name t (trim_suffix t.name (codes " UNSIGNED"))))
    else mysql_type (with_name t (trim_suffix t.name (codes " SIGNED")))

unfoldable pub sqlserver_type : ColumnType → Bytes
sqlserver_type t =
    let word = without_spaces t.name in
    if text_eq word (codes "BINARYVARYING")
    then codes "VARBINARY"
    else if text_eq word (codes "INTEGER")
    then codes "INT"
    else if text_eq word (codes "NATIONALCHARACTERVARYING")
    then codes "NVARCHAR"
    else if text_eq word (codes "CHARACTERVARYING")
    then codes "VARCHAR"
    else if text_eq word (codes "CHARACTER")
    then codes "CHAR"
    else if is_among (codes "DEC" ∷ codes "DECIMAL" ∷ []) word
    then codes "NUMERIC"
    else t.name

unfoldable pub dialect_type : Bytes → ColumnType → ColumnType
dialect_type dialect t =
    if text_eq dialect dialect_postgres
    then with_name t (
        if has_suffix t.name (codes "[]")
        then postgres_type (with_name t (trim_suffix t.name (codes "[]"))) ++ codes "[]"
        else postgres_type t)
    else if text_eq dialect dialect_mysql
    then mysql_signed t
    else if text_eq dialect dialect_sqlserver
    then with_name t (sqlserver_type t)
    else t

abbrev pub type_triple : ColumnType → Bytes × Bytes × Bytes
type_triple t = (t.name, t.arg1, t.arg2)

abbrev pub finish_type : Bytes → Outcome ColumnType → Outcome (Bytes × Bytes × Bytes)
finish_type dialect panic = panic
finish_type dialect (ret t) = ret (type_triple (dialect_type dialect t))

unfoldable pub normalize_column_type : Bytes → Bytes → Outcome (Bytes × Bytes × Bytes)
normalize_column_type dialect type = finish_type dialect (split_type (to_upper (trim_space type)))

-- strings.Cut(s, "::"), what stands in front
unfoldable pub before_cast : Bytes → Bytes
before_cast [] = []
before_cast (c ∷ s) = if has_prefix (c ∷ s) (codes "::") then [] else c ∷ before_cast s

-- the default of a dialect that stands for CURRENT_TIMESTAMP
unfoldable pub is_now : Bytes → Bytes → Bool
is_now dialect upper =
    if text_eq dialect dialect_sqlite
    then is_among (codes "DATETIME()" ∷ codes "DATETIME('NOW')" ∷ []) upper
    else if text_eq dialect dialect_postgres || text_eq dialect dialect_mysql
    then text_eq upper (codes "NOW()")
    else text_eq dialect dialect_sqlserver && text_eq upper (codes "GETDATE()")

unfoldable pub normalize_default : Bytes → Bytes → Bytes → Bytes
normalize_default dialect value upper =
    if is_among (codes "1" ∷ codes "TRUE" ∷ []) upper
    then codes "'1'"
    else if is_among (codes "0" ∷ codes "FALSE" ∷ []) upper
    then codes "'0'"
    else if is_among
        (codes "CURRENT_DATE"
          ∷ codes "CURRENT_TIME"
          ∷ codes "CURRENT_TIMESTAMP"
          ∷ codes "NULL"
          ∷ [])
        upper
    then upper
    else if is_now dialect upper
    then codes "CURRENT_TIMESTAMP"
    else if text_eq dialect dialect_postgres
    then before_cast value
    else value

abbrev pub of_trimmed : Bytes → Bytes → Bytes
of_trimmed dialect [] = []
of_trimmed dialect (c ∷ value) = normalize_default dialect (c ∷ value) (to_upper (c ∷ value))

unfoldable pub normalize_column_default : Bytes → Bytes → Bytes
normalize_column_default dialect value = of_trimmed dialect (trim_space value)
