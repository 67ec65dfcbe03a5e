-- ===== src/Helpers/TypeTests.antt =====
-- Runs of the functions on column types and defaults, and of the brackets.
use sqddl.Base.{
  [], ◌≡◌, refl, codes, text_eq, contains, span, has_prefix, has_suffix, trim_suffix, trim_space,
  trim_start,
}
use sqddl.Cache.Slots.{ret, panic}
use sqddl.Catalog.{dialect_sqlite, dialect_postgres, dialect_mysql, dialect_sqlserver}
use sqddl.Helpers.Brackets.{
  ends_in, wrapped_in_brackets, wrap_brackets, but_last, unwrap_brackets, to_upper,
}
use sqddl.Helpers.ColumnTypes.{
  cut_last, without_spaces, split_type_args, close_type, open_type, split_type, postgres_type,
  mysql_type, mysql_signed, sqlserver_type, dialect_type, normalize_column_type, before_cast,
  is_now, normalize_default, normalize_column_default,
}
use sqddl.Sql.Quote.{is_among}

types : Unit {0}
unfolding text_eq contains span has_prefix has_suffix trim_suffix trim_space trim_start ends_in
    wrapped_in_brackets wrap_brackets but_last unwrap_brackets to_upper cut_last without_spaces
    split_type_args close_type open_type split_type postgres_type mysql_type mysql_signed
    sqlserver_type dialect_type normalize_column_type before_cast is_now normalize_default
    normalize_column_default is_among
types = tt

decimal_test :
    normalize_column_type dialect_postgres (codes " decimal(10, 2) ")
    ≡ ret (codes "NUMERIC", codes "10", codes "2")
unfolding types
decimal_test = refl

time_zone_test :
    normalize_column_type dialect_postgres (codes "timestamp(3) with time zone")
    ≡ ret (codes "TIMESTAMPTZ", codes "3", [])
unfolding types
time_zone_test = refl

array_test : normalize_column_type dialect_postgres (codes "int4[]") ≡ ret (codes "INT[]", [], [])
unfolding types
array_test = refl

unsigned_test :
    normalize_column_type dialect_mysql (codes "int(10) unsigned") ≡ ret (codes "INT", [], [])
unfolding types
unsigned_test = refl

unsigned_int_test :
    normalize_column_type dialect_mysql (codes "bigint unsigned")
    ≡ ret (codes "BIGINT UNSIGNED", [], [])
unfolding types
unsigned_int_test = refl

sqlserver_test :
    normalize_column_type dialect_sqlserver (codes "national character varying(255)")
    ≡ ret (codes "NVARCHAR", codes "255", [])
unfolding types
sqlserver_test = refl

lone_bracket_test : normalize_column_type dialect_sqlite (codes "int)") ≡ panic
unfolding types
lone_bracket_test = refl

default_test : normalize_column_default dialect_postgres (codes "'a'::text") ≡ codes "'a'"
unfolding types
default_test = refl

now_test :
    normalize_column_default dialect_sqlite (codes "datetime('now')") ≡ codes "CURRENT_TIMESTAMP"
unfolding types
now_test = refl

unwrap_test : unwrap_brackets (wrap_brackets (codes "a + b")) ≡ codes "a + b"
unfolding types
unwrap_test = refl
