-- ===== src/Helpers/DsnTests.antt =====
-- Runs of NormalizeDSN where no driver is registered.
use sqddl.Base.{
  ◌++◌, none, ◌≡◌, refl, Bytes, codes, text_eq, has_prefix, has_suffix, drop_prefix, trim_prefix,
  trim_space, trim_start, span,
}
use sqddl.Catalog.{dialect_sqlite, dialect_mysql, dialect_postgres}
use sqddl.Helpers.Dsn.{
  Opened, not_exist, failed, contents, NormalDsn, no_dsn, contains_text, names_sqlite_file,
  before_query, dsn_dialect, of_dialect, sqlite_path, default_dsn, sqlite_header, normalize_text,
  normalize_contents, normalize_opened, normalize_dsn,
}

dsn_runs : Unit {0}
unfolding text_eq has_prefix has_suffix drop_prefix trim_prefix trim_space trim_start span
    contains_text names_sqlite_file before_query dsn_dialect sqlite_path default_dsn normalize_text
    normalize_contents normalize_opened normalize_dsn
dsn_runs = tt

-- NormalizeDSN where every file is as given
abbrev normalize : Opened → Bytes → NormalDsn
normalize file = normalize_dsn (λ d. none) (λ name. file)

sqlite_test :
    normalize failed (codes "sqlite3://a.db")
    ≡ of_dialect dialect_sqlite (codes "sqlite3") (codes "a.db")
unfolding dsn_runs
sqlite_test = refl

tcp_test :
    normalize failed (codes "mysql://u@tcp(h)/d")
    ≡ of_dialect dialect_mysql (codes "mysql") (codes "u@tcp(h)/d")
unfolding dsn_runs
tcp_test = refl

query_test :
    normalize failed (codes "a.db?x=1")
    ≡ of_dialect dialect_sqlite (codes "sqlite3") (codes "a.db?x=1")
unfolding dsn_runs
query_test = refl

new_file_test :
    normalize not_exist (codes "file:a.db")
    ≡ of_dialect dialect_sqlite (codes "sqlite3") (codes "file:a.db")
unfolding dsn_runs
new_file_test = refl

database_file_test :
    normalize (contents (sqlite_header ++ codes "...")) (codes "file:a")
    ≡ of_dialect dialect_sqlite (codes "sqlite3") (codes "file:a")
unfolding dsn_runs
database_file_test = refl

text_file_test :
    normalize (contents (codes "postgres://host/d ")) (codes "file:a")
    ≡ of_dialect dialect_postgres (codes "postgres") (codes "postgres://host/d")
unfolding dsn_runs
text_file_test = refl

-- a DSN that would be taken from elsewhere, in a file
short_file_test : normalize (contents (codes "sqlite:a.db")) (codes "file:a") ≡ no_dsn
unfolding dsn_runs
short_file_test = refl
