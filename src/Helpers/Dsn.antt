-- ===== src/Helpers/Dsn.antt =====
-- ddl/ddl.go: NormalizeDSN. The files and the registered drivers are parameters.
use sqddl.Base.{
  Bool, not, ◌||◌, [], ◌∷◌, ◌++◌, Option, none, some, if◌then◌else◌, ltb, length, Bytes, codes,
  text_eq, has_prefix, has_suffix, trim_prefix, trim_space, span, ◌==◌,
}
use sqddl.Catalog.{
  dialect_sqlite, dialect_postgres, dialect_mysql, dialect_sqlserver, dialect_oracle,
}
use sqddl.Writers.Pieces.{is_given}

-- what os.Open and reading say of a file
pub data Opened : Type 0 where
  not_exist : Opened
  failed : Opened
  contents : Bytes → Opened

-- the fields of a Driver that NormalizeDSN reads
pub record Driver : Type 0 where
  pub name : Bytes
  pub preprocess_dsn : Option (Bytes → Bytes)

-- dialect, driverName, normalizedDSN
pub record NormalDsn : Type 0 where
  pub dialect : Bytes
  pub driver_name : Bytes
  pub dsn : Bytes

abbrev pub no_dsn : NormalDsn
no_dsn = record { dialect = []; driver_name = []; dsn = [] }

-- strings.Contains
unfoldable pub contains_text : Bytes → Bytes → Bool
contains_text [] needle = has_prefix [] needle
contains_text (c ∷ s) needle = has_prefix (c ∷ s) needle || contains_text s needle

unfoldable pub names_sqlite_file : Bytes → Bool
names_sqlite_file s =
    has_suffix s (codes ".sqlite")
    || (has_suffix s (codes ".sqlite3")
        || (has_suffix s (codes ".db") || has_suffix s (codes ".db3")))

-- strings.Cut(s, "?"), what stands in front
unfoldable pub before_query : Bytes → Bytes
before_query s = (span (λ c. not (c == b'?')) s).0

-- the dialect that a DSN is taken to be of, or nothing
unfoldable pub dsn_dialect : Bytes → Bytes
dsn_dialect dsn =
    if has_prefix dsn (codes "sqlite:") || has_prefix dsn (codes "sqlite3:")
    then dialect_sqlite
    else if has_prefix dsn (codes "postgres://")
    then dialect_postgres
    else if has_prefix dsn (codes "mysql://")
    then dialect_mysql
    else if has_prefix dsn (codes "sqlserver://")
    then dialect_sqlserver
    else if has_prefix dsn (codes "oracle://")
    then dialect_oracle
    else if contains_text dsn (codes "@tcp(") || contains_text dsn (codes "@unix(")
    then dialect_mysql
    else if names_sqlite_file (before_query dsn)
    then dialect_sqlite
    else []

abbrev pub of_dialect : Bytes → Bytes → Bytes → NormalDsn
of_dialect dialect name dsn = record { dialect = dialect; driver_name = name; dsn = dsn }

unfoldable pub sqlite_path : Bytes → Bytes
sqlite_path dsn =
    trim_prefix
      (if has_prefix dsn (codes "sqlite3:")
        then trim_prefix dsn (codes "sqlite3:")
        else trim_prefix dsn (codes "sqlite:"))
      (codes "//")

-- where no driver is registered for the dialect
unfoldable pub default_dsn : Bytes → Bytes → NormalDsn
default_dsn dialect dsn =
    if text_eq dialect dialect_sqlite
    then of_dialect dialect (codes "sqlite3") (sqlite_path dsn)
    else if text_eq dialect dialect_postgres
    then of_dialect dialect (codes "postgres") dsn
    else if text_eq dialect dialect_mysql
    then of_dialect dialect (codes "mysql") (trim_prefix dsn (codes "mysql://"))
    else if text_eq dialect dialect_sqlserver
    then of_dialect dialect (codes "sqlserver") dsn
    else if text_eq dialect dialect_oracle
    then of_dialect dialect (codes "oracle") dsn
    else no_dsn

abbrev pub preprocessed : Option (Bytes → Bytes) → Bytes → Bytes
preprocessed none dsn = dsn
preprocessed (some f) dsn = f dsn

abbrev pub with_driver : Option Driver → Bytes → Bytes → NormalDsn
with_driver none dialect dsn = default_dsn dialect dsn
with_driver (some d) dialect dsn = of_dialect dialect d.name (preprocessed d.preprocess_dsn dsn)

-- the first 16 bytes of a SQLite database
abbrev pub sqlite_header : Bytes
sqlite_header = codes "SQLite format 3" ++ 0 ∷ []

module _ (drivers : Bytes → Option Driver) (open_file : Bytes → Opened) where
  unfoldable pub normalize_text : Bytes → NormalDsn
  normalize_text dsn =
      let dialect = dsn_dialect dsn in
      if is_given dialect then with_driver (drivers dialect) dialect dsn else no_dsn

  -- A file that has no 16 bytes is refused, whatever it holds.
  unfoldable pub normalize_contents : Bytes → Bytes → NormalDsn
  normalize_contents dsn text =
      if ltb (length text) 16
      then no_dsn
      else if has_prefix text sqlite_header
      then normalize_text (codes "sqlite:" ++ dsn)
      else normalize_text (trim_space text)

  unfoldable pub normalize_opened : Bytes → Bytes → Opened → NormalDsn
  normalize_opened dsn filename not_exist =
      if names_sqlite_file filename then of_dialect dialect_sqlite (codes "sqlite3") dsn else no_dsn
  normalize_opened dsn filename failed = no_dsn
  normalize_opened dsn filename (contents text) = normalize_contents dsn text

  unfoldable pub normalize_dsn : Bytes → NormalDsn
  normalize_dsn dsn =
      if has_prefix dsn (codes "file:")
      then (let filename =
            before_query (trim_prefix (trim_prefix dsn (codes "file:")) (codes "//")) in
          normalize_opened dsn filename (open_file filename))
      else normalize_text dsn
