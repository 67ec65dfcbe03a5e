-- ===== src/Sql/Reading.antt =====
-- How a database reads the names that ddl/sq.go writes: the specification of quoted text and of
-- identifiers, with the quotes, the classes of bytes and the names of pseudo-tables written out
-- again. Only the words that a dialect reserves are those of the tables of Sql/Keywords.
use sqddl.Base.{
  ℕ, ◌+◌, Bool, true, false, ◌&&◌, ◌||◌, List, [], ◌∷◌, ◌++◌, leb, ◌==◌, All, ◌≡◌, ◌⊎◌, Bytes,
  codes, map, if◌then◌else◌, text_eq,
}
use sqddl.Sql.Keywords.{sqlite_keywords, postgres_keywords, mysql_keywords, sqlserver_keywords}

-- the quotes around an identifier: ` in MySQL, [ and ] in SQL Server, " elsewhere
abbrev pub opening : Bytes → ℕ
opening dialect =
    if text_eq dialect (codes "mysql")
    then 96
    else if text_eq dialect (codes "sqlserver")
    then 91
    else 34

abbrev pub closing : Bytes → ℕ
closing dialect =
    if text_eq dialect (codes "mysql")
    then 96
    else if text_eq dialect (codes "sqlserver")
    then 93
    else 34

-- the words that may not be names, in lower case
abbrev pub reserved_words : Bytes → List Bytes
reserved_words dialect =
    if text_eq dialect (codes "sqlite")
    then sqlite_keywords
    else if text_eq dialect (codes "postgres")
    then postgres_keywords
    else if text_eq dialect (codes "mysql")
    then mysql_keywords
    else if text_eq dialect (codes "sqlserver")
    then sqlserver_keywords
    else []

abbrev pub pseudo_tables : List Bytes
pseudo_tables =
    codes "EXCLUDED" ∷ codes "INSERTED" ∷ codes "DELETED" ∷ codes "NEW" ∷ codes "OLD" ∷ []

abbrev pub IsIn : Bytes → List Bytes → Type 0
IsIn word [] = ⊥
IsIn word (w ∷ words) = (w ≡ word) ⊎ IsIn word words

abbrev pub is_figure : ℕ → Bool
is_figure c = leb 48 c && leb c 57

-- a word without its upper case letters
abbrev pub folded : Bytes → Bytes
folded s = map (λ c. if leb 65 c && leb c 90 then c + 32 else c) s

abbrev pub DoesNotStart : (ℕ → Bool) → Bytes → Type 0
DoesNotStart p [] = Unit
DoesNotStart p (c ∷ s) = p c ≡ false

-- Behind an opening quote, the text is read up to the first closing quote that is not doubled: a
-- doubled one stands for itself. `ReadsQuoted quote text content rest`.
pub data ReadsQuoted (quote : ℕ) : Bytes → Bytes → Bytes → Type 0 where
  closed :
      (rest : Bytes)
      → DoesNotStart (λ c. c == quote) rest
      → ReadsQuoted quote (quote ∷ rest) [] rest
  doubled :
      {text content rest : Bytes}
      → ReadsQuoted quote text content rest
      → ReadsQuoted quote (quote ∷ quote ∷ text) (quote ∷ content) rest
  plain :
      {text content rest : Bytes} (c : ℕ)
      → (c == quote) ≡ false
      → ReadsQuoted quote text content rest
      → ReadsQuoted quote (c ∷ text) (c ∷ content) rest

abbrev pub is_word_byte : ℕ → Bool
is_word_byte c = c == 95 || is_figure c || (leb 97 c && leb c 122) || leb 65 c && leb c 90

-- A word is read to its end. It is a name if it does not start with a digit and is not reserved, or
-- if it is one of the names of pseudo-tables.
pub data ReadsName (dialect : Bytes) : Bytes → Bytes → Bytes → Type 0 where
  quoted :
      {text name rest : Bytes}
      → ReadsQuoted (closing dialect) text name rest
      → ReadsName dialect (opening dialect ∷ text) name rest
  word :
      (c : ℕ) (name rest : Bytes)
      → is_figure c ≡ false
      → All (λ c. is_word_byte c ≡ true) (c ∷ name)
      → (IsIn (folded (c ∷ name)) (reserved_words dialect) → ⊥)
      → DoesNotStart is_word_byte rest
      → ReadsName dialect ((c ∷ name) ++ rest) (c ∷ name) rest
  special :
      (name rest : Bytes)
      → IsIn name pseudo_tables
      → DoesNotStart is_word_byte rest
      → ReadsName dialect (name ++ rest) name rest
