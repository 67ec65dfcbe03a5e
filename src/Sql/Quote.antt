-- ===== src/Sql/Quote.antt =====
-- ddl/sq.go: EscapeQuote and QuoteIdentifier.
use sqddl.Base.{
  ℕ, ◌+◌, Bool, true, false, not, ◌&&◌, ◌||◌, List, [], ◌∷◌, ◌++◌, if◌then◌else◌, leb, ◌==◌, map,
  Bytes, codes, text_eq,
}
use sqddl.Catalog.{dialect_sqlite, dialect_postgres, dialect_mysql, dialect_sqlserver}
use sqddl.Sql.Keywords.{sqlite_keywords, postgres_keywords, mysql_keywords, sqlserver_keywords}

abbrev pub is_end : Bytes → Bool
is_end [] = true
is_end (c ∷ s) = false

-- The loop of EscapeQuote, byte by byte: `behind` says that the byte in front was a quote that has
-- just been doubled. A second quote behind it is passed over, unless it ends the text.
unfoldable pub passes : ℕ → Bool → ℕ → Bytes → Bool
passes quote behind c rest = behind && (c == quote && not (is_end rest))

unfoldable pub doubles : ℕ → Bool → ℕ → Bytes → Bool
doubles quote behind c rest = c == quote && not (passes quote behind c rest)

unfoldable pub written : ℕ → Bool → ℕ → Bytes → Bytes
written quote behind c rest =
    if passes quote behind c rest then [] else if c == quote then quote ∷ quote ∷ [] else c ∷ []

unfoldable pub escape_from : ℕ → Bool → Bytes → Bytes
escape_from quote behind [] = []
escape_from quote behind (c ∷ s) =
    written quote behind c s ++ escape_from quote (doubles quote behind c s) s

abbrev pub escape_quote : Bytes → ℕ → Bytes
escape_quote s quote = escape_from quote false s

abbrev pub is_digit : ℕ → Bool
is_digit c = leb b'0' c && leb c b'9'

abbrev pub is_lower : ℕ → Bool
is_lower c = leb b'a' c && leb c b'z'

-- _a-z0-9
abbrev pub is_simple_byte : ℕ → Bool
is_simple_byte c = c == b'_' || is_digit c || is_lower c

unfoldable pub all_simple : Bytes → Bool
all_simple [] = true
all_simple (c ∷ s) = is_simple_byte c && all_simple s

-- whether the loop over the identifier asks for quotes
unfoldable pub is_odd : Bytes → Bool
is_odd [] = false
is_odd (c ∷ s) = is_digit c || not (all_simple (c ∷ s))

unfoldable pub is_among : List Bytes → Bytes → Bool
is_among [] word = false
is_among (w ∷ words) word = text_eq w word || is_among words word

-- strings.ToLower, on ASCII
abbrev pub lower_byte : ℕ → ℕ
lower_byte c = if leb b'A' c && leb c b'Z' then c + 32 else c

abbrev pub to_lower : Bytes → Bytes
to_lower s = map lower_byte s

unfoldable pub is_keyword : Bytes → Bytes → Bool
is_keyword dialect word =
    if text_eq dialect dialect_sqlite
    then is_among sqlite_keywords word
    else if text_eq dialect dialect_postgres
    then is_among postgres_keywords word
    else if text_eq dialect dialect_mysql
    then is_among mysql_keywords word
    else text_eq dialect dialect_sqlserver && is_among sqlserver_keywords word

abbrev pub special_names : List Bytes
special_names =
    codes "EXCLUDED" ∷ codes "INSERTED" ∷ codes "DELETED" ∷ codes "NEW" ∷ codes "OLD" ∷ []

unfoldable pub needs_quoting : Bytes → Bytes → Bool
needs_quoting dialect [] = true
needs_quoting dialect (c ∷ s) =
    not (is_among special_names (c ∷ s))
    && (is_odd (c ∷ s) || is_keyword dialect (to_lower (c ∷ s)))

unfoldable pub open_quote : Bytes → ℕ
open_quote dialect =
    if text_eq dialect dialect_mysql
    then b'`'
    else if text_eq dialect dialect_sqlserver
    then b'['
    else b'"'

unfoldable pub close_quote : Bytes → ℕ
close_quote dialect =
    if text_eq dialect dialect_mysql
    then b'`'
    else if text_eq dialect dialect_sqlserver
    then b']'
    else b'"'

unfoldable pub quote_identifier : Bytes → Bytes → Bytes
quote_identifier dialect identifier =
    if needs_quoting dialect identifier
    then open_quote dialect
      ∷ (escape_quote identifier (close_quote dialect) ++ close_quote dialect ∷ [])
    else identifier
