-- ===== src/Writers/Pieces.antt =====
-- ddl/dump_cmd.go: what the writers share: optional parts, qualified names and lists of names.
use sqddl.Base.{Bool, not, ◌&&◌, List, [], ◌∷◌, ◌++◌, if◌then◌else◌, Bytes, codes, text_eq}
use sqddl.Sql.Quote.{quote_identifier}

abbrev pub newline : Bytes
newline = 10 ∷ []

-- the texts, one behind the other
abbrev pub texts : List Bytes → Bytes
texts [] = []
texts (t ∷ ts) = t ++ texts ts

-- if b { buf.WriteString(text) }
abbrev pub when : Bool → Bytes → Bytes
when b text = if b then text else []

-- s != ""
abbrev pub is_given : Bytes → Bool
is_given [] = Bool.false
is_given (c ∷ s) = Bool.true

-- schema != "" && schema != other
abbrev pub is_foreign : Bytes → Bytes → Bool
is_foreign schema other = is_given schema && not (text_eq schema other)

-- the quoted name, with its schema in front if that is not the current one
unfoldable pub qualified : Bytes → Bytes → Bytes → Bytes → Bytes
qualified dialect current schema name =
    when (is_foreign schema current) (quote_identifier dialect schema ++ codes ".")
    ++ quote_identifier dialect name

-- the names behind the first, each with a comma in front
unfoldable pub more_names : Bytes → List Bytes → Bytes
more_names dialect [] = []
more_names dialect (c ∷ columns) =
    texts (codes ", " ∷ quote_identifier dialect c ∷ more_names dialect columns ∷ [])

unfoldable pub write_column_names : Bytes → List Bytes → Bytes
write_column_names dialect [] = []
write_column_names dialect (c ∷ columns) = quote_identifier dialect c ++ more_names dialect columns
