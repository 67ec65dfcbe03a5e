-- ===== src/Sql/Tests.antt =====
-- Runs of QuoteIdentifier and EscapeQuote of ddl/sq.go, and the theorems at concrete texts.
use sqddl.Base.{◌∷◌, ◌≡◌, refl, codes, text_eq}
use sqddl.Catalog.{dialect_postgres, dialect_sqlserver}
use sqddl.Sql.Quote.{
  passes, doubles, written, escape_from, escape_quote, all_simple, is_odd, is_among, is_keyword,
  needs_quoting, open_quote, close_quote, quote_identifier,
}
use sqddl.Sql.RoundTrip.{escape_quote-pair}

quoting : Unit {0}
unfolding text_eq passes doubles written escape_from all_simple is_odd is_among is_keyword
    needs_quoting open_quote close_quote quote_identifier
quoting = tt

plain_test : quote_identifier dialect_postgres (codes "user_id") ≡ codes "user_id"
unfolding quoting
plain_test = refl

keyword_test : quote_identifier dialect_sqlserver (codes "table") ≡ codes "[table]"
unfolding quoting
keyword_test = refl

escape_test : quote_identifier dialect_sqlserver (codes "a]b") ≡ codes "[a]]b]"
unfolding quoting
escape_test = refl

escape_quote-pair_example :
    escape_quote (39 ∷ 39 ∷ codes "ab") 39 ≡ escape_quote (39 ∷ codes "ab") 39
escape_quote-pair_example = escape_quote-pair 39 b'a' (codes "b") refl
