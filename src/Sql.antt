-- ===== src/Sql.antt =====
-- ddl/sq.go: the SQL text helpers. Keywords has the tables of reserved words, Quote has
-- QuoteIdentifier and EscapeQuote.
pub mod Keywords
pub mod Quote
pub mod Reading
pub mod RoundTrip
pub mod Tests
