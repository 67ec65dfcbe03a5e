-- ===== src/Sql/Keywords.antt =====
-- ddl/sq.go: the tables of the words that QuoteIdentifier quotes, one for each dialect.
mod Sqlite
mod Postgres
mod Mysql
mod Sqlserver
pub use Sqlite.{sqlite_keywords}
pub use Postgres.{postgres_keywords}
pub use Mysql.{mysql_keywords}
pub use Sqlserver.{sqlserver_keywords}
