-- ===== src/Helpers.antt =====
-- ddl/ddl.go: the helpers on names, versions and argument lists.
pub mod Names
pub mod Versions
pub mod Arguments
pub mod Split
pub mod Brackets
pub mod ColumnTypes
pub mod Numbers
pub mod Literals
pub mod Dsn
pub mod DsnTests
pub mod TypeTests
pub mod Tests
