-- ===== src/Writers.antt =====
-- ddl/dump_cmd.go: the functions that write the SQL of a schema, a table, an index, a column or a
-- constraint. What the source writes to its buffer is the text that a function here returns.
pub mod Pieces
pub mod Columns
pub mod Constraints
pub mod Indexes
pub mod Tables
