-- ===== src/Catalog/Constants.antt =====
-- ddl/ddl.go: the strings that stand for constraint types and dialects.
use sqddl.Base.{Bytes, codes}

abbrev pub primary_key : Bytes
primary_key = codes "PRIMARY KEY"

abbrev pub foreign_key : Bytes
foreign_key = codes "FOREIGN KEY"

abbrev pub unique : Bytes
unique = codes "UNIQUE"

abbrev pub check : Bytes
check = codes "CHECK"

abbrev pub exclude : Bytes
exclude = codes "EXCLUDE"

abbrev pub index : Bytes
index = codes "INDEX"

abbrev pub dialect_sqlite : Bytes
dialect_sqlite = codes "sqlite"

abbrev pub dialect_postgres : Bytes
dialect_postgres = codes "postgres"

abbrev pub dialect_mysql : Bytes
dialect_mysql = codes "mysql"

abbrev pub dialect_oracle : Bytes
dialect_oracle = codes "oracle"

abbrev pub dialect_sqlserver : Bytes
dialect_sqlserver = codes "sqlserver"

abbrev pub no_action : Bytes
no_action = codes "NO ACTION"
