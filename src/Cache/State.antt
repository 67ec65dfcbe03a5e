-- ===== src/Cache/State.antt =====
-- ddl/catalog_cache.go: the state of a CatalogCache. Each map gives positions in the slices of a
-- catalog: `enums` of (schema, enum) the position in that schema's enums, and so on.
use sqddl.Base.{ℕ, List, [], Bytes}
use sqddl.Cache.Maps.{GoMap}

pub record CatalogCache : Type 0 where
  pub dialect : Bytes
  pub extensions : GoMap ℕ
  pub schemas : GoMap ℕ
  pub enums : GoMap ℕ
  pub domains : GoMap ℕ
  pub routines : GoMap ℕ
  pub views : GoMap ℕ
  pub tables : GoMap ℕ
  pub columns : GoMap ℕ
  pub constraints : GoMap ℕ
  pub indexes : GoMap ℕ
  pub triggers : GoMap ℕ
  pub pkeys : GoMap ℕ
  pub fkeys : GoMap (List ℕ)

-- the cache with every map made and still empty
abbrev pub empty_cache : Bytes → CatalogCache
empty_cache dialect = record {
  dialect = dialect;
  extensions = [];
  schemas = [];
  enums = [];
  domains = [];
  routines = [];
  views = [];
  tables = [];
  columns = [];
  constraints = [];
  indexes = [];
  triggers = [];
  pkeys = [];
  fkeys = [];
}
