-- ===== src/Cache.antt =====
-- ddl/catalog_cache.go: the CatalogCache, which knows where each object of a catalog stands. Maps
-- has Go's maps, Slots what its operations share, State the cache, Schemas, Tables and Views its
-- operations, Build NewCatalogCache. Slots/Laws, Correct and the others prove.
pub mod Maps
pub mod Slots
pub mod State
pub mod Kinds
pub mod Schemas
pub mod Routines
pub mod Constraints
pub mod Instances
pub mod Correct
pub mod Sequences
pub mod Faults
pub mod Build
pub mod Write
pub mod Tables
pub mod Views
pub mod Examples
