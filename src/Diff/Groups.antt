-- ===== src/Diff/Groups.antt =====
-- ddl/postgres_migration.go and ddl/sqlserver_migration.go: foreign keys in groups, one for each pair
-- of tables. `positions` is dropFkeysPos, addFastFkeysPos or addFkeysPos.
pub mod Pairs
pub mod Grouped
pub mod Collected
use sqddl.Base.{
  ℕ, zero, suc, ◌-◌, Bool, true, false, ◌||◌, List, [], ◌∷◌, ◌++◌, Option, none, some,
  if◌then◌else◌, ltb, length, Bytes,
}
use sqddl.Cache.Maps.{Key, GoMap, lookup, put}
use sqddl.Cache.Slots.{Outcome, ret, panic, ◌>>=◌}
use sqddl.Catalog.{Constraint}

-- a > b on strings
unfoldable pub text_gt : Bytes → Bytes → Bool
text_gt [] b = false
text_gt (x ∷ a) [] = true
text_gt (x ∷ a) (y ∷ b) =
    let rest = text_gt a b in if ltb y x then true else if ltb x y then false else rest

unfoldable pub pair_id : Bytes → Bytes → Bytes → Bytes → Key
pair_id schema table ref_schema ref_table =
    if text_gt schema ref_schema || text_gt table ref_table
    then ref_schema ∷ ref_table ∷ schema ∷ table ∷ []
    else schema ∷ table ∷ ref_schema ∷ ref_table ∷ []

-- getTablesID
abbrev pub tables_id : Constraint → Key
tables_id x = pair_id x.table_schema x.table_name x.references_schema x.references_table

pub record FkeyGroups : Type 0 where
  pub groups : List (List Constraint)
  pub positions : GoMap ℕ

abbrev pub no_groups : FkeyGroups
no_groups = record { groups = []; positions = [] }

-- groups[n] = append(groups[n], x)
unfoldable pub append_at :
    ℕ → Constraint → List (List Constraint) → Outcome (List (List Constraint))
append_at n x [] = panic
append_at zero x (g ∷ gs) = ret ((g ++ x ∷ []) ∷ gs)
append_at (suc n) x (g ∷ gs) = do rest ← append_at n x gs; ret (g ∷ rest)

unfoldable pub place_fkey : Constraint → FkeyGroups → Option ℕ → Outcome FkeyGroups
place_fkey x g none = ret (record {
  groups = g.groups ++ (x ∷ []) ∷ [];
  positions = put (tables_id x) (length g.groups) g.positions;
})
place_fkey x g (some n) = do groups ← append_at n x g.groups; ret (record g { groups = groups })

unfoldable pub group_fkey : Constraint → FkeyGroups → Outcome FkeyGroups
group_fkey x g = place_fkey x g (lookup (tables_id x) g.positions)
