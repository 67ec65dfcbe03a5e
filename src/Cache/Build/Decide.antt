-- ===== src/Cache/Build/Decide.antt =====
-- Whether a catalog is well formed, as a test.
use sqddl.Base.{
  Bool, true, false, not, ◌&&◌, List, [], ◌∷◌, ◌≡◌, refl, sym, All, text_eq, text_eq_iff,
  &&-eq-true, false≢true, ◌∙◌,
}
use sqddl.Cache.Build.{schema_id, in_schema}
use sqddl.Cache.Build.Constraints.{IsNamed, HasNamed}
use sqddl.Cache.Build.Indexes.{owner_id, owner_key, table_owner, owners_of}
use sqddl.Cache.Build.Positions.{AreDistinct}
use sqddl.Cache.Build.Walk.{tables_of, table_path, column_path}
use sqddl.Cache.Build.WellFormed.{HasDistinctParts, HasDistinctTables, IsWellFormed}
use sqddl.Cache.Constraints.{constraint_name}
use sqddl.Cache.Maps.{Key, key_eq, ne-key_eq}
use sqddl.Cache.Schemas.{table_name}
use sqddl.Cache.Tables.{column_name, index_name}
use sqddl.Catalog.{Catalog, Schema, Table, Constraint}

of_not : (b : Bool) → not b ≡ true → b ≡ false
of_not true e = sym e
of_not false e = refl

-- Every item passes a test.
unfoldable pub all_pass {ℓ} : {A : Type ℓ} → (A → Bool) → List A → Bool
all_pass test [] = true
all_pass test (x ∷ xs) = test x && all_pass test xs

all_pass_sound {ℓ κ} :
    {A : Type ℓ} (P : A → Type κ) (test : A → Bool) (xs : List A)
    → ((x : A) → test x ≡ true → P x)
    → all_pass test xs ≡ true
    → All P xs
unfolding all_pass
all_pass_sound P test [] sound h = tt
all_pass_sound P test (x ∷ xs) sound h =
    let both = &&-eq-true (test x) (all_pass test xs) h in
    (sound x both.0, all_pass_sound P test xs sound both.1)

module _ {A : Type 0} (key : A → Key) where
  unfoldable pub are_distinct : List A → Bool
  are_distinct [] = true
  are_distinct (x ∷ xs) = all_pass (λ y. not (key_eq (key y) (key x))) xs && are_distinct xs

  are_distinct_sound : (xs : List A) → are_distinct xs ≡ true → AreDistinct key xs
  unfolding are_distinct
  are_distinct_sound [] h = tt
  are_distinct_sound (x ∷ xs) h =
      let both = &&-eq-true _ (are_distinct xs) h in
      (
        all_pass_sound _ _ xs (λ y e. ne-key_eq (key y) (key x) (of_not _ e)) both.0,
        are_distinct_sound xs both.1,
      )

is_named : Constraint → Bool
is_named x = not (text_eq x.constraint_name [])

is_named_sound : (x : Constraint) → is_named x ≡ true → IsNamed x
unfolding is_named
is_named_sound x h e = false≢true (sym (of_not _ h) ∙ (text_eq_iff x.constraint_name []).1 e)

unfoldable pub has_named : Schema × Table → Bool
unfolding is_named
has_named g = all_pass is_named g.1.constraints

unfoldable pub has_distinct_tables : Schema → Bool
has_distinct_tables s = are_distinct (λ t. in_schema s (table_name t)) s.tables

unfoldable pub has_distinct_parts : Schema × Table → Bool
has_distinct_parts g =
    text_eq g.1.table_schema g.0.schema_name
    && (are_distinct (λ x. column_path g (column_name x)) g.1.columns
        && (are_distinct (λ x. column_path g (constraint_name x)) g.1.constraints
            && are_distinct (λ x. owner_key (table_owner g.0 g.1) (index_name x)) g.1.indexes))

has_distinct_parts_sound : (g : Schema × Table) → has_distinct_parts g ≡ true → HasDistinctParts g
unfolding has_distinct_parts
has_distinct_parts_sound g h =
    let a = &&-eq-true (text_eq g.1.table_schema g.0.schema_name) _ h in
    let b = &&-eq-true (are_distinct (λ x. column_path g (column_name x)) g.1.columns) _ a.1 in
    let c =
      &&-eq-true (are_distinct (λ x. column_path g (constraint_name x)) g.1.constraints) _ b.1 in
    (
      (text_eq_iff g.1.table_schema g.0.schema_name).0 a.0,
      are_distinct_sound _ g.1.columns b.0,
      are_distinct_sound _ g.1.constraints c.0,
      are_distinct_sound _ g.1.indexes c.1,
    )

unfoldable pub is_well_formed : Catalog → Bool
is_well_formed catalog =
    (are_distinct schema_id catalog.schemas && all_pass has_distinct_tables catalog.schemas)
    && ((are_distinct table_path (tables_of catalog.schemas)
          && are_distinct owner_id (owners_of catalog.schemas))
        && (all_pass has_named (tables_of catalog.schemas)
            && all_pass has_distinct_parts (tables_of catalog.schemas)))

pub is_well_formed_sound :
    (catalog : Catalog) → is_well_formed catalog ≡ true → IsWellFormed catalog
unfolding is_well_formed has_named has_distinct_tables
is_well_formed_sound catalog h =
    let a =
      &&-eq-true
        (are_distinct schema_id catalog.schemas && all_pass has_distinct_tables catalog.schemas) _
        h in
    let b = &&-eq-true (are_distinct schema_id catalog.schemas) _ a.0 in
    let c =
      &&-eq-true
        (are_distinct table_path (tables_of catalog.schemas)
          && are_distinct owner_id (owners_of catalog.schemas))
        _ a.1 in
    let d = &&-eq-true (are_distinct table_path (tables_of catalog.schemas)) _ c.0 in
    let e = &&-eq-true (all_pass has_named (tables_of catalog.schemas)) _ c.1 in
    record {
      schemas = are_distinct_sound schema_id catalog.schemas b.0;
      tables =
          all_pass_sound HasDistinctTables _ catalog.schemas
            (λ s. are_distinct_sound (λ t. in_schema s (table_name t)) s.tables) b.1;
      paths = are_distinct_sound table_path (tables_of catalog.schemas) d.0;
      owners = are_distinct_sound owner_id (owners_of catalog.schemas) d.1;
      named =
          all_pass_sound HasNamed _ (tables_of catalog.schemas)
            (λ g. all_pass_sound IsNamed is_named g.1.constraints is_named_sound) e.0;
      parts =
          all_pass_sound HasDistinctParts _ (tables_of catalog.schemas) has_distinct_parts_sound
            e.1;
    }
