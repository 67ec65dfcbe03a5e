-- ===== src/Modifier.antt =====
-- ddl/modifier.go: the modifiers of a `ddl` struct tag, their parser (popValue, popModifier,
-- NewModifiers, ParseRawValue) and their printer (writeBuf, String). The loops over runes compare
-- with ASCII characters only, so they are loops over bytes here; a slice `s[:i]`, `s[i:]` at the
-- first index of a byte is the two parts of `span`.
pub mod Parse
pub mod Print
pub mod Values
pub mod Items
pub mod RoundTrip
pub mod Joined
pub mod Errors
pub mod Totality
pub mod Tests
use sqddl.Base.{ℕ, Bool, true, false, not, List, [], ◌∷◌, ◌++◌, ◌≡◌, text_eq, Bytes, if◌then◌else◌}

-- Submodifiers are a list of modifiers, in a block with them.
mutual
  pub data Modifier : Type 0 where
    modifier :
        (dialects : List Bytes) (name raw_value value : Bytes) (submodifiers : Modifiers) → Modifier

  pub data Modifiers : Type 0 where
    nil : Modifiers
    cons : Modifier → Modifiers → Modifiers

abbrev pub to_modifiers : List Modifier → Modifiers
to_modifiers [] = nil
to_modifiers (m ∷ ms) = cons m (to_modifiers ms)

abbrev pub dialects_of : Modifier → List Bytes
dialects_of (modifier ds name raw value subs) = ds

abbrev pub name_of : Modifier → Bytes
name_of (modifier ds name raw value subs) = name

unfoldable pub has_dialect : Bytes → List Bytes → Bool
has_dialect dialect [] = false
has_dialect dialect (d ∷ ds) = if text_eq d dialect then true else has_dialect dialect ds

-- the loop of ExcludesDialect, behind its test of the length
unfoldable pub excludes_in : List Bytes → Bytes → Bool
unfolding has_dialect
excludes_in [] dialect = false
excludes_in (d ∷ ds) dialect = not (has_dialect dialect (d ∷ ds))

unfoldable pub excludes_dialect : Modifier → Bytes → Bool
unfolding excludes_in
excludes_dialect m dialect = excludes_in (dialects_of m) dialect
