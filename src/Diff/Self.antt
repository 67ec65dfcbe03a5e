-- ===== src/Diff/Self.antt =====
-- Comparing a catalog with itself: every live object finds itself, and nothing is lost or altered.
use sqddl.Base.{
  ℕ, zero, suc, Bool, true, false, List, [], ◌∷◌, Option, some, ◌≡◌, refl, ap, ◌∙◌, if◌then◌else◌,
  get_elem?, Bool-cases, inl, inr, text_eq_refl, All, Bytes,
}
use sqddl.Cache.Build.WellFormed.{AgreesOnTable}
use sqddl.Cache.Constraints.{constraint_ignored, constraint_name, constraint_key}
use sqddl.Cache.Instances.{column_distinct, index_distinct}
use sqddl.Cache.Slots.{Outcome, ret}
use sqddl.Cache.Slots.Named.{live_named_self}
use sqddl.Cache.State.{CatalogCache}
use sqddl.Cache.Tables.{
  column_ignored, column_name, column_key, index_ignored, index_name, index_key,
}
use sqddl.Catalog.{Table, Column}
use sqddl.Diff.Lookups.{missing, compared}
use sqddl.Diff.Reference.{column_named, constraint_named, index_named, unfound, missing_is}
use sqddl.Diff.Steps.{
  each_step, step_if, types_differ, columns_differ, if_dropping, flags_differ, collation_or,
}
use sqddl.Writers.Pieces.{is_given}
use sqddl.Diff.Usable.{IsTyped}
use sqddl.Helpers.ColumnTypes.{normalize_column_default}

-- Every item that is not skipped finds itself.
abbrev pub FindsSelf : {A : Type 0} → (A → Bool) → (A → Option A) → List A → Type 0
FindsSelf skip find [] = Unit
FindsSelf skip find (x ∷ xs) = (skip x ≡ false → find x ≡ some x) × FindsSelf skip find xs

pub FindsSelf-of :
    {A : Type 0} (skip : A → Bool) (find : A → Option A) (xs : List A)
    → ((i : ℕ) (x : A) → get_elem? xs i ≡ some x → skip x ≡ false → find x ≡ some x)
    → FindsSelf skip find xs
FindsSelf-of skip find [] h = tt
FindsSelf-of skip find (x ∷ xs) h =
    (h zero x refl, FindsSelf-of skip find xs (λ i y e. h (suc i) y e))

pub unfound_self :
    {A : Type 0} (skip : A → Bool) (find : A → Option A) (xs : List A)
    → FindsSelf skip find xs
    → unfound skip find xs ≡ []
unfolding unfound
unfound_self skip find [] h = refl
unfound_self skip find (x ∷ xs) (p, h) = elim (Bool-cases (skip x)) [
  | inl out ↦ rw out (unfound_self skip find xs h)
  | inr here ↦ rw (here, p here) (unfound_self skip find xs h)
]

module _ (cache : CatalogCache) (t : Table) (a : AgreesOnTable cache t) where
  pub columns-FindsSelf : FindsSelf column_ignored (λ x. column_named t (column_name x)) t.columns
  columns-FindsSelf = FindsSelf-of _ _ t.columns (λ i x.
      live_named_self column_ignored column_name (column_key t) (column_distinct t) _ i x a.columns)

  pub constraints-FindsSelf :
      FindsSelf constraint_ignored (λ x. constraint_named t (constraint_name x)) t.constraints
  constraints-FindsSelf = FindsSelf-of _ _ t.constraints (λ i x.
      live_named_self constraint_ignored constraint_name (constraint_key t) (λ n m e. cc) _ i x
        a.constraints)

  pub indexes-FindsSelf : FindsSelf index_ignored (λ x. index_named t (index_name x)) t.indexes
  indexes-FindsSelf = FindsSelf-of _ _ t.indexes (λ i x.
      live_named_self index_ignored index_name (index_key t) (index_distinct t) _ i x a.indexes)

module _ {A : Type 0} (skip : A → Bool) (f : A → Outcome (Option A)) (find : A → Option A)
    (h : (x : A) → f x ≡ ret (find x)) where
  pub missing_self :
      (drop_objects : Bool) (xs : List A)
      → FindsSelf skip find xs
      → if_dropping drop_objects (missing skip f xs) ≡ ret []
  missing_self true xs s = missing_is skip f find h xs ∙ ap ret (unfound_self skip find xs s)
  missing_self false xs s = refl

  pub compared_self :
      (different : A → A → Outcome Bool) (xs : List A)
      → All (λ x. different x x ≡ ret false) xs
      → FindsSelf skip find xs
      → compared skip f different xs ≡ ret ([], [])
  unfolding compared
  compared_self different [] d s = refl
  compared_self different (x ∷ xs) (d, ds) (s, ss) = elim (Bool-cases (skip x)) [
    | inl out ↦ rw out (compared_self different xs ds ss)
    | inr here ↦ rw (here, h x, s here, compared_self different xs ds ss, d) refl
  ]

pub each_step_self {ℓ} :
    {A : Type ℓ} {S : Type 0} (step : A → S → Outcome S) (xs : List A) (s : S)
    → All (λ x. step x s ≡ ret s) xs
    → each_step step xs s ≡ ret s
unfolding each_step
each_step_self step [] s h = refl
each_step_self step (x ∷ xs) s (p, h) = rw p (each_step_self step xs s h)

pub flags_differ_self : (b : Bool) → flags_differ b b ≡ false
flags_differ_self true = refl
flags_differ_self false = refl

pub columns_differ_self :
    (dialect default_collation : Bytes) (x : Column)
    → IsTyped dialect x
    → columns_differ dialect default_collation x x ≡ ret false
unfolding columns_differ types_differ
columns_differ_self dialect default_collation x t =
    let type = t.normalizes.result in
    rw
      (
        t.normalizes.returns,
        text_eq_refl type.0,
        text_eq_refl type.1,
        text_eq_refl type.2,
        text_eq_refl (normalize_column_default dialect x.column_default),
        flags_differ_self x.is_not_null,
        flags_differ_self (is_given x.column_identity),
        text_eq_refl (collation_or default_collation x),
      )
      refl

pub All_of_FindsSelf :
    {A : Type 0} (skip : A → Bool) (find : A → Option A) (P : A → Type 0)
    → ((x : A) → (skip x ≡ false → find x ≡ some x) → P x)
    → (xs : List A) → FindsSelf skip find xs
    → All P xs
All_of_FindsSelf skip find P h [] s = tt
All_of_FindsSelf skip find P h (x ∷ xs) (s, ss) = (h x s, All_of_FindsSelf skip find P h xs ss)

-- A step that keeps the state where it does not skip keeps it.
pub skipping_self :
    {S : Type 0} (skip : Bool) (m : Outcome S) (s : S)
    → (skip ≡ false → m ≡ ret s)
    → (if skip then ret s else m) ≡ ret s
skipping_self true m s h = refl
skipping_self false m s h = h refl

pub step_if_self :
    {S : Type 0} (b : Bool) (f : S → Outcome S) (s : S) → f s ≡ ret s → step_if b f s ≡ ret s
step_if_self true f s e = e
step_if_self false f s e = refl

pub All-map :
    {A : Type 0} {P Q : A → Type 0} → ((x : A) → P x → Q x) → (xs : List A) → All P xs → All Q xs
All-map h [] p = tt
All-map h (x ∷ xs) (p, ps) = (h x p, All-map h xs ps)
