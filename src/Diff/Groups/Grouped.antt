-- ===== src/Diff/Groups/Grouped.antt =====
-- The groups that foreign keys are sorted into, and the positions that are written down for them.
use sqddl.Base.{
  ℕ, zero, suc, List, [], ◌∷◌, ◌++◌, none, some, ◌≡◌, refl, sym, ap, ◌∙◌, inl, inr, All, All-append,
  length, get_elem?, get_elem?-append_end, get_elem?-append_left, get_elem?-append_inv, set,
  get_elem?-set_self, get_elem?-set_ne, Bool-cases, some-eq_of_eq, subst,
}
use native.Mathlib.Decide.{ℕ_discrete}
use sqddl.Cache.Maps.{
  Key, lookup, put, lookup-put_self, lookup-put_ne, key_eq, key_eq_iff, ne-key_eq,
}
use sqddl.Cache.Slots.{ret}
use sqddl.Catalog.{Constraint}
use sqddl.Diff.Groups.{tables_id, FkeyGroups, no_groups, append_at}

-- All keys of the group have the identity.
abbrev pub HasId : Key → List Constraint → Type 0
HasId k = All (λ x. tables_id x ≡ k)

-- A group that has a key, the identity of which is looked up at position `n`.
pub record StandsAt (g : FkeyGroups) (n : ℕ) (xs : List Constraint) : Type 0 where
  pub first : Constraint
  pub others : List Constraint
  pub not_empty : xs ≡ first ∷ others
  pub found : lookup (tables_id first) g.positions ≡ some n

-- Each position is that of a group whose keys have the identity, and each group stands where the
-- identity of its keys is looked up.
pub record IsGrouped (g : FkeyGroups) : Type 0 where
  pub placed :
      (k : Key) (n : ℕ)
      → lookup k g.positions ≡ some n
      → (xs : List Constraint) × (get_elem? g.groups n ≡ some xs) × HasId k xs
  pub stands : (n : ℕ) (xs : List Constraint) → get_elem? g.groups n ≡ some xs → StandsAt g n xs

pub no_groups-IsGrouped : IsGrouped no_groups
unfolding lookup
no_groups-IsGrouped = record { placed = λ k n e. absurd (cc e); stands = λ n xs e. absurd (cc e) }

pub append_at-set :
    (n : ℕ) (x : Constraint) (gs : List (List Constraint)) (xs : List Constraint)
    → get_elem? gs n ≡ some xs
    → append_at n x gs ≡ ret (set gs n (xs ++ x ∷ []))
unfolding append_at
append_at-set n x [] xs e = cc
append_at-set zero x (g ∷ gs) xs e = ap (λ ys. ret ((ys ++ x ∷ []) ∷ gs)) (some-eq_of_eq e)
append_at-set (suc n) x (g ∷ gs) xs e = rw (append_at-set n x gs xs e) refl

-- The position of an identity determines it.
pub placed_unique :
    (g : FkeyGroups) (k j : Key) (n : ℕ)
    → IsGrouped g
    → lookup k g.positions ≡ some n
    → lookup j g.positions ≡ some n
    → k ≡ j
placed_unique g k j n i e f =
    let (xs, at, has) = i.placed k n e in
    let (ys, also, same) = i.placed j n f in
    let s = i.stands n xs at in
    let xs-id : HasId k (s.first ∷ s.others) = subst (HasId k) s.not_empty has in
    let ys-id : HasId j (s.first ∷ s.others) =
      subst (HasId j) (some-eq_of_eq (sym also ∙ at) ∙ s.not_empty) same in
    sym xs-id.0 ∙ ys-id.0

module _ (x : Constraint) (g : FkeyGroups) (i : IsGrouped g) where
  -- a new group at the end
  module _ (new : lookup (tables_id x) g.positions ≡ none) where
    abbrev pub opened : FkeyGroups
    opened = record {
      groups = g.groups ++ (x ∷ []) ∷ [];
      positions = put (tables_id x) (length g.groups) g.positions;
    }

    opened_placed :
        (k : Key) (n : ℕ)
        → lookup k opened.positions ≡ some n
        → (xs : List Constraint) × (get_elem? opened.groups n ≡ some xs) × HasId k xs
    opened_placed k n e = elim (Bool-cases (key_eq (tables_id x) k)) [
      | inl same ↦
          let is = (key_eq_iff (tables_id x) k).0 same in
          let at : length g.groups ≡ n = some-eq_of_eq (
            sym (lookup-put_self (tables_id x) (length g.groups) g.positions)
            ∙ ap (λ k. lookup k opened.positions) is
            ∙ e) in
          (
            x ∷ [],
            subst (λ n. get_elem? opened.groups n ≡ some (x ∷ [])) at
                (get_elem?-append_end g.groups (x ∷ [])),
            (is, tt),
          )
      | inr other ↦
          let (xs, at, has) = i.placed k n (
            sym (
              lookup-put_ne (tables_id x) k (length g.groups) g.positions
                (ne-key_eq (tables_id x) k other))
            ∙ e) in
          (xs, get_elem?-append_left g.groups (x ∷ []) n at, has)
    ]

    opened_stands :
        (n : ℕ) (xs : List Constraint) → get_elem? opened.groups n ≡ some xs → StandsAt opened n xs
    opened_stands n xs e = elim (get_elem?-append_inv g.groups (x ∷ []) n e) [
      | inl old ↦
          let s = i.stands n xs old in
          record {
            first = s.first;
            others = s.others;
            not_empty = s.not_empty;
            found =
                lookup-put_ne (tables_id x) (tables_id s.first) (length g.groups) g.positions
                  (λ same. cc (sym new ∙ ap (λ k. lookup k g.positions) same ∙ s.found))
                ∙ s.found;
          }
      | inr (at, is) ↦ record {
        first = x;
        others = [];
        not_empty = sym is;
        found = lookup-put_self (tables_id x) (length g.groups) g.positions ∙ ap some (sym at);
      }
    ]

    pub opened-IsGrouped : IsGrouped opened
    opened-IsGrouped = record { placed = opened_placed; stands = opened_stands }

  -- a group that grows
  module _ (m : ℕ) (ys : List Constraint) (found : lookup (tables_id x) g.positions ≡ some m)
      (here : get_elem? g.groups m ≡ some ys) (same_id : HasId (tables_id x) ys) where
    abbrev pub grown : FkeyGroups
    grown = record g { groups = set g.groups m (ys ++ x ∷ []) }

    pub grown_here : get_elem? grown.groups m ≡ some (ys ++ x ∷ [])
    grown_here = get_elem?-set_self g.groups m (ys ++ x ∷ []) here

    grown_placed :
        (k : Key) (n : ℕ)
        → lookup k g.positions ≡ some n
        → (xs : List Constraint) × (get_elem? grown.groups n ≡ some xs) × HasId k xs
    grown_placed k n e = elim (ℕ_discrete m n) [
      | yes same ↦
          let is : tables_id x ≡ k = placed_unique g (tables_id x) k n i (found ∙ ap some same) e in
          (
            ys ++ x ∷ [],
            subst (λ n. get_elem? grown.groups n ≡ some (ys ++ x ∷ [])) same grown_here,
            subst (λ k. HasId k (ys ++ x ∷ [])) is (All-append _ ys (x ∷ []) same_id (refl, tt)),
          )
      | no other ↦
          let (xs, at, has) = i.placed k n e in
          (xs, get_elem?-set_ne g.groups m n (ys ++ x ∷ []) other ∙ at, has)
    ]

    grown_stands :
        (n : ℕ) (xs : List Constraint) → get_elem? grown.groups n ≡ some xs → StandsAt grown n xs
    grown_stands n xs e = elim (ℕ_discrete m n) [
      | yes same ↦
          let s = i.stands m ys here in
          let is : ys ++ x ∷ [] ≡ xs =
            some-eq_of_eq (sym grown_here ∙ ap (get_elem? grown.groups) same ∙ e) in
          record {
            first = s.first;
            others = s.others ++ x ∷ [];
            not_empty = sym is ∙ ap (λ l. l ++ x ∷ []) s.not_empty;
            found = s.found ∙ ap some same;
          }
      | no other ↦
          let s = i.stands n xs (sym (get_elem?-set_ne g.groups m n (ys ++ x ∷ []) other) ∙ e) in
          record { first = s.first; others = s.others; not_empty = s.not_empty; found = s.found }
    ]

    pub grown-IsGrouped : IsGrouped grown
    grown-IsGrouped = record { placed = grown_placed; stands = grown_stands }
