-- ===== src/Diff/Groups/Collected.antt =====
-- Sorting foreign keys into groups keeps each key, in the group of its identity.
use sqddl.Base.{
  ℕ, List, [], ◌∷◌, ◌++◌, Option, none, some, ◌≡◌, ◌≢◌, refl, sym, ap, ◌∙◌, inl, inr, if◌then◌else◌,
  length, get_elem?, get_elem?-append_end, get_elem?-append_left, get_elem?-set_ne, Bool-cases,
  Option-cases, append_assoc, append-nil,
}
use sqddl.Cache.Maps.{Key, lookup, lookup-put_self, lookup-put_ne, key_eq, key_eq_iff, ne-key_eq}
use sqddl.Cache.Slots.{ret}
use sqddl.Catalog.{Constraint}
use sqddl.Diff.Groups.{tables_id, FkeyGroups, no_groups, place_fkey, group_fkey}
use sqddl.Diff.Groups.Grouped.{
  HasId, IsGrouped, no_groups-IsGrouped, append_at-set, placed_unique, opened, opened-IsGrouped,
  grown, grown_here, grown-IsGrouped,
}
use sqddl.Diff.Steps.{each_step}

-- The keys of an identity, in order.
abbrev pub having : Key → List Constraint → List Constraint
having k [] = []
having k (x ∷ xs) = if key_eq (tables_id x) k then x ∷ having k xs else having k xs

abbrev keys_in : Option (List Constraint) → List Constraint
keys_in none = []
keys_in (some xs) = xs

abbrev keys_at : List (List Constraint) → Option ℕ → List Constraint
keys_at groups none = []
keys_at groups (some n) = keys_in (get_elem? groups n)

-- The keys of the group that is looked up for an identity.
abbrev pub group_of : FkeyGroups → Key → List Constraint
group_of g k = keys_at g.groups (lookup k g.positions)

having-append :
    (k : Key) (x : Constraint) (xs : List Constraint)
    → having k (x ∷ xs) ≡ having k (x ∷ []) ++ having k xs
having-append k x xs = elim (Bool-cases (key_eq (tables_id x) k)) [
  | inl same ↦ rw same refl
  | inr other ↦ rw other refl
]

module _ (x : Constraint) (g : FkeyGroups) (i : IsGrouped g) where
  opened_kept :
      (new : lookup (tables_id x) g.positions ≡ none) (k : Key)
      → group_of (opened x g i new) k ≡ group_of g k ++ having k (x ∷ [])
  opened_kept new k = elim (Bool-cases (key_eq (tables_id x) k)) [
    | inl same ↦
        let is = (key_eq_iff (tables_id x) k).0 same in
        rw
          (
            same,
            ← is,
            lookup-put_self (tables_id x) (length g.groups) g.positions,
            get_elem?-append_end g.groups (x ∷ []),
            new,
          )
          refl
    | inr other ↦
        rw
          (
            other,
            lookup-put_ne (tables_id x) k (length g.groups) g.positions
                (ne-key_eq (tables_id x) k other),
          )
          (elim (Option-cases (lookup k g.positions)) [
            | inl none_there ↦ rw none_there refl
            | inr (n, there) ↦
                let (xs, at, has) = i.placed k n there in
                rw (there, at, get_elem?-append_left g.groups (x ∷ []) n at) (sym (append-nil xs))
          ])
  ]

  grown_kept :
      (m : ℕ) (ys : List Constraint) (found : lookup (tables_id x) g.positions ≡ some m)
      (here : get_elem? g.groups m ≡ some ys) (same_id : HasId (tables_id x) ys) (k : Key)
      → group_of (grown x g i m ys found here same_id) k ≡ group_of g k ++ having k (x ∷ [])
  grown_kept m ys found here same_id k = elim (Bool-cases (key_eq (tables_id x) k)) [
    | inl same ↦
        let is = (key_eq_iff (tables_id x) k).0 same in
        rw (same, ← is, found, here, grown_here x g i m ys found here same_id) refl
    | inr other ↦ rw other (elim (Option-cases (lookup k g.positions)) [
      | inl none_there ↦ rw none_there refl
      | inr (n, there) ↦
          let (xs, at, has) = i.placed k n there in
          let apart : m ≢ n = λ e.
            ne-key_eq (tables_id x) k other
              (placed_unique g (tables_id x) k n i (found ∙ ap some e) there) in
          rw (there, at, get_elem?-set_ne g.groups m n (ys ++ x ∷ []) apart ∙ at)
            (sym (append-nil xs))
    ])
  ]

  place_fkey-IsGrouped :
      (o : Option ℕ)
      → lookup (tables_id x) g.positions ≡ o
      → (g' : FkeyGroups) × (place_fkey x g o ≡ ret g')
        × IsGrouped g'
        × ((k : Key) → group_of g' k ≡ group_of g k ++ having k (x ∷ []))
  unfolding place_fkey
  place_fkey-IsGrouped none e = (opened x g i e, refl, opened-IsGrouped x g i e, opened_kept e)
  place_fkey-IsGrouped (some n) e =
      let (xs, at, has) = i.placed (tables_id x) n e in
      (
        grown x g i n xs e at has,
        rw (append_at-set n x g.groups xs at) refl,
        grown-IsGrouped x g i n xs e at has,
        grown_kept n xs e at has,
      )

group_fkeys :
    (fkeys : List Constraint) (g : FkeyGroups)
    → IsGrouped g
    → (g' : FkeyGroups) × (each_step group_fkey fkeys g ≡ ret g')
      × IsGrouped g'
      × ((k : Key) → group_of g' k ≡ group_of g k ++ having k fkeys)
unfolding each_step group_fkey
group_fkeys [] g i = (g, refl, i, λ k. sym (append-nil (group_of g k)))
group_fkeys (x ∷ fkeys) g i =
    let (g', e, j, kept) = place_fkey-IsGrouped x g i (lookup (tables_id x) g.positions) refl in
    let (h, f, l, all_kept) = group_fkeys fkeys g' j in
    (
      h,
      rw e f,
      l,
      λ k.
          all_kept k
          ∙ ap (λ s. s ++ having k fkeys) (kept k)
          ∙ append_assoc (group_of g k) (having k (x ∷ [])) (having k fkeys)
          ∙ ap (λ s. group_of g k ++ s) (sym (having-append k x fkeys)),
    )

-- Sorting any foreign keys into groups, from no groups on, ends without a panic. For each identity of
-- tables the group that is looked up holds the keys of that identity, all of them and in their order;
-- there is none if they are none. Every group is one that is looked up so: it is not empty, and the
-- position that is written down for its identity is its own.
pub group_fkey-IsGrouped :
    (fkeys : List Constraint)
    → (g : FkeyGroups) × (each_step group_fkey fkeys no_groups ≡ ret g)
      × IsGrouped g
      × ((k : Key) → group_of g k ≡ having k fkeys)
unfolding lookup
group_fkey-IsGrouped fkeys = group_fkeys fkeys no_groups no_groups-IsGrouped
