-- ===== src/Diff/Groups/Pairs.antt =====
-- getTablesID: the order of texts that it compares with, and when it is symmetric.
use sqddl.Base.{
  Bool, true, false, [], ◌∷◌, ◌≡◌, refl, sym, ap, ◌∙◌, if◌then◌else◌, arith, Bytes, false≢true,
}
use sqddl.Diff.Groups.{text_gt, pair_id}

-- Of two texts one is greater, unless they are the same.
text_gt_asym : (a b : Bytes) → text_gt a b ≡ true → text_gt b a ≡ false
unfolding text_gt
text_gt_asym [] b h = cc
text_gt_asym (x ∷ a) [] h = refl
text_gt_asym (x ∷ a) (y ∷ b) h = ground (arith, text_gt_asym a b)

text_gt_total : (a b : Bytes) → text_gt a b ≡ false → text_gt b a ≡ false → a ≡ b
unfolding text_gt
text_gt_total [] [] h k = refl
text_gt_total [] (y ∷ b) h k = cc
text_gt_total (x ∷ a) [] h k = cc
text_gt_total (x ∷ a) (y ∷ b) h k = ground (arith, text_gt_total a b)

text_gt_irrefl : (a : Bytes) → text_gt a a ≡ false
unfolding text_gt
text_gt_irrefl [] = refl
text_gt_irrefl (x ∷ a) = ground (arith, text_gt_irrefl a)

-- getTablesID gives the same identity to both directions between two tables of one schema: the keys
-- from the one to the other and back fall into one group.
pub pair_id_comm :
    (schema table other : Bytes)
    → pair_id schema table schema other ≡ pair_id schema other schema table
unfolding pair_id
pair_id_comm schema table other =
    rw (text_gt_irrefl schema) (by_tests (text_gt table other) (text_gt other table) refl refl)
  where
    by_tests :
        (b c : Bool)
        → text_gt table other ≡ b
        → text_gt other table ≡ c
        → (if b then schema ∷ other ∷ schema ∷ table ∷ [] else schema ∷ table ∷ schema ∷ other ∷ [])
          ≡ (if c
              then schema ∷ table ∷ schema ∷ other ∷ []
              else schema ∷ other ∷ schema ∷ table ∷ [])
    by_tests true true e f = absurd (false≢true (sym (text_gt_asym table other e) ∙ f))
    by_tests true false e f = refl
    by_tests false true e f = refl
    by_tests false false e f =
        ap (λ t. schema ∷ t ∷ schema ∷ other ∷ []) (text_gt_total table other e f)
        ∙ ap (λ t. schema ∷ other ∷ schema ∷ t ∷ []) (sym (text_gt_total table other e f))
