-- ===== src/Deque/Sort/Tags.antt =====
-- The order of the tags, tag_compare over strcmp: NULL stands behind all other tags.
use pgexporter.Prelude.{
  ◌≡◌, ◌⊎◌, refl, Bool, true, not, [], ◌∷◌, Option, none, some, inl, inr, arith,
}
use pgexporter.Prelude.Int.{ℤ, pos, ltb_ℤ}
use pgexporter.Text.{Bytes, strcmp}
use pgexporter.Deque.Sort.{tag_compare, goes_first}
use pgexporter.Deque.Sort.Merge.{Consistent}

abbrev at_most : ℤ → Bool
at_most z = not (ltb_ℤ (pos 0) z)

strcmp_total : (a b : Bytes) → (at_most (strcmp a b) ≡ true) ⊎ (at_most (strcmp b a) ≡ true)
unfolding strcmp
strcmp_total [] [] = inl refl
strcmp_total [] (y ∷ ys) = inl refl
strcmp_total (x ∷ xs) [] = inr refl
strcmp_total (x ∷ xs) (y ∷ ys) = ground (arith, strcmp_total xs ys)

strcmp_trans :
    (a b c : Bytes)
    → at_most (strcmp a b) ≡ true
    → at_most (strcmp b c) ≡ true
    → at_most (strcmp a c) ≡ true
unfolding strcmp
strcmp_trans [] b [] h k = refl
strcmp_trans [] b (z ∷ zs) h k = refl
strcmp_trans (x ∷ xs) [] c h k = cc
strcmp_trans (x ∷ xs) (y ∷ ys) [] h k = cc
strcmp_trans (x ∷ xs) (y ∷ ys) (z ∷ zs) h k = ground (arith, strcmp_trans xs ys zs)

tag_compare_total :
    (a b : Option Bytes) → (at_most (tag_compare a b) ≡ true) ⊎ (at_most (tag_compare b a) ≡ true)
unfolding tag_compare
tag_compare_total none none = inl refl
tag_compare_total none (some b) = inr refl
tag_compare_total (some a) none = inl refl
tag_compare_total (some a) (some b) = strcmp_total a b

tag_compare_trans :
    (a b c : Option Bytes)
    → at_most (tag_compare a b) ≡ true
    → at_most (tag_compare b c) ≡ true
    → at_most (tag_compare a c) ≡ true
unfolding tag_compare
tag_compare_trans none none c h k = k
tag_compare_trans none (some b) c h k = cc
tag_compare_trans (some a) none none h k = refl
tag_compare_trans (some a) none (some c) h k = cc
tag_compare_trans (some a) (some b) none h k = refl
tag_compare_trans (some a) (some b) (some c) h k = strcmp_trans a b c h k

-- The comparison of nodes by their tags is total and transitive, also where tags are NULL: the
-- sort by tags has what `sort_lem` asks of a comparison.
pub goes_first-Consistent {ℓ} : {V : Type ℓ} → Consistent (goes_first {V = V} none)
unfolding goes_first
goes_first-Consistent = record {
  total = λ x y. tag_compare_total x.tag y.tag;
  trans = λ x y z. tag_compare_trans x.tag y.tag z.tag;
}
