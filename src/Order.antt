-- ===== src/Order.antt =====
-- A three-way comparison of keys, as the interface that the version trees are generic in. Two keys
-- may compare equal without being the same key (extension versions 1.2 and 1.2.0 do).
use Prim.Native.Nat.{ℕ, compare, Ordering}
use Prim.Native.Nat.Ordering.{lt, eq, gt}
use pgexporter.Prelude.{◌+◌, ◌≡◌, refl, ◌⊎◌, inl, inr, arith}
use pgexporter.Prelude.Int.{ℤ, pos_part, neg_part}

-- The laws of a total preorder, with transitivity for each way in which two answers chain.
pub record IsPreorder {ℓ} {K : Type ℓ} (cmp : K → K → Ordering) : Type ℓ where
  pub eq_trans : (x y z : K) → cmp x y ≡ eq → cmp y z ≡ eq → cmp x z ≡ eq
  pub lt_of_lt_eq : (x y z : K) → cmp x y ≡ lt → cmp y z ≡ eq → cmp x z ≡ lt
  pub lt_of_eq_lt : (x y z : K) → cmp x y ≡ eq → cmp y z ≡ lt → cmp x z ≡ lt
  pub lt_trans : (x y z : K) → cmp x y ≡ lt → cmp y z ≡ lt → cmp x z ≡ lt
  pub eq_symm : (x y : K) → cmp x y ≡ eq → cmp y x ≡ eq
  pub gt_of_lt : (x y : K) → cmp x y ≡ lt → cmp y x ≡ gt
  pub lt_of_gt : (x y : K) → cmp x y ≡ gt → cmp y x ≡ lt
  pub cmp_refl : (x : K) → cmp x x ≡ eq

-- A key type with its comparison.
pub record Order {ℓ} (K : Type ℓ) : Type ℓ where
  pub cmp : K → K → Ordering
  pub laws : IsPreorder cmp
  pub open laws use *

-- `k ≺ j`: the version `k` is older.
infix 50 ◌≺◌
abbrev pub ◌≺◌ {ℓ} : {K : Type ℓ} ⦃order : Order K⦄ → K → K → Type 0
◌≺◌ ⦃order⦄ k j = order.cmp k j ≡ lt

pub compare-IsPreorder : IsPreorder compare
compare-IsPreorder = ground arith

-- PostgreSQL major versions compare as numbers.
instance unfoldable pub nat_order : Order ℕ
nat_order = record { cmp = compare; laws = compare-IsPreorder }

pub Ordering-cases : (c : Ordering) → (c ≡ lt) ⊎ ((c ≡ eq) ⊎ (c ≡ gt))
Ordering-cases lt = inl refl
Ordering-cases eq = inr (inl refl)
Ordering-cases gt = inr (inr refl)

abbrev pub compare_ℤ : ℤ → ℤ → Ordering
compare_ℤ a b = compare (pos_part a + neg_part b) (pos_part b + neg_part a)

pub compare_ℤ-IsPreorder : IsPreorder compare_ℤ
compare_ℤ-IsPreorder = ground arith

instance unfoldable pub int_order : Order ℤ
int_order = record { cmp = compare_ℤ; laws = compare_ℤ-IsPreorder }
