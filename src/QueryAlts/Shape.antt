-- ===== src/QueryAlts/Shape.antt =====
-- The shape of the version trees: stored heights, balance and depth.
use pgexporter.Prelude.{ℕ, suc, ◌+◌, max, ◌≤◌, ◌<◌, ◌≡◌, ◌⊎◌, ◌≢◌, refl, true, false, arith}
use native.Mathlib.Decide.{ℕ_discrete}
use pgexporter.Prelude.Int.{pos, negsuc, sub_ℕ, ltb_ℤ, eqb_ℤ}
use pgexporter.QueryAlts.{
  Tree, leaf, node, height, with_height, right_rotate, left_rotate, rebalance,
}

gt_one_false : (a b : ℕ) → a ≤ b + 1 → ltb_ℤ (pos 1) (sub_ℕ a b) ≡ false
gt_one_false a b h = ground arith

lt_minus_one_false : (a b : ℕ) → b ≤ a + 1 → ltb_ℤ (sub_ℕ a b) (negsuc 0) ≡ false
lt_minus_one_false a b h = ground arith

gt_one_true : (a b : ℕ) → a ≡ b + 2 → ltb_ℤ (pos 1) (sub_ℕ a b) ≡ true
gt_one_true a b h = ground arith

lt_minus_one_true : (a b : ℕ) → b ≡ a + 2 → ltb_ℤ (sub_ℕ a b) (negsuc 0) ≡ true
lt_minus_one_true a b h = ground arith

eq_minus_one_true : (a b : ℕ) → b ≡ a + 1 → eqb_ℤ (sub_ℕ a b) (negsuc 0) ≡ true
eq_minus_one_true a b h = ground arith

eq_one_true : (a b : ℕ) → a ≡ b + 1 → eqb_ℤ (sub_ℕ a b) (pos 1) ≡ true
eq_one_true a b h = ground arith

eq_minus_one_false : (a b : ℕ) → b ≢ a + 1 → eqb_ℤ (sub_ℕ a b) (negsuc 0) ≡ false
eq_minus_one_false a b h = ground arith

eq_one_false : (a b : ℕ) → a ≢ b + 1 → eqb_ℤ (sub_ℕ a b) (pos 1) ≡ false
eq_one_false a b h = ground arith

eq_zero_false : (a b : ℕ) → a < b → eqb_ℤ (sub_ℕ a b) (pos 0) ≡ false
eq_zero_false a b h = ground arith

module _ {ℓ κ} {K : Type ℓ} {V : Type κ} where
  -- the true depth and the number of nodes
  abbrev pub depth : Tree K V → ℕ
  depth leaf = 0
  depth (node l k v h r) = suc (max (depth l) (depth r))

  abbrev pub size : Tree K V → ℕ
  size leaf = 0
  size (node l k v h r) = suc (size l + size r)

  -- A stored height is exact over its children's, or is the 0 that a childless node came in with.
  abbrev pub HeightFits : Tree K V → ℕ → Tree K V → Type 0
  HeightFits l h r = (h ≡ max (height l) (height r) + 1) ⊎ (h ≡ 0) × (depth l ≡ 0) × (depth r ≡ 0)

  abbrev pub IsBalanced : Tree K V → Type 0
  IsBalanced leaf = Unit
  IsBalanced (node l k v h r) =
      HeightFits l h r
      × (height l ≤ height r + 1)
      × (height r ≤ height l + 1)
      × IsBalanced l
      × IsBalanced r

  -- Heights that differ by one at most need no rotation.
  rebalance_level :
      (l : Tree K V) (k : K) (v : V) (r : Tree K V)
      → height l ≤ height r + 1
      → height r ≤ height l + 1
      → rebalance l k v r ≡ with_height l k v r
  unfolding rebalance
  rebalance_level l k v r hl hr =
      rw (gt_one_false (height l) (height r) hl, lt_minus_one_false (height l) (height r) hr) refl

  -- A balanced tree, of the height `n` or one more.
  abbrev Repaired : Tree K V → ℕ → Type 0
  Repaired t n = IsBalanced t × (n ≤ height t) × (height t ≤ n + 1)

  double_left :
      (a : Tree K V) (lk : K) (lv : V) (lh : ℕ) (c : Tree K V) (ck : K) (cv : V) (ch : ℕ)
      (d : Tree K V) (k : K) (v : V) (r : Tree K V)
      → ch ≡ height a + 1
      → lh ≡ height r + 2
      → rebalance (node a lk lv lh (node c ck cv ch d)) k v r
        ≡ with_height (with_height a lk lv c) ck cv (with_height d k v r)
  unfolding rebalance right_rotate left_rotate
  double_left a lk lv lh c ck cv ch d k v r p q =
      rw (gt_one_true lh (height r) q, eq_minus_one_true (height a) ch p) refl

  double_right :
      (l : Tree K V) (k : K) (v : V) (a : Tree K V) (ak : K) (av : V) (ah : ℕ) (b : Tree K V)
      (lk : K) (lv : V) (lh : ℕ) (d : Tree K V)
      → ah ≡ height d + 1
      → lh ≡ height l + 2
      → height l < max (height a) (max (height b) (height d) + 1) + 1
      → rebalance l k v (node (node a ak av ah b) lk lv lh d)
        ≡ with_height (with_height l k v a) ak av (with_height b lk lv d)
  unfolding rebalance right_rotate left_rotate
  double_right l k v a ak av ah b lk lv lh d p q n =
      rw
        (
          lt_minus_one_true (height l) lh q,
          gt_one_false (height l) lh (omega arith),
          eq_one_true ah (height d) p,
          eq_zero_false _ _ n,
        )
        refl

  single_left :
      (a : Tree K V) (lk : K) (lv : V) (lh : ℕ) (b : Tree K V) (k : K) (v : V) (r : Tree K V)
      → height b ≢ height a + 1
      → lh ≡ height r + 2
      → rebalance (node a lk lv lh b) k v r ≡ with_height a lk lv (with_height b k v r)
  unfolding rebalance right_rotate
  single_left a lk lv lh b k v r p q =
      rw (gt_one_true lh (height r) q, eq_minus_one_false (height a) (height b) p) refl

  single_right :
      (l : Tree K V) (k : K) (v : V) (a : Tree K V) (rk : K) (rv : V) (rh : ℕ) (b : Tree K V)
      → height a ≢ height b + 1
      → rh ≡ height l + 2
      → rebalance l k v (node a rk rv rh b) ≡ with_height (with_height l k v a) rk rv b
  unfolding rebalance left_rotate
  single_right l k v a rk rv rh b p q =
      rw
        (
          lt_minus_one_true (height l) rh q,
          gt_one_false (height l) rh (omega arith),
          eq_one_false (height a) (height b) p,
          eq_zero_false (height l) rh (omega arith),
        )
        refl

  double_left-Repaired :
      (a : Tree K V) (lk : K) (lv : V) (lh : ℕ) (c : Tree K V) (ck : K) (cv : V) (ch : ℕ)
      (d : Tree K V) (k : K) (v : V) (r : Tree K V)
      → IsBalanced (node a lk lv lh (node c ck cv ch d))
      → IsBalanced r
      → ch ≡ height a + 1
      → lh ≡ height r + 2
      → Repaired (rebalance (node a lk lv lh (node c ck cv ch d)) k v r) lh
  double_left-Repaired a lk lv lh c ck cv ch d k v r bl br p q =
      rw (double_left a lk lv lh c ck cv ch d k v r p q) (ground arith)

  double_right-Repaired :
      (l : Tree K V) (k : K) (v : V) (a : Tree K V) (ak : K) (av : V) (ah : ℕ) (b : Tree K V)
      (lk : K) (lv : V) (lh : ℕ) (d : Tree K V)
      → IsBalanced l
      → IsBalanced (node (node a ak av ah b) lk lv lh d)
      → ah ≡ height d + 1
      → lh ≡ height l + 2
      → Repaired (rebalance l k v (node (node a ak av ah b) lk lv lh d)) lh
  double_right-Repaired l k v a ak av ah b lk lv lh d bl br p q =
      rw (double_right l k v a ak av ah b lk lv lh d p q (omega arith)) (ground arith)

  rebalance_left :
      (l : Tree K V) (k : K) (v : V) (r : Tree K V)
      → IsBalanced l
      → IsBalanced r
      → height l ≡ height r + 2
      → Repaired (rebalance l k v r) (height l)
  rebalance_left leaf k v r bl br e = absurd (omega arith)
  rebalance_left (node a lk lv lh leaf) k v r bl br e =
      rw (single_left a lk lv lh leaf k v r (omega arith) e) (ground arith)
  rebalance_left (node a lk lv lh (node c ck cv ch d)) k v r bl br e =
      elim (ℕ_discrete ch (height a + 1)) [
        | yes p ↦ double_left-Repaired a lk lv lh c ck cv ch d k v r bl br p e
        | no p ↦ rw (single_left a lk lv lh (node c ck cv ch d) k v r p e) (ground arith)
      ]

  rebalance_right :
      (l : Tree K V) (k : K) (v : V) (r : Tree K V)
      → IsBalanced l
      → IsBalanced r
      → height r ≡ height l + 2
      → Repaired (rebalance l k v r) (height r)
  rebalance_right l k v leaf bl br e = absurd (omega arith)
  rebalance_right l k v (node leaf lk lv lh d) bl br e =
      rw (single_right l k v leaf lk lv lh d (omega arith) e) (ground arith)
  rebalance_right l k v (node (node a ak av ah b) lk lv lh d) bl br e =
      elim (ℕ_discrete ah (height d + 1)) [
        | yes p ↦ double_right-Repaired l k v a ak av ah b lk lv lh d bl br p e
        | no p ↦ rw (single_right l k v (node a ak av ah b) lk lv lh d p e) (ground arith)
      ]

  -- A node whose children's heights differ by two at most.
  pub rebalance-IsBalanced :
      (l : Tree K V) (k : K) (v : V) (r : Tree K V)
      → IsBalanced l
      → IsBalanced r
      → height l ≤ height r + 2
      → height r ≤ height l + 2
      → IsBalanced (rebalance l k v r)
        × (max (height l) (height r) ≤ height (rebalance l k v r))
        × (height (rebalance l k v r) ≤ max (height l) (height r) + 1)
        × (height l ≤ height r + 1
            → height r ≤ height l + 1
            → height (rebalance l k v r) ≡ max (height l) (height r) + 1)
  rebalance-IsBalanced l k v r bl br hl hr = elim (ℕ_discrete (height l) (height r + 2)) [
    | yes e ↦ ground (arith, rebalance_left l k v r bl br e)
    | no n ↦ elim (ℕ_discrete (height r) (height l + 2)) [
      | yes e ↦ ground (arith, rebalance_right l k v r bl br e)
      | no m ↦ rw (rebalance_level l k v r (omega arith) (omega arith)) (ground arith)
    ]
  ]
