-- ===== src/QueryAlts/Contents.antt =====
-- The version tree as the sorted list of its versions: insertion against insertion into a list.
use mathlib.Core.List.{append_assoc}
use pgexporter.Prelude.{
  ◌+◌, max, ◌≡◌, refl, sym, Bool, true, false, List, [], ◌∷◌, ◌++◌, inl, inr, ℕ, if◌then◌else◌, not,
}
use pgexporter.Prelude.Int.{pos, negsuc, ltb_ℤ, eqb_ℤ}
use Prim.Native.Nat.Ordering.{lt, eq, gt}
use pgexporter.Order.{Order, ◌≺◌, Ordering-cases}
use pgexporter.QueryAlts.Sorted.{
  All-imp, IsSorted, IsSorted-parts, insert_sorted, insert_sorted_before, insert_sorted_past,
  insert_sorted_same, insert_sorted_after, insert_sorted-IsSorted,
}
use pgexporter.QueryAlts.{
  Tree, leaf, node, height, node_balance, right_rotate, left_rotate, rebalance, insert, new_node,
}

module _ {ℓ κ} {K : Type ℓ} {V : Type κ} where
  -- the versions and queries in order
  abbrev pub to_list : Tree K V → List (K × V)
  to_list leaf = []
  to_list (node l k v h r) = to_list l ++ ((k, v) ∷ to_list r)

  to_list-right_rotate : (t : Tree K V) → to_list (right_rotate t) ≡ to_list t
  unfolding right_rotate
  to_list-right_rotate leaf = refl
  to_list-right_rotate (node leaf k v h r) = refl
  to_list-right_rotate (node (node ll lk lv lh lr) k v h r) =
      sym (append_assoc (to_list ll) ((lk, lv) ∷ to_list lr) ((k, v) ∷ to_list r))

  to_list-left_rotate : (t : Tree K V) → to_list (left_rotate t) ≡ to_list t
  unfolding left_rotate
  to_list-left_rotate leaf = refl
  to_list-left_rotate (node l k v h leaf) = refl
  to_list-left_rotate (node l k v h (node rl rk rv rh rr)) =
      append_assoc (to_list l) ((k, v) ∷ to_list rl) ((rk, rv) ∷ to_list rr)

  -- The rotations of `rebalance` under any outcome of its tests.
  to_list_rotations :
      (heavy_left lean_right heavy_right lean_left stays : Bool) (l : Tree K V) (k : K) (v : V)
      (h : ℕ) (r : Tree K V)
      → to_list (
          if heavy_left
          then right_rotate (node (if lean_right then left_rotate l else l) k v h r)
          else (if heavy_right
              then (if stays
                  then left_rotate (node l k v h (if lean_left then right_rotate r else r))
                  else node l k v h (if lean_left then right_rotate r else r))
              else node l k v h r))
        ≡ to_list l ++ ((k, v) ∷ to_list r)
  to_list_rotations true true c d e l k v h r = simp (to_list-right_rotate, to_list-left_rotate)
  to_list_rotations true false c d e l k v h r = simp to_list-right_rotate
  to_list_rotations false b true true true l k v h r =
      simp (to_list-right_rotate, to_list-left_rotate)
  to_list_rotations false b true true false l k v h r = simp to_list-right_rotate
  to_list_rotations false b true false true l k v h r = simp to_list-left_rotate
  to_list_rotations false b true false false l k v h r = refl
  to_list_rotations false b false d e l k v h r = refl

  -- Rebalancing moves nodes and keeps their order.
  pub to_list-rebalance :
      (l : Tree K V) (k : K) (v : V) (r : Tree K V)
      → to_list (rebalance l k v r) ≡ to_list l ++ ((k, v) ∷ to_list r)
  unfolding rebalance
  to_list-rebalance l k v r =
      let h = max (height l) (height r) + 1 in
      let balance = node_balance (node l k v h r) in
      let lean_left = eqb_ℤ (node_balance r) (pos 1) in
      let r' = (if lean_left then right_rotate r else r) in
      to_list_rotations (ltb_ℤ (pos 1) balance) (eqb_ℤ (node_balance l) (negsuc 0))
        (ltb_ℤ balance (negsuc 0)) lean_left (not (eqb_ℤ (node_balance (node l k v h r')) (pos 0)))
        l k v h r

module _ {ℓ κ} {K : Type ℓ} {V : Type κ} ⦃o : Order K⦄ where
  insert_above :
      (l : Tree K V) (k : K) (v : V) (h : ℕ) (r : Tree K V) (q : K) (w : V)
      → o.cmp k q ≡ lt
      → insert (node l k v h r) q w ≡ (rebalance l k v (insert r q w).0, (insert r q w).1)
  unfolding insert
  insert_above l k v h r q w e = rw (e, insert) refl

  insert_same :
      (l : Tree K V) (k : K) (v : V) (h : ℕ) (r : Tree K V) (q : K) (w : V)
      → o.cmp k q ≡ eq
      → insert (node l k v h r) q w ≡ (node l k v h r, true)
  unfolding insert
  insert_same l k v h r q w e = rw (e, insert) refl

  insert_below :
      (l : Tree K V) (k : K) (v : V) (h : ℕ) (r : Tree K V) (q : K) (w : V)
      → o.cmp k q ≡ gt
      → insert (node l k v h r) q w ≡ (rebalance (insert l q w).0 k v r, (insert l q w).1)
  unfolding insert
  insert_below l k v h r q w e = rw (e, insert) refl

  insert_empty : (q : K) (w : V) → insert leaf q w ≡ (new_node q w, false)
  unfolding insert
  insert_empty q w = refl

  -- Insertion into the tree is insertion into the sorted list of its alternatives.
  pub to_list-insert :
      (t : Tree K V) (q : K) (w : V)
      → IsSorted (to_list t)
      → to_list (insert t q w).0 ≡ insert_sorted q w (to_list t)
  unfolding insert_sorted
  to_list-insert leaf q w s = rw (insert_empty q w) refl
  to_list-insert (node l k v h r) q w s =
      let parts = IsSorted-parts (to_list l) k v (to_list r) s in
      let past = λ (below : (j : K) → j ≺ k → j ≺ q).
        insert_sorted_past q w (to_list l) ((k, v) ∷ to_list r)
          (All-imp {P = λ j. j ≺ k} {Q = λ j. j ≺ q} below (to_list l) parts.1) in
      elim (Ordering-cases (o.cmp k q)) [
        | inl e ↦
            rw
              (
                insert_above l k v h r q w e,
                past (λ j a. o.lt_trans j k q a e),
                insert_sorted_after q w k v (to_list r) e,
                to_list-rebalance l k v (insert r q w).0,
                to_list-insert r q w parts.3,
              )
              refl
        | inr (inl e) ↦
            rw
              (
                insert_same l k v h r q w e,
                past (λ j a. o.lt_of_lt_eq j k q a e),
                insert_sorted_same q w k v (to_list r) e,
              )
              refl
        | inr (inr e) ↦
            rw
              (
                insert_below l k v h r q w e,
                insert_sorted_before q w (to_list l) k v (to_list r) e,
                to_list-rebalance (insert l q w).0 k v r,
                to_list-insert l q w parts.0,
              )
              refl
      ]

  -- Insertion keeps the versions strictly ascending.
  pub insert-IsSorted :
      (t : Tree K V) (q : K) (w : V) → IsSorted (to_list t) → IsSorted (to_list (insert t q w).0)
  insert-IsSorted t q w s = rw (to_list-insert t q w s) (insert_sorted-IsSorted q w (to_list t) s)

  -- The insertions of a list one after the other, and those into a sorted list.
  unfoldable pub build : Tree K V → List (K × V) → Tree K V
  build t [] = t
  build t (x ∷ xs) = build (insert t x.0 x.1).0 xs

  unfoldable pub sort_all : List (K × V) → List (K × V) → List (K × V)
  sort_all acc [] = acc
  sort_all acc (x ∷ xs) = sort_all (insert_sorted x.0 x.1 acc) xs

  -- Inserting a list of alternatives one after the other into a tree with ascending versions
  -- gives the tree of the sorted insertions, ascending again.
  pub to_list-build :
      (t : Tree K V) (xs : List (K × V))
      → IsSorted (to_list t)
      → (to_list (build t xs) ≡ sort_all (to_list t) xs) × IsSorted (to_list (build t xs))
  unfolding build sort_all
  to_list-build t [] s = (refl, s)
  to_list-build t (x ∷ xs) s =
      let ih = to_list-build (insert t x.0 x.1).0 xs (insert-IsSorted t x.0 x.1 s) in
      (rw (← to_list-insert t x.0 x.1 s) ih.0, ih.1)
