-- ===== src/QueryAlts/Built.antt =====
-- The version trees of src/libpgexporter/pg_query_alts.c that insertions one after the other build: their
-- size and balance.
use pgexporter.Prelude.{
  ◌+◌, ◌≤◌, ◌≡◌, refl, ap, true, List, [], ◌∷◌, Bool, length, length-append, arith,
}
use Prim.Native.Nat.{Ordering}
use Prim.Native.Nat.Ordering.{lt, eq, gt}
use pgexporter.Order.{Order, int_order}
use pgexporter.QueryAlts.{Tree, leaf, node, insert, rebalance}
use pgexporter.QueryAlts.Shape.{size, IsBalanced}
use pgexporter.QueryAlts.Balance.{insert-IsBalanced}
use pgexporter.QueryAlts.Contents.{to_list, to_list-rebalance, build}

module _ {ℓ κ} {K : Type ℓ} {V : Type κ} where
  length-to_list : (t : Tree K V) → length (to_list t) ≡ size t
  length-to_list leaf = refl
  length-to_list (node l k v h r) =
      omega
        (arith, length-append (to_list l) ((k, v) ∷ to_list r), length-to_list l, length-to_list r)

  size-rebalance :
      (l : Tree K V) (k : K) (v : V) (r : Tree K V) → size (rebalance l k v r) ≡ size l + size r + 1
  size-rebalance l k v r = omega (
    arith,
    length-to_list (rebalance l k v r),
    ap length (to_list-rebalance l k v r),
    length-append (to_list l) ((k, v) ∷ to_list r),
    length-to_list l,
    length-to_list r,
  )

module _ {ℓ κ} {K : Type ℓ} {V : Type κ} ⦃o : Order K⦄ where
  size-insert : (t : Tree K V) (q : K) (w : V) → size (insert t q w).0 ≤ size t + 1
  unfolding insert
  size-insert leaf q w = omega arith
  size-insert (node l k v h r) q w =
      elim (o.cmp k q) as (λ c. size (branch c).0 ≤ size (node l k v h r) + 1) [
        | lt ↦ omega (arith, size-rebalance l k v (insert r q w).0, size-insert r q w)
        | eq ↦ omega arith
        | gt ↦ omega (arith, size-rebalance (insert l q w).0 k v r, size-insert l q w)
      ]
    where
      branch : Ordering → Tree K V × Bool
      branch c = elim c [
        | eq ↦ (node l k v h r, true)
        | gt ↦ (let (l', freed) = insert l q w in (rebalance l' k v r, freed))
        | lt ↦ (let (r', freed) = insert r q w in (rebalance l k v r', freed))
      ]

  pub build-IsBalanced :
      (t : Tree K V) (xs : List (K × V))
      → IsBalanced t
      → IsBalanced (build t xs) × (size (build t xs) ≤ size t + length xs)
  unfolding build
  build-IsBalanced t [] b = (b, omega arith)
  build-IsBalanced t (x ∷ xs) b =
      let ih = build-IsBalanced (insert t x.0 x.1).0 xs (insert-IsBalanced t x.0 x.1 b).0 in
      (ih.0, omega (arith, ih.1, size-insert t x.0 x.1))
