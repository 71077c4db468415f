-- ===== src/QueryAlts/Balance.antt =====
-- Insertion keeps a version tree balanced in its stored heights; what that says of its depth.
use pgexporter.Prelude.{ℕ, zero, suc, ◌+◌, ◌-◌, ◌≤◌, ◌≡◌, refl, inl, inr, Bool, true, arith}
use native.Mathlib.Nat.{zero-add, suc-add}
use native.Mathlib.Decide.{dec_le}
use pgexporter.Order.{Order}
use Prim.Native.Nat.{Ordering}
use Prim.Native.Nat.Ordering.{lt, eq, gt}
use pgexporter.QueryAlts.{Tree, leaf, node, height, rebalance, insert, new_node}
use pgexporter.QueryAlts.Shape.{depth, size, IsBalanced, rebalance-IsBalanced}

module _ {ℓ κ} {K : Type ℓ} {V : Type κ} where
  -- What an insertion may do to a balanced tree: the stored height of the root grows by one at
  -- most, and a tree that was empty gets height 0.
  Grown : Tree K V → Tree K V → Type 0
  Grown t t' =
      IsBalanced t'
      × (height t ≤ height t')
      × (height t' ≤ height t + 1)
      × (depth t ≡ 0 → height t' ≡ 0)

  height_of_empty : (t : Tree K V) → depth t ≡ 0 → height t ≡ 0
  height_of_empty leaf e = refl
  height_of_empty (node l k v h r) e = absurd (omega arith)

  rebalance_left-Grown :
      (l l' : Tree K V) (k : K) (v : V) (h : ℕ) (r : Tree K V)
      → IsBalanced (node l k v h r)
      → Grown l l'
      → Grown (node l k v h r) (rebalance l' k v r)
  unfolding Grown
  rebalance_left-Grown l l' k v h r b g =
      let step = rebalance-IsBalanced l' k v r g.0 b.4 (omega arith) (omega arith) in
      (
        step.0,
        ground (arith, height_of_empty l, height_of_empty r),
        ground (arith, height_of_empty l, height_of_empty r),
        λ e. absurd (omega arith),
      )

  rebalance_right-Grown :
      (l : Tree K V) (k : K) (v : V) (h : ℕ) (r r' : Tree K V)
      → IsBalanced (node l k v h r)
      → Grown r r'
      → Grown (node l k v h r) (rebalance l k v r')
  unfolding Grown
  rebalance_right-Grown l k v h r r' b g =
      let step = rebalance-IsBalanced l k v r' b.3 g.0 (omega arith) (omega arith) in
      (
        step.0,
        ground (arith, height_of_empty l, height_of_empty r),
        ground (arith, height_of_empty l, height_of_empty r),
        λ e. absurd (omega arith),
      )

  node-Grown : (t : Tree K V) → IsBalanced t → Grown t t
  unfolding Grown
  node-Grown t b = (b, omega arith, omega arith, height_of_empty t)

  new_node-Grown : (q : K) (w : V) → Grown leaf (new_node q w)
  unfolding Grown
  new_node-Grown q w = ground arith

module _ {ℓ κ} {K : Type ℓ} {V : Type κ} ⦃o : Order K⦄ where
  insert-Grown : (t : Tree K V) (q : K) (w : V) → IsBalanced t → Grown t (insert t q w).0
  unfolding insert
  insert-Grown leaf q w b = new_node-Grown q w
  insert-Grown (node l k v h r) q w b =
      let left = rebalance_left-Grown l (insert l q w).0 k v h r b (insert-Grown l q w b.3) in
      let right = rebalance_right-Grown l k v h r (insert r q w).0 b (insert-Grown r q w b.4) in
      let same = node-Grown (node l k v h r) b in
      elim (o.cmp k q) as (λ c. Grown (node l k v h r) (branch c).0) [
        | lt ↦ right
        | eq ↦ same
        | gt ↦ left
      ]
    where
      branch : Ordering → Tree K V × Bool
      branch c = elim c [
        | eq ↦ (node l k v h r, true)
        | gt ↦ (let (l', freed) = insert l q w in (rebalance l' k v r, freed))
        | lt ↦ (let (r', freed) = insert r q w in (rebalance l k v r', freed))
      ]

  -- Insertion keeps the balance, and the stored height of the root grows by one at most.
  pub insert-IsBalanced :
      (t : Tree K V) (q : K) (w : V)
      → IsBalanced t
      → IsBalanced (insert t q w).0
        × (height t ≤ height (insert t q w).0)
        × (height (insert t q w).0 ≤ height t + 1)
  unfolding Grown
  insert-IsBalanced t q w b = let g = insert-Grown t q w b in (g.0, g.1, g.2)

abbrev pub fib : ℕ → ℕ
fib zero = 0
fib (suc zero) = 1
fib (suc (suc n)) = fib n + fib (suc n)

fib-le-suc : (n : ℕ) → fib n ≤ fib (suc n)
fib-le-suc zero = omega arith
fib-le-suc (suc n) = omega arith

fib_mono_add : (n d : ℕ) → fib n ≤ fib (d + n)
fib_mono_add n zero = rw zero-add (omega arith)
fib_mono_add n (suc d) = rw suc-add (omega (arith, fib_mono_add n d, fib-le-suc (d + n)))

fib_mono : (n m : ℕ) → n ≤ m → fib n ≤ fib m
fib_mono n m h = let e : m ≡ (m - n) + n = omega arith in rw e (fib_mono_add n (m - n))

module _ {ℓ κ} {K : Type ℓ} {V : Type κ} where
  -- The true depth exceeds the stored height by one at most.
  pub depth-le-height : (t : Tree K V) → IsBalanced t → depth t ≤ height t + 1
  depth-le-height leaf b = omega arith
  depth-le-height (node l k v h r) b = ground (arith, depth-le-height l, depth-le-height r)

  fib-le-size : (t : Tree K V) → IsBalanced t → fib (suc (suc (height t))) ≤ size t + 1
  fib-le-size leaf b = omega arith
  fib-le-size (node l k v h r) b =
      let hl = height l in
      let hr = height r in
      let left = fib-le-size l b.3 in
      let right = fib-le-size r b.4 in
      elim b.0 [
        | inl e ↦ elim (dec_le hr hl) [
          | yes p ↦
              let big = fib_mono (suc h) (suc (suc hl)) (omega arith) in
              let small = fib_mono h (suc (suc hr)) (omega arith) in omega arith
          | no p ↦
              let big = fib_mono (suc h) (suc (suc hr)) (omega arith) in
              let small = fib_mono h (suc (suc hl)) (omega arith) in omega arith
        ]
        | inr e ↦ rw e.0 (omega arith)
      ]

  -- A balanced tree of depth d has at least fib (d + 1) - 1 nodes, so its depth is logarithmic.
  pub depth_bound : (t : Tree K V) → IsBalanced t → fib (depth t + 1) ≤ size t + 1
  depth_bound t b =
      let step =
        fib_mono (depth t + 1) (suc (suc (height t))) (omega (arith, depth-le-height t b)) in
      omega (arith, fib-le-size t b)
