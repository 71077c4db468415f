-- ===== src/Deque/Sort/Order.antt =====
-- deque_sort sorts, and keeps the nodes.
use pgexporter.Prelude.{
  ℕ, zero, suc, ◌≤◌, ◌<◌, ◌≡◌, refl, Bool, false, List, [], ◌∷◌, Option, length, Bool-cases, inl,
  inr, arith, ltb,
}
use pgexporter.Prelude.Int.{ℤ}
use pgexporter.Deque.{Node, Deque}
use pgexporter.Deque.Sort.{deque_sort, deque_merge, split_walk, goes_first, sort}
use pgexporter.Deque.Sort.Merge.{
  InOrder, Consistent, deque_merge-perm, deque_merge-InOrder, split_walk-append, split_walk-shorter,
}
use mathlib.Core.Path.{subst}
use mathlib.Core.List.{Perm}
use mathlib.Core.List.Perm

fits : (a b f : ℕ) → a < b → b ≤ suc f → a ≤ f
fits a b f h l = omega arith

at_most_one : (size n : ℕ) → size ≡ n → ltb 1 size ≡ false → n ≤ 1
at_most_one size n e h = ground arith

module _ {ℓ} {N : Type ℓ} (first : N → N → Bool) where
  -- With as many levels as nodes the sort keeps the nodes.
  deque_sort-perm : (f : ℕ) (ns : List N) → length ns ≤ f → Perm (deque_sort first f ns) ns
  unfolding deque_sort
  deque_sort-perm f [] h = Perm.refl []
  deque_sort-perm f (x ∷ []) h = Perm.refl (x ∷ [])
  deque_sort-perm zero (x ∷ y ∷ ns) h = absurd (omega arith)
  deque_sort-perm (suc f) (x ∷ y ∷ ns) h =
      let halves = split_walk (x ∷ y ∷ ns) (x ∷ y ∷ ns) in
      let shorter = split_walk-shorter x y ns in
      let front = deque_sort-perm f halves.0 (fits _ _ f shorter.0 h) in
      let back = deque_sort-perm f halves.1 (fits _ _ f shorter.1 h) in
      subst (Perm (deque_merge first (deque_sort first f halves.0) (deque_sort first f halves.1)))
        (split_walk-append (x ∷ y ∷ ns) (x ∷ y ∷ ns))
        (Perm.trans
          (deque_merge-perm first (deque_sort first f halves.0) (deque_sort first f halves.1))
          (Perm.append front back))

  deque_sort-InOrder :
      (f : ℕ) (ns : List N) → Consistent first → InOrder first (deque_sort first f ns)
  unfolding deque_sort
  deque_sort-InOrder f [] c = tt
  deque_sort-InOrder f (x ∷ []) c = (tt, tt)
  deque_sort-InOrder zero (x ∷ y ∷ ns) c = tt
  deque_sort-InOrder (suc f) (x ∷ y ∷ ns) c =
      let halves = split_walk (x ∷ y ∷ ns) (x ∷ y ∷ ns) in
      deque_merge-InOrder first (deque_sort first f halves.0) (deque_sort first f halves.1) c
        (deque_sort-InOrder f halves.0 c) (deque_sort-InOrder f halves.1 c)

module _ {ℓ} {V : Type ℓ} where
  -- A deque that counts its nodes is sorted by `pgexporter_deque_sort` if the comparison is
  -- consistent: its nodes are the same with each before all it has to precede, and so is its size.
  pub sort_lem :
      (compare : Option (V → V → ℤ)) (q : Deque V)
      → q.size ≡ length q.nodes
      → Consistent (goes_first compare)
      → Perm (sort compare q).nodes q.nodes
        × InOrder (goes_first compare) (sort compare q).nodes
        × ((sort compare q).size ≡ q.size)
  unfolding sort
  sort_lem compare q counted c = elim (Bool-cases (ltb 1 q.size)) [
    | inl e ↦ rw e (
      deque_sort-perm (goes_first compare) (length q.nodes) q.nodes (omega arith),
      deque_sort-InOrder (goes_first compare) (length q.nodes) q.nodes c,
      refl,
    )
    | inr e ↦
        rw e
          (Perm.refl q.nodes, short q.nodes (at_most_one q.size (length q.nodes) counted e), refl)
  ]
    where
      short : (ns : List (Node V)) → length ns ≤ 1 → InOrder (goes_first compare) ns
      short [] h = tt
      short (x ∷ []) h = (tt, tt)
      short (x ∷ y ∷ ns) h = absurd (omega arith)
