-- ===== src/QueryAlts/Memory.antt =====
-- Copies of a version tree in fresh shared memory, and its release.
use pgexporter.Prelude.{
  ℕ, ◌≡◌, refl, Bool, true, false, if◌then◌else◌, List, [], ◌∷◌, ◌++◌, ◌⊎◌, inl, inr, arith,
}
use pgexporter.QueryAlts.{Tree, leaf, node}
use pgexporter.QueryAlts.Contents.{to_list}
use mathlib.Core.List.{Perm, perm_append_singleton, perm-cons}
use mathlib.Core.List.Perm

-- Whether each call of `pgexporter_create_shared_memory` succeeds, in the order of the calls; past
-- the end of the list all do.
abbrev pub Outcomes : Type 0
Outcomes = List Bool

abbrev pub next_outcome : Outcomes → Bool × Outcomes
next_outcome [] = (true, [])
next_outcome (done ∷ rest) = (done, rest)

abbrev pub AllDone : Outcomes → Type 0
AllDone [] = Unit
AllDone (x ∷ xs) = (x ≡ true) × AllDone xs

AllDone-cases : (os : Outcomes) → AllDone os ⊎ ¬ AllDone os
AllDone-cases [] = inl tt
AllDone-cases (true ∷ os) = elim (AllDone-cases os) [
  | inl a ↦ inl (refl, a)
  | inr n ↦ inr (λ a. n a.1)
]
AllDone-cases (false ∷ os) = inr (λ a. cc)

module _ {ℓ κ} {K : Type ℓ} {V : Type κ} where
  -- `pgexporter_copy_pg_query_alts` at a destination that is NULL: where the memory cannot be had,
  -- the destination stays NULL and the copy goes on elsewhere.
  unfoldable pub copy_alts : Tree K V → Outcomes → Tree K V × Outcomes
  copy_alts leaf os = (leaf, os)
  copy_alts (node l k v h r) os =
      let (done, os') = next_outcome os in
      let (l', os'') = copy_alts l os' in
      let (r', rest) = copy_alts r os'' in if done then (node l' k v h r', rest) else (leaf, os')

  -- `pgexporter_free_pg_node_avl`: the nodes whose memory is destroyed, in order. The pointer that
  -- it is given ends as NULL.
  unfoldable pub free_nodes : Tree K V → List (K × V)
  free_nodes leaf = []
  free_nodes (node l k v h r) = free_nodes l ++ (free_nodes r ++ ((k, v) ∷ []))

  -- A copy that gets all its memory is the tree itself.
  copy_alts_done :
      (t : Tree K V) (os : Outcomes)
      → AllDone os
      → ((copy_alts t os).0 ≡ t) × AllDone (copy_alts t os).1
  unfolding copy_alts
  copy_alts_done leaf os a = (refl, a)
  copy_alts_done (node l k v h r) [] a =
      ground (arith, copy_alts_done l [] a, copy_alts_done r (copy_alts l []).1)
  copy_alts_done (node l k v h r) (x ∷ xs) a =
      ground (arith, copy_alts_done l xs, copy_alts_done r (copy_alts l xs).1)

  -- `t` without some of its subtrees
  pub data Pruned : Tree K V → Tree K V → Type (ℓ ⊔ κ) where
    cut : {t : Tree K V} → Pruned leaf t
    keep :
        {l l' : Tree K V} {k : K} {v : V} {h : ℕ} {r r' : Tree K V}
        → Pruned l' l
        → Pruned r' r
        → Pruned (node l' k v h r') (node l k v h r)

  copy_alts-Pruned : (t : Tree K V) (os : Outcomes) → Pruned (copy_alts t os).0 t
  unfolding copy_alts
  copy_alts-Pruned leaf os = cut
  copy_alts-Pruned (node l k v h r) [] =
      keep (copy_alts-Pruned l []) (copy_alts-Pruned r (copy_alts l []).1)
  copy_alts-Pruned (node l k v h r) (true ∷ xs) =
      keep (copy_alts-Pruned l xs) (copy_alts-Pruned r (copy_alts l xs).1)
  copy_alts-Pruned (node l k v h r) (false ∷ xs) = cut

  -- A copy is the tree without some subtrees, and it is the whole tree or some allocation failed.
  pub copy_alts_lem :
      (t : Tree K V) (os : Outcomes)
      → Pruned (copy_alts t os).0 t × (((copy_alts t os).0 ≡ t) ⊎ ¬ AllDone os)
  copy_alts_lem t os = (
    copy_alts-Pruned t os,
    elim (AllDone-cases os) [ inl a ↦ inl (copy_alts_done t os a).0 | inr n ↦ inr n ],
  )

  -- Every node is released exactly once.
  pub free_nodes-perm : (t : Tree K V) → Perm (free_nodes t) (to_list t)
  unfolding free_nodes
  free_nodes-perm leaf = Perm.refl []
  free_nodes-perm (node l k v h r) = Perm.append (free_nodes-perm l) (
      Perm.trans (perm_append_singleton (k, v) (free_nodes r))
        ((perm-cons (k, v)).1 (free_nodes-perm r)))
