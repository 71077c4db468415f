-- ===== src/Deque/Sort.antt =====
-- pgexporter_deque_sort: the merge sort deque_sort with get_middle and deque_merge, on the nodes
-- between the sentinels, and tag_compare. The C recursion ends by itself; here `deque_sort` has as
-- many levels as the deque has nodes, and `deque_merge` as many rounds as its two lists.
pub mod Merge
pub mod Order
pub mod Tags
use pgexporter.Prelude.{
  ℕ, zero, suc, ◌+◌, Bool, true, false, not, List, [], ◌∷◌, Option, none, some, ltb, if◌then◌else◌,
  length,
}
use pgexporter.Prelude.Int.{ℤ, pos, negsuc, ltb_ℤ}
use pgexporter.Text.{Bytes, strcmp}
use pgexporter.Deque.{Node, Deque}

unfoldable pub tag_compare : Option Bytes → Option Bytes → ℤ
tag_compare none none = pos 0
tag_compare none (some b) = pos 1
tag_compare (some a) none = negsuc 0
tag_compare (some a) (some b) = strcmp a b

module _ {ℓ} {V : Type ℓ} where
  -- cmp_result <= 0: the callback on the values, or the tags if it is NULL.
  unfoldable pub goes_first : Option (V → V → ℤ) → Node V → Node V → Bool
  goes_first none x y = not (ltb_ℤ (pos 0) (tag_compare x.tag y.tag))
  goes_first (some compare) x y = not (ltb_ℤ (pos 0) (compare x.data_of y.data_of))

module _ {ℓ} {N : Type ℓ} where
  -- get_middle by the slow and the fast pointer, and the cut before the middle: the nodes before it
  -- and those from it on.
  unfoldable pub split_walk : List N → List N → List N × List N
  split_walk slow [] = ([], slow)
  split_walk slow (x ∷ []) = ([], slow)
  split_walk [] (x ∷ y ∷ fast) = ([], [])
  split_walk (s ∷ slow) (x ∷ y ∷ fast) =
      let (front, back) = split_walk slow fast in (s ∷ front, back)

  -- deque_merge: the loop over both lists, and what one of them has left.
  unfoldable pub merge_loop : (N → N → Bool) → ℕ → List N → List N → List N
  merge_loop first f [] right = right
  merge_loop first f (x ∷ left) [] = x ∷ left
  merge_loop first zero (x ∷ left) (y ∷ right) = []
  merge_loop first (suc f) (x ∷ left) (y ∷ right) = elim (first x y) [
    | true ↦ x ∷ merge_loop first f left (y ∷ right)
    | false ↦ y ∷ merge_loop first f (x ∷ left) right
  ]

  unfoldable pub deque_merge : (N → N → Bool) → List N → List N → List N
  unfolding merge_loop
  deque_merge first left right = merge_loop first (length left + length right) left right

  unfoldable pub deque_sort : (N → N → Bool) → ℕ → List N → List N
  unfolding split_walk deque_merge
  deque_sort first f [] = []
  deque_sort first f (x ∷ []) = x ∷ []
  deque_sort first zero (x ∷ y ∷ ns) = []
  deque_sort first (suc f) (x ∷ y ∷ ns) =
      let (front, back) = split_walk (x ∷ y ∷ ns) (x ∷ y ∷ ns) in
      deque_merge first (deque_sort first f front) (deque_sort first f back)

module _ {ℓ} {V : Type ℓ} where
  -- pgexporter_deque_sort
  unfoldable pub sort : Option (V → V → ℤ) → Deque V → Deque V
  unfolding deque_sort goes_first
  sort compare q =
      if ltb 1 q.size
      then record {
        size = q.size;
        nodes = deque_sort (goes_first compare) (length q.nodes) q.nodes;
      }
      else q
