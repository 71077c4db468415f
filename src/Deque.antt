-- ===== src/Deque.antt =====
-- The deque, src/libpgexporter/deque.c: a doubly linked list between two sentinel nodes, as the
-- list of the nodes between them; the end of the list is the side of deque->end. The size is a
-- uint32_t field of its own. The pointers to the deque and to iterators are not NULL here, memory
-- does not run out, and the read-write lock, under which each operation runs as a whole, is left
-- out.
pub mod Queue
pub mod Remove
pub mod Sort
use pgexporter.Prelude.{
  ℕ, zero, suc, ◌+◌, ◌-◌, ◌%◌, ◌^◌, Bool, true, false, not, List, [], ◌∷◌, ◌++◌, Option, none, some,
  ltb, ◌==◌, if◌then◌else◌, length,
}
use pgexporter.Prelude.Int.{ℤ, pos, negsuc, ltb_ℤ, ◌+ℤ◌}
use pgexporter.Text.{Bytes, same, strcmp, to_int}
use mathlib.Core.List.{reverse}

-- struct deque_node without its links
pub record Node {ℓ} (V : Type ℓ) : Type ℓ where
  pub tag : Option Bytes
  pub data_of : V

pub record Deque {ℓ} (V : Type ℓ) : Type ℓ where
  pub size : ℕ
  pub nodes : List (Node V)

-- struct deque_iterator: the nodes that it has passed, the current one first, and those ahead.
-- Without a passed node it stands at deque->start.
pub record Iterator {ℓ} (V : Type ℓ) : Type ℓ where
  pub count : ℕ
  pub passed : List (Node V)
  pub ahead : List (Node V)

abbrev pub uint32 : ℕ → ℕ
uint32 n = n % 2 ^ 32

abbrev pub decrement : ℕ → ℕ
decrement n = uint32 (n + 2 ^ 32 - 1)

-- cnt++ on an int
unfoldable pub count_up : ℤ → ℤ
unfolding ◌+ℤ◌ to_int
count_up cnt = to_int (cnt +ℤ pos 1)

-- pgexporter_compare_string
unfoldable pub compare_string : Option Bytes → Option Bytes → Bool
compare_string none none = true
compare_string none (some b) = false
compare_string (some a) none = false
compare_string (some a) (some b) = same a b

module _ {ℓ} {V : Type ℓ} where
  unfoldable pub create : Deque V
  create = record { size = 0; nodes = [] }

  -- deque_offer; `is_none` tells whether the type is ValueNone.
  unfoldable pub offer : Bool → Node V → Deque V → Deque V
  offer is_none n q =
      if is_none then q else record { size = uint32 (q.size + 1); nodes = q.nodes ++ (n ∷ []) }

  -- pgexporter_deque_poll: the node that is taken out, `none` where 0 is returned.
  abbrev pub take_first : ℕ → List (Node V) → Option (Node V) × Deque V
  take_first n [] = (none, record { size = n; nodes = [] })
  take_first n (x ∷ xs) = (some x, record { size = decrement n; nodes = xs })

  unfoldable pub poll : Deque V → Option (Node V) × Deque V
  poll q = if q.size == 0 then (none, q) else take_first q.size q.nodes

  -- pgexporter_deque_poll_last
  abbrev pub take_last : ℕ → List (Node V) → Option (Node V) × Deque V
  take_last n [] = (none, record { size = n; nodes = [] })
  take_last n (x ∷ xs) = (some x, record { size = decrement n; nodes = reverse xs })

  unfoldable pub poll_last : Deque V → Option (Node V) × Deque V
  poll_last q = if q.size == 0 then (none, q) else take_last q.size (reverse q.nodes)

  abbrev pub head_of : List (Node V) → Option (Node V)
  head_of [] = none
  head_of (x ∷ xs) = some x

  unfoldable pub peek : Deque V → Option (Node V)
  peek q = if q.size == 0 then none else head_of q.nodes

  unfoldable pub peek_last : Deque V → Option (Node V)
  peek_last q = if q.size == 0 then none else head_of (reverse q.nodes)

  -- pgexporter_deque_iterator_create
  unfoldable pub iterator_create : Deque V → Iterator V
  iterator_create q = record { count = q.size; passed = []; ahead = q.nodes }

  -- pgexporter_deque_iterator_next, over deque_next: `none` where the iterator ends.
  abbrev pub step_ahead : ℕ → List (Node V) → List (Node V) → Option (Iterator V)
  step_ahead n passed [] = none
  step_ahead n passed (x ∷ xs) = some (record { count = n; passed = x ∷ passed; ahead = xs })

  unfoldable pub iterator_next : Iterator V → Option (Iterator V)
  iterator_next it = if it.count == 0 then none else step_ahead it.count it.passed it.ahead

  unfoldable pub iterator_has_next : Iterator V → Bool
  unfolding iterator_next
  iterator_has_next it = elim (iterator_next it) [ none ↦ false | some next ↦ true ]

  -- pgexporter_deque_iterator_remove: nothing happens at the start.
  abbrev pub drop_current : ℕ → List (Node V) → List (Node V) → Iterator V
  drop_current n [] ahead = record { count = n; passed = []; ahead = ahead }
  drop_current n (x ∷ xs) ahead = record { count = decrement n; passed = xs; ahead = ahead }

  unfoldable pub iterator_remove : Iterator V → Iterator V
  iterator_remove it = drop_current it.count it.passed it.ahead

  -- The deque that an iterator is in.
  abbrev pub whole : Iterator V → Deque V
  whole it = record { size = it.count; nodes = reverse it.passed ++ it.ahead }

  -- The loop over deque_next of deque_find; the size does not change in it.
  unfoldable pub find_from : Bytes → List (Node V) → Option (Node V)
  find_from tag [] = none
  find_from tag (x ∷ xs) =
      let rest = find_from tag xs in if compare_string (some tag) x.tag then some x else rest

  -- deque_find: no node for NULL or an empty tag.
  unfoldable pub find : Option Bytes → Deque V → Option (Node V)
  find none q = none
  find (some []) q = none
  find (some (c ∷ cs)) q = if q.size == 0 then none else find_from (c ∷ cs) q.nodes

  unfoldable pub get : Option Bytes → Deque V → Option V
  unfolding find
  get tag q = elim (find tag q) [ none ↦ none | some n ↦ some n.data_of ]

  unfoldable pub exists : Option Bytes → Deque V → Bool
  unfolding find
  exists tag q = elim (find tag q) [ none ↦ false | some n ↦ true ]

  -- The loop of pgexporter_deque_remove, on as many rounds as there are nodes: the number of nodes
  -- removed, an int that wraps around, and the deque. `doomed` is the test of the tag.
  unfoldable pub remove_loop : (Node V → Bool) → ℕ → ℤ → Iterator V → ℤ × Deque V
  unfolding iterator_next iterator_remove count_up
  remove_loop doomed zero cnt it = (cnt, whole it)
  remove_loop doomed (suc f) cnt it = elim (iterator_next it) [
    | none ↦ (cnt, whole it)
    | some next ↦ elim (current_doomed next.passed) [
      | true ↦ remove_loop doomed f (count_up cnt) (iterator_remove next)
      | false ↦ remove_loop doomed f cnt next
    ]
  ]
    where
      current_doomed : List (Node V) → Bool
      current_doomed [] = false
      current_doomed (x ∷ xs) = doomed x

  -- pgexporter_deque_remove
  unfoldable pub remove : Option Bytes → Deque V → ℤ × Deque V
  unfolding remove_loop iterator_create compare_string
  remove none q = (pos 0, q)
  remove (some tag) q =
      remove_loop (λ n. compare_string n.tag (some tag)) (length q.nodes) (pos 0)
        (iterator_create q)

  -- pgexporter_deque_clear
  unfoldable pub clear : Deque V → Deque V
  unfolding remove_loop iterator_create
  clear q = (remove_loop (λ n. true) (length q.nodes) (pos 0) (iterator_create q)).1
