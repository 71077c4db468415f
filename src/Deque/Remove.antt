-- ===== src/Deque/Remove.antt =====
-- pgexporter_deque_remove: the nodes with a tag are taken out, the others keep their order.
use pgexporter.Prelude.{
  ℕ, zero, suc, ◌≤◌, ◌+◌, ◌^◌, ◌<◌, ◌≡◌, refl, sym, ap, ◌∙◌, Bool, true, false, List, [], ◌∷◌, ◌++◌,
  some, ◌==◌, if◌then◌else◌, length, Bool-cases, inl, inr, arith,
}
use pgexporter.Prelude.Int.{ℤ, pos, ◌+ℤ◌}
use pgexporter.Text.{Bytes, to_int}
use pgexporter.Text.Decimal.{to_int_small}
use pgexporter.Deque.{
  Node, Deque, iterator_next, iterator_remove, iterator_create, remove_loop, remove, clear,
  compare_string, decrement, count_up,
}
use pgexporter.Deque.Queue.{holding}
use mathlib.Core.Path.{subst}
use mathlib.Core.List.{reverse, reverse-cons, append_assoc}

positive : (m k n : ℕ) → n ≡ m + suc k → (n == 0) ≡ false
positive m k n e = ground arith

one_less : (m k n : ℕ) → n ≡ m + suc k → n < 2 ^ 32 → decrement n ≡ m + k
one_less m k n e h = omega arith

one_smaller : (m k n : ℕ) → n ≡ m + suc k → n < 2 ^ 32 → m + k < 2 ^ 32
one_smaller m k n e h = omega arith

-- So many nodes counted on from a number.
unfoldable count_times : ℕ → ℤ → ℤ
count_times zero cnt = cnt
count_times (suc k) cnt = count_times k (count_up cnt)

add_one : (n : ℕ) → pos n +ℤ pos 1 ≡ pos (n + 1)
unfolding ◌+ℤ◌
add_one n = ground arith

count_up-pos : (n : ℕ) → n + 1 < 2 ^ 31 → count_up (pos n) ≡ pos (suc n)
unfolding count_up
count_up-pos n h = ap to_int (add_one n) ∙ to_int_small (n + 1) h ∙ ap pos (omega arith)

count_times_lem : (k n : ℕ) → n + k < 2 ^ 31 → count_times k (pos n) ≡ pos (k + n)
unfolding count_times
count_times_lem zero n h = ap pos (omega arith)
count_times_lem (suc k) n h =
    ap (count_times k) (count_up-pos n (omega arith))
    ∙ count_times_lem k (suc n) (omega arith)
    ∙ ap pos (omega arith)

module _ {ℓ} {V : Type ℓ} where
  -- The nodes that a test spares, and how many it does not.
  abbrev pub spared : (Node V → Bool) → List (Node V) → List (Node V)
  spared doomed [] = []
  spared doomed (x ∷ xs) = let rest = spared doomed xs in if doomed x then rest else x ∷ rest

  abbrev pub count_if : (Node V → Bool) → List (Node V) → ℕ
  count_if doomed [] = 0
  count_if doomed (x ∷ xs) = let rest = count_if doomed xs in if doomed x then suc rest else rest

  count_if-le : (doomed : Node V → Bool) (xs : List (Node V)) → count_if doomed xs ≤ length xs
  count_if-le doomed [] = omega arith
  count_if-le doomed (x ∷ xs) = elim (Bool-cases (doomed x)) [
    | inl e ↦ rw e (omega (arith, count_if-le doomed xs))
    | inr e ↦ rw e (omega (arith, count_if-le doomed xs))
  ]

  next_step :
      (n : ℕ) (ps : List (Node V)) (x : Node V) (xs : List (Node V))
      → (n == 0) ≡ false
      → iterator_next (record { count = n; passed = ps; ahead = x ∷ xs })
        ≡ some (record { count = n; passed = x ∷ ps; ahead = xs })
  unfolding iterator_next
  next_step n ps x xs h = rw h refl

  loop_drops :
      (doomed : Node V → Bool) (f n : ℕ) (cnt : ℤ) (ps : List (Node V)) (x : Node V)
      (xs : List (Node V))
      → (n == 0) ≡ false
      → doomed x ≡ true
      → remove_loop doomed (suc f) cnt (record { count = n; passed = ps; ahead = x ∷ xs })
        ≡ remove_loop doomed f
            (count_up cnt)
            (record { count = decrement n; passed = ps; ahead = xs })
  unfolding remove_loop iterator_remove
  loop_drops doomed f n cnt ps x xs h d = rw (next_step n ps x xs h, remove_loop, d) refl

  loop_keeps :
      (doomed : Node V → Bool) (f n : ℕ) (cnt : ℤ) (ps : List (Node V)) (x : Node V)
      (xs : List (Node V))
      → (n == 0) ≡ false
      → doomed x ≡ false
      → remove_loop doomed (suc f) cnt (record { count = n; passed = ps; ahead = x ∷ xs })
        ≡ remove_loop doomed f cnt (record { count = n; passed = x ∷ ps; ahead = xs })
  unfolding remove_loop
  loop_keeps doomed f n cnt ps x xs h d = rw (next_step n ps x xs h, remove_loop, d) refl

  -- The deque after the loop, from the nodes passed and those spared ahead.
  abbrev result : List (Node V) → List (Node V) → Deque V
  result ps xs = record { size = length ps + length xs; nodes = reverse ps ++ xs }

  result_moves :
      (ps : List (Node V)) (x : Node V) (xs : List (Node V))
      → result (x ∷ ps) xs ≡ result ps (x ∷ xs)
  result_moves ps x xs =
      ap (λ n. record { size = n; nodes = reverse (x ∷ ps) ++ xs }) (moved (length ps) (length xs))
      ∙ ap (λ ns. record { size = length ps + suc (length xs); nodes = ns })
          (ap (λ ys. ys ++ xs) (reverse-cons x ps) ∙ append_assoc (reverse ps) (x ∷ []) xs)
    where
      moved : (m k : ℕ) → suc m + k ≡ m + suc k
      moved m k = omega arith

  loop_lem :
      (doomed : Node V → Bool) (xs ps : List (Node V)) (cnt : ℤ) (n : ℕ)
      → n ≡ length ps + length xs
      → n < 2 ^ 32
      → remove_loop doomed (length xs) cnt (record { count = n; passed = ps; ahead = xs })
        ≡ (count_times (count_if doomed xs) cnt, result ps (spared doomed xs))
  unfolding remove_loop count_times
  loop_lem doomed [] ps cnt n e h = rw e refl
  loop_lem doomed (x ∷ xs) ps cnt n e h = elim (Bool-cases (doomed x)) [
    | inl d ↦
        loop_drops doomed (length xs) n cnt ps x xs (positive (length ps) (length xs) n e) d
        ∙ loop_lem doomed xs ps (count_up cnt) (decrement n)
            (one_less (length ps) (length xs) n e h)
            (subst (λ k. k < 2 ^ 32) (sym (one_less (length ps) (length xs) n e h))
              (one_smaller (length ps) (length xs) n e h))
        ∙ rw d refl
    | inr d ↦
        loop_keeps doomed (length xs) n cnt ps x xs (positive (length ps) (length xs) n e) d
        ∙ loop_lem doomed xs (x ∷ ps) cnt n (omega arith) h
        ∙ rw d (
            ap (λ q. (count_times (count_if doomed xs) cnt, q))
              (result_moves ps x (spared doomed xs)))
  ]

  remove_text :
      (tag : Bytes) (q : Deque V)
      → remove (some tag) q
        ≡ remove_loop
            (λ n. compare_string n.tag (some tag))
            (length q.nodes)
            (pos 0)
            (iterator_create q)
  unfolding remove
  remove_text tag q = refl

  iterator_create_lem :
      (xs : List (Node V))
      → iterator_create (holding xs) ≡ record { count = length xs; passed = []; ahead = xs }
  unfolding iterator_create
  iterator_create_lem xs = refl

  abbrev has_tag : Bytes → Node V → Bool
  has_tag tag n = compare_string n.tag (some tag)

  -- Removal by a tag from a deque with fewer than 2 ^ 31 nodes takes out the nodes with this tag,
  -- returns how many they are, and leaves the others in their order with the size of their number.
  pub remove_lem :
      (tag : Bytes) (xs : List (Node V))
      → length xs < 2 ^ 31
      → remove (some tag) (holding xs) ≡ (
        pos (count_if (λ n. compare_string n.tag (some tag)) xs),
        holding (spared (λ n. compare_string n.tag (some tag)) xs),
      )
  remove_lem tag xs h =
      remove_text tag (holding xs)
      ∙ ap (remove_loop (has_tag tag) (length xs) (pos 0)) (iterator_create_lem xs)
      ∙ loop_lem (has_tag tag) xs [] (pos 0) (length xs) (omega arith) (omega arith)
      ∙ ap (λ c. (c, result [] (spared (has_tag tag) xs)))
          (count_times_lem (count_if (has_tag tag) xs) 0
            (omega (arith, count_if-le (has_tag tag) xs)))
      ∙ ap (λ c. (pos c, result [] (spared (has_tag tag) xs))) (no_end (count_if (has_tag tag) xs))
      ∙ ap
          (λ n.
            (pos (count_if (has_tag tag) xs), record { size = n; nodes = spared (has_tag tag) xs }))
          (no_start (length (spared (has_tag tag) xs)))
    where
      no_start : (n : ℕ) → 0 + n ≡ n
      no_start n = omega arith

      no_end : (n : ℕ) → n + 0 ≡ n
      no_end n = omega arith

  clear_text :
      (q : Deque V)
      → clear q ≡ (remove_loop (λ n. true) (length q.nodes) (pos 0) (iterator_create q)).1
  unfolding clear
  clear_text q = refl

  spared_all : (xs : List (Node V)) → spared (λ n. true) xs ≡ []
  spared_all [] = refl
  spared_all (x ∷ xs) = spared_all xs

  -- Clearing a deque with fewer than 2 ^ 32 nodes leaves the empty deque.
  pub clear_lem : (xs : List (Node V)) → length xs < 2 ^ 32 → clear (holding xs) ≡ holding []
  clear_lem xs h =
      clear_text (holding xs)
      ∙ ap (λ it. (remove_loop (λ n. true) (length xs) (pos 0) it).1) (iterator_create_lem xs)
      ∙ ap (λ r. r.1) (loop_lem (λ n. true) xs [] (pos 0) (length xs) (omega arith) h)
      ∙ ap (result []) (spared_all xs)
