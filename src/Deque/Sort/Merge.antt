-- ===== src/Deque/Sort/Merge.antt =====
-- deque_merge and get_middle: contents, order and lengths.
use pgexporter.Prelude.{
  ℕ, zero, suc, ◌+◌, ◌*◌, ◌≤◌, ◌<◌, ◌≡◌, ◌⊎◌, refl, sym, ap, Bool, true, false, List, [], ◌∷◌, ◌++◌,
  length, length-append, Bool-cases, inl, inr, arith,
}
use pgexporter.Deque.Sort.{merge_loop, deque_merge, split_walk}
use mathlib.Core.Path.{subst}
use mathlib.Core.List.{Perm, perm-cons, perm_middle, append-nil}
use mathlib.Core.List.Perm

module _ {ℓ} {N : Type ℓ} where
  -- `x` goes before each node of a list.
  abbrev pub Leads : (N → N → Bool) → N → List N → Type 0
  Leads first x [] = Unit
  Leads first x (y ∷ ys) = (first x y ≡ true) × Leads first x ys

  -- Each node goes before all behind it.
  abbrev pub InOrder : (N → N → Bool) → List N → Type 0
  InOrder first [] = Unit
  InOrder first (x ∷ xs) = Leads first x xs × InOrder first xs

  -- One of two nodes goes first, and going first is transitive.
  pub record Consistent (first : N → N → Bool) : Type ℓ where
    pub total : (x y : N) → (first x y ≡ true) ⊎ (first y x ≡ true)
    pub trans : (x y z : N) → first x y ≡ true → first y z ≡ true → first x z ≡ true

module _ {ℓ} {N : Type ℓ} (first : N → N → Bool) where
  merge_left :
      (f : ℕ) (x : N) (left : List N) (y : N) (right : List N)
      → first x y ≡ true
      → merge_loop first (suc f) (x ∷ left) (y ∷ right) ≡ x ∷ merge_loop first f left (y ∷ right)
  unfolding merge_loop
  merge_left f x left y right e = rw (e, merge_loop) refl

  merge_right :
      (f : ℕ) (x : N) (left : List N) (y : N) (right : List N)
      → first x y ≡ false
      → merge_loop first (suc f) (x ∷ left) (y ∷ right) ≡ y ∷ merge_loop first f (x ∷ left) right
  unfolding merge_loop
  merge_right f x left y right e = rw (e, merge_loop) refl

  merge_loop-perm :
      (f : ℕ) (left right : List N)
      → length left + length right ≤ f
      → Perm (merge_loop first f left right) (left ++ right)
  unfolding merge_loop
  merge_loop-perm f [] right h = Perm.refl right
  merge_loop-perm f (x ∷ left) [] h = rw (append-nil left) (Perm.refl (x ∷ left))
  merge_loop-perm zero (x ∷ left) (y ∷ right) h = absurd (omega arith)
  merge_loop-perm (suc f) (x ∷ left) (y ∷ right) h = elim (Bool-cases (first x y)) [
    | inl e ↦
        subst (λ m. Perm m (x ∷ (left ++ (y ∷ right)))) (sym (merge_left f x left y right e))
          ((perm-cons x).1 (merge_loop-perm f left (y ∷ right) (omega arith)))
    | inr e ↦
        subst (λ m. Perm m (x ∷ (left ++ (y ∷ right)))) (sym (merge_right f x left y right e))
          (Perm.trans ((perm-cons y).1 (merge_loop-perm f (x ∷ left) right (omega arith)))
            (Perm.symm (perm_middle (x ∷ left) right)))
  ]

  merge_loop-Leads :
      (f : ℕ) (z : N) (left right : List N)
      → Leads first z left
      → Leads first z right
      → Leads first z (merge_loop first f left right)
  unfolding merge_loop
  merge_loop-Leads f z [] right l r = r
  merge_loop-Leads f z (x ∷ left) [] l r = l
  merge_loop-Leads zero z (x ∷ left) (y ∷ right) l r = tt
  merge_loop-Leads (suc f) z (x ∷ left) (y ∷ right) l r = elim (Bool-cases (first x y)) [
    | inl e ↦
        subst (Leads first z) (sym (merge_left f x left y right e))
          (l.0, merge_loop-Leads f z left (y ∷ right) l.1 r)
    | inr e ↦
        subst (Leads first z) (sym (merge_right f x left y right e))
          (r.0, merge_loop-Leads f z (x ∷ left) right l r.1)
  ]

  Leads-through :
      (x y : N) (ys : List N)
      → Consistent first
      → first x y ≡ true
      → Leads first y ys
      → Leads first x ys
  Leads-through x y [] c e l = tt
  Leads-through x y (z ∷ zs) c e l = (c.trans x y z e l.0, Leads-through x y zs c e l.1)

  other_first : (x y : N) → Consistent first → first x y ≡ false → first y x ≡ true
  other_first x y c e = elim (c.total x y) [ inl t ↦ cc | inr t ↦ t ]

  merge_loop-InOrder :
      (f : ℕ) (left right : List N)
      → Consistent first
      → InOrder first left
      → InOrder first right
      → InOrder first (merge_loop first f left right)
  unfolding merge_loop
  merge_loop-InOrder f [] right c l r = r
  merge_loop-InOrder f (x ∷ left) [] c l r = l
  merge_loop-InOrder zero (x ∷ left) (y ∷ right) c l r = tt
  merge_loop-InOrder (suc f) (x ∷ left) (y ∷ right) c l r = elim (Bool-cases (first x y)) [
    | inl e ↦ subst (InOrder first) (sym (merge_left f x left y right e)) (
      merge_loop-Leads f x left (y ∷ right) l.0 (e, Leads-through x y right c e r.0),
      merge_loop-InOrder f left (y ∷ right) c l.1 r,
    )
    | inr e ↦
        let back = other_first x y c e in
        subst (InOrder first) (sym (merge_right f x left y right e)) (
          merge_loop-Leads f y (x ∷ left) right (back, Leads-through y x left c back l.0) r.0,
          merge_loop-InOrder f (x ∷ left) right c l r.1,
        )
  ]

  pub deque_merge-perm : (left right : List N) → Perm (deque_merge first left right) (left ++ right)
  unfolding deque_merge
  deque_merge-perm left right =
      merge_loop-perm (length left + length right) left right (omega arith)

  pub deque_merge-InOrder :
      (left right : List N)
      → Consistent first
      → InOrder first left
      → InOrder first right
      → InOrder first (deque_merge first left right)
  unfolding deque_merge
  deque_merge-InOrder left right = merge_loop-InOrder (length left + length right) left right

module _ {ℓ} {N : Type ℓ} where
  -- The two halves are the list again.
  pub split_walk-append :
      (slow fast : List N) → (split_walk slow fast).0 ++ (split_walk slow fast).1 ≡ slow
  unfolding split_walk
  split_walk-append slow [] = refl
  split_walk-append slow (x ∷ []) = refl
  split_walk-append [] (x ∷ y ∷ fast) = refl
  split_walk-append (s ∷ slow) (x ∷ y ∷ fast) = ap (λ ns. s ∷ ns) (split_walk-append slow fast)

  -- The first half has at most half of the nodes that the fast pointer goes over.
  pub split_walk-front : (slow fast : List N) → 2 * length (split_walk slow fast).0 ≤ length fast
  unfolding split_walk
  split_walk-front slow [] = omega arith
  split_walk-front slow (x ∷ []) = omega arith
  split_walk-front [] (x ∷ y ∷ fast) = omega arith
  split_walk-front (s ∷ slow) (x ∷ y ∷ fast) = omega (arith, split_walk-front slow fast)

  -- Of two nodes or more, neither half has all.
  pub split_walk-shorter :
      (x y : N) (ns : List N)
      → (length (split_walk (x ∷ y ∷ ns) (x ∷ y ∷ ns)).0 < length (x ∷ y ∷ ns))
        × (length (split_walk (x ∷ y ∷ ns) (x ∷ y ∷ ns)).1 < length (x ∷ y ∷ ns))
  unfolding split_walk
  split_walk-shorter x y ns =
      let halves = split_walk (y ∷ ns) ns in
      let front : 2 * length halves.0 ≤ length ns = split_walk-front (y ∷ ns) ns in
      let all : length (halves.0 ++ halves.1) ≡ suc (length ns) =
        ap length (split_walk-append (y ∷ ns) ns) in
      let sum : length (halves.0 ++ halves.1) ≡ length halves.0 + length halves.1 =
        length-append halves.0 halves.1 in
      (omega arith, omega arith)
