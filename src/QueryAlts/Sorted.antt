-- ===== src/QueryAlts/Sorted.antt =====
-- Sorted lists of versions, and insertion into them: what the version tree stands for.
use Prim.Native.Nat.Ordering.{lt, eq, gt}
use pgexporter.Prelude.{
  ◌≡◌, refl, sym, ap, List, [], ◌∷◌, ◌++◌, Option, none, some, if◌then◌else◌, arith,
}
use pgexporter.Order.{Order, ◌≺◌}
use pgexporter.QueryAlts.{le_key}

module _ {ℓ κ} {K : Type ℓ} {V : Type κ} where
  -- The statement holds of the version of each entry.
  abbrev pub All {μ} : (K → Type μ) → List (K × V) → Type μ
  All Holds [] = Unit
  All Holds ((k, v) ∷ rest) = Holds k × All Holds rest

  pub All-append {μ} :
      (P : K → Type μ) (xs ys : List (K × V)) → All P xs → All P ys → All P (xs ++ ys)
  All-append P [] ys a b = b
  All-append P (x ∷ xs) ys a b = (a.0, All-append P xs ys a.1 b)

  pub All-parts {μ} :
      (P : K → Type μ) (xs ys : List (K × V)) → All P (xs ++ ys) → All P xs × All P ys
  All-parts P [] ys a = (tt, a)
  All-parts P (x ∷ xs) ys a = let rest = All-parts P xs ys a.1 in ((a.0, rest.0), rest.1)

  pub All-imp {μ ν} :
      {P : K → Type μ} {Q : K → Type ν}
      → ((k : K) → P k → Q k)
      → (entries : List (K × V)) → All P entries
      → All Q entries
  All-imp weaken [] held = tt
  All-imp weaken ((k, v) ∷ rest) held = (weaken k held.0, All-imp weaken rest held.1)

  -- the first present, reading from the right
  abbrev pub or_else : Option (K × V) → Option (K × V) → Option (K × V)
  or_else none y = y
  or_else (some x) y = some x

  pub or_else_assoc : (x y z : Option (K × V)) → or_else x (or_else y z) ≡ or_else (or_else x y) z
  or_else_assoc none y z = refl
  or_else_assoc (some x) y z = refl

  pub or_else-none : (x : Option (K × V)) → or_else x none ≡ x
  or_else-none none = refl
  or_else-none (some x) = refl

module _ {ℓ κ} {K : Type ℓ} {V : Type κ} ⦃o : Order K⦄ where
  -- strictly ascending versions
  abbrev pub IsSorted : List (K × V) → Type 0
  IsSorted [] = Unit
  IsSorted (x ∷ xs) = All (λ k. x.0 ≺ k) xs × IsSorted xs

  unfoldable pub insert_sorted : K → V → List (K × V) → List (K × V)
  insert_sorted q w [] = (q, w) ∷ []
  insert_sorted q w (x ∷ xs) = elim (o.cmp x.0 q) [
    | lt ↦ x ∷ insert_sorted q w xs
    | eq ↦ x ∷ xs
    | gt ↦ (q, w) ∷ x ∷ xs
  ]

  -- the last alternative that a version may run
  unfoldable pub floor : K → List (K × V) → Option (K × V)
  floor ver [] = none
  floor ver (x ∷ xs) = or_else (floor ver xs) (if le_key x.0 ver then some x else none)

  pub IsSorted-parts :
      (xs : List (K × V)) (k : K) (v : V) (ys : List (K × V))
      → IsSorted (xs ++ ((k, v) ∷ ys))
      → IsSorted xs × All (λ j. j ≺ k) xs × All (λ j. k ≺ j) ys × IsSorted ys
  IsSorted-parts [] k v ys s = (tt, tt, s.0, s.1)
  IsSorted-parts (x ∷ xs) k v ys s =
      let parts = All-parts (λ j. x.0 ≺ j) xs ((k, v) ∷ ys) s.0 in
      let rest = IsSorted-parts xs k v ys s.1 in
      ((parts.0, rest.0), (parts.1.0, rest.1), rest.2, rest.3)

  All-insert_sorted {μ} :
      (P : K → Type μ) (q : K) (w : V) (xs : List (K × V))
      → P q
      → All P xs
      → All P (insert_sorted q w xs)
  unfolding insert_sorted
  All-insert_sorted P q w [] p a = (p, tt)
  All-insert_sorted P q w (x ∷ xs) p a = ground (arith, All-insert_sorted P q w xs)

  pub insert_sorted-IsSorted :
      (q : K) (w : V) (xs : List (K × V)) → IsSorted xs → IsSorted (insert_sorted q w xs)
  unfolding insert_sorted
  insert_sorted-IsSorted q w [] s = (tt, tt)
  insert_sorted-IsSorted q w (x ∷ xs) s = ground (
    arith,
    insert_sorted-IsSorted q w xs,
    All-insert_sorted (λ j. x.0 ≺ j) q w xs,
    o.lt_of_gt x.0 q,
    λ (h : q ≺ x.0). All-imp {P = λ j. x.0 ≺ j} {Q = λ j. q ≺ j} (λ j. o.lt_trans q x.0 j h) xs s.0,
  )

  -- Insertion below an entry, and past entries that are below.
  pub insert_sorted_before :
      (q : K) (w : V) (xs : List (K × V)) (k : K) (v : V) (ys : List (K × V))
      → o.cmp k q ≡ gt
      → insert_sorted q w (xs ++ ((k, v) ∷ ys)) ≡ insert_sorted q w xs ++ ((k, v) ∷ ys)
  unfolding insert_sorted
  insert_sorted_before q w [] k v ys h = rw (h, insert_sorted) refl
  insert_sorted_before q w (x ∷ xs) k v ys h = ground (arith, insert_sorted_before q w xs k v ys h)

  pub insert_sorted_past :
      (q : K) (w : V) (xs ys : List (K × V))
      → All (λ j. j ≺ q) xs
      → insert_sorted q w (xs ++ ys) ≡ xs ++ insert_sorted q w ys
  unfolding insert_sorted
  insert_sorted_past q w [] ys a = refl
  insert_sorted_past q w (x ∷ xs) ys a =
      rw (a.0, insert_sorted) (ap (λ l. x ∷ l) (insert_sorted_past q w xs ys a.1))

  pub insert_sorted_same :
      (q : K) (w : V) (k : K) (v : V) (ys : List (K × V))
      → o.cmp k q ≡ eq
      → insert_sorted q w ((k, v) ∷ ys) ≡ (k, v) ∷ ys
  unfolding insert_sorted
  insert_sorted_same q w k v ys h = rw (h, insert_sorted) refl

  pub insert_sorted_after :
      (q : K) (w : V) (k : K) (v : V) (ys : List (K × V))
      → o.cmp k q ≡ lt
      → insert_sorted q w ((k, v) ∷ ys) ≡ (k, v) ∷ insert_sorted q w ys
  unfolding insert_sorted
  insert_sorted_after q w k v ys h = rw (h, insert_sorted) refl

  pub floor-append :
      (ver : K) (xs ys : List (K × V))
      → floor ver (xs ++ ys) ≡ or_else (floor ver ys) (floor ver xs)
  unfolding floor
  floor-append ver [] ys = sym (or_else-none (floor ver ys))
  floor-append ver (x ∷ xs) ys =
      rw (floor-append ver xs ys) (
        sym (or_else_assoc (floor ver ys) (floor ver xs) (if le_key x.0 ver then some x else none)))

  pub floor_above : (ver : K) (xs : List (K × V)) → All (λ j. ver ≺ j) xs → floor ver xs ≡ none
  unfolding floor
  floor_above ver [] a = refl
  floor_above ver (x ∷ xs) a = ground (arith, floor_above ver xs, o.gt_of_lt ver x.0)
