-- ===== src/QueryAlts/Lookup.antt =====
-- The alternative chosen for a server: the last of the sorted list that its version may run.
use Prim.Native.Nat.Ordering.{lt, eq, gt}
use pgexporter.Prelude.{
  ℕ, ◌≡◌, ◌⊎◌, inr, inl, refl, sym, ap, ◌∙◌, true, false, inl, inr, List, [], ◌∷◌, ◌++◌, Option,
  Option-cases, Bool-cases, none, some, arith,
}
use mathlib.Core.Option.{some-injective, none-ne-some}
use pgexporter.Order.{Order, ◌≺◌, Ordering-cases}
use pgexporter.QueryAlts.Sorted.{
  All, All-parts, All-imp, IsSorted, IsSorted-parts, or_else, or_else-none, floor, floor-append,
  floor_above,
}
use pgexporter.QueryAlts.Contents.{to_list}
use pgexporter.QueryAlts.{
  Tree, leaf, node, le_key, gt_key, improves, search_alt, check_last, get_alt,
}

module _ {ℓ} {K : Type ℓ} ⦃o : Order K⦄ where
  le_key-lt : (a b : K) → o.cmp a b ≡ lt → le_key a b ≡ true
  le_key-lt a b e = rw (e, le_key) refl

  le_key-eq : (a b : K) → o.cmp a b ≡ eq → le_key a b ≡ true
  le_key-eq a b e = rw (e, le_key) refl

  le_key-gt : (a b : K) → o.cmp a b ≡ gt → le_key a b ≡ false
  le_key-gt a b e = rw (e, le_key) refl

  gt_key-gt : (a b : K) → o.cmp a b ≡ gt → gt_key a b ≡ true
  gt_key-gt a b e = rw (e, gt_key) refl

  lt_of_not_le : (a b : K) → le_key a b ≡ false → b ≺ a
  lt_of_not_le a b h = ground (arith, o.lt_of_gt a b)

module _ {ℓ κ} {K : Type ℓ} {V : Type κ} ⦃o : Order K⦄ where
  -- every version of the list is above the candidate
  abbrev Beyond : Option (K × V) → List (K × V) → Type 0
  Beyond none xs = Unit
  Beyond (some x) xs = All (λ k. x.0 ≺ k) xs

  search_empty : (ver : K) (last : Option (K × V)) → search_alt leaf ver last ≡ last
  unfolding search_alt
  search_empty ver last = refl

  floor-cons :
      (ver k : K) (v : V) (ys : List (K × V))
      → le_key k ver ≡ true
      → floor ver ((k, v) ∷ ys) ≡ or_else (floor ver ys) (some (k, v))
  unfolding floor
  floor-cons ver k v ys e = rw e refl

  search_low :
      (l : Tree K V) (k : K) (v : V) (h : ℕ) (r : Tree K V) (ver : K) (last : Option (K × V))
      → o.cmp k ver ≡ gt
      → search_alt (node l k v h r) ver last ≡ search_alt l ver last
  unfolding search_alt
  search_low l k v h r ver last e = rw (e, le_key-gt k ver e, search_alt) refl

  search_lt :
      (l : Tree K V) (k : K) (v : V) (h : ℕ) (r : Tree K V) (ver : K) (last : Option (K × V))
      → o.cmp k ver ≡ lt
      → improves k last ≡ true
      → search_alt (node l k v h r) ver last ≡ search_alt r ver (some (k, v))
  unfolding search_alt
  search_lt l k v h r ver last e i = rw (e, le_key-lt k ver e, i, search_alt) refl

  search_eq :
      (l : Tree K V) (k : K) (v : V) (h : ℕ) (r : Tree K V) (ver : K) (last : Option (K × V))
      → o.cmp k ver ≡ eq
      → improves k last ≡ true
      → search_alt (node l k v h r) ver last ≡ search_alt r ver (some (k, v))
  unfolding search_alt
  search_eq l k v h r ver last e i = rw (e, le_key-eq k ver e, i, search_alt) refl

  Beyond-parts :
      (last : Option (K × V)) (xs : List (K × V)) (k : K) (v : V) (ys : List (K × V))
      → Beyond last (xs ++ ((k, v) ∷ ys))
      → Beyond last xs × (improves k last ≡ true)
  Beyond-parts none xs k v ys b = (tt, refl)
  Beyond-parts (some (j, w)) xs k v ys b =
      let parts = All-parts (λ i. j ≺ i) xs ((k, v) ∷ ys) b in
      (parts.0, gt_key-gt k j (o.gt_of_lt j k parts.1.0))

  floor_low :
      (xs : List (K × V)) (k : K) (v : V) (ys : List (K × V)) (ver : K)
      → All (λ j. k ≺ j) ys
      → o.cmp k ver ≡ gt
      → floor ver (xs ++ ((k, v) ∷ ys)) ≡ floor ver xs
  floor_low xs k v ys ver above e =
      let over = o.lt_of_gt k ver e in
      rw
        (
          floor-append ver xs ((k, v) ∷ ys),
          floor_above ver ((k, v) ∷ ys) (
            over,
            All-imp {P = λ j. k ≺ j} {Q = λ j. ver ≺ j} (λ j. o.lt_trans ver k j over) ys above,
          ),
        )
        refl

  or_else-some :
      (a : Option (K × V)) (x : K × V) (b c : Option (K × V))
      → or_else (or_else (or_else a (some x)) b) c ≡ or_else a (some x)
  or_else-some none x b c = refl
  or_else-some (some y) x b c = refl

  floor_high :
      (xs : List (K × V)) (k : K) (v : V) (ys : List (K × V)) (ver : K) (last : Option (K × V))
      → le_key k ver ≡ true
      → or_else (floor ver (xs ++ ((k, v) ∷ ys))) last ≡ or_else (floor ver ys) (some (k, v))
  unfolding floor
  floor_high xs k v ys ver last e =
      rw (floor-append ver xs ((k, v) ∷ ys), floor-cons ver k v ys e)
        (or_else-some (floor ver ys) (k, v) (floor ver xs) last)

  -- The loop returns the floor of the list, or the candidate that it came with.
  search-eq-floor :
      (t : Tree K V) (ver : K) (last : Option (K × V))
      → IsSorted (to_list t)
      → Beyond last (to_list t)
      → search_alt t ver last ≡ or_else (floor ver (to_list t)) last
  unfolding floor
  search-eq-floor leaf ver last s b = search_empty ver last
  search-eq-floor (node l k v h r) ver last s b =
      let parts = IsSorted-parts (to_list l) k v (to_list r) s in
      let beyond = Beyond-parts last (to_list l) k v (to_list r) b in
      let high = floor_high (to_list l) k v (to_list r) ver last in
      let right = search-eq-floor r ver (some (k, v)) parts.3 parts.2 in
      elim (Ordering-cases (o.cmp k ver)) [
        | inl e ↦ search_lt l k v h r ver last e beyond.1 ∙ right ∙ sym (high (le_key-lt k ver e))
        | inr (inl e) ↦
            search_eq l k v h r ver last e beyond.1 ∙ right ∙ sym (high (le_key-eq k ver e))
        | inr (inr e) ↦
            search_low l k v h r ver last e
            ∙ search-eq-floor l ver last parts.0 beyond.0
            ∙ sym (ap (λ x. or_else x last) (floor_low (to_list l) k v (to_list r) ver parts.2 e))
      ]

  check_last-floor : (ver : K) (xs : List (K × V)) → check_last ver (floor ver xs) ≡ floor ver xs
  unfolding floor
  check_last-floor ver [] = refl
  check_last-floor ver (x ∷ xs) = ground (arith, check_last-floor ver xs)

  pub get_alt-eq-floor :
      (t : Tree K V) (ver : K) → IsSorted (to_list t) → get_alt t ver ≡ floor ver (to_list t)
  unfolding get_alt
  get_alt-eq-floor t ver s =
      rw (search-eq-floor t ver none s tt, or_else-none (floor ver (to_list t)))
        (check_last-floor ver (to_list t))

  floor-none : (ver : K) (xs : List (K × V)) → floor ver xs ≡ none → All (λ k. ver ≺ k) xs
  unfolding floor
  floor-none ver [] e = tt
  floor-none ver (x ∷ xs) e = ground (arith, floor-none ver xs, lt_of_not_le x.0 ver)

  -- The entry `x` of a list, with only versions above `ver` behind it.
  abbrev pub LastBelow : K → List (K × V) → K × V → Type (ℓ ⊔ κ)
  LastBelow ver xs x =
      (older : List (K × V)) × (newer : List (K × V)) × (xs ≡ older ++ (x ∷ newer))
      × (le_key x.0 ver ≡ true)
      × All (λ k. ver ≺ k) newer

  floor-some :
      (ver : K) (xs : List (K × V)) (y : K × V) → floor ver xs ≡ some y → LastBelow ver xs y
  unfolding floor
  floor-some ver [] y e = absurd (cc)
  floor-some ver (x ∷ xs) y e = elim (Option-cases (floor ver xs)) [
    | inl n ↦ elim (Bool-cases (le_key x.0 ver)) [
      | inl p ↦
          let same : x ≡ y = some-injective x y (rw (n, p) at e) in
          ([], xs, ap (λ z. z ∷ xs) same, rw same at p, floor-none ver xs n)
      | inr p ↦ absurd (none-ne-some y (rw (n, p) at e))
    ]
    | inr (z, f) ↦
        let rest = floor-some ver xs y (f ∙ (rw f at e)) in
        (x ∷ rest.0, rest.1, ap (λ l. x ∷ l) rest.2, rest.3, rest.4)
  ]

  -- The alternative that a server is given, against the ascending list of alternatives: none, if
  -- all are for newer versions; else an entry that is not for a newer version, with only newer
  -- ones behind it.
  pub get_alt_best :
      (t : Tree K V) (ver : K)
      → IsSorted (to_list t)
      → ((get_alt t ver ≡ none) × All (λ k. ver ≺ k) (to_list t))
        ⊎ ((x : K × V) × (get_alt t ver ≡ some x) × LastBelow ver (to_list t) x)
  get_alt_best t ver s =
      let e = get_alt-eq-floor t ver s in
      elim (Option-cases (get_alt t ver)) [
        | inl n ↦ inl (n, floor-none ver (to_list t) (sym e ∙ n))
        | inr found ↦ inr (found.0, found.1, floor-some ver (to_list t) found.0 (sym e ∙ found.1))
      ]
