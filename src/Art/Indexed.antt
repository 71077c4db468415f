-- ===== src/Art/Indexed.antt =====
-- node48_add_child, and node16 grown to node48.
use mathlib.Core.Path.{subst}
use pgexporter.Prelude.{
  ℕ, zero, suc, ◌+◌, ◌≤◌, ◌<◌, ◌≡◌, ◌≢◌, inl, inr, refl, sym, ap, ◌∙◌, Bool, true, false, ltb, ◌==◌,
  if◌then◌else◌, Bool-cases, ltb→lt, ==_iff, min, arith,
}
use pgexporter.Art.Arrays.{Array, fill, write, copy}
use pgexporter.Art.{ArtNode, null, is_null, first_index}
use pgexporter.Art.Insert.{index_keys}
use pgexporter.Art.Children.{count_filled}

-- The first index that passes is one that passes, not before the start, and no later than another.
pub first_index_lem :
    (n i : ℕ) (test : ℕ → Bool) (j : ℕ)
    → i ≤ j
    → j < i + n
    → test j ≡ true
    → (test (first_index n i test) ≡ true) × (first_index n i test ≤ j) × (i ≤ first_index n i test)
unfolding first_index
first_index_lem zero i test j l m e = absurd (omega arith)
first_index_lem (suc n) i test j l m e = elim (Bool-cases (test i)) [
  | inl f ↦ rw f (f, l, omega arith)
  | inr f ↦
      let later : suc i ≤ j = later_than i j l f e in
      let rest = first_index_lem n (suc i) test j later (omega arith) e in
      rw f (rest.0, rest.1, omega arith)
]
  where
    same_place : (a b : ℕ) → a ≤ b → ltb a b ≡ false → a ≡ b
    same_place a b l e = ground arith

    later_than : (i j : ℕ) → i ≤ j → test i ≡ false → test j ≡ true → suc i ≤ j
    later_than i j l f e = elim (Bool-cases (ltb i j)) [
      | inl a ↦ ltb→lt i j a
      | inr a ↦ cc (ap test (same_place i j l a))
    ]

pub write_here {ℓ} : {A : Type ℓ} (a : Array A) (i : ℕ) (x : A) → write a i x i ≡ x
write_here a i x = rw (self i) refl
  where
    self : (n : ℕ) → (n == n) ≡ true
    self n = ground arith

pub write_other {ℓ} :
    {A : Type ℓ} (a : Array A) (i : ℕ) (x : A) (j : ℕ) → (j == i) ≡ false → write a i x j ≡ a j
write_other a i x j e = rw e refl

-- What an array has at `j` after a write at `i`.
pub data Stored {ℓ} {A : Type ℓ} (a : Array A) (i : ℕ) (x : A) (j : ℕ) (y : A) : Type ℓ where
  written : j ≡ i → y ≡ x → Stored a i x j y
  kept : j ≢ i → y ≡ a j → Stored a i x j y

pub write-Stored {ℓ} :
    {A : Type ℓ} (a : Array A) (i : ℕ) (x : A) (j : ℕ) → Stored a i x j (write a i x j)
write-Stored a i x j = elim (Bool-cases (j == i)) [
  | inl e ↦ written ((==_iff j i).0 e) (rw e refl)
  | inr e ↦ kept (unequal j i e) (write_other a i x j e)
]
  where
    unequal : (a b : ℕ) → (a == b) ≡ false → a ≢ b
    unequal a b e f = ground arith

-- What index_keys has for a byte: one more than an index of it among the keys, or 0.
pub data Indexed (n : ℕ) (keys : Array ℕ) (c : ℕ) : ℕ → Type 0 where
  at_key : {y : ℕ} (i : ℕ) → i < n → keys i ≡ c → y ≡ i + 1 → Indexed n keys c y
  no_key : {y : ℕ} → ((i : ℕ) → i < n → keys i ≢ c) → y ≡ 0 → Indexed n keys c y

pub index_keys-Indexed : (n : ℕ) (keys : Array ℕ) (c : ℕ) → Indexed n keys c (index_keys n keys c)
unfolding index_keys
index_keys-Indexed zero keys c = no_key (λ i l. absurd (omega arith)) refl
index_keys-Indexed (suc n) keys c = elim (Bool-cases (c == keys n)) [
  | inl e ↦ at_key n (omega arith) (sym ((==_iff c (keys n)).0 e)) (rw e refl)
  | inr e ↦ wider e (index_keys-Indexed n keys c)
]
  where
    unequal : (a b : ℕ) → (a == b) ≡ false → b ≢ a
    unequal a b e f = ground arith

    end : (i : ℕ) → i < suc n → ltb i n ≡ false → n ≡ i
    end i l e = ground arith

    none_at :
        (c == keys n) ≡ false → ((i : ℕ) → i < n → keys i ≢ c) → (i : ℕ) → i < suc n → keys i ≢ c
    none_at e absent i l f = elim (Bool-cases (ltb i n)) [
      | inl g ↦ absent i (ltb→lt i n g) f
      | inr g ↦ unequal c (keys n) e (ap keys (end i l g) ∙ f)
    ]

    wider :
        (c == keys n) ≡ false
        → Indexed n keys c (index_keys n keys c)
        → Indexed (suc n) keys c (write (index_keys n keys) (keys n) (n + 1) c)
    wider e (at_key i l f g) =
        at_key i (omega arith) f (write_other (index_keys n keys) (keys n) (n + 1) c e ∙ g)
    wider e (no_key absent g) =
        no_key (none_at e absent) (write_other (index_keys n keys) (keys n) (n + 1) c e ∙ g)

module _ {ℓ} {V : Type ℓ} where
  -- Where not all places are filled, one is free.
  pub free_place :
      (n : ℕ) (children : ℕ → ArtNode V)
      → count_filled n children < n
      → (j : ℕ) × (j < n) × (is_null (children j) ≡ true)
  unfolding count_filled
  free_place zero children l = absurd (omega arith)
  free_place (suc n) children l = elim (Bool-cases (is_null (children n))) [
    | inl e ↦ (n, omega arith, e)
    | inr e ↦
        let below = free_place n children (one_less e l) in
        (below.0, omega (arith, below.1), below.2)
  ]
    where
      one_less :
          is_null (children n) ≡ false
          → (if is_null (children n) then 0 else 1) + count_filled n children < suc n
          → count_filled n children < n
      one_less e l = omega (arith, rw e at l)

  count-write_above :
      (n : ℕ) (children : ℕ → ArtNode V) (i : ℕ) (x : ArtNode V)
      → n ≤ i
      → count_filled n (write children i x) ≡ count_filled n children
  unfolding count_filled
  count-write_above zero children i x l = refl
  count-write_above (suc n) children i x l =
      rw (write_other children i x n (below n i l), count-write_above n children i x (omega arith))
        refl
    where
      below : (a b : ℕ) → suc a ≤ b → (a == b) ≡ false
      below a b l = ground arith

  -- A child in a free place counts one more.
  pub count-write :
      (n : ℕ) (children : ℕ → ArtNode V) (i : ℕ) (x : ArtNode V)
      → i < n
      → is_null (children i) ≡ true
      → is_null x ≡ false
      → count_filled n (write children i x) ≡ count_filled n children + 1
  unfolding count_filled
  count-write zero children i x l e f = absurd (omega arith)
  count-write (suc n) children i x l e f = elim (Bool-cases (n == i)) [
    | inl g ↦
        let last : n ≡ i = (==_iff n i).0 g in
        rw
          (
            g,
            f,
            subst (λ k. is_null (children k) ≡ true) (sym last) e,
            count-write_above n children i x (omega arith),
          )
          (omega arith)
    | inr g ↦ rw (g, count-write n children i x (earlier i n g l) e f) (omega arith)
  ]
    where
      earlier : (a b : ℕ) → (b == a) ≡ false → a < suc b → a < b
      earlier a b e l = ground arith

  -- The children copied into an empty array count as many as were copied.
  pub count-copy :
      (n num : ℕ) (children : ℕ → ArtNode V)
      → ((i : ℕ) → i < num → is_null (children i) ≡ false)
      → count_filled n (copy num children (fill null)) ≡ min n num
  unfolding count_filled
  count-copy zero num children s = omega arith
  count-copy (suc n) num children s = elim (Bool-cases (ltb n num)) [
    | inl e ↦ rw (e, s n (ltb→lt n num e), count-copy n num children s) (inside n num e)
    | inr e ↦ rw (e, count-copy n num children s) (outside n num e)
  ]
    where
      inside : (n num : ℕ) → ltb n num ≡ true → 1 + min n num ≡ min (suc n) num
      inside n num e = ground arith

      outside : (n num : ℕ) → ltb n num ≡ false → 0 + min n num ≡ min (suc n) num
      outside n num e = ground arith
