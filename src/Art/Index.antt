-- ===== src/Art/Index.antt =====
-- find_index: binary search in the ascending keys of a node.
use mathlib.Core.Path.{subst}
use pgexporter.Prelude.{
  ℕ, zero, suc, ◌+◌, ◌-◌, ◌/◌, ◌≤◌, ◌<◌, ◌≡◌, ◌≢◌, ◌⊎◌, inl, inr, refl, sym, ap, ◌∙◌, true, false,
  Option, none, some, ltb, leb, ◌==◌, Bool-cases, ltb→lt, leb→le, ==_iff, arith,
}
use pgexporter.Art.Arrays.{Array}
use pgexporter.Art.{find_loop, find_end, find_index, key_found}

-- The first `n` keys ascend.
abbrev pub Ascending : ℕ → Array ℕ → Type 0
Ascending n keys = (i j : ℕ) → i < j → j < n → keys i < keys j

-- What find_index finds: the last of the `n` keys that is not above `ch`, or nothing where all are
-- above.
abbrev pub Position : ℕ → ℕ → Array ℕ → Option ℕ → Type 0
Position ch n keys none = (i : ℕ) → i < n → ch < keys i
Position ch n keys (some i) = (i < n) × (keys i ≤ ch) × ((j : ℕ) → i < j → j < n → ch < keys j)

module _ (ch n : ℕ) (keys : Array ℕ) (asc : Ascending n keys) where
  low_side : (left i : ℕ) → left < n → ch < keys left → i < n → left ≤ i → ch < keys i
  low_side left i l h p q = elim (Bool-cases (ltb left i)) [
    | inl e ↦ omega (arith, asc left i (ltb→lt left i e) p)
    | inr e ↦ rw (one_index left i q e) (omega arith)
  ]
    where
      one_index : (a b : ℕ) → a ≤ b → ltb a b ≡ false → b ≡ a
      one_index a b le f = ground arith

  end-Position :
      (left right : ℕ)
      → left ≤ right
      → right ≤ left + 1
      → right < n
      → (left ≡ 0) ⊎ (keys left ≤ ch)
      → (right ≡ n - 1) ⊎ (ch < keys right)
      → Position ch n keys (find_end ch keys left right)
  end-Position left right a b r lo hi = elim (Bool-cases (leb (keys right) ch)) [
    | inl e ↦
        rw e
          (r, leb→le (keys right) ch e, λ j p q. absurd (last j (leb→le (keys right) ch e) hi p q))
    | inr e ↦ rw e (elim (Bool-cases (leb (keys left) ch)) [
      | inl f ↦ rw f (
        omega arith,
        leb→le (keys left) ch f,
        λ j p q. low_side right j r (above (keys right) e) q (omega arith),
      )
      | inr f ↦ rw f (λ i p.
          low_side left i (omega arith) (above (keys left) f) p
            (at_start i lo (above (keys left) f)))
    ])
  ]
    where
      last : (j : ℕ) → keys right ≤ ch → (right ≡ n - 1) ⊎ (ch < keys right) → right < j → j < n → ⊥
      last j k (inl e) p q = omega arith
      last j k (inr e) p q = omega arith

      above : (k : ℕ) → leb k ch ≡ false → ch < k
      above k e = ground arith

      at_start : (i : ℕ) → (left ≡ 0) ⊎ (keys left ≤ ch) → ch < keys left → left ≤ i
      at_start i (inl e) h = omega arith
      at_start i (inr e) h = omega arith

  module _ (f left right : ℕ) where
    step_end :
        ltb (left + 1) right ≡ false
        → find_loop (suc f) ch keys left right ≡ find_end ch keys left right
    unfolding find_loop
    step_end e = rw (e, find_loop) refl

    module _ (wide : ltb (left + 1) right ≡ true) where
      step_here :
          (keys ((left + right) / 2) == ch) ≡ true
          → find_loop (suc f) ch keys left right ≡ some ((left + right) / 2)
      unfolding find_loop
      step_here g = rw (wide, g, find_loop) refl

      module _ (other : (keys ((left + right) / 2) == ch) ≡ false) where
        step_up :
            ltb (keys ((left + right) / 2)) ch ≡ true
            → find_loop (suc f) ch keys left right ≡ find_loop f ch keys ((left + right) / 2) right
        unfolding find_loop
        step_up k = rw (wide, other, k, find_loop) refl

        step_down :
            ltb (keys ((left + right) / 2)) ch ≡ false
            → find_loop (suc f) ch keys left right ≡ find_loop f ch keys left ((left + right) / 2)
        unfolding find_loop
        step_down k = rw (wide, other, k, find_loop) refl

  loop-Position :
      (f left right : ℕ)
      → right ≤ left + f
      → left ≤ right
      → right < n
      → (left ≡ 0) ⊎ (keys left ≤ ch)
      → (right ≡ n - 1) ⊎ (ch < keys right)
      → Position ch n keys (find_loop f ch keys left right)
  unfolding find_loop
  loop-Position zero left right f a r lo hi = end-Position left right a (omega arith) r lo hi
  loop-Position (suc f) left right w a r lo hi = elim (Bool-cases (ltb (left + 1) right)) [
    | inr e ↦
        subst (Position ch n keys) (sym (step_end f left right e))
          (end-Position left right a (near left right e) r lo hi)
    | inl e ↦
        let apart : left + 1 < right = ltb→lt (left + 1) right e in
        let mid : ℕ = (left + right) / 2 in
        let inside : (left < mid) × (mid < right) = omega arith in
        elim (Bool-cases (keys mid == ch)) [
          | inl g ↦
              let here : keys mid ≡ ch = (==_iff (keys mid) ch).0 g in
              subst (Position ch n keys) (sym (step_here f left right e g))
                (omega arith, omega arith, λ j p q. omega (arith, asc mid j p q))
          | inr g ↦ elim (Bool-cases (ltb (keys mid) ch)) [
            | inl k ↦ subst (Position ch n keys) (sym (step_up f left right e g k)) (
                loop-Position f mid right (omega arith) (omega arith) r
                  (inr (omega (arith, ltb→lt (keys mid) ch k))) hi)
            | inr k ↦ subst (Position ch n keys) (sym (step_down f left right e g k)) (
                loop-Position f left mid (omega arith) (omega arith) (omega arith) lo
                  (inr (beyond (keys mid) g k)))
          ]
        ]
  ]
    where
      near : (x y : ℕ) → ltb (x + 1) y ≡ false → y ≤ x + 1
      near x y e = ground arith

      beyond : (k : ℕ) → (k == ch) ≡ false → ltb k ch ≡ false → ch < k
      beyond k g e = ground arith

  pub find_index-Position : Position ch n keys (find_index ch keys n)
  unfolding find_index
  find_index-Position = elim (Bool-cases (n == 0)) [
    | inl e ↦ rw e (λ i p. absurd (none_left n i e p))
    | inr e ↦ rw e (
        loop-Position n 0 (n - 1) (omega arith) (omega arith) (some_left n e) (inl refl) (inl refl))
  ]
    where
      none_left : (k i : ℕ) → (k == 0) ≡ true → i < k → ⊥
      none_left k i e p = ground arith

      some_left : (k : ℕ) → (k == 0) ≡ false → k - 1 < k
      some_left k e = ground arith

-- A key among the `n` keys is found where it stands, and no other one is found.
pub data Found (ch n : ℕ) (keys : Array ℕ) : Option ℕ → Type 0 where
  present : (i : ℕ) → i < n → keys i ≡ ch → Found ch n keys (some i)
  missing : ((i : ℕ) → i < n → keys i ≢ ch) → Found ch n keys none

same_place : (x y : ℕ) → ltb x y ≡ false → ltb y x ≡ false → x ≡ y
same_place x y a b = ground arith

pub key_found-Found :
    (ch n : ℕ) (keys : Array ℕ) (p : Option ℕ)
    → Ascending n keys
    → Position ch n keys p
    → Found ch n keys (key_found ch keys p)
key_found-Found ch n keys none asc pos = missing (λ i l e. omega (arith, pos i l))
key_found-Found ch n keys (some i) asc pos = elim (Bool-cases (keys i == ch)) [
  | inl e ↦ rw e (present i pos.0 ((==_iff (keys i) ch).0 e))
  | inr e ↦ rw e (missing (λ j l f. elsewhere j l f (other (keys i) e)))
]
  where
    other : (k : ℕ) → (k == ch) ≡ false → k ≢ ch
    other k e f = ground arith

    elsewhere : (j : ℕ) → j < n → keys j ≡ ch → keys i ≢ ch → ⊥
    elsewhere j l f g = elim (Bool-cases (ltb i j)) [
      | inl a ↦ omega (arith, pos.2 j (ltb→lt i j a) l)
      | inr a ↦ elim (Bool-cases (ltb j i)) [
        | inl b ↦ g (omega (arith, asc j i (ltb→lt j i b) pos.0))
        | inr b ↦ g (ap keys (same_place i j a b) ∙ f)
      ]
    ]
