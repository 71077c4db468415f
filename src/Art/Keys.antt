-- ===== src/Art/Keys.antt =====
-- Keys of the tree: strings with their NUL, which differ before either ends. How far two arrays
-- agree, as the loops of check_prefix_partial and check_prefix count it.
use pgexporter.Prelude.{
  ℕ, zero, suc, ◌+◌, ◌-◌, ◌≤◌, ◌<◌, ◌≡◌, ◌≢◌, ◌⊎◌, inl, inr, refl, sym, ap, ◌∙◌, Bool, true, false,
  [], ◌∷◌, ◌&&◌, ltb, leb, ◌==◌, Bool-cases, ltb→lt, ==_iff, length, min, arith,
}
use pgexporter.Text.{Bytes, same}
use pgexporter.Art.Arrays.{Array}
use pgexporter.Art.{agree_loop, byte_at, from}

-- A string with its NUL: no byte but the last is 0.
pub record IsKey (key : Bytes) : Type 0 where
  pub some_bytes : 0 < length key
  pub bytes : (i : ℕ) → byte_at key i < 256
  pub inner : (i : ℕ) → i + 1 < length key → byte_at key i ≢ 0
  pub last : (i : ℕ) → length key ≤ i + 1 → byte_at key i ≡ 0

-- Two arrays have the same elements below an index.
abbrev pub Agree : ℕ → Array ℕ → Array ℕ → Type 0
Agree n a b = (j : ℕ) → j < n → a j ≡ b j

same_bytes :
    (k k' : Bytes)
    → length k ≡ length k'
    → ((i : ℕ) → i < length k → byte_at k i ≡ byte_at k' i)
    → k ≡ k'
same_bytes [] [] l e = refl
same_bytes [] (y ∷ ys) l e = absurd (omega (arith, l))
same_bytes (x ∷ xs) [] l e = absurd (omega (arith, l))
same_bytes (x ∷ xs) (y ∷ ys) l e =
    rw
      (e 0 (omega arith), same_bytes xs ys (omega (arith, l)) (λ i m. e (suc i) (omega (arith, m))))
      refl

-- A key that agrees with a longer one goes on as well.
pub longer :
    (k k' : Bytes) (n : ℕ)
    → IsKey k
    → IsKey k'
    → Agree n (byte_at k) (byte_at k')
    → n < length k'
    → n < length k
longer k k' zero a b e l = a.some_bytes
longer k k' (suc n) a b e l = elim (Bool-cases (ltb (suc n) (length k))) [
  | inl f ↦ ltb→lt (suc n) (length k) f
  | inr f ↦
      absurd (b.inner n (omega arith) (sym (e n (omega arith)) ∙ a.last n (ends n (length k) f)))
]
  where
    ends : (n l : ℕ) → ltb (suc n) l ≡ false → l ≤ n + 1
    ends n l e = ground arith

-- Keys that agree up to the end of one are the same.
pub whole_key :
    (k k' : Bytes) (n : ℕ)
    → IsKey k
    → IsKey k'
    → Agree n (byte_at k) (byte_at k')
    → length k ≤ n
    → k ≡ k'
whole_key k k' n a b e l =
    same_bytes k k' (one_length (Bool-cases (ltb (length k) (length k'))))
      (λ i m. e i (omega arith))
  where
    equal : (x y : ℕ) → ltb x y ≡ false → ltb y x ≡ false → x ≡ y
    equal x y e f = ground arith

    other_side :
        (ltb (length k') (length k) ≡ true) ⊎ (ltb (length k') (length k) ≡ false)
        → ltb (length k) (length k') ≡ false
        → length k ≡ length k'
    other_side (inl g) f =
        let shorter = ltb→lt (length k') (length k) g in
        absurd (
          omega (
            arith,
            longer k' k (length k') b a (λ j m. sym (e j (omega (arith, shorter)))) shorter,
          ))
    other_side (inr g) f = equal (length k) (length k') f g

    one_length :
        (ltb (length k) (length k') ≡ true) ⊎ (ltb (length k) (length k') ≡ false)
        → length k ≡ length k'
    one_length (inl f) = absurd (
        omega (
          arith,
          longer k k' (length k) a b (λ j m. e j (omega arith)) (ltb→lt (length k) (length k') f),
        ))
    one_length (inr f) = other_side (Bool-cases (ltb (length k') (length k))) f

-- What agree_loop returns: all agrees up to it, and it is as far as it may go or a difference.
pub data Agreement (a b : Array ℕ) (start limit r : ℕ) : Type 0 where
  all_agrees :
      r ≡ limit
      → start ≤ r
      → ((j : ℕ) → start ≤ j → j < r → a j ≡ b j)
      → Agreement a b start limit r
  differs :
      a r ≢ b r
      → start ≤ r
      → r < limit
      → ((j : ℕ) → start ≤ j → j < r → a j ≡ b j)
      → Agreement a b start limit r

pub agree_loop-Agreement :
    (n : ℕ) (a b : Array ℕ) (start : ℕ) → Agreement a b start (start + n) (agree_loop n a b start)
unfolding agree_loop
agree_loop-Agreement zero a b start =
    all_agrees (omega arith) (omega arith) (λ j l m. absurd (omega arith))
agree_loop-Agreement (suc n) a b start = elim (Bool-cases (a start == b start)) [
  | inl e ↦
      rw e (further ((==_iff (a start) (b start)).0 e) (agree_loop-Agreement n a b (suc start)))
  | inr e ↦ rw e (
      differs (unequal (a start) (b start) e) (omega arith) (omega arith)
        (λ j l m. absurd (omega arith)))
]
  where
    unequal : (x y : ℕ) → (x == y) ≡ false → x ≢ y
    unequal x y e f = ground arith

    equal : (x y : ℕ) → x ≤ y → ltb x y ≡ false → x ≡ y
    equal x y l e = ground arith

    before :
        (r : ℕ)
        → a start ≡ b start
        → ((j : ℕ) → suc start ≤ j → j < r → a j ≡ b j)
        → (j : ℕ) → start ≤ j
        → j < r
        → a j ≡ b j
    before r e f j l m = elim (Bool-cases (ltb start j)) [
      | inl g ↦ f j (omega (arith, ltb→lt start j g)) m
      | inr g ↦ sym (ap a (equal start j l g)) ∙ e ∙ ap b (equal start j l g)
    ]

    further :
        {r : ℕ}
        → a start ≡ b start
        → Agreement a b (suc start) (suc start + n) r
        → Agreement a b start (start + suc n) r
    further e (all_agrees l m f) = all_agrees (omega arith) (omega arith) (before _ e f)
    further e (differs d l m f) = differs d (omega arith) (omega arith) (before _ e f)

-- Two keys that are not the same and agree below `depth` differ within both.
pub data Diverge (k k' : Bytes) (depth r : ℕ) : Type 0 where
  diverge :
      Agree (depth + r) (byte_at k) (byte_at k')
      → byte_at k (depth + r) ≢ byte_at k' (depth + r)
      → depth + r < length k
      → depth + r < length k'
      → Diverge k k' depth r

-- What agrees below `depth` and from there on agrees.
pub Agree-from :
    (a b : Array ℕ) (depth r : ℕ)
    → Agree depth a b
    → ((j : ℕ) → j < r → a (depth + j) ≡ b (depth + j))
    → Agree (depth + r) a b
Agree-from a b depth r e f j l = elim (Bool-cases (ltb j depth)) [
  | inl g ↦ e j (ltb→lt j depth g)
  | inr g ↦
      ap a (split j depth g) ∙ f (j - depth) (part j depth r g l) ∙ sym (ap b (split j depth g))
]
  where
    split : (j d : ℕ) → ltb j d ≡ false → j ≡ d + (j - d)
    split j d g = ground arith

    part : (j d r : ℕ) → ltb j d ≡ false → j < d + r → j - d < r
    part j d r g l = ground arith

pub agree_loop-Diverge :
    (k k' : Bytes) (depth : ℕ)
    → IsKey k
    → IsKey k'
    → k ≢ k'
    → Agree depth (byte_at k) (byte_at k')
    → depth ≤ length k
    → depth ≤ length k'
    → Diverge k k' depth
        (agree_loop (min (length k) (length k') - depth) (from depth k) (from depth k') 0)
agree_loop-Diverge k k' depth a b n e l l' =
    apart
      (agree_loop-Agreement (min (length k) (length k') - depth) (from depth k) (from depth k') 0)
  where
    apart :
        {r : ℕ}
        → Agreement (from depth k) (from depth k') 0 (0 + (min (length k) (length k') - depth)) r
        → Diverge k k' depth r
    apart {r = r} (all_agrees f s g) = absurd (
        ended r f (Agree-from (byte_at k) (byte_at k') depth r e (λ j m. g j (omega arith) m))
          (Bool-cases (leb (length k) (depth + r))))
      where
        other :
            (x y d r : ℕ)
            → d ≤ x
            → d ≤ y
            → r ≡ 0 + (min x y - d)
            → leb x (d + r) ≡ false
            → y ≤ d + r
        other x y d r l m e f = ground arith

        reached : (x d r : ℕ) → leb x (d + r) ≡ true → x ≤ d + r
        reached x d r e = ground arith

        ended :
            (r : ℕ)
            → r ≡ 0 + (min (length k) (length k') - depth)
            → Agree (depth + r) (byte_at k) (byte_at k')
            → (leb (length k) (depth + r) ≡ true) ⊎ (leb (length k) (depth + r) ≡ false)
            → ⊥
        ended r f g (inl h) = n (whole_key k k' (depth + r) a b g (reached (length k) depth r h))
        ended r f g (inr h) = n (
            sym (
              whole_key k' k (depth + r) b a (λ j m. sym (g j m))
                (other (length k) (length k') depth r l l' f h)))
    apart {r = r} (differs f s m g) =
        diverge (Agree-from (byte_at k) (byte_at k') depth r e (λ j m. g j (omega arith) m)) f
          (omega arith) (omega arith)

-- leaf_match is equality.
pub same_sound : (a b : Bytes) → same a b ≡ true → a ≡ b
unfolding same
same_sound [] [] e = refl
same_sound [] (y ∷ ys) e = cc e
same_sound (x ∷ xs) [] e = cc e
same_sound (x ∷ xs) (y ∷ ys) e =
    let parts = and_both (x == y) (same xs ys) e in
    rw ((==_iff x y).0 parts.0, same_sound xs ys parts.1) refl
  where
    and_both : (p q : Bool) → (p && q) ≡ true → (p ≡ true) × (q ≡ true)
    and_both true true e = (refl, refl)
    and_both true false e = cc e
    and_both false q e = cc e

pub same_self : (a : Bytes) → same a a ≡ true
unfolding same
same_self [] = refl
same_self (x ∷ xs) = rw (self x, same_self xs) refl
  where
    self : (n : ℕ) → (n == n) ≡ true
    self n = ground arith

-- Keys with different bytes at one index are not the same.
pub same-differ : (a b : Bytes) (i : ℕ) → byte_at a i ≢ byte_at b i → same a b ≡ false
same-differ a b i n = elim (Bool-cases (same a b)) [
  | inl e ↦ absurd (n (ap (λ k. byte_at k i) (same_sound a b e)))
  | inr e ↦ e
]
