-- ===== src/Config/Digits.antt =====
-- Texts of digits in the loops of as_bytes and as_milliseconds.
use pgexporter.Prelude.{
  ℕ, zero, suc, ◌+◌, ◌*◌, ◌/◌, ◌%◌, ◌^◌, ◌≤◌, ◌<◌, ◌≡◌, refl, sym, ap, ◌∙◌, Bool, true, false, [],
  ◌∷◌, ◌++◌, some, ltb, lt→ltb, Bool-cases, inl, inr, arith, length, length-append, ◌==◌, ◌||◌,
}
use pgexporter.Prelude.Int.{pos}
use pgexporter.Text.{Bytes, is_digit, decimal_loop, strtol}
use pgexporter.Text.Decimal.{
  AllDigits, AllDigits-decimal, decimal-cons, strtol-decimal, to_int_small,
}
use pgexporter.Config.{
  Reading, reading, keep, misc_length, read_text, as_long, as_int, is_empty, whole_long, whole_int,
}
use mathlib.Core.List.{append-nil, append_assoc}

abbrev ten_to : ℕ → ℕ
ten_to zero = 1
ten_to (suc k) = ten_to k * 10

-- A number below ten to the k has at most k digits.
pub length-decimal : (k f n : ℕ) → n < ten_to k → 0 < k → length (decimal_loop f n) ≤ k
unfolding decimal_loop
length-decimal zero f n h p = absurd (omega arith)
length-decimal (suc k) zero n h p = omega arith
length-decimal (suc zero) (suc f) n h p = rw (lt→ltb n 10 h) (omega arith)
length-decimal (suc (suc k)) (suc f) n h p = elim (Bool-cases (ltb n 10)) [
  | inl e ↦ rw e (omega arith)
  | inr e ↦
      let front = length-decimal (suc k) f (n / 10) (omega arith) (omega arith) in
      rw (e, length-append (decimal_loop f (n / 10)) ((b'0' + n % 10) ∷ [])) (omega arith)
]

-- A step that writes digits down.
abbrev pub Keeps : (ℕ → Bytes → Reading → Reading) → Type 0
Keeps step =
    (c : ℕ) (cs : Bytes) (m : ℕ) (s : Bool) (value : Bytes)
    → is_digit c ≡ true
    → step c cs (reading m s value) ≡ keep m s value c

module _ (step : ℕ → Bytes → Reading → Reading) where
  read_text-cons :
      (c : ℕ) (cs : Bytes) (r : Reading)
      → read_text step (c ∷ cs) r ≡ read_text step cs (step c cs r)
  unfolding read_text
  read_text-cons c cs r = refl

  keep_in :
      (m : ℕ) (s : Bool) (value : Bytes) (c : ℕ)
      → length value < misc_length
      → keep m s value c ≡ reading m s (value ++ (c ∷ []))
  keep_in m s value c h = rw (lt→ltb (length value) misc_length h) refl

  pub read_digits-append :
      (xs ys : Bytes) (m : ℕ) (s : Bool) (value : Bytes)
      → Keeps step
      → AllDigits xs
      → length value + length xs ≤ misc_length
      → read_text step (xs ++ ys) (reading m s value)
        ≡ read_text step ys (reading m s (value ++ xs))
  read_digits-append [] ys m s value k a h = rw (append-nil value) refl
  read_digits-append (x ∷ xs) ys m s value k a h =
      read_text-cons x (xs ++ ys) (reading m s value)
      ∙ ap (read_text step (xs ++ ys))
          (k x (xs ++ ys) m s value a.0 ∙ keep_in m s value x (omega arith))
      ∙ read_digits-append xs ys m s (value ++ (x ∷ [])) k a.1
          (omega (arith, length-append value (x ∷ [])))
      ∙ ap (λ v. read_text step ys (reading m s v)) (append_assoc value (x ∷ []) xs)

  -- What every step keeps holds after the loop.
  pub read_text-Invariant :
      (P : Reading → Type 0) (xs : Bytes) (r : Reading)
      → ((c : ℕ) (cs : Bytes) (r' : Reading) → P r' → P (step c cs r'))
      → P r
      → P (read_text step xs r)
  unfolding read_text
  read_text-Invariant P [] r k p = p
  read_text-Invariant P (x ∷ xs) r k p = read_text-Invariant P xs (step x xs r) k (k x xs r p)

-- The text of a number in the range of a long, behind which `u` stands, at the start of a loop.
pub read_text-decimal :
    (step : ℕ → Bytes → Reading → Reading) (n m : ℕ) (s : Bool) (u : Bytes)
    → Keeps step
    → n < 2 ^ 63
    → read_text step (decimal_loop n n ++ u) (reading m s [])
      ≡ read_text step u (reading m s (decimal_loop n n))
read_text-decimal step n m s u k h =
    read_digits-append step (decimal_loop n n) u m s [] k (AllDigits-decimal n n)
      (omega (arith, length-decimal 19 n n (omega arith) (omega arith)))

pub decimal_fits : (n : ℕ) → n < 2 ^ 63 → ltb (length (decimal_loop n n)) misc_length ≡ true
decimal_fits n h =
    lt→ltb (length (decimal_loop n n)) misc_length
      (omega (arith, length-decimal 19 n n (omega arith) (omega arith)))

strtol_all :
    (n : ℕ)
    → n < 2 ^ 63
    → strtol (decimal_loop n n) ≡ some (record { value = pos n; rest = []; overflow = false })
strtol_all n h = ap strtol (sym (append-nil (decimal_loop n n))) ∙ strtol-decimal n [] h tt

pub as_long-decimal : (n : ℕ) → n < 2 ^ 63 → as_long (decimal_loop n n) ≡ some (pos n)
unfolding as_long
as_long-decimal n h = ap whole_long (strtol_all n h)

pub as_int-decimal : (n : ℕ) → n < 2 ^ 31 → as_int (decimal_loop n n) ≡ some (pos n)
unfolding as_int
as_int-decimal n h = ap whole_int (strtol_all n (omega arith)) ∙ ap some (to_int_small n h)

digit-ne-blank : (c : ℕ) → is_digit c ≡ true → (c == 32 || c == 9 || c == 13 || c == 10) ≡ false
digit-ne-blank c h = ground arith

is_empty-digit : (c : ℕ) (cs : Bytes) → is_digit c ≡ true → is_empty (c ∷ cs) ≡ false
unfolding is_empty
is_empty-digit c cs h = rw (digit-ne-blank c h) refl

pub is_empty-decimal : (n : ℕ) (u : Bytes) → is_empty (decimal_loop n n ++ u) ≡ false
is_empty-decimal n u =
    let start = decimal-cons n n in
    let digits = AllDigits-decimal n n in
    rw start.2 (is_empty-digit start.0 (start.1 ++ u) (rw start.2 at digits).0)
