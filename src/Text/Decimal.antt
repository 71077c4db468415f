-- ===== src/Text/Decimal.antt =====
-- Decimal numbers printed and read back.
use pgexporter.Prelude.{
  ℕ, zero, suc, ◌+◌, ◌-◌, ◌*◌, ◌/◌, ◌%◌, ◌^◌, ◌≤◌, ◌<◌, ◌≡◌, refl, sym, ap, ◌∙◌, true, false, [],
  ◌∷◌, ◌++◌, ◌==◌, some, ltb, ltb→lt, Bool-cases, inl, inr, arith,
}
use pgexporter.Prelude.Int.{pos, negsuc}
use pgexporter.Text.{
  Bytes, is_digit, is_space, read_digits, skip_space, clamp, scan_signed, strtol, to_int,
  decimal_loop,
}

abbrev pub AllDigits : Bytes → Type 0
AllDigits [] = Unit
AllDigits (c ∷ cs) = (is_digit c ≡ true) × AllDigits cs

-- The bytes do not go on with a digit.
abbrev pub Stops : Bytes → Type 0
Stops [] = Unit
Stops (c ∷ cs) = is_digit c ≡ false

abbrev value_from : ℕ → Bytes → ℕ
value_from acc [] = acc
value_from acc (c ∷ cs) = value_from (acc * 10 + (c - b'0')) cs

value_from-append :
    (acc : ℕ) (xs : Bytes) (c : ℕ)
    → value_from acc (xs ++ (c ∷ [])) ≡ value_from acc xs * 10 + (c - b'0')
value_from-append acc [] c = refl
value_from-append acc (x ∷ xs) c = value_from-append (acc * 10 + (x - b'0')) xs c

AllDigits-append :
    (xs : Bytes) (c : ℕ) → AllDigits xs → is_digit c ≡ true → AllDigits (xs ++ (c ∷ []))
AllDigits-append [] c a d = (d, tt)
AllDigits-append (x ∷ xs) c a d = (a.0, AllDigits-append xs c a.1 d)

digit_range : (n : ℕ) → n < 10 → is_digit (b'0' + n) ≡ true
digit_range n h = ground arith

pub AllDigits-decimal : (f n : ℕ) → AllDigits (decimal_loop f n)
unfolding decimal_loop
AllDigits-decimal zero n = (digit_range (n % 10) (omega arith), tt)
AllDigits-decimal (suc f) n = elim (Bool-cases (ltb n 10)) [
  | inl h ↦ rw h (digit_range n (ltb→lt n 10 h), tt)
  | inr h ↦ rw h (
      AllDigits-append (decimal_loop f (n / 10)) (b'0' + n % 10) (AllDigits-decimal f (n / 10))
        (digit_range (n % 10) (omega arith)))
]

-- Enough rounds print every digit.
value-decimal : (f n : ℕ) → n ≤ f → value_from 0 (decimal_loop f n) ≡ n
unfolding decimal_loop
value-decimal zero n h = omega arith
value-decimal (suc f) n h = elim (Bool-cases (ltb n 10)) [
  | inl e ↦ rw e (omega arith)
  | inr e ↦
      rw
        (
          e,
          value_from-append 0 (decimal_loop f (n / 10)) (b'0' + n % 10),
          value-decimal f (n / 10) (ground arith),
        )
        (omega arith)
]

pub decimal-cons : (f n : ℕ) → (c : ℕ) × (cs : Bytes) × (decimal_loop f n ≡ c ∷ cs)
unfolding decimal_loop
decimal-cons zero n = (b'0' + n % 10, [], refl)
decimal-cons (suc f) n = elim (Bool-cases (ltb n 10)) [
  | inl e ↦ (b'0' + n, [], rw e refl)
  | inr e ↦
      let front = decimal-cons f (n / 10) in
      (front.0, front.1 ++ ((b'0' + n % 10) ∷ []), rw (e, front.2) refl)
]

read_digits-append :
    (acc : ℕ) (xs rest : Bytes)
    → AllDigits xs
    → Stops rest
    → read_digits acc (xs ++ rest) ≡ (value_from acc xs, rest)
unfolding read_digits
read_digits-append acc [] [] a s = refl
read_digits-append acc [] (c ∷ cs) a s = rw s refl
read_digits-append acc (x ∷ xs) rest a s =
    rw a.0 (read_digits-append (acc * 10 + (x - b'0')) xs rest a.1 s)

digit-ne-space : (c : ℕ) → is_digit c ≡ true → is_space c ≡ false
digit-ne-space c h = ground arith

digit-ne-sign : (c : ℕ) → is_digit c ≡ true → ((c == b'-') ≡ false) × ((c == b'+') ≡ false)
digit-ne-sign c h = ground arith

skip_space-digit : (c : ℕ) (cs : Bytes) → is_digit c ≡ true → skip_space (c ∷ cs) ≡ c ∷ cs
unfolding skip_space
skip_space-digit c cs h = rw (digit-ne-space c h) refl

scan-digit :
    (c : ℕ) (cs : Bytes)
    → is_digit c ≡ true
    → scan_signed (c ∷ cs) ≡ some (clamp false (read_digits 0 (c ∷ cs)))
scan-digit c cs h = rw ((digit-ne-sign c h).0, (digit-ne-sign c h).1, h) refl

strtol_lem : (s : Bytes) → strtol s ≡ scan_signed (skip_space s)
unfolding strtol
strtol_lem s = refl

-- Text that starts with a digit reads as an unsigned number.
pub strtol-digit :
    (c : ℕ) (cs : Bytes)
    → is_digit c ≡ true
    → strtol (c ∷ cs) ≡ some (clamp false (read_digits 0 (c ∷ cs)))
strtol-digit c cs h = rw (strtol_lem (c ∷ cs), skip_space-digit c cs h) (scan-digit c cs h)

clamp_small :
    (n : ℕ) (rest : Bytes)
    → n < 2 ^ 63
    → clamp false (n, rest) ≡ record { value = pos n; rest = rest; overflow = false }
clamp_small n rest h = ground arith

-- strtol reads back the digits of a number that a long holds.
pub strtol-decimal :
    (n : ℕ) (rest : Bytes)
    → n < 2 ^ 63
    → Stops rest
    → strtol (decimal_loop n n ++ rest)
      ≡ some (record { value = pos n; rest = rest; overflow = false })
strtol-decimal n rest h s =
    let start = decimal-cons n n in
    let digits = AllDigits-decimal n n in
    let first : is_digit start.0 ≡ true = (rw start.2 at digits).0 in
    let all = read_digits-append 0 (decimal_loop n n) rest digits s in
    rw
      (
        ap (λ x. strtol (x ++ rest)) start.2 ∙ strtol-digit start.0 (start.1 ++ rest) first,
        ap (λ x. read_digits 0 (x ++ rest)) (sym start.2) ∙ all,
        value-decimal n n (omega arith),
      )
      (ap some (clamp_small n rest h))

scan-minus :
    (c : ℕ) (cs : Bytes)
    → is_digit c ≡ true
    → strtol (b'-' ∷ c ∷ cs) ≡ some (clamp true (read_digits 0 (c ∷ cs)))
unfolding strtol skip_space
scan-minus c cs h = rw h refl

clamp_minus :
    (n : ℕ) (rest : Bytes)
    → n < 2 ^ 63
    → clamp true (suc n, rest) ≡ record { value = negsuc n; rest = rest; overflow = false }
clamp_minus n rest h = ground arith

-- strtol reads back a negative number that a long holds.
pub strtol-negative :
    (n : ℕ) (rest : Bytes)
    → n < 2 ^ 63
    → Stops rest
    → strtol (b'-' ∷ (decimal_loop (suc n) (suc n) ++ rest))
      ≡ some (record { value = negsuc n; rest = rest; overflow = false })
strtol-negative n rest h s =
    let start = decimal-cons (suc n) (suc n) in
    let digits = AllDigits-decimal (suc n) (suc n) in
    let first : is_digit start.0 ≡ true = (rw start.2 at digits).0 in
    let all = read_digits-append 0 (decimal_loop (suc n) (suc n)) rest digits s in
    rw
      (
        ap (λ x. strtol (b'-' ∷ (x ++ rest))) start.2 ∙ scan-minus start.0 (start.1 ++ rest) first,
        ap (λ x. read_digits 0 (x ++ rest)) (sym start.2) ∙ all,
        value-decimal (suc n) (suc n) (omega arith),
      )
      (ap some (clamp_minus n rest h))

pub to_int_small : (n : ℕ) → n < 2 ^ 31 → to_int (pos n) ≡ pos n
unfolding to_int
to_int_small n h = ground arith
