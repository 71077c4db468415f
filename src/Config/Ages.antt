-- ===== src/Config/Ages.antt =====
-- as_milliseconds: ages with a unit, and the range of the results.
use pgexporter.Prelude.{
  ℕ, ◌*◌, ◌^◌, ◌<◌, ◌≡◌, refl, ap, ◌∙◌, Bool, true, false, [], ◌∷◌, ◌++◌, some, arith,
}
use pgexporter.Prelude.Int.{ℤ, pos}
use pgexporter.Text.{Bytes, decimal_loop}
use pgexporter.Config.{
  reading, ok, read_text, age_step, as_milliseconds, as_int, scaled, finish_reading, is_empty,
}
use pgexporter.Config.Digits.{
  Keeps, read_text-decimal, decimal_fits, as_int-decimal, is_empty-decimal,
}
use pgexporter.Config.Sizes.{scaled_pos, to_long_small}

-- The factors of the units of an age, in milliseconds.
pub data AgeFactor : ℕ → Type 0 where
  millisecond : AgeFactor 1
  second : AgeFactor 1000
  minute : AgeFactor (60 * 1000)
  hour : AgeFactor (3600 * 1000)
  day : AgeFactor (24 * 3600 * 1000)
  week : AgeFactor (7 * 24 * 3600 * 1000)

-- The units that the comment of as_milliseconds lists, in lower or upper case; a bare number counts
-- seconds.
pub data AgeUnit : Bytes → ℕ → Type 0 where
  bare : AgeUnit [] 1000
  ms : AgeUnit (b'm' ∷ b's' ∷ []) 1
  ms_upper : AgeUnit (b'M' ∷ b'S' ∷ []) 1
  s : AgeUnit (b's' ∷ []) 1000
  s_upper : AgeUnit (b'S' ∷ []) 1000
  m : AgeUnit (b'm' ∷ []) (60 * 1000)
  m_upper : AgeUnit (b'M' ∷ []) (60 * 1000)
  h : AgeUnit (b'h' ∷ []) (3600 * 1000)
  h_upper : AgeUnit (b'H' ∷ []) (3600 * 1000)
  d : AgeUnit (b'd' ∷ []) (24 * 3600 * 1000)
  d_upper : AgeUnit (b'D' ∷ []) (24 * 3600 * 1000)
  w : AgeUnit (b'w' ∷ []) (7 * 24 * 3600 * 1000)
  w_upper : AgeUnit (b'W' ∷ []) (7 * 24 * 3600 * 1000)

age_step-Keeps : Keeps age_step
unfolding age_step
age_step-Keeps c cs factor is_set value e = rw e refl

read_unit :
    (u : Bytes) (factor : ℕ) (value : Bytes)
    → AgeUnit u factor
    → (is_set : Bool) × (read_text age_step u (reading 1000 false value)
        ≡ reading factor is_set value)
unfolding read_text age_step
read_unit u factor value bare = (false, refl)
read_unit u factor value ms = (true, refl)
read_unit u factor value ms_upper = (true, refl)
read_unit u factor value s = (true, refl)
read_unit u factor value s_upper = (true, refl)
read_unit u factor value m = (true, refl)
read_unit u factor value m_upper = (true, refl)
read_unit u factor value h = (true, refl)
read_unit u factor value h_upper = (true, refl)
read_unit u factor value d = (true, refl)
read_unit u factor value d_upper = (true, refl)
read_unit u factor value w = (true, refl)
read_unit u factor value w_upper = (true, refl)

AgeUnit-AgeFactor : (u : Bytes) (factor : ℕ) → AgeUnit u factor → AgeFactor factor
AgeUnit-AgeFactor u factor bare = second
AgeUnit-AgeFactor u factor ms = millisecond
AgeUnit-AgeFactor u factor ms_upper = millisecond
AgeUnit-AgeFactor u factor s = second
AgeUnit-AgeFactor u factor s_upper = second
AgeUnit-AgeFactor u factor m = minute
AgeUnit-AgeFactor u factor m_upper = minute
AgeUnit-AgeFactor u factor h = hour
AgeUnit-AgeFactor u factor h_upper = hour
AgeUnit-AgeFactor u factor d = day
AgeUnit-AgeFactor u factor d_upper = day
AgeUnit-AgeFactor u factor w = week
AgeUnit-AgeFactor u factor w_upper = week

-- An int times a factor of a unit is in the range of a 64-bit integer.
product_fits : (n factor : ℕ) → AgeFactor factor → n < 2 ^ 31 → n * factor < 2 ^ 63
product_fits n factor millisecond e = omega arith
product_fits n factor second e = omega arith
product_fits n factor minute e = omega arith
product_fits n factor hour e = omega arith
product_fits n factor day e = omega arith
product_fits n factor week e = omega arith

pub scaled_int :
    (n factor : ℕ) (default : ℤ)
    → AgeFactor factor
    → n < 2 ^ 31
    → scaled factor default (some (pos n)) ≡ ok (pos (n * factor))
scaled_int n factor default f e =
    scaled_pos n factor default ∙ ap ok (to_long_small (n * factor) (product_fits n factor f e))

pub as_milliseconds_text :
    (text : Bytes) (default : ℤ)
    → is_empty text ≡ false
    → as_milliseconds (some text) default
      ≡ finish_reading as_int default (read_text age_step text (reading 1000 false []))
unfolding as_milliseconds
as_milliseconds_text text default e = rw e refl

finish_number :
    (n factor : ℕ) (is_set : Bool) (default : ℤ)
    → n < 2 ^ 31
    → AgeFactor factor
    → finish_reading as_int default (reading factor is_set (decimal_loop n n))
      ≡ ok (pos (n * factor))
finish_number n factor is_set default e f =
    rw (decimal_fits n (omega arith), as_int-decimal n e) (scaled_int n factor default f e)

-- The decimal digits of a number that an int holds, with a unit of ages behind them, or nothing for
-- seconds, are read as the number times the milliseconds of the unit, whatever the default.
pub as_milliseconds-decimal :
    (n factor : ℕ) (u : Bytes) (default : ℤ)
    → AgeUnit u factor
    → n < 2 ^ 31
    → as_milliseconds (some (decimal_loop n n ++ u)) default ≡ ok (pos (n * factor))
as_milliseconds-decimal n factor u default unit e =
    let behind = read_unit u factor (decimal_loop n n) unit in
    as_milliseconds_text (decimal_loop n n ++ u) default (is_empty-decimal n u)
    ∙ ap (finish_reading as_int default)
        (read_text-decimal age_step n 1000 false u age_step-Keeps (omega arith) ∙ behind.1)
    ∙ finish_number n factor behind.0 default e (AgeUnit-AgeFactor u factor unit)
