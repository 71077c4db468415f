-- ===== src/Config/Sizes.antt =====
-- as_bytes: numbers with a unit, and texts that fit in the buffer.
use pgexporter.Prelude.{
  ℕ, zero, suc, ◌*◌, ◌^◌, ◌≤◌, ◌<◌, ◌≡◌, refl, ap, ◌∙◌, Bool, true, false, [], ◌∷◌, ◌++◌, some,
  arith,
}
use pgexporter.Prelude.Int.{ℤ, pos, ltb_ℤ, pos_times}
use pgexporter.Text.{Bytes, decimal_loop}
use pgexporter.Config.{
  reading, ok, read_text, bytes_step, as_bytes, as_long, scaled, finish_reading, is_empty, to_long,
}
use pgexporter.Config.Digits.{
  Keeps, read_text-decimal, decimal_fits, as_long-decimal, is_empty-decimal,
}

-- A letter for kilo, mega or giga, and its factor.
pub data Scale : ℕ → ℕ → Type 0 where
  kilo : Scale b'k' 1024
  kilo_upper : Scale b'K' 1024
  mega : Scale b'm' (1024 * 1024)
  mega_upper : Scale b'M' (1024 * 1024)
  giga : Scale b'g' (1024 * 1024 * 1024)
  giga_upper : Scale b'G' (1024 * 1024 * 1024)

pub data ByteLetter : ℕ → Type 0 where
  lower : ByteLetter b'b'
  upper : ByteLetter b'B'

-- The units of a size, as the comment of as_bytes lists them: none and b for bytes, and the letters
-- above alone or before a b.
pub data SizeUnit : Bytes → ℕ → Type 0 where
  bare : SizeUnit [] 1
  bytes : {c : ℕ} → ByteLetter c → SizeUnit (c ∷ []) 1
  scale : {c m : ℕ} → Scale c m → SizeUnit (c ∷ []) m
  scale_bytes : {c b m : ℕ} → Scale c m → ByteLetter b → SizeUnit (c ∷ b ∷ []) m

bytes_step-Keeps : Keeps bytes_step
unfolding bytes_step
bytes_step-Keeps c cs m s value h = rw h refl

read_unit :
    (u : Bytes) (m : ℕ) (value : Bytes)
    → SizeUnit u m
    → (s : Bool) × (read_text bytes_step u (reading 1 false value) ≡ reading m s value)
unfolding read_text bytes_step
read_unit u m value bare = (false, refl)
read_unit u m value (bytes lower) = (true, refl)
read_unit u m value (bytes upper) = (true, refl)
read_unit u m value (scale kilo) = (true, refl)
read_unit u m value (scale kilo_upper) = (true, refl)
read_unit u m value (scale mega) = (true, refl)
read_unit u m value (scale mega_upper) = (true, refl)
read_unit u m value (scale giga) = (true, refl)
read_unit u m value (scale giga_upper) = (true, refl)
read_unit u m value (scale_bytes kilo lower) = (true, refl)
read_unit u m value (scale_bytes kilo upper) = (true, refl)
read_unit u m value (scale_bytes kilo_upper lower) = (true, refl)
read_unit u m value (scale_bytes kilo_upper upper) = (true, refl)
read_unit u m value (scale_bytes mega lower) = (true, refl)
read_unit u m value (scale_bytes mega upper) = (true, refl)
read_unit u m value (scale_bytes mega_upper lower) = (true, refl)
read_unit u m value (scale_bytes mega_upper upper) = (true, refl)
read_unit u m value (scale_bytes giga lower) = (true, refl)
read_unit u m value (scale_bytes giga upper) = (true, refl)
read_unit u m value (scale_bytes giga_upper lower) = (true, refl)
read_unit u m value (scale_bytes giga_upper upper) = (true, refl)

pub as_bytes_text :
    (s : Bytes) (default : ℤ)
    → is_empty s ≡ false
    → as_bytes (some s) default
      ≡ finish_reading as_long default (read_text bytes_step s (reading 1 false []))
unfolding as_bytes
as_bytes_text s default h = rw h refl

Scale-positive : {c m : ℕ} → Scale c m → 1 ≤ m
Scale-positive kilo = omega arith
Scale-positive kilo_upper = omega arith
Scale-positive mega = omega arith
Scale-positive mega_upper = omega arith
Scale-positive giga = omega arith
Scale-positive giga_upper = omega arith

unit_positive : (u : Bytes) (m : ℕ) → SizeUnit u m → 1 ≤ m
unit_positive u m bare = omega arith
unit_positive u m (bytes l) = omega arith
unit_positive u m (scale s) = Scale-positive s
unit_positive u m (scale_bytes s l) = Scale-positive s

pub to_long_small : (n : ℕ) → n < 2 ^ 63 → to_long (pos n) ≡ pos n
to_long_small n h = ground arith

pub scaled_pos :
    (n m : ℕ) (default : ℤ) → scaled m default (some (pos n)) ≡ ok (to_long (pos (n * m)))
scaled_pos n m default = rw (not_negative n, pos_times n m) refl
  where
    not_negative : (k : ℕ) → ltb_ℤ (pos k) (pos 0) ≡ false
    not_negative k = ground arith

pub le_times : (n m bound : ℕ) → 1 ≤ m → n * m < bound → n < bound
le_times n zero bound p h = absurd (omega arith)
le_times n (suc m) bound p h = omega arith

finish_number :
    (n m : ℕ) (s : Bool) (default : ℤ)
    → n < 2 ^ 63
    → n * m < 2 ^ 63
    → finish_reading as_long default (reading m s (decimal_loop n n)) ≡ ok (pos (n * m))
finish_number n m s default h p =
    rw (decimal_fits n h, as_long-decimal n h)
      (scaled_pos n m default ∙ ap ok (to_long_small (n * m) p))

-- The decimal digits of a number with a unit of sizes behind them are read as the number times the
-- factor of the unit, whatever the default, if a long holds the product.
pub as_bytes-decimal :
    (n m : ℕ) (u : Bytes) (default : ℤ)
    → SizeUnit u m
    → n * m < 2 ^ 63
    → as_bytes (some (decimal_loop n n ++ u)) default ≡ ok (pos (n * m))
as_bytes-decimal n m u default unit p =
    let below : n < 2 ^ 63 = le_times n m (2 ^ 63) (unit_positive u m unit) p in
    let behind = read_unit u m (decimal_loop n n) unit in
    as_bytes_text (decimal_loop n n ++ u) default (is_empty-decimal n u)
    ∙ ap (finish_reading as_long default)
        (read_text-decimal bytes_step n 1 false u bytes_step-Keeps below ∙ behind.1)
    ∙ finish_number n m behind.0 default below p
