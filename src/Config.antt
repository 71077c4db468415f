-- ===== src/Config.antt =====
-- The values of the configuration files, src/libpgexporter/configuration.c: as_int, as_long,
-- as_bool, as_bytes, as_milliseconds and the functions over them, is_empty_string.
-- A text is `none` for NULL. The buffer value[MISC_LENGTH] has 128 bytes, and a write past its end
-- is a result of its own.
pub mod Digits
pub mod Sizes
pub mod Ages
pub mod Ranges
pub mod Buffer
pub mod Words
pub mod Backends
pub mod Lines
use pgexporter.Prelude.{
  ℕ, ◌*◌, ◌-◌, ◌%◌, ◌^◌, Bool, true, false, ◌&&◌, ◌||◌, not, [], ◌∷◌, ◌++◌, Option, none, some, ltb,
  ◌==◌, if◌then◌else◌, length,
}
use pgexporter.Prelude.Int.{ℤ, pos, negsuc, ◌*ℤ◌, ltb_ℤ}
use pgexporter.Text.{Bytes, Scan, is_digit, is_alpha, strtol, to_int}

abbrev pub misc_length : ℕ
misc_length = 128

-- The value that as_long stores; `none` where it returns 1.
abbrev pub whole_long : Option Scan → Option ℤ
whole_long none = none
whole_long (some scan) =
    if scan.overflow then none else elim scan.rest [ [] ↦ some scan.value | _ ↦ none ]

unfoldable pub as_long : Bytes → Option ℤ
as_long s = whole_long (strtol s)

-- The same with the long cut to an int.
abbrev pub whole_int : Option Scan → Option ℤ
whole_int none = none
whole_int (some scan) =
    if scan.overflow then none else elim scan.rest [ [] ↦ some (to_int scan.value) | _ ↦ none ]

unfoldable pub as_int : Bytes → Option ℤ
as_int s = whole_int (strtol s)

-- is_empty_string
unfoldable pub is_empty : Bytes → Bool
is_empty [] = true
is_empty (c ∷ cs) = (c == 32 || c == 9 || c == 13 || c == 10) && is_empty cs

-- The local variables of the loop over the characters: multiplier, multiplier_set and the part of
-- `value` that is written. In `skip_next` the next character is the s of ms; `refused` is at the
-- label error, `overrun` after a write behind the buffer.
pub data Reading : Type 0 where
  reading : (multiplier : ℕ) (multiplier_set : Bool) (value : Bytes) → Reading
  skip_next : (multiplier : ℕ) (value : Bytes) → Reading
  refused : Reading
  overrun : Reading

-- What a caller sees: 0 or 1 returned, and the value stored.
pub data Outcome : Type 0 where
  ok : ℤ → Outcome
  error : ℤ → Outcome
  overran : Outcome

-- value[index++] = c
abbrev pub keep : ℕ → Bool → Bytes → ℕ → Reading
keep m is_set value c =
    if ltb (length value) misc_length then reading m is_set (value ++ (c ∷ [])) else overrun

-- The loop over the text; `step` sees a character and those behind it.
unfoldable pub read_text : (ℕ → Bytes → Reading → Reading) → Bytes → Reading → Reading
read_text step [] r = r
read_text step (c ∷ cs) r = read_text step cs (step c cs r)

abbrev pub bytes_unit : ℕ → Bytes → ℕ → Reading
bytes_unit m value c =
    if c == b'M' || c == b'm'
    then reading (1024 * 1024) true value
    else (if c == b'G' || c == b'g'
        then reading (1024 * 1024 * 1024) true value
        else (if c == b'K' || c == b'k'
            then reading 1024 true value
            else (if c == b'B' || c == b'b' then reading 1 true value else reading m false value)))

unfoldable pub bytes_step : ℕ → Bytes → Reading → Reading
bytes_step c cs (reading m is_set value) =
    if is_digit c
    then keep m is_set value c
    else (if is_alpha c && is_set
        then (if m == 1 || not (c == b'b') && not (c == b'B')
            then refused
            else reading m is_set value)
        else (if is_alpha c then bytes_unit m value c else refused))
bytes_step c cs (skip_next m value) = refused
bytes_step c cs refused = refused
bytes_step c cs overrun = overrun

-- A product of longs, in 64 bits.
abbrev pub long_of_bits : ℕ → ℤ
long_of_bits w = if ltb w (2 ^ 63) then pos w else negsuc (2 ^ 64 - w - 1)

abbrev pub to_long : ℤ → ℤ
to_long (pos n) = long_of_bits (n % 2 ^ 64)
to_long (negsuc n) = long_of_bits (2 ^ 64 - 1 - n % 2 ^ 64)

-- After the number is read: the sanity check, the product, and the default after an error.
abbrev pub scaled : ℕ → ℤ → Option ℤ → Outcome
scaled m default none = error default
scaled m default (some v) = if ltb_ℤ v (pos 0) then error default else ok (to_long (v *ℤ pos m))

-- After the loop: value[index] = '\0', and the number in `value`.
abbrev pub finish_reading : (Bytes → Option ℤ) → ℤ → Reading → Outcome
finish_reading number default (reading m is_set value) =
    if ltb (length value) misc_length then scaled m default (number value) else overran
finish_reading number default (skip_next m value) = error default
finish_reading number default refused = error default
finish_reading number default overrun = overran

unfoldable pub as_bytes : Option Bytes → ℤ → Outcome
unfolding read_text bytes_step is_empty as_long
as_bytes none default = ok default
as_bytes (some s) default =
    if is_empty s
    then ok default
    else finish_reading as_long default (read_text bytes_step s (reading 1 false []))

-- The character behind is s or S.
abbrev pub next_s : Bytes → Bool
next_s [] = false
next_s (c ∷ cs) = c == b's' || c == b'S'

abbrev pub age_unit : Bytes → ℕ → Bytes → Reading
age_unit value c cs =
    if (c == b'm' || c == b'M') && next_s cs
    then skip_next 1 value
    else (if c == b's' || c == b'S'
        then reading 1000 true value
        else (if c == b'm' || c == b'M'
            then reading (60 * 1000) true value
            else (if c == b'h' || c == b'H'
                then reading (3600 * 1000) true value
                else (if c == b'd' || c == b'D'
                    then reading (24 * 3600 * 1000) true value
                    else (if c == b'w' || c == b'W'
                        then reading (7 * 24 * 3600 * 1000) true value
                        else refused)))))

unfoldable pub age_step : ℕ → Bytes → Reading → Reading
age_step c cs (reading m is_set value) =
    if is_digit c
    then keep m is_set value c
    else (if is_alpha c && is_set
        then refused
        else (if is_alpha c then age_unit value c cs else refused))
age_step c cs (skip_next m value) = reading m true value
age_step c cs refused = refused
age_step c cs overrun = overrun

unfoldable pub as_milliseconds : Option Bytes → ℤ → Outcome
unfolding read_text age_step is_empty as_int
as_milliseconds none default = ok default
as_milliseconds (some s) default =
    if is_empty s
    then ok default
    else finish_reading as_int default (read_text age_step s (reading 1000 false []))

-- PGEXPORTER_LOGGING_ROTATION_DISABLED and PGEXPORTER_TIME_DISABLED are 0.
unfoldable pub as_logging_rotation_size : Option Bytes → Outcome
unfolding as_bytes
as_logging_rotation_size s = as_bytes s (pos 0)

unfoldable pub as_logging_rotation_age : Option Bytes → Outcome
unfolding as_milliseconds
as_logging_rotation_age s = as_milliseconds s (pos 0)
