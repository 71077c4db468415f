-- ===== src/Config/Buffer.antt =====
-- The buffer value[MISC_LENGTH] of as_bytes and as_milliseconds.
use pgexporter.Prelude.{
  ℕ, suc, ◌+◌, ◌*◌, ◌<◌, ◌≡◌, ◌≢◌, refl, Bool, true, false, [], ◌∷◌, Option, some, none, lt→ltb,
  ◌&&◌, ◌||◌, not, ◌==◌, Bool-cases, inl, inr, arith, length, length-append,
}
use pgexporter.Prelude.Int.{ℤ}
use pgexporter.Text.{Bytes, is_digit, is_alpha}
use pgexporter.Config.{
  Reading, reading, skip_next, refused, overrun, Outcome, ok, error, overran, keep, read_text,
  bytes_step, bytes_unit, as_bytes, age_step, as_milliseconds, as_int, as_long, scaled,
  finish_reading, is_empty, age_unit, misc_length,
}
use pgexporter.Config.Ranges.{if_both, as_milliseconds_blank}
use pgexporter.Config.Ages.{as_milliseconds_text}
use pgexporter.Config.Sizes.{as_bytes_text}

-- The buffer has room for the `k` characters that are left and for the final NUL.
data HasRoom : ℕ → Reading → Type 0 where
  reading_room :
      {k m : ℕ} {s : Bool} {value : Bytes}
      → length value + k < misc_length
      → HasRoom k (reading m s value)
  skip_room :
      {k m : ℕ} {value : Bytes} → length value + k < misc_length → HasRoom k (skip_next m value)
  refused_room : {k : ℕ} → HasRoom k refused

keep-HasRoom :
    (k m : ℕ) (s : Bool) (value : Bytes) (c : ℕ)
    → length value + suc k < misc_length
    → HasRoom k (keep m s value c)
keep-HasRoom k m s value c h =
    rw (lt→ltb (length value) misc_length (omega arith))
      (reading_room (omega (arith, length-append value (c ∷ []))))

-- A step that keeps the room.
abbrev Bounded : (ℕ → Bytes → Reading → Reading) → Type 0
Bounded step = (k c : ℕ) (cs : Bytes) (r : Reading) → HasRoom (suc k) r → HasRoom k (step c cs r)

read_text-HasRoom :
    (step : ℕ → Bytes → Reading → Reading) (text : Bytes) (r : Reading)
    → Bounded step
    → HasRoom (length text) r
    → HasRoom 0 (read_text step text r)
unfolding read_text
read_text-HasRoom step [] r b h = h
read_text-HasRoom step (c ∷ cs) r b h =
    read_text-HasRoom step cs (step c cs r) b (b (length cs) c cs r h)

bytes_unit-HasRoom :
    (k m : ℕ) (value : Bytes) (c : ℕ)
    → length value + k < misc_length
    → HasRoom k (bytes_unit m value c)
bytes_unit-HasRoom k m value c h =
    if_both (HasRoom k) (c == b'M' || c == b'm') (unit_room (1024 * 1024) true) (
      if_both (HasRoom k) (c == b'G' || c == b'g') (unit_room (1024 * 1024 * 1024) true) (
        if_both (HasRoom k) (c == b'K' || c == b'k') (unit_room 1024 true)
          (if_both (HasRoom k) (c == b'B' || c == b'b') (unit_room 1 true) (unit_room m false))))
  where
    unit_room : (factor : ℕ) (s : Bool) → HasRoom k (reading factor s value)
    unit_room factor s = reading_room h

bytes_step-Bounded : Bounded bytes_step
unfolding bytes_step
bytes_step-Bounded k c cs (reading m s value) (reading_room h) =
    if_both (HasRoom k) (is_digit c) (keep-HasRoom k m s value c h) (
      if_both (HasRoom k) (is_alpha c && s)
        (if_both (HasRoom k) (m == 1 || not (c == b'b') && not (c == b'B')) refused_room
          (same_room (omega arith)))
        (if_both (HasRoom k) (is_alpha c) (bytes_unit-HasRoom k m value c (omega arith))
          refused_room))
  where
    same_room : length value + k < misc_length → HasRoom k (reading m s value)
    same_room l = reading_room l
bytes_step-Bounded k c cs (skip_next m value) h = refused_room
bytes_step-Bounded k c cs refused h = refused_room
bytes_step-Bounded k c cs overrun h = elim h [ ]

age_unit-HasRoom :
    (k : ℕ) (value : Bytes) (c : ℕ) (cs : Bytes)
    → length value + k < misc_length
    → HasRoom k (age_unit value c cs)
age_unit-HasRoom k value c cs h = if_both (HasRoom k) _ (skip_room {m = 1} h) (
    if_both (HasRoom k) _ (unit_room 1000) (
      if_both (HasRoom k) _ (unit_room (60 * 1000)) (
        if_both (HasRoom k) _ (unit_room (3600 * 1000)) (
          if_both (HasRoom k) _ (unit_room (24 * 3600 * 1000))
            (if_both (HasRoom k) _ (unit_room (7 * 24 * 3600 * 1000)) refused_room)))))
  where
    unit_room : (factor : ℕ) → HasRoom k (reading factor true value)
    unit_room factor = reading_room h

age_step-Bounded : Bounded age_step
unfolding age_step
age_step-Bounded k c cs (reading m s value) (reading_room h) =
    if_both (HasRoom k) _ (keep-HasRoom k m s value c h) (
      if_both (HasRoom k) _ refused_room
        (if_both (HasRoom k) _ (age_unit-HasRoom k value c cs (omega arith)) refused_room))
age_step-Bounded k c cs (skip_next m value) (skip_room h) = reading_room (omega arith)
age_step-Bounded k c cs refused h = refused_room
age_step-Bounded k c cs overrun h = elim h [ ]

-- Outcomes other than a write behind the buffer.
data Safe : Outcome → Type 0 where
  ok_safe : {v : ℤ} → Safe (ok v)
  error_safe : {v : ℤ} → Safe (error v)

Safe-ne : {o : Outcome} → Safe o → o ≢ overran
Safe-ne ok_safe e = cc
Safe-ne error_safe e = cc

scaled-Safe : (m : ℕ) (default : ℤ) (number : Option ℤ) → Safe (scaled m default number)
scaled-Safe m default none = error_safe
scaled-Safe m default (some v) = if_both Safe _ error_safe ok_safe

finish-Safe :
    (number : Bytes → Option ℤ) (default : ℤ) (r : Reading)
    → HasRoom 0 r
    → Safe (finish_reading number default r)
finish-Safe number default (reading m s value) (reading_room h) =
    rw (lt→ltb (length value) misc_length (omega arith)) (scaled-Safe m default (number value))
finish-Safe number default (skip_next m value) h = error_safe
finish-Safe number default refused h = error_safe
finish-Safe number default overrun h = elim h [ ]

as_bytes_blank :
    (text : Bytes) (default : ℤ) → is_empty text ≡ true → as_bytes (some text) default ≡ ok default
unfolding as_bytes
as_bytes_blank text default e = rw e refl

-- A text of fewer than 128 characters does not let as_bytes write behind its buffer.
pub as_bytes-in_bounds :
    (text : Bytes) (default : ℤ)
    → length text < misc_length
    → as_bytes (some text) default ≢ overran
as_bytes-in_bounds text default h = elim (Bool-cases (is_empty text)) [
  | inl e ↦ rw (as_bytes_blank text default e) (Safe-ne ok_safe)
  | inr e ↦ rw (as_bytes_text text default e) (
      Safe-ne (
        finish-Safe as_long default (read_text bytes_step text (reading 1 false [])) (
          read_text-HasRoom bytes_step text (reading 1 false []) bytes_step-Bounded
            (reading_room (omega arith)))))
]

-- A text of fewer than 128 characters does not let as_milliseconds write behind its buffer.
pub as_milliseconds-in_bounds :
    (text : Bytes) (default : ℤ)
    → length text < misc_length
    → as_milliseconds (some text) default ≢ overran
as_milliseconds-in_bounds text default h = elim (Bool-cases (is_empty text)) [
  | inl e ↦ rw (as_milliseconds_blank text default e) (Safe-ne ok_safe)
  | inr e ↦ rw (as_milliseconds_text text default e) (
      Safe-ne (
        finish-Safe as_int default (read_text age_step text (reading 1000 false [])) (
          read_text-HasRoom age_step text (reading 1000 false []) age_step-Bounded
            (reading_room (omega arith)))))
]
