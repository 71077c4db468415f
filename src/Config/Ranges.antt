-- ===== src/Config/Ranges.antt =====
-- What as_milliseconds can store, for every text.
use mathlib.Core.Path.{subst}
use pgexporter.Prelude.{
  ℕ, ◌-◌, ◌*◌, ◌%◌, ◌^◌, ◌≤◌, ◌<◌, ◌≡◌, ◌⊎◌, refl, sym, Bool, true, false, [], ◌∷◌, Option, some,
  none, ltb, ltb→lt, Bool-cases, inl, inr, arith, length, if◌then◌else◌,
}
use pgexporter.Prelude.Int.{ℤ, pos, negsuc, ltb_ℤ}
use pgexporter.Text.{Bytes, Scan, to_int, strtol, int_of_bits}
use pgexporter.Config.{
  Reading, reading, skip_next, refused, overrun, Outcome, ok, error, overran, read_text, age_step,
  as_milliseconds, as_int, scaled, finish_reading, is_empty, age_unit, whole_int, misc_length,
}
use pgexporter.Config.Digits.{read_text-Invariant}
use pgexporter.Config.Ages.{
  AgeFactor, millisecond, second, minute, hour, day, week, scaled_int, as_milliseconds_text,
}

pub if_both {ℓ κ} :
    {A : Type ℓ} (P : A → Type κ) (t : Bool) {x y : A} → P x → P y → P (if t then x else y)
if_both P true p q = p
if_both P false p q = q

data KnownFactor : Reading → Type 0 where
  reading_known :
      {factor : ℕ} {is_set : Bool} {value : Bytes}
      → AgeFactor factor
      → KnownFactor (reading factor is_set value)
  skip_known :
      {factor : ℕ} {value : Bytes} → AgeFactor factor → KnownFactor (skip_next factor value)
  refused_known : KnownFactor refused
  overrun_known : KnownFactor overrun

age_unit-KnownFactor : (value : Bytes) (c : ℕ) (cs : Bytes) → KnownFactor (age_unit value c cs)
age_unit-KnownFactor value c cs = if_both KnownFactor _ (skip_known millisecond) (
    if_both KnownFactor _ (reading_known second) (
      if_both KnownFactor _ (reading_known minute) (
        if_both KnownFactor _ (reading_known hour) (
          if_both KnownFactor _ (reading_known day)
            (if_both KnownFactor _ (reading_known week) refused_known)))))

age_step-KnownFactor :
    (c : ℕ) (cs : Bytes) (r : Reading) → KnownFactor r → KnownFactor (age_step c cs r)
unfolding age_step
age_step-KnownFactor c cs (reading factor is_set value) (reading_known k) =
    if_both KnownFactor _ (if_both KnownFactor _ (reading_known k) overrun_known) (
      if_both KnownFactor _ refused_known
        (if_both KnownFactor _ (age_unit-KnownFactor value c cs) refused_known))
age_step-KnownFactor c cs (skip_next factor value) (skip_known k) = reading_known k
age_step-KnownFactor c cs refused k = k
age_step-KnownFactor c cs overrun k = k

-- An int is negative or below 2 ^ 31.
abbrev IsInt : ℤ → Type 0
IsInt (pos n) = n < 2 ^ 31
IsInt (negsuc n) = n < 2 ^ 31

ltb-false : (a b : ℕ) → ltb a b ≡ false → b ≤ a
ltb-false a b h = ground arith

lower_half : (w : ℕ) → w < 2 ^ 32 → 2 ^ 31 ≤ w → 2 ^ 32 - w - 1 < 2 ^ 31
lower_half w h l = omega arith

int_of_bits-IsInt : (w : ℕ) → w < 2 ^ 32 → IsInt (int_of_bits w)
int_of_bits-IsInt w h = elim (Bool-cases (ltb w (2 ^ 31))) [
  | inl e ↦ (rw e (ltb→lt w (2 ^ 31) e))
  | inr e ↦ (rw e (lower_half w h (ltb-false w (2 ^ 31) e)))
]

to_int-IsInt : (z : ℤ) → IsInt (to_int z)
unfolding to_int
to_int-IsInt (pos n) = int_of_bits-IsInt (n % 2 ^ 32) (omega arith)
to_int-IsInt (negsuc n) = int_of_bits-IsInt (2 ^ 32 - 1 - n % 2 ^ 32) (omega arith)

abbrev IsIntOption : Option ℤ → Type 0
IsIntOption none = Unit
IsIntOption (some z) = IsInt z

whole_int-IsInt : (scan : Option Scan) → IsIntOption (whole_int scan)
whole_int-IsInt none = tt
whole_int-IsInt (some scan) =
    if_both IsIntOption scan.overflow {x = none}
      {y = elim scan.rest [ [] ↦ some (to_int scan.value) | _ ↦ none ]} tt
      (rest_case scan.value scan.rest)
  where
    rest_case : (v : ℤ) (rest : Bytes) → IsIntOption (elim rest [ [] ↦ some (to_int v) | _ ↦ none ])
    rest_case v [] = to_int-IsInt v
    rest_case v (c ∷ cs) = tt

as_int-IsInt : (text : Bytes) → IsIntOption (as_int text)
unfolding as_int
as_int-IsInt text = whole_int-IsInt (strtol text)

-- The default, or a number below 2 ^ 31 of one of the units.
abbrev pub IsAge : ℤ → ℤ → Type 0
IsAge default v =
    (v ≡ default)
    ⊎ ((n : ℕ) × (factor : ℕ) × (n < 2 ^ 31) × AgeFactor factor × (v ≡ pos (n * factor)))

-- An outcome stores the default or an age.
abbrev Stores : ℤ → Outcome → Type 0
Stores default (ok v) = IsAge default v
Stores default (error v) = v ≡ default
Stores default overran = Unit

scaled_negative :
    (n factor : ℕ) (default : ℤ) → scaled factor default (some (negsuc n)) ≡ error default
scaled_negative n factor default = rw (negative n) refl
  where
    negative : (k : ℕ) → ltb_ℤ (negsuc k) (pos 0) ≡ true
    negative k = ground arith

pub as_milliseconds_blank :
    (text : Bytes) (default : ℤ)
    → is_empty text ≡ true
    → as_milliseconds (some text) default ≡ ok default
unfolding as_milliseconds
as_milliseconds_blank text default e = rw e refl

scaled-Stores :
    (factor : ℕ) (default : ℤ) (number : Option ℤ)
    → AgeFactor factor
    → IsIntOption number
    → Stores default (scaled factor default number)
scaled-Stores factor default none f i = refl
scaled-Stores factor default (some (pos n)) f i =
    subst (Stores default) (sym (scaled_int n factor default f i)) (inr (n, factor, i, f, refl))
scaled-Stores factor default (some (negsuc n)) f i =
    subst (Stores default) (sym (scaled_negative n factor default)) refl

finish-Stores :
    (default : ℤ) (r : Reading) → KnownFactor r → Stores default (finish_reading as_int default r)
finish-Stores default (reading factor is_set value) (reading_known f) =
    if_both (Stores default) (ltb (length value) misc_length)
      {x = scaled factor default (as_int value)} {y = overran}
      (scaled-Stores factor default (as_int value) f (as_int-IsInt value)) tt
finish-Stores default (skip_next factor value) f = refl
finish-Stores default refused f = refl
finish-Stores default overrun f = tt

-- Where as_milliseconds returns 0 for a text, it has stored the default or a number below 2 ^ 31
-- times the milliseconds of a unit.
pub as_milliseconds-range :
    (text : Bytes) (default v : ℤ) → as_milliseconds (some text) default ≡ ok v → IsAge default v
as_milliseconds-range text default v e =
    let stored : Stores default (as_milliseconds (some text) default) =
      elim (Bool-cases (is_empty text)) [
        | inl blank ↦
            subst (Stores default) (sym (as_milliseconds_blank text default blank)) (inl refl)
        | inr written ↦ subst (Stores default) (sym (as_milliseconds_text text default written)) (
            finish-Stores default (read_text age_step text (reading 1000 false [])) (
              read_text-Invariant age_step KnownFactor text (reading 1000 false [])
                age_step-KnownFactor (reading_known second)))
      ] in
    subst (Stores default) e stored
