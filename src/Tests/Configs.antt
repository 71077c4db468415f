-- ===== src/Tests/Configs.antt =====
-- src/libpgexporter/configuration.c at concrete values.
use pgexporter.Prelude.{◌*◌, ◌≡◌, ◌≢◌, ◌⊎◌, refl, true, false, Bool, ◌∷◌, ◌++◌, Option, some, arith}
use pgexporter.Prelude.Int.{pos, negsuc, ◌*ℤ◌}
use pgexporter.Text.{codes, decimal_loop, strtol, skip_space, read_digits, to_int}
use pgexporter.Config.{
  as_int, as_bytes, as_milliseconds, ok, overran, as_long, read_text, bytes_step, age_step,
  is_empty,
}
use pgexporter.Config.Sizes.{scale_bytes, mega, lower, as_bytes-decimal}
use pgexporter.Config.Ages.{ms, as_milliseconds-decimal}
use pgexporter.Config.Ranges.{IsAge, as_milliseconds-range}
use pgexporter.Config.Buffer.{as_bytes-in_bounds}
use pgexporter.Config.Words.{as_update_process_title}
use pgexporter.Config.Backends.{
  Build, Backend, io_uring, is_supported_backend, validate_event_backend, validate-supported,
}
use pgexporter.Config.Lines.{extract_key_value, pair}
use pgexporter.Config.Lines.Pair.{comment, extract_key_value-pair}

size_2_mb : as_bytes (some (codes "2MB")) (pos 0) ≡ ok (pos 2097152)
unfolding as_bytes read_text bytes_step is_empty as_long strtol skip_space read_digits ◌*ℤ◌
size_2_mb = refl

-- A letter that is no unit is passed over, and the digits behind it count.
size_unknown_letter : as_bytes (some (codes "1x2")) (pos 0) ≡ ok (pos 12)
unfolding as_bytes read_text bytes_step is_empty as_long strtol skip_space read_digits ◌*ℤ◌
size_unknown_letter = refl

age_5_minutes : as_milliseconds (some (codes "5m")) (pos 0) ≡ ok (pos 300000)
unfolding as_milliseconds read_text age_step is_empty as_int strtol skip_space read_digits to_int
    ◌*ℤ◌
age_5_minutes = refl

-- The number is cut to an int.
age_wraps : as_milliseconds (some (codes "4294967297s")) (pos 0) ≡ ok (pos 1000)
unfolding as_milliseconds read_text age_step is_empty as_int strtol skip_space read_digits to_int
    ◌*ℤ◌
age_wraps = refl

as_bytes-decimal_example :
    as_bytes (some (decimal_loop 512 512 ++ codes "mb")) (negsuc 0) ≡ ok (pos (512 * (1024 * 1024)))
as_bytes-decimal_example =
    as_bytes-decimal 512 (1024 * 1024) (codes "mb") (negsuc 0) (scale_bytes mega lower)
      (omega arith)

as_milliseconds-decimal_example :
    as_milliseconds (some (decimal_loop 250 250 ++ codes "ms")) (pos 7) ≡ ok (pos (250 * 1))
as_milliseconds-decimal_example =
    as_milliseconds-decimal 250 1 (codes "ms") (pos 7) ms (omega arith)

as_milliseconds-range_example : IsAge (pos 0) (pos 300000)
as_milliseconds-range_example =
    as_milliseconds-range (codes "5m") (pos 0) (pos 300000) age_5_minutes

as_bytes-in_bounds_example : as_bytes (some (codes "10k")) (pos 0) ≢ overran
as_bytes-in_bounds_example = as_bytes-in_bounds (codes "10k") (pos 0) (omega arith)

title_strict : as_update_process_title (some (codes "strict")) ≡ pos 1
unfolding as_update_process_title
title_strict = refl

abbrev linux : Build
linux = record { have_linux = true; have_io_uring = true }

validate-supported_example :
    (is_supported_backend linux (validate_event_backend linux (some true) io_uring) ≡ true)
    × ((validate_event_backend linux (some true) io_uring ≢ io_uring)
        ⊎ (◌≡◌ {A = Backend} io_uring io_uring × (◌≡◌ {A = Option Bool} (some true) (some false))))
    × (validate_event_backend linux (some true) (validate_event_backend linux (some true) io_uring)
        ≡ validate_event_backend linux (some true) io_uring)
validate-supported_example = validate-supported linux (some true) io_uring

extract_key_value-pair_example :
    extract_key_value (
      (codes " " ++ (codes "host" ++ codes " "))
      ++ (b'=' ∷ (codes " '" ++ ((codes "a.b" ++ codes "' ") ++ codes "# c"))))
    ≡ pair (codes "host") (codes "a.b")
extract_key_value-pair_example =
    extract_key_value-pair (codes " ") (codes "host") (codes " ") (codes " '") (codes "a.b")
      (codes "' ") (codes "# c") (refl, tt) (refl, refl) (refl, (refl, (refl, (refl, tt))))
      (refl, (refl, (refl, (refl, tt)))) (refl, tt) (refl, (refl, tt)) (refl, refl)
      (refl, (refl, (refl, tt))) (refl, (refl, (refl, tt))) (refl, (refl, tt)) (comment _)
      (omega arith) (omega arith)
