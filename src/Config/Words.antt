-- ===== src/Config/Words.antt =====
-- The words of the configuration files, src/libpgexporter/configuration.c: as_bool,
-- as_logging_type, as_server_type, as_logging_level, as_logging_mode, as_hugepage,
-- as_update_process_title. The constants are those of src/include/logging.h and pgexporter.h.
use pgexporter.Prelude.{
  ℕ, ◌^◌, ◌<◌, ◌≡◌, refl, sym, ap, ◌∙◌, Bool, true, false, ◌||◌, [], ◌∷◌, ◌++◌, map, Option, none,
  some, ltb, if◌then◌else◌, take, drop, arith,
}
use pgexporter.Prelude.Int.{ℤ, pos, negsuc, ltb_ℤ, eqb_ℤ}
use pgexporter.Text.{Bytes, same, same_case, to_lower, decimal_loop, codes}
use pgexporter.Config.{as_int, is_empty, misc_length}
use pgexporter.Config.Digits.{as_int-decimal}
use pgexporter.Text.Decimal.{decimal-cons}

unfoldable pub as_bool : Bytes → Option Bool
unfolding same_case
as_bool s =
    if same_case s (codes "true")
      || same_case s (codes "on")
      || same_case s (codes "yes")
      || same_case s (codes "1")
    then some true
    else (if same_case s (codes "false")
          || same_case s (codes "off")
          || same_case s (codes "no")
          || same_case s (codes "0")
        then some false
        else none)

-- -1
abbrev pub unknown : ℤ
unknown = negsuc 0

unfoldable pub as_logging_type : Bytes → ℤ
unfolding same_case
as_logging_type s =
    if same_case s (codes "console")
    then pos 0
    else (if same_case s (codes "file")
        then pos 1
        else (if same_case s (codes "syslog") then pos 2 else unknown))

unfoldable pub as_server_type : Bytes → ℤ
unfolding same_case
as_server_type s =
    if same_case s (codes "prometheus")
    then pos 1
    else (if same_case s (codes "postgresql") then pos 0 else unknown)

unfoldable pub as_logging_mode : Bytes → ℤ
unfolding same_case
as_logging_mode s =
    if same_case s (codes "a") || same_case s (codes "append")
    then pos 1
    else (if same_case s (codes "c") || same_case s (codes "create") then pos 0 else unknown)

unfoldable pub as_hugepage : Bytes → ℤ
unfolding same_case
as_hugepage s =
    if same_case s (codes "off")
    then pos 0
    else (if same_case s (codes "try")
        then pos 1
        else (if same_case s (codes "on") then pos 2 else pos 0))

-- The number behind "debug", 1 where there is none.
abbrev pub debug_level : Bytes → ℤ
debug_level [] = pos 1
debug_level (c ∷ cs) = elim (as_int (c ∷ cs)) [ none ↦ pos 1 | some n ↦ n ]

-- PGEXPORTER_LOGGING_LEVEL_DEBUG1 is 2, DEBUG2 to DEBUG5 are 1.
abbrev pub debug_constant : ℤ → ℤ
debug_constant n =
    if ltb_ℤ n (pos 2)
    then pos 2
    else (if eqb_ℤ n (pos 2)
        then pos 1
        else (if eqb_ℤ n (pos 3) then pos 1 else (if eqb_ℤ n (pos 4) then pos 1 else pos 1)))

unfoldable pub as_logging_level : Bytes → ℤ
unfolding same_case as_int
as_logging_level s =
    if same_case (take 5 s) (codes "debug")
    then debug_constant (debug_level (drop 5 s))
    else (if same_case s (codes "info")
        then pos 3
        else (if same_case s (codes "warn")
            then pos 4
            else (if same_case s (codes "error")
                then pos 5
                else (if same_case s (codes "fatal") then pos 6 else unknown))))

-- strncmp(s, word, MISC_LENGTH) is 0.
abbrev pub starts_same : Bytes → Bytes → Bool
starts_same s word = same (take misc_length s) (take misc_length word)

abbrev pub empty_or_null : Option Bytes → Bool
empty_or_null none = true
empty_or_null (some s) = is_empty s

unfoldable pub as_update_process_title : Option Bytes → ℤ
unfolding same is_empty
as_update_process_title none = unknown
as_update_process_title (some s) =
    if is_empty s
    then unknown
    else (if starts_same s (codes "never") || starts_same s (codes "off")
        then pos 0
        else (if starts_same s (codes "strict")
            then pos 1
            else (if starts_same s (codes "minimal")
                then pos 2
                else (if starts_same s (codes "verbose") || starts_same s (codes "full")
                    then pos 3
                    else unknown))))

to_lower_twice : (c : ℕ) → to_lower (to_lower c) ≡ to_lower c
to_lower_twice c = ground arith

map_lower_twice : (s : Bytes) → map to_lower (map to_lower s) ≡ map to_lower s
map_lower_twice [] = refl
map_lower_twice (c ∷ cs) = rw (to_lower_twice c, map_lower_twice cs) refl

same_case-lower : (s w : Bytes) → same_case (map to_lower s) w ≡ same_case s w
unfolding same_case
same_case-lower s w = ap (λ t. same t (map to_lower w)) (map_lower_twice s)

-- Booleans, types of logs and servers, modes of logs and huge pages are read without regard to the
-- case of the letters.
pub words_fold_case :
    (s : Bytes)
    → (as_bool (map to_lower s) ≡ as_bool s)
      × (as_logging_type (map to_lower s) ≡ as_logging_type s)
      × (as_server_type (map to_lower s) ≡ as_server_type s)
      × (as_logging_mode (map to_lower s) ≡ as_logging_mode s)
      × (as_hugepage (map to_lower s) ≡ as_hugepage s)
unfolding as_bool as_logging_type as_server_type as_logging_mode as_hugepage
words_fold_case s = (folded, folded1, folded2, folded3, folded4)
  where
    folded : as_bool (map to_lower s) ≡ as_bool s
    folded = simp same_case-lower

    folded1 : as_logging_type (map to_lower s) ≡ as_logging_type s
    folded1 = simp same_case-lower

    folded2 : as_server_type (map to_lower s) ≡ as_server_type s
    folded2 = simp same_case-lower

    folded3 : as_logging_mode (map to_lower s) ≡ as_logging_mode s
    folded3 = simp same_case-lower

    folded4 : as_hugepage (map to_lower s) ≡ as_hugepage s
    folded4 = simp same_case-lower

debug_number : (n : ℕ) → n < 2 ^ 31 → debug_level (decimal_loop n n) ≡ pos n
debug_number n h =
    let start = decimal-cons n n in
    rw start.2 (
      ap (λ o. elim o [ none ↦ pos 1 | some z ↦ z ]) (ap as_int (sym start.2) ∙ as_int-decimal n h))

-- The word debug with a number of the range of an int behind it is level 2 up to 1 and level 1 from
-- 2 on.
pub as_logging_level-debug :
    (n : ℕ)
    → n < 2 ^ 31
    → as_logging_level (codes "debug" ++ decimal_loop n n) ≡ (if ltb n 2 then pos 2 else pos 1)
unfolding as_logging_level same_case same
as_logging_level-debug n h = ap debug_constant (debug_number n h) ∙ constant n
  where
    constant : (k : ℕ) → debug_constant (pos k) ≡ (if ltb k 2 then pos 2 else pos 1)
    constant k = ground arith
