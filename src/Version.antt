-- ===== src/Version.antt =====
-- src/libpgexporter/extension.c: semantic versions of extensions, parsed, compared and printed,
-- and the list of enabled extensions. `struct version` is in src/include/pgexporter.h.
pub mod Compare
pub mod Newer
pub mod Print
pub mod Enabled
use Prim.Native.Nat.{Ordering}
use Prim.Native.Nat.Ordering.{lt, eq, gt}
use pgexporter.Prelude.{
  ℕ, suc, zero, ◌+◌, ◌<◌, ◌≡◌, Bool, true, false, not, List, [], ◌∷◌, ◌++◌, Option, none, some, ltb,
  leb, ◌==◌, if◌then◌else◌, length,
}
use pgexporter.Prelude.Int.{ℤ, pos, negsuc, ltb_ℤ, eqb_ℤ}
use pgexporter.Text.{Bytes, Scan, strtol, to_int, print_int, before, tokens, same}

-- A minor or patch number of -1 was not given.
pub record Version : Type 0 where
  pub major : ℤ
  pub minor : ℤ
  pub patch : ℤ

abbrev pub unset : ℤ
unset = negsuc 0

-- `*version` is written before an error is found: the flag is the return code (true is 1).
abbrev pub store : ℕ → ℤ → Version → Version
store zero value v = record v { major = value }
store (suc zero) value v = record v { minor = value }
store (suc (suc part)) value v = record v { patch = value }

-- Must have at least a major version.
abbrev pub finish : Version → Bool × Version
finish v = (eqb_ℤ v.major unset, v)

-- The loop over the tokens, with `part`.
unfoldable pub parse_parts : List Bytes → ℕ → Version → Bool × Version
unfolding strtol to_int
parse_parts [] part v = finish v
parse_parts ([] ∷ ts) part v = if ltb part 3 then parse_parts ts part v else finish v
parse_parts ((c ∷ cs) ∷ ts) part v = elim (strtol (c ∷ cs)) [
  | none ↦ (if ltb part 3 then (true, v) else finish v)
  | some scan ↦
      (let rest = parse_parts ts (part + 1) (store part (to_int scan.value) v) in
        if ltb part 3 then (if ltb_ℤ scan.value (pos 0) then (true, v) else rest) else finish v)
]

-- `pgexporter_parse_extension_version`; `none` is a NULL string.
unfoldable pub parse_version : Option Bytes → Version → Bool × Version
unfolding parse_parts before tokens
parse_version none v = (true, v)
parse_version (some s) v =
    parse_parts (tokens b'.' (before b'-' s)) 0
      (record { major = unset; minor = unset; patch = unset })

-- A number that was not given counts as 0.
abbrev pub given : ℤ → ℤ
given n = if eqb_ℤ n unset then pos 0 else n

-- The comparison of two versions that are there; gt, eq, lt are VERSION_GREATER, VERSION_EQUAL,
-- VERSION_LESS.
unfoldable pub compare_versions : Version → Version → Ordering
compare_versions v1 v2 =
    if ltb_ℤ v2.major v1.major
    then gt
    else (if ltb_ℤ v1.major v2.major
        then lt
        else (if ltb_ℤ (given v2.minor) (given v1.minor)
            then gt
            else (if ltb_ℤ (given v1.minor) (given v2.minor)
                then lt
                else (if ltb_ℤ (given v2.patch) (given v1.patch)
                    then gt
                    else (if ltb_ℤ (given v1.patch) (given v2.patch) then lt else eq)))))

abbrev pub code : Ordering → ℤ
code gt = pos 1
code eq = pos 0
code lt = negsuc 0

-- `pgexporter_compare_extension_versions`; `none` is NULL, and gives VERSION_ERROR, -2.
unfoldable pub compare_extension_versions : Option Version → Option Version → ℤ
unfolding compare_versions
compare_extension_versions none v2 = negsuc 1
compare_extension_versions (some v1) none = negsuc 1
compare_extension_versions (some v1) (some v2) = code (compare_versions v1 v2)

-- What `pgexporter_version_to_string` formats.
unfoldable pub version_text : Version → Bytes
unfolding print_int
version_text v =
    if not (eqb_ℤ v.patch unset)
    then print_int (given v.major)
      ++ (b'.' ∷ (print_int (given v.minor) ++ (b'.' ∷ print_int (given v.patch))))
    else (if not (eqb_ℤ v.minor unset)
        then print_int (given v.major) ++ (b'.' ∷ print_int (given v.minor))
        else print_int (given v.major))

-- `pgexporter_version_to_string`: `none` is the error of a buffer that the text and its NUL do
-- not fit.
unfoldable pub version_to_string : Version → ℕ → Option Bytes
unfolding version_text
version_to_string v size =
    if size == 0
    then none
    else (if leb size (length (version_text v)) then none else some (version_text v))
