-- ===== src/Tests/Versions.antt =====
-- src/libpgexporter/extension.c at concrete versions and lists.
use pgexporter.Prelude.{◌≡◌, ◌⊎◌, refl, true, false, [], ◌∷◌, none, some, arith}
use pgexporter.Prelude.Int.{pos, negsuc}
use pgexporter.Text.{codes}
use pgexporter.Version.{
  Version, unset, parse_version, version_text, version_to_string, compare_extension_versions,
}
use pgexporter.Version.Newer.{Newer, NoneNewer, compare_extension_versions_lem}
use pgexporter.Version.Print.{Written, parse-print}
use pgexporter.Version.Enabled.{
  Entry, AllEntries, trim_end, join, member, extension_is_enabled, enabled_lem,
}

abbrev v_1_12 : Version
v_1_12 = record { major = pos 1; minor = pos 12; patch = unset }

abbrev v_1_9_4 : Version
v_1_9_4 = record { major = pos 1; minor = pos 9; patch = pos 4 }

abbrev blank_version : Version
blank_version = record { major = pos 7; minor = pos 7; patch = pos 7 }

suffix_dropped :
    parse_version (some (codes "3.4.1-rc.2")) blank_version
    ≡ (false, record { major = pos 3; minor = pos 4; patch = pos 1 })
unfolding parse_version
suffix_dropped = refl

dots_skipped :
    parse_version (some (codes "..2..5.")) blank_version
    ≡ (false, record { major = pos 2; minor = pos 5; patch = unset })
unfolding parse_version
dots_skipped = refl

no_number : (parse_version (some (codes "dev")) blank_version).0 ≡ true
unfolding parse_version
no_number = refl

missing_is_zero :
    compare_extension_versions (some v_1_12) (some (record v_1_12 { patch = pos 0 })) ≡ pos 0
unfolding compare_extension_versions
missing_is_zero = refl

compare_extension_versions_lem_example :
    ((compare_extension_versions (some v_1_12) (some v_1_9_4) ≡ pos 1) × Newer v_1_12 v_1_9_4)
    ⊎ ((compare_extension_versions (some v_1_12) (some v_1_9_4) ≡ negsuc 0) × Newer v_1_9_4 v_1_12)
    ⊎ ((compare_extension_versions (some v_1_12) (some v_1_9_4) ≡ pos 0) × NoneNewer v_1_12 v_1_9_4)
compare_extension_versions_lem_example = compare_extension_versions_lem v_1_12 v_1_9_4

printed : version_to_string v_1_12 5 ≡ some (codes "1.12")
unfolding version_to_string
printed = refl

printed_too_long : version_to_string v_1_12 4 ≡ none
unfolding version_to_string
printed_too_long = refl

parse-print_example : parse_version (some (version_text v_1_12)) blank_version ≡ (false, v_1_12)
parse-print_example =
    parse-print v_1_12 blank_version (Written.two 1 12 (omega arith) (omega arith))

abbrev pgcrypto : Entry
pgcrypto = record { left = []; first = b'p'; others = codes "gcrypto"; right = codes " " }

abbrev citus : Entry
citus = record { left = codes " "; first = b'c'; others = codes "itus"; right = [] }

listed : AllEntries (pgcrypto ∷ citus ∷ [])
unfolding trim_end
listed = ground arith

enabled_example :
    (extension_is_enabled (join pgcrypto (citus ∷ [])) (codes "postgis") (codes "citus")
      ≡ member (codes "citus") (pgcrypto ∷ citus ∷ []))
    × (extension_is_enabled [] (join pgcrypto (citus ∷ [])) (codes "citus")
        ≡ member (codes "citus") (pgcrypto ∷ citus ∷ []))
    × (extension_is_enabled [] [] (codes "citus") ≡ true)
enabled_example = enabled_lem (codes "citus") (codes "postgis") pgcrypto (citus ∷ []) listed
