-- ===== src/Utf8/Encoding.antt =====
-- UTF-8 as RFC 3629 defines it: the bytes of a Unicode scalar value.
use pgexporter.Prelude.{ℕ, ◌+◌, ◌/◌, ◌%◌, ◌≤◌, ◌<◌, ◌⊎◌, List, [], ◌∷◌, ◌++◌, ltb, if◌then◌else◌}

-- a code point that is no surrogate
abbrev pub IsScalar : ℕ → Type 0
IsScalar cp = (cp < 0xD800) ⊎ ((0xE000 ≤ cp) × (cp < 0x110000))

abbrev pub encode : ℕ → List ℕ
encode cp =
    if ltb cp 0x80
    then cp ∷ []
    else (if ltb cp 0x800
        then (0xC0 + cp / 64) ∷ (0x80 + cp % 64) ∷ []
        else (if ltb cp 0x10000
            then (0xE0 + cp / 4096) ∷ (0x80 + cp / 64 % 64) ∷ (0x80 + cp % 64) ∷ []
            else (0xF0 + cp / 262144)
              ∷ (0x80 + cp / 4096 % 64)
              ∷ (0x80 + cp / 64 % 64)
              ∷ (0x80 + cp % 64)
              ∷ []))

abbrev pub encode_all : List ℕ → List ℕ
encode_all [] = []
encode_all (cp ∷ cps) = encode cp ++ encode_all cps

abbrev pub AllScalar : List ℕ → Type 0
AllScalar [] = Unit
AllScalar (cp ∷ cps) = IsScalar cp × AllScalar cps

abbrev pub AllBytes : List ℕ → Type 0
AllBytes [] = Unit
AllBytes (b ∷ bs) = (b < 256) × AllBytes bs
