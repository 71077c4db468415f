-- ===== src/Art/Arrays.antt =====
-- Arrays of C as functions from indices: filled with one value, written, copied and moved.
use pgexporter.Prelude.{ℕ, ◌+◌, ◌-◌, ◌&&◌, ltb, leb, ◌==◌, if◌then◌else◌}

abbrev pub Array {ℓ} : Type ℓ → Type ℓ
Array A = ℕ → A

module _ {ℓ} {A : Type ℓ} where
  -- memset
  abbrev pub fill : A → Array A
  fill a i = a

  abbrev pub write : Array A → ℕ → A → Array A
  write a i x j = if j == i then x else a j

  -- memcpy of `n` elements to the start of an array
  abbrev pub copy : ℕ → Array A → Array A → Array A
  copy n src dst j = if ltb j n then src j else dst j

  -- memmove of `n` elements from `src` to `dst` in one array
  abbrev pub memmove : ℕ → ℕ → ℕ → Array A → Array A
  memmove dst src n a j = if leb dst j && ltb j (dst + n) then a (src + (j - dst)) else a j
