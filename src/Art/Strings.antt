-- ===== src/Art/Strings.antt =====
-- The keys that pgexporter_art_insert and pgexporter_art_search take: a C string with its NUL, of
-- strlen(key) + 1 bytes.
use pgexporter.Prelude.{
  ℕ, zero, suc, ◌≤◌, ◌<◌, ◌≡◌, ◌≢◌, refl, Bool, true, false, ◌&&◌, [], ◌∷◌, ◌++◌, ltb, ltb→lt,
  length, arith,
}
use pgexporter.Text.{Bytes}
use pgexporter.Art.{byte_at}
use pgexporter.Art.Keys.{IsKey}

abbrev pub c_string : Bytes → Bytes
c_string s = s ++ (0 ∷ [])

-- Characters that are not NUL.
abbrev pub is_text : Bytes → Bool
is_text [] = true
is_text (x ∷ s) = (ltb 0 x && ltb x 256) && is_text s

and_both : (p q : Bool) → (p && q) ≡ true → (p ≡ true) × (q ≡ true)
and_both true true e = (refl, refl)
and_both true false e = cc e
and_both false q e = cc e

module _ (x : ℕ) (s : Bytes) (e : is_text (x ∷ s) ≡ true) where
  first : (ltb 0 x && ltb x 256) ≡ true
  first = (and_both (ltb 0 x && ltb x 256) (is_text s) e).0

  not_zero : x ≢ 0
  not_zero f = omega (arith, ltb→lt 0 x (and_both (ltb 0 x) (ltb x 256) first).0)

  is_byte : x < 256
  is_byte = ltb→lt x 256 (and_both (ltb 0 x) (ltb x 256) first).1

  others : is_text s ≡ true
  others = (and_both (ltb 0 x && ltb x 256) (is_text s) e).1

length-c_string : (s : Bytes) → length (c_string s) ≡ suc (length s)
length-c_string [] = refl
length-c_string (x ∷ s) = omega (arith, length-c_string s)

byte_in_range : (s : Bytes) → is_text s ≡ true → (i : ℕ) → byte_at (c_string s) i < 256
byte_in_range [] e zero = omega arith
byte_in_range [] e (suc i) = omega arith
byte_in_range (x ∷ s) e zero = is_byte x s e
byte_in_range (x ∷ s) e (suc i) = byte_in_range s (others x s e) i

inner_byte : (s : Bytes) → is_text s ≡ true → (i : ℕ) → i < length s → byte_at (c_string s) i ≢ 0
inner_byte [] e i l = absurd (omega arith)
inner_byte (x ∷ s) e zero l = not_zero x s e
inner_byte (x ∷ s) e (suc i) l = inner_byte s (others x s e) i (omega arith)

last_byte : (s : Bytes) (i : ℕ) → length s ≤ i → byte_at (c_string s) i ≡ 0
last_byte [] zero l = refl
last_byte [] (suc i) l = refl
last_byte (x ∷ s) zero l = absurd (omega arith)
last_byte (x ∷ s) (suc i) l = last_byte s i (omega arith)

pub c_string-IsKey : (s : Bytes) → is_text s ≡ true → IsKey (c_string s)
c_string-IsKey s e = record {
  some_bytes = omega (arith, length-c_string s);
  bytes = λ i. byte_in_range s e i;
  inner = λ i l. inner_byte s e i (omega (arith, length-c_string s));
  last = λ i l. last_byte s i (omega (arith, length-c_string s));
}
