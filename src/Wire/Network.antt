-- ===== src/Wire/Network.antt =====
-- What is written is in network order on every machine, and what is read is what was written.
use pgexporter.Prelude.{
  ℕ, zero, suc, ◌+◌, ◌*◌, ◌/◌, ◌%◌, ◌^◌, ◌<◌, ◌≡◌, refl, sym, ap, ◌∙◌, Bool, true, false, [], ◌∷◌,
  ◌++◌, take, length, arith, length-append,
}
use pgexporter.Prelude.Int.{ℤ, pos, negsuc}
use pgexporter.Text.{Bytes}
use pgexporter.Wire.{
  low_first, number_of, network_order, write_unsigned, read_unsigned, write_bits64, read_bits64,
  bits_of, of_bits, write_int16, read_int16, write_int32, read_int32, write_int64, read_int64,
}
use mathlib.Core.List.{reverse, reverse-reverse, reverse-cons}
use mathlib.Core.Path.{subst}

abbrev AllBytes : Bytes → Type 0
AllBytes [] = Unit
AllBytes (c ∷ cs) = (c < 256) × AllBytes cs

-- The number of values of `k` bytes.
abbrev pub values : ℕ → ℕ
values zero = 1
values (suc k) = values k * 256

number_of-low_first : (k n : ℕ) → n < values k → number_of (low_first k n) ≡ n
unfolding number_of low_first
number_of-low_first zero n h = omega arith
number_of-low_first (suc k) n h = omega (arith, number_of-low_first k (n / 256) (omega arith))

low_first-number_of : (xs : Bytes) → AllBytes xs → low_first (length xs) (number_of xs) ≡ xs
unfolding number_of low_first
low_first-number_of [] a = refl
low_first-number_of (c ∷ cs) a =
    rw (low_byte c (number_of cs) a.0, high_part c (number_of cs) a.0, low_first-number_of cs a.1)
      refl
  where
    low_byte : (c v : ℕ) → c < 256 → (c + v * 256) % 256 ≡ c
    low_byte c v h = omega arith

    high_part : (c v : ℕ) → c < 256 → (c + v * 256) / 256 ≡ v
    high_part c v h = omega arith

AllBytes-low_first : (k n : ℕ) → AllBytes (low_first k n)
unfolding low_first
AllBytes-low_first zero n = tt
AllBytes-low_first (suc k) n = (omega arith, AllBytes-low_first k (n / 256))

AllBytes-append : (xs : Bytes) (c : ℕ) → AllBytes xs → c < 256 → AllBytes (xs ++ (c ∷ []))
AllBytes-append [] c a h = (h, tt)
AllBytes-append (x ∷ xs) c a h = (a.0, AllBytes-append xs c a.1 h)

AllBytes-reverse : (xs : Bytes) → AllBytes xs → AllBytes (reverse xs)
AllBytes-reverse [] a = tt
AllBytes-reverse (x ∷ xs) a =
    subst AllBytes (sym (reverse-cons x xs))
      (AllBytes-append (reverse xs) x (AllBytes-reverse xs a.1) a.0)

length-low_first : (k n : ℕ) → length (low_first k n) ≡ k
unfolding low_first
length-low_first zero n = refl
length-low_first (suc k) n = ap suc (length-low_first k (n / 256))

length-reverse : (xs : Bytes) → length (reverse xs) ≡ length xs
length-reverse [] = refl
length-reverse (x ∷ xs) =
    ap length (reverse-cons x xs)
    ∙ omega (arith, length-append (reverse xs) (x ∷ []), length-reverse xs)

-- The bytes of the number whose bytes are those of `n` the other way round.
swapped : (k n : ℕ) → low_first k (number_of (reverse (low_first k n))) ≡ reverse (low_first k n)
swapped k n =
    let bytes = reverse (low_first k n) in
    ap (λ m. low_first m (number_of bytes))
      (sym (length-reverse (low_first k n) ∙ length-low_first k n))
    ∙ low_first-number_of bytes (AllBytes-reverse (low_first k n) (AllBytes-low_first k n))

-- Whatever the machine, an unsigned integer is written with its highest byte first.
pub write_network : (big : Bool) (k n : ℕ) → write_unsigned big k n ≡ reverse (low_first k n)
unfolding write_unsigned network_order
write_network true k n = refl
write_network false k n = swapped k n

take_all : (k : ℕ) (xs ys : Bytes) → length xs ≡ k → take k (xs ++ ys) ≡ xs
take_all zero [] ys e = refl
take_all zero (x ∷ xs) ys e = absurd (omega arith)
take_all (suc k) [] ys e = absurd (omega arith)
take_all (suc k) (x ∷ xs) ys e = ap (λ l. x ∷ l) (take_all k xs ys (omega arith))

read_network :
    (big : Bool) (k n : ℕ) (rest : Bytes)
    → n < values k
    → read_unsigned big k (reverse (low_first k n) ++ rest) ≡ n
unfolding read_unsigned network_order
read_network true k n rest h =
    ap (λ b. number_of (reverse b))
      (take_all k (reverse (low_first k n)) rest
        (length-reverse (low_first k n) ∙ length-low_first k n))
    ∙ ap number_of (reverse-reverse (low_first k n))
    ∙ number_of-low_first k n h
read_network false k n rest h =
    ap (λ b. number_of (reverse (low_first k (number_of b))))
      (take_all k (reverse (low_first k n)) rest
        (length-reverse (low_first k n) ∙ length-low_first k n))
    ∙ ap (λ b. number_of (reverse b)) (swapped k n)
    ∙ ap number_of (reverse-reverse (low_first k n))
    ∙ number_of-low_first k n h

write_network64 : (big : Bool) (n : ℕ) → write_bits64 big n ≡ reverse (low_first 8 n)
unfolding write_bits64 low_first
write_network64 true n = refl
write_network64 false n = refl

read_network64 :
    (big : Bool) (n : ℕ) (rest : Bytes)
    → n < 2 ^ 64
    → read_bits64 big (reverse (low_first 8 n) ++ rest) ≡ n
unfolding read_bits64 low_first
read_network64 true n rest h = number_of-low_first 8 n h
read_network64 false n rest h = omega arith

-- Signed integers of a type with twice `half` values.
abbrev pub InRange : ℕ → ℤ → Type 0
InRange half (pos n) = n < half
InRange half (negsuc n) = n < half

bits_lem :
    (half : ℕ) (i : ℤ)
    → InRange half i
    → (of_bits half (bits_of half i) ≡ i) × (bits_of half i < 2 * half)
bits_lem half (pos n) h = ground arith
bits_lem half (negsuc n) h = ground arith

-- A 16-bit integer that one machine writes is read back by any machine, whatever stands behind it.
pub read_write_int16 :
    (big big' : Bool) (i : ℤ) (rest : Bytes)
    → InRange (2 ^ 15) i
    → read_int16 big' (write_int16 big i ++ rest) ≡ i
unfolding read_int16 write_int16
read_write_int16 big big' i rest h =
    let bits = bits_lem (2 ^ 15) i h in
    ap (λ b. of_bits (2 ^ 15) (read_unsigned big' 2 (b ++ rest)))
      (write_network big 2 (bits_of (2 ^ 15) i))
    ∙ ap (of_bits (2 ^ 15)) (read_network big' 2 (bits_of (2 ^ 15) i) rest bits.1)
    ∙ bits.0

-- A 32-bit integer that one machine writes is read back by any machine, whatever stands behind it.
pub read_write_int32 :
    (big big' : Bool) (i : ℤ) (rest : Bytes)
    → InRange (2 ^ 31) i
    → read_int32 big' (write_int32 big i ++ rest) ≡ i
unfolding read_int32 write_int32
read_write_int32 big big' i rest h =
    let bits = bits_lem (2 ^ 31) i h in
    ap (λ b. of_bits (2 ^ 31) (read_unsigned big' 4 (b ++ rest)))
      (write_network big 4 (bits_of (2 ^ 31) i))
    ∙ ap (of_bits (2 ^ 31)) (read_network big' 4 (bits_of (2 ^ 31) i) rest bits.1)
    ∙ bits.0

-- A 64-bit integer that one machine writes is read back by any machine, whatever stands behind it.
pub read_write_int64 :
    (big big' : Bool) (i : ℤ) (rest : Bytes)
    → InRange (2 ^ 63) i
    → read_int64 big' (write_int64 big i ++ rest) ≡ i
unfolding read_int64 write_int64
read_write_int64 big big' i rest h =
    let bits = bits_lem (2 ^ 63) i h in
    ap (λ b. of_bits (2 ^ 63) (read_bits64 big' (b ++ rest)))
      (write_network64 big (bits_of (2 ^ 63) i))
    ∙ ap (of_bits (2 ^ 63)) (read_network64 big' (bits_of (2 ^ 63) i) rest bits.1)
    ∙ bits.0
