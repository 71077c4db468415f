-- ===== src/Wire.antt =====
-- Integers in network order, src/libpgexporter/utils.c: pgexporter_read_int16 to
-- pgexporter_read_int64 and pgexporter_write_int16 to pgexporter_write_int64. `big` tells whether
-- the machine is big-endian (pgexporter_bigendian); htons, htonl and their inverses are of the C
-- library, and swap the bytes on a little-endian machine.
pub mod Network
use pgexporter.Prelude.{
  ℕ, zero, suc, ◌+◌, ◌-◌, ◌*◌, ◌/◌, ◌%◌, ◌^◌, Bool, List, [], ◌∷◌, ltb, if◌then◌else◌, get_or, take,
}
use pgexporter.Prelude.Int.{ℤ, pos, negsuc}
use pgexporter.Text.{Bytes}
use mathlib.Core.List.{reverse}

-- The `k` bytes of a number, the lowest first, and the number of such bytes.
unfoldable pub low_first : ℕ → ℕ → Bytes
low_first zero n = []
low_first (suc k) n = (n % 256) ∷ low_first k (n / 256)

unfoldable pub number_of : Bytes → ℕ
number_of [] = 0
number_of (c ∷ cs) = c + number_of cs * 256

-- An unsigned integer of `k` bytes in memory, and read from memory by memcpy.
abbrev pub in_memory : Bool → ℕ → ℕ → Bytes
in_memory big k n = if big then reverse (low_first k n) else low_first k n

abbrev pub of_memory : Bool → Bytes → ℕ
of_memory big bytes = number_of (if big then reverse bytes else bytes)

-- htons, htonl, ntohs and ntohl
unfoldable pub network_order : Bool → ℕ → ℕ → ℕ
unfolding low_first number_of
network_order big k n = if big then n else number_of (reverse (low_first k n))

-- pgexporter_write_uint16 and pgexporter_write_uint32, with `k` bytes
unfoldable pub write_unsigned : Bool → ℕ → ℕ → Bytes
unfolding low_first network_order
write_unsigned big k n = in_memory big k (network_order big k n)

-- pgexporter_read_uint16 and pgexporter_read_uint32
unfoldable pub read_unsigned : Bool → ℕ → Bytes → ℕ
unfolding number_of network_order
read_unsigned big k bytes = network_order big k (of_memory big (take k bytes))

-- pgexporter_write_int64, the bits of the integer given: byte by byte where the machine is
-- little-endian.
unfoldable pub write_bits64 : Bool → ℕ → Bytes
unfolding low_first
write_bits64 big n =
    let ptr = low_first 8 n in
    if big
    then in_memory big 8 n
    else get_or ptr 7 0
      ∷ get_or ptr 6 0
      ∷ get_or ptr 5 0
      ∷ get_or ptr 4 0
      ∷ get_or ptr 3 0
      ∷ get_or ptr 2 0
      ∷ get_or ptr 1 0
      ∷ get_or ptr 0 0
      ∷ []

-- pgexporter_read_int64: the shifted bytes have no bit in common, so their union is their sum.
unfoldable pub read_bits64 : Bool → Bytes → ℕ
unfolding number_of
read_bits64 big bytes =
    if big
    then of_memory big (take 8 bytes)
    else get_or bytes 0 0 * 2 ^ 56
      + get_or bytes 1 0 * 2 ^ 48
      + get_or bytes 2 0 * 2 ^ 40
      + get_or bytes 3 0 * 2 ^ 32
      + get_or bytes 4 0 * 2 ^ 24
      + get_or bytes 5 0 * 2 ^ 16
      + get_or bytes 6 0 * 2 ^ 8
      + get_or bytes 7 0

-- The bits of a signed integer and back; `half` is half the number of values of its type.
abbrev pub bits_of : ℕ → ℤ → ℕ
bits_of half (pos n) = n
bits_of half (negsuc n) = 2 * half - 1 - n

abbrev pub of_bits : ℕ → ℕ → ℤ
of_bits half w = if ltb w half then pos w else negsuc (2 * half - 1 - w)

unfoldable pub write_int16 : Bool → ℤ → Bytes
unfolding write_unsigned
write_int16 big i = write_unsigned big 2 (bits_of (2 ^ 15) i)

unfoldable pub read_int16 : Bool → Bytes → ℤ
unfolding read_unsigned
read_int16 big bytes = of_bits (2 ^ 15) (read_unsigned big 2 bytes)

unfoldable pub write_int32 : Bool → ℤ → Bytes
unfolding write_unsigned
write_int32 big i = write_unsigned big 4 (bits_of (2 ^ 31) i)

unfoldable pub read_int32 : Bool → Bytes → ℤ
unfolding read_unsigned
read_int32 big bytes = of_bits (2 ^ 31) (read_unsigned big 4 bytes)

unfoldable pub write_int64 : Bool → ℤ → Bytes
unfolding write_bits64
write_int64 big i = write_bits64 big (bits_of (2 ^ 63) i)

unfoldable pub read_int64 : Bool → Bytes → ℤ
unfolding read_bits64
read_int64 big bytes = of_bits (2 ^ 63) (read_bits64 big bytes)
