-- ===== src/Text.antt =====
-- C strings as lists of bytes without the final NUL, and the functions of the C library that the
-- modelled files call on them: isspace, isdigit, isalpha, tolower, strcasecmp, strtol, strtok and
-- the conversion %d. `long` has 64 bits and `int` 32.
pub mod Decimal
pub mod Tokens
use Prim.Native.Char.{code}
use Prim.Native.String.{String}
use pgexporter.Prelude.{
  ℕ, suc, zero, ◌+◌, ◌-◌, ◌*◌, ◌/◌, ◌%◌, ◌^◌, ◌≤◌, ◌<◌, ◌≡◌, Bool, true, false, ◌&&◌, ◌||◌, not,
  List, [], ◌∷◌, ◌++◌, map, Option, none, some, ltb, leb, ◌==◌, if◌then◌else◌,
}
use pgexporter.Prelude.Int.{ℤ, pos, negsuc, pos_part, neg_part, sub_ℕ, ltb_ℤ}

abbrev pub Bytes : Type 0
Bytes = List ℕ

-- The bytes of a literal.
abbrev pub codes : String → Bytes
codes String.[] = []
codes (String.◌∷◌ c s) = code c ∷ codes s

abbrev pub is_digit : ℕ → Bool
is_digit c = leb b'0' c && leb c b'9'

abbrev pub is_upper : ℕ → Bool
is_upper c = leb b'A' c && leb c b'Z'

abbrev pub is_lower : ℕ → Bool
is_lower c = leb b'a' c && leb c b'z'

abbrev pub is_alpha : ℕ → Bool
is_alpha c = is_upper c || is_lower c

-- space, \t \n \v \f \r
abbrev pub is_space : ℕ → Bool
is_space c = c == 32 || (leb 9 c && leb c 13)

abbrev pub to_lower : ℕ → ℕ
to_lower c = if is_upper c then c + 32 else c

-- !strcmp(a, b)
unfoldable pub same : Bytes → Bytes → Bool
same [] [] = true
same [] (y ∷ ys) = false
same (x ∷ xs) [] = false
same (x ∷ xs) (y ∷ ys) = x == y && same xs ys

-- !strcasecmp(a, b)
unfoldable pub same_case : Bytes → Bytes → Bool
unfolding same
same_case a b = same (map to_lower a) (map to_lower b)

-- The digits at the head, read on from `acc`, and the rest.
unfoldable pub read_digits : ℕ → Bytes → ℕ × Bytes
read_digits acc [] = (acc, [])
read_digits acc (c ∷ cs) =
    let rest = read_digits (acc * 10 + (c - b'0')) cs in if is_digit c then rest else (acc, c ∷ cs)

unfoldable pub skip_space : Bytes → Bytes
skip_space [] = []
skip_space (c ∷ cs) = if is_space c then skip_space cs else c ∷ cs

-- What strtol tells: the value, what stands at `*endptr`, and whether errno is ERANGE.
pub record Scan : Type 0 where
  pub value : ℤ
  pub rest : Bytes
  pub overflow : Bool

abbrev pub long_max : ℕ
long_max = 2 ^ 63 - 1

abbrev pub clamp : Bool → ℕ × Bytes → Scan
clamp false (n, rest) =
    if leb n long_max
    then record { value = pos n; rest = rest; overflow = false }
    else record { value = pos long_max; rest = rest; overflow = true }
clamp true (n, rest) =
    if leb n (2 ^ 63)
    then record { value = sub_ℕ 0 n; rest = rest; overflow = false }
    else record { value = negsuc long_max; rest = rest; overflow = true }

-- The number after the sign; `none` where there is no digit, and strtol sets `*endptr` to the
-- start of its text.
abbrev pub scan_unsigned : Bool → Bytes → Option Scan
scan_unsigned negative [] = none
scan_unsigned negative (c ∷ cs) =
    if is_digit c then some (clamp negative (read_digits 0 (c ∷ cs))) else none

abbrev pub scan_signed : Bytes → Option Scan
scan_signed [] = none
scan_signed (c ∷ cs) =
    if c == b'-'
    then scan_unsigned true cs
    else (if c == b'+' then scan_unsigned false cs else scan_unsigned false (c ∷ cs))

-- strtol(s, &endptr, 10)
unfoldable pub strtol : Bytes → Option Scan
unfolding skip_space read_digits
strtol s = scan_signed (skip_space s)

-- (int) of a long
abbrev pub int_of_bits : ℕ → ℤ
int_of_bits w = if ltb w (2 ^ 31) then pos w else negsuc (2 ^ 32 - w - 1)

unfoldable pub to_int : ℤ → ℤ
to_int (pos n) = int_of_bits (n % 2 ^ 32)
to_int (negsuc n) = int_of_bits (2 ^ 32 - 1 - n % 2 ^ 32)

-- The decimal digits of a number; each round takes the last digit off, so `n` rounds are enough.
unfoldable pub decimal_loop : ℕ → ℕ → Bytes
decimal_loop zero n = (b'0' + n % 10) ∷ []
decimal_loop (suc f) n =
    let front = decimal_loop f (n / 10) in
    if ltb n 10 then (b'0' + n) ∷ [] else front ++ ((b'0' + n % 10) ∷ [])

-- %d
unfoldable pub print_int : ℤ → Bytes
unfolding decimal_loop
print_int (pos n) = decimal_loop n n
print_int (negsuc n) = b'-' ∷ decimal_loop (suc n) (suc n)

-- The bytes before the first `d`, as strchr and a NUL put there leave them.
unfoldable pub before : ℕ → Bytes → Bytes
before d [] = []
before d (c ∷ cs) = if c == d then [] else c ∷ before d cs

-- The tokens that strtok returns for one delimiter: the runs of other bytes, empty ones skipped.
-- `token` is the run read so far.
unfoldable pub tokens_from : ℕ → Bytes → Bytes → List Bytes
tokens_from d [] [] = []
tokens_from d (t ∷ ts) [] = (t ∷ ts) ∷ []
tokens_from d [] (c ∷ cs) = tokens_from d (if c == d then [] else c ∷ []) cs
tokens_from d (t ∷ ts) (c ∷ cs) =
    let rest = tokens_from d [] cs in
    let more = tokens_from d (t ∷ (ts ++ (c ∷ []))) cs in if c == d then (t ∷ ts) ∷ rest else more

unfoldable pub tokens : ℕ → Bytes → List Bytes
unfolding tokens_from
tokens d s = tokens_from d [] s

-- strcmp(a, b), of which only the sign is meant.
unfoldable pub strcmp : Bytes → Bytes → ℤ
strcmp [] [] = pos 0
strcmp [] (y ∷ ys) = negsuc 0
strcmp (x ∷ xs) [] = pos 1
strcmp (x ∷ xs) (y ∷ ys) =
    let rest = strcmp xs ys in if x == y then rest else (if ltb x y then negsuc 0 else pos 1)
