-- ===== src/Version/Print.antt =====
-- A version that is printed and parsed again.
use mathlib.Core.List.{append-nil}
use pgexporter.Prelude.{
  ℕ, ◌+◌, ◌^◌, ◌<◌, ◌≡◌, refl, sym, ap, ◌∙◌, true, false, List, [], ◌∷◌, ◌++◌, some, ltb, arith,
}
use pgexporter.Prelude.Int.{pos, ltb_ℤ, eqb_ℤ}
use pgexporter.Text.{Bytes, Scan, strtol, to_int, decimal_loop, tokens, is_digit}
use pgexporter.Text.Decimal.{AllDigits-decimal, decimal-cons, strtol-decimal, to_int_small}
use pgexporter.Text.Tokens.{
  Free, Free-append, Free-of_digits, before-Free, tokens_word, tokens_last,
}
use pgexporter.Version.{Version, unset, store, parse_parts, parse_version, version_text}

abbrev dotted : ℕ → Bytes
dotted n = decimal_loop n n

parse_token :
    (c : ℕ) (cs : Bytes) (part : ℕ) (ts : List Bytes) (v : Version) (scan : Scan)
    → strtol (c ∷ cs) ≡ some scan
    → ltb_ℤ scan.value (pos 0) ≡ false
    → ltb part 3 ≡ true
    → parse_parts ((c ∷ cs) ∷ ts) part v
      ≡ parse_parts ts (part + 1) (store part (to_int scan.value) v)
unfolding parse_parts
parse_token c cs part ts v scan e n p = rw (e, p, n, parse_parts) refl

-- One token that is a number in the range of an int is stored.
parse_number :
    (n part : ℕ) (ts : List Bytes) (v : Version)
    → n < 2 ^ 31
    → ltb part 3 ≡ true
    → parse_parts (dotted n ∷ ts) part v ≡ parse_parts ts (part + 1) (store part (pos n) v)
parse_number n part ts v h p =
    let start = decimal-cons n n in
    let scan : Scan = record { value = pos n; rest = []; overflow = false } in
    let read = strtol-decimal n [] (omega arith) tt in
    let first : strtol (start.0 ∷ start.1) ≡ some scan =
      ap strtol (sym start.2) ∙ ap strtol (sym (append-nil (decimal_loop n n))) ∙ read in
    ap (λ d. parse_parts (d ∷ ts) part v) start.2
    ∙ parse_token start.0 start.1 part ts v scan first (ground arith) p
    ∙ ap (λ i. parse_parts ts (part + 1) (store part i v)) (to_int_small n h)

dotted-Free : (d n : ℕ) → is_digit d ≡ false → Free d (dotted n)
dotted-Free d n h = Free-of_digits d (dotted n) h (AllDigits-decimal n n)

number_word :
    (n : ℕ) (rest : Bytes) → tokens b'.' (dotted n ++ (b'.' ∷ rest)) ≡ dotted n ∷ tokens b'.' rest
number_word n rest =
    let start = decimal-cons n n in
    let free = dotted-Free b'.' n refl in
    rw start.2 (tokens_word b'.' start.0 start.1 rest (rw start.2 at free))

number_last : (n : ℕ) → tokens b'.' (dotted n) ≡ dotted n ∷ []
number_last n =
    let start = decimal-cons n n in
    let free = dotted-Free b'.' n refl in
    rw start.2 (tokens_last b'.' start.0 start.1 (rw start.2 at free))

-- A version as a file writes it: numbers in the range of an int, the patch only after the minor.
pub data Written : Version → Type 0 where
  one : (a : ℕ) → a < 2 ^ 31 → Written (record { major = pos a; minor = unset; patch = unset })
  two :
      (a b : ℕ)
      → a < 2 ^ 31
      → b < 2 ^ 31
      → Written (record { major = pos a; minor = pos b; patch = unset })
  three :
      (a b c : ℕ)
      → a < 2 ^ 31
      → b < 2 ^ 31
      → c < 2 ^ 31
      → Written (record { major = pos a; minor = pos b; patch = pos c })

parse_lem :
    (s : Bytes) (v : Version)
    → Free b'-' s
    → parse_version (some s) v
      ≡ parse_parts (tokens b'.' s) 0 (record { major = unset; minor = unset; patch = unset })
unfolding parse_version
parse_lem s v f = rw (before-Free b'-' s f) refl

is_set : (n : ℕ) → eqb_ℤ (pos n) unset ≡ false
is_set n = ground arith

text_one :
    (a : ℕ) → version_text (record { major = pos a; minor = unset; patch = unset }) ≡ dotted a
unfolding version_text
text_one a = rw (is_set a) refl

text_two :
    (a b : ℕ)
    → version_text (record { major = pos a; minor = pos b; patch = unset })
      ≡ dotted a ++ (b'.' ∷ dotted b)
unfolding version_text
text_two a b = rw (is_set a, is_set b) refl

text_three :
    (a b c : ℕ)
    → version_text (record { major = pos a; minor = pos b; patch = pos c })
      ≡ dotted a ++ (b'.' ∷ (dotted b ++ (b'.' ∷ dotted c)))
unfolding version_text
text_three a b c = rw (is_set a, is_set b, is_set c) refl

parse_end :
    (part : ℕ) (v : Version) → eqb_ℤ v.major unset ≡ false → parse_parts [] part v ≡ (false, v)
unfolding parse_parts
parse_end part v h = rw h refl

-- Parsing the text of a version gives the version back, whatever stood in the target before.
pub parse-print :
    (v old : Version) → Written v → parse_version (some (version_text v)) old ≡ (false, v)
parse-print v old (one a ha) =
    rw
      (
        text_one a,
        parse_lem (dotted a) old (dotted-Free b'-' a refl),
        number_last a,
        parse_number a 0 [] _ ha refl,
      )
      (parse_end 1 _ (is_set a))
parse-print v old (two a b ha hb) =
    let free =
      Free-append b'-' (dotted a) (b'.' ∷ dotted b) (dotted-Free b'-' a refl)
        (refl, dotted-Free b'-' b refl) in
    rw
      (
        text_two a b,
        parse_lem (dotted a ++ (b'.' ∷ dotted b)) old free,
        number_word a (dotted b),
        number_last b,
        parse_number a 0 (dotted b ∷ []) _ ha refl,
        parse_number b 1 [] _ hb refl,
      )
      (parse_end 2 _ (is_set a))
parse-print v old (three a b c ha hb hc) =
    let tail =
      Free-append b'-' (dotted b) (b'.' ∷ dotted c) (dotted-Free b'-' b refl)
        (refl, dotted-Free b'-' c refl) in
    let free =
      Free-append b'-' (dotted a) (b'.' ∷ (dotted b ++ (b'.' ∷ dotted c))) (dotted-Free b'-' a refl)
        (refl, tail) in
    rw
      (
        text_three a b c,
        parse_lem (dotted a ++ (b'.' ∷ (dotted b ++ (b'.' ∷ dotted c)))) old free,
        number_word a (dotted b ++ (b'.' ∷ dotted c)),
        number_word b (dotted c),
        number_last c,
        parse_number a 0 (dotted b ∷ dotted c ∷ []) _ ha refl,
        parse_number b 1 (dotted c ∷ []) _ hb refl,
        parse_number c 2 [] _ hc refl,
      )
      (parse_end 3 _ (is_set a))
