-- ===== src/Json/Plain.antt =====
-- The values that the compact printing writes in a form that is read back, their first characters,
-- and how an item and an array grow while they are read.
use pgexporter.Prelude.{ℕ, ◌+◌, ◌<◌, ◌^◌, ◌≡◌, ◌≢◌, refl, ap, ◌∙◌, true, false, [], ◌∷◌}
use pgexporter.Prelude.Int.{pos, negsuc}
use pgexporter.Text.{Bytes, is_digit, same, print_int, decimal_loop}
use pgexporter.Text.Decimal.{AllDigits-decimal, decimal-cons}
use pgexporter.Json.{
  Json, unknown, array, item, number, double, boolean, no_text, text, Items, nil, cons, Fields, end,
  field, value_start, put_field, below, append_item,
}
use pgexporter.Json.Print.{quoted, print}

-- A text that starts as a value does.
pub record Starts (s : Bytes) : Type 0 where
  pub head : ℕ
  pub tail : Bytes
  pub is_cons : s ≡ head ∷ tail
  pub starts : value_start head ≡ true

digit_value_start : (c : ℕ) → is_digit c ≡ true → value_start c ≡ true
digit_value_start c e = rw e refl

decimal-Starts : (n : ℕ) → Starts (decimal_loop n n)
decimal-Starts n =
    let start = decimal-cons n n in
    let digits = AllDigits-decimal n n in
    record {
      head = start.0;
      tail = start.1;
      is_cons = start.2;
      starts = digit_value_start start.0 (rw start.2 at digits).0;
    }

module _ {D : Type 0} where
  abbrev pub append_field : Fields D → Bytes → Json D → Fields D
  append_field end key v = field key v end
  append_field (field k w rest) key v = field k w (append_field rest key v)

  -- The key comes behind all of those.
  abbrev pub IsLast : Bytes → Fields D → Type 0
  IsLast key end = Unit
  IsLast key (field k w rest) = ((same k key ≡ false) × (below key k ≡ false)) × IsLast key rest

  pub put_field-IsLast :
      (key : Bytes) (v : Json D) (fields : Fields D)
      → IsLast key fields
      → put_field key v fields ≡ append_field fields key v
  put_field-IsLast key v end f = refl
  put_field-IsLast key v (field k w rest) f =
      rw (f.0.0, f.0.1) (ap (field k w) (put_field-IsLast key v rest f.1))

  abbrev pub join_items : Items D → Items D → Items D
  join_items front nil = front
  join_items front (cons v rest) = join_items (append_item front v) rest

  abbrev pub join_fields : Fields D → Fields D → Fields D
  join_fields front end = front
  join_fields front (field k v rest) = join_fields (append_field front k v) rest

  pub join_items-cons :
      (v : Json D) (front rest : Items D)
      → join_items (cons v front) rest ≡ cons v (join_items front rest)
  join_items-cons v front nil = refl
  join_items-cons v front (cons w rest) = join_items-cons v (append_item front w) rest

  pub join_items-nil : (rest : Items D) → join_items nil rest ≡ rest
  join_items-nil nil = refl
  join_items-nil (cons v rest) = join_items-cons v nil rest ∙ ap (cons v) (join_items-nil rest)

  pub join_fields-field :
      (k : Bytes) (v : Json D) (front rest : Fields D)
      → join_fields (field k v front) rest ≡ field k v (join_fields front rest)
  join_fields-field k v front end = refl
  join_fields-field k v front (field l w rest) = join_fields-field k v (append_field front l w) rest

  pub join_fields-end : (rest : Fields D) → join_fields end rest ≡ rest
  join_fields-end end = refl
  join_fields-end (field k v rest) =
      join_fields-field k v end rest ∙ ap (field k v) (join_fields-end rest)

  -- Numbers in the range of int64_t, no doubles, no empty array or item but JSONUnknown, and in an
  -- item the keys in byte order, none twice and none empty.
  unfoldable mutual
    pub IsPlain : Json D → Type 0
    IsPlain unknown = Unit
    IsPlain (array nil) = ⊥
    IsPlain (array (cons v rest)) = IsPlain v × ArePlain rest
    IsPlain (item end) = ⊥
    IsPlain (item (field k v rest)) = (k ≢ []) × (IsPlain v × ArePlainFields (field k v end) rest)
    IsPlain (number (pos n)) = n < 2 ^ 63
    IsPlain (number (negsuc n)) = n < 2 ^ 63
    IsPlain (double d) = ⊥
    IsPlain (boolean b) = Unit
    IsPlain no_text = Unit
    IsPlain (text s) = Unit

    pub ArePlain : Items D → Type 0
    ArePlain nil = Unit
    ArePlain (cons v rest) = IsPlain v × ArePlain rest

    pub ArePlainFields : Fields D → Fields D → Type 0
    ArePlainFields front end = Unit
    ArePlainFields front (field k v rest) =
        (k ≢ []) × (IsLast k front × (IsPlain v × ArePlainFields (append_field front k v) rest))

  -- The rounds and calls below one another that reading takes.
  unfoldable mutual
    pub cost : Json D → ℕ
    cost unknown = 2
    cost (array nil) = 2
    cost (array (cons v rest)) = 2 + (cost v + cost_items rest)
    cost (item end) = 2
    cost (item (field k v rest)) = 2 + (cost v + cost_fields rest)
    cost (number n) = 0
    cost (double d) = 0
    cost (boolean b) = 0
    cost no_text = 0
    cost (text s) = 0

    pub cost_items : Items D → ℕ
    cost_items nil = 1
    cost_items (cons v rest) = 1 + (cost v + cost_items rest)

    pub cost_fields : Fields D → ℕ
    cost_fields end = 1
    cost_fields (field k v rest) = 1 + (cost v + cost_fields rest)

  module _ (print_double : D → Bytes) where
    pub print-Starts : (v : Json D) → IsPlain v → Starts (print print_double v)
    unfolding print quoted print_int IsPlain
    print-Starts unknown p = record { head = _; tail = _; is_cons = refl; starts = refl }
    print-Starts (array nil) p = absurd p
    print-Starts (array (cons v rest)) p = record {
      head = _;
      tail = _;
      is_cons = refl;
      starts = refl;
    }
    print-Starts (item end) p = absurd p
    print-Starts (item (field k v rest)) p = record {
      head = _;
      tail = _;
      is_cons = refl;
      starts = refl;
    }
    print-Starts (number (pos n)) p = decimal-Starts n
    print-Starts (number (negsuc n)) p = record {
      head = _;
      tail = _;
      is_cons = refl;
      starts = refl;
    }
    print-Starts (double d) p = absurd p
    print-Starts (boolean true) p = record { head = _; tail = _; is_cons = refl; starts = refl }
    print-Starts (boolean false) p = record { head = _; tail = _; is_cons = refl; starts = refl }
    print-Starts no_text p = record { head = _; tail = _; is_cons = refl; starts = refl }
    print-Starts (text s) p = record { head = _; tail = _; is_cons = refl; starts = refl }
