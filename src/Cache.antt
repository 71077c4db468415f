-- ===== src/Cache.antt =====
-- The response cache, src/libpgexporter/cache.c: struct prometheus_cache in shared memory, its
-- payload a block of `size` bytes that holds a C string. Where strlen would read past the block, an
-- operation has no result. The lock is held by the callers and left out; times are in seconds.
pub mod Payload
pub mod Serve
use pgexporter.Prelude.{
  ℕ, zero, suc, ◌+◌, ◌-◌, ◌/◌, Bool, true, false, not, ◌&&◌, ◌||◌, [], ◌∷◌, ◌++◌, Option, none,
  some, ltb, leb, ◌==◌, if◌then◌else◌, length, take, drop, replicate,
}
use pgexporter.Prelude.Int.{ℤ, pos, negsuc, sub_ℕ, ◌+ℤ◌, ltb_ℤ, eqb_ℤ}
use pgexporter.Text.{Bytes, before}

pub record Cache : Type 0 where
  pub valid_until : ℤ
  pub size : ℕ
  pub payload : Bytes

-- strlen, `none` where the block has no NUL.
unfoldable pub strlen : Bytes → Option ℕ
strlen [] = none
strlen (c ∷ cs) =
    let rest = strlen cs in
    if c == 0 then some 0 else elim rest [ none ↦ none | some n ↦ some (suc n) ]

-- pgexporter_cache_init: `created` tells whether the shared memory could be had, `struct_size` is
-- the size of the structure; the return value, *p_shmem and *p_size.
unfoldable pub init : Bool → ℕ → ℕ → ℕ × Option Cache × ℕ
init created struct_size cache_size =
    if created
    then (
      0,
      some (record { valid_until = pos 0; size = cache_size; payload = replicate cache_size 0 }),
      cache_size + struct_size,
    )
    else (1, none, 0)

-- pgexporter_cache_is_valid at the time `now`
unfoldable pub is_valid : ℤ → Option Cache → Option Bool
unfolding strlen
is_valid now none = some false
is_valid now (some c) =
    if eqb_ℤ c.valid_until (pos 0) then some false else elim (strlen c.payload) [
      | none ↦ none
      | some n ↦ some (if n == 0 then false else not (ltb_ℤ c.valid_until now))
    ]

-- pgexporter_cache_invalidate
unfoldable pub invalidate : Cache → Cache
invalidate c = record { valid_until = pos 0; size = c.size; payload = replicate c.size 0 }

-- memcpy and the NUL behind it
abbrev pub write_at : ℕ → Bytes → Bytes → Bytes
write_at origin text block =
    take origin block ++ (text ++ (0 ∷ drop (suc (origin + length text)) block))

-- pgexporter_cache_append: `text` is the string at data, without its NUL.
unfoldable pub append : Option Cache → Option Bytes → Option (Bool × Option Cache)
unfolding strlen invalidate
append none text = some (false, none)
append (some c) none = some (false, some c)
append (some c) (some text) = elim (strlen c.payload) [
  | none ↦ none
  | some origin ↦ some (
      if leb c.size (origin + length text) then (false, some (invalidate c)) else (
        true,
        some (record {
          valid_until = c.valid_until;
          size = c.size;
          payload = write_at origin text c.payload;
        }),
      ))
]

-- pgexporter_time_convert to FORMAT_TIME_S: division toward zero
abbrev pub to_seconds : ℤ → ℤ
to_seconds (pos ms) = pos (ms / 1000)
to_seconds (negsuc ms) = sub_ℕ 0 (suc ms / 1000)

-- pgexporter_cache_finalize at the time `now`
unfoldable pub finalize : ℤ → ℤ → Option Cache → Bool × Option Cache
unfolding ◌+ℤ◌
finalize now max_age none = (false, none)
finalize now max_age (some c) =
    let until = now +ℤ to_seconds max_age in
    (ltb_ℤ now until, some (record { valid_until = until; size = c.size; payload = c.payload }))
