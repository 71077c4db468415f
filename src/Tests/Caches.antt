-- ===== src/Tests/Caches.antt =====
-- src/libpgexporter/cache.c with concrete responses.
use pgexporter.Prelude.{
  ◌+◌, ◌/◌, ◌≡◌, refl, true, false, ◌∷◌, [], ◌++◌, some, leb, arith, replicate,
}
use pgexporter.Prelude.Int.{pos}
use pgexporter.Text.{codes}
use pgexporter.Cache.{Cache, init, append, finalize, is_valid, invalidate}
use pgexporter.Cache.Payload.{Holds, append-fits, append-overflow}
use pgexporter.Cache.Serve.{joined, append_all, serve_lem}

abbrev small : Cache
small = record { valid_until = pos 0; size = 6; payload = codes "ab" ++ replicate 4 0 }

small-Holds : Holds small (codes "ab")
small-Holds = record {
  no_nul = (refl, (refl, tt));
  behind = replicate 3 0;
  block = refl;
  sized = refl;
}

append-fits_example :
    (c' : Cache) × (append (some small) (some (codes "cde")) ≡ some (true, some c'))
    × Holds c' (codes "ab" ++ codes "cde")
    × (c'.size ≡ small.size)
    × (c'.valid_until ≡ small.valid_until)
append-fits_example =
    append-fits small (codes "ab") (codes "cde") small-Holds (refl, (refl, (refl, tt)))
      (omega arith)

append-overflow_example :
    (append (some small) (some (codes "cdef")) ≡ some (false, some (invalidate small)))
    × Holds (invalidate small) []
append-overflow_example =
    append-overflow small (codes "ab") (codes "cdef") small-Holds (omega arith)

serve_example :
    (c : Cache) × (finalize
        (pos 100)
        (pos 5000)
        (append_all (codes "ab" ∷ codes "c" ∷ []) (init true 64 8).1)
      ≡ (true, some c))
    × Holds c (joined (codes "ab" ∷ codes "c" ∷ []))
    × (is_valid (pos 105) (some c) ≡ some (leb 105 (100 + 5000 / 1000)))
serve_example =
    serve_lem 64 8 (codes "ab" ∷ codes "c" ∷ []) 100 5000 105 ((refl, (refl, tt)), ((refl, tt), tt))
      (omega arith) (omega arith) (omega arith)
