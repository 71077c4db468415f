-- ===== src/Deque/Queue.antt =====
-- The deque as a queue and as a stack: offers, and polls at either end.
use pgexporter.Prelude.{
  ℕ, zero, suc, ◌+◌, ◌^◌, ◌<◌, ◌≡◌, refl, sym, ap, ◌∙◌, false, List, [], ◌∷◌, ◌++◌, Option, some,
  ◌==◌, length, length-append, arith,
}
use pgexporter.Deque.{Node, Deque, create, offer, poll, poll_last, uint32, decrement}
use mathlib.Core.List.{reverse, reverse-append, reverse-reverse, append_assoc, append-nil}

size_next : (n : ℕ) → n + 1 < 2 ^ 32 → uint32 (n + 1) ≡ n + 1
size_next n h = omega arith

pub decrement-suc : (n : ℕ) → suc n < 2 ^ 32 → decrement (suc n) ≡ n
decrement-suc n h = omega arith

nonempty : (n : ℕ) → (suc n == 0) ≡ false
nonempty n = ground arith

last_size : (n m : ℕ) → n ≡ m + 1 → n < 2 ^ 32 → decrement n ≡ m
last_size n m e h = omega arith

module _ {ℓ} {V : Type ℓ} where
  -- The deque that holds `xs`, its size counted.
  abbrev pub holding : List (Node V) → Deque V
  holding xs = record { size = length xs; nodes = xs }

  -- Offers of the nodes in turn, and `n` polls in turn.
  abbrev pub offers : List (Node V) → Deque V → Deque V
  offers [] q = q
  offers (x ∷ xs) q = offers xs (offer false x q)

  abbrev pub polls :
      (Deque V → Option (Node V) × Deque V) → ℕ → Deque V → List (Option (Node V)) × Deque V
  polls take zero q = ([], q)
  polls take (suc n) q = let (x, q') = take q in let (xs, rest) = polls take n q' in (x ∷ xs, rest)

  abbrev pub all_some : List (Node V) → List (Option (Node V))
  all_some [] = []
  all_some (x ∷ xs) = some x ∷ all_some xs

  offer-holding :
      (x : Node V) (xs : List (Node V))
      → length xs + 1 < 2 ^ 32
      → offer false x (holding xs) ≡ holding (xs ++ (x ∷ []))
  unfolding offer
  offer-holding x xs h =
      ap (λ n. record { size = n; nodes = xs ++ (x ∷ []) })
        (size_next (length xs) h ∙ sym (length-append xs (x ∷ [])))

  offers-holding :
      (ns xs : List (Node V))
      → length xs + length ns < 2 ^ 32
      → offers ns (holding xs) ≡ holding (xs ++ ns)
  offers-holding [] xs h = ap holding (sym (append-nil xs))
  offers-holding (n ∷ ns) xs h =
      ap (offers ns) (offer-holding n xs (omega arith))
      ∙ offers-holding ns (xs ++ (n ∷ [])) (omega (arith, length-append xs (n ∷ [])))
      ∙ ap holding (append_assoc xs (n ∷ []) ns)

  poll-holding :
      (x : Node V) (xs : List (Node V))
      → length xs + 1 < 2 ^ 32
      → poll (holding (x ∷ xs)) ≡ (some x, holding xs)
  unfolding poll
  poll-holding x xs h = rw (nonempty (length xs), decrement-suc (length xs) (omega arith)) refl

  polls-holding :
      (xs : List (Node V))
      → length xs < 2 ^ 32
      → polls poll (length xs) (holding xs) ≡ (all_some xs, holding [])
  polls-holding [] h = refl
  polls-holding (x ∷ xs) h =
      rw (poll-holding x xs (omega arith), polls-holding xs (omega arith)) refl

  create_lem : create {V = V} ≡ holding []
  unfolding create
  create_lem = refl

  -- Fewer than 2 ^ 32 nodes that are offered to a new deque are polled in the order of the offers,
  -- and the deque is then as new.
  pub poll-offers :
      (ns : List (Node V))
      → length ns < 2 ^ 32
      → polls poll (length ns) (offers ns create) ≡ (all_some ns, create)
  poll-offers ns h = rw (create_lem, offers-holding ns [] (omega arith)) (polls-holding ns h)

  take_last_step :
      (n : ℕ) (x : Node V) (xs ys : List (Node V))
      → reverse ys ≡ x ∷ xs
      → (n == 0) ≡ false
      → poll_last (record { size = n; nodes = ys })
        ≡ (some x, record { size = decrement n; nodes = reverse xs })
  unfolding poll_last
  take_last_step n x xs ys e p = rw (p, e) refl

  poll_last-holding :
      (x : Node V) (xs : List (Node V))
      → length xs + 1 < 2 ^ 32
      → poll_last (holding (xs ++ (x ∷ []))) ≡ (some x, holding xs)
  poll_last-holding x xs h =
      take_last_step (length (xs ++ (x ∷ []))) x (reverse xs) (xs ++ (x ∷ []))
        (reverse-append xs (x ∷ []))
        (positive (length xs) (length (xs ++ (x ∷ []))) (length-append xs (x ∷ [])))
      ∙ rw
          (
            last_size (length (xs ++ (x ∷ []))) (length xs) (length-append xs (x ∷ []))
                (omega (arith, length-append xs (x ∷ []))),
            reverse-reverse xs,
          )
          refl
    where
      positive : (m n : ℕ) → n ≡ m + 1 → (n == 0) ≡ false
      positive m n e = ground arith

  -- Of a deque with fewer than 2 ^ 32 nodes, the node that was offered last is the one that a poll
  -- at the end takes out, and the deque is then as before the offer.
  pub poll_last-offer :
      (ns : List (Node V)) (x : Node V)
      → length ns + 1 < 2 ^ 32
      → poll_last (offer false x (offers ns create)) ≡ (some x, offers ns create)
  poll_last-offer ns x h =
      rw (create_lem, offers-holding ns [] (omega arith), offer-holding x ns h)
        (poll_last-holding x ns h)
