-- ===== src/Spsc/Fifo.antt =====
-- The ring buffer is a bounded queue.
use exchnage_simulator.Prelude.{
  ℕ, suc, ◌+◌, ◌≡◌, ◌<◌, refl, ap, subst, ◌∙◌, Bool, true, false, Bool-cases, inl, inr, Option,
  none, some, List, [], ◌∷◌, ◌++◌, length, length-append, ◌==◌, if◌then◌else◌, arith,
}
use exchnage_simulator.Spsc.{
  SpscQueue, store_slot, next_index, try_push, try_pop, is_empty, is_full, max_size,
}
use exchnage_simulator.Spsc.Slots.{
  IsCapacity, IsRing, wrap, wrap-ne, next_index-wrap, Holds-append, Holds-store, Holds-wrap,
  store_slot_self,
}

-- The specification: a list with a bound, oldest item first.
module _ {T : Type 0} where
  unfoldable pub fifo_push : ℕ → T → List T → Bool × List T
  fifo_push bound x xs = if length xs == bound then (false, xs) else (true, xs ++ (x ∷ []))

  unfoldable pub fifo_pop : List T → Option T × List T
  fifo_pop [] = (none, [])
  fifo_pop (x ∷ xs) = (some x, xs)

module _ {T : Type 0} (cap : ℕ) (c : IsCapacity cap) (q : SpscQueue T) (xs : List T)
    (h : IsRing cap q xs) where
  head_bound : q.head < cap
  head_bound = ground (arith, h.head_at, h.tail_bound, h.fits)

  head_next : next_index cap q.head ≡ wrap cap (q.tail + suc (length xs))
  head_next =
      next_index-wrap cap c q.head head_bound ∙ ground (arith, h.head_at, h.tail_bound, h.fits)

  -- The code's test for a full buffer.
  pub full-length : is_full cap q ≡ (length xs == max_size cap)
  unfolding is_full max_size
  full-length = rw head_next (ground (arith, h.tail_bound, h.fits))

  pub empty-length : is_empty q ≡ (length xs == 0)
  unfolding is_empty
  empty-length = rw h.head_at (ground (arith, h.tail_bound, h.fits))

  -- The write to the slot at the head leaves the items alone.
  pub written-IsRing : (x : T) → IsRing cap (record q { buffer = store_slot q.head x q.buffer }) xs
  written-IsRing x = record {
    tail_bound = h.tail_bound;
    fits = h.fits;
    head_at = h.head_at;
    holds =
        Holds-store cap q.buffer q.head x q.tail xs
          (λ k lo hi. rw h.head_at (wrap-ne cap q.tail k (length xs) h.tail_bound lo hi h.fits))
          h.holds;
  }

  -- The new head takes in what stands there.
  pub published-IsRing :
      (x : T)
      → q.buffer q.head ≡ x
      → (length xs == max_size cap) ≡ false
      → IsRing cap (record q { head = next_index cap q.head }) (xs ++ (x ∷ []))
  unfolding max_size
  published-IsRing x there room = record {
    tail_bound = h.tail_bound;
    fits = ground (arith, h.fits, length-append xs (x ∷ []));
    head_at =
        head_next ∙ ap (λ n. wrap cap (q.tail + n)) (omega (arith, length-append xs (x ∷ [])));
    holds = Holds-append cap q.buffer q.tail xs x h.holds (rw (← h.head_at) there);
  }

module _ {T : Type 0} (cap : ℕ) (c : IsCapacity cap) (q : SpscQueue T) (xs : List T)
    (h : IsRing cap q xs) where
  -- On a buffer that holds `xs`, with a power of two of at least 2 as its `Capacity`, `try_push` says what the bounded list says, which is false exactly if
  -- `Capacity - 1` items are in it, and leaves a buffer that holds what the bounded list holds.
  pub try_push-fifo :
      (x : T)
      → ((try_push cap x q).0 ≡ (fifo_push (max_size cap) x xs).0)
        × IsRing cap (try_push cap x q).1 (fifo_push (max_size cap) x xs).1
  unfolding try_push fifo_push is_full
  try_push-fifo x = elim (Bool-cases (length xs == max_size cap)) [
    | inl e ↦ rw (full-length cap c q xs h, e) (refl, h)
    | inr e ↦
        rw (full-length cap c q xs h, e)
          (
            refl,
            published-IsRing cap c (record q { buffer = store_slot q.head x q.buffer }) xs
                (written-IsRing cap c q xs h x) x (store_slot_self q.head x q.buffer) e,
          )
  ]

module _ {T : Type 0} (cap : ℕ) (c : IsCapacity cap) (q : SpscQueue T) where
  pub popped-IsRing :
      (x : T) (xs : List T)
      → IsRing cap q (x ∷ xs)
      → IsRing cap (record q { tail = next_index cap q.tail }) xs
  popped-IsRing x xs h = record {
    tail_bound = rw next (ground (arith, h.tail_bound));
    fits = omega (arith, h.fits);
    head_at = rw next (h.head_at ∙ ground (arith, h.tail_bound, h.fits));
    holds = rw next (
        Holds-wrap cap q.buffer (suc q.tail) xs (ground (arith, h.tail_bound))
          (omega (arith, h.fits)) h.holds.1);
  }
    where
      next : next_index cap q.tail ≡ wrap cap (suc q.tail)
      next = next_index-wrap cap c q.tail h.tail_bound

  pub front-held : (x : T) (xs : List T) → IsRing cap q (x ∷ xs) → q.buffer q.tail ≡ x
  front-held x xs h = subst (λ n. q.buffer n ≡ x) (ground (arith, h.tail_bound)) h.holds.0

  -- The code's test for an empty buffer.
  pub tail-none : IsRing cap q [] → (q.tail == q.head) ≡ true
  tail-none h = rw h.head_at (ground (arith, h.tail_bound, h.fits))

  pub tail-some : (x : T) (xs : List T) → IsRing cap q (x ∷ xs) → (q.tail == q.head) ≡ false
  tail-some x xs h = rw h.head_at (ground (arith, h.tail_bound, h.fits))

  -- On a buffer that holds `xs`, with a power of two of at least 2 as its `Capacity`, `try_pop` gives the oldest item, or none if there is no item, and
  -- leaves a buffer that holds the others.
  pub try_pop-fifo :
      (xs : List T)
      → IsRing cap q xs
      → ((try_pop cap q).0 ≡ (fifo_pop xs).0) × IsRing cap (try_pop cap q).1 (fifo_pop xs).1
  unfolding try_pop fifo_pop
  try_pop-fifo [] h = rw (tail-none h) (refl, h)
  try_pop-fifo (x ∷ xs) h =
      rw (tail-some x xs h) (ap some (front-held x xs h), popped-IsRing x xs h)
