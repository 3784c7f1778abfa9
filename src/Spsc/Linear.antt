-- ===== src/Spsc/Linear.antt =====
-- Whatever the interleaving, the ring buffer is a first-in first-out queue.
use exchnage_simulator.Prelude.{
  ℕ, ◌≡◌, ◌≢◌, ◌≤◌, refl, sym, ap, subst, ◌∙◌, false, List, [], ◌∷◌, ◌++◌, append_assoc, length,
  ◌==◌, arith, ==→ne,
}
use exchnage_simulator.Spsc.{SpscQueue, next_index, max_size, is_full}
use exchnage_simulator.Spsc.Slots.{IsCapacity, IsRing, new_queue-IsRing, store_slot_self}
use exchnage_simulator.Spsc.Fifo.{
  full-length, written-IsRing, published-IsRing, popped-IsRing, front-held, tail-none, tail-some,
}
use exchnage_simulator.Spsc.Steps.{
  Producer, outside, past_test, past_write, Consumer, away, past_check, past_read, Threads, Step,
  push_fails, push_tests, push_writes, push_ends, pop_fails, pop_tests, pop_reads, pop_ends,
  Reached, here, then_step, at_rest,
}

module _ {T : Type 0} (cap : ℕ) where
  -- There is room from the producer's test on, and the item stands at the head once it is written.
  abbrev Producing : Producer T → List T → SpscQueue T → Type 0
  Producing outside items q = Unit
  Producing (past_test x) items q = (length items == max_size cap) ≡ false
  Producing (past_write x) items q =
      ((length items == max_size cap) ≡ false) × (q.buffer q.head ≡ x)

  -- There is an item from the consumer's test on, and it is the oldest one that is read.
  abbrev Consuming : Consumer T → List T → Type 0
  Consuming away items = Unit
  Consuming past_check items = (y : T) × (ys : List T) × (items ≡ y ∷ ys)
  Consuming (past_read x) items = (ys : List T) × (items ≡ x ∷ ys)

  -- What was pushed is what was popped, followed by what the buffer holds.
  pub record IsConsistent (s : Threads T) : Type 0 where
    pub items : List T
    pub ring : IsRing cap s.queue items
    pub history : s.pushed ≡ s.popped ++ items
    pub producing : Producing s.producer items s.queue
    pub consuming : Consuming s.consumer items

module _ {T : Type 0} (cap : ℕ) (c : IsCapacity cap) where
  has_item :
      (q : SpscQueue T) (xs : List T)
      → IsRing cap q xs
      → (q.tail == q.head) ≡ false
      → (y : T) × (ys : List T) × (xs ≡ y ∷ ys)
  has_item q [] h e = cc (tail-none cap c q h)
  has_item q (y ∷ ys) h e = (y, ys, refl)

  -- More items behind leave the consumer its own.
  Consuming-append :
      (p : Consumer T) (xs : List T) (x : T) → Consuming cap p xs → Consuming cap p (xs ++ (x ∷ []))
  Consuming-append away xs x h = tt
  Consuming-append past_check xs x (y, ys, e) = (y, ys ++ (x ∷ []), rw e refl)
  Consuming-append (past_read z) xs x (ys, e) = (ys ++ (x ∷ []), rw e refl)

  room_behind :
      (y : T) (ys : List T) (q : SpscQueue T)
      → IsRing cap q (y ∷ ys)
      → (length ys == max_size cap) ≡ false
  unfolding max_size
  room_behind y ys q r = ground (arith, r.fits)

  -- Fewer items leave the producer its room.
  Producing-tail :
      (p : Producer T) (y : T) (ys : List T) (q : SpscQueue T) (t : ℕ)
      → IsRing cap q (y ∷ ys)
      → Producing cap p (y ∷ ys) q
      → Producing cap p ys (record q { tail = t })
  Producing-tail outside y ys q t r h = tt
  Producing-tail (past_test x) y ys q t r h = room_behind y ys q r
  Producing-tail (past_write x) y ys q t r h = (room_behind y ys q r, h.1)

  Step-IsConsistent : (s t : Threads T) → Step cap s t → IsConsistent cap s → IsConsistent cap t
  unfolding is_full
  Step-IsConsistent s t (push_fails _ e full) h = h
  Step-IsConsistent s t (push_tests _ x e room) h = record {
    items = h.items;
    ring = h.ring;
    history = h.history;
    producing = sym (full-length cap c s.queue h.items h.ring) ∙ room;
    consuming = h.consuming;
  }
  Step-IsConsistent s t (push_writes _ x e) h = record {
    items = h.items;
    ring = written-IsRing cap c s.queue h.items h.ring x;
    history = h.history;
    producing = (
      subst (λ p. Producing cap p h.items s.queue) e h.producing,
      store_slot_self s.queue.head x s.queue.buffer,
    );
    consuming = h.consuming;
  }
  Step-IsConsistent s t (push_ends _ x e) h =
      let p = subst (λ p. Producing cap p h.items s.queue) e h.producing in
      record {
        items = h.items ++ (x ∷ []);
        ring = published-IsRing cap c s.queue h.items h.ring x p.1 p.0;
        history = ap (λ l. l ++ (x ∷ [])) h.history ∙ append_assoc s.popped h.items (x ∷ []);
        producing = tt;
        consuming = Consuming-append s.consumer h.items x h.consuming;
      }
  Step-IsConsistent s t (pop_fails _ e empty) h = h
  Step-IsConsistent s t (pop_tests _ e some) h = record {
    items = h.items;
    ring = h.ring;
    history = h.history;
    producing = h.producing;
    consuming = has_item s.queue h.items h.ring some;
  }
  Step-IsConsistent s t (pop_reads _ e) h =
      let (y, ys, at) = subst (λ p. Consuming cap p h.items) e h.consuming in
      record {
        items = h.items;
        ring = h.ring;
        history = h.history;
        producing = h.producing;
        consuming = (
          ys,
          at
              ∙ ap (λ z. z ∷ ys)
                  (sym (front-held cap c s.queue y ys (subst (IsRing cap s.queue) at h.ring))),
        );
      }
  Step-IsConsistent s t (pop_ends _ x e) h =
      let (ys, at) = subst (λ p. Consuming cap p h.items) e h.consuming in
      record {
        items = ys;
        ring = popped-IsRing cap c s.queue x ys (subst (IsRing cap s.queue) at h.ring);
        history = h.history ∙ ap (λ l. s.popped ++ l) at ∙ sym (append_assoc s.popped (x ∷ []) ys);
        producing =
            Producing-tail s.producer x ys s.queue (next_index cap s.queue.tail)
              (subst (IsRing cap s.queue) at h.ring)
              (subst (λ l. Producing cap s.producer l s.queue) at h.producing);
        consuming = tt;
      }

  Reached-IsConsistent :
      (s t : Threads T) → Reached cap s t → IsConsistent cap s → IsConsistent cap t
  Reached-IsConsistent s _ (here _) h = h
  Reached-IsConsistent s u (then_step {t = t} r k) h =
      Step-IsConsistent t u k (Reached-IsConsistent s t r h)

  at_rest-IsConsistent : (blank : T) → IsConsistent cap (at_rest blank)
  unfolding at_rest
  at_rest-IsConsistent blank = record {
    items = [];
    ring = new_queue-IsRing cap blank c;
    history = refl;
    producing = tt;
    consuming = tt;
  }

  -- The producer and the consumer are never at the same slot.
  apart : (q : SpscQueue T) (y : T) (ys : List T) → IsRing cap q (y ∷ ys) → q.head ≢ q.tail
  apart q y ys h e = ==→ne q.tail q.head (tail-some cap c q y ys h) (sym e)

-- `Capacity` a power of two of at least 2, one producer and one consumer that interleave in any way,
-- from the new queue: what was popped, followed by what is in the buffer, is what was pushed, in that
-- order; the buffer holds at most `Capacity - 1` items; and while the producer may write its slot and
-- the consumer may read its own, these are two slots.
pub Reached-linear :
    {T : Type 0} (cap : ℕ) (blank : T) (s : Threads T)
    → IsCapacity cap
    → Reached cap (at_rest blank) s
    → (items : List T) × (s.pushed ≡ s.popped ++ items)
      × (length items ≤ max_size cap)
      × ((x : T) → s.producer ≡ past_test x → s.consumer ≡ past_check → s.queue.head ≢ s.queue.tail)
unfolding max_size
Reached-linear cap blank s c r =
    let h = Reached-IsConsistent cap c (at_rest blank) s r (at_rest-IsConsistent cap c blank) in
    (
      h.items,
      h.history,
      omega (arith, h.ring.fits),
      λ x p q.
          let (y, ys, at) = subst (λ p. Consuming cap p h.items) q h.consuming in
          apart cap c s.queue y ys (subst (IsRing cap s.queue) at h.ring),
    )
