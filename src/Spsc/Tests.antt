-- ===== src/Spsc/Tests.antt =====
-- The theorems on the ring buffer at a buffer of four slots.
use exchnage_simulator.Prelude.{
  ℕ, ◌≡◌, ◌≢◌, ◌≤◌, ◌^◌, refl, List, [], ◌∷◌, ◌++◌, length, ◌⊎◌, take, drop, replicate, done, arith,
}
use exchnage_simulator.Spsc.{
  SpscQueue, push, pop, new_queue, try_push, try_pop, size, max_size, next_index, store_slot,
}
use exchnage_simulator.Spsc.Slots.{IsCapacity, IsRing, new_queue-IsRing, size-length}
use exchnage_simulator.Spsc.Fifo.{fifo_push, fifo_pop, try_push-fifo, try_pop-fifo}
use exchnage_simulator.Spsc.Steps.{
  Threads, push_tests, push_writes, push_ends, pop_tests, Reached, here, then_step, at_rest,
  past_test, past_check,
}
use exchnage_simulator.Spsc.Blocking.{push-returns, pop-returns, offered}
use exchnage_simulator.Spsc.Linear.{Reached-linear}

four-IsCapacity : IsCapacity 4
four-IsCapacity = record {
  at_least = omega arith;
  times = 2 ^ 62;
  divides = refl;
  bound = omega arith;
}

-- A queue whose items run past the end of the buffer.
abbrev round_end : SpscQueue ℕ
round_end = record { head = 1; tail = 3; buffer = store_slot 0 8 (store_slot 3 7 (λ i. 0)) }

round_end-IsRing : IsRing 4 round_end (7 ∷ 8 ∷ [])
unfolding store_slot
round_end-IsRing = record {
  tail_bound = omega arith;
  fits = omega arith;
  head_at = refl;
  holds = (refl, (refl, tt));
}

try_push-fifo_example :
    ((try_push 4 9 round_end).0 ≡ (fifo_push {T = ℕ} (max_size 4) 9 (7 ∷ 8 ∷ [])).0)
    × IsRing 4 (try_push 4 9 round_end).1 (fifo_push {T = ℕ} (max_size 4) 9 (7 ∷ 8 ∷ [])).1
try_push-fifo_example = try_push-fifo 4 four-IsCapacity round_end (7 ∷ 8 ∷ []) round_end-IsRing 9

try_pop-fifo_example :
    ((try_pop 4 round_end).0 ≡ (fifo_pop {T = ℕ} (7 ∷ 8 ∷ [])).0)
    × IsRing 4 (try_pop 4 round_end).1 (fifo_pop {T = ℕ} (7 ∷ 8 ∷ [])).1
try_pop-fifo_example = try_pop-fifo 4 four-IsCapacity round_end (7 ∷ 8 ∷ []) round_end-IsRing

size-length_example : size 4 round_end ≡ 2
size-length_example = size-length 4 four-IsCapacity round_end (7 ∷ 8 ∷ []) round_end-IsRing

-- The producer pushes 5 and tests for room again; the consumer tests for an item.
abbrev pushed_once : Threads ℕ
pushed_once = record {
  queue = record { head = 1; tail = 0; buffer = store_slot 0 5 (λ i. 0) };
  producer = past_test 6;
  consumer = past_check;
  pushed = 5 ∷ [];
  popped = [];
}

pushed_once-Reached : Reached 4 (at_rest 0) pushed_once
unfolding at_rest new_queue next_index
pushed_once-Reached =
    then_step
      (then_step
        (then_step
          (then_step (then_step (here (at_rest 0)) (push_tests _ 5 refl refl))
            (push_writes _ 5 refl))
          (push_ends _ 5 refl))
        (push_tests _ 6 refl refl))
      (pop_tests _ refl refl)

Reached-linear_example :
    (items : List ℕ) × (5 ∷ [] ≡ [] ++ items)
    × (length items ≤ max_size 4)
    × ((x : ℕ)
        → pushed_once.producer ≡ past_test x
        → pushed_once.consumer ≡ past_check
        → pushed_once.queue.head ≢ pushed_once.queue.tail)
Reached-linear_example = Reached-linear 4 0 pushed_once four-IsCapacity pushed_once-Reached

-- A full buffer, from which the other thread pops before the third attempt.
abbrev full_ring : SpscQueue ℕ
full_ring = record {
  head = 2;
  tail = 3;
  buffer = store_slot 1 9 (store_slot 0 8 (store_slot 3 7 (λ i. 0)));
}

full_ring-IsRing : IsRing 4 full_ring (7 ∷ 8 ∷ 9 ∷ [])
unfolding store_slot
full_ring-IsRing = record {
  tail_bound = omega arith;
  fits = omega arith;
  head_at = refl;
  holds = (refl, (refl, (refl, tt)));
}

push-returns_example :
    (q' : SpscQueue ℕ) × (p : ℕ) × (push 4 5 (replicate 2 0 ++ (1 ∷ [])) full_ring
      ≡ done (q', take p (7 ∷ 8 ∷ 9 ∷ [])))
    × IsRing 4 q' (drop p (7 ∷ 8 ∷ 9 ∷ []) ++ (5 ∷ []))
push-returns_example =
    push-returns 4 four-IsCapacity 5 2 0 [] full_ring (7 ∷ 8 ∷ 9 ∷ []) full_ring-IsRing

pop-returns_example :
    (v : ℕ) × (q' : SpscQueue ℕ) × (items : List ℕ) × (pop 4
        (replicate 2 [] ++ ((5 ∷ 6 ∷ []) ∷ []))
        (new_queue 0)
      ≡ done (v, q'))
    × IsRing 4 q' items
    × ((◌≡◌ {A = List ℕ} [] (v ∷ items)) ⊎ (offered 4 four-IsCapacity (5 ∷ 6 ∷ []) [] ≡ v ∷ items))
pop-returns_example =
    pop-returns 4 four-IsCapacity 2 5 (6 ∷ []) [] (new_queue 0) []
      (new_queue-IsRing 4 0 four-IsCapacity)
