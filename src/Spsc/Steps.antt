-- ===== src/Spsc/Steps.antt =====
-- The two threads of the ring buffer, one atomic access at a time. The producer alone writes the head
-- and the consumer alone writes the tail; a release store and the acquire load that reads it make a
-- step of one thread visible to the other, so the accesses are interleaved as they are written.
use exchnage_simulator.Prelude.{ℕ, ◌≡◌, true, false, List, [], ◌∷◌, ◌++◌, ◌==◌}
use exchnage_simulator.Spsc.{SpscQueue, store_slot, next_index, new_queue}

-- Where the producer is in `try_push`: outside, past the test, or past the write to the slot.
pub data Producer (T : Type 0) : Type 0 where
  outside : Producer T
  past_test : T → Producer T
  past_write : T → Producer T

-- Where the consumer is in `try_pop`: outside, past the test, or past the read of the slot.
pub data Consumer (T : Type 0) : Type 0 where
  away : Consumer T
  past_check : Consumer T
  past_read : T → Consumer T

-- The queue, the two threads, and what was pushed and popped so far, oldest first.
pub record Threads (T : Type 0) : Type 0 where
  pub queue : SpscQueue T
  pub producer : Producer T
  pub consumer : Consumer T
  pub pushed : List T
  pub popped : List T

module _ {T : Type 0} (cap : ℕ) where
  pub data Step : Threads T → Threads T → Type 0 where
    push_fails :
        (s : Threads T)
        → s.producer ≡ outside
        → (next_index cap s.queue.head == s.queue.tail) ≡ true
        → Step s s
    push_tests :
        (s : Threads T) (x : T)
        → s.producer ≡ outside
        → (next_index cap s.queue.head == s.queue.tail) ≡ false
        → Step s (record s { producer = past_test x })
    push_writes :
        (s : Threads T) (x : T)
        → s.producer ≡ past_test x
        → Step s (record s {
          producer = past_write x;
          queue = record (s.queue) { buffer = store_slot s.queue.head x s.queue.buffer };
        })
    push_ends :
        (s : Threads T) (x : T)
        → s.producer ≡ past_write x
        → Step s (record s {
          producer = outside;
          queue = record (s.queue) { head = next_index cap s.queue.head };
          pushed = s.pushed ++ (x ∷ []);
        })
    pop_fails :
        (s : Threads T) → s.consumer ≡ away → (s.queue.tail == s.queue.head) ≡ true → Step s s
    pop_tests :
        (s : Threads T)
        → s.consumer ≡ away
        → (s.queue.tail == s.queue.head) ≡ false
        → Step s (record s { consumer = past_check })
    pop_reads :
        (s : Threads T)
        → s.consumer ≡ past_check
        → Step s (record s { consumer = past_read (s.queue.buffer s.queue.tail) })
    pop_ends :
        (s : Threads T) (x : T)
        → s.consumer ≡ past_read x
        → Step s (record s {
          consumer = away;
          queue = record (s.queue) { tail = next_index cap s.queue.tail };
          popped = s.popped ++ (x ∷ []);
        })

  pub data Reached : Threads T → Threads T → Type 0 where
    here : (s : Threads T) → Reached s s
    then_step : {s t u : Threads T} → Reached s t → Step t u → Reached s u

-- The threads before the first step.
unfoldable pub at_rest : {T : Type 0} → T → Threads T
at_rest blank = record {
  queue = new_queue blank;
  producer = outside;
  consumer = away;
  pushed = [];
  popped = [];
}
