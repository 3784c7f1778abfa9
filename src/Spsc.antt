-- ===== src/Spsc.antt =====
-- containers/include/spsc_queue.hpp: the ring buffer between one producer and one consumer.
pub mod Slots
pub mod Fifo
pub mod Steps
pub mod Linear
pub mod Blocking
pub mod Tests
use exchnage_simulator.Prelude.{
  ℕ, zero, suc, List, [], ◌∷◌, ◌++◌, Outcome, done, out_of_fuel, ◌>>=◌, Bool, true, false, ◌+◌, ◌-◌,
  ◌%◌, ◌^◌, ◌==◌, if◌then◌else◌, add64, Option, none, some,
}

-- `buffer_`, an array, is a function of the index.
pub record SpscQueue (T : Type 0) : Type 0 where
  pub head : ℕ
  pub tail : ℕ
  pub buffer : ℕ → T

module _ {T : Type 0} where
  -- `buffer_{}`: every slot holds `T{}`.
  unfoldable pub new_queue : T → SpscQueue T
  new_queue blank = record { head = 0; tail = 0; buffer = λ i. blank }

  unfoldable pub is_empty : SpscQueue T → Bool
  is_empty q = q.head == q.tail

  -- `buffer_[i] = item`
  unfoldable pub store_slot : ℕ → T → (ℕ → T) → ℕ → T
  store_slot i x buf j = if i == j then x else buf j

-- The template argument `Capacity`. It is a power of two, so `x & MASK` is `x % capacity`.
module _ (capacity : ℕ) where
  abbrev pub masked : ℕ → ℕ
  masked x = x % capacity

  unfoldable pub next_index : ℕ → ℕ
  next_index i = masked (add64 i 1)

  module _ {T : Type 0} where
    unfoldable pub try_push : T → SpscQueue T → Bool × SpscQueue T
    try_push x q =
        if next_index q.head == q.tail
        then (false, q)
        else (true, record q { buffer = store_slot q.head x q.buffer; head = next_index q.head })

    -- `none` where the code returns false and leaves the argument alone.
    unfoldable pub try_pop : SpscQueue T → Option T × SpscQueue T
    try_pop q =
        if q.tail == q.head
        then (none, q)
        else (some (q.buffer q.tail), record q { tail = next_index q.tail })

    -- `k` calls of `try_pop` by the other thread, and what it gets.
    unfoldable pub pop_times : ℕ → SpscQueue T → SpscQueue T × List T
    pop_times zero q = (q, [])
    pop_times (suc k) q =
        let r = try_pop q in
        let more = pop_times k r.1 in (more.0, elim r.0 [ none ↦ more.1 | some x ↦ x ∷ more.1 ])

    -- Calls of `try_push` by the other thread.
    unfoldable pub push_each : List T → SpscQueue T → SpscQueue T
    push_each [] q = q
    push_each (x ∷ xs) q = push_each xs (try_push x q).1

    -- `push`: for each of its attempts, how often the other thread pops before it.
    unfoldable pub push : T → List ℕ → SpscQueue T → Outcome (SpscQueue T × List T)
    push x [] q = out_of_fuel
    push x (k ∷ ks) q =
        let seen = pop_times k q in
        let tried = try_push x seen.0 in
        elim tried.0 [
          | true ↦ done (tried.1, seen.1)
          | false ↦ (push x ks tried.1 >>= λ r. done (r.0, seen.1 ++ r.1))
        ]

    -- `pop`: for each of its attempts, what the other thread tries to push before it.
    unfoldable pub pop : List (List T) → SpscQueue T → Outcome (T × SpscQueue T)
    pop [] q = out_of_fuel
    pop (xs ∷ xss) q =
        let tried = try_pop (push_each xs q) in
        elim tried.0 [ some x ↦ done (x, tried.1) | none ↦ pop xss tried.1 ]

    unfoldable pub is_full : SpscQueue T → Bool
    is_full q = next_index q.head == q.tail

    unfoldable pub size : SpscQueue T → ℕ
    size q = masked ((q.head + 2 ^ 64 - q.tail) % 2 ^ 64)

  unfoldable pub max_size : ℕ
  max_size = capacity - 1
