-- ===== src/Spsc/Slots.antt =====
-- Where the items of the ring buffer stand.
use exchnage_simulator.Prelude.{
  ℕ, zero, suc, ne→==, ==-refl, ◌+◌, ◌-◌, ◌≡◌, ◌≢◌, ◌≤◌, ◌<◌, ◌^◌, ◌%◌, ◌*◌, refl, sym, ◌∙◌, subst,
  Bool-cases, inl, inr, List, [], ◌∷◌, ◌++◌, length, ltb, ltb→le, if◌then◌else◌, arith, add64,
}
use native.Mathlib.Nat.{mod-eq_of_lt, mod_self, mul-suc, add-mul-mod_self_left}
use exchnage_simulator.Spsc.{SpscQueue, store_slot, next_index, size, new_queue}

-- `Capacity` is a power of two that `std::size_t` can hold: a divisor of 2 ^ 64.
pub record IsCapacity (cap : ℕ) : Type 0 where
  pub at_least : 2 ≤ cap
  pub times : ℕ
  pub divides : 2 ^ 64 ≡ cap * times
  pub bound : cap < 2 ^ 64

pub store_slot_self : {T : Type 0} (i : ℕ) (x : T) (buf : ℕ → T) → store_slot i x buf i ≡ x
unfolding store_slot
store_slot_self i x buf = rw (==-refl i) refl

-- A position that may lie past the end of the buffer.
abbrev pub wrap : ℕ → ℕ → ℕ
wrap cap i = if ltb i cap then i else i - cap

module _ (cap : ℕ) (c : IsCapacity cap) where
  pub next_index-wrap : (i : ℕ) → i < cap → next_index cap i ≡ wrap cap (suc i)
  unfolding next_index
  next_index-wrap i lt = elim (Bool-cases (ltb (suc i) cap)) [
    | inl e ↦
        let small : suc i < cap = ground arith in
        let step : add64 i 1 ≡ suc i = omega (arith, c.bound) in rw (step, e) (mod-eq_of_lt small)
    | inr e ↦
        let at : suc i ≡ cap = ground arith in
        let step : add64 i 1 ≡ suc i = omega (arith, c.bound) in
        rw (step, e, at) (mod_self cap ∙ omega arith)
  ]

pub wrap-ne :
    (cap i k n : ℕ) → i < cap → i ≤ k → k < i + n → n < cap → wrap cap k ≢ wrap cap (i + n)
wrap-ne cap i k n a b d e eq = ground arith

module _ {T : Type 0} (cap : ℕ) where
  -- The slots from `i` on hold the items.
  abbrev pub Holds : (ℕ → T) → ℕ → List T → Type 0
  Holds buf i [] = Unit
  Holds buf i (x ∷ xs) = (buf (wrap cap i) ≡ x) × Holds buf (suc i) xs

  -- The queue holds the items, oldest first.
  pub record IsRing (q : SpscQueue T) (xs : List T) : Type 0 where
    pub tail_bound : q.tail < cap
    pub fits : length xs < cap
    pub head_at : q.head ≡ wrap cap (q.tail + length xs)
    pub holds : Holds q.buffer q.tail xs

  pub Holds-append :
      (buf : ℕ → T) (i : ℕ) (xs : List T) (x : T)
      → Holds buf i xs
      → buf (wrap cap (i + length xs)) ≡ x
      → Holds buf i (xs ++ (x ∷ []))
  Holds-append buf i [] x h e = (subst (λ n. buf (wrap cap n) ≡ x) (omega arith) e, tt)
  Holds-append buf i (y ∷ ys) x h e =
      (h.0, Holds-append buf (suc i) ys x h.1 (subst (λ n. buf (wrap cap n) ≡ x) (omega arith) e))

  -- One turn later the slots are the same.
  Holds-turn :
      (buf : ℕ → T) (j : ℕ) (ys : List T)
      → j + length ys ≤ cap
      → Holds buf (cap + j) ys
      → Holds buf j ys
  Holds-turn buf j [] le h = tt
  Holds-turn buf j (y ∷ ys) le h = (
    subst (λ n. buf n ≡ y) (wrapped j (omega arith)) h.0,
    Holds-turn buf (suc j) ys (omega arith) (subst (λ n. Holds buf n ys) (omega arith) h.1),
  )
    where
      wrapped : (j : ℕ) → j < cap → wrap cap (cap + j) ≡ wrap cap j
      wrapped j lt = ground arith

  pub Holds-wrap :
      (buf : ℕ → T) (i : ℕ) (ys : List T)
      → i ≤ cap
      → length ys < cap
      → Holds buf i ys
      → Holds buf (wrap cap i) ys
  Holds-wrap buf i ys le lt h = elim (Bool-cases (ltb i cap)) [
    | inl e ↦ subst (λ n. Holds buf n ys) (rw e refl) h
    | inr e ↦
        subst (λ n. Holds buf n ys) (ground (arith, le))
          (Holds-turn buf 0 ys (omega arith) (subst (λ n. Holds buf n ys) (ground (arith, le)) h))
  ]

  -- A write to a slot before or behind the items.
  pub Holds-store :
      (buf : ℕ → T) (j : ℕ) (x : T) (i : ℕ) (xs : List T)
      → ((k : ℕ) → i ≤ k → k < i + length xs → wrap cap k ≢ j)
      → Holds buf i xs
      → Holds (store_slot j x buf) i xs
  unfolding store_slot
  Holds-store buf j x i [] ne h = tt
  Holds-store buf j x i (y ∷ ys) ne h = (
    rw (ne→== j _ (λ e. ne i (omega arith) (omega arith) (sym e))) h.0,
    Holds-store buf j x (suc i) ys (λ k lo hi. ne k (omega arith) (omega arith)) h.1,
  )

module _ {T : Type 0} where
  pub new_queue-IsRing : (cap : ℕ) (blank : T) → IsCapacity cap → IsRing cap (new_queue blank) []
  unfolding new_queue
  new_queue-IsRing cap blank c = record {
    tail_bound = omega (arith, c.at_least);
    fits = omega (arith, c.at_least);
    head_at = ground (arith, c.at_least);
    holds = tt;
  }

-- `(head - tail) & MASK` counts the items.
module _ {T : Type 0} (cap : ℕ) (c : IsCapacity cap) (q : SpscQueue T) (xs : List T) where
  -- Whole turns of the buffer do not count.
  turns : (t : ℕ) → 2 ^ 64 ≡ cap * t → (n : ℕ) → n < cap → (2 ^ 64 + n - cap) % cap ≡ n
  turns zero e n lt = omega (arith, e)
  turns (suc t) e n lt =
      let whole : cap * suc t ≡ cap * t + cap = mul-suc cap t in
      let shift : 2 ^ 64 + n - cap ≡ n + cap * t = omega (arith, e, whole, c.bound) in
      rw shift (add-mul-mod_self_left n cap t ∙ mod-eq_of_lt lt)

  unwrap : (i n : ℕ) → i < cap → n < cap → (wrap cap (i + n) + 2 ^ 64 - i) % 2 ^ 64 % cap ≡ n
  unwrap i n a b = elim (Bool-cases (ltb (i + n) cap)) [
    | inl e ↦
        let inner : (i + n + 2 ^ 64 - i) % 2 ^ 64 ≡ n = omega (arith, c.bound) in
        rw (e, inner) (mod-eq_of_lt b)
    | inr e ↦
        let at : cap ≤ i + n = ltb→le (i + n) cap e in
        let inner : (i + n - cap + 2 ^ 64 - i) % 2 ^ 64 ≡ 2 ^ 64 + n - cap =
          omega (arith, c.bound) in
        rw (e, inner) (turns c.times c.divides n b)
  ]

  -- On a buffer that holds `xs`, with a power of two of at least 2 as its `Capacity`, `size()` is the
  -- number of items.
  pub size-length : IsRing cap q xs → size cap q ≡ length xs
  unfolding size
  size-length h = rw h.head_at (unwrap q.tail (length xs) h.tail_bound h.fits)
