-- ===== src/Spsc/Blocking.antt =====
-- The blocking calls, which try until they succeed.
use exchnage_simulator.Prelude.{
  ℕ, zero, suc, ◌⊎◌, ◌-◌, ◌≡◌, ◌≤◌, ◌<◌, ◌≢◌, refl, ap, subst, ◌∙◌, true, false, Bool-cases, inl,
  inr, List, [], ◌∷◌, ◌++◌, length, take, drop, take-nil, drop-nil, replicate, ◌==◌, done,
  out_of_fuel, ◌>>=◌, arith, ==→eq, ==→ne, ==-refl, ne→==,
}
use exchnage_simulator.Spsc.{
  SpscQueue, try_push, try_pop, pop_times, push_each, push, pop, max_size,
}
use exchnage_simulator.Spsc.Slots.{IsCapacity, IsRing}
use exchnage_simulator.Spsc.Fifo.{fifo_push, fifo_pop, try_push-fifo, try_pop-fifo}

length-drop_le : {T : Type 0} (k : ℕ) (xs : List T) → length (drop k xs) ≤ length xs
unfolding drop
length-drop_le zero xs = omega arith
length-drop_le (suc k) [] = omega arith
length-drop_le (suc k) (x ∷ xs) = omega (arith, length-drop_le k xs)

module _ {T : Type 0} (cap : ℕ) (c : IsCapacity cap) where
  -- The other thread takes the oldest items.
  pop_times-fifo :
      (k : ℕ) (q : SpscQueue T) (xs : List T)
      → IsRing cap q xs
      → IsRing cap (pop_times cap k q).0 (drop k xs) × ((pop_times cap k q).1 ≡ take k xs)
  unfolding pop_times take drop fifo_pop
  pop_times-fifo zero q xs h = (h, refl)
  pop_times-fifo (suc k) q [] h =
      let (a, r) = try_pop-fifo cap c q [] h in
      let (ring, got) = pop_times-fifo k (try_pop cap q).1 [] r in
      (
        subst (IsRing cap (pop_times cap k (try_pop cap q).1).0) (drop-nil k) ring,
        rw (pop_times, a) (got ∙ take-nil k),
      )
  pop_times-fifo (suc k) q (x ∷ xs) h =
      let (a, r) = try_pop-fifo cap c q (x ∷ xs) h in
      let (ring, got) = pop_times-fifo k (try_pop cap q).1 xs r in
      (ring, rw (pop_times, a) (ap (λ l. x ∷ l) got))

  module _ (x : T) (k : ℕ) (ks : List ℕ) (q : SpscQueue T) (xs : List T) (h : IsRing cap q xs) where
    -- An attempt that finds room.
    push-room :
        length (drop k xs) ≢ max_size cap
        → (q' : SpscQueue T) × (push cap x (k ∷ ks) q ≡ done (q', take k xs))
          × IsRing cap q' (drop k xs ++ (x ∷ []))
    unfolding push fifo_push
    push-room room =
        let (ring, got) = pop_times-fifo k q xs h in
        let (a, r) = try_push-fifo cap c (pop_times cap k q).0 (drop k xs) ring x in
        let no : (length (drop k xs) == max_size cap) ≡ false = ne→== _ _ room in
        (
          (try_push cap x (pop_times cap k q).0).1,
          rw (push, a, no) (ap (λ l. done ((try_push cap x (pop_times cap k q).0).1, l)) got),
          rw no at r,
        )

    -- An attempt that finds the buffer full.
    push-full :
        length (drop k xs) ≡ max_size cap
        → (q' : SpscQueue T) × IsRing cap q' (drop k xs)
          × (push cap x (k ∷ ks) q ≡ (push cap x ks q' >>= λ r. done (r.0, take k xs ++ r.1)))
    unfolding push fifo_push
    push-full full =
        let (ring, got) = pop_times-fifo k q xs h in
        let (a, r) = try_push-fifo cap c (pop_times cap k q).0 (drop k xs) ring x in
        let same : (length (drop k xs) == max_size cap) ≡ true = rw full (==-refl _) in
        (
          (try_push cap x (pop_times cap k q).0).1,
          rw same at r,
          rw (push, a, same)
              (ap
                (λ l. push cap x ks (try_push cap x (pop_times cap k q).0).1 >>= λ r.
                  done (r.0, l ++ r.1))
                got),
        )

  module _ (x : T) where
    -- With a power of two of at least 2 as `Capacity`: while the buffer is full and the other thread
    -- pops nothing, `push` makes one attempt after the other.
    pub push-waits :
        (n : ℕ) (q : SpscQueue T) (xs : List T)
        → IsRing cap q xs
        → length xs ≡ max_size cap
        → push cap x (replicate n 0) q ≡ out_of_fuel
    unfolding push replicate drop
    push-waits zero q xs h full = refl
    push-waits (suc n) q xs h full =
        let (q', ring, at) = push-full x 0 (replicate n 0) q xs h full in
        at ∙ ap (λ o. o >>= λ r. done (r.0, take 0 xs ++ r.1)) (push-waits n q' xs ring full)

    -- With a power of two of at least 2 as `Capacity` and a buffer that holds `xs`: once the other thread
    -- has popped before an attempt, `push` of `x` has returned; the other thread has got some of the
    -- oldest items, and the buffer holds the items behind those, and `x` behind them.
    pub push-returns :
        (n k : ℕ) (rest : List ℕ) (q : SpscQueue T) (xs : List T)
        → IsRing cap q xs
        → (q' : SpscQueue T) × (p : ℕ) × (push cap x (replicate n 0 ++ (suc k ∷ rest)) q
            ≡ done (q', take p xs))
          × IsRing cap q' (drop p xs ++ (x ∷ []))
    unfolding replicate drop take max_size
    push-returns zero k rest q xs h =
        let (q', runs, ring) = push-room x (suc k) rest q xs h (fewer xs h.fits) in
        (q', suc k, runs, ring)
      where
        fewer : (xs : List T) → length xs < cap → length (drop (suc k) xs) ≢ cap - 1
        fewer [] lt = omega (arith, c.at_least)
        fewer (y ∷ ys) lt = omega (arith, length-drop_le k ys)
    push-returns (suc n) k rest q xs h = elim (Bool-cases (length xs == max_size cap)) [
      | inl e ↦
          let (q1, ring1, at) =
            push-full x 0 (replicate n 0 ++ (suc k ∷ rest)) q xs h (==→eq _ _ e) in
          let (q', p, runs, ring) = push-returns n k rest q1 xs ring1 in
          (q', p, at ∙ ap (λ o. o >>= λ r. done (r.0, r.1)) runs, ring)
      | inr e ↦
          let (q', runs, ring) =
            push-room x 0 (replicate n 0 ++ (suc k ∷ rest)) q xs h (==→ne _ _ e) in
          (q', 0, runs, ring)
    ]

  -- The bounded list after the items that the other thread tries to push.
  abbrev pub offered : List T → List T → List T
  offered [] xs = xs
  offered (y ∷ ys) xs = offered ys (fifo_push (max_size cap) y xs).1

  push_each-fifo :
      (ys : List T) (q : SpscQueue T) (xs : List T)
      → IsRing cap q xs
      → IsRing cap (push_each cap ys q) (offered ys xs)
  unfolding push_each
  push_each-fifo [] q xs h = h
  push_each-fifo (y ∷ ys) q xs h =
      push_each-fifo ys (try_push cap y q).1 (fifo_push (max_size cap) y xs).1
        (try_push-fifo cap c q xs h y).1

  module _ (ys : List T) (rest : List (List T)) (q : SpscQueue T) (xs : List T)
      (h : IsRing cap q xs) where
    pop-some :
        (v : T) (items : List T)
        → offered ys xs ≡ v ∷ items
        → (q' : SpscQueue T) × (pop cap (ys ∷ rest) q ≡ done (v, q')) × IsRing cap q' items
    unfolding pop fifo_pop
    pop-some v items e =
        let ring = subst (IsRing cap (push_each cap ys q)) e (push_each-fifo ys q xs h) in
        let (a, r) = try_pop-fifo cap c (push_each cap ys q) (v ∷ items) ring in
        ((try_pop cap (push_each cap ys q)).1, rw (pop, a) refl, r)

    pop-none :
        offered ys xs ≡ []
        → (q' : SpscQueue T) × (pop cap (ys ∷ rest) q ≡ pop cap rest q') × IsRing cap q' []
    unfolding pop fifo_pop
    pop-none e =
        let ring = subst (IsRing cap (push_each cap ys q)) e (push_each-fifo ys q xs h) in
        let (a, r) = try_pop-fifo cap c (push_each cap ys q) [] ring in
        ((try_pop cap (push_each cap ys q)).1, rw (pop, a) refl, r)

  -- With such a `Capacity`: while the buffer is empty and the other thread pushes nothing, `pop` makes
  -- one attempt after the other.
  pub pop-waits :
      (n : ℕ) (q : SpscQueue T) → IsRing cap q [] → pop cap (replicate n []) q ≡ out_of_fuel
  unfolding pop replicate
  pop-waits zero q h = refl
  pop-waits (suc n) q h =
      let (q', at, ring) = pop-none [] (replicate n []) q [] h refl in at ∙ pop-waits n q' ring

  -- A list that is offered more keeps an item in front.
  offered-some :
      (ys : List T) (v : T) (xs : List T) → (items : List T) × (offered ys (v ∷ xs) ≡ v ∷ items)
  unfolding fifo_push
  offered-some [] v xs = (xs, refl)
  offered-some (y ∷ ys) v xs = elim (Bool-cases (length (v ∷ xs) == max_size cap)) [
    | inl e ↦ rw (fifo_push, e) (offered-some ys v xs)
    | inr e ↦ rw (fifo_push, e) (offered-some ys v (xs ++ (y ∷ [])))
  ]

  offered_first :
      (y : T) (ys : List T) (xs : List T)
      → (v : T) × (items : List T) × (offered (y ∷ ys) xs ≡ v ∷ items)
  unfolding fifo_push max_size
  offered_first y ys [] =
      let room : (0 == (cap - 1)) ≡ false = ground (arith, c.at_least) in
      let (items, e) = offered-some ys y [] in rw (fifo_push, room) (y, items, e)
  offered_first y ys (v ∷ xs) = let (items, e) = offered-some (y ∷ ys) v xs in (v, items, e)

  -- With a power of two of at least 2 as `Capacity` and a buffer that holds `xs`: once the other thread
  -- has tried to push before an attempt, `pop` has returned the oldest item, of `xs` or of `xs` with
  -- what the other thread could push, and the buffer holds the others.
  pub pop-returns :
      (n : ℕ) (y : T) (ys : List T) (rest : List (List T)) (q : SpscQueue T) (xs : List T)
      → IsRing cap q xs
      → (v : T) × (q' : SpscQueue T) × (items : List T) × (pop cap
            (replicate n [] ++ ((y ∷ ys) ∷ rest))
            q
          ≡ done (v, q'))
        × IsRing cap q' items
        × ((xs ≡ v ∷ items) ⊎ (offered (y ∷ ys) xs ≡ v ∷ items))
  unfolding replicate
  pop-returns zero y ys rest q xs h =
      let (v, items, e) = offered_first y ys xs in
      let (q', runs, ring) = pop-some (y ∷ ys) rest q xs h v items e in
      (v, q', items, runs, ring, inr e)
  pop-returns (suc n) y ys rest q [] h =
      let (q1, at, ring1) = pop-none [] (replicate n [] ++ ((y ∷ ys) ∷ rest)) q [] h refl in
      let (v, q', items, runs, ring, e) = pop-returns n y ys rest q1 [] ring1 in
      (v, q', items, at ∙ runs, ring, e)
  pop-returns (suc n) y ys rest q (x ∷ xs) h =
      let (q', runs, ring) =
        pop-some [] (replicate n [] ++ ((y ∷ ys) ∷ rest)) q (x ∷ xs) h x xs refl in
      (x, q', xs, runs, ring, inl refl)
