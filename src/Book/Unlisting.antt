-- ===== src/Book/Unlisting.antt =====
-- What `removeFromLevel` keeps of a side: distinct addresses, their links and the other addresses.
use exchnage_simulator.Prelude.{
  ℕ, ◌≢◌, inl, inr, Bool, List, [], ◌∷◌, ◌++◌, ◌==◌, All, Avoids, Has, Has-append, Has-append_left,
  Has-append_right, Distinct, arith, Bool-cases, ==→eq, ==→ne,
}
use exchnage_simulator.Core.PriceLevel.{unlist}
use exchnage_simulator.Levels.{Levels}
use exchnage_simulator.Levels.Remove.{without, kept_front, unplace, unplace_cases, kept_front_cases}
use exchnage_simulator.Book.State.{Store}
use exchnage_simulator.Book.Linked.{Linked, LinkedLevels, addresses}
use exchnage_simulator.Book.Sound.{DistinctLevels}

Avoids-unlist : (a b : ℕ) (os : List ℕ) → Avoids b os → Avoids b (unlist a os)
unfolding unlist
Avoids-unlist a b [] v = tt
Avoids-unlist a b (x ∷ os) v = ground (arith, Avoids-unlist a b os v.1)

-- No second occurrence is left.
pub unlist-Avoids : (a : ℕ) (os : List ℕ) → Distinct os → Avoids a (unlist a os)
unfolding unlist
unlist-Avoids a [] d = tt
unlist-Avoids a (x ∷ os) d = elim (Bool-cases (x == a)) [
  | inl hit ↦ rw hit (rw (==→eq x a hit) at d.0)
  | inr miss ↦ rw miss (==→ne x a miss, unlist-Avoids a os d.1)
]

unlist-Distinct : (a : ℕ) (os : List ℕ) → Distinct os → Distinct (unlist a os)
unfolding unlist
unlist-Distinct a [] d = tt
unlist-Distinct a (x ∷ os) d = ground (arith, unlist-Distinct a os d.1, Avoids-unlist a x os d.0)

All-unlist {κ} : (P : ℕ → Type κ) (a : ℕ) (os : List ℕ) → All P os → All P (unlist a os)
unfolding unlist
All-unlist P a [] h = tt
All-unlist P a (x ∷ os) h = elim (Bool-cases (x == a)) [
  | inl hit ↦ rw hit h.1
  | inr miss ↦ rw miss (h.0, All-unlist P a os h.1)
]

Has-unlist : (a b : ℕ) (os : List ℕ) → b ≢ a → Has b os → Has b (unlist a os)
unfolding unlist
Has-unlist a b [] ne h = absurd h
Has-unlist a b (x ∷ os) ne (inl e) = ground arith
Has-unlist a b (x ∷ os) ne (inr h) = ground (arith, Has-unlist a b os ne h)

module _ (p a n : ℕ) where
  pub unplace-DistinctLevels : (ls : Levels) → DistinctLevels ls → DistinctLevels (unplace p a n ls)
  unfolding unplace
  unplace-DistinctLevels [] d = tt
  unplace-DistinctLevels ((q, l) ∷ r) d =
      unplace_cases DistinctLevels p a n q l r
        (λ here.
          kept_front_cases DistinctLevels q (without a n l) r (λ gone. d.1)
            (λ stays. (unlist-Distinct a l.orders d.0, d.1)))
        (λ on. (d.0, unplace-DistinctLevels r d.1))

  pub unplace-LinkedLevels :
      (st : Store) (v : Bool) (ls : Levels)
      → LinkedLevels st v ls
      → LinkedLevels st v (unplace p a n ls)
  unfolding unplace
  unplace-LinkedLevels st v [] h = tt
  unplace-LinkedLevels st v ((q, l) ∷ r) h =
      unplace_cases (LinkedLevels st v) p a n q l r
        (λ here.
          kept_front_cases (LinkedLevels st v) q (without a n l) r (λ gone. h.1)
            (λ stays. (All-unlist (Linked st v q) a l.orders h.0, h.1)))
        (λ on. (h.0, unplace-LinkedLevels st v r h.1))

  pub unplace-Has :
      (ls : Levels) (b : ℕ) → b ≢ a → Has b (addresses ls) → Has b (addresses (unplace p a n ls))
  unfolding unplace
  unplace-Has [] b ne h = absurd h
  unplace-Has ((q, l) ∷ r) b ne h =
      unplace_cases (λ ls. Has b (addresses ls)) p a n q l r (λ here. after_here)
        (λ on. elim (Has-append b l.orders (addresses r) h) [
          | inl x ↦ Has-append_left b l.orders _ x
          | inr x ↦ Has-append_right b l.orders _ (unplace-Has r b ne x)
        ])
    where
      in_rest : Has b (unlist a l.orders ++ addresses r)
      in_rest = elim (Has-append b l.orders (addresses r) h) [
        | inl x ↦ Has-append_left b (unlist a l.orders) _ (Has-unlist a b l.orders ne x)
        | inr x ↦ Has-append_right b (unlist a l.orders) _ x
      ]

      after_here : Has b (addresses (kept_front q (without a n l) r))
      after_here =
          kept_front_cases (λ ls. Has b (addresses ls)) q (without a n l) r
            (λ gone. rw gone at in_rest) (λ stays. in_rest)
