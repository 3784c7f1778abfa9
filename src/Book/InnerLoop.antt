-- ===== src/Book/InnerLoop.antt =====
-- The inner loop of `matchAgainst` ends, faults nowhere, and does what the matching rule does.
use exchnage_simulator.Prelude.{
  ℕ, zero, suc, ◌^◌, ◌≤◌, ◌<◌, ◌≡◌, refl, sym, ap, ◌∙◌, ◌⊎◌, inl, inr, true, false, List, [], ◌∷◌,
  ◌++◌, ltb, ◌&&◌, done, arith, not, append_assoc, Bool-cases, ltb→lt,
}
use exchnage_simulator.Core.{Side, is_buy, OrderRequest}
use exchnage_simulator.Core.PriceLevel.{is_empty}
use exchnage_simulator.Levels.{Levels}
use exchnage_simulator.Book.State.{can_trade}
use exchnage_simulator.Book.Matching.{Round, match_level}
use exchnage_simulator.Book.Spec.{report, report-append, report-nil}
use exchnage_simulator.Book.View.{Others}
use exchnage_simulator.Book.Held.{Held}
use exchnage_simulator.Book.Inner.{Ran, Advance, advance, weight}

module _ (passive : Side) (incoming : OrderRequest) (symbol p : ℕ) (rest opp : Levels)
    (others : Others p rest) (tradeable : can_trade passive p incoming.price ≡ true) where
  abbrev RanHere : Round → Round → Type 0
  RanHere = Ran passive incoming symbol p rest opp others tradeable

  abbrev HeldHere : Round → Type 0
  HeldHere r = Held (is_buy passive) p rest opp r.store r.level.orders

  Ran-refl : (r : Round) → RanHere r r
  Ran-refl r = record {
    events = [];
    crossed = λ tail. refl;
    told = sym (report-nil passive incoming symbol r.sink);
    price = refl;
    same = record { rest_view = refl; opp_view = refl; next_addr = refl; unknown = λ i m. m };
  }

  Ran-trans : {q r t : Round} → RanHere q r → RanHere r t → RanHere q t
  Ran-trans {q} {r} {t} x y = record {
    events = x.events ++ y.events;
    crossed = λ tail. rw (x.crossed tail, y.crossed tail) (rw append_assoc);
    told =
        y.told
        ∙ ap (report passive incoming symbol y.events) x.told
        ∙ report-append passive incoming symbol x.events y.events q.sink;
    price = y.price ∙ x.price;
    same = record {
      rest_view = y.same.rest_view ∙ x.same.rest_view;
      opp_view = y.same.opp_view ∙ x.same.opp_view;
      next_addr = y.same.next_addr ∙ x.same.next_addr;
      unknown = λ i m. y.same.unknown i (x.same.unknown i m);
    };
  }

  -- The loop from `r` ends in `r'`: the order is used up or the level is empty.
  pub record Finishes (fuel : ℕ) (r r' : Round) : Type 0 where
    pub runs : match_level passive incoming symbol fuel p r ≡ done r'
    pub held : HeldHere r'
    pub ran : RanHere r r'
    pub stopped : (r'.remaining ≡ 0) ⊎ (r'.level.orders ≡ [])
    pub bound : r'.remaining ≤ r.remaining

  stop_now :
      (fuel : ℕ) (r : Round)
      → HeldHere r
      → (ltb 0 r.remaining && not (is_empty r.level)) ≡ false
      → Finishes (suc fuel) r r
  unfolding match_level
  stop_now fuel r h e = record {
    runs = rw (e, match_level);
    held = h;
    ran = Ran-refl r;
    stopped = ground arith;
    bound = omega arith;
  }

  go_on :
      (fuel : ℕ) (r r' r'' : Round)
      → (ltb 0 r.remaining && not (is_empty r.level)) ≡ true
      → Advance passive incoming symbol p rest opp others tradeable r r'
      → Finishes fuel r' r''
      → Finishes (suc fuel) r r''
  unfolding match_level
  go_on fuel r r' r'' e step more = record {
    runs = rw (e, match_level) (rw step.runs more.runs);
    held = more.held;
    ran = Ran-trans step.ran more.ran;
    stopped = more.stopped;
    bound = omega arith;
  }

  abbrev Goal : ℕ → Round → Type 0
  Goal fuel r =
      HeldHere r
      → weight passive incoming symbol p rest opp others tradeable r < fuel
      → r.remaining < 2 ^ 32
      → (r' : Round) × Finishes fuel r r'

  by_front :
      (fuel : ℕ) (r : Round) (os : List ℕ)
      → r.level.orders ≡ os
      → ((r' : Round) → Goal fuel r')
      → Goal (suc fuel) r
  by_front fuel r [] front rec h few small = (r, stop_now fuel r h (ground arith))
  by_front fuel r (a ∷ os) front rec h few small = elim (Bool-cases (ltb 0 r.remaining)) [
    | inr spent ↦ (r, stop_now fuel r h (ground arith))
    | inl more ↦
        (let (r', step) =
            advance passive incoming symbol p rest opp others tradeable r front (rw front at h)
              (ltb→lt _ _ more) small in
          let (r'', fin) =
            rec r' step.held (omega (arith, step.lighter)) (omega (arith, step.bound)) in
          (r'', go_on fuel r r' r'' (ground arith) step fin))
  ]

  pub match_level-finishes : (fuel : ℕ) (r : Round) → Goal fuel r
  match_level-finishes zero r h few small = elim few [ ]
  match_level-finishes (suc fuel) r h few small =
      by_front fuel r r.level.orders refl (match_level-finishes fuel) h few small
