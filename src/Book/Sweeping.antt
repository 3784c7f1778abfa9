-- ===== src/Book/Sweeping.antt =====
-- The outer loop of `matchAgainst` ends, faults nowhere, and leaves what the matching rule leaves.
use exchnage_simulator.Prelude.{
  ℕ, zero, suc, ◌^◌, ◌≤◌, ◌<◌, ◌≡◌, refl, sym, ap, ◌∙◌, ◌⊎◌, inl, inr, Bool, true, false, List, [],
  ◌∷◌, ◌++◌, ltb, ◌==◌, if◌then◌else◌, done, arith, length, append_assoc, Bool-cases, ltb→lt, none,
}
use exchnage_simulator.Core.{Side, OrderRequest}
use exchnage_simulator.Core.PriceLevel.{PriceLevel}
use exchnage_simulator.Levels.{Levels, before}
use exchnage_simulator.Levels.Order.{Keys, Keys-map, Keys-others}
use exchnage_simulator.Book.State.{can_trade}
use exchnage_simulator.Book.Matching.{Round, Sweep, match_front, match_levels, put_front}
use exchnage_simulator.Book.Spec.{Event, cross, prepend, report, report-append, report-nil}
use exchnage_simulator.Book.View.{view_levels, Others}
use exchnage_simulator.Book.InnerLoop.{Finishes, match_level-finishes}
use exchnage_simulator.Book.Sound.{Sound, Sound-Held, Held-Sound, view-put_front}

module _ (passive : Side) (incoming : OrderRequest) (symbol : ℕ) (opp : Levels) where
  abbrev SoundHere : Sweep → Type 0
  SoundHere s = Sound passive opp s.store s.levels

  -- Rounds of the outer loop that turn `s` into `s'` do what the matching rule does.
  pub record Swept (s s' : Sweep) : Type 0 where
    pub events : List Event
    pub crossed :
        cross passive incoming s.remaining (view_levels s.store.heap s.levels)
        ≡ prepend events (cross passive incoming s'.remaining (view_levels s'.store.heap s'.levels))
    pub told : s'.sink ≡ report passive incoming symbol events s.sink
    pub opp_view : view_levels s'.store.heap opp ≡ view_levels s.store.heap opp
    pub next_addr : s'.store.next_addr ≡ s.store.next_addr
    pub unknown : (id : ℕ) → s.store.order_map id ≡ none → s'.store.order_map id ≡ none
    pub keys : (f : ℕ → Bool) → Keys f true s.levels → Keys f true s'.levels
    pub bound : s'.remaining ≤ s.remaining

  Swept-refl : (s : Sweep) → Swept s s
  Swept-refl s = record {
    events = [];
    crossed = refl;
    told = sym (report-nil passive incoming symbol s.sink);
    opp_view = refl;
    next_addr = refl;
    unknown = λ i m. m;
    keys = λ f k. k;
    bound = omega arith;
  }

  Swept-trans : {s t u : Sweep} → Swept s t → Swept t u → Swept s u
  Swept-trans {s} {t} {u} x y = record {
    events = x.events ++ y.events;
    crossed = rw (x.crossed, y.crossed) (rw append_assoc);
    told =
        y.told
        ∙ ap (report passive incoming symbol y.events) x.told
        ∙ report-append passive incoming symbol x.events y.events s.sink;
    opp_view = y.opp_view ∙ x.opp_view;
    next_addr = y.next_addr ∙ x.next_addr;
    unknown = λ i m. y.unknown i (x.unknown i m);
    keys = λ f k. y.keys f (x.keys f k);
    bound = omega (arith, x.bound, y.bound);
  }

  abbrev weight : Sweep → ℕ
  weight s = if s.remaining == 0 then 0 else length s.levels

  -- One round of the outer loop.
  record Fronted (s : Sweep) (p : ℕ) (l : PriceLevel) (rest : Levels) (s' : Sweep) : Type 0 where
    runs : match_front passive incoming symbol p l rest s ≡ done s'
    sound : SoundHere s'
    swept : Swept s s'
    lighter : weight s' < weight s

  module _ (s : Sweep) (p : ℕ) (l : PriceLevel) (rest : Levels) (front : s.levels ≡ (p, l) ∷ rest)
      (h : Sound passive opp s.store ((p, l) ∷ rest))
      (tradeable : can_trade passive p incoming.price ≡ true) (open_qty : 0 < s.remaining)
      (small : s.remaining < 2 ^ 32) where
    abbrev entry : Round
    entry = record { level = l; store = s.store; remaining = s.remaining; sink = s.sink }

    abbrev others : Others p rest
    others = Keys-others passive p rest h.ordered.0

    abbrev exit : Round → Sweep
    exit r = record {
      levels = put_front p r.level rest;
      store = r.store;
      remaining = r.remaining;
      sink = r.sink;
    }

    front-Keys :
        (r : Round) (f : ℕ → Bool)
        → Keys f true ((p, l) ∷ rest)
        → Keys f true (put_front p r.level rest)
    front-Keys r f k = ground arith

    front_lighter :
        (r : Round)
        → (r.remaining ≡ 0) ⊎ (r.level.orders ≡ [])
        → weight (exit r) < (if s.remaining == 0 then 0 else suc (length rest))
    front_lighter r stopped = ground arith

    leave :
        (r : Round)
        → Finishes passive incoming symbol p rest opp others tradeable
            (suc (length l.orders))
            entry
            r
        → Fronted s p l rest (exit r)
    unfolding match_front view_levels
    leave r fin = record {
      runs = rw fin.runs;
      sound =
          Held-Sound passive opp r.store p r.level rest h.ordered.0 (fin.ran.price ∙ h.ordered.1)
            h.ordered.3 h.distinct.1 fin.held;
      swept = record {
        events = fin.ran.events;
        crossed = rw front (
            rw
              (
                view-put_front passive opp r.store p r.level rest r.store.heap,
                fin.ran.same.rest_view,
              )
              (fin.ran.crossed (view_levels s.store.heap rest)));
        told = fin.ran.told;
        opp_view = fin.ran.same.opp_view;
        next_addr = fin.ran.same.next_addr;
        unknown = fin.ran.same.unknown;
        keys = λ f k. front-Keys r f (rw front at k);
        bound = fin.bound;
      };
      lighter = rw front (front_lighter r fin.stopped);
    }

    front_round : (s' : Sweep) × Fronted s p l rest s'
    front_round =
        let (r, fin) =
          match_level-finishes passive incoming symbol p rest opp others tradeable
            (suc (length l.orders)) entry (Sound-Held passive opp s.store p l rest h) (ground arith)
            small in
        (exit r, leave r fin)

  -- The loop from `s` ends in `s'`: the order is used up, or no level left can trade.
  pub record Ends (fuel : ℕ) (s s' : Sweep) : Type 0 where
    pub runs : match_levels passive incoming symbol fuel s ≡ done s'
    pub sound : SoundHere s'
    pub swept : Swept s s'
    pub stopped :
        (s'.remaining ≡ 0) ⊎ Keys (λ q. can_trade passive q incoming.price) false s'.levels

  halt :
      (fuel : ℕ) (s : Sweep)
      → SoundHere s
      → match_levels passive incoming symbol (suc fuel) s ≡ done s
      → (s.remaining ≡ 0) ⊎ Keys (λ q. can_trade passive q incoming.price) false s.levels
      → Ends (suc fuel) s s
  halt fuel s h e stop = record { runs = e; sound = h; swept = Swept-refl s; stopped = stop }

  abbrev Goal : ℕ → Sweep → Type 0
  Goal fuel s = SoundHere s → weight s < fuel → s.remaining < 2 ^ 32 → (s' : Sweep) × Ends fuel s s'

  -- Behind a level that cannot trade no level can.
  blocked :
      (p : ℕ) (rest : Levels)
      → can_trade passive p incoming.price ≡ false
      → Keys (before passive p) true rest
      → Keys (λ q. can_trade passive q incoming.price) false rest
  blocked p rest e k =
      Keys-map (before passive p) (λ q. can_trade passive q incoming.price) true false
        (λ q b. ground arith) rest k

  go_on :
      (fuel : ℕ) (s s' s'' : Sweep) (p : ℕ) (l : PriceLevel) (rest : Levels)
      → s.levels ≡ (p, l) ∷ rest
      → 0 < s.remaining
      → can_trade passive p incoming.price ≡ true
      → match_front passive incoming symbol p l rest s ≡ done s'
      → match_levels passive incoming symbol fuel s' ≡ done s''
      → match_levels passive incoming symbol (suc fuel) s ≡ done s''
  unfolding match_levels
  go_on fuel s s' s'' p l rest front more trades first then_rest = ground arith

  by_levels :
      (fuel : ℕ) (s : Sweep) (ls : Levels)
      → s.levels ≡ ls
      → 0 < s.remaining
      → ((s' : Sweep) → Goal fuel s')
      → Goal (suc fuel) s
  unfolding match_levels
  by_levels fuel s [] front more rec h few small =
      (s, halt fuel s h (ground arith) (inr (rw front tt)))
  by_levels fuel s ((p, l) ∷ rest) front more rec h few small =
      elim (Bool-cases (can_trade passive p incoming.price)) [
        | inr no_trade ↦ (
          s,
          halt fuel s h (ground arith)
              (inr (rw front (no_trade, blocked p rest no_trade (rw front at h.ordered).0))),
        )
        | inl trades ↦
            (let (s', step) = front_round s p l rest front (rw front at h) trades more small in
              let (s'', fin) =
                rec s' step.sound (omega (arith, step.lighter)) (omega (arith, step.swept.bound)) in
              (
                s'',
                record {
                  runs = go_on fuel s s' s'' p l rest front more trades step.runs fin.runs;
                  sound = fin.sound;
                  swept = Swept-trans step.swept fin.swept;
                  stopped = fin.stopped;
                },
              ))
      ]

  pub match_levels-ends : (fuel : ℕ) (s : Sweep) → Goal fuel s
  unfolding match_levels
  match_levels-ends zero s h few small = elim few [ ]
  match_levels-ends (suc fuel) s h few small = elim (Bool-cases (ltb 0 s.remaining)) [
    | inr spent ↦ (s, halt fuel s h (ground arith) (inl (ground arith)))
    | inl more ↦
        by_levels fuel s s.levels refl (ltb→lt _ _ more) (match_levels-ends fuel) h few small
  ]
