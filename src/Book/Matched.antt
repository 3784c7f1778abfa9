-- ===== src/Book/Matched.antt =====
-- `matchAgainst` as a whole: it returns, and what it leaves and reports is what the matching rule says.
use exchnage_simulator.Prelude.{
  ℕ, suc, ◌^◌, ◌<◌, ◌≡◌, refl, ◌∙◌, ◌⊎◌, inl, inr, Bool, false, List, [], ◌∷◌, ◌++◌, append-nil,
  done, arith, length, All, ◌≢◌,
}
use exchnage_simulator.Core.{Side, is_buy, OrderRequest}
use exchnage_simulator.Levels.{Levels}
use exchnage_simulator.Levels.Order.{IsOrdered, Keys}
use exchnage_simulator.Book.State.{Store, can_trade}
use exchnage_simulator.Book.Matching.{Sweep, match_against}
use exchnage_simulator.Book.Linked.{Linked, LinkedLevels}
use exchnage_simulator.Book.Spec.{cross, untouched, Resting}
use exchnage_simulator.Book.View.{view_orders, view_levels}
use exchnage_simulator.Book.Sound.{Sound}
use exchnage_simulator.Book.Sweeping.{Swept, match_levels-ends}

module _ (passive : Side) (incoming : OrderRequest) where
  cross-done : (rs : List Resting) → cross passive incoming 0 rs ≡ untouched rs 0
  unfolding cross
  cross-done [] = refl
  cross-done (r ∷ rs) = refl

  cross-blocked_front :
      (st : Store) (v : Bool) (q n : ℕ) (os : List ℕ) (tail : List Resting)
      → os ≢ []
      → All (Linked st v q) os
      → can_trade passive q incoming.price ≡ false
      → cross passive incoming n (view_orders st.heap q os ++ tail)
        ≡ untouched (view_orders st.heap q os ++ tail) n
  unfolding cross view_orders
  cross-blocked_front st v q n [] tail ne h e = absurd (ne refl)
  cross-blocked_front st v q n (a ∷ os) tail ne h e = ground (arith, h.0.live)

  cross-blocked :
      (st : Store) (v : Bool) (n : ℕ) (ls : Levels)
      → IsOrdered passive ls
      → LinkedLevels st v ls
      → Keys (λ q. can_trade passive q incoming.price) false ls
      → cross passive incoming n (view_levels st.heap ls) ≡ untouched (view_levels st.heap ls) n
  unfolding cross view_levels
  cross-blocked st v n [] o h k = refl
  cross-blocked st v n ((q, l) ∷ r) o h k =
      cross-blocked_front st v q n l.orders (view_levels st.heap r) o.2 h.0 k.0

  module _ (symbol : ℕ) (opp : Levels) where
    cross-stopped :
        (s : Sweep)
        → Sound passive opp s.store s.levels
        → (s.remaining ≡ 0) ⊎ Keys (λ q. can_trade passive q incoming.price) false s.levels
        → cross passive incoming s.remaining (view_levels s.store.heap s.levels)
          ≡ untouched (view_levels s.store.heap s.levels) s.remaining
    cross-stopped s h (inl e) = rw e (cross-done (view_levels s.store.heap s.levels))
    cross-stopped s h (inr k) =
        cross-blocked s.store (is_buy passive) s.remaining s.levels h.ordered h.linked k

    pub record Matched (s s' : Sweep) : Type 0 where
      pub runs : match_against passive incoming symbol s ≡ done s'
      pub sound : Sound passive opp s'.store s'.levels
      pub swept : Swept passive incoming symbol opp s s'
      pub crossed :
          cross passive incoming s.remaining (view_levels s.store.heap s.levels) ≡ record {
            book = view_levels s'.store.heap s'.levels;
            remaining = s'.remaining;
            events = swept.events;
          }
      pub stopped :
          (s'.remaining ≡ 0) ⊎ Keys (λ q. can_trade passive q incoming.price) false s'.levels

    pub match_against-Matched :
        (s : Sweep)
        → Sound passive opp s.store s.levels
        → s.remaining < 2 ^ 32
        → (s' : Sweep) × Matched s s'
    unfolding match_against
    match_against-Matched s h small =
        let (s', e) =
          match_levels-ends passive incoming symbol opp (suc (length s.levels)) s h (ground arith)
            small in
        (
          s',
          record {
            runs = e.runs;
            sound = e.sound;
            swept = e.swept;
            crossed =
                e.swept.crossed
                ∙ rw (cross-stopped s' e.sound e.stopped, append-nil e.swept.events) refl;
            stopped = e.stopped;
          },
        )
