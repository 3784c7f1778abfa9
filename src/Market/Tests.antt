-- ===== src/Market/Tests.antt =====
-- The theorem on the market state at concrete updates.
use exchnage_simulator.Prelude.{ℕ, ◌≤◌, ◌≡◌, List, [], ◌∷◌}
use exchnage_simulator.Market.{InstrumentState, new_market, get}
use exchnage_simulator.Market.Lookup.{update_all, latest, get-update_all}

abbrev state_at : ℕ → InstrumentState
state_at p = record {
  best_bid = p;
  best_ask = 101;
  bid_volume = 5;
  ask_volume = 6;
  last_trade_price = 0;
  last_trade_qty = 0;
  total_traded_volume = 0;
}

abbrev updates : List (ℕ × InstrumentState)
updates = (3, state_at 99) ∷ (4, state_at 1) ∷ (300, state_at 2) ∷ (3, state_at 98) ∷ []

get-update_all_example :
    (get 3 (update_all updates new_market) ≡ state_at 98)
    × ((i : ℕ) → 256 ≤ i → update_all updates new_market i ≡ new_market i)
unfolding latest
get-update_all_example = get-update_all 3 updates new_market
