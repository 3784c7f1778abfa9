-- ===== src/Market.antt =====
-- src/market_state.hpp: the last state of each instrument. The mutex makes each call one step.
pub mod Lookup
pub mod Tests
use exchnage_simulator.Prelude.{
  ℕ, zero, suc, Bool, true, false, ltb, if◌then◌else◌, ◌==◌, List, [], ◌∷◌,
}

pub record InstrumentState : Type 0 where
  pub best_bid : ℕ
  pub best_ask : ℕ
  pub bid_volume : ℕ
  pub ask_volume : ℕ
  pub last_trade_price : ℕ
  pub last_trade_qty : ℕ
  pub total_traded_volume : ℕ

abbrev pub max_instruments : ℕ
max_instruments = 256

unfoldable pub no_state : InstrumentState
no_state = record {
  best_bid = 0;
  best_ask = 0;
  bid_volume = 0;
  ask_volume = 0;
  last_trade_price = 0;
  last_trade_qty = 0;
  total_traded_volume = 0;
}

-- `instruments`, an array of 256, is a function of the index. What it is from 256 on is memory behind the
-- array.
abbrev pub MarketState : Type 0
MarketState = ℕ → InstrumentState

unfoldable pub new_market : MarketState
new_market i = no_state

unfoldable pub update : ℕ → InstrumentState → MarketState → MarketState
update symbol s m i = if ltb symbol max_instruments then (if symbol == i then s else m i) else m i

unfoldable pub get : ℕ → MarketState → InstrumentState
get symbol m = if ltb symbol max_instruments then m symbol else no_state

-- `snapshot`: the states from an index on, as many as are asked for.
unfoldable pub states_from : ℕ → ℕ → MarketState → List InstrumentState
states_from zero i m = []
states_from (suc n) i m = m i ∷ states_from n (suc i) m

unfoldable pub snapshot : MarketState → List InstrumentState
snapshot = states_from max_instruments 0
