-- ===== src/Dashboard.antt =====
-- src/thread_gui.cpp: the rows that the terminal dashboard prints in one round. The sleep and the
-- layout of the text are left out: a row is what its `printf` is given.
pub mod Rows
pub mod Tests
use exchnage_simulator.Prelude.{codes, ℕ, suc, Bool, not, ◌||◌, ◌==◌, if◌then◌else◌, List, [], ◌∷◌}
use exchnage_simulator.Market.{InstrumentState, MarketState, snapshot}

-- `(i < 5) ? symbols[i] : "UNKNOWN"`
unfoldable pub symbol_name : ℕ → List ℕ
symbol_name i =
    if i == 0
    then codes "RELIANCE"
    else if i == 1
    then codes "TCS"
    else if i == 2
    then codes "INFY"
    else if i == 3
    then codes "HDFCBANK"
    else if i == 4
    then codes "ICICIBANK"
    else codes "UNKNOWN"

pub record Row : Type 0 where
  pub symbol : List ℕ
  pub state : InstrumentState

unfoldable pub is_active : InstrumentState → Bool
is_active s = not (s.last_trade_price == 0) || (not (s.best_bid == 0) || not (s.best_ask == 0))

unfoldable pub row_of : ℕ → InstrumentState → Row
row_of i s = record { symbol = symbol_name i; state = s }

-- The loop over the snapshot, from an index on.
unfoldable pub rows_from : ℕ → List InstrumentState → List Row
rows_from i [] = []
rows_from i (s ∷ ss) =
    if is_active s then row_of i s ∷ rows_from (suc i) ss else rows_from (suc i) ss

unfoldable pub gui_rows : MarketState → List Row
gui_rows m = rows_from 0 (snapshot m)
