-- ===== src/Dashboard/Tests.antt =====
-- The dashboard at a concrete market.
use exchnage_simulator.Prelude.{ℕ, ◌≡◌, ◌<◌, ◌↔◌, refl, [], ◌∷◌, Has}
use exchnage_simulator.Market.{MarketState, no_state, new_market, update, states_from}
use exchnage_simulator.Dashboard.{Row, is_active, row_of, rows_from, gui_rows, symbol_name}
use exchnage_simulator.Dashboard.Rows.{HasPrice, names, name_in, gui_rows-Has}

-- TCS has a bid.
abbrev one_bid : MarketState
one_bid = update 1 (record no_state { best_bid = 100; bid_volume = 5 }) new_market

abbrev tcs_row : Row
tcs_row = row_of 1 (one_bid 1)

gui_rows-Has_example : Has tcs_row (gui_rows one_bid) ↔ (
    (i : ℕ) × (i < 256)
    × HasPrice (one_bid i)
    × (tcs_row.symbol ≡ name_in names i)
    × (tcs_row.state ≡ one_bid i))
gui_rows-Has_example = gui_rows-Has one_bid tcs_row

three_rows : rows_from 0 (states_from 3 0 one_bid) ≡ tcs_row ∷ []
unfolding rows_from states_from is_active row_of update new_market no_state symbol_name
three_rows = refl
