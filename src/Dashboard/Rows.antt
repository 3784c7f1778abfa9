-- ===== src/Dashboard/Rows.antt =====
-- Which rows the dashboard shows.
use exchnage_simulator.Prelude.{
  ℕ, zero, suc, ◌+◌, ◌≡◌, ◌≤◌, ◌<◌, ◌↔◌, ◌⊎◌, ◌≢◌, ◌-◌, codes, List, [], if◌then◌else◌, ap, ◌∙◌,
  sym, subst, true, Bool-cases, ◌==◌, ==→eq, ==→ne, inl, inr, ◌∷◌, Has, arith,
}
use exchnage_simulator.Market.{InstrumentState, MarketState, states_from, snapshot}
use exchnage_simulator.Dashboard.{symbol_name, Row, is_active, row_of, rows_from, gui_rows}

-- The row of an instrument that has a price.
abbrev pub IsRowOf : ℕ → ℕ → MarketState → Row → Type 0
IsRowOf lo hi m r = (i : ℕ) × (lo ≤ i) × (i < hi) × (is_active (m i) ≡ true) × (row_of i (m i) ≡ r)

module _ (m : MarketState) (r : Row) where
  rows_from_sound : (n i : ℕ) → Has r (rows_from i (states_from n i m)) → IsRowOf i (i + n) m r
  unfolding rows_from states_from
  rows_from_sound zero i h = absurd h
  rows_from_sound (suc n) i h = elim (Bool-cases (is_active (m i))) [
    | inl e ↦ first e (rw e at h) (λ h. later (rows_from_sound n (suc i) h))
    | inr e ↦ later (rows_from_sound n (suc i) (rw e at h))
  ]
    where
      later : IsRowOf (suc i) (suc i + n) m r → IsRowOf i (i + suc n) m r
      later (j, lo, hi, on, at) = (j, omega arith, omega arith, on, at)

      first :
          is_active (m i) ≡ true
          → Has r (row_of i (m i) ∷ rows_from (suc i) (states_from n (suc i) m))
          → (Has r (rows_from (suc i) (states_from n (suc i) m)) → IsRowOf i (i + suc n) m r)
          → IsRowOf i (i + suc n) m r
      first e (inl at) ih = (i, omega arith, omega arith, e, at)
      first e (inr h) ih = ih h

  rows_from_complete : (n i : ℕ) → IsRowOf i (i + n) m r → Has r (rows_from i (states_from n i m))
  unfolding rows_from states_from
  rows_from_complete zero i (j, lo, hi, on, at) = absurd (omega arith)
  rows_from_complete (suc n) i (j, lo, hi, on, at) = elim (Bool-cases (i == j)) [
    | inl e ↦
        let here : (is_active (m i) ≡ true) × (row_of i (m i) ≡ r) =
          subst (λ k. (is_active (m k) ≡ true) × (row_of k (m k) ≡ r)) (sym (==→eq i j e))
            (on, at) in
        rw here.0 (inl here.1)
    | inr e ↦
        let later =
          rows_from_complete n (suc i) (j, omega (arith, ==→ne i j e), omega arith, on, at) in
        elim (Bool-cases (is_active (m i))) [ inl b ↦ rw b (inr later) | inr b ↦ rw b later ]
  ]

-- A last trade, a best bid or a best offer has a price.
abbrev pub HasPrice : InstrumentState → Type 0
HasPrice s = (s.last_trade_price ≢ 0) ⊎ (s.best_bid ≢ 0) ⊎ (s.best_ask ≢ 0)

HasPrice-is_active : (s : InstrumentState) → HasPrice s → is_active s ≡ true
unfolding is_active
HasPrice-is_active s (inl h) = ground arith
HasPrice-is_active s (inr (inl h)) = ground arith
HasPrice-is_active s (inr (inr h)) = ground arith

is_active-HasPrice : (s : InstrumentState) → is_active s ≡ true → HasPrice s
unfolding is_active
is_active-HasPrice s h = elim (Bool-cases (s.last_trade_price == 0)) [
  | inr a ↦ inl (==→ne _ _ a)
  | inl a ↦ elim (Bool-cases (s.best_bid == 0)) [
    | inr b ↦ inr (inl (==→ne _ _ b))
    | inl b ↦ inr (inr (ground (arith, h, a, b)))
  ]
]

-- The names of the instruments, in the order of their ids.
abbrev pub names : List (List ℕ)
names = codes "RELIANCE" ∷ codes "TCS" ∷ codes "INFY" ∷ codes "HDFCBANK" ∷ codes "ICICIBANK" ∷ []

abbrev pub name_in : List (List ℕ) → ℕ → List ℕ
name_in [] i = codes "UNKNOWN"
name_in (n ∷ ns) i = if i == 0 then n else name_in ns (i - 1)

symbol_name-name_in : (i : ℕ) → symbol_name i ≡ name_in names i
unfolding symbol_name
symbol_name-name_in i = ground arith

-- The dashboard has a row exactly if it has the name and the state of an instrument below 256 whose
-- last trade, best bid or best offer has a price.
pub gui_rows-Has :
    (m : MarketState) (r : Row)
    → Has r (gui_rows m)
      ↔ ((i : ℕ) × (i < 256) × HasPrice (m i) × (r.symbol ≡ name_in names i) × (r.state ≡ m i))
unfolding gui_rows snapshot row_of
gui_rows-Has m r = (
  λ h.
      let (i, lo, hi, on, at) = rows_from_sound m r 256 0 h in
      (
        i,
        hi,
        is_active-HasPrice (m i) on,
        ap (λ (x : Row). x.symbol) (sym at) ∙ symbol_name-name_in i,
        ap (λ (x : Row). x.state) (sym at),
      ),
  λ (i, hi, on, name, state). rows_from_complete m r 256 0 (
    i,
    omega arith,
    hi,
    HasPrice-is_active (m i) on,
    λ k. record { symbol = (symbol_name-name_in i ∙ sym name) k; state = sym state k },
  ),
)
