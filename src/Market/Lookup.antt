-- ===== src/Market/Lookup.antt =====
-- `get` after `update`.
use exchnage_simulator.Prelude.{
  ℕ, ◌≤◌, ◌≡◌, refl, ◌∙◌, true, Bool-cases, inl, inr, ltb, ◌==◌, if◌then◌else◌, arith, List, [],
  ◌∷◌,
}
use exchnage_simulator.Market.{InstrumentState, MarketState, max_instruments, no_state, update, get}

-- The last entry of a list of updates that is for the symbol.
unfoldable pub latest : ℕ → List (ℕ × InstrumentState) → InstrumentState → InstrumentState
latest symbol [] s = s
latest symbol ((t, s') ∷ us) s = latest symbol us (if t == symbol then s' else s)

unfoldable pub update_all : List (ℕ × InstrumentState) → MarketState → MarketState
update_all [] m = m
update_all ((t, s) ∷ us) m = update_all us (update t s m)

update-read :
    (symbol t : ℕ) (s : InstrumentState) (m : MarketState)
    → ltb symbol max_instruments ≡ true
    → update t s m symbol ≡ (if t == symbol then s else m symbol)
unfolding update
update-read symbol t s m e = ground arith

update-outside :
    (t : ℕ) (s : InstrumentState) (m : MarketState) (i : ℕ) → 256 ≤ i → update t s m i ≡ m i
unfolding update
update-outside t s m i le = ground arith

-- For a symbol below 256, `get` after any sequence of updates is the last state that was given for
-- this symbol, or what it held before if none was given; every other symbol reads as the zero state;
-- and no update, of whatever symbol, writes behind the array.
pub get-update_all :
    (symbol : ℕ) (us : List (ℕ × InstrumentState)) (m : MarketState)
    → (get symbol (update_all us m)
        ≡ (if ltb symbol max_instruments then latest symbol us (m symbol) else no_state))
      × ((i : ℕ) → 256 ≤ i → update_all us m i ≡ m i)
unfolding get update_all latest
get-update_all symbol [] m = (refl, λ i le. refl)
get-update_all symbol ((t, s) ∷ us) m =
    let rest = get-update_all symbol us (update t s m) in
    (
      rest.0 ∙ elim (Bool-cases (ltb symbol max_instruments)) [
        | inl e ↦ rw (e, update-read symbol t s m e) refl
        | inr e ↦ rw e refl
      ],
      λ i le. rest.1 i le ∙ update-outside t s m i le,
    )
