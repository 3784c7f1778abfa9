-- ===== src/Dispatch/Volume.antt =====
-- What the market state shows after a request.
use exchnage_simulator.Prelude.{
  ℕ, ◌≡◌, ◌<◌, ◌+◌, ◌%◌, ◌^◌, refl, ap, ◌∙◌, List, [], ◌∷◌, lt→ltb, arith, add32, ==-refl,
  if◌then◌else◌,
}
use exchnage_simulator.Core.{
  ConfirmType, OrderConfirm, new_ack, modify_ack, cancel_ack, trade, reject,
}
use exchnage_simulator.Book.Volumes.{confirmed_qty, is_trade}
use exchnage_simulator.Engine.{
  MatchingEngine, best_bid_price, best_bid_qty, best_ask_price, best_ask_qty,
}
use exchnage_simulator.Market.{InstrumentState, MarketState, update, get, max_instruments}
use exchnage_simulator.Dispatch.{apply_trades, apply_best, publish}

apply_trades-volume :
    (cs : List OrderConfirm) (s : InstrumentState)
    → s.total_traded_volume < 2 ^ 32
    → (apply_trades cs s).total_traded_volume
      ≡ (s.total_traded_volume + confirmed_qty is_trade cs) % 2 ^ 32
unfolding apply_trades confirmed_qty
apply_trades-volume [] s h = omega arith
apply_trades-volume (c ∷ cs) s h = by_type c.type (λ s'. apply_trades-volume cs s')
  where
    by_type :
        (t : ConfirmType)
        → ((s' : InstrumentState)
            → s'.total_traded_volume < 2 ^ 32
            → (apply_trades cs s').total_traded_volume
              ≡ (s'.total_traded_volume + confirmed_qty is_trade cs) % 2 ^ 32)
        → (apply_trades cs (elim t [
          | trade ↦ record s {
            last_trade_price = c.price;
            last_trade_qty = c.qty;
            total_traded_volume = add32 s.total_traded_volume c.qty;
          }
          | _ ↦ s
        ])).total_traded_volume
          ≡ (s.total_traded_volume
              + ((if is_trade t then c.qty else 0) + confirmed_qty is_trade cs))
            % 2 ^ 32
    by_type trade ih = ih _ (omega arith) ∙ omega arith
    by_type new_ack ih = ih s h ∙ omega arith
    by_type modify_ack ih = ih s h ∙ omega arith
    by_type cancel_ack ih = ih s h ∙ omega arith
    by_type reject ih = ih s h ∙ omega arith

-- After a request for a symbol below 256, the market state of the symbol shows the best prices and
-- quantities of the engine, and its traded volume has grown, as a 32-bit word, by the quantities of
-- all trade confirmations.
pub get-publish :
    (symbol : ℕ) (e : MatchingEngine) (cs : List OrderConfirm) (m : MarketState)
    → symbol < max_instruments
    → (m symbol).total_traded_volume < 2 ^ 32
    → ((get symbol (publish symbol e cs m)).best_bid ≡ best_bid_price e symbol)
      × ((get symbol (publish symbol e cs m)).bid_volume ≡ best_bid_qty e symbol)
      × ((get symbol (publish symbol e cs m)).best_ask ≡ best_ask_price e symbol)
      × ((get symbol (publish symbol e cs m)).ask_volume ≡ best_ask_qty e symbol)
      × ((get symbol (publish symbol e cs m)).total_traded_volume
          ≡ ((m symbol).total_traded_volume + confirmed_qty is_trade cs) % 2 ^ 32)
unfolding apply_best get publish update
get-publish symbol e cs m small h = (
  ap (λ (s : InstrumentState). s.best_bid) reads,
  ap (λ (s : InstrumentState). s.bid_volume) reads,
  ap (λ (s : InstrumentState). s.best_ask) reads,
  ap (λ (s : InstrumentState). s.ask_volume) reads,
  ap (λ (s : InstrumentState). s.total_traded_volume) reads ∙ apply_trades-volume cs (m symbol) h,
)
  where
    reads : get symbol (publish symbol e cs m) ≡ apply_best symbol e (apply_trades cs (m symbol))
    reads = rw (get, publish, update, lt→ltb symbol max_instruments small, ==-refl symbol) refl
