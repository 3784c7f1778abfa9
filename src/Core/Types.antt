-- ===== src/Core/Types.antt =====
-- core/include/types.hpp: the enumerations. Price, Quantity, TraderId and SymbolId are 32-bit
-- words, OrderId and Timestamp 64-bit words; all are numbers here.
use exchnage_simulator.Prelude.{ℕ, Bool, true, false}

-- An enum over `uint8_t` also holds the bytes that name no enumerator, and the wire lets them in.
pub data Side : Type 0 where
  buy sell : Side
  other : ℕ → Side

pub data RequestType : Type 0 where
  new_order cancel modify : RequestType

pub data RejectReason : Type 0 where
  unknown_order invalid_price invalid_qty unauthorized unknown_symbol self_trade : RejectReason

-- The test `s == Side::Buy`, the only one that the code makes on a side.
abbrev pub is_buy : Side → Bool
is_buy buy = true
is_buy sell = false
is_buy (other n) = false

unfoldable pub opposite_side : Side → Side
opposite_side buy = sell
opposite_side sell = buy
opposite_side (other n) = buy
