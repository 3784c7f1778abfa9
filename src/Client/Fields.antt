-- ===== src/Client/Fields.antt =====
-- client/src/main.cpp: what is read from a line behind its action.
use exchnage_simulator.Prelude.{ℕ, List}
use exchnage_simulator.Client.Text.{Extract, ◌>>=◌, extracted, read_word, read_uint}

pub record NewFields : Type 0 where
  pub internal_id : ℕ
  pub symbol_id : ℕ
  pub side_text : List ℕ
  pub price : ℕ
  pub qty : ℕ

pub record ModifyFields : Type 0 where
  pub internal_id : ℕ
  pub symbol_id : ℕ
  pub price : ℕ
  pub qty : ℕ

pub record CancelFields : Type 0 where
  pub internal_id : ℕ
  pub symbol_id : ℕ

-- `ss >> internalId >> symId >> sideStr >> price >> qty`
unfoldable pub read_new_fields : Extract NewFields
read_new_fields = do
  id ← read_uint 64
  sym ← read_uint 32
  side ← read_word
  p ← read_uint 32
  q ← read_uint 32
  extracted (record { internal_id = id; symbol_id = sym; side_text = side; price = p; qty = q })

-- `ss >> internalId >> symId >> price >> qty`
unfoldable pub read_modify_fields : Extract ModifyFields
read_modify_fields = do
  id ← read_uint 64
  sym ← read_uint 32
  p ← read_uint 32
  q ← read_uint 32
  extracted (record { internal_id = id; symbol_id = sym; price = p; qty = q })

-- `ss >> internalId >> symId`
unfoldable pub read_cancel_fields : Extract CancelFields
read_cancel_fields = do
  id ← read_uint 64
  sym ← read_uint 32
  extracted (record { internal_id = id; symbol_id = sym })

pub record LoginFields : Type 0 where
  pub host : List ℕ
  pub port : ℕ
  pub trader_id : ℕ

-- `initSS >> hostStr >> port >> traderId`
unfoldable pub read_login_fields : Extract LoginFields
read_login_fields = do
  host ← read_word
  port ← read_uint 16
  trader ← read_uint 32
  extracted (record { host = host; port = port; trader_id = trader })
