-- ===== src/Client/Startup.antt =====
-- client/src/main.cpp: the beginning of `main`, up to the start of the two threads. The line that
-- `getline` gives, whether `connect` succeeds, and the results of the socket calls are arguments.
use exchnage_simulator.Prelude.{
  ℕ, Bool, true, ◌==◌, if◌then◌else◌, Option, none, some, List, [], empty_map, Outcome, done, ◌>>=◌,
}
use exchnage_simulator.Net.{Received, Sent}
use exchnage_simulator.Wire.{login_request, read_header, LoginResponseMsg}
use exchnage_simulator.Wire.Bytes.{read_bytes}
use exchnage_simulator.Accept.{LoginRequestMsg, login_request_size, login_request_bytes}
use exchnage_simulator.Client.Fields.{read_login_fields}
use exchnage_simulator.Client.Session.{Client, send_msg, recv_bytes}
use exchnage_simulator.Client.Console.{clean_commas}

-- `main` returns a code, or goes on with the results of `recv` that are left.
pub data Startup : Type 0 where
  exits : ℕ → Startup
  ready : Client → List Received → Startup

abbrev pub login_response_size : ℕ
login_response_size = 4

unfoldable pub read_login_response : List ℕ → LoginResponseMsg
read_login_response bs =
    let h = read_header bs in record { header = h.0; accepted = (read_bytes 1 h.1).0 }

unfoldable pub login_request_of : ℕ → LoginRequestMsg
login_request_of trader = record {
  header = record { length = login_request_size; type = login_request };
  trader_id = trader;
}

unfoldable pub new_client : List Sent → Client
new_client sends = record {
  running = true;
  internal_to_exchange = empty_map;
  printed = [];
  outbox = [];
  sends = sends;
}

-- Behind a successful `connect`.
unfoldable pub log_in_client : ℕ → List Sent → List Received → Outcome Startup
log_in_client trader sends rs =
    (send_msg (login_request_bytes (login_request_of trader)) (new_client sends) >>= λ (ok, c).
    if ok
    then (recv_bytes login_response_size rs >>= λ (ok, bs, rest). done (
        if ok
        then (if (read_login_response bs).accepted == 0 then exits 1 else ready c rest)
        else exits 1))
    else done (exits 1))

unfoldable pub start_client : Option (List ℕ) → Bool → List Sent → List Received → Outcome Startup
start_client none connects sends rs = done (exits 0)
start_client (some line) connects sends rs = elim (read_login_fields (clean_commas line)) [
  | none ↦ done (exits 1)
  | some (f, rest) ↦ if connects then log_in_client f.trader_id sends rs else done (exits 1)
]
