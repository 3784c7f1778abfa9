-- ===== src/Sessions.antt =====
-- src/session_manager.hpp: the sessions by descriptor and the descriptors by trader. The mutex makes
-- each call one step. A descriptor is an `int`; those that the code uses are not negative.
pub mod Inverse
pub mod Tests
use exchnage_simulator.Prelude.{
  ℕ, Option, none, some, List, [], ◌∷◌, ◌==◌, if◌then◌else◌, Map, empty_map, insert, erase,
}

pub record ClientSession : Type 0 where
  pub fd : ℕ
  pub trader_id : ℕ
  pub recv_buffer : List ℕ

pub record SessionManager : Type 0 where
  pub sessions : Map ClientSession
  pub trader_to_fd : Map ℕ

unfoldable pub new_sessions : SessionManager
new_sessions = record { sessions = empty_map; trader_to_fd = empty_map }

unfoldable pub add : ℕ → ℕ → SessionManager → SessionManager
add fd trader m = record {
  sessions = insert fd (record { fd = fd; trader_id = trader; recv_buffer = [] }) m.sessions;
  trader_to_fd = insert trader fd m.trader_to_fd;
}

unfoldable pub remove : ℕ → SessionManager → SessionManager
remove fd m = elim (m.sessions fd) [
  | none ↦ m
  | some s ↦ record {
    sessions = erase fd m.sessions;
    trader_to_fd = erase s.trader_id m.trader_to_fd;
  }
]

unfoldable pub get_session : ℕ → SessionManager → Option ClientSession
get_session fd m = m.sessions fd

unfoldable pub get_trader_id : ℕ → SessionManager → ℕ
get_trader_id fd m = elim (m.sessions fd) [ none ↦ 0 | some s ↦ s.trader_id ]

-- `none` where the code returns -1.
unfoldable pub get_fd : ℕ → SessionManager → Option ℕ
get_fd trader m = m.trader_to_fd trader
