-- ===== src/Sessions/Tests.antt =====
-- The theorems on sessions at concrete sessions.
use exchnage_simulator.Prelude.{◌≡◌, refl, none, insert, erase, empty_map}
use exchnage_simulator.Sessions.{SessionManager, new_sessions, add, remove, get_trader_id, get_fd}
use exchnage_simulator.Sessions.Inverse.{IsPaired, new_sessions-IsPaired, add-IsPaired}

abbrev one_session : SessionManager
one_session = add 4 100 new_sessions

one_session-IsPaired : IsPaired one_session
unfolding new_sessions empty_map
one_session-IsPaired = add-IsPaired 4 100 new_sessions new_sessions-IsPaired refl refl

-- A trader that logs in twice has no descriptor once the first session is gone, though the second
-- session is still there.
abbrev twice : SessionManager
twice = remove 4 (add 5 100 one_session)

twice_fd : get_fd 100 twice ≡ none
unfolding new_sessions empty_map add insert remove erase get_fd
twice_fd = refl

twice_trader : get_trader_id 5 twice ≡ 100
unfolding new_sessions empty_map add insert remove erase get_trader_id
twice_trader = refl
