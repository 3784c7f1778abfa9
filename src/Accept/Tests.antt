-- ===== src/Accept/Tests.antt =====
-- The theorems on logins at a concrete login.
use exchnage_simulator.Prelude.{
  ℕ, ◌≡◌, refl, true, false, List, [], ◌∷◌, empty_map, length, ◌==◌, ◌&&◌, if◌then◌else◌, done,
  arith,
}
use exchnage_simulator.Net.{Sockets, empty_socket, mark}
use exchnage_simulator.Wire.{read_header, type_of_byte}
use exchnage_simulator.Wire.Bytes.{read_bytes}
use exchnage_simulator.Accept.Server.{serve_connection, is_login_type, serve_connection-owned}
use exchnage_simulator.Sessions.{new_sessions, add, get_session, get_fd}
use exchnage_simulator.Sessions.Inverse.{IsPaired, new_sessions-IsPaired}
use exchnage_simulator.Accept.{
  login_request_bytes, login_response_bytes, on_accept, read_login_request,
}
use exchnage_simulator.Accept.Login.{login_of, on_accept-login, on_accept-IsPaired}

on_accept-login_example :
    on_accept 4 (login_request_bytes (login_of 70000)) new_sessions
    ≡ (add 4 70000 new_sessions, (4, login_response_bytes) ∷ [])
on_accept-login_example = on_accept-login 4 70000 new_sessions (omega arith)

on_accept-IsPaired_example : IsPaired (on_accept 4 (7 ∷ 0 ∷ 4 ∷ 9 ∷ 0 ∷ 0 ∷ 0 ∷ []) new_sessions).0
unfolding new_sessions empty_map get_session get_fd
on_accept-IsPaired_example =
    on_accept-IsPaired 4 (7 ∷ 0 ∷ 4 ∷ 9 ∷ 0 ∷ 0 ∷ 0 ∷ []) new_sessions new_sessions-IsPaired refl
      refl

-- An order that comes before the login.
abbrev no_login : List ℕ
no_login = 7 ∷ 0 ∷ 1 ∷ 9 ∷ 0 ∷ 0 ∷ 0 ∷ []

abbrev no_sockets : Sockets
no_sockets = record { objects = λ i. empty_socket; is_open = λ fd. false }

serve_connection-owned_example :
    (u : Sockets) × (serve_connection 0 4 no_login new_sessions no_sockets
      ≡ done (on_accept 4 no_login new_sessions, u))
    × (u.is_open ≡ (
        if length no_login == 7 && is_login_type (read_login_request no_login).header.type
        then mark 4 true no_sockets.is_open
        else no_sockets.is_open))
serve_connection-owned_example = serve_connection-owned 0 4 no_sockets refl no_login new_sessions

-- Its socket is closed again.
refused : is_login_type (read_login_request no_login).header.type ≡ false
unfolding is_login_type read_login_request read_header read_bytes type_of_byte
refused = refl
