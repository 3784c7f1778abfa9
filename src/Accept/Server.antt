-- ===== src/Accept/Server.antt =====
-- src/thread_accept.cpp: what becomes of the socket of a connection. The handler owns it; it is closed
-- when the handler returns, unless the login released it.
use exchnage_simulator.Prelude.{
  ℕ, ◌≡◌, refl, ap, Bool, true, false, ◌&&◌, Bool-cases, inl, inr, List, [], length, ◌==◌, ==-refl,
  ==→eq, if◌then◌else◌, fun_ext, Outcome, done, ◌>>=◌, arith,
}
use exchnage_simulator.Net.{
  empty_socket, socket_of, Sockets, store_object, mark, close_fd, open_object, close_object,
  release_object,
}
use exchnage_simulator.Sessions.{SessionManager}
use exchnage_simulator.Wire.{MsgType, login_request}
use exchnage_simulator.Accept.{Accepted, read_login_request, login_request_size, log_in, on_accept}

-- The handler on object `i`, which owns `fd`, behind a login message of this type.
unfoldable pub serve_typed :
    MsgType → ℕ → ℕ → ℕ → SessionManager → Sockets → Outcome (Accepted × Sockets)
serve_typed login_request i fd trader m s =
    (close_object i (release_object i s).1 >>= λ t. done (log_in login_request fd trader m, t))
serve_typed other i fd trader m s = (close_object i s >>= λ t. done (log_in other fd trader m, t))

-- A descriptor that `accept` opened, and what `recvRaw` read.
unfoldable pub serve_connection :
    ℕ → ℕ → List ℕ → SessionManager → Sockets → Outcome (Accepted × Sockets)
serve_connection i fd bs m s =
    if length bs == login_request_size
    then (let login = read_login_request bs in
        serve_typed login.header.type i fd login.trader_id m (open_object i fd s))
    else (close_object i (open_object i fd s) >>= λ t. done ((m, []), t))

-- The type of a login.
unfoldable pub is_login_type : MsgType → Bool
is_login_type login_request = true
is_login_type other = false

module _ (i fd : ℕ) (s : Sockets) (free : s.is_open fd ≡ false) where
  -- A connection whose socket is closed leaves the system as it was.
  close_object-open_object :
      (t : Sockets) × (close_object i (open_object i fd s) ≡ done t) × (t.is_open ≡ s.is_open)
  unfolding close_object open_object close_fd store_object mark socket_of
  close_object-open_object = (
    record {
      objects = store_object i empty_socket (store_object i (socket_of fd) s.objects);
      is_open = mark fd false (mark fd true s.is_open);
    },
    rw (close_object, ==-refl i, close_fd, ==-refl fd) refl,
    fun_ext (λ d. elim (Bool-cases (fd == d)) [
      | inl e ↦ ground (arith, ==→eq fd d e)
      | inr e ↦ rw e refl
    ]),
  )

  close_object-released :
      (t : Sockets) × (close_object i (release_object i (open_object i fd s)).1 ≡ done t)
      × (t.is_open ≡ mark fd true s.is_open)
  unfolding close_object open_object release_object store_object empty_socket
  close_object-released =
      ((release_object i (open_object i fd s)).1, rw (close_object, ==-refl i) refl, refl)

  serve_typed_lem :
      (t : MsgType) (trader : ℕ) (m : SessionManager)
      → (u : Sockets) × (serve_typed t i fd trader m (open_object i fd s)
          ≡ done (log_in t fd trader m, u))
        × (u.is_open ≡ (if is_login_type t then mark fd true s.is_open else s.is_open))
  unfolding serve_typed is_login_type
  serve_typed_lem login_request trader m =
      let (u, e, at) = close_object-released in
      (u, ap (λ o. o >>= λ t. done (log_in login_request fd trader m, t)) e, at)
  serve_typed_lem t trader m =
      let (u, e, at) = close_object-open_object in
      (u, ap (λ o. o >>= λ u. done (log_in t fd trader m, u)) e, at)

  -- The handler leaves the sessions that the login leaves. If the bytes are a login, the descriptor
  -- stays open; whatever else they are, it is closed again, and every other descriptor is as it was.
  pub serve_connection-owned :
      (bs : List ℕ) (m : SessionManager)
      → (u : Sockets) × (serve_connection i fd bs m s ≡ done (on_accept fd bs m, u))
        × (u.is_open ≡ (
            if length bs == 7 && is_login_type (read_login_request bs).header.type
            then mark fd true s.is_open
            else s.is_open))
  unfolding serve_connection on_accept
  serve_connection-owned bs m = elim (Bool-cases (length bs == 7)) [
    | inl e ↦
        let l = read_login_request bs in
        let (u, runs, at) = serve_typed_lem l.header.type l.trader_id m in
        (u, rw (serve_connection, on_accept, e) runs, rw e at)
    | inr e ↦
        let (u, runs, at) = close_object-open_object in
        (
          u,
          rw (serve_connection, on_accept, e) (ap (λ o. o >>= λ t. done ((m, []), t)) runs),
          rw e at,
        )
  ]
