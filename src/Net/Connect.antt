-- ===== src/Net/Connect.antt =====
-- net/src/tcp_client.cpp: `TcpClient::connect`. The descriptor that `socket` opens, if any, and
-- whether the address is good and the connection is made are arguments. The socket is returned, and
-- an exception is a message.
use exchnage_simulator.Prelude.{
  ℕ, ◌≡◌, refl, Bool, true, false, Bool-cases, inl, inr, Option, none, some, ◌==◌, ==→eq, ==-refl,
  if◌then◌else◌, Outcome, done, ◌>>=◌, arith, fun_ext, ap, not,
}
use exchnage_simulator.Net.{TcpSocket, socket_of, mark, Sockets, close_fd}

pub data Connected : Type 0 where
  connected : TcpSocket → Connected
  no_socket invalid_address no_connection : Connected

-- The system's table after `socket` has opened `fd`.
abbrev pub opened : ℕ → Sockets → Sockets
opened fd s = record s { is_open = mark fd true s.is_open }

unfoldable pub connect : Option ℕ → Bool → Bool → Sockets → Outcome (Connected × Sockets)
connect none good made s = done (no_socket, s)
connect (some fd) good made s =
    if not good
    then (close_fd fd (opened fd s) >>= λ t. done (invalid_address, t))
    else if not made
    then (close_fd fd (opened fd s) >>= λ t. done (no_connection, t))
    else done (connected (socket_of fd), opened fd s)

closed_again : (fd : ℕ) (m : ℕ → Bool) → m fd ≡ false → mark fd false (mark fd true m) ≡ m
unfolding mark
closed_again fd m free =
    fun_ext (λ d. elim (Bool-cases (fd == d)) [
      | inl e ↦ ground (arith, ==→eq fd d e)
      | inr e ↦ rw e refl
    ])

close_fd-opened : (fd : ℕ) (s : Sockets) → s.is_open fd ≡ false → close_fd fd (opened fd s) ≡ done s
unfolding close_fd mark
close_fd-opened fd s free =
    rw (close_fd, mark, ==-refl fd)
      (ap (λ m. done (record s { is_open = m })) (closed_again fd s.is_open free))

-- If `socket` opens a descriptor that was not open, `connect` returns, whatever fails: with an
-- exception for a bad address or a refused connection, and every descriptor as it was before the call,
-- or else with a socket that owns the descriptor, which is then all that was opened.
pub connect-no_leak :
    (fd : ℕ) (good made : Bool) (s : Sockets)
    → s.is_open fd ≡ false
    → connect (some fd) good made s
      ≡ done (
          if not good
          then (invalid_address, s)
          else if not made
          then (no_connection, s)
          else (connected (socket_of fd), opened fd s))
unfolding connect
connect-no_leak fd false made s free = rw (close_fd-opened fd s free) refl
connect-no_leak fd true false s free = rw (close_fd-opened fd s free) refl
connect-no_leak fd true true s free = refl
