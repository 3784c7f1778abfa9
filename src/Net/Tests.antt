-- ===== src/Net/Tests.antt =====
-- Sockets at concrete descriptors.
use exchnage_simulator.Prelude.{
  ℕ, Bool, ◌≡◌, refl, true, false, not, none, some, [], ◌∷◌, if◌then◌else◌, done, fault,
}
use exchnage_simulator.Net.{
  empty_socket, socket_of, Sockets, close_fd, open_object, take_over, release_object, mark,
  store_object,
}
use exchnage_simulator.Net.Owners.{IsOwned, hand_over}
use exchnage_simulator.Net.Ownership.{begins, opens, moves, releases, closes_loose, Uses-IsOwned}
use exchnage_simulator.Net.Connect.{
  connect, connected, invalid_address, no_connection, opened, connect-no_leak,
}
use exchnage_simulator.Net.Listen.{new_server, setup, accept_loop, stop, close_listening}

abbrev no_sockets : Sockets
no_sockets = record { objects = λ i. empty_socket; is_open = λ fd. false }

abbrev no_descriptor : ℕ → Bool
no_descriptor fd = false

no_sockets-IsOwned : IsOwned no_descriptor no_sockets
unfolding empty_socket
no_sockets-IsOwned = record {
  live = λ i fd e. cc;
  sole = λ i j fd e f. cc;
  loose_live = λ fd e. cc;
  apart = λ i fd e. refl;
}

-- Object 0 gets descriptor 7, object 1 takes it over and releases it, both are destroyed, and the
-- program closes the descriptor.
abbrev passed_on : Sockets
passed_on = (release_object 1 (take_over 1 0 (open_object 0 7 no_sockets))).1

Uses-IsOwned_example :
    (t : Sockets) × (close_fd 7 passed_on ≡ done t)
    × IsOwned (mark 7 false (hand_over (some 7) no_descriptor)) t
unfolding open_object take_over release_object store_object mark socket_of
Uses-IsOwned_example =
    Uses-IsOwned no_descriptor no_sockets (mark 7 false (hand_over (some 7) no_descriptor))
      (close_fd 7 passed_on) (closes_loose 7 (releases 1 (moves 1 0 (opens 0 7 begins refl))) refl)
      no_sockets-IsOwned

connect-no_leak_example :
    connect (some 7) true false no_sockets
    ≡ done (
        if not true
        then (invalid_address, no_sockets)
        else if not false
        then (no_connection, no_sockets)
        else (connected (socket_of 7), opened 7 no_sockets))
connect-no_leak_example = connect-no_leak 7 true false no_sockets refl

-- Closing a descriptor twice is a fault.
closed_twice : (close_fd 7 no_sockets) ≡ fault
unfolding close_fd
closed_twice = refl

two_clients :
    accept_loop (
      record { running = true; accepted = some 5; still_running = true }
      ∷ record { running = true; accepted = none; still_running = true }
      ∷ record { running = true; accepted = some 6; still_running = true }
      ∷ record { running = false; accepted = none; still_running = false }
      ∷ [])
    ≡ done (5 ∷ 6 ∷ [])
unfolding accept_loop
two_clients = refl

-- A server that cannot bind throws, and closes its socket when it is destroyed.
no_port : (stop (setup (some 3) false true new_server).1).closed ≡ 3 ∷ []
unfolding setup new_server stop close_listening empty_socket socket_of
no_port = refl
