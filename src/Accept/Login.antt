-- ===== src/Accept/Login.antt =====
-- A login registers the trader, and nothing else changes the sessions.
use exchnage_simulator.Prelude.{
  ℕ, ◌≡◌, ◌<◌, ◌^◌, refl, ap, Bool-cases, inl, inr, none, List, [], ◌∷◌, append-nil, length, ◌==◌,
  arith,
}
use exchnage_simulator.Sessions.{SessionManager, add, get_session, get_fd}
use exchnage_simulator.Sessions.Inverse.{IsPaired, add-IsPaired}
use exchnage_simulator.Wire.{MsgType, login_request, header_bytes, type_of_byte}
use exchnage_simulator.Wire.Bytes.{to_bytes, read_bytes-to_bytes}
use exchnage_simulator.Wire.Roundtrip.{read_header-bytes}
use exchnage_simulator.Accept.{
  LoginRequestMsg, login_request_bytes, read_login_request, login_response_bytes, log_in, on_accept,
}

abbrev pub login_of : ℕ → LoginRequestMsg
login_of trader = record {
  header = record { length = 7; type = login_request };
  trader_id = trader;
}

read_login :
    (trader : ℕ)
    → trader < 2 ^ 32
    → read_login_request (login_request_bytes (login_of trader)) ≡ login_of trader
unfolding read_login_request login_request_bytes type_of_byte
read_login trader small =
    rw
      (
        read_login_request,
        login_request_bytes,
        read_header-bytes (record { length = 7; type = login_request }) (to_bytes 4 trader)
            (omega arith, omega arith, refl),
        ← append-nil (to_bytes 4 trader),
        read_bytes-to_bytes 4 trader [] small,
      )
      refl

-- The bytes of a login of a 32-bit trader id register the descriptor and the trader, and the answer
-- goes to the descriptor.
pub on_accept-login :
    (fd trader : ℕ) (m : SessionManager)
    → trader < 2 ^ 32
    → on_accept fd (login_request_bytes (login_of trader)) m
      ≡ (add fd trader m, (fd, login_response_bytes) ∷ [])
unfolding on_accept log_in login_request_bytes header_bytes to_bytes
on_accept-login fd trader m small =
    ap (λ (l : LoginRequestMsg). log_in l.header.type fd l.trader_id m) (read_login trader small)

log_in-IsPaired :
    (t : MsgType) (fd trader : ℕ) (m : SessionManager)
    → IsPaired m
    → get_session fd m ≡ none
    → get_fd trader m ≡ none
    → IsPaired (log_in t fd trader m).0
unfolding log_in get_session get_fd
log_in-IsPaired login_request fd trader m h free new = add-IsPaired fd trader m h free new
log_in-IsPaired _ fd trader m h free new = h

-- Whatever bytes come on a descriptor that has no session, the two session maps stay paired if they
-- are, and if the trader that the bytes name has no descriptor.
pub on_accept-IsPaired :
    (fd : ℕ) (bs : List ℕ) (m : SessionManager)
    → IsPaired m
    → get_session fd m ≡ none
    → get_fd (read_login_request bs).trader_id m ≡ none
    → IsPaired (on_accept fd bs m).0
unfolding on_accept
on_accept-IsPaired fd bs m h free new = elim (Bool-cases (length bs == 7)) [
  | inl e ↦
      let l = read_login_request bs in
      rw (on_accept, e) (log_in-IsPaired l.header.type fd l.trader_id m h free new)
  | inr e ↦ rw (on_accept, e) h
]
