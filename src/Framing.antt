-- ===== src/Framing.antt =====
-- src/thread_epoll.cpp: cutting the bytes that a session received into messages. The bytes come from
-- `recv`, and each message is pushed to the queue of the matching thread, which makes room when it
-- pops.
pub mod Stream
pub mod Messages
pub mod Prefix
pub mod Decided
pub mod Tests
use exchnage_simulator.Prelude.{
  ℕ, zero, suc, ◌-◌, true, false, List, [], ◌∷◌, ◌++◌, ltb, Outcome, done, out_of_fuel, ◌>>=◌,
  length, take, drop, replicate, if◌then◌else◌,
}
use exchnage_simulator.Wire.{header_size}
use exchnage_simulator.Wire.Bytes.{read_bytes}

-- core/include/raw_message.hpp
abbrev pub max_raw_msg_size : ℕ
max_raw_msg_size = 128

pub record RawMessage : Type 0 where
  pub trader_id : ℕ
  pub length : ℕ
  pub bytes : List ℕ

-- The first `l` bytes of the buffer, and zeros up to the end of the array.
unfoldable pub raw_message : ℕ → ℕ → List ℕ → RawMessage
raw_message trader l buf = record {
  trader_id = trader;
  length = l;
  bytes = take l buf ++ replicate (max_raw_msg_size - l) 0;
}

-- `header.length`
unfoldable pub header_length : List ℕ → ℕ
header_length buf = (read_bytes 2 buf).0

-- What was pushed so far, in order, and what is left in the buffer.
abbrev pub Framed : Type 0
Framed = List RawMessage × List ℕ

abbrev pub push_raw : ℕ → ℕ → List ℕ → Framed → Framed
push_raw trader l buf r =
    if ltb max_raw_msg_size l then r else (raw_message trader l buf ∷ r.0, r.1)

-- `while (session->recvBuffer.size() >= sizeof(MsgHeader))`, on fuel.
unfoldable pub frame_all : ℕ → ℕ → List ℕ → Outcome Framed
frame_all zero trader buf = out_of_fuel
frame_all (suc n) trader buf = elim (ltb (length buf) header_size) [
  | true ↦ done ([], buf)
  | false ↦ elim (ltb (length buf) (header_length buf)) [
    | true ↦ done ([], buf)
    | false ↦
        (frame_all n trader (drop (header_length buf) buf) >>= λ r.
        done (push_raw trader (header_length buf) buf r))
  ]
]
