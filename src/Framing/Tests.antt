-- ===== src/Framing/Tests.antt =====
-- The theorems on framing at concrete bytes.
use exchnage_simulator.Prelude.{
  ℕ, ◌≡◌, ◌⊎◌, refl, List, [], ◌∷◌, ◌++◌, done, out_of_fuel, arith, take, drop,
}
use exchnage_simulator.Wire.Bytes.{read_bytes}
use exchnage_simulator.Framing.Decided.{StuckAt, frame_all-decided}
use exchnage_simulator.Framing.{Framed, raw_message, header_length, frame_all}
use exchnage_simulator.Framing.Stream.{frame_all-append, after}
use exchnage_simulator.Framing.Messages.{frame_all-zero}

abbrev login : List ℕ
login = 7 ∷ 0 ∷ 4 ∷ 9 ∷ 0 ∷ 0 ∷ 0 ∷ []

-- The first login arrives in two pieces.
frame_all-append_example :
    frame_all 3 9 ((7 ∷ 0 ∷ 4 ∷ []) ++ (9 ∷ 0 ∷ 0 ∷ 0 ∷ 24 ∷ []))
    ≡ done (after [] (raw_message 9 7 login ∷ [], 24 ∷ []))
unfolding frame_all header_length read_bytes drop take raw_message
frame_all-append_example =
    frame_all-append 1 2 3 9 (7 ∷ 0 ∷ 4 ∷ []) (9 ∷ 0 ∷ 0 ∷ 0 ∷ 24 ∷ []) ([], 7 ∷ 0 ∷ 4 ∷ [])
      (raw_message 9 7 login ∷ [], 24 ∷ []) (omega arith) refl refl

frame_all-zero_example : frame_all 1000 9 (0 ∷ 0 ∷ 1 ∷ []) ≡ out_of_fuel
unfolding header_length read_bytes
frame_all-zero_example = frame_all-zero 9 1000 (0 ∷ 0 ∷ 1 ∷ []) (omega arith) refl

-- Bytes with a message of length 0 behind a login.
frame_all-decided_example :
    ((r : Framed) × (frame_all 11 9 (login ++ (0 ∷ 0 ∷ 1 ∷ [])) ≡ done r))
    ⊎ (StuckAt (login ++ (0 ∷ 0 ∷ 1 ∷ []))
        × ((m : ℕ) → frame_all m 9 (login ++ (0 ∷ 0 ∷ 1 ∷ [])) ≡ out_of_fuel))
frame_all-decided_example = frame_all-decided 9 (login ++ (0 ∷ 0 ∷ 1 ∷ []))
