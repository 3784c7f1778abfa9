-- ===== src/Framing/Decided.antt =====
-- One round for each byte decides whether the loop ends.
use exchnage_simulator.Prelude.{
  ℕ, zero, suc, ◌+◌, ◌≡◌, ◌≤◌, ◌<◌, ◌⊎◌, refl, ap, ◌∙◌, false, Bool-cases, inl, inr, List, [], ◌∷◌,
  length, ltb, ltb→le, ◌==◌, ==→eq, ==→ne, drop, done, out_of_fuel, ◌>>=◌, arith,
}
use exchnage_simulator.Framing.{Framed, header_length, push_raw, frame_all}
use exchnage_simulator.Framing.Stream.{frame-stops, frame-goes}
use exchnage_simulator.Framing.Messages.{frame_all-zero}

length-drop :
    {A : Type 0} (n : ℕ) (xs : List A) → n ≤ length xs → length (drop n xs) + n ≡ length xs
unfolding drop
length-drop zero xs le = omega arith
length-drop (suc n) [] le = absurd (omega arith)
length-drop (suc n) (x ∷ xs) le = omega (arith, length-drop n xs (omega arith))

-- Whole messages, one behind the other, and then a header that says length 0.
pub data StuckAt : List ℕ → Type 0 where
  zero_header : {buf : List ℕ} → 3 ≤ length buf → header_length buf ≡ 0 → StuckAt buf
  behind_message :
      {buf : List ℕ}
      → 3 ≤ length buf
      → header_length buf ≤ length buf
      → StuckAt (drop (header_length buf) buf)
      → StuckAt buf

abbrev Decided : ℕ → ℕ → List ℕ → Type 0
Decided n trader buf =
    ((r : Framed) × (frame_all n trader buf ≡ done r))
    ⊎ (StuckAt buf × ((m : ℕ) → frame_all m trader buf ≡ out_of_fuel))

module _ (trader : ℕ) where
  -- A round that goes on is decided as what is left is.
  goes-Decided :
      (n : ℕ) (buf : List ℕ)
      → ltb (length buf) 3 ≡ false
      → ltb (length buf) (header_length buf) ≡ false
      → Decided n trader (drop (header_length buf) buf)
      → Decided (suc n) trader buf
  unfolding frame_all
  goes-Decided n buf a b (inl (r, runs)) = inl (
    push_raw trader (header_length buf) buf r,
    frame-goes trader n buf a b
        ∙ ap (λ o. o >>= λ r. done (push_raw trader (header_length buf) buf r)) runs,
  )
  goes-Decided n buf a b (inr (at, never)) =
      inr (behind_message (ltb→le _ _ a) (ltb→le _ _ b) at, endless)
    where
      endless : (m : ℕ) → frame_all m trader buf ≡ out_of_fuel
      endless zero = refl
      endless (suc m) =
          frame-goes trader m buf a b
          ∙ ap (λ o. o >>= λ r. done (push_raw trader (header_length buf) buf r)) (never m)

  frame_all-Decided : (n : ℕ) (buf : List ℕ) → length buf < n → Decided n trader buf
  frame_all-Decided zero buf lt = absurd (omega arith)
  frame_all-Decided (suc n) buf lt = elim (Bool-cases (ltb (length buf) 3)) [
    | inl a ↦ inl (([], buf), frame-stops trader n buf (inl a))
    | inr a ↦ elim (Bool-cases (ltb (length buf) (header_length buf))) [
      | inl b ↦ inl (([], buf), frame-stops trader n buf (inr b))
      | inr b ↦ elim (Bool-cases (header_length buf == 0)) [
        | inl z ↦ inr (
          zero_header (ltb→le _ _ a) (==→eq _ _ z),
          λ m. frame_all-zero trader m buf (ltb→le _ _ a) (==→eq _ _ z),
        )
        | inr z ↦ goes-Decided n buf a b (
            frame_all-Decided n (drop (header_length buf) buf)
              (omega (arith, length-drop (header_length buf) buf (ltb→le _ _ b), ==→ne _ _ z)))
      ]
    ]
  ]

-- On any bytes, the framing loop ends within one round more than there are bytes, unless the bytes are
-- whole messages, of any length, with a header behind them that says length 0: then it never ends.
pub frame_all-decided :
    (trader : ℕ) (buf : List ℕ)
    → ((r : Framed) × (frame_all (suc (length buf)) trader buf ≡ done r))
      ⊎ (StuckAt buf × ((m : ℕ) → frame_all m trader buf ≡ out_of_fuel))
frame_all-decided trader buf = frame_all-Decided trader (suc (length buf)) buf (omega arith)
