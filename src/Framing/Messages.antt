-- ===== src/Framing/Messages.antt =====
-- A stream of whole messages, and a message that says it has no bytes.
use exchnage_simulator.Prelude.{
  ℕ, zero, suc, ◌≡◌, ◌≤◌, ◌<◌, ◌⊎◌, refl, ap, ◌∙◌, true, false, List, [], ◌∷◌, ◌++◌, map, All,
  length, ltb, done, out_of_fuel, ◌>>=◌, drop, take-append, arith,
}
use exchnage_simulator.Framing.{
  RawMessage, Framed, raw_message, header_length, push_raw, frame_all, max_raw_msg_size,
}
use exchnage_simulator.Framing.Stream.{frame-stops, frame-goes, header_length-append, goes-append}

-- A message whose header tells its length, which is at most what the queue can carry.
pub record IsMessage (m : List ℕ) : Type 0 where
  pub whole : header_length m ≡ length m
  pub header : 3 ≤ length m
  pub fits : length m ≤ max_raw_msg_size

unfoldable pub joined : List (List ℕ) → List ℕ → List ℕ
joined [] rest = rest
joined (m ∷ ms) rest = m ++ joined ms rest

-- The bytes are less than a header, or less than the message that they begin.
abbrev pub IsPartial : List ℕ → Type 0
IsPartial buf = (ltb (length buf) 3 ≡ true) ⊎ (ltb (length buf) (header_length buf) ≡ true)

drop_all : (xs : List ℕ) → drop (length xs) xs ≡ []
unfolding drop
drop_all [] = refl
drop_all (x ∷ xs) = drop_all xs

module _ (trader : ℕ) where
  abbrev pub raws : List (List ℕ) → List RawMessage
  raws ms = map (λ m. raw_message trader (length m) m) ms

  push_whole :
      (m more : List ℕ) (r : Framed)
      → IsMessage m
      → push_raw trader (length m) (m ++ more) r ≡ (raw_message trader (length m) m ∷ r.0, r.1)
  unfolding raw_message
  push_whole m more r h =
      let small : ltb max_raw_msg_size (length m) ≡ false = ground (arith, h.fits) in
      rw (small, take-append (length m) m more (omega arith)) refl

  frame-message :
      (n : ℕ) (m more : List ℕ) (r : Framed)
      → IsMessage m
      → frame_all n trader more ≡ done r
      → frame_all (suc n) trader (m ++ more) ≡ done (raw_message trader (length m) m ∷ r.0, r.1)
  frame-message n m more r h runs =
      let long : ltb (length m) 3 ≡ false = ground (arith, h.header) in
      let full : ltb (length m) (length m) ≡ false = ground arith in
      goes-append trader n (length m) m more (header_length-append m more long ∙ h.whole) long full
      ∙ ap
          (λ x.
            frame_all n trader (x ++ more) >>= λ r. done (push_raw trader (length m) (m ++ more) r))
          (drop_all m)
      ∙ ap (λ o. o >>= λ r. done (push_raw trader (length m) (m ++ more) r)) runs
      ∙ ap done (push_whole m more r h)

-- Whole messages, followed by a part of the next one, are pushed as they are and in their order, and
-- the part stays in the buffer; one round more than there are messages is enough.
pub frame_all-messages :
    (trader n : ℕ) (ms : List (List ℕ)) (rest : List ℕ)
    → All IsMessage ms
    → IsPartial rest
    → length ms < n
    → frame_all n trader (joined ms rest) ≡ done (raws trader ms, rest)
unfolding joined
frame_all-messages trader zero ms rest h p lt = absurd (omega arith)
frame_all-messages trader (suc n) [] rest h p lt = frame-stops trader n rest p
frame_all-messages trader (suc n) (m ∷ ms) rest h p lt =
    frame-message trader n m (joined ms rest) (raws trader ms, rest) h.0
      (frame_all-messages trader n ms rest h.1 p (omega arith))

-- A header that says length 0, with at least a header's bytes in the buffer: no number of rounds ends
-- the loop, since a round takes nothing off the buffer.
pub frame_all-zero :
    (trader n : ℕ) (buf : List ℕ)
    → 3 ≤ length buf
    → header_length buf ≡ 0
    → frame_all n trader buf ≡ out_of_fuel
unfolding frame_all drop
frame_all-zero trader zero buf le z = refl
frame_all-zero trader (suc n) buf le z =
    let long : ltb (length buf) 3 ≡ false = ground arith in
    let full : ltb (length buf) (header_length buf) ≡ false = ground (arith, z) in
    frame-goes trader n buf long full
    ∙ ap (λ l. frame_all n trader (drop l buf) >>= λ r. done (push_raw trader l buf r)) z
    ∙ ap (λ o. o >>= λ r. done (push_raw trader 0 buf r)) (frame_all-zero trader n buf le z)
