-- ===== src/Framing/Prefix.antt =====
-- The first bytes of a stream of messages are whole messages and a part of the next one.
use exchnage_simulator.Prelude.{
  ℕ, ◌≡◌, ◌≤◌, ◌<◌, refl, sym, ap, ◌∙◌, Bool-cases, inl, inr, List, [], ◌∷◌, ◌++◌, All, length,
  length-append, ltb, ltb→le, ltb→lt, lt→ltb, take, drop, take-append, drop-append, take-length,
  drop-length, take-drop, arith,
}
use exchnage_simulator.Framing.{header_length}
use exchnage_simulator.Framing.Stream.{header_length-append}
use exchnage_simulator.Framing.Messages.{IsMessage, IsPartial, joined}

-- The bytes `buf` of `ms` and `part`, which `more` completes.
pub record Cut (ms : List (List ℕ)) (part buf more : List ℕ) : Type 0 where
  pub whole : List (List ℕ)
  pub ahead : List (List ℕ)
  pub begun : List ℕ
  pub split : ms ≡ whole ++ ahead
  pub here : buf ≡ joined whole begun
  pub there : begun ++ more ≡ joined ahead part
  pub partial : IsPartial begun
  pub whole_all : All IsMessage whole
  pub ahead_all : All IsMessage ahead

-- Bytes that begin a message of a length that they do not reach.
short-IsPartial : (buf more : List ℕ) → length buf < header_length (buf ++ more) → IsPartial buf
short-IsPartial buf more lt = elim (Bool-cases (ltb (length buf) 3)) [
  | inl e ↦ inl e
  | inr e ↦ inr (lt→ltb _ _ (rw (← header_length-append buf more e) lt))
]

-- Less than what a part needs is less than what its own header needs.
prefix-IsPartial : (buf more : List ℕ) → IsPartial (buf ++ more) → IsPartial buf
prefix-IsPartial buf more (inl e) = inl (ground (arith, e, length-append buf more))
prefix-IsPartial buf more (inr e) =
    short-IsPartial buf more (omega (arith, ltb→lt _ _ e, length-append buf more))

begins :
    (m buf more rest : List ℕ)
    → length m ≤ length buf
    → buf ++ more ≡ m ++ rest
    → (buf ≡ m ++ drop (length m) buf) × (drop (length m) buf ++ more ≡ rest)
begins m buf more rest le e =
    let front : take (length m) buf ≡ m =
      sym (take-append (length m) buf more le) ∙ ap (take (length m)) e ∙ take-length m rest in
    (
      sym (take-drop (length m) buf) ∙ ap (λ x. x ++ drop (length m) buf) front,
      sym (drop-append (length m) buf more le) ∙ ap (drop (length m)) e ∙ drop-length m rest,
    )

-- Wherever a stream of whole messages and a part is cut, the bytes before the cut are whole messages
-- and a part.
pub cut :
    (ms : List (List ℕ)) (part buf more : List ℕ)
    → All IsMessage ms
    → IsPartial part
    → buf ++ more ≡ joined ms part
    → Cut ms part buf more
unfolding joined
cut [] part buf more h p e = record {
  whole = [];
  ahead = [];
  begun = buf;
  split = refl;
  here = refl;
  there = e;
  partial = prefix-IsPartial buf more (rw e p);
  whole_all = tt;
  ahead_all = tt;
}
cut (m ∷ ms) part buf more h p e = elim (Bool-cases (ltb (length buf) (length m))) [
  | inl lt ↦ record {
    whole = [];
    ahead = m ∷ ms;
    begun = buf;
    split = refl;
    here = refl;
    there = e;
    partial = short-IsPartial buf more (rw (e, length_first) (ltb→lt _ _ lt));
    whole_all = tt;
    ahead_all = h;
  }
  | inr ge ↦
      let (front, back) = begins m buf more (joined ms part) (ltb→le _ _ ge) e in
      let c = cut ms part (drop (length m) buf) more h.1 p back in
      record {
        whole = m ∷ c.whole;
        ahead = c.ahead;
        begun = c.begun;
        split = ap (λ l. m ∷ l) c.split;
        here = front ∙ ap (λ x. m ++ x) c.here;
        there = c.there;
        partial = c.partial;
        whole_all = (h.0, c.whole_all);
        ahead_all = c.ahead_all;
      }
]
  where
    length_first : header_length (m ++ joined ms part) ≡ length m
    length_first = header_length-append m (joined ms part) (ground (arith, h.0.header)) ∙ h.0.whole
