-- ===== src/Framing/Stream.antt =====
-- How a stream of bytes is cut does not depend on how it arrives.
use exchnage_simulator.Prelude.{
  ℕ, zero, suc, ◌+◌, ◌*◌, ◌⊎◌, subst, ◌≡◌, ◌≤◌, refl, sym, ap, ◌∙◌, true, false, Bool-cases, inl,
  inr, List, [], ◌∷◌, ◌++◌, ltb, ltb→le, done, ◌>>=◌, bind-done, done-injective, length,
  length-append, drop, take-append, drop-append, arith,
}
use exchnage_simulator.Wire.Bytes.{read_bytes}
use exchnage_simulator.Framing.{
  RawMessage, Framed, raw_message, header_length, push_raw, frame_all, max_raw_msg_size,
}

module _ (trader : ℕ) where
  -- The loop has stopped: the buffer is shorter than a header, or than the message that it begins.
  pub frame-stops :
      (n : ℕ) (buf : List ℕ)
      → (ltb (length buf) 3 ≡ true) ⊎ (ltb (length buf) (header_length buf) ≡ true)
      → frame_all (suc n) trader buf ≡ done ([], buf)
  unfolding frame_all
  frame-stops n buf (inl e) = rw (frame_all, e) refl
  frame-stops n buf (inr e) = elim (Bool-cases (ltb (length buf) 3)) [
    | inl k ↦ rw (frame_all, k) refl
    | inr k ↦ rw (frame_all, k, e) refl
  ]

  pub frame-goes :
      (n : ℕ) (buf : List ℕ)
      → ltb (length buf) 3 ≡ false
      → ltb (length buf) (header_length buf) ≡ false
      → frame_all (suc n) trader buf ≡ (
          frame_all n trader (drop (header_length buf) buf) >>= λ r.
          done (push_raw trader (header_length buf) buf r))
  unfolding frame_all
  frame-goes n buf e k = rw (frame_all, e, k) refl

  -- More fuel changes nothing.
  frame-more :
      (n m : ℕ) (buf : List ℕ) (r : Framed)
      → n ≤ m
      → frame_all n trader buf ≡ done r
      → frame_all m trader buf ≡ done r
  unfolding frame_all
  frame-more zero m buf r le e = cc
  frame-more (suc n) zero buf r le e = absurd (omega arith)
  frame-more (suc n) (suc m) buf r le e = elim (Bool-cases (ltb (length buf) 3)) [
    | inl a ↦ frame-stops m buf (inl a) ∙ sym (frame-stops n buf (inl a)) ∙ e
    | inr a ↦ elim (Bool-cases (ltb (length buf) (header_length buf))) [
      | inl b ↦ frame-stops m buf (inr b) ∙ sym (frame-stops n buf (inr b)) ∙ e
      | inr b ↦
          let (r', runs, at) =
            bind-done (frame_all n trader (drop (header_length buf) buf)) _ r
              (sym (frame-goes n buf a b) ∙ e) in
          frame-goes m buf a b
          ∙ ap (λ o. o >>= λ r. done (push_raw trader (header_length buf) buf r))
              (frame-more n m (drop (header_length buf) buf) r' (omega arith) runs)
          ∙ at
    ]
  ]

-- The first two bytes are the same when more follows.
read_bytes-append :
    (n : ℕ) (xs ys : List ℕ) → n ≤ length xs → (read_bytes n (xs ++ ys)).0 ≡ (read_bytes n xs).0
unfolding read_bytes
read_bytes-append zero xs ys le = refl
read_bytes-append (suc n) [] ys le = absurd (omega arith)
read_bytes-append (suc n) (x ∷ xs) ys le =
    ap (λ m. x + 256 * m) (read_bytes-append n xs ys (omega arith))

pub header_length-append :
    (xs ys : List ℕ) → ltb (length xs) 3 ≡ false → header_length (xs ++ ys) ≡ header_length xs
unfolding header_length
header_length-append xs ys e = read_bytes-append 2 xs ys (omega (arith, ltb→le (length xs) 3 e))

-- The messages of one buffer, put before those of the next one.
abbrev pub after : List RawMessage → Framed → Framed
after ms r = (ms ++ r.0, r.1)

push_raw-after :
    (trader l : ℕ) (buf more : List ℕ) (r r' : Framed)
    → l ≤ length buf
    → push_raw trader l (buf ++ more) (after r.0 r') ≡ after (push_raw trader l buf r).0 r'
unfolding raw_message
push_raw-after trader l buf more r r' le = elim (Bool-cases (ltb max_raw_msg_size l)) [
  | inl e ↦ rw e refl
  | inr e ↦ rw (e, take-append l buf more le) refl
]

push_raw-rest : (trader l : ℕ) (buf : List ℕ) (r : Framed) → (push_raw trader l buf r).1 ≡ r.1
push_raw-rest trader l buf r = elim (Bool-cases (ltb max_raw_msg_size l)) [
  | inl e ↦ rw e refl
  | inr e ↦ rw e refl
]

-- One round on a buffer to which more bytes have come.
pub goes-append :
    (trader m l : ℕ) (buf more : List ℕ)
    → header_length (buf ++ more) ≡ l
    → ltb (length buf) 3 ≡ false
    → ltb (length buf) l ≡ false
    → frame_all (suc m) trader (buf ++ more)
      ≡ (frame_all m trader (drop l buf ++ more) >>= λ r. done (push_raw trader l (buf ++ more) r))
goes-append trader m l buf more same a b =
    let longer = length-append buf more in
    let long : ltb (length (buf ++ more)) 3 ≡ false = ground (arith, longer) in
    let full : ltb (length (buf ++ more)) (header_length (buf ++ more)) ≡ false =
      ground (arith, longer, same) in
    frame-goes trader m (buf ++ more) long full
    ∙ ap
        (λ l. frame_all m trader (drop l (buf ++ more)) >>= λ r.
          done (push_raw trader l (buf ++ more) r))
        same
    ∙ ap (λ x. frame_all m trader x >>= λ r. done (push_raw trader l (buf ++ more) r))
        (drop-append l buf more (ltb→le _ _ b))

-- If the bytes `buf` are cut into messages with `rest` left over, and `rest` with the bytes `more`
-- that arrive later are cut as well, then `buf` and `more` that arrive at once give the same messages
-- in the same order and leave the same bytes over.
pub frame_all-append :
    (n k m trader : ℕ) (buf more : List ℕ) (r r' : Framed)
    → n + k ≤ m
    → frame_all n trader buf ≡ done r
    → frame_all k trader (r.1 ++ more) ≡ done r'
    → frame_all m trader (buf ++ more) ≡ done (after r.0 r')
unfolding frame_all
frame_all-append zero k m trader buf more r r' le e f = cc
frame_all-append (suc n) k zero trader buf more r r' le e f = absurd (omega arith)
frame_all-append (suc n) k (suc m) trader buf more r r' le e f =
    elim (Bool-cases (ltb (length buf) 3)) [
      | inl a ↦ stopped (inl a)
      | inr a ↦ elim (Bool-cases (ltb (length buf) (header_length buf))) [
        | inl b ↦ stopped (inr b)
        | inr b ↦
            let (s, runs, at) =
              bind-done (frame_all n trader (drop (header_length buf) buf)) _ r
                (sym (frame-goes trader n buf a b) ∙ e) in
            went a b s (done-injective at) (λ le f.
              frame_all-append n k m trader (drop (header_length buf) buf) more s r' le runs f)
      ]
    ]
  where
    l : ℕ
    l = header_length buf

    stopped :
        (ltb (length buf) 3 ≡ true) ⊎ (ltb (length buf) l ≡ true)
        → frame_all (suc m) trader (buf ++ more) ≡ done (after r.0 r')
    stopped c =
        let same : ([], buf) ≡ r = done-injective (sym (frame-stops trader n buf c) ∙ e) in
        subst (λ r. frame_all (suc m) trader (buf ++ more) ≡ done (after r.0 r')) same
          (frame-more trader k (suc m) (buf ++ more) r' (omega arith)
            (subst (λ r. frame_all k trader (r.1 ++ more) ≡ done r') (sym same) f))

    went :
        ltb (length buf) 3 ≡ false
        → ltb (length buf) l ≡ false
        → (s : Framed) → push_raw trader l buf s ≡ r
        → (n + k ≤ m
            → frame_all k trader (s.1 ++ more) ≡ done r'
            → frame_all m trader (drop l buf ++ more) ≡ done (after s.0 r'))
        → frame_all (suc m) trader (buf ++ more) ≡ done (after r.0 r')
    went a b s at by_rest =
        let left : r.1 ≡ s.1 = ap (λ (x : Framed). x.1) (sym at) ∙ push_raw-rest trader l buf s in
        let rest =
          by_rest (omega arith) (subst (λ x. frame_all k trader (x ++ more) ≡ done r') left f) in
        goes-append trader m l buf more (header_length-append buf more a) a b
        ∙ ap (λ o. o >>= λ r. done (push_raw trader l (buf ++ more) r)) rest
        ∙ ap done (push_raw-after trader l buf more s r' (ltb→le _ _ b) ∙ ap (λ x. after x.0 r') at)
