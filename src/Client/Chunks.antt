-- ===== src/Client/Chunks.antt =====
-- A message that comes in pieces is received whole.
use exchnage_simulator.Prelude.{
  ℕ, zero, suc, ◌+◌, ◌-◌, ◌≡◌, ◌≤◌, ◌<◌, refl, sym, ap, ◌∙◌, true, List, [], ◌∷◌, ◌++◌, map,
  append-nil, All, length, length-append, drop, ltb, leb, ◌&&◌, done, ◌>>=◌, arith,
}
use exchnage_simulator.Net.{Received, received}
use exchnage_simulator.Framing.Messages.{joined}
use exchnage_simulator.Wire.{MsgHeader, header_bytes, read_header}
use exchnage_simulator.Wire.Bytes.{to_bytes}
use exchnage_simulator.Wire.Roundtrip.{IsHeader, read_header-bytes}
use exchnage_simulator.Client.Session.{Client, recv_bytes}
use exchnage_simulator.Client.Arrivals.{body_size, recv_body, on_message, recv_round}

-- `recv` gives at least one byte, and no more than are asked for.
pub record Pieces (bs : List ℕ) : Type 0 where
  pub chunks : List (List ℕ)
  pub some_bytes : All (λ c. 0 < length c) chunks
  pub whole : joined chunks [] ≡ bs

recv_bytes-joined :
    (n : ℕ) (chunks : List (List ℕ)) (rest : List Received)
    → All (λ c. 0 < length c) chunks
    → length (joined chunks []) ≡ n
    → recv_bytes n (map received chunks ++ rest) ≡ done (true, joined chunks [], rest)
unfolding recv_bytes joined
recv_bytes-joined zero [] rest h e = refl
recv_bytes-joined zero (c ∷ cs) rest h e =
    absurd (omega (arith, h.0, length-append c (joined cs [])))
recv_bytes-joined (suc n) [] rest h e = absurd (omega arith)
recv_bytes-joined (suc n) (c ∷ cs) rest h e =
    ap (λ o. o >>= λ (ok, more, rest). done (ok, c ++ more, rest))
      (recv_bytes-joined (suc n - length c) cs rest h.1
        (omega (arith, length-append c (joined cs []))))

pub recv_bytes-Pieces :
    (bs : List ℕ) (rest : List Received) (p : Pieces bs)
    → recv_bytes (length bs) (map received p.chunks ++ rest) ≡ done (true, bs, rest)
recv_bytes-Pieces bs rest p =
    recv_bytes-joined (length bs) p.chunks rest p.some_bytes (ap length p.whole)
    ∙ ap (λ x. done (true, x, rest)) p.whole

-- One round on a message whose length fits `body`.
module _ (h : MsgHeader) (body stack : List ℕ) (rest : List Received) (c : Client) where
  body_size_lem : h.length ≡ 3 + length body → length body ≤ 256 → body_size h ≡ length body
  unfolding body_size
  body_size_lem e le = rw e (omega (arith, le))

  recv_body-Pieces :
      (p : Pieces body)
      → 0 < length body
      → length body ≤ 256
      → recv_body (length body) stack (map received p.chunks ++ rest) c
        ≡ done (body ++ drop (length body) stack, c, rest)
  unfolding recv_body
  recv_body-Pieces p pos le =
      let fits : (ltb 0 (length body) && leb (length body) 256) ≡ true = ground arith in
      rw (fits, recv_bytes-Pieces body rest p) refl

  pub recv_round-Pieces :
      (hp : Pieces (header_bytes h)) (bp : Pieces body)
      → IsHeader h
      → h.length ≡ 3 + length body
      → 0 < length body
      → length body ≤ 256
      → recv_round stack (map received hp.chunks ++ (map received bp.chunks ++ rest)) c
        ≡ done (on_message h h.type (body ++ drop (length body) stack) c, rest)
  unfolding recv_round header_bytes to_bytes
  recv_round-Pieces hp bp is e pos le =
      let head : (read_header (header_bytes h)).0 ≡ h =
        ap (λ x. (read_header x).0) (sym (append-nil (header_bytes h)))
        ∙ ap (λ (r : MsgHeader × List ℕ). r.0) (read_header-bytes h [] is) in
      let came : recv_bytes 3 (map received hp.chunks ++ (map received bp.chunks ++ rest))
          ≡ done (true, header_bytes h, map received bp.chunks ++ rest) =
        recv_bytes-Pieces (header_bytes h) (map received bp.chunks ++ rest) hp in
      rw (recv_round, came, head, body_size_lem e le, recv_body-Pieces bp pos le) refl
