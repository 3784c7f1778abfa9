-- ===== src/Epoll/Turns.antt =====
-- The bytes that are still to come after one readable event.
use exchnage_simulator.Prelude.{
  ℕ, ◌≡◌, ◌≢◌, refl, sym, ap, ◌∙◌, subst, Bool-cases, ==→eq, ==→ne, inl, inr, some, List, [], ◌∷◌,
  ◌++◌, append-nil, append_assoc, All, ◌==◌, if◌then◌else◌, arith,
}
use exchnage_simulator.Sessions.{ClientSession, get_session}
use exchnage_simulator.Framing.Messages.{joined, raws, IsPartial}
use exchnage_simulator.Framing.Prefix.{Cut, cut}
use exchnage_simulator.Net.{Received}
use exchnage_simulator.Epoll.{EpollThread}
use exchnage_simulator.Epoll.Streams.{
  Batch, bytes_for, pushed_by, Carries, partial-joined, after_batch, now_live, still_live,
  itself_live,
}

abbrev pub HaveSessions : EpollThread → List Batch → Type 0
HaveSessions t = All (λ b. (s : ClientSession) × (get_session b.fd t.sessions ≡ some s))

pub some-injective : {s u : ClientSession} → some s ≡ some u → s ≡ u
some-injective e = cc

-- What the thread leaves: the messages of each session pushed in order, the part in its buffer.
pub record Served (t t' : EpollThread) (rest : List Received) (ms : ℕ → List (List ℕ))
    (part : ℕ → List ℕ) : Type 0 where
  pub inbox_left : t'.inbox ≡ rest
  pub each :
      (fd : ℕ) (s : ClientSession)
      → get_session fd t.sessions ≡ some s
      → (pushed_by s.trader_id t'.pushed
          ≡ pushed_by s.trader_id t.pushed ++ raws s.trader_id (ms fd))
        × (get_session fd t'.sessions ≡ some (record s { recv_buffer = part fd }))

pub Served-none :
    (t : EpollThread) (ms : ℕ → List (List ℕ)) (part : ℕ → List ℕ)
    → Carries t [] ms part
    → Served t t t.inbox ms part
unfolding joined
Served-none t ms part c = record {
  inbox_left = refl;
  each = λ fd s live.
      let (open_part, all) = c.streams fd s live in
      let same : s.recv_buffer ≡ joined (ms fd) (part fd) = sym (append-nil s.recv_buffer) ∙ all in
      let no_more : ms fd ≡ [] =
        partial-joined (ms fd) (part fd) (c.messages fd) (subst IsPartial same open_part) in
      (
        sym (append-nil _)
            ∙ ap (λ l. pushed_by s.trader_id t.pushed ++ raws s.trader_id l) (sym no_more),
        live
            ∙ ap (λ b. some (record s { recv_buffer = b }))
                (same ∙ ap (λ l. joined l (part fd)) no_more),
      );
}

module _ (b : Batch) (bs : List Batch) (fd : ℕ) where
  bytes_for_self : b.fd ≡ fd → bytes_for fd (b ∷ bs) ≡ joined b.chunks [] ++ bytes_for fd bs
  bytes_for_self e = ground arith

  bytes_for_other : b.fd ≢ fd → bytes_for fd (b ∷ bs) ≡ bytes_for fd bs
  bytes_for_other ne = ground arith

-- The messages that are still to come after a batch for `fd`.
abbrev pub later : ℕ → List (List ℕ) → (ℕ → List (List ℕ)) → ℕ → List (List ℕ)
later fd ahead ms j = if fd == j then ahead else ms j

module _ (fd : ℕ) (ahead : List (List ℕ)) (ms : ℕ → List (List ℕ)) where
  pub later_self : later fd ahead ms fd ≡ ahead
  later_self = ground arith

  pub later_other : (j : ℕ) → fd ≢ j → later fd ahead ms j ≡ ms j
  later_other j ne = ground arith

module _ (b : Batch) (bs : List Batch) (t : EpollThread) (s : ClientSession)
    (live : get_session b.fd t.sessions ≡ some s) (ms : ℕ → List (List ℕ)) (part : ℕ → List ℕ)
    (carries : Carries t (b ∷ bs) ms part) where
  pub first-Cut :
      Cut (ms b.fd) (part b.fd) (s.recv_buffer ++ joined b.chunks []) (bytes_for b.fd bs)
  first-Cut =
      cut (ms b.fd) (part b.fd) (s.recv_buffer ++ joined b.chunks []) (bytes_for b.fd bs)
        (carries.messages b.fd) (carries.parts b.fd)
        (append_assoc s.recv_buffer (joined b.chunks []) (bytes_for b.fd bs)
          ∙ ap (λ x. s.recv_buffer ++ x) (sym (bytes_for_self b bs b.fd refl))
          ∙ (carries.streams b.fd s live).1)

  module _ (c : Cut (ms b.fd) (part b.fd) (s.recv_buffer ++ joined b.chunks []) (bytes_for b.fd bs))
      (rest : List Received) where
    abbrev pub next : EpollThread
    next = after_batch b.fd s t live c.whole c.begun rest

    pub next-Carries : Carries next bs (later b.fd c.ahead ms) part
    next-Carries = record {
      messages = λ j. elim (Bool-cases (b.fd == j)) [
        | inl e ↦ rw e c.ahead_all
        | inr e ↦ rw e (carries.messages j)
      ];
      parts = carries.parts;
      streams = λ j u at. elim (now_live b.fd s t live c.whole c.begun rest j u at) [
        | inl (a, x) ↦
            subst
              (λ (v : ClientSession).
                IsPartial v.recv_buffer
                × (v.recv_buffer ++ bytes_for j bs ≡ joined (later b.fd c.ahead ms j) (part j)))
              x
              (
                c.partial,
                subst (λ k. c.begun ++ bytes_for k bs ≡ joined (later b.fd c.ahead ms k) (part k)) a
                    (c.there ∙ ap (λ l. joined l (part b.fd)) (sym (later_self b.fd c.ahead ms))),
              )
        | inr (ne, at) ↦
            let (open_part, all) = carries.streams j u at in
            (
              open_part,
              ap (λ x. u.recv_buffer ++ x) (sym (bytes_for_other b bs j ne))
                  ∙ all
                  ∙ ap (λ l. joined l (part j)) (sym (later_other b.fd c.ahead ms j ne)),
            )
      ];
    }

    pub next-HaveSessions : (bs' : List Batch) → HaveSessions t bs' → HaveSessions next bs'
    next-HaveSessions [] h = tt
    next-HaveSessions (d ∷ ds) ((u, at), h) = (
      elim (Bool-cases (b.fd == d.fd)) [
        | inl e ↦ (
          record s { recv_buffer = c.begun },
          subst (λ k. get_session k next.sessions ≡ some (record s { recv_buffer = c.begun }))
              (==→eq _ _ e) (itself_live b.fd s t live c.whole c.begun rest),
        )
        | inr e ↦ (u, still_live b.fd s t live c.whole c.begun rest d.fd u (==→ne _ _ e) at)
      ],
      next-HaveSessions ds h,
    )
