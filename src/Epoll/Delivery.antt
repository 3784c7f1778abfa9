-- ===== src/Epoll/Delivery.antt =====
-- What comes of the streams of several sessions whose bytes arrive in turns.
use exchnage_simulator.Prelude.{
  ℕ, ◌≡◌, ◌≢◌, refl, sym, ap, ◌∙◌, subst, Bool-cases, ==→eq, ==→ne, inl, inr, some, List, [], ◌∷◌,
  ◌++◌, map, append-nil, append_assoc, ◌==◌, done, ◌>>=◌,
}
use exchnage_simulator.Sessions.{ClientSession, SessionManager, get_session}
use exchnage_simulator.Sessions.Inverse.{IsPaired}
use exchnage_simulator.Framing.Messages.{joined, raws}
use exchnage_simulator.Framing.Prefix.{Cut}
use exchnage_simulator.Net.{Received}
use exchnage_simulator.Epoll.{
  EpollThread, on_data, on_disconnect, dispatch_all, dispatch_event, call_back,
}
use exchnage_simulator.Epoll.Streams.{
  Batch, readable_event, inbox_of, bytes_for, pushed_by, pushed_by-append, pushed_by-raws,
  pushed_by-raws_other, raws-append, AreTraders, Carries, on_data-batch, still_live, itself_live,
  after_batch-AreTraders,
}
use exchnage_simulator.Epoll.Turns.{
  HaveSessions, Served, Served-none, some-injective, later, later_self, later_other, first-Cut,
  next, next-Carries, next-HaveSessions,
}

module _ (b : Batch) (bs : List Batch) (t : EpollThread) (s : ClientSession)
    (live : get_session b.fd t.sessions ≡ some s) (ms : ℕ → List (List ℕ)) (part : ℕ → List ℕ)
    (carries : Carries t (b ∷ bs) ms part)
    (c : Cut (ms b.fd) (part b.fd) (s.recv_buffer ++ joined b.chunks []) (bytes_for b.fd bs))
    (rest : List Received) where
  next-Served :
      (t' : EpollThread) (left : List Received)
      → AreTraders t.sessions
      → Served (next b bs t s live ms part carries c rest) t' left (later b.fd c.ahead ms) part
      → Served t t' left ms part
  next-Served t' left traders served = record {
    inbox_left = served.inbox_left;
    each = λ j u at. elim (Bool-cases (b.fd == j)) [
      | inl e ↦ by_self j u at (==→eq _ _ e)
      | inr e ↦ by_other j u at (==→ne _ _ e)
    ];
  }
    where
      self :
          (pushed_by s.trader_id t'.pushed
            ≡ pushed_by s.trader_id t.pushed ++ raws s.trader_id (ms b.fd))
          × (get_session b.fd t'.sessions ≡ some (record s { recv_buffer = part b.fd }))
      self =
          let (all, at) =
            served.each b.fd (record s { recv_buffer = c.begun })
              (itself_live b.fd s t live c.whole c.begun rest) in
          (
            all
                ∙ ap (λ l. l ++ raws s.trader_id (later b.fd c.ahead ms b.fd))
                    (pushed_by-append s.trader_id t.pushed (raws s.trader_id c.whole)
                      ∙ ap (λ l. pushed_by s.trader_id t.pushed ++ l)
                          (pushed_by-raws s.trader_id c.whole))
                ∙ append_assoc (pushed_by s.trader_id t.pushed) (raws s.trader_id c.whole)
                    (raws s.trader_id (later b.fd c.ahead ms b.fd))
                ∙ ap (λ l. pushed_by s.trader_id t.pushed ++ l)
                    (ap (λ l. raws s.trader_id c.whole ++ raws s.trader_id l)
                        (later_self b.fd c.ahead ms)
                      ∙ sym (raws-append s.trader_id c.whole c.ahead)
                      ∙ ap (raws s.trader_id) (sym c.split)),
            at,
          )

      by_self :
          (j : ℕ) (u : ClientSession)
          → get_session j t.sessions ≡ some u
          → b.fd ≡ j
          → (pushed_by u.trader_id t'.pushed
              ≡ pushed_by u.trader_id t.pushed ++ raws u.trader_id (ms j))
            × (get_session j t'.sessions ≡ some (record u { recv_buffer = part j }))
      by_self j u at e =
          subst
            (λ k.
              get_session k t.sessions ≡ some u
              → (pushed_by u.trader_id t'.pushed
                  ≡ pushed_by u.trader_id t.pushed ++ raws u.trader_id (ms k))
                × (get_session k t'.sessions ≡ some (record u { recv_buffer = part k })))
            e
            (λ here.
              subst
                (λ (v : ClientSession).
                  (pushed_by v.trader_id t'.pushed
                    ≡ pushed_by v.trader_id t.pushed ++ raws v.trader_id (ms b.fd))
                  × (get_session b.fd t'.sessions ≡ some (record v { recv_buffer = part b.fd })))
                (some-injective (sym live ∙ here)) self)
            at

      by_other :
          (j : ℕ) (u : ClientSession)
          → get_session j t.sessions ≡ some u
          → b.fd ≢ j
          → (pushed_by u.trader_id t'.pushed
              ≡ pushed_by u.trader_id t.pushed ++ raws u.trader_id (ms j))
            × (get_session j t'.sessions ≡ some (record u { recv_buffer = part j }))
      by_other j u at ne =
          let (all, there) =
            served.each j u (still_live b.fd s t live c.whole c.begun rest j u ne at) in
          let none_of_it =
            pushed_by-raws_other s.trader_id u.trader_id c.whole
              (λ same. ne (traders b.fd j s u live at same)) in
          (
            all
                ∙ ap (λ l. l ++ raws u.trader_id (later b.fd c.ahead ms j))
                    (pushed_by-append u.trader_id t.pushed (raws s.trader_id c.whole)
                      ∙ ap (λ l. pushed_by u.trader_id t.pushed ++ l) none_of_it
                      ∙ append-nil (pushed_by u.trader_id t.pushed))
                ∙ ap (λ l. pushed_by u.trader_id t.pushed ++ raws u.trader_id l)
                    (later_other b.fd c.ahead ms j ne),
            there,
          )

dispatch_all-Served :
    (bs : List Batch) (t : EpollThread) (rest : List Received) (ms : ℕ → List (List ℕ))
    (part : ℕ → List ℕ)
    → AreTraders t.sessions
    → HaveSessions t bs
    → t.inbox ≡ inbox_of bs rest
    → Carries t bs ms part
    → (t' : EpollThread) × (dispatch_all
          (some on_data)
          (some on_disconnect)
          (map readable_event bs)
          t
        ≡ done t')
      × Served t t' rest ms part
unfolding dispatch_all dispatch_event call_back
dispatch_all-Served [] t rest ms part traders have inbox c =
    (t, refl, subst (λ r. Served t t r ms part) inbox (Served-none t ms part c))
dispatch_all-Served (b ∷ bs) t rest ms part traders ((s, live), have) inbox c =
    let cut_here = first-Cut b bs t s live ms part c in
    let later_box = inbox_of bs rest in
    let (t', runs, served) =
      dispatch_all-Served bs (next b bs t s live ms part c cut_here later_box) rest
        (later b.fd cut_here.ahead ms) part
        (after_batch-AreTraders b.fd s t live cut_here.whole cut_here.begun later_box traders)
        (next-HaveSessions b bs t s live ms part c cut_here later_box bs have) refl
        (next-Carries b bs t s live ms part c cut_here later_box) in
    (
      t',
      ap (λ o. o >>= dispatch_all (some on_data) (some on_disconnect) (map readable_event bs))
            (on_data-batch b.fd s t live b.chunks (ms b.fd) (part b.fd) (bytes_for b.fd bs)
              later_box inbox cut_here)
          ∙ runs,
      next-Served b bs t s live ms part c cut_here later_box t' rest traders served,
    )

-- No two sessions have the same trader.
IsPaired-AreTraders : (m : SessionManager) → IsPaired m → AreTraders m
unfolding get_session
IsPaired-AreTraders m h fd gd s u live live' same =
    some-eq (sym (h.found fd s live) ∙ ap m.trader_to_fd same ∙ h.found gd u live')
  where
    some-eq : some fd ≡ some gd → fd ≡ gd
    some-eq e = cc

-- Let the two session maps be paired, let the buffer of each session with the bytes that arrive for
-- it be whole messages `ms` and a part, and let every descriptor that becomes readable have a session.
-- Then the loop over the events returns, whatever the order of the events and however the bytes are
-- divided; for each session, its messages are pushed behind those that were pushed before, each once
-- and in order, and the part is what is left in its buffer.
pub dispatch_all-streams :
    (bs : List Batch) (t : EpollThread) (rest : List Received) (ms : ℕ → List (List ℕ))
    (part : ℕ → List ℕ)
    → IsPaired t.sessions
    → HaveSessions t bs
    → t.inbox ≡ inbox_of bs rest
    → Carries t bs ms part
    → (t' : EpollThread) × (dispatch_all
          (some on_data)
          (some on_disconnect)
          (map readable_event bs)
          t
        ≡ done t')
      × Served t t' rest ms part
dispatch_all-streams bs t rest ms part paired =
    dispatch_all-Served bs t rest ms part (IsPaired-AreTraders t.sessions paired)
