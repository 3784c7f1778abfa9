-- ===== src/Sessions/Inverse.antt =====
-- The two maps belong together as long as no trader logs in twice and no descriptor is in use twice.
use exchnage_simulator.Prelude.{
  ℕ, ◌≡◌, ◌≢◌, refl, ◌∙◌, inl, inr, Option, none, some, insert-cases, insert_self, insert_ne,
  erase-some, erase_ne, erase, empty_map, arith, [],
}
use exchnage_simulator.Sessions.{
  ClientSession, SessionManager, new_sessions, add, remove, get_session, get_trader_id, get_fd,
}

-- A session is filed under its descriptor and found by its trader, and a trader that has a descriptor
-- has the session there.
pub record IsPaired (m : SessionManager) : Type 0 where
  pub filed : (fd : ℕ) (s : ClientSession) → m.sessions fd ≡ some s → s.fd ≡ fd
  pub found :
      (fd : ℕ) (s : ClientSession) → m.sessions fd ≡ some s → m.trader_to_fd s.trader_id ≡ some fd
  pub backed :
      (t fd : ℕ)
      → m.trader_to_fd t ≡ some fd
      → (s : ClientSession) × (m.sessions fd ≡ some s) × (s.trader_id ≡ t)

pub new_sessions-IsPaired : IsPaired new_sessions
unfolding new_sessions empty_map
new_sessions-IsPaired = record { filed = λ fd s e. cc; found = λ fd s e. cc; backed = λ t fd e. cc }

module _ (fd trader : ℕ) (m : SessionManager) (h : IsPaired m) where
  -- If the two maps are paired, `add` of a descriptor without a session and a trader without a
  -- descriptor keeps them paired.
  pub add-IsPaired :
      m.sessions fd ≡ none → m.trader_to_fd trader ≡ none → IsPaired (add fd trader m)
  unfolding add
  add-IsPaired free new = record {
    filed = λ d s e. elim (insert-cases fd d _ s m.sessions e) [
      | inl (k, at) ↦ rw (← at) k
      | inr (k, at) ↦ h.filed d s at
    ];
    found = λ d s e. elim (insert-cases fd d _ s m.sessions e) [
      | inl (k, at) ↦ rw (← at, ← k) (insert_self trader fd m.trader_to_fd)
      | inr (k, at) ↦
          insert_ne trader s.trader_id fd m.trader_to_fd (λ q. cc (h.found d s at)) ∙ h.found d s at
    ];
    backed = λ t d e. elim (insert-cases trader t fd d m.trader_to_fd e) [
      | inl (k, at) ↦ (
        record { fd = fd; trader_id = trader; recv_buffer = [] },
        rw (← at) (insert_self fd _ m.sessions),
        k,
      )
      | inr (k, at) ↦
          let (s, live, own) = h.backed t d at in
          (s, insert_ne fd d _ m.sessions (λ q. cc) ∙ live, own)
    ];
  }

module _ (fd : ℕ) (m : SessionManager) (h : IsPaired m) where
  removed :
      (s : ClientSession)
      → m.sessions fd ≡ some s
      → IsPaired (record {
        sessions = erase fd m.sessions;
        trader_to_fd = erase s.trader_id m.trader_to_fd;
      })
  removed s live = record {
    filed = λ d x e. h.filed d x (erase-some fd d x m.sessions e).1;
    found = λ d x e.
        let (ne, at) = erase-some fd d x m.sessions e in
        erase_ne s.trader_id x.trader_id m.trader_to_fd (λ q. other d x ne at q) ∙ h.found d x at;
    backed = λ t d e.
        let (ne, at) = erase-some s.trader_id t d m.trader_to_fd e in
        let (x, there, own) = h.backed t d at in
        (x, erase_ne fd d m.sessions (λ q. same t x own ne there q) ∙ there, own);
  }
    where
      other :
          (d : ℕ) (x : ClientSession) → fd ≢ d → m.sessions d ≡ some x → s.trader_id ≢ x.trader_id
      other d x ne at q = ne (ground (arith, h.found d x at, h.found fd s live))

      same :
          (t : ℕ) (x : ClientSession) {d : ℕ}
          → x.trader_id ≡ t
          → s.trader_id ≢ t
          → m.sessions d ≡ some x
          → fd ≢ d
      same t x own ne there q = ground (arith, live)

  -- If the two maps are paired, `remove` keeps them paired, whether or not there is a session.
  pub remove-IsPaired : IsPaired (remove fd m)
  unfolding remove
  remove-IsPaired = by_session (m.sessions fd) refl
    where
      by_session :
          (o : Option ClientSession)
          → m.sessions fd ≡ o
          → IsPaired (elim o [
            | none ↦ m
            | some s ↦ record {
              sessions = erase fd m.sessions;
              trader_to_fd = erase s.trader_id m.trader_to_fd;
            }
          ])
      by_session none e = h
      by_session (some s) e = removed s e

-- In paired maps, the descriptor of a trader leads back to the trader, and a session's trader leads
-- back to the session's descriptor.
pub get_fd-get_trader_id :
    (m : SessionManager)
    → IsPaired m
    → ((t fd : ℕ) → get_fd t m ≡ some fd → get_trader_id fd m ≡ t)
      × ((fd : ℕ) (s : ClientSession)
          → get_session fd m ≡ some s
          → get_fd (get_trader_id fd m) m ≡ some fd)
unfolding get_fd get_trader_id get_session
get_fd-get_trader_id m h = (
  λ t fd e. let (s, live, own) = h.backed t fd e in rw (get_trader_id, live) own,
  λ fd s e. by_live fd (m.sessions fd) refl s e,
)
  where
    by_live :
        (fd : ℕ) (o : Option ClientSession)
        → m.sessions fd ≡ o
        → (s : ClientSession) → o ≡ some s
        → m.trader_to_fd (elim o [ none ↦ 0 | some s ↦ s.trader_id ]) ≡ some fd
    by_live fd none at s e = cc
    by_live fd (some x) at s e = h.found fd x at
