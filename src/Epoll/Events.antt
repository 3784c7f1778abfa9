-- ===== src/Epoll/Events.antt =====
-- What holds after every event: the two session maps stay paired, and nothing that was pushed is lost.
use exchnage_simulator.Prelude.{
  ℕ, suc, ◌≡◌, refl, sym, ap, ◌∙◌, subst, Bool, true, false, Bool-cases, ◌||◌, inl, inr, Option,
  none, some, List, [], ◌∷◌, ◌++◌, append-nil, append_assoc, length, insert-cases, insert_self,
  insert_ne, Outcome, done, bind-done, done-injective, deref-done, if◌then◌else◌, ◌==◌, ==→eq,
  ==→ne, ◌>>=◌, deref,
}
use exchnage_simulator.Sessions.{ClientSession, SessionManager, get_session}
use exchnage_simulator.Sessions.Inverse.{IsPaired, remove-IsPaired}
use exchnage_simulator.Framing.{RawMessage, frame_all}
use exchnage_simulator.Net.{Received, received, end_of_stream, recv_error}
use exchnage_simulator.Epoll.{
  EpollThread, put_session, is_failure, drop_client, append_received, receive_all, frame_session,
  on_data, on_disconnect, Event, dispatch_event, call_back,
}

module _ (fd : ℕ) (s : ClientSession) (buf : List ℕ) (m : SessionManager) where
  -- A write to the buffer of a session.
  put_session-IsPaired :
      get_session fd m ≡ some s
      → IsPaired m
      → IsPaired (put_session fd (record s { recv_buffer = buf }) m)
  unfolding get_session
  put_session-IsPaired live h = record {
    filed = λ d u e. elim (insert-cases fd d _ u m.sessions e) [
      | inl (k, at) ↦ rw (← at, ← k) (h.filed fd s live)
      | inr (k, at) ↦ h.filed d u at
    ];
    found = λ d u e. elim (insert-cases fd d _ u m.sessions e) [
      | inl (k, at) ↦ rw (← at, ← k) (h.found fd s live)
      | inr (k, at) ↦ h.found d u at
    ];
    backed = λ t d e.
        let (u, at, own) = h.backed t d e in
        elim (Bool-cases (fd == d)) [
          | inl k ↦ (
            record s { recv_buffer = buf },
            rw (← ==→eq fd d k) (insert_self fd _ m.sessions),
            same t u d own at (==→eq fd d k),
          )
          | inr k ↦ (u, insert_ne fd d _ m.sessions (==→ne fd d k) ∙ at, own)
        ];
  }
    where
      same :
          (t : ℕ) (u : ClientSession) (d : ℕ)
          → u.trader_id ≡ t
          → m.sessions d ≡ some u
          → fd ≡ d
          → s.trader_id ≡ t
      same t u d own at k =
          let here : m.sessions fd ≡ some u = subst (λ x. m.sessions x ≡ some u) (sym k) at in cc

-- The maps are paired, and the pushes are those of before with others behind them.
pub record Keeps (t t' : EpollThread) : Type 0 where
  pub paired : IsPaired t.sessions → IsPaired t'.sessions
  pub newer : List RawMessage
  pub behind : t'.pushed ≡ t.pushed ++ newer

pub Keeps-refl : (t : EpollThread) → Keeps t t
Keeps-refl t = record { paired = λ h. h; newer = []; behind = sym (append-nil t.pushed) }

pub Keeps-trans : {t u v : EpollThread} → Keeps t u → Keeps u v → Keeps t v
Keeps-trans {t} a b = record {
  paired = λ h. b.paired (a.paired h);
  newer = a.newer ++ b.newer;
  behind = b.behind ∙ ap (λ l. l ++ b.newer) a.behind ∙ append_assoc t.pushed a.newer b.newer;
}

drop_client-Keeps : (fd : ℕ) (t : EpollThread) → Keeps t (drop_client fd t)
unfolding drop_client
drop_client-Keeps fd t = record {
  paired = remove-IsPaired fd t.sessions;
  newer = [];
  behind = sym (append-nil t.pushed);
}

on_disconnect-Keeps : (fd : ℕ) (t t' : EpollThread) → on_disconnect fd t ≡ done t' → Keeps t t'
unfolding on_disconnect
on_disconnect-Keeps fd t t' e = subst (Keeps t) (done-injective e) (record {
  paired = remove-IsPaired fd t.sessions;
  newer = [];
  behind = sym (append-nil t.pushed);
})

append_received-IsPaired :
    (fd : ℕ) (bs : List ℕ) (m m' : SessionManager)
    → append_received fd bs m ≡ done m'
    → IsPaired m
    → IsPaired m'
unfolding append_received
append_received-IsPaired fd bs m m' e h =
    let (s, got, at) =
      bind-done (deref (get_session fd m))
        (λ s. done (put_session fd (record s { recv_buffer = s.recv_buffer ++ bs }) m)) m' e in
    subst IsPaired (done-injective at)
      (put_session-IsPaired fd s (s.recv_buffer ++ bs) m (deref-done _ got) h)

abbrev drained : List Received → EpollThread → EpollThread
drained rest t = record t { inbox = rest }

Keeps-drained : {rest : List Received} {t u : EpollThread} → Keeps (drained rest t) u → Keeps t u
Keeps-drained k = record { paired = k.paired; newer = k.newer; behind = k.behind }

receive_all-Keeps :
    (fd : ℕ) (rs : List Received) (t t' : EpollThread) → receive_all fd rs t ≡ done t' → Keeps t t'
unfolding receive_all
receive_all-Keeps fd [] t t' e = cc
receive_all-Keeps fd (received bs ∷ rest) t t' e =
    let (m, got, at) =
      bind-done (append_received fd bs t.sessions)
        (λ m. receive_all fd rest (record t { sessions = m })) t' e in
    Keeps-trans
      (record {
        paired = append_received-IsPaired fd bs t.sessions m got;
        newer = [];
        behind = sym (append-nil t.pushed);
      })
      (receive_all-Keeps fd rest (record t { sessions = m }) t' at)
receive_all-Keeps fd (end_of_stream ∷ rest) t t' e =
    subst (Keeps t) (done-injective e) (Keeps-drained (drop_client-Keeps fd (drained rest t)))
receive_all-Keeps fd (recv_error x ∷ rest) t t' e =
    subst (Keeps t) (done-injective e) (ended (is_failure x))
  where
    ended : (b : Bool) → Keeps t (if b then drop_client fd (drained rest t) else drained rest t)
    ended true = Keeps-drained (drop_client-Keeps fd (drained rest t))
    ended false = Keeps-drained (Keeps-refl (drained rest t))

frame_session-Keeps : (fd : ℕ) (t t' : EpollThread) → frame_session fd t ≡ done t' → Keeps t t'
unfolding frame_session
frame_session-Keeps fd t t' e =
    let (s, got, at) = bind-done (deref (get_session fd t.sessions)) _ t' e in
    let (r, cut, at) =
      bind-done (frame_all (suc (length s.recv_buffer)) s.trader_id s.recv_buffer) _ t' at in
    subst (Keeps t) (done-injective at) (record {
      paired = put_session-IsPaired fd s r.1 t.sessions (deref-done _ got);
      newer = r.0;
      behind = refl;
    })

on_data-Keeps : (fd : ℕ) (t t' : EpollThread) → on_data fd t ≡ done t' → Keeps t t'
unfolding on_data
on_data-Keeps fd t t' e = by_session (get_session fd t.sessions) e
  where
    by_session :
        (o : Option ClientSession)
        → elim o [ none ↦ done t | some s ↦ (receive_all fd t.inbox t >>= frame_session fd) ]
          ≡ done t'
        → Keeps t t'
    by_session none e = subst (Keeps t) (done-injective e) (Keeps-refl t)
    by_session (some s) e =
        let (u, got, at) = bind-done (receive_all fd t.inbox t) (frame_session fd) t' e in
        Keeps-trans (receive_all-Keeps fd t.inbox t u got) (frame_session-Keeps fd u t' at)

abbrev pub served_event : Event → EpollThread → Outcome EpollThread
served_event = dispatch_event (some on_data) (some on_disconnect)

pub served_event-Keeps :
    (ev : Event) (t t' : EpollThread) → served_event ev t ≡ done t' → Keeps t t'
unfolding dispatch_event call_back
served_event-Keeps ev t t' e = by_bits (ev.hup || ev.err) ev.readable e
  where
    by_bits :
        (gone readable : Bool)
        → (if gone then on_disconnect ev.fd t else if readable then on_data ev.fd t else done t)
          ≡ done t'
        → Keeps t t'
    by_bits true readable e = on_disconnect-Keeps ev.fd t t' e
    by_bits false true e = on_data-Keeps ev.fd t t' e
    by_bits false false e = subst (Keeps t) (done-injective e) (Keeps-refl t)
