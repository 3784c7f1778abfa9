-- ===== src/Epoll/Streams.antt =====
-- The streams of several sessions whose bytes arrive in turns, and one readable event.
use exchnage_simulator.Prelude.{
  ℕ, ◌≡◌, ◌≢◌, refl, sym, ap, ◌∙◌, true, false, inl, inr, ◌⊎◌, ◌+◌, ◌≤◌, some, List, [], ◌∷◌, ◌++◌,
  map, All, length, length-append, ltb, ◌==◌, if◌then◌else◌, insert_self, insert_ne, insert-cases,
  done, arith,
}
use exchnage_simulator.Sessions.{ClientSession, SessionManager, get_session}
use exchnage_simulator.Framing.{RawMessage, raw_message, header_length}
use exchnage_simulator.Framing.Messages.{IsMessage, IsPartial, joined, raws, frame_all-messages}
use exchnage_simulator.Framing.Stream.{header_length-append}
use exchnage_simulator.Framing.Prefix.{Cut}
use exchnage_simulator.Net.{Received, received, recv_error, eagain}
use exchnage_simulator.Epoll.{Event, EpollThread, put_session, on_data, is_failure}
use exchnage_simulator.Epoll.Receiving.{on_data-frames}

-- A descriptor becomes readable, and `recv` gives these chunks before it says "try again".
pub record Batch : Type 0 where
  pub fd : ℕ
  pub chunks : List (List ℕ)

abbrev pub readable_event : Batch → Event
readable_event b = record { fd = b.fd; hup = false; err = false; readable = true }

abbrev pub inbox_of : List Batch → List Received → List Received
inbox_of [] rest = rest
inbox_of (b ∷ bs) rest = map received b.chunks ++ (recv_error eagain ∷ inbox_of bs rest)

-- All bytes that arrive on a descriptor.
abbrev pub bytes_for : ℕ → List Batch → List ℕ
bytes_for fd [] = []
bytes_for fd (b ∷ bs) =
    if b.fd == fd then joined b.chunks [] ++ bytes_for fd bs else bytes_for fd bs

-- The pushed messages of one trader.
abbrev pub pushed_by : ℕ → List RawMessage → List RawMessage
pushed_by trader [] = []
pushed_by trader (r ∷ rs) =
    if r.trader_id == trader then r ∷ pushed_by trader rs else pushed_by trader rs

pub pushed_by-append :
    (trader : ℕ) (xs ys : List RawMessage)
    → pushed_by trader (xs ++ ys) ≡ pushed_by trader xs ++ pushed_by trader ys
pushed_by-append trader [] ys = refl
pushed_by-append trader (x ∷ xs) ys = ground (arith, pushed_by-append trader xs ys)

pub pushed_by-raws :
    (trader : ℕ) (ms : List (List ℕ)) → pushed_by trader (raws trader ms) ≡ raws trader ms
unfolding raw_message
pushed_by-raws trader [] = refl
pushed_by-raws trader (m ∷ ms) = ground (arith, pushed_by-raws trader ms)

pub pushed_by-raws_other :
    (trader other : ℕ) (ms : List (List ℕ)) → trader ≢ other → pushed_by other (raws trader ms) ≡ []
unfolding raw_message
pushed_by-raws_other trader other [] ne = refl
pushed_by-raws_other trader other (m ∷ ms) ne =
    ground (arith, pushed_by-raws_other trader other ms ne)

pub raws-append :
    (trader : ℕ) (ms ns : List (List ℕ)) → raws trader (ms ++ ns) ≡ raws trader ms ++ raws trader ns
raws-append trader [] ns = refl
raws-append trader (m ∷ ms) ns =
    ap (λ l. raw_message trader (length m) m ∷ l) (raws-append trader ms ns)

-- Every session has another trader.
abbrev pub AreTraders : SessionManager → Type 0
AreTraders m =
    (fd gd : ℕ) (s u : ClientSession)
    → get_session fd m ≡ some s
    → get_session gd m ≡ some u
    → s.trader_id ≡ u.trader_id
    → fd ≡ gd

-- On each descriptor with a session, the buffer and the bytes that arrive are the messages `ms` and
-- the part `part`.
pub record Carries (t : EpollThread) (bs : List Batch) (ms : ℕ → List (List ℕ)) (part : ℕ → List ℕ)
    : Type 0 where
  pub messages : (fd : ℕ) → All IsMessage (ms fd)
  pub parts : (fd : ℕ) → IsPartial (part fd)
  pub streams :
      (fd : ℕ) (s : ClientSession)
      → get_session fd t.sessions ≡ some s
      → IsPartial s.recv_buffer × (s.recv_buffer ++ bytes_for fd bs ≡ joined (ms fd) (part fd))

-- A part is not a whole message with something behind it.
pub partial-joined :
    (ms : List (List ℕ)) (part : List ℕ) → All IsMessage ms → IsPartial (joined ms part) → ms ≡ []
unfolding joined
partial-joined [] part h p = refl
partial-joined (m ∷ ms) part h p =
    let long : ltb (length m) 3 ≡ false = ground (arith, h.0.header) in
    let len = length-append m (joined ms part) in
    let says = header_length-append m (joined ms part) long in
    absurd (not_partial p len (says ∙ h.0.whole) h.0.header)
  where
    not_partial :
        IsPartial (m ++ joined ms part)
        → length (m ++ joined ms part) ≡ length m + length (joined ms part)
        → header_length (m ++ joined ms part) ≡ length m
        → 3 ≤ length m
        → ⊥
    not_partial (inl e) len says le = ground arith
    not_partial (inr e) len says le = ground arith

length-joined :
    (ms : List (List ℕ)) (part : List ℕ) → All IsMessage ms → length ms ≤ length (joined ms part)
unfolding joined
length-joined [] part h = omega arith
length-joined (m ∷ ms) part h =
    omega (arith, h.0.header, length-append m (joined ms part), length-joined ms part h.1)

module _ (fd : ℕ) (s : ClientSession) (t : EpollThread)
    (live : get_session fd t.sessions ≡ some s) where
  -- What one readable event leaves.
  abbrev pub after_batch : List (List ℕ) → List ℕ → List Received → EpollThread
  after_batch whole begun rest = record t {
    sessions = put_session fd (record s { recv_buffer = begun }) t.sessions;
    pushed = t.pushed ++ raws s.trader_id whole;
    inbox = rest;
  }

  pub on_data-batch :
      (chunks ms : List (List ℕ)) (part more : List ℕ) (rest : List Received)
      → t.inbox ≡ map received chunks ++ (recv_error eagain ∷ rest)
      → (c : Cut ms part (s.recv_buffer ++ joined chunks []) more)
      → on_data fd t ≡ done (after_batch c.whole c.begun rest)
  unfolding is_failure
  on_data-batch chunks ms part more rest inbox c =
      on_data-frames fd s t live chunks rest eagain (raws s.trader_id c.whole, c.begun) inbox refl
        (rw c.here (
          frame_all-messages s.trader_id _ c.whole c.begun c.whole_all c.partial
            (omega (arith, length-joined c.whole c.begun c.whole_all))))

  -- The sessions after it.
  pub now_live :
      (whole : List (List ℕ)) (begun : List ℕ) (rest : List Received) (gd : ℕ) (u : ClientSession)
      → get_session gd (after_batch whole begun rest).sessions ≡ some u
      → ((fd ≡ gd) × (record s { recv_buffer = begun } ≡ u))
        ⊎ ((fd ≢ gd) × (get_session gd t.sessions ≡ some u))
  unfolding get_session
  now_live whole begun rest gd u e = insert-cases fd gd _ u t.sessions.sessions e

  pub still_live :
      (whole : List (List ℕ)) (begun : List ℕ) (rest : List Received) (gd : ℕ) (u : ClientSession)
      → fd ≢ gd
      → get_session gd t.sessions ≡ some u
      → get_session gd (after_batch whole begun rest).sessions ≡ some u
  unfolding get_session
  still_live whole begun rest gd u ne e = insert_ne fd gd _ t.sessions.sessions ne ∙ e

  pub itself_live :
      (whole : List (List ℕ)) (begun : List ℕ) (rest : List Received)
      → get_session fd (after_batch whole begun rest).sessions
        ≡ some (record s { recv_buffer = begun })
  unfolding get_session
  itself_live whole begun rest = insert_self fd _ t.sessions.sessions

  pub after_batch-AreTraders :
      (whole : List (List ℕ)) (begun : List ℕ) (rest : List Received)
      → AreTraders t.sessions
      → AreTraders (after_batch whole begun rest).sessions
  after_batch-AreTraders whole begun rest h gd kd u v e f same =
      elim (now_live whole begun rest gd u e) [
        | inl (a, x) ↦ elim (now_live whole begun rest kd v f) [
          | inl (b, y) ↦ sym a ∙ b
          | inr (b, y) ↦
              sym a ∙ h fd kd s v live y (ap (λ (z : ClientSession). z.trader_id) x ∙ same)
        ]
        | inr (a, x) ↦ elim (now_live whole begun rest kd v f) [
          | inl (b, y) ↦
              h gd fd u s x live (same ∙ sym (ap (λ (z : ClientSession). z.trader_id) y)) ∙ b
          | inr (b, y) ↦ h gd kd u v x y same
        ]
      ]
