-- ===== src/Dispatch/Private.antt =====
-- Confirmations are private.
use exchnage_simulator.Prelude.{
  ℕ, zero, suc, ◌≡◌, refl, Option, none, some, List, [], ◌∷◌, All, All-map,
}
use exchnage_simulator.Core.{OrderConfirm}
use exchnage_simulator.Sessions.{SessionManager, get_fd, get_trader_id}
use exchnage_simulator.Sessions.Inverse.{IsPaired, get_fd-get_trader_id}
use exchnage_simulator.Dispatch.{Sent, deliver, confirm_msg}

-- Confirmation `k` of the list.
abbrev pub IsAt : ℕ → OrderConfirm → List OrderConfirm → Type 0
IsAt k c [] = ⊥
IsAt zero c (x ∷ xs) = x ≡ c
IsAt (suc k) c (x ∷ xs) = IsAt k c xs

-- What is sent is the message of one of the confirmations, and the session there, when it is sent, is
-- its trader's.
abbrev pub IsPrivate : (ℕ → SessionManager) → List OrderConfirm → Sent → Type 0
IsPrivate m cs s =
    (k : ℕ) × (c : OrderConfirm) × IsAt k c cs
    × (s.1 ≡ confirm_msg c)
    × (get_trader_id s.0 (m k) ≡ c.trader_id)

-- With sessions whose two maps belong together whenever they are looked at, every private message is
-- the one of a confirmation and goes to a descriptor whose session is then that of the confirmation's
-- trader.
pub deliver-IsPrivate :
    (m : ℕ → SessionManager) (cs : List OrderConfirm)
    → ((k : ℕ) → IsPaired (m k))
    → All (IsPrivate m cs) (deliver m cs)
unfolding deliver
deliver-IsPrivate m [] h = tt
deliver-IsPrivate m (c ∷ cs) h = by_fd (get_fd c.trader_id (m 0)) refl (
    All-map _ _ (λ s (k, x, at, msg, own). (suc k, x, at, msg, own)) (deliver later cs)
      (deliver-IsPrivate later cs (λ k. h (suc k))))
  where
    later : ℕ → SessionManager
    later k = m (suc k)

    by_fd :
        (o : Option ℕ)
        → get_fd c.trader_id (m 0) ≡ o
        → All (IsPrivate m (c ∷ cs)) (deliver later cs)
        → All
            (IsPrivate m (c ∷ cs))
            (elim o [ none ↦ deliver later cs | some fd ↦ (fd, confirm_msg c) ∷ deliver later cs ])
    by_fd none e k = k
    by_fd (some fd) e k =
        ((0, c, refl, refl, (get_fd-get_trader_id (m 0) (h 0)).0 c.trader_id fd e), k)
