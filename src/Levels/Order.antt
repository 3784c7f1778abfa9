-- ===== src/Levels/Order.antt =====
-- The iteration order of `std::map`: keys strictly in the order of the comparator, each entry under
-- the price of its level, and no empty level.
use exchnage_simulator.Prelude.{ℕ, ◌≡◌, ◌≢◌, Bool, true, false, [], ◌∷◌, All, arith}
use exchnage_simulator.Core.{Side}
use exchnage_simulator.Levels.{Levels, before}

abbrev pub Keys : (ℕ → Bool) → Bool → Levels → Type 0
Keys test v = All (λ e. test e.0 ≡ v)

abbrev pub IsOrdered : Side → Levels → Type 0
IsOrdered s [] = Unit
IsOrdered s ((p, l) ∷ r) =
    Keys (before s p) true r × (l.price ≡ p) × (l.orders ≢ []) × IsOrdered s r

pub before-ne : (s : Side) (p q : ℕ) → before s p q ≡ true → q ≢ p
before-ne s p q h e = ground arith

pub before_trans :
    (s : Side) (p q r : ℕ) → before s p q ≡ true → before s q r ≡ true → before s p r ≡ true
before_trans s p q r h k = ground arith

pub before_asymm : (s : Side) (p q : ℕ) → before s p q ≡ true → before s q p ≡ false
before_asymm s p q h = ground arith

pub before_total : (s : Side) (p q : ℕ) → before s p q ≡ false → before s q p ≡ false → p ≡ q
before_total s p q h k = ground arith

pub Keys-others :
    (s : Side) (p : ℕ) (ls : Levels) → Keys (before s p) true ls → All (λ e. e.0 ≢ p) ls
Keys-others s p [] h = tt
Keys-others s p (e ∷ ls) h = (before-ne s p e.0 h.0, Keys-others s p ls h.1)

pub Keys-map :
    (f g : ℕ → Bool) (v w : Bool)
    → ((q : ℕ) → f q ≡ v → g q ≡ w)
    → (ls : Levels) → Keys f v ls
    → Keys g w ls
Keys-map f g v w h [] k = tt
Keys-map f g v w h (e ∷ ls) k = (h e.0 k.0, Keys-map f g v w h ls k.1)

-- The price of a new entry is looked for past better prices only.
pub before-false-of_eq : (s : Side) (p q : ℕ) → p ≡ q → before s p q ≡ false
before-false-of_eq s p q e = ground arith
