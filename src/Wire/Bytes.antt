-- ===== src/Wire/Bytes.antt =====
-- Integers as bytes, and reading them one after the other, as `memcpy` into a packed struct does.
use native.Mathlib.Nat.{pow-suc}
use exchnage_simulator.Prelude.{
  ℕ, zero, suc, ◌+◌, ◌*◌, ◌/◌, ◌%◌, ◌^◌, ◌<◌, ◌≡◌, refl, ap, ◌∙◌, List, [], ◌∷◌, ◌++◌, length, All,
  arith,
}

unfoldable pub to_bytes : ℕ → ℕ → List ℕ
to_bytes zero x = []
to_bytes (suc n) x = x % 256 ∷ to_bytes n (x / 256)

-- The number that the first `n` bytes are, and the bytes behind them.
unfoldable pub read_bytes : ℕ → List ℕ → ℕ × List ℕ
read_bytes zero bs = (0, bs)
read_bytes (suc n) [] = (0, [])
read_bytes (suc n) (b ∷ bs) = let r = read_bytes n bs in (b + 256 * r.0, r.1)

abbrev pub AreBytes : List ℕ → Type 0
AreBytes = All (λ b. b < 256)

pub length-to_bytes : (n x : ℕ) → length (to_bytes n x) ≡ n
unfolding to_bytes
length-to_bytes zero x = refl
length-to_bytes (suc n) x = ap suc (length-to_bytes n (x / 256))

pow-pos : (n : ℕ) → 0 < 256 ^ n
pow-pos zero = omega arith
pow-pos (suc n) = omega (arith, pow-pos n, pow-suc 256 n)

pub read_bytes-to_bytes :
    (n x : ℕ) (bs : List ℕ) → x < 256 ^ n → read_bytes n (to_bytes n x ++ bs) ≡ (x, bs)
unfolding read_bytes to_bytes
read_bytes-to_bytes zero x bs lt = ap (λ n. (n, bs)) (omega (arith, lt))
read_bytes-to_bytes (suc n) x bs lt =
    let less : x / 256 < 256 ^ n = omega (arith, lt, pow-suc 256 n) in
    let rest = read_bytes-to_bytes n (x / 256) bs less in
    ap (λ r. (x % 256 + 256 * r.0, r.1)) rest ∙ ap (λ n. (n, bs)) (omega arith)

-- Bytes read give a number of that many bytes, and bytes.
pub read_bytes-bound :
    (n : ℕ) (bs : List ℕ)
    → AreBytes bs
    → ((read_bytes n bs).0 < 256 ^ n) × AreBytes (read_bytes n bs).1
unfolding read_bytes
read_bytes-bound zero bs h = (omega arith, h)
read_bytes-bound (suc n) [] h = (pow-pos (suc n), tt)
read_bytes-bound (suc n) (b ∷ bs) h =
    let r = read_bytes-bound n bs h.1 in (omega (arith, r.0, h.0, pow-suc 256 n), r.1)
