-- ===== src/Client/Numbers.antt =====
-- What `>>` reads from a text in which numbers and words stand between gaps.
use exchnage_simulator.Prelude.{
  ℕ, suc, ◌+◌, ◌-◌, ◌*◌, ◌^◌, ◌≡◌, ◌≤◌, ◌<◌, refl, ap, ◌∙◌, true, false, ◌||◌, Option, none, some,
  List, [], ◌∷◌, ◌++◌, All, length, ◌==◌, leb, if◌then◌else◌, arith,
}
use exchnage_simulator.Client.Text.{
  is_space, is_digit, skip_space, split_word, read_word, read_digits, read_sign, read_uint,
}

abbrev pub IsDigit : ℕ → Type 0
IsDigit c = (b'0' ≤ c) × (c ≤ b'9')

-- The number that digits spell behind `n`.
abbrev pub value : ℕ → List ℕ → ℕ
value n [] = n
value n (c ∷ cs) = value (n * 10 + (c - b'0')) cs

-- One or more digits, of a number that `w` bits hold.
pub record IsNumber (w : ℕ) (ds : List ℕ) : Type 0 where
  pub digits : All IsDigit ds
  pub some_digit : 0 < length ds
  pub fits : value 0 ds < 2 ^ w

-- What stands behind a number does not begin with a digit, and what stands behind a word begins with a
-- space or is nothing.
abbrev pub EndsNumber : List ℕ → Type 0
EndsNumber [] = Unit
EndsNumber (c ∷ cs) = is_digit c ≡ false

abbrev pub EndsWord : List ℕ → Type 0
EndsWord [] = Unit
EndsWord (c ∷ cs) = is_space c ≡ true

abbrev pub AreSpaces : List ℕ → Type 0
AreSpaces = All (λ c. is_space c ≡ true)

-- A byte that is part of a word.
abbrev pub IsInWord : ℕ → Type 0
IsInWord c = is_space c ≡ false

skip_space-gap :
    (gap : List ℕ) (c : ℕ) (cs : List ℕ)
    → AreSpaces gap
    → is_space c ≡ false
    → skip_space (gap ++ (c ∷ cs)) ≡ c ∷ cs
unfolding skip_space
skip_space-gap [] c cs h e = rw e refl
skip_space-gap (g ∷ gap) c cs h e = rw h.0 (skip_space-gap gap c cs h.1 e)

split_word-append :
    (word rest : List ℕ)
    → All IsInWord word
    → EndsWord rest
    → split_word (word ++ rest) ≡ (word, rest)
unfolding split_word
split_word-append [] [] h e = refl
split_word-append [] (c ∷ cs) h e = rw e refl
split_word-append (c ∷ cs) rest h e = rw (split_word-append cs rest h.1 e, h.0) refl

pub read_word-gap :
    (gap : List ℕ) (c : ℕ) (cs rest : List ℕ)
    → AreSpaces gap
    → All IsInWord (c ∷ cs)
    → EndsWord rest
    → read_word (gap ++ ((c ∷ cs) ++ rest)) ≡ some (c ∷ cs, rest)
unfolding read_word
read_word-gap gap c cs rest h word e =
    rw (skip_space-gap gap c (cs ++ rest) h word.0, split_word-append (c ∷ cs) rest word e) refl

IsDigit-is_digit : (d : ℕ) → IsDigit d → is_digit d ≡ true
unfolding is_digit
IsDigit-is_digit d h = ground arith

IsDigit-IsInWord : (d : ℕ) → IsDigit d → IsInWord d
unfolding is_space
IsDigit-IsInWord d h = ground arith

read_digits-append :
    (n count : ℕ) (ds rest : List ℕ)
    → All IsDigit ds
    → EndsNumber rest
    → read_digits n count (ds ++ rest) ≡ (value n ds, count + length ds, rest)
unfolding read_digits
read_digits-append n count [] [] h e = ground arith
read_digits-append n count [] (c ∷ cs) h e = rw e (ground arith)
read_digits-append n count (d ∷ ds) rest h e = rw (IsDigit-is_digit d h.0) (
    read_digits-append (n * 10 + (d - b'0')) (count + 1) ds rest h.1 e
    ∙ ap (λ (k : ℕ). (value (n * 10 + (d - b'0')) ds, k, rest)) (omega arith))

read_sign-digit : (d : ℕ) (cs : List ℕ) → IsDigit d → read_sign (d ∷ cs) ≡ (false, d ∷ cs)
unfolding read_sign
read_sign-digit d cs h = ground arith

-- A number of at most `w` bits behind a gap.
pub read_uint-gap :
    (w : ℕ) (gap ds rest : List ℕ)
    → AreSpaces gap
    → IsNumber w ds
    → EndsNumber rest
    → read_uint w (gap ++ (ds ++ rest)) ≡ some (value 0 ds, rest)
unfolding read_uint
read_uint-gap w gap [] rest h n e = absurd (omega (arith, n.some_digit))
read_uint-gap w gap (d ∷ ds) rest h n e =
    let digit = n.digits.0 in
    rw
      (
        skip_space-gap gap d (ds ++ rest) h (IsDigit-IsInWord d digit),
        read_sign-digit d (ds ++ rest) digit,
        read_digits-append 0 0 (d ∷ ds) rest n.digits e,
      )
      (accepted w (value 0 (d ∷ ds)) (length ds) rest n.fits)
  where
    accepted :
        (w v k : ℕ) (rest : List ℕ)
        → v < 2 ^ w
        → ◌≡◌ {A = Option (ℕ × List ℕ)}
            (if (0 + suc k) == 0 || leb (2 ^ w) v then none else some (v, rest))
            (some (v, rest))
    accepted w v k rest lt = ground arith
