-- ===== src/Client/Text.antt =====
-- The parts of the C++ standard library that the client reads a line with: `std::stringstream` and
-- `operator>>` for a word and for an unsigned number, in the "C" locale. A text is the list of its
-- bytes, and `none` is a stream whose failbit is set.
use exchnage_simulator.Prelude.{
  ℕ, ◌+◌, ◌-◌, ◌*◌, ◌%◌, ◌^◌, Bool, true, false, ◌&&◌, ◌||◌, ◌==◌, leb, if◌then◌else◌, Option, none,
  some, List, [], ◌∷◌,
}

-- `isspace`
unfoldable pub is_space : ℕ → Bool
is_space c = c == 32 || (leb 9 c && leb c 13)

unfoldable pub is_digit : ℕ → Bool
is_digit c = leb b'0' c && leb c b'9'

unfoldable pub skip_space : List ℕ → List ℕ
skip_space [] = []
skip_space (c ∷ cs) = if is_space c then skip_space cs else c ∷ cs

-- The bytes up to the next space, and those from there on.
unfoldable pub split_word : List ℕ → List ℕ × List ℕ
split_word [] = ([], [])
split_word (c ∷ cs) =
    let rest = split_word cs in if is_space c then ([], c ∷ cs) else (c ∷ rest.0, rest.1)

-- What `>>` takes off the stream, and what is left of it.
abbrev pub Extract : Type 0 → Type 0
Extract A = List ℕ → Option (A × List ℕ)

-- Behind a failure nothing is read.
infixl 5 ◌>>=◌
abbrev pub ◌>>=◌ : {A B : Type 0} → Extract A → (A → Extract B) → Extract B
◌>>=◌ m f s = elim (m s) [ none ↦ none | some (a, s') ↦ f a s' ]

abbrev pub extracted : {A : Type 0} → A → Extract A
extracted a s = some (a, s)

abbrev word_found : List ℕ × List ℕ → Option (List ℕ × List ℕ)
word_found ([], rest) = none
word_found (c ∷ cs, rest) = some (c ∷ cs, rest)

-- `ss >> word`, which fails if there is no word.
unfoldable pub read_word : Extract (List ℕ)
read_word s = word_found (split_word (skip_space s))

-- The digits in front, as a number, how many they are, and what is behind them.
unfoldable pub read_digits : ℕ → ℕ → List ℕ → ℕ × ℕ × List ℕ
read_digits value count [] = (value, count, [])
read_digits value count (c ∷ cs) =
    if is_digit c
    then read_digits (value * 10 + (c - b'0')) (count + 1) cs
    else (value, count, c ∷ cs)

-- The sign, and the bytes behind it.
unfoldable pub read_sign : List ℕ → Bool × List ℕ
read_sign [] = (false, [])
read_sign (c ∷ cs) =
    if c == b'-' then (true, cs) else if c == b'+' then (false, cs) else (false, c ∷ cs)

-- `ss >> n` for an unsigned type of `w` bits: a sign and digits. It fails if there is no digit or if
-- the digits are too large, and negates modulo `2 ^ w` behind a minus sign.
unfoldable pub read_uint : ℕ → Extract ℕ
read_uint w s =
    let sign = read_sign (skip_space s) in
    let (value, count, rest) = read_digits 0 0 sign.1 in
    if count == 0 || leb (2 ^ w) value
    then none
    else some (if sign.0 then (2 ^ w - value) % 2 ^ w else value, rest)

-- `std::string` equality.
unfoldable pub same_text : List ℕ → List ℕ → Bool
same_text [] [] = true
same_text [] (d ∷ ds) = false
same_text (c ∷ cs) [] = false
same_text (c ∷ cs) (d ∷ ds) = c == d && same_text cs ds
