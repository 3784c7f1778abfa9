-- ===== src/Client/Lines.antt =====
-- A line: an action, and fields behind gaps of spaces and commas.
use exchnage_simulator.Prelude.{
  ℕ, ◌≡◌, ◌<◌, ◌⊎◌, refl, ap, ap₂, ◌∙◌, true, false, inl, inr, some, List, [], ◌∷◌, ◌++◌,
  map-append, All, length, ◌==◌, if◌then◌else◌, arith,
}
use exchnage_simulator.Client.Text.{is_space, is_digit, read_word, read_uint}
use exchnage_simulator.Client.Console.{clean_commas}
use exchnage_simulator.Client.Numbers.{
  value, IsNumber, EndsNumber, EndsWord, AreSpaces, IsInWord, read_word-gap, read_uint-gap,
}

-- A gap and the text behind it, one after the other.
abbrev pub behind : List (List ℕ × List ℕ) → List ℕ
behind [] = []
behind ((gap, text) ∷ more) = gap ++ (text ++ behind more)

-- One or more spaces or commas.
pub record IsGap (gap : List ℕ) : Type 0 where
  pub some_byte : 0 < length gap
  pub bytes : All (λ c. (is_space c ≡ true) ⊎ (c ≡ b',')) gap

-- One or more bytes that are neither.
pub record IsWord (text : List ℕ) : Type 0 where
  pub some_byte : 0 < length text
  pub no_space : All IsInWord text
  pub no_comma : All (λ c. (c == b',') ≡ false) text

-- What the line is once its commas are spaces.
abbrev pub cleaned : List (List ℕ × List ℕ) → List (List ℕ × List ℕ)
cleaned [] = []
cleaned ((gap, text) ∷ more) = (clean_commas gap, text) ∷ cleaned more

abbrev pub AreFields : List (List ℕ × List ℕ) → Type 0
AreFields [] = Unit
AreFields ((gap, text) ∷ more) = IsGap gap × IsWord text × AreFields more

clean_commas-append :
    (xs ys : List ℕ) → clean_commas (xs ++ ys) ≡ clean_commas xs ++ clean_commas ys
unfolding clean_commas
clean_commas-append xs ys = map-append (λ c. if c == b',' then 32 else c) xs ys

pub clean_commas-word :
    (text : List ℕ) → All (λ c. (c == b',') ≡ false) text → clean_commas text ≡ text
unfolding clean_commas
clean_commas-word [] h = refl
clean_commas-word (c ∷ cs) h = rw h.0 (ap (λ l. c ∷ l) (clean_commas-word cs h.1))

cleaned_space :
    (c : ℕ) → (is_space c ≡ true) ⊎ (c ≡ b',') → is_space (if c == b',' then 32 else c) ≡ true
unfolding is_space
cleaned_space c (inl e) = ground arith
cleaned_space c (inr e) = ground arith

clean_commas-AreSpaces :
    (gap : List ℕ) → All (λ c. (is_space c ≡ true) ⊎ (c ≡ b',')) gap → AreSpaces (clean_commas gap)
unfolding clean_commas
clean_commas-AreSpaces [] h = tt
clean_commas-AreSpaces (c ∷ cs) h = (cleaned_space c h.0, clean_commas-AreSpaces cs h.1)

clean_commas-behind :
    (fs : List (List ℕ × List ℕ)) → AreFields fs → clean_commas (behind fs) ≡ behind (cleaned fs)
unfolding clean_commas
clean_commas-behind [] h = refl
clean_commas-behind ((gap, text) ∷ more) h =
    clean_commas-append gap (text ++ behind more)
    ∙ ap (λ l. clean_commas gap ++ l)
        (clean_commas-append text (behind more)
          ∙ ap₂ (λ a b. a ++ b) (clean_commas-word text h.1.no_comma)
              (clean_commas-behind more h.2))

-- Fields whose commas are gone.
abbrev pub AreCleaned : List (List ℕ × List ℕ) → Type 0
AreCleaned [] = Unit
AreCleaned ((gap, text) ∷ more) = AreSpaces gap × (0 < length gap) × AreCleaned more

pub cleaned-AreCleaned : (fs : List (List ℕ × List ℕ)) → AreFields fs → AreCleaned (cleaned fs)
unfolding clean_commas
cleaned-AreCleaned [] h = tt
cleaned-AreCleaned ((gap, text) ∷ more) h =
    (clean_commas-AreSpaces gap h.0.bytes, longer gap h.0.some_byte, cleaned-AreCleaned more h.2)
  where
    longer : (gap : List ℕ) → 0 < length gap → 0 < length (clean_commas gap)
    longer [] lt = lt
    longer (c ∷ cs) lt = omega arith

behind-EndsWord : (fs : List (List ℕ × List ℕ)) → AreCleaned fs → EndsWord (behind fs)
behind-EndsWord [] h = tt
behind-EndsWord (([], text) ∷ more) h = absurd (omega (arith, h.1))
behind-EndsWord ((c ∷ cs, text) ∷ more) h = h.0.0

space-no_digit : (c : ℕ) → is_space c ≡ true → is_digit c ≡ false
unfolding is_space is_digit
space-no_digit c e = ground arith

behind-EndsNumber : (fs : List (List ℕ × List ℕ)) → AreCleaned fs → EndsNumber (behind fs)
behind-EndsNumber [] h = tt
behind-EndsNumber (([], text) ∷ more) h = absurd (omega (arith, h.1))
behind-EndsNumber ((c ∷ cs, text) ∷ more) h = space-no_digit c h.0.0

module _ (gap : List ℕ) (more : List (List ℕ × List ℕ)) where
  pub read_uint-behind :
      (w : ℕ) (ds : List ℕ)
      → AreCleaned ((gap, ds) ∷ more)
      → IsNumber w ds
      → read_uint w (behind ((gap, ds) ∷ more)) ≡ some (value 0 ds, behind more)
  read_uint-behind w ds h n =
      read_uint-gap w gap ds (behind more) h.0 n (behind-EndsNumber more h.2)

  pub read_word-behind :
      (text : List ℕ)
      → AreCleaned ((gap, text) ∷ more)
      → IsWord text
      → read_word (behind ((gap, text) ∷ more)) ≡ some (text, behind more)
  read_word-behind [] h word = absurd (omega (arith, word.some_byte))
  read_word-behind (c ∷ cs) h word =
      read_word-gap gap c cs (behind more) h.0 word.no_space (behind-EndsWord more h.2)

-- An action and its fields, with the commas cleaned.
pub clean_commas-line :
    (c : ℕ) (fs : List (List ℕ × List ℕ))
    → (c == b',') ≡ false
    → AreFields fs
    → clean_commas ((c ∷ []) ++ behind fs) ≡ (c ∷ []) ++ behind (cleaned fs)
unfolding clean_commas
clean_commas-line c fs plain h =
    clean_commas-append (c ∷ []) (behind fs)
    ∙ ap₂ (λ a b. a ++ b) (clean_commas-word (c ∷ []) (plain, tt)) (clean_commas-behind fs h)

-- The action is read, and its fields are left.
pub read_word-line :
    (c : ℕ) (fs : List (List ℕ × List ℕ))
    → is_space c ≡ false
    → AreFields fs
    → read_word ((c ∷ []) ++ behind (cleaned fs)) ≡ some (c ∷ [], behind (cleaned fs))
read_word-line c fs word h =
    read_word-gap [] c [] (behind (cleaned fs)) tt (word, tt)
      (behind-EndsWord (cleaned fs) (cleaned-AreCleaned fs h))
