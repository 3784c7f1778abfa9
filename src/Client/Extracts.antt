-- ===== src/Client/Extracts.antt =====
-- The numbers that the client reads of a line fit their types.
use exchnage_simulator.Prelude.{
  ℕ, ◌-◌, ◌%◌, ◌^◌, ◌<◌, Bool, true, false, Bool-cases, inl, inr, ◌||◌, ◌==◌, leb, if◌then◌else◌,
  Option, none, some, List, arith,
}
use exchnage_simulator.Client.Text.{
  Extract, ◌>>=◌, skip_space, read_word, read_digits, read_sign, read_uint,
}
use exchnage_simulator.Client.Fields.{
  NewFields, ModifyFields, CancelFields, read_new_fields, read_modify_fields, read_cancel_fields,
}

-- What is read, if anything is, has the property `P`.
abbrev pub Reads : {A : Type 0} → (A → Type 0) → Option (A × List ℕ) → Type 0
Reads P none = Unit
Reads P (some (a, rest)) = P a

Reads-bind :
    {A B : Type 0} (P : A → Type 0) (Q : B → Type 0) (m : Extract A) (f : A → Extract B)
    (s : List ℕ)
    → Reads P (m s)
    → ((a : A) (rest : List ℕ) → P a → Reads Q (f a rest))
    → Reads Q ((m >>= f) s)
Reads-bind {A} {B} P Q m f s h k = by_result (m s) h
  where
    by_result :
        (o : Option (A × List ℕ))
        → Reads P o
        → Reads Q (elim o [ none ↦ none | some (a, rest) ↦ f a rest ])
    by_result none h = tt
    by_result (some (a, rest)) h = k a rest h

below :
    (minus : Bool) (bound value : ℕ)
    → value < bound
    → (if minus then (bound - value) % bound else value) < bound
below true bound value lt = omega (arith, lt)
below false bound value lt = lt

read_uint-Reads : (w : ℕ) (s : List ℕ) → Reads (λ v. v < 2 ^ w) (read_uint w s)
unfolding read_uint
read_uint-Reads w s =
    let sign = read_sign (skip_space s) in
    let digits = read_digits 0 0 sign.1 in kept sign.0 (2 ^ w) digits.0 digits.1 digits.2
  where
    kept :
        (minus : Bool) (bound value count : ℕ) (rest : List ℕ)
        → Reads
            (λ v. v < bound)
            (if count == 0 || leb bound value
              then none
              else some (if minus then (bound - value) % bound else value, rest))
    kept minus bound value count rest = elim (Bool-cases (count == 0 || leb bound value)) [
      | inl e ↦ rw e tt
      | inr e ↦ rw e (below minus bound value (ground (arith, e)))
    ]

Reads-read_uint :
    {B : Type 0} (Q : B → Type 0) (w : ℕ) (f : ℕ → Extract B) (s : List ℕ)
    → ((v : ℕ) (rest : List ℕ) → v < 2 ^ w → Reads Q (f v rest))
    → Reads Q ((read_uint w >>= f) s)
Reads-read_uint Q w f s = Reads-bind (λ v. v < 2 ^ w) Q (read_uint w) f s (read_uint-Reads w s)

read_word-Reads : (s : List ℕ) → Reads (λ x. Unit) (read_word s)
read_word-Reads s = anything (read_word s)
  where
    anything : {A : Type 0} (o : Option (A × List ℕ)) → Reads (λ x. Unit) o
    anything none = tt
    anything (some (a, rest)) = tt

abbrev pub FitsNew : NewFields → Type 0
FitsNew f =
    (f.internal_id < 2 ^ 64) × (f.symbol_id < 2 ^ 32) × (f.price < 2 ^ 32) × (f.qty < 2 ^ 32)

abbrev pub FitsModify : ModifyFields → Type 0
FitsModify f = (f.symbol_id < 2 ^ 32) × (f.price < 2 ^ 32) × (f.qty < 2 ^ 32)

abbrev pub FitsCancel : CancelFields → Type 0
FitsCancel f = f.symbol_id < 2 ^ 32

pub read_new_fields-Reads : (s : List ℕ) → Reads FitsNew (read_new_fields s)
unfolding read_new_fields
read_new_fields-Reads s = Reads-read_uint FitsNew 64 _ s (λ id s hi.
    Reads-read_uint FitsNew 32 _ s (λ sym s hs.
      Reads-bind (λ x. Unit) FitsNew read_word _ s (read_word-Reads s)
        (λ side s x.
          Reads-read_uint FitsNew 32 _ s
            (λ p s hp. Reads-read_uint FitsNew 32 _ s (λ q s hq. (hi, hs, hp, hq))))))

pub read_modify_fields-Reads : (s : List ℕ) → Reads FitsModify (read_modify_fields s)
unfolding read_modify_fields
read_modify_fields-Reads s = Reads-read_uint FitsModify 64 _ s (λ id s hi.
    Reads-read_uint FitsModify 32 _ s (λ sym s hs.
      Reads-read_uint FitsModify 32 _ s
        (λ p s hp. Reads-read_uint FitsModify 32 _ s (λ q s hq. (hs, hp, hq)))))

pub read_cancel_fields-Reads : (s : List ℕ) → Reads FitsCancel (read_cancel_fields s)
unfolding read_cancel_fields
read_cancel_fields-Reads s =
    Reads-read_uint FitsCancel 64 _ s
      (λ id s hi. Reads-read_uint FitsCancel 32 _ s (λ sym s hs. hs))
