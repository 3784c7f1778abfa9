-- ===== src/Prelude/Maps.antt =====
-- Unordered maps with integer keys, as functions: `std::unordered_map` and the heap of elements.
use Prim.Native.Nat.{ℕ}
use mathlib.Core.Path.{◌≡◌, fun_ext, sym}
use mathlib.Core.Logic.{◌≢◌, ◌⊎◌, inl, inr}
use mathlib.Core.Option.{Option, none, some}
use native.Mathlib.Omega.{arith}
use exchnage_simulator.Prelude.Tests.{◌==◌, if◌then◌else◌, Bool-cases, ==→eq, ==→ne}

abbrev pub Map {ℓ} : Type ℓ → Type ℓ
Map V = ℕ → Option V

module _ {ℓ} {V : Type ℓ} where
  unfoldable pub empty_map : Map V
  empty_map k = none

  -- `m[k] = v`
  unfoldable pub insert : ℕ → V → Map V → Map V
  insert k v m j = if k == j then some v else m j

  -- `m.erase(k)`
  unfoldable pub erase : ℕ → Map V → Map V
  erase k m j = if k == j then none else m j

  pub insert_self : (k : ℕ) (v : V) (m : Map V) → insert k v m k ≡ some v
  unfolding insert
  insert_self k v m = ground arith

  pub insert_ne : (k j : ℕ) (v : V) (m : Map V) → k ≢ j → insert k v m j ≡ m j
  unfolding insert
  insert_ne k j v m h = ground arith

  pub erase_self : (k : ℕ) (m : Map V) → erase k m k ≡ none
  unfolding erase
  erase_self k m = ground arith

  pub erase_ne : (k j : ℕ) (m : Map V) → k ≢ j → erase k m j ≡ m j
  unfolding erase
  erase_ne k j m h = ground arith

  pub erase-insert : (k : ℕ) (v : V) (m : Map V) → erase k (insert k v m) ≡ erase k m
  unfolding erase insert
  erase-insert k v m = fun_ext (λ j. ground arith)

  pub erase-eq-none : (k j : ℕ) (m : Map V) → m j ≡ none → erase k m j ≡ none
  unfolding erase
  erase-eq-none k j m h = ground arith

  pub insert-erase : (k : ℕ) (v : V) (m : Map V) → insert k v (erase k m) ≡ insert k v m
  unfolding erase insert
  insert-erase k v m = fun_ext (λ j. ground arith)

  pub insert-erase_same : (k : ℕ) (v : V) (m : Map V) → m k ≡ some v → insert k v (erase k m) ≡ m
  unfolding erase insert
  insert-erase_same k v m h = fun_ext (λ j. elim (Bool-cases (k == j)) [
    | inl e ↦ rw e (rw (==→eq k j e) at (sym h))
    | inr e ↦ rw e
  ])

  -- Where an entry of `m[k] = v` comes from.
  pub insert-cases :
      (k j : ℕ) (v w : V) (m : Map V)
      → insert k v m j ≡ some w
      → ((k ≡ j) × (v ≡ w)) ⊎ ((k ≢ j) × (m j ≡ some w))
  unfolding insert
  insert-cases k j v w m h = elim (Bool-cases (k == j)) [
    | inl e ↦ inl (==→eq k j e, ground arith)
    | inr e ↦ inr (==→ne k j e, ground arith)
  ]

  -- What is left after `m.erase(k)`.
  pub erase-some : (k j : ℕ) (w : V) (m : Map V) → erase k m j ≡ some w → (k ≢ j) × (m j ≡ some w)
  unfolding erase
  erase-some k j w m h = elim (Bool-cases (k == j)) [
    | inl e ↦ ground arith
    | inr e ↦ (==→ne k j e, ground arith)
  ]

  pub insert-insert : (k : ℕ) (v w : V) (m : Map V) → insert k v (insert k w m) ≡ insert k v m
  unfolding insert
  insert-insert k v w m = fun_ext (λ j. ground arith)

  pub insert_same : (k : ℕ) (v : V) (m : Map V) → m k ≡ some v → insert k v m ≡ m
  unfolding insert
  insert_same k v m h = fun_ext (λ j. elim (Bool-cases (k == j)) [
    | inl e ↦ rw e (rw (==→eq k j e) at (sym h))
    | inr e ↦ rw e
  ])
