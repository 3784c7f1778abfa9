-- ===== src/Book/Linked.antt =====
-- How the addresses in the price levels, the heap and the two lookup maps belong together.
use exchnage_simulator.Prelude.{
  ℕ, ◌^◌, ◌≤◌, ◌<◌, ◌≡◌, ◌≢◌, Bool, some, List, [], ◌∷◌, ◌++◌, insert, erase, All, Avoids, arith,
  ◌==◌, if◌then◌else◌,
}
use exchnage_simulator.Core.{BookElement, is_buy}
use exchnage_simulator.Levels.{Levels}
use exchnage_simulator.Book.State.{OrderDetails, Store, drop_order}

-- The address `a`, listed at price `p` on the bid side (`s` true) or the ask side: it is live, both
-- maps know its order id, and the details name the place where it is listed.
pub record Linked (st : Store) (s : Bool) (p : ℕ) (a : ℕ) : Type 0 where
  pub elem : BookElement
  pub details : OrderDetails
  pub live : st.heap a ≡ some elem
  pub small : elem.quantity < 2 ^ 32
  pub mapped : st.order_map elem.id ≡ some a
  pub detailed : st.order_details elem.id ≡ some details
  pub sided : is_buy details.side ≡ s
  pub priced : details.price ≡ p
  pub sized : elem.quantity ≤ details.quantity

abbrev pub LinkedLevels : Store → Bool → Levels → Type 0
LinkedLevels st s [] = Unit
LinkedLevels st s ((p, l) ∷ r) = All (Linked st s p) l.orders × LinkedLevels st s r

abbrev pub AvoidsLevels : ℕ → Levels → Type 0
AvoidsLevels a [] = Unit
AvoidsLevels a ((p, l) ∷ r) = Avoids a l.orders × AvoidsLevels a r

abbrev pub addresses : Levels → List ℕ
addresses [] = []
addresses ((p, l) ∷ r) = l.orders ++ addresses r

-- An address is listed at one place only.
pub Linked-place :
    {st : Store} {s s' : Bool} {p p' a : ℕ}
    → Linked st s p a
    → Linked st s' p' a
    → (s ≡ s') × (p ≡ p')
Linked-place x y = ground arith

-- An address listed elsewhere is another one.
pub Avoids-of_place :
    {st : Store} {s s' : Bool} {p p' a : ℕ}
    → (s ≡ s' → p ≡ p' → ⊥)
    → Linked st s p a
    → (xs : List ℕ) → All (Linked st s' p') xs
    → Avoids a xs
Avoids-of_place ne x [] h = tt
Avoids-of_place {st} {s} {s'} {p} {p'} {a} ne x (b ∷ xs) h = (differ, Avoids-of_place ne x xs h.1)
  where
    differ : b ≢ a
    differ e =
        let y : Linked st s' p' a = rw e at h.0 in ne (Linked-place x y).0 (Linked-place x y).1

-- Removing an order keeps every other listed address linked.
pub drop-Linked :
    {st : Store} {s s' : Bool} {p p' a : ℕ} (x : Linked st s p a) (b : ℕ)
    → b ≢ a
    → Linked st s' p' b
    → Linked (drop_order x.elem.id a st) s' p' b
unfolding erase
drop-Linked x b ne y = record {
  elem = y.elem;
  details = y.details;
  live = ground arith;
  small = y.small;
  mapped = ground arith;
  detailed = ground arith;
  sided = y.sided;
  priced = y.priced;
  sized = y.sized;
}

-- Changing the quantity of a live element keeps every listed address linked.
pub requantify-Linked :
    {st : Store} {s s' : Bool} {p p' a : ℕ} (x : Linked st s p a) (q b : ℕ)
    → q ≤ x.elem.quantity
    → Linked st s' p' b
    → Linked (record st { heap = insert a (record (x.elem) { quantity = q }) st.heap }) s' p' b
unfolding insert
requantify-Linked {a = a} x q b small y = record {
  elem = if a == b then record (x.elem) { quantity = q } else y.elem;
  details = y.details;
  live = ground arith;
  small = ground (arith, x.small, y.small);
  mapped = ground arith;
  detailed = ground arith;
  sided = y.sided;
  priced = y.priced;
  sized = ground (arith, x.mapped, x.live, y.live, x.detailed, y.detailed, x.sized, y.sized);
}

-- Every entry of `orderMap` leads to a live element with that id, listed somewhere.
abbrev pub Backed : Store → (ℕ → Type 0) → Type 0
Backed st Listed =
    (id b : ℕ)
    → st.order_map id ≡ some b
    → (e : BookElement) × (st.heap b ≡ some e) × (e.id ≡ id) × Listed b

pub drop-Backed :
    {st : Store} {s : Bool} {p a : ℕ} (x : Linked st s p a) (L M : ℕ → Type 0)
    → ((b : ℕ) → b ≢ a → L b → M b)
    → Backed st L
    → Backed (drop_order x.elem.id a st) M
unfolding erase
drop-Backed {st} {a = a} x L M keep back id b m =
    let known : st.order_map id ≡ some b = ground arith in
    let (e, live, same, at) = back id b known in
    let ne : b ≢ a = ground arith in (e, ground arith, same, keep b ne at)

pub requantify-Backed :
    {st : Store} {s : Bool} {p a : ℕ} (x : Linked st s p a) (q : ℕ) (L : ℕ → Type 0)
    → Backed st L
    → Backed (record st { heap = insert a (record (x.elem) { quantity = q }) st.heap }) L
unfolding insert
requantify-Backed {st} {a = a} x q L back id b m =
    let (e, live, same, at) = back id b m in
    (if a == b then record (x.elem) { quantity = q } else e, ground arith, ground arith, at)

-- The three facts about a whole list of levels from which `a` is absent.
module _ {st : Store} {s : Bool} {p a : ℕ} (x : Linked st s p a) where
  pub drop-All :
      (s' : Bool) (p' : ℕ) (xs : List ℕ)
      → Avoids a xs
      → All (Linked st s' p') xs
      → All (Linked (drop_order x.elem.id a st) s' p') xs
  drop-All s' p' [] v h = tt
  drop-All s' p' (b ∷ xs) v h = (drop-Linked x b v.0 h.0, drop-All s' p' xs v.1 h.1)

  pub drop-LinkedLevels :
      (s' : Bool) (ls : Levels)
      → AvoidsLevels a ls
      → LinkedLevels st s' ls
      → LinkedLevels (drop_order x.elem.id a st) s' ls
  drop-LinkedLevels s' [] v h = tt
  drop-LinkedLevels s' ((q, l) ∷ r) v h =
      (drop-All s' q l.orders v.0 h.0, drop-LinkedLevels s' r v.1 h.1)

  pub requantify-All :
      (n : ℕ) (s' : Bool) (p' : ℕ) (xs : List ℕ)
      → n ≤ x.elem.quantity
      → All (Linked st s' p') xs
      → All
          (Linked (record st { heap = insert a (record (x.elem) { quantity = n }) st.heap }) s' p')
          xs
  requantify-All n s' p' [] small h = tt
  requantify-All n s' p' (b ∷ xs) small h =
      (requantify-Linked x n b small h.0, requantify-All n s' p' xs small h.1)

  pub requantify-LinkedLevels :
      (n : ℕ) (s' : Bool) (ls : Levels)
      → n ≤ x.elem.quantity
      → LinkedLevels st s' ls
      → LinkedLevels
          (record st { heap = insert a (record (x.elem) { quantity = n }) st.heap })
          s'
          ls
  requantify-LinkedLevels n s' [] small h = tt
  requantify-LinkedLevels n s' ((q, l) ∷ r) small h =
      (requantify-All n s' q l.orders small h.0, requantify-LinkedLevels n s' r small h.1)
