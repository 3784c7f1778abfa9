-- ===== src/Book/Entry.antt =====
-- A new entry of the store, as `addOrder` makes it for the rest of an order.
use exchnage_simulator.Prelude.{
  ℕ, ◌^◌, ◌≤◌, ◌<◌, ◌≡◌, ◌≢◌, refl, sym, inl, inr, Bool, none, some, List, [], ◌∷◌, ◌++◌, ◌==◌,
  insert, insert_self, All, All-append, All-map, Avoids, Has, Has-append, Has-append_left,
  Has-append_right, Distinct, arith, Bool-cases, ==→eq,
}
use exchnage_simulator.Core.{Side, is_buy, BookElement}
use exchnage_simulator.Core.PriceLevel.{empty_level}
use exchnage_simulator.Levels.{Levels}
use exchnage_simulator.Levels.Place.{place, place_cases, appended}
use exchnage_simulator.Book.State.{OrderDetails, Store}
use exchnage_simulator.Book.Sound.{DistinctLevels}
use exchnage_simulator.Book.Linked.{Linked, LinkedLevels, AvoidsLevels, addresses, Backed}

abbrev pub add_entry : ℕ → ℕ → BookElement → OrderDetails → ℕ → Store → Store
add_entry id a e d n st = record {
  heap = insert a e st.heap;
  next_addr = n;
  order_map = insert id a st.order_map;
  order_details = insert id d st.order_details;
}

module _ (st : Store) (id a : ℕ) (e : BookElement) (d : OrderDetails) (n : ℕ)
    (free : st.heap a ≡ none) (new : st.order_map id ≡ none) where
  abbrev after : Store
  after = add_entry id a e d n st

  -- A new entry keeps every listed address linked.
  entry-Linked : (s : Bool) (p b : ℕ) → Linked st s p b → Linked after s p b
  unfolding insert
  entry-Linked s p b y = record {
    elem = y.elem;
    details = y.details;
    live = ground (arith, y.live);
    small = y.small;
    mapped = ground (arith, y.mapped);
    detailed = ground (arith, y.mapped, y.detailed);
    sided = y.sided;
    priced = y.priced;
    sized = y.sized;
  }

  entry-All : (s : Bool) (p : ℕ) (xs : List ℕ) → All (Linked st s p) xs → All (Linked after s p) xs
  entry-All s p xs h = All-map (Linked st s p) (Linked after s p) (entry-Linked s p) xs h

  pub entry-LinkedLevels : (s : Bool) (ls : Levels) → LinkedLevels st s ls → LinkedLevels after s ls
  entry-LinkedLevels s [] h = tt
  entry-LinkedLevels s ((q, l) ∷ r) h = (entry-All s q l.orders h.0, entry-LinkedLevels s r h.1)

  -- The new entry itself is linked.
  pub entry-new :
      (s : Bool) (p : ℕ)
      → e.id ≡ id
      → e.quantity < 2 ^ 32
      → is_buy d.side ≡ s
      → d.price ≡ p
      → e.quantity ≤ d.quantity
      → Linked after s p a
  entry-new s p same small sided priced sized = record {
    elem = e;
    details = d;
    live = insert_self a e st.heap;
    small = small;
    mapped = rw same (insert_self id a st.order_map);
    detailed = rw same (insert_self id d st.order_details);
    sided = sided;
    priced = priced;
    sized = sized;
  }

  -- The lookup map still leads to listed elements only, if the new address is listed too.
  pub entry-Backed :
      (L M : ℕ → Type 0) → e.id ≡ id → ((b : ℕ) → L b → M b) → M a → Backed st L → Backed after M
  unfolding insert
  entry-Backed L M same keep at_a back i b m = elim (Bool-cases (id == i)) [
    | inl this ↦
        let here : a ≡ b = ground arith in
        (e, ground arith, ground (arith, ==→eq id i this), rw here at at_a)
    | inr that ↦
        let known : st.order_map i ≡ some b = ground arith in
        let (x, live, same', at) = back i b known in (x, ground arith, same', keep b at)
  ]

-- A free address is listed nowhere.
module _ (st : Store) (a : ℕ) (free : st.heap a ≡ none) where
  Avoids-of_free : (s : Bool) (p : ℕ) (xs : List ℕ) → All (Linked st s p) xs → Avoids a xs
  Avoids-of_free s p [] h = tt
  Avoids-of_free s p (b ∷ xs) h = (λ e. ground (arith, h.0.live), Avoids-of_free s p xs h.1)

  pub AvoidsLevels-of_free : (s : Bool) (ls : Levels) → LinkedLevels st s ls → AvoidsLevels a ls
  AvoidsLevels-of_free s [] h = tt
  AvoidsLevels-of_free s ((q, l) ∷ r) h =
      (Avoids-of_free s q l.orders h.0, AvoidsLevels-of_free s r h.1)

Distinct-snoc : (a : ℕ) (xs : List ℕ) → Avoids a xs → Distinct xs → Distinct (xs ++ (a ∷ []))
Distinct-snoc a [] v d = (tt, tt)
Distinct-snoc a (x ∷ xs) v d =
    (All-append (λ y. y ≢ x) xs (a ∷ []) d.0 ((λ e. v.0 (sym e)), tt), Distinct-snoc a xs v.1 d.1)

module _ (s : Side) (p a n : ℕ) where
  pub place-LinkedLevels :
      {st : Store} (ls : Levels)
      → Linked st (is_buy s) p a
      → LinkedLevels st (is_buy s) ls
      → LinkedLevels st (is_buy s) (place s p (appended a n) ls)
  unfolding place empty_level
  place-LinkedLevels [] x h = ((x, tt), tt)
  place-LinkedLevels {st} ((q, l) ∷ r) x h =
      place_cases (LinkedLevels st (is_buy s)) s p (appended a n) q l r (λ better. ((x, tt), h))
        (λ worse. (h.0, place-LinkedLevels r x h.1))
        (λ same.
          (All-append (Linked st (is_buy s) q) l.orders (a ∷ []) h.0 (rw same at x, tt), h.1))

  pub place-DistinctLevels :
      (ls : Levels)
      → AvoidsLevels a ls
      → DistinctLevels ls
      → DistinctLevels (place s p (appended a n) ls)
  unfolding place empty_level
  place-DistinctLevels [] v d = ((tt, tt), tt)
  place-DistinctLevels ((q, l) ∷ r) v d =
      ground (arith, Distinct-snoc a l.orders v.0 d.0, place-DistinctLevels r v.1 d.1)

  pub place-Has :
      (ls : Levels) (b : ℕ) → Has b (addresses ls) → Has b (addresses (place s p (appended a n) ls))
  unfolding place empty_level
  place-Has [] b h = absurd h
  place-Has ((q, l) ∷ r) b h =
      place_cases (λ ls. Has b (addresses ls)) s p (appended a n) q l r (λ better. inr h)
        (λ worse. elim (Has-append b l.orders (addresses r) h) [
          | inl x ↦ Has-append_left b l.orders _ x
          | inr x ↦ Has-append_right b l.orders _ (place-Has r b x)
        ])
        (λ same. elim (Has-append b l.orders (addresses r) h) [
          | inl x ↦ Has-append_left b _ _ (Has-append_left b l.orders (a ∷ []) x)
          | inr x ↦ Has-append_right b (l.orders ++ (a ∷ [])) _ x
        ])

  pub place-Has_self : (ls : Levels) → Has a (addresses (place s p (appended a n) ls))
  unfolding place empty_level
  place-Has_self [] = inl refl
  place-Has_self ((q, l) ∷ r) =
      place_cases (λ ls. Has a (addresses ls)) s p (appended a n) q l r (λ better. inl refl)
        (λ worse. Has-append_right a l.orders _ (place-Has_self r))
        (λ same. Has-append_left a _ _ (Has-append_right a l.orders (a ∷ []) (inl refl)))
