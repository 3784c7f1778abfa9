-- ===== src/Book/Held.antt =====
-- What the inner loop of `matchAgainst` keeps true of the front level, the levels behind it, the
-- opposite side and the store; and how a run of rounds relates to the matching rule.
use exchnage_simulator.Prelude.{
  ℕ, ◌≤◌, ◌≡◌, refl, sym, ◌∙◌, ◌≢◌, ◌⊎◌, Bool, none, List, ◌∷◌, insert, insert_ne, erase, erase_ne,
  erase-eq-none, arith, All, Has, Distinct, not,
}
use exchnage_simulator.Core.{BookElement}
use exchnage_simulator.Levels.{Levels}
use exchnage_simulator.Book.State.{Store, drop_order}
use exchnage_simulator.Book.Linked.{
  Linked, LinkedLevels, AvoidsLevels, addresses, Backed, drop-All, drop-LinkedLevels, drop-Backed,
  requantify-All, requantify-LinkedLevels, requantify-Backed,
}
use exchnage_simulator.Book.View.{
  view_levels, view_levels-frame, Others, AvoidsLevels-of_side, AvoidsLevels-of_price,
}

-- A write to the quantity of the element `e` at `a`.
abbrev pub requantify : ℕ → BookElement → ℕ → Store → Store
requantify a e q st = record st { heap = insert a (record e { quantity = q }) st.heap }

-- The addresses that the book lists, with `os` in the front level.
abbrev pub Listed : List ℕ → Levels → Levels → ℕ → Type 0
Listed os rest opp b = Has b os ⊎ (Has b (addresses rest) ⊎ Has b (addresses opp))

module _ (s : Bool) (p : ℕ) (rest opp : Levels) where
  pub record Held (st : Store) (os : List ℕ) : Type 0 where
    pub here : All (Linked st s p) os
    pub distinct : Distinct os
    pub behind : LinkedLevels st s rest
    pub opposite : LinkedLevels st (not s) opp
    pub backed : Backed st (Listed os rest opp)
    pub fresh : (b : ℕ) → st.next_addr ≤ b → st.heap b ≡ none

  -- What a run of rounds leaves alone.
  pub record Same (st st' : Store) : Type 0 where
    pub rest_view : view_levels st'.heap rest ≡ view_levels st.heap rest
    pub opp_view : view_levels st'.heap opp ≡ view_levels st.heap opp
    pub next_addr : st'.next_addr ≡ st.next_addr
    pub unknown : (id : ℕ) → st.order_map id ≡ none → st'.order_map id ≡ none

  module _ (others : Others p rest) where
    pub elsewhere :
        {st : Store} {a : ℕ} {os : List ℕ}
        → Held st (a ∷ os)
        → AvoidsLevels a rest × AvoidsLevels a opp
    elsewhere h = (
      AvoidsLevels-of_price s rest others h.here.0 h.behind,
      AvoidsLevels-of_side opp (λ e. ground arith) h.here.0 h.opposite,
    )

    -- The front order leaves.
    pub pop-Held :
        {st : Store} {a : ℕ} {os : List ℕ} (h : Held st (a ∷ os))
        → Held (drop_order h.here.0.elem.id a st) os
    pop-Held {st} {a} {os} h = record {
      here = drop-All x s p os h.distinct.0 h.here.1;
      distinct = h.distinct.1;
      behind = drop-LinkedLevels x s rest (elsewhere h).0 h.behind;
      opposite = drop-LinkedLevels x (not s) opp (elsewhere h).1 h.opposite;
      backed =
          drop-Backed x (Listed (a ∷ os) rest opp) (Listed os rest opp) (λ b ne l. ground arith)
            h.backed;
      fresh = λ b le. erase-eq-none a b st.heap (h.fresh b le);
    }
      where
        x : Linked st s p a
        x = h.here.0

    pub pop-Same :
        {st : Store} {a : ℕ} {os : List ℕ} (h : Held st (a ∷ os))
        → Same st (drop_order h.here.0.elem.id a st)
    pop-Same {st} {a} {os} h = record {
      rest_view =
          view_levels-frame st.heap (erase a st.heap) a rest
            (λ b ne. erase_ne a b _ (λ e. ne (sym e))) (elsewhere h).0;
      opp_view =
          view_levels-frame st.heap (erase a st.heap) a opp
            (λ b ne. erase_ne a b _ (λ e. ne (sym e))) (elsewhere h).1;
      next_addr = refl;
      unknown = λ i m. erase-eq-none h.here.0.elem.id i st.order_map m;
    }

    pub requantify-Held :
        {st : Store} {a : ℕ} {os : List ℕ} (h : Held st (a ∷ os)) (q : ℕ)
        → q ≤ h.here.0.elem.quantity
        → Held (requantify a h.here.0.elem q st) (a ∷ os)
    requantify-Held {st} {a} {os} h q small = record {
      here = requantify-All x q s p (a ∷ os) small h.here;
      distinct = h.distinct;
      behind = requantify-LinkedLevels x q s rest small h.behind;
      opposite = requantify-LinkedLevels x q (not s) opp small h.opposite;
      backed = requantify-Backed x q (Listed (a ∷ os) rest opp) h.backed;
      fresh = λ b le. insert_ne a b _ st.heap (differ b le) ∙ h.fresh b le;
    }
      where
        x : Linked st s p a
        x = h.here.0

        differ : (b : ℕ) → st.next_addr ≤ b → a ≢ b
        differ b le e = ground (arith, x.live, h.fresh b le)

    pub requantify-Same :
        {st : Store} {a : ℕ} {os : List ℕ} (h : Held st (a ∷ os)) (q : ℕ)
        → Same st (requantify a h.here.0.elem q st)
    requantify-Same {st} {a} {os} h q = record {
      rest_view =
          view_levels-frame st.heap _ a rest (λ b ne. insert_ne a b _ _ (λ e. ne (sym e)))
            (elsewhere h).0;
      opp_view =
          view_levels-frame st.heap _ a opp (λ b ne. insert_ne a b _ _ (λ e. ne (sym e)))
            (elsewhere h).1;
      next_addr = refl;
      unknown = λ i m. m;
    }
