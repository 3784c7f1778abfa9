-- ===== src/Book/Located.antt =====
-- Where an address of a side is listed, as `std::map::find` meets it.
use exchnage_simulator.Prelude.{
  ℕ, ◌≡◌, ◌≢◌, sym, ◌∙◌, inl, inr, Bool, some, List, [], ◌∷◌, ◌==◌, All, Has, Has-append,
  Bool-cases, ==→eq, ne→==, ==-refl,
}
use exchnage_simulator.Core.{Side}
use exchnage_simulator.Core.PriceLevel.{PriceLevel}
use exchnage_simulator.Levels.{Levels, find_level}
use exchnage_simulator.Levels.Order.{IsOrdered, Keys-others}
use exchnage_simulator.Book.State.{Store}
use exchnage_simulator.Book.Linked.{Linked, LinkedLevels, addresses}

-- Where a listed address stands.
pub record Located (st : Store) (v : Bool) (a : ℕ) (ls : Levels) : Type 0 where
  pub price : ℕ
  pub level : PriceLevel
  pub found : find_level price ls ≡ some level
  pub has : Has a level.orders
  pub linked : Linked st v price a

All-Has {κ} : (P : ℕ → Type κ) (a : ℕ) (xs : List ℕ) → All P xs → Has a xs → P a
All-Has P a [] h k = absurd k
All-Has P a (x ∷ xs) h (inl e) = rw e at h.0
All-Has P a (x ∷ xs) h (inr k) = All-Has P a xs h.1 k

-- A price that is found is one of the keys.
find-ne :
    (q p : ℕ) (m : PriceLevel) (r : Levels) → All (λ e. e.0 ≢ q) r → find_level p r ≡ some m → q ≢ p
unfolding find_level
find-ne q p m [] k f = cc
find-ne q p m ((t, n) ∷ r) k f = elim (Bool-cases (t == p)) [
  | inl hit ↦ λ e. k.0 (==→eq t p hit ∙ sym e)
  | inr miss ↦ find-ne q p m r k.1 (rw miss at f)
]

pub locate :
    (s : Side) (st : Store) (v : Bool) (a : ℕ) (ls : Levels)
    → IsOrdered s ls
    → LinkedLevels st v ls
    → Has a (addresses ls)
    → Located st v a ls
unfolding find_level
locate s st v a [] o h k = absurd k
locate s st v a ((q, l) ∷ r) o h k = elim (Has-append a l.orders (addresses r) k) [
  | inl here ↦ record {
    price = q;
    level = l;
    found = rw (==-refl q);
    has = here;
    linked = All-Has (Linked st v q) a l.orders h.0 here;
  }
  | inr on ↦
      (let x = locate s st v a r o.3 h.1 on in
        record {
          price = x.price;
          level = x.level;
          found =
              rw (ne→== q x.price (find-ne q x.price x.level r (Keys-others s q r o.0) x.found))
                x.found;
          has = x.has;
          linked = x.linked;
        })
]
