-- ===== src/Net/Ownership.antt =====
-- A descriptor has one owner, and is closed once.
use exchnage_simulator.Prelude.{
  ℕ, ◌≡◌, refl, sym, Bool, true, false, Outcome, done, done-injective, subst,
}
use exchnage_simulator.Net.{
  Sockets, mark, close_fd, open_object, close_object, take_over, assign_object, release_object,
}
use exchnage_simulator.Net.Owners.{
  IsOwned, hand_over, release_object-IsOwned, close_fd-IsOwned, close_object-IsOwned,
  take_over-IsOwned, assign_object-IsOwned, open_object-IsOwned,
}

-- What a program does with its sockets, from `s` with the loose descriptors `f`: the second index are
-- the loose descriptors then. A descriptor that the system opens was not open, and `::close` itself is
-- called for loose descriptors only.
pub data Uses (f : ℕ → Bool) (s : Sockets) : (ℕ → Bool) → Outcome Sockets → Type 0 where
  begins : Uses f s f (done s)
  opens :
      {g : ℕ → Bool} {t : Sockets} (i fd : ℕ)
      → Uses f s g (done t)
      → t.is_open fd ≡ false
      → Uses f s g (done (open_object i fd t))
  closes :
      {g : ℕ → Bool} {t : Sockets} (i : ℕ) → Uses f s g (done t) → Uses f s g (close_object i t)
  moves :
      {g : ℕ → Bool} {t : Sockets} (i j : ℕ)
      → Uses f s g (done t)
      → Uses f s g (done (take_over i j t))
  assigns :
      {g : ℕ → Bool} {t : Sockets} (i j : ℕ)
      → Uses f s g (done t)
      → Uses f s g (assign_object i j t)
  releases :
      {g : ℕ → Bool} {t : Sockets} (i : ℕ)
      → Uses f s g (done t)
      → Uses f s (hand_over (release_object i t).0 g) (done (release_object i t).1)
  closes_loose :
      {g : ℕ → Bool} {t : Sockets} (fd : ℕ)
      → Uses f s g (done t)
      → g fd ≡ true
      → Uses f s (mark fd false g) (close_fd fd t)

reached :
    (g : ℕ → Bool) (t : Sockets) → (u : Sockets) × (done t ≡ done u) × IsOwned g u → IsOwned g t
reached g t (u, e, owned) = subst (IsOwned g) (sym (done-injective e)) owned

-- Whatever a program does with its socket objects, in any order, with `::close` for descriptors that
-- `release` gave it and that it has not closed: if at first each descriptor that an object holds or that
-- is loose is open and has no other owner, then no descriptor is closed that is not open, and each
-- descriptor that an object holds or that is loose is open and has no other owner: a released one is
-- held by no object any more.
pub Uses-IsOwned :
    (f : ℕ → Bool) (s : Sockets) (g : ℕ → Bool) (o : Outcome Sockets)
    → Uses f s g o
    → IsOwned f s
    → (t : Sockets) × (o ≡ done t) × IsOwned g t
Uses-IsOwned f s g o begins h = (s, refl, h)
Uses-IsOwned f s g o (opens {t = t} i fd u free) h =
    let k = Uses-IsOwned f s g (done t) u h in
    (open_object i fd t, refl, open_object-IsOwned i fd g t (reached g t k) free)
Uses-IsOwned f s g o (closes {t = t} i u) h =
    let k = Uses-IsOwned f s g (done t) u h in close_object-IsOwned i g t (reached g t k)
Uses-IsOwned f s g o (moves {t = t} i j u) h =
    let k = Uses-IsOwned f s g (done t) u h in
    (take_over i j t, refl, take_over-IsOwned i j g t (reached g t k))
Uses-IsOwned f s g o (assigns {t = t} i j u) h =
    let k = Uses-IsOwned f s g (done t) u h in assign_object-IsOwned i j g t (reached g t k)
Uses-IsOwned f s g o (releases {g = g'} {t = t} i u) h =
    let k = Uses-IsOwned f s g' (done t) u h in
    ((release_object i t).1, refl, release_object-IsOwned i g' t (reached g' t k))
Uses-IsOwned f s g o (closes_loose {g = g'} {t = t} fd u on) h =
    let k = Uses-IsOwned f s g' (done t) u h in close_fd-IsOwned fd g' t (reached g' t k) on
