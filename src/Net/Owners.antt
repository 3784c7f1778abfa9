-- ===== src/Net/Owners.antt =====
-- Each operation on a socket object keeps one owner for every descriptor.
use exchnage_simulator.Prelude.{
  ℕ, ◌≡◌, ◌≢◌, ◌⊎◌, refl, sym, ap, ◌∙◌, Bool, Option, none, true, false, true≢false, Bool-cases,
  inl, inr, Option-cases, some, ◌==◌, ==→eq, ==→ne, done, arith,
}
use exchnage_simulator.Net.{
  TcpSocket, empty_socket, socket_of, Sockets, store_object, mark, close_fd, open_object,
  close_object, take_over, assign_object, release_object,
}

-- `loose` are the descriptors that `release` gave to the program. Every descriptor that an object holds
-- or that is loose is open, no two objects hold the same one, and none that is held is loose.
pub record IsOwned (loose : ℕ → Bool) (s : Sockets) : Type 0 where
  pub live : (i fd : ℕ) → (s.objects i).fd ≡ some fd → s.is_open fd ≡ true
  pub sole : (i j fd : ℕ) → (s.objects i).fd ≡ some fd → (s.objects j).fd ≡ some fd → i ≡ j
  pub loose_live : (fd : ℕ) → loose fd ≡ true → s.is_open fd ≡ true
  pub apart : (i fd : ℕ) → (s.objects i).fd ≡ some fd → loose fd ≡ false

-- What `release` returns is loose.
abbrev pub hand_over : Option ℕ → (ℕ → Bool) → ℕ → Bool
hand_over none loose = loose
hand_over (some fd) loose = mark fd true loose

module _ (i : ℕ) (m : ℕ → TcpSocket) where
  emptied :
      (j fd : ℕ) → (store_object i empty_socket m j).fd ≡ some fd → (i ≢ j) × ((m j).fd ≡ some fd)
  unfolding store_object empty_socket
  emptied j fd e = elim (Bool-cases (i == j)) [
    | inl k ↦ ground arith
    | inr k ↦ (==→ne i j k, ground arith)
  ]

module _ (fd d : ℕ) (b : Bool) (m : ℕ → Bool) where
  mark_self : fd ≡ d → mark fd b m d ≡ b
  unfolding mark
  mark_self e = ground (arith, e)

  mark_ne : fd ≢ d → mark fd b m d ≡ m d
  unfolding mark
  mark_ne e = ground (arith, e)

pub release_object-IsOwned :
    (i : ℕ) (loose : ℕ → Bool) (s : Sockets)
    → IsOwned loose s
    → IsOwned (hand_over (release_object i s).0 loose) (release_object i s).1
unfolding release_object
release_object-IsOwned i loose s h = by_fd (s.objects i).fd refl
  where
    by_fd :
        (o : Option ℕ)
        → (s.objects i).fd ≡ o
        → IsOwned (hand_over o loose) (record s { objects = store_object i empty_socket s.objects })
    by_fd none e = record {
      live = λ j fd f. h.live j fd (emptied i s.objects j fd f).1;
      sole =
          λ j k fd f g. h.sole j k fd (emptied i s.objects j fd f).1 (emptied i s.objects k fd g).1;
      loose_live = h.loose_live;
      apart = λ j fd f. h.apart j fd (emptied i s.objects j fd f).1;
    }
    by_fd (some fd) e = record {
      live = λ j d f. h.live j d (emptied i s.objects j d f).1;
      sole = λ j k d f g. h.sole j k d (emptied i s.objects j d f).1 (emptied i s.objects k d g).1;
      loose_live = λ d f. elim (Bool-cases (fd == d)) [
        | inl k ↦ h.live i d (rw (← ==→eq fd d k) e)
        | inr k ↦ h.loose_live d (sym (mark_ne fd d true loose (==→ne fd d k)) ∙ f)
      ];
      apart = λ j d f.
          let (ne, at) = emptied i s.objects j d f in
          elim (Bool-cases (fd == d)) [
            | inl k ↦ absurd (ne (h.sole i j d (rw (← ==→eq fd d k) e) at))
            | inr k ↦ mark_ne fd d true loose (==→ne fd d k) ∙ h.apart j d at
          ];
    }

-- A descriptor that is loose is closed.
pub close_fd-IsOwned :
    (fd : ℕ) (loose : ℕ → Bool) (s : Sockets)
    → IsOwned loose s
    → loose fd ≡ true
    → (t : Sockets) × (close_fd fd s ≡ done t) × IsOwned (mark fd false loose) t
unfolding close_fd
close_fd-IsOwned fd loose s h on = (
  record s { is_open = mark fd false s.is_open },
  rw (close_fd, h.loose_live fd on) refl,
  record {
    live = λ j d f. mark_ne fd d false s.is_open (λ k. clash d k (h.apart j d f)) ∙ h.live j d f;
    sole = h.sole;
    loose_live = λ d f. elim (Bool-cases (fd == d)) [
      | inl k ↦ absurd (true≢false (sym f ∙ mark_self fd d false loose (==→eq fd d k)))
      | inr k ↦
          mark_ne fd d false s.is_open (==→ne fd d k)
          ∙ h.loose_live d (sym (mark_ne fd d false loose (==→ne fd d k)) ∙ f)
    ];
    apart = λ j d f. mark_ne fd d false loose (λ k. clash d k (h.apart j d f)) ∙ h.apart j d f;
  },
)
  where
    clash : (d : ℕ) → fd ≡ d → loose d ≡ false → ⊥
    clash d k off = true≢false (sym on ∙ ap loose k ∙ off)

pub close_object-IsOwned :
    (i : ℕ) (loose : ℕ → Bool) (s : Sockets)
    → IsOwned loose s
    → (t : Sockets) × (close_object i s ≡ done t) × IsOwned loose t
unfolding close_object close_fd mark
close_object-IsOwned i loose s h = elim (Option-cases (s.objects i).fd) [
  | inl e ↦ (s, rw (close_object, e) refl, h)
  | inr (fd, e) ↦
      let on = h.live i fd e in
      (
        record {
          objects = store_object i empty_socket s.objects;
          is_open = mark fd false s.is_open;
        },
        rw (close_object, e, close_fd, on) refl,
        record {
          live = λ j d f.
              let (ne, at) = emptied i s.objects j d f in
              elim (Bool-cases (fd == d)) [
                | inl k ↦ absurd (ne (h.sole i j d (rw (← ==→eq fd d k) e) at))
                | inr k ↦ rw k (h.live j d at)
              ];
          sole =
              λ j k d f g. h.sole j k d (emptied i s.objects j d f).1 (emptied i s.objects k d g).1;
          loose_live = λ d f. elim (Bool-cases (fd == d)) [
            | inl k ↦ absurd (true≢false (sym f ∙ h.apart i d (rw (← ==→eq fd d k) e)))
            | inr k ↦ rw k (h.loose_live d f)
          ];
          apart = λ j d f. h.apart j d (emptied i s.objects j d f).1;
        },
      )
]

module _ (i j : ℕ) (m : ℕ → TcpSocket) where
  taken :
      (k fd : ℕ)
      → (store_object j empty_socket (store_object i (m j) m) k).fd ≡ some fd
      → (j ≢ k) × (((i ≡ k) × ((m j).fd ≡ some fd)) ⊎ ((m k).fd ≡ some fd))
  unfolding store_object
  taken k fd e =
      let (ne, at) = emptied j (store_object i (m j) m) k fd e in
      elim (Bool-cases (i == k)) [
        | inl b ↦ (ne, inl (==→eq i k b, ground arith))
        | inr b ↦ (ne, inr (ground arith))
      ]

pub take_over-IsOwned :
    (i j : ℕ) (loose : ℕ → Bool) (s : Sockets) → IsOwned loose s → IsOwned loose (take_over i j s)
unfolding take_over
take_over-IsOwned i j loose s h = record {
  live = λ k fd e. elim (taken i j s.objects k fd e).1 [
    | inl (a, at) ↦ h.live j fd at
    | inr at ↦ h.live k fd at
  ];
  sole = λ k l fd e f.
      let (ne, from) = taken i j s.objects k fd e in
      let (ne', from') = taken i j s.objects l fd f in by_sources k l fd ne ne' from from';
  loose_live = h.loose_live;
  apart = λ k fd e. elim (taken i j s.objects k fd e).1 [
    | inl (a, at) ↦ h.apart j fd at
    | inr at ↦ h.apart k fd at
  ];
}
  where
    by_sources :
        (k l fd : ℕ)
        → j ≢ k
        → j ≢ l
        → ((i ≡ k) × ((s.objects j).fd ≡ some fd)) ⊎ ((s.objects k).fd ≡ some fd)
        → ((i ≡ l) × ((s.objects j).fd ≡ some fd)) ⊎ ((s.objects l).fd ≡ some fd)
        → k ≡ l
    by_sources k l fd ne ne' (inl (a, at)) (inl (b, bt)) = sym a ∙ b
    by_sources k l fd ne ne' (inl (a, at)) (inr bt) = absurd (ne' (h.sole j l fd at bt))
    by_sources k l fd ne ne' (inr at) (inl (b, bt)) = absurd (ne (h.sole j k fd bt at))
    by_sources k l fd ne ne' (inr at) (inr bt) = h.sole k l fd at bt

pub assign_object-IsOwned :
    (i j : ℕ) (loose : ℕ → Bool) (s : Sockets)
    → IsOwned loose s
    → (t : Sockets) × (assign_object i j s ≡ done t) × IsOwned loose t
unfolding assign_object
assign_object-IsOwned i j loose s h = elim (Bool-cases (i == j)) [
  | inl e ↦ (s, rw (assign_object, e) refl, h)
  | inr e ↦
      let (t, closes, owned) = close_object-IsOwned i loose s h in
      (take_over i j t, rw (assign_object, e, closes) refl, take_over-IsOwned i j loose t owned)
]

module _ (i fd : ℕ) (loose : ℕ → Bool) (s : Sockets) (h : IsOwned loose s)
    (free : s.is_open fd ≡ false) where
  opened :
      (k d : ℕ)
      → (store_object i (socket_of fd) s.objects k).fd ≡ some d
      → ((i ≡ k) × (fd ≡ d)) ⊎ ((s.objects k).fd ≡ some d)
  unfolding store_object socket_of
  opened k d e = elim (Bool-cases (i == k)) [
    | inl b ↦ inl (==→eq i k b, ground arith)
    | inr b ↦ inr (ground arith)
  ]

  pub open_object-IsOwned : IsOwned loose (open_object i fd s)
  unfolding open_object mark
  open_object-IsOwned = record {
    live = λ k d e. elim (opened k d e) [
      | inl (a, b) ↦ ground arith
      | inr at ↦ elim (Bool-cases (fd == d)) [ inl b ↦ rw b refl | inr b ↦ rw b (h.live k d at) ]
    ];
    sole = λ k l d e f. by_sources k l d (opened k d e) (opened l d f);
    loose_live =
        λ d f. elim (Bool-cases (fd == d)) [ inl b ↦ rw b refl | inr b ↦ rw b (h.loose_live d f) ];
    apart = λ k d e. elim (opened k d e) [ inl (a, b) ↦ closed d b | inr at ↦ h.apart k d at ];
  }
    where
      closed : (d : ℕ) → fd ≡ d → loose d ≡ false
      closed d b = elim (Bool-cases (loose d)) [
        | inl on ↦ absurd (true≢false (sym (h.loose_live d on) ∙ ap s.is_open (sym b) ∙ free))
        | inr off ↦ off
      ]

      by_sources :
          (k l d : ℕ)
          → ((i ≡ k) × (fd ≡ d)) ⊎ ((s.objects k).fd ≡ some d)
          → ((i ≡ l) × (fd ≡ d)) ⊎ ((s.objects l).fd ≡ some d)
          → k ≡ l
      by_sources k l d (inl (a, at)) (inl (b, bt)) = sym a ∙ b
      by_sources k l d (inl (a, at)) (inr bt) = let on = h.live l d bt in ground arith
      by_sources k l d (inr at) (inl (b, bt)) = let on = h.live k d at in ground arith
      by_sources k l d (inr at) (inr bt) = h.sole k l d at bt
