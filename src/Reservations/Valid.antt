-- ===== src/Reservations/Valid.antt =====
-- The invariant of the reservation table of an ordinary hotel, and that a write keeps it
-- (backend/src/modules/reservations/reservations.service.ts).
use kars_hotel.Base.{
  ℕ, suc, ◌≤◌, ◌<◌, ◌≡◌, sym, ap, ◌∙◌, ◌≢◌, ◌⊎◌, inl, inr, false, some, [], ◌∷◌, ◌++◌, ==_iff,
  arith, In, In-append, In-find, find-some, subst,
}
use kars_hotel.Hotel.{Hotel, Reservation, find_reservation, update_reservation}
use kars_hotel.Reservations.Kept.{SameTables}
use kars_hotel.Reservations.Exclusive.{
  clash, IsExclusive, append-IsExclusive, update-IsExclusive, update-In,
}

pub record IsValid (h : Hotel) : Type 0 where
  pub unique : (r s : Reservation) → In r h.reservations → In s h.reservations → r.id ≡ s.id → r ≡ s
  pub fresh : (r : Reservation) → In r h.reservations → r.id < h.next_id
  pub exclusive : IsExclusive h.reservations

-- The row that a search by id finds is the only one with the id.
pub find_unique :
    (h : Hotel) (v : IsValid h) (id : ℕ) (cur r : Reservation)
    → find_reservation id h.reservations ≡ some cur
    → In r h.reservations
    → r.id ≡ id
    → r ≡ cur
find_unique h v id cur r found i e =
    v.unique r cur i (In-find _ h.reservations cur found)
      (e ∙ sym ((==_iff cur.id id).0 (find-some _ h.reservations cur found)))

-- A new row that clashes with none, under the next number of the generator.
pub append-IsValid :
    (h h' : Hotel) (n : Reservation)
    → IsValid h
    → n.id ≡ h.next_id
    → h'.reservations ≡ h.reservations ++ n ∷ []
    → suc h.next_id ≤ h'.next_id
    → ((s : Reservation) → In s h.reservations → clash n s ≡ false)
    → IsValid h'
append-IsValid h h' n v e rs ids new = record {
  unique = λ r s ir is q.
      rows r s (In-append h.reservations (n ∷ []) r (subst (In r) rs ir))
        (In-append h.reservations (n ∷ []) s (subst (In s) rs is)) q;
  fresh = λ r ir. below r (In-append h.reservations (n ∷ []) r (subst (In r) rs ir));
  exclusive = subst IsExclusive (sym rs) (append-IsExclusive h.reservations n v.exclusive new);
}
  where
    rows :
        (r s : Reservation)
        → In r h.reservations ⊎ In r (n ∷ [])
        → In s h.reservations ⊎ In s (n ∷ [])
        → r.id ≡ s.id
        → r ≡ s
    rows r s (inl a) (inl b) q = v.unique r s a b q
    rows r s (inl a) (inr (inl b)) q =
        absurd (omega (arith, v.fresh r a, q, ap (λ (x : Reservation). x.id) b, e))
    rows r s (inr (inl a)) (inl b) q =
        absurd (omega (arith, v.fresh s b, q, ap (λ (x : Reservation). x.id) a, e))
    rows r s (inr (inl a)) (inr (inl b)) q = a ∙ sym b
    rows r s (inl a) (inr (inr f)) q = absurd f
    rows r s (inr (inr f)) b q = absurd f
    rows r s (inr (inl a)) (inr (inr f)) q = absurd f

    below : (r : Reservation) → In r h.reservations ⊎ In r (n ∷ []) → r.id < h'.next_id
    below r (inl a) = omega (arith, v.fresh r a)
    below r (inr (inl a)) = omega (arith, ap (λ (x : Reservation). x.id) a, e)
    below r (inr (inr f)) = absurd f

-- A write over the row with one id: it is enough that the row written over the one that was read
-- clashes with no other.
pub update-IsValid :
    (id : ℕ) (f : Reservation → Reservation) (h h' : Hotel) (cur : Reservation)
    → IsValid h
    → ((r : Reservation) → (f r).id ≡ r.id)
    → find_reservation id h.reservations ≡ some cur
    → h'.reservations ≡ update_reservation id f h.reservations
    → h.next_id ≤ h'.next_id
    → ((s : Reservation) → In s h.reservations → s.id ≢ id → clash (f cur) s ≡ false)
    → IsValid h'
update-IsValid id f h h' cur v same found rs ids new = record {
  unique = λ r s ir is q.
      let (a, ia, ca) = update-In id f h.reservations r (subst (In r) rs ir) in
      let (b, ib, cb) = update-In id f h.reservations s (subst (In s) rs is) in
      rows r s a b ia ib ca cb q;
  fresh = λ r ir.
      let (a, ia, ca) = update-In id f h.reservations r (subst (In r) rs ir) in below r a ia ca;
  exclusive = subst IsExclusive (sym rs) (
      update-IsExclusive id f h.reservations same v.exclusive
        (λ r s ir idr is ids'. rw (find_unique h v id cur r found ir idr) (new s is ids')));
}
  where
    rows :
        (r s a b : Reservation)
        → In a h.reservations
        → In b h.reservations
        → ((a.id ≡ id) × (r ≡ f a)) ⊎ ((a.id ≢ id) × (r ≡ a))
        → ((b.id ≡ id) × (s ≡ f b)) ⊎ ((b.id ≢ id) × (s ≡ b))
        → r.id ≡ s.id
        → r ≡ s
    rows r s a b ia ib (inl (p, ea)) (inl (q, eb)) e =
        ea ∙ ap f (v.unique a b ia ib (p ∙ sym q)) ∙ sym eb
    rows r s a b ia ib (inl (p, ea)) (inr (q, eb)) e = absurd (
        q (
          ap (λ (x : Reservation). x.id) (sym eb)
          ∙ sym e
          ∙ ap (λ (x : Reservation). x.id) ea
          ∙ same a
          ∙ p))
    rows r s a b ia ib (inr (p, ea)) (inl (q, eb)) e = absurd (
        p (
          ap (λ (x : Reservation). x.id) (sym ea)
          ∙ e
          ∙ ap (λ (x : Reservation). x.id) eb
          ∙ same b
          ∙ q))
    rows r s a b ia ib (inr (p, ea)) (inr (q, eb)) e =
        ea
        ∙ v.unique a b ia ib
            (ap (λ (x : Reservation). x.id) (sym ea) ∙ e ∙ ap (λ (x : Reservation). x.id) eb)
        ∙ sym eb

    below :
        (r a : Reservation)
        → In a h.reservations
        → ((a.id ≡ id) × (r ≡ f a)) ⊎ ((a.id ≢ id) × (r ≡ a))
        → r.id < h'.next_id
    below r a ia (inl (p, ea)) =
        omega (arith, v.fresh a ia, ap (λ (x : Reservation). x.id) ea, same a)
    below r a ia (inr (p, ea)) = omega (arith, v.fresh a ia, ap (λ (x : Reservation). x.id) ea)

-- A write that moves no booking and brings none back to life.
pub quiet-IsValid :
    (id : ℕ) (f : Reservation → Reservation) (h h' : Hotel) (cur : Reservation)
    → IsValid h
    → ((r : Reservation) → (f r).id ≡ r.id)
    → find_reservation id h.reservations ≡ some cur
    → h'.reservations ≡ update_reservation id f h.reservations
    → h.next_id ≤ h'.next_id
    → ((s : Reservation) → clash cur s ≡ false → clash (f cur) s ≡ false)
    → IsValid h'
quiet-IsValid id f h h' cur v same found rs ids quiet =
    update-IsValid id f h h' cur v same found rs ids (λ s is ne. quiet s (
      v.exclusive cur s (In-find _ h.reservations cur found) is
        (λ q. ne (sym q ∙ (==_iff cur.id id).0 (find-some _ h.reservations cur found)))))

-- What follows a transaction.
pub SameTables-IsValid : (h h' : Hotel) → SameTables h h' → IsValid h → IsValid h'
SameTables-IsValid h h' t v = record {
  unique =
      subst (λ rs. (r s : Reservation) → In r rs → In s rs → r.id ≡ s.id → r ≡ s)
        (sym t.reservations) v.unique;
  fresh = λ r ir. omega (arith, v.fresh r (subst (In r) t.reservations ir), t.ids);
  exclusive = subst IsExclusive (sym t.reservations) v.exclusive;
}
