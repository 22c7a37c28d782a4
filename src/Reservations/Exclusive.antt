-- ===== src/Reservations/Exclusive.antt =====
-- A room of an ordinary hotel is never given twice for one night
-- (backend/src/modules/reservations/reservations.service.ts).
use kars_hotel.Base.{
  ℕ, ◌≡◌, refl, sym, ap, ◌∙◌, ◌≢◌, ◌⊎◌, inl, inr, Bool, true, false, Option, List, [], ◌∷◌, ◌++◌,
  ltb, map, ◌==◌, ==_iff, ◌&&◌, arith, if◌then◌else◌, In, In-append, In-map, select-empty, select,
  Bool-cases,
}
use kars_hotel.Hotel.{Reservation, update_reservation}
use kars_hotel.Reservations.Overlap.{is_live, in_the_way, overlapping, as_holder}

-- Two live reservations of one room share a night: each begins before the other one ends.
unfoldable pub clash : Reservation → Reservation → Bool
clash r s =
    s.room_id == r.room_id
    && (is_live r.status
        && ((ltb s.check_in r.check_out && ltb r.check_in s.check_out) && is_live s.status))

pub clash_comm : (r s : Reservation) → clash r s ≡ clash s r
unfolding clash
clash_comm r s = ground arith

abbrev pub IsExclusive : List Reservation → Type 0
IsExclusive rs = (r s : Reservation) → In r rs → In s rs → r.id ≢ s.id → clash r s ≡ false

pub overlapping-empty :
    (room ci co : ℕ) (ex : Option ℕ) (rs : List Reservation) (s : Reservation)
    → overlapping room ci co ex rs ≡ []
    → In s rs
    → in_the_way room ci co ex s ≡ false
unfolding overlapping
overlapping-empty room ci co ex rs s h m =
    select-empty (in_the_way room ci co ex) rs s
      (nil_of_map (select (in_the_way room ci co ex) rs) h) m
  where
    nil_of_map : (xs : List Reservation) → map as_holder xs ≡ [] → xs ≡ []
    nil_of_map [] e = refl
    nil_of_map (x ∷ xs) e = cc

pub append-IsExclusive :
    (rs : List Reservation) (n : Reservation)
    → IsExclusive rs
    → ((s : Reservation) → In s rs → clash n s ≡ false)
    → IsExclusive (rs ++ n ∷ [])
append-IsExclusive rs n ex new r s mr ms ne =
    both (In-append rs (n ∷ []) r mr) (In-append rs (n ∷ []) s ms)
  where
    both : In r rs ⊎ In r (n ∷ []) → In s rs ⊎ In s (n ∷ []) → clash r s ≡ false
    both (inl a) (inl b) = ex r s a b ne
    both (inl a) (inr (inl e)) = rw e (rw (clash_comm r n) (new r a))
    both (inr (inl e)) (inl b) = rw e (new s b)
    both (inr (inl e)) (inr (inl e')) = absurd (ne (cc))
    both (inl a) (inr (inr f)) = absurd f
    both (inr (inr f)) b = absurd f
    both (inr (inl e)) (inr (inr f)) = absurd f

-- A row after an edit is an edited row with the id, or another row as it was.
pub update-In :
    (id : ℕ) (f : Reservation → Reservation) (rs : List Reservation) (r : Reservation)
    → In r (update_reservation id f rs)
    → (a : Reservation) × In a rs × (((a.id ≡ id) × (r ≡ f a)) ⊎ ((a.id ≢ id) × (r ≡ a)))
update-In id f rs r m =
    let (a, i, e) = In-map (λ x. if x.id == id then f x else x) rs r m in
    (a, i, split a e (Bool-cases (a.id == id)))
  where
    split :
        (a : Reservation)
        → r ≡ (if a.id == id then f a else a)
        → ((a.id == id) ≡ true) ⊎ ((a.id == id) ≡ false)
        → ((a.id ≡ id) × (r ≡ f a)) ⊎ ((a.id ≢ id) × (r ≡ a))
    split a e (inl y) = inl ((==_iff a.id id).0 y, e ∙ rw y)
    split a e (inr n) = inr (λ q. cc ((==_iff a.id id).1 q, n), e ∙ rw n)

-- An edit of the rows with one id: it is enough that the edited row clashes with no other.
pub update-IsExclusive :
    (id : ℕ) (f : Reservation → Reservation) (rs : List Reservation)
    → ((r : Reservation) → (f r).id ≡ r.id)
    → IsExclusive rs
    → ((r s : Reservation) → In r rs → r.id ≡ id → In s rs → s.id ≢ id → clash (f r) s ≡ false)
    → IsExclusive (update_reservation id f rs)
update-IsExclusive id f rs same ex new r s mr ms ne =
    let (a, ia, ca) = update-In id f rs r mr in
    let (b, ib, cb) = update-In id f rs s ms in both a b ia ib ca cb
  where
    both :
        (a b : Reservation)
        → In a rs
        → In b rs
        → ((a.id ≡ id) × (r ≡ f a)) ⊎ ((a.id ≢ id) × (r ≡ a))
        → ((b.id ≡ id) × (s ≡ f b)) ⊎ ((b.id ≢ id) × (s ≡ b))
        → clash r s ≡ false
    both a b ia ib (inl (ida, ea)) (inl (idb, eb)) = absurd (
        ne (
          ap (λ (x : Reservation). x.id) ea
          ∙ same a
          ∙ ida
          ∙ sym (ap (λ (x : Reservation). x.id) eb ∙ same b ∙ idb)))
    both a b ia ib (inl (ida, ea)) (inr (nb, eb)) = rw (ea, eb) (new a b ia ida ib nb)
    both a b ia ib (inr (na, ea)) (inl (idb, eb)) =
        rw (ea, eb) (clash_comm a (f b) ∙ new b a ib idb ia na)
    both a b ia ib (inr (na, ea)) (inr (nb, eb)) =
        rw (ea, eb)
          (ex a b ia ib (λ q.
            ne (ap (λ (x : Reservation). x.id) ea ∙ q ∙ sym (ap (λ (x : Reservation). x.id) eb))))
