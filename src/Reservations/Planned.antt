-- ===== src/Reservations/Planned.antt =====
-- What a write to the reservation table does to the desk's calendar
-- (backend/src/modules/reservations/reservations.service.ts).
use kars_hotel.Base.{
  ℕ, ◌≡◌, refl, sym, ap, ◌∙◌, inl, inr, Option, some, List, [], ◌∷◌, ◌==◌, ==_iff, subst,
  if◌then◌else◌, In, In-map-of, Bool-cases,
}
use kars_hotel.Hotel.{
  Hotel, Reservation, Fact, fact_checked_in, fact_checked_out, fact_no_show, update_reservation,
}
use kars_hotel.Reservations.Facts.{or_now, stamp_fact}
use kars_hotel.Reservations.Exclusive.{IsExclusive}
use kars_hotel.Reservations.Valid.{IsValid}
use kars_hotel.Reservations.Calendar.{covers, Moves, span_of, sleeps, calendar}
use kars_hotel.Reservations.Refines.{Touches, Touches-refl, update-Touches, only-Moves}

pub calendar-update :
    (id : ℕ) (f : Reservation → Reservation) (rs : List Reservation)
    → ((r : Reservation) → In r rs → r.id ≡ id → span_of (f r) ≡ span_of r)
    → ((r : Reservation) → (f r).id ≡ r.id)
    → (room night : ℕ) → calendar (update_reservation id f rs) room night ≡ calendar rs room night
unfolding calendar
calendar-update id f [] same name room night = refl
calendar-update id f (x ∷ rs) same name room night =
    let rest = calendar-update id f rs (λ r i e. same r (inr i) e) name room night in
    elim (Bool-cases (x.id == id)) [
      | inr n ↦ elim (Bool-cases (sleeps room night x)) [
        | inl y ↦ rw n (rw y refl)
        | inr m ↦ rw n (rw m rest)
      ]
      | inl mine ↦
          let e : sleeps room night (f x) ≡ sleeps room night x =
            ap (λ o. covers o room night) (same x (inl refl) ((==_iff x.id id).0 mine)) in
          elim (Bool-cases (sleeps room night x)) [
            | inl y ↦ rw mine (rw (e, y) (ap some (name x)))
            | inr m ↦ rw mine (rw (e, m) rest)
          ]
    ]

pub written :
    (id : ℕ) (f : Reservation → Reservation) (rs : List Reservation) (n : Reservation)
    → In n rs
    → n.id ≡ id
    → In (f n) (update_reservation id f rs)
written id f rs n i e =
    subst (λ x. In x (update_reservation id f rs)) (rw ((==_iff n.id id).1 e) refl)
      (In-map-of (λ r. if r.id == id then f r else r) rs n i)

-- The stamps of a fact leave everyone's nights.
pub stamp_fact-kept :
    (id : ℕ) (fact : Fact) (room : ℕ) (at : Option ℕ) (now : ℕ) (h : Hotel)
    → Touches id h.reservations (stamp_fact id fact room at now h).reservations
      × ((n : Reservation)
          → In n h.reservations
          → n.id ≡ id
          → (m : Reservation) × In m (stamp_fact id fact room at now h).reservations
            × (m.id ≡ id)
            × (span_of m ≡ span_of n))
unfolding stamp_fact span_of
stamp_fact-kept id fact_checked_in room at now h =
    let f = λ (r : Reservation). record r { checked_in_at = some (or_now at now) } in
    (
      update-Touches id f h.reservations (λ r. refl),
      λ n i e. (f n, written id f h.reservations n i e, e, refl),
    )
stamp_fact-kept id fact_checked_out room at now h =
    let f = λ (r : Reservation). record r { checked_out_at = some (or_now at now) } in
    (
      update-Touches id f h.reservations (λ r. refl),
      λ n i e. (f n, written id f h.reservations n i e, e, refl),
    )
stamp_fact-kept id fact_no_show room at now h =
    (Touches-refl id h.reservations, λ n i e. (n, i, e, refl))

-- A write over the rows of one id moves its reservation.
pub turn :
    (id : ℕ) (rs ts : List Reservation) (h' : Hotel) (n : Reservation)
    → IsExclusive rs
    → IsValid h'
    → h'.reservations ≡ ts
    → Touches id rs ts
    → In n ts
    → n.id ≡ id
    → Moves id (span_of n) (calendar rs) (calendar h'.reservations)
turn id rs ts h' n before v same touched i e =
    let there : In n h'.reservations = subst (In n) (sym same) i in
    only-Moves id rs h'.reservations n before v.exclusive there e
      (λ s j q. v.unique s n j there (q ∙ sym e))
      (λ r j ne. subst (In r) (sym same) (touched.stays r j ne))
      (λ s j ne. touched.came s (subst (In s) same j) ne)
