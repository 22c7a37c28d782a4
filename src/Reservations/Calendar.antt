-- ===== src/Reservations/Calendar.antt =====
-- The view of a hotel that the desk has of it: who has which night of which room. It forgets the order
-- of the rows and all that they hold beyond the nights
-- (backend/src/modules/reservations/reservations.service.ts).
use kars_hotel.Base.{
  ℕ, ◌≡◌, sym, ap, ◌∙◌, ◌⊎◌, inl, inr, Bool, true, false, Option, none, some, List, ◌==◌, ==_iff,
  ◌&&◌, ltb, leb, arith, if◌then◌else◌, In, In-find, find, find-some, find-misses, Bool-cases,
  Option-cases,
}
use kars_hotel.Hotel.{Reservation}
use kars_hotel.Reservations.Overlap.{is_live}
use kars_hotel.Reservations.Exclusive.{clash, IsExclusive}

-- Who has the night of the room.
abbrev pub Calendar : Type 0
Calendar = ℕ → ℕ → Option ℕ

-- Nights of a room, the last one left out.
pub record Span : Type 0 where
  pub room : ℕ
  pub from : ℕ
  pub to : ℕ

abbrev pub covers : Option Span → ℕ → ℕ → Bool
covers none room night = false
covers (some s) room night = s.room == room && (leb s.from night && ltb night s.to)

abbrev pub vacate : ℕ → Option ℕ → Option ℕ
vacate id none = none
vacate id (some who) = if who == id then none else some who

-- A reservation gives up its nights and gets those of the span.
unfoldable pub move : ℕ → Option Span → Calendar → Calendar
move id span c room night = if covers span room night then some id else vacate id (c room night)

-- The nights that it gets were free, or its own.
pub record Moves (id : ℕ) (span : Option Span) (before after : Calendar) : Type 0 where
  pub free :
      (room night : ℕ)
      → covers span room night ≡ true
      → (before room night ≡ none) ⊎ (before room night ≡ some id)
  pub moved : (room night : ℕ) → after room night ≡ move id span before room night

-- The nights of a row.
unfoldable pub span_of : Reservation → Option Span
span_of r =
    if is_live r.status
    then some (record { room = r.room_id; from = r.check_in; to = r.check_out })
    else none

abbrev pub sleeps : ℕ → ℕ → Reservation → Bool
sleeps room night r = covers (span_of r) room night

abbrev pub id_of : Option Reservation → Option ℕ
id_of none = none
id_of (some r) = some r.id

unfoldable pub calendar : List Reservation → Calendar
calendar rs room night = id_of (find (sleeps room night) rs)

pub calendar-row :
    (rs : List Reservation) (room night k : ℕ)
    → calendar rs room night ≡ some k
    → (r : Reservation) × In r rs × (r.id ≡ k) × (sleeps room night r ≡ true)
unfolding calendar
calendar-row rs room night k h = elim (Option-cases (find (sleeps room night) rs)) [
  | inl gone ↦ absurd (no_row (sym (ap id_of gone) ∙ h))
  | inr (r, found) ↦ (
    r,
    In-find (sleeps room night) rs r found,
    own r (sym (ap id_of found) ∙ h),
    find-some (sleeps room night) rs r found,
  )
]
  where
    no_row : ◌≡◌ {A = Option ℕ} none (some k) → ⊥
    no_row q = cc

    own : (r : Reservation) → some r.id ≡ some k → r.id ≡ k
    own r q = cc

pub calendar-free :
    (rs : List Reservation) (room night : ℕ) (r : Reservation)
    → calendar rs room night ≡ none
    → In r rs
    → sleeps room night r ≡ false
unfolding calendar
calendar-free rs room night r h i = elim (Option-cases (find (sleeps room night) rs)) [
  | inl gone ↦ find-misses (sleeps room night) rs r gone i
  | inr (x, found) ↦ absurd (no_row x (sym (ap id_of found) ∙ h))
]
  where
    no_row : (x : Reservation) → ◌≡◌ {A = Option ℕ} (some x.id) none → ⊥
    no_row x q = cc

one_bed :
    (room night : ℕ) (r s : Reservation)
    → sleeps room night r ≡ true
    → sleeps room night s ≡ true
    → clash r s ≡ true
unfolding clash span_of
one_bed room night r s p q = elim (Bool-cases (is_live r.status)) [
  | inr dead ↦ absurd (ground (arith, rw dead at p))
  | inl live ↦ elim (Bool-cases (is_live s.status)) [
    | inr dead ↦ absurd (ground (arith, rw dead at q))
    | inl live' ↦ ground (arith, rw live at p, rw live' at q)
  ]
]

-- Where no night is given twice, a row has its nights.
pub calendar-some :
    (rs : List Reservation) (room night : ℕ) (r : Reservation)
    → IsExclusive rs
    → In r rs
    → sleeps room night r ≡ true
    → calendar rs room night ≡ some r.id
calendar-some rs room night r ex i p = elim (Option-cases (calendar rs room night)) [
  | inl free ↦ absurd (ground (arith, calendar-free rs room night r free i))
  | inr (k, taken) ↦
      let (s, j, e, q) = calendar-row rs room night k taken in
      elim (Bool-cases (s.id == r.id)) [
        | inl same ↦ taken ∙ ap some (sym e ∙ (==_iff s.id r.id).0 same)
        | inr apart ↦ absurd (
            ground (
              arith,
              one_bed room night s r q p,
              ex s r j i (λ y. ground (arith, (==_iff s.id r.id).1 y)),
            ))
      ]
]
