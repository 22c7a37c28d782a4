-- ===== src/Rooms/Archive.antt =====
-- The archive of rooms (backend/src/modules/rooms/rooms.service.ts, `archive`, `archiveMany` and
-- `restore`).
use kars_hotel.Base.{
  List, [], ◌∷◌, ◌⊎◌, ◌&&◌, ℕ, zero, suc, ◌<◌, ◌≡◌, refl, sym, ap, ◌∙◌, subst, ◌↔◌, inl, inr, true,
  false, Option, none, some, ◌==◌, ==_iff, ltb, lt→ltb, find-map, map-map-back, arith, In, In-find,
  find-some, Bool-cases, if◌then◌else◌,
}
use kars_hotel.Base.Result.{Result, ok, err, ok-injective, refuse_if-then}
use kars_hotel.Hotel.{Reservation, Status, new, confirmed, checked_in}
use kars_hotel.Rooms.Fund.{
  is_live, Room, Fund, RoomRefusal, find_room, update_room, note, room_archived, live_reservations,
}
use kars_hotel.Rooms.Service.{
  live_count, put_away, archive, archive_row, take_back, restore, restore_row,
}
use kars_hotel.Rooms.Kept.{Tidy}

take_back-put_away :
    (now : ℕ) (actor : Option ℕ) (x : Room)
    → x.is_active ≡ true
    → x.archived_at ≡ none
    → x.archived_by ≡ none
    → take_back (put_away now actor x) ≡ x
take_back-put_away now actor x on none_at nobody = ground arith

-- The reservation is still to come, or its guests are there.
abbrev pub Awaited : Status → Type 0
Awaited status = (status ≡ new) ⊎ ((status ≡ confirmed) ⊎ (status ≡ checked_in))

is_live-Awaited : (status : Status) → (is_live status ≡ true) ↔ Awaited status
is_live-Awaited status = ground arith

pub live_count-none :
    (id : ℕ) (vs : List Reservation)
    → live_count id vs ≡ 0
    → (v : Reservation) → In v vs
    → v.room_id ≡ id
    → Awaited v.status
    → ⊥
unfolding live_count
live_count-none id [] e v i q w = absurd i
live_count-none id (x ∷ vs) e v (inl same) q w = ground (
  arith,
  (is_live-Awaited v.status).1 w,
  ap (λ (y : Reservation). y.status) same,
  ap (λ (y : Reservation). y.room_id) same,
  (==_iff v.room_id id).1 q,
  e,
)
live_count-none id (x ∷ vs) e v (inr i) q w = live_count-none id vs (ground (arith, e)) v i q w

pub live_count-some :
    (id : ℕ) (vs : List Reservation) (n : ℕ)
    → live_count id vs ≡ suc n
    → (v : Reservation) × In v vs × (v.room_id ≡ id) × Awaited v.status
unfolding live_count
live_count-some id [] n e = absurd (omega (arith, e))
live_count-some id (x ∷ vs) n e = elim (Bool-cases (x.room_id == id && is_live x.status)) [
  | inl y ↦ (
    x,
    inl refl,
    (==_iff x.room_id id).0 (ground arith),
    (is_live-Awaited x.status).0 (ground arith),
  )
  | inr m ↦ let (v, i, q, w) = live_count-some id vs n (rw m at e) in (v, inr i, q, w)
]

module _ (id now : ℕ) (actor : Option ℕ) (f : Fund) (r : Room)
    (found : find_room id f.rooms ≡ some r) (in_use : r.archived_at ≡ none) where
  abbrev pub away : Fund
  away =
      note room_archived (some id)
        (record f { rooms = update_room id (put_away now actor) f.rooms })

  pub away-row : find_room id away.rooms ≡ some (put_away now actor r)
  away-row =
      find-map (λ (x : Room). x.id == id) (λ x. if x.id == id then put_away now actor x else x)
        (λ x. elim (Bool-cases (x.id == id)) [ inl y ↦ rw y y | inr n ↦ rw n n ]) f.rooms r found
      ∙ rw (find-some (λ (x : Room). x.id == id) f.rooms r found) refl

  archive-row : archive id now actor f ≡ archive_row id now actor r none f
  unfolding archive
  archive-row = rw found (ap (λ o. archive_row id now actor r o f) in_use)

  pub archive_cases :
      ((archive id now actor f ≡ ok (some now, away)) ↔ (live_count id f.reservations ≡ 0))
      × ((archive id now actor f ≡ err (live_reservations r.number (live_count id f.reservations)))
          ↔ (0 < live_count id f.reservations))
  archive_cases = split (live_count id f.reservations) refl
    where
      split :
          (n : ℕ)
          → live_count id f.reservations ≡ n
          → ((archive id now actor f ≡ ok (some now, away)) ↔ (n ≡ 0))
            × ((archive id now actor f ≡ err (live_reservations r.number n)) ↔ (0 < n))
      split zero e =
          let free : archive id now actor f ≡ ok (some now, away) = archive-row ∙ rw e refl in
          ((λ h. refl, λ h. free), (λ h. absurd (clash (sym free ∙ h)), λ h. absurd (omega arith)))
        where
          clash :
              ◌≡◌ {A = Result RoomRefusal (Option ℕ × Fund)}
                (ok (some now, away))
                (err (live_reservations r.number 0))
              → ⊥
          clash q = cc
      split (suc n) e =
          let busy : archive id now actor f ≡ err (live_reservations r.number (suc n)) =
            archive-row ∙ rw (e, lt→ltb 0 (suc n) (omega arith)) refl in
          (
            (λ h. absurd (clash (sym busy ∙ h)), λ h. absurd (omega arith)),
            (λ h. omega arith, λ h. busy),
          )
        where
          clash :
              ◌≡◌ {A = Result RoomRefusal (Option ℕ × Fund)}
                (err (live_reservations r.number (suc n)))
                (ok (some now, away))
              → ⊥
          clash q = cc

  no_both :
      {out : Option ℕ × Fund} {why : RoomRefusal}
      → archive id now actor f ≡ ok out
      → archive id now actor f ≡ err why
      → ⊥
  no_both p q = cc

  split_count :
      (n : ℕ)
      → live_count id f.reservations ≡ n
      → (((f' : Fund) × (archive id now actor f ≡ ok (some now, f'))
            × (find_room id f'.rooms
                ≡ some
                    (record r { is_active = false; archived_at = some now; archived_by = actor })))
          ↔ ((v : Reservation) → In v f.reservations → v.room_id ≡ id → Awaited v.status → ⊥))
        × (((why : RoomRefusal) × (archive id now actor f ≡ err why))
            ↔ ((v : Reservation) × In v f.reservations × (v.room_id ≡ id) × Awaited v.status))
  split_count zero e = (
    (λ h. live_count-none id f.reservations e, λ h. (away, archive_cases.0.1 e, away-row)),
    (
      λ h. absurd (no_both (archive_cases.0.1 e) h.1),
      λ h. absurd (live_count-none id f.reservations e h.0 h.1 h.2 h.3),
    ),
  )
  split_count (suc n) e =
      let busy = archive_cases.1.1 (omega (arith, e)) in
      let guest = live_count-some id f.reservations n e in
      (
        (λ h. absurd (no_both h.1 busy), λ h. absurd (h guest.0 guest.1 guest.2 guest.3)),
        (λ h. guest, λ h. (_, busy)),
      )

  -- A room in use goes to the archive, switched off and with the moment and whoever asked, exactly if
  -- no reservation of it is NEW, CONFIRMED or CHECKED_IN; it is refused exactly if there is one.
  pub archive_iff :
      (((f' : Fund) × (archive id now actor f ≡ ok (some now, f'))
          × (find_room id f'.rooms
              ≡ some (record r { is_active = false; archived_at = some now; archived_by = actor })))
        ↔ ((v : Reservation) → In v f.reservations → v.room_id ≡ id → Awaited v.status → ⊥))
      × (((why : RoomRefusal) × (archive id now actor f ≡ err why))
          ↔ ((v : Reservation) × In v f.reservations × (v.room_id ≡ id) × Awaited v.status))
  archive_iff = split_count (live_count id f.reservations) refl

  -- A room that is taken to the archive and back is as before, and so are all the others, if it was on
  -- sale and nobody had archived it.
  pub restore-archive :
      Tidy f
      → r.is_active ≡ true
      → r.archived_by ≡ none
      → (f1 : Fund) → archive id now actor f ≡ ok (some now, f1)
      → (f2 : Fund) × (restore id f1 ≡ ok f2) × (f2.rooms ≡ f.rooms)
  unfolding restore
  restore-archive tidy on nobody f1 done =
      let (free, put) =
        refuse_if-then (ltb 0 (live_count id f.reservations))
          (live_reservations r.number (live_count id f.reservations)) _ (sym archive-row ∙ done) in
      let left : away ≡ f1 = ap (λ (y : Option ℕ × Fund). y.1) (ok-injective _ _ put) in
      let still : find_room id away.rooms ≡ some (put_here r) =
        find-map (λ (x : Room). x.id == id) put_here put_here-id f.rooms r found in
      subst (λ g. (f2 : Fund) × (restore id g ≡ ok f2) × (f2.rooms ≡ f.rooms)) left
        (
          restore_row id (put_here r) (some now) away,
          rw still (ap (λ o. ok (restore_row id (put_here r) o away)) archived_now),
          map-map-back put_here (λ x. if x.id == id then take_back x else x) f.rooms back,
        )
    where
      put_here : Room → Room
      put_here x = if x.id == id then put_away now actor x else x

      put_here-id : (x : Room) → ((put_here x).id == id) ≡ (x.id == id)
      put_here-id x = elim (Bool-cases (x.id == id)) [ inl y ↦ rw y y | inr n ↦ rw n n ]

      mine : (r.id == id) ≡ true
      mine = find-some (λ (x : Room). x.id == id) f.rooms r found

      archived_now : (put_here r).archived_at ≡ some now
      archived_now = rw mine refl

      back :
          (x : Room)
          → In x f.rooms
          → (if (put_here x).id == id then take_back (put_here x) else put_here x) ≡ x
      back x i = elim (Bool-cases (x.id == id)) [
        | inr n ↦ rw n (rw n refl)
        | inl y ↦
            let same : x ≡ r =
              tidy.one x r i (In-find (λ (z : Room). z.id == id) f.rooms r found)
                ((==_iff x.id id).0 y ∙ sym ((==_iff r.id id).0 mine)) in
            rw y (
              rw y (
                take_back-put_away now actor x (ap (λ (z : Room). z.is_active) same ∙ on)
                  (ap (λ (z : Room). z.archived_at) same ∙ in_use)
                  (ap (λ (z : Room). z.archived_by) same ∙ nobody)))
      ]

-- A room that is in the archive stays there, and nothing is written.
pub archive_again :
    (id now t : ℕ) (actor : Option ℕ) (f : Fund) (r : Room)
    → find_room id f.rooms ≡ some r
    → r.archived_at ≡ some t
    → archive id now actor f ≡ ok (some t, f)
unfolding archive
archive_again id now t actor f r found gone =
    rw found (ap (λ o. archive_row id now actor r o f) gone)
