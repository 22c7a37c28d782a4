-- ===== src/Rooms/Many.antt =====
-- Many rooms at once do what one by one would (backend/src/modules/rooms/rooms.service.ts,
-- `archiveMany` and `createMany`).
use kars_hotel.Base.{
  ℕ, zero, suc, ◌≡◌, refl, sym, ap, ◌∙◌, ◌⊎◌, inl, inr, true, false, not, Option, none, some, List,
  [], ◌∷◌, map, ◌==◌, ==_iff, ◌&&◌, find-map, arith, In, In-find, find-some, select, select-In,
  In-select, contains, Bool-cases, if◌then◌else◌,
}
use kars_hotel.Base.Result.{Result-cases, Result, ok, err, ok-injective}
use kars_hotel.Rooms.Fund.{Room, Fund, RoomRefusal, is_archived, find_room, live_reservations}
use kars_hotel.Rooms.Service.{live_count, put_away, archive}
use kars_hotel.Rooms.Bulk.{archive_many, is_fresh, ids_of, note_fresh, asked_rooms, unique_ids}
use kars_hotel.Rooms.Archive.{away, away-row, archive_cases, archive_again}
use kars_hotel.Rooms.KeptBulk.{contains-ids_of}

unique_ids-contains :
    (id : ℕ) (ids seen : List ℕ)
    → contains id ids ≡ true
    → (contains id (unique_ids ids seen) ≡ true) ⊎ (contains id seen ≡ true)
unfolding unique_ids
unique_ids-contains id [] seen h = cc
unique_ids-contains id (x ∷ ids) seen h = elim (Bool-cases (contains x seen)) [
  | inl known ↦ elim (Bool-cases (id == x)) [
    | inl same ↦ inr (ap (λ n. contains n seen) ((==_iff id x).0 same) ∙ known)
    | inr apart ↦ elim (unique_ids-contains id ids seen (ground arith)) [
      | inl i ↦ inl (rw known i)
      | inr j ↦ inr j
    ]
  ]
  | inr fresh ↦ elim (Bool-cases (id == x)) [
    | inl same ↦ inl (rw fresh (ground arith))
    | inr apart ↦ elim (unique_ids-contains id ids (x ∷ seen) (ground arith)) [
      | inl i ↦ inl (rw fresh (ground arith))
      | inr j ↦ inr (ground arith)
    ]
  ]
]

ids_of-contains : (x : Room) (xs : List Room) → In x xs → contains x.id (ids_of xs) ≡ true
ids_of-contains x [] i = absurd i
ids_of-contains x (y ∷ xs) (inl e) = rw e (ground arith)
ids_of-contains x (y ∷ xs) (inr i) = ground (arith, ids_of-contains x xs i)

-- What `archive_many` makes of the room by what `archive` answers.
archive_many-cases :
    (ids : List ℕ) (id now : ℕ) (actor : Option ℕ) (f : Fund) (r : Room)
    → contains id ids ≡ true
    → find_room id f.rooms ≡ some r
    → ((at : Option ℕ) (f1 : Fund)
        → archive id now actor f ≡ ok (at, f1)
        → find_room id (archive_many ids now actor f).1.rooms ≡ find_room id f1.rooms)
      × ((why : RoomRefusal)
          → archive id now actor f ≡ err why
          → find_room id (archive_many ids now actor f).1.rooms ≡ some r)
unfolding archive_many
archive_many-cases ids id now actor f r asked found =
    by_state r.archived_at refl (live_count id f.reservations) refl
  where
    mine : (r.id == id) ≡ true
    mine = find-some (λ (x : Room). x.id == id) f.rooms r found

    same_id : r.id ≡ id
    same_id = (==_iff r.id id).0 mine

    rooms : List Room
    rooms = asked_rooms (unique_ids ids []) f.rooms

    fresh : List Room
    fresh = select (is_fresh f.reservations) rooms

    change : Room → Room
    change x =
        if contains x.id (ids_of fresh) && not (is_archived x) then put_away now actor x else x

    change-id : (x : Room) → ((change x).id == id) ≡ (x.id == id)
    change-id x = elim (Bool-cases (contains x.id (ids_of fresh) && not (is_archived x))) [
      | inl y ↦ rw y refl
      | inr n ↦ rw n refl
    ]

    noted : (rs : List Room) (g : Fund) → (note_fresh rs g).rooms ≡ g.rooms
    noted [] g = refl
    noted (x ∷ rs) g = refl

    many : find_room id (archive_many ids now actor f).1.rooms ≡ some (change r)
    many =
        ap (find_room id) (noted fresh (record f { rooms = map change f.rooms }))
        ∙ find-map (λ (x : Room). x.id == id) change change-id f.rooms r found

    in_asked : In r rooms
    in_asked =
        In-select (λ (x : Room). contains x.id (unique_ids ids [])) f.rooms r
          (In-find (λ (x : Room). x.id == id) f.rooms r found)
          (elim (unique_ids-contains id ids [] asked) [
            | inl y ↦ ap (λ n. contains n (unique_ids ids [])) same_id ∙ y
            | inr n ↦ absurd (ground (arith, n))
          ])

    unchanged : (contains r.id (ids_of fresh) && not (is_archived r)) ≡ false → change r ≡ r
    unchanged n = rw n refl

    Outcome : Type 0
    Outcome =
        ((at : Option ℕ) (f1 : Fund)
          → archive id now actor f ≡ ok (at, f1)
          → find_room id (archive_many ids now actor f).1.rooms ≡ find_room id f1.rooms)
        × ((why : RoomRefusal)
            → archive id now actor f ≡ err why
            → find_room id (archive_many ids now actor f).1.rooms ≡ some r)

    settled :
        (at : Option ℕ) (f1 : Fund)
        → archive id now actor f ≡ ok (at, f1)
        → find_room id f1.rooms ≡ some (change r)
        → Outcome
    settled at f1 e same = (
      λ at' g h.
          many
          ∙ sym same
          ∙ ap (λ (y : Option ℕ × Fund). find_room id y.1.rooms) (ok-injective _ _ (sym e ∙ h)),
      λ why h. absurd (clash at f1 why (sym e ∙ h)),
    )
      where
        clash :
            (at : Option ℕ) (f1 : Fund) (why : RoomRefusal)
            → ◌≡◌ {A = Result RoomRefusal (Option ℕ × Fund)} (ok (at, f1)) (err why)
            → ⊥
        clash at f1 why q = cc

    by_state :
        (o : Option ℕ) → r.archived_at ≡ o → (n : ℕ) → live_count id f.reservations ≡ n → Outcome
    by_state (some t) gone n e =
        settled (some t) f (archive_again id now t actor f r found gone)
          (found ∙ ap some (sym (unchanged (ground (arith, gone)))))
    by_state none here zero e =
        settled (some now) (away id now actor f r found here)
          ((archive_cases id now actor f r found here).0.1 e)
          (away-row id now actor f r found here ∙ ap some (sym (rw put refl)))
      where
        is_free : is_fresh f.reservations r ≡ true
        is_free = ground (arith, here, ap (λ k. live_count k f.reservations) same_id, e)

        put : (contains r.id (ids_of fresh) && not (is_archived r)) ≡ true
        put = ground (
          arith,
          here,
          ids_of-contains r fresh (In-select (is_fresh f.reservations) rooms r in_asked is_free),
        )
    by_state none here (suc n) e = (
      λ at g h. absurd (
          clash at g
            (sym ((archive_cases id now actor f r found here).1.1 (omega (arith, e))) ∙ h)),
      λ why h. many ∙ ap some (unchanged not_fresh),
    )
      where
        clash :
            (at : Option ℕ) (g : Fund)
            → ◌≡◌ {A = Result RoomRefusal (Option ℕ × Fund)}
                (err (live_reservations r.number (live_count id f.reservations)))
                (ok (at, g))
            → ⊥
        clash at g q = cc

        not_fresh : (contains r.id (ids_of fresh) && not (is_archived r)) ≡ false
        not_fresh = elim (Bool-cases (contains r.id (ids_of fresh))) [
          | inr n ↦ ground arith
          | inl y ↦
              let (x, i, q) = contains-ids_of r.id fresh y in
              let (j, free) = select-In (is_fresh f.reservations) rooms x i in
              absurd (ground (arith, free, ap (λ k. live_count k f.reservations) (q ∙ same_id), e))
        ]

-- The room after a request that may have been refused.
abbrev pub row_after : ℕ → Fund → Result RoomRefusal (Option ℕ × Fund) → Option Room
row_after id f (ok out) = find_room id out.1.rooms
row_after id f (err why) = find_room id f.rooms

-- A room that is asked to the archive among many comes to what `archive` would make of it alone, or
-- stays as it is if `archive` would refuse.
pub archive_many-archive :
    (ids : List ℕ) (id now : ℕ) (actor : Option ℕ) (f : Fund) (r : Room)
    → contains id ids ≡ true
    → find_room id f.rooms ≡ some r
    → find_room id (archive_many ids now actor f).1.rooms ≡ row_after id f (archive id now actor f)
archive_many-archive ids id now actor f r asked found =
    let (done, refused) = archive_many-cases ids id now actor f r asked found in
    elim (Result-cases (archive id now actor f)) [
      | inl (out, e) ↦ done out.0 out.1 e ∙ sym (ap (row_after id f) e)
      | inr (why, e) ↦ refused why e ∙ sym (ap (row_after id f) e ∙ found)
    ]
