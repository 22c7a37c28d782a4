-- ===== src/Rooms/Created.antt =====
-- What becomes of the numbers that a batch asks for (backend/src/modules/rooms/rooms.service.ts,
-- `createMany`).
use kars_hotel.Base.{
  ℕ, zero, suc, ◌+◌, ◌≡◌, refl, sym, ap, ◌∙◌, inl, inr, true, false, not, List, [], ◌∷◌, ◌++◌, ◌&&◌,
  arith, length, is_empty, Bool-cases,
}
use kars_hotel.Base.Text.{Text, text_eq}
use kars_hotel.Base.Result.{
  Result, ok, err, ok-injective, refuse_if-then, or_refuse-then, >>=-eq-ok,
}
use kars_hotel.Rooms.Fund.{
  Room, RoomFields, Fund, RoomRefusal, is_archived, room_type_not_found, numbers_taken,
  number_taken, find_type,
}
use kars_hotel.Rooms.Service.{new_room}
use kars_hotel.Rooms.Bulk.{
  CreateMany, CreatedMany, create_each, make_rooms, create_many, has_number, taken_of,
  refuses_existing, numbers_of, numbers_from, skipped_of, skipped_archived_of, to_create,
  archived_rooms,
}

has_number-archived :
    (n : Text) (rooms : List Room)
    → has_number n (archived_rooms rooms) ≡ true
    → has_number n rooms ≡ true
unfolding has_number
has_number-archived n [] h = cc
has_number-archived n (r ∷ rs) h = elim (Bool-cases (is_archived r)) [
  | inl y ↦ elim (Bool-cases (text_eq r.number n)) [
    | inl same ↦ rw same refl
    | inr apart ↦ rw apart (has_number-archived n rs (by_head y apart))
  ]
  | inr k ↦ elim (Bool-cases (text_eq r.number n)) [
    | inl same ↦ rw same refl
    | inr apart ↦ rw apart (has_number-archived n rs (rw k at h))
  ]
]
  where
    by_head :
        is_archived r ≡ true → text_eq r.number n ≡ false → has_number n (archived_rooms rs) ≡ true
    by_head y apart = ground (arith, h)

-- Each number is created, skipped, or skipped as one of the archive.
parts :
    (ns : List Text) (rooms : List Room)
    → length (to_create ns rooms)
        + (length (skipped_of ns rooms) + length (skipped_archived_of ns rooms))
      ≡ length ns
parts [] rooms = refl
parts (n ∷ ns) rooms = elim (Bool-cases (has_number n rooms)) [
  | inl y ↦ elim (Bool-cases (has_number n (archived_rooms rooms))) [
    | inl a ↦ ground (arith, parts ns rooms)
    | inr k ↦ ground (arith, parts ns rooms)
  ]
  | inr m ↦ elim (Bool-cases (has_number n (archived_rooms rooms))) [
    | inl a ↦ absurd (ground (arith, has_number-archived n rooms a))
    | inr k ↦ ground (arith, parts ns rooms)
  ]
]

length-numbers_from : (p s : Text) (count n : ℕ) → length (numbers_from p s count n) ≡ count
unfolding numbers_from
length-numbers_from p s zero n = refl
length-numbers_from p s (suc count) n = ap suc (length-numbers_from p s count (n + 1))

length-create_each :
    (ns : List Text) (dto : RoomFields) (rooms : List Room) (next : ℕ) (made : List Room × ℕ)
    → create_each ns dto rooms next ≡ ok made
    → length made.0 ≡ length ns
unfolding create_each
length-create_each [] dto rooms next made h =
    sym (ap (λ (m : List Room × ℕ). length m.0) (ok-injective _ _ h))
length-create_each (n ∷ ns) dto rooms next made h = elim (Bool-cases (has_number n rooms)) [
  | inl y ↦ absurd (clash (rw y at h))
  | inr free ↦
      let (rest, inner, done) =
        >>=-eq-ok (create_each ns dto (rooms ++ new_room next n dto ∷ []) (suc next)) _
          (rw free at h) in
      sym (ap (λ (m : List Room × ℕ). length m.0) (ok-injective _ _ done))
      ∙ ap suc (length-create_each ns dto _ _ rest inner)
]
  where
    clash : ◌≡◌ {A = Result RoomRefusal (List Room × ℕ)} (err (number_taken n)) (ok made) → ⊥
    clash q = cc

-- A batch that is answered accounts for every number that it was asked for: the rooms created, the
-- numbers skipped and the numbers skipped because they are in the archive are together as many.
pub create_many-accounts :
    (dto : CreateMany) (f f' : Fund) (out : CreatedMany)
    → create_many dto f ≡ ok (out, f')
    → (length out.rooms ≡ out.created)
      × (out.created + (length out.skipped + length out.skipped_archived) ≡ dto.count)
unfolding create_many
create_many-accounts dto f f' out h =
    let numbers = numbers_of dto in
    let (t, known, h1) =
      or_refuse-then (find_type dto.fields.room_type_id f.room_types) room_type_not_found _ h in
    let (wanted, h2) =
      refuse_if-then
        (not (is_empty (taken_of numbers f.rooms)) && refuses_existing dto.skip_existing)
        (numbers_taken (skipped_of numbers f.rooms ++ skipped_archived_of numbers f.rooms)) _ h1 in
    let (a, b) = made_of (to_create numbers f.rooms) _ _ h2 in
    (a, b ∙ parts numbers f.rooms ∙ length-numbers_from _ _ dto.count dto.start_number)
  where
    made_of :
        (ns skipped archived : List Text)
        → make_rooms dto.fields.room_type_id dto.fields skipped archived ns f ≡ ok (out, f')
        → (length out.rooms ≡ out.created)
          × (out.created + (length out.skipped + length out.skipped_archived)
              ≡ length ns + (length skipped + length archived))
    made_of [] skipped archived e =
        let q : record { created = 0; skipped = skipped; skipped_archived = archived; rooms = [] }
            ≡ out =
          ap (λ (y : CreatedMany × Fund). y.0) (ok-injective _ _ e) in
        (
          sym (ap (λ (o : CreatedMany). length o.rooms) q) ∙ ap (λ (o : CreatedMany). o.created) q,
          sym (
              ap (λ (o : CreatedMany). o.created + (length o.skipped + length o.skipped_archived))
                q),
        )
    made_of (n ∷ ns) skipped archived e =
        let (made, inner, done) =
          >>=-eq-ok (create_each (n ∷ ns) dto.fields f.rooms f.next_id) _ e in
        let q = ap (λ (y : CreatedMany × Fund). y.0) (ok-injective _ _ done) in
        (
          sym (ap (λ (o : CreatedMany). length o.rooms) q) ∙ ap (λ (o : CreatedMany). o.created) q,
          sym (
                ap (λ (o : CreatedMany). o.created + (length o.skipped + length o.skipped_archived))
                  q)
              ∙ ap (λ k. k + (length skipped + length archived))
                  (length-create_each (n ∷ ns) dto.fields f.rooms f.next_id made inner),
        )
