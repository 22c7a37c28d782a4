-- ===== src/Rooms/Bulk.antt =====
-- Many rooms at once: createMany and archiveMany of backend/src/modules/rooms/rooms.service.ts.
use kars_hotel.Base.{
  ℕ, zero, suc, ◌+◌, ◌/◌, ◌%◌, Bool, false, not, Option, none, some, List, [], ◌∷◌, ◌++◌, map, ◌&&◌,
  ◌||◌, ltb, select, contains, length, is_empty, if◌then◌else◌,
}
use kars_hotel.Base.Text.{Text, text_eq}
use kars_hotel.Base.Result.{Result, ok, err, ◌>>=◌, ◌>>◌, refuse_if, or_refuse}
use kars_hotel.Hotel.{Reservation}
use kars_hotel.Rooms.Fund.{
  Room, RoomFields, rooms_created, rooms_archived, Fund, RoomRefusal, room_type_not_found,
  number_taken, numbers_taken, find_type, is_archived, note,
}
use kars_hotel.Rooms.Service.{new_room, live_count, put_away}

-- `${n}` for a natural number.
unfoldable pub decimal_fuel : ℕ → ℕ → Text
decimal_fuel zero n = []
decimal_fuel (suc fuel) n =
    let head = decimal_fuel fuel (n / 10) in
    if ltb n 10 then (b'0' + n) ∷ [] else head ++ (b'0' + n % 10) ∷ []

unfoldable pub decimal : ℕ → Text
decimal n = decimal_fuel (suc n) n

pub record CreateMany : Type 0 where
  pub fields : RoomFields
  pub start_number : ℕ
  pub count : ℕ
  pub prefix : Option Text
  pub suffix : Option Text
  pub skip_existing : Option Bool

abbrev pub or_empty : Option Text → Text
or_empty none = []
or_empty (some t) = t

-- `Array.from({ length: count }, (_, i) => ...)`, from the number `n`.
unfoldable pub numbers_from : Text → Text → ℕ → ℕ → List Text
numbers_from prefix suffix zero n = []
numbers_from prefix suffix (suc count) n =
    (prefix ++ (decimal n ++ suffix)) ∷ numbers_from prefix suffix count (n + 1)

abbrev pub numbers_of : CreateMany → List Text
numbers_of dto = numbers_from (or_empty dto.prefix) (or_empty dto.suffix) dto.count dto.start_number

unfoldable pub has_number : Text → List Room → Bool
has_number number [] = false
has_number number (r ∷ rs) = text_eq r.number number || has_number number rs

abbrev pub archived_rooms : List Room → List Room
archived_rooms = select is_archived

pub record CreatedMany : Type 0 where
  pub created : ℕ
  pub skipped : List Text
  pub skipped_archived : List Text
  pub rooms : List Room

-- The loop of the transaction: a number that is taken fails all of it.
unfoldable pub create_each :
    List Text → RoomFields → List Room → ℕ → Result RoomRefusal (List Room × ℕ)
create_each [] dto rooms next = ok ([], next)
create_each (n ∷ ns) dto rooms next =
    let r = new_room next n dto in
    let rest = create_each ns dto (rooms ++ r ∷ []) (suc next) in
    if has_number n rooms then err (number_taken n) else (rest >>= λ made. ok (r ∷ made.0, made.1))

abbrev pub refuses_existing : Option Bool → Bool
refuses_existing none = false
refuses_existing (some skip) = not skip

abbrev pub skipped_of : List Text → List Room → List Text
skipped_of numbers rooms =
    select (λ n. has_number n rooms && not (has_number n (archived_rooms rooms))) numbers

abbrev pub skipped_archived_of : List Text → List Room → List Text
skipped_archived_of numbers rooms = select (λ n. has_number n (archived_rooms rooms)) numbers

abbrev pub to_create : List Text → List Room → List Text
to_create numbers rooms = select (λ n. not (has_number n rooms)) numbers

abbrev pub taken_of : List Text → List Room → List Text
taken_of numbers rooms = select (λ n. has_number n rooms) numbers

abbrev pub make_rooms :
    ℕ
    → RoomFields
    → List Text
    → List Text
    → List Text
    → Fund
    → Result RoomRefusal (CreatedMany × Fund)
make_rooms type dto skipped archived [] f =
    ok (record { created = 0; skipped = skipped; skipped_archived = archived; rooms = [] }, f)
make_rooms type dto skipped archived (n ∷ ns) f = do
  made ← create_each (n ∷ ns) dto f.rooms f.next_id
  ok (
    record {
      created = length made.0;
      skipped = skipped;
      skipped_archived = archived;
      rooms = made.0;
    },
    note (rooms_created (length made.0)) (some type)
        (record f { rooms = f.rooms ++ made.0; next_id = made.1 }),
  )

-- `createMany`
unfoldable pub create_many : CreateMany → Fund → Result RoomRefusal (CreatedMany × Fund)
create_many dto f = do
  let numbers = numbers_of dto
  or_refuse (find_type dto.fields.room_type_id f.room_types) room_type_not_found
  refuse_if (not (is_empty (taken_of numbers f.rooms)) && refuses_existing dto.skip_existing)
      (numbers_taken (skipped_of numbers f.rooms ++ skipped_archived_of numbers f.rooms))
  make_rooms dto.fields.room_type_id dto.fields (skipped_of numbers f.rooms)
      (skipped_archived_of numbers f.rooms) (to_create numbers f.rooms) f

-- `[...new Set(ids)]`
unfoldable pub unique_ids : List ℕ → List ℕ → List ℕ
unique_ids [] seen = []
unique_ids (id ∷ ids) seen =
    let known = unique_ids ids seen in
    let more = unique_ids ids (id ∷ seen) in if contains id seen then known else id ∷ more

pub record Blocked : Type 0 where
  pub id : ℕ
  pub number : Text
  pub live_reservations : ℕ

pub record ArchivedMany : Type 0 where
  pub archived : List ℕ
  pub blocked : List Blocked
  pub not_found : List ℕ

abbrev pub is_blocked : List Reservation → Room → Bool
is_blocked rs r = not (is_archived r) && ltb 0 (live_count r.id rs)

abbrev pub is_fresh : List Reservation → Room → Bool
is_fresh rs r = not (is_archived r) && not (ltb 0 (live_count r.id rs))

abbrev pub asked_rooms : List ℕ → List Room → List Room
asked_rooms ids = select (λ (r : Room). contains r.id ids)

abbrev pub ids_of : List Room → List ℕ
ids_of = map (λ r. r.id)

-- `updateMany({ where: { id: { in }, archivedAt: null } })`
abbrev pub put_away_all : List ℕ → ℕ → Option ℕ → List Room → List Room
put_away_all ids now actor =
    map (λ r. if contains r.id ids && not (is_archived r) then put_away now actor r else r)

abbrev pub note_fresh : List Room → Fund → Fund
note_fresh [] f = f
note_fresh (r ∷ rs) f = note (rooms_archived (length (r ∷ rs))) none f

-- `archiveMany`
unfoldable pub archive_many : List ℕ → ℕ → Option ℕ → Fund → ArchivedMany × Fund
archive_many ids now actor f =
    let unique = unique_ids ids [] in
    let rooms = asked_rooms unique f.rooms in
    let fresh = select (is_fresh f.reservations) rooms in
    (
      record {
        archived = ids_of (select (λ r. not (is_blocked f.reservations r)) rooms);
        blocked =
            map
              (λ (r : Room). record {
                id = r.id;
                number = r.number;
                live_reservations = live_count r.id f.reservations;
              })
              (select (is_blocked f.reservations) rooms);
        not_found = select (λ id. not (contains id (ids_of rooms))) unique;
      },
      note_fresh fresh (record f { rooms = put_away_all (ids_of fresh) now actor f.rooms }),
    )
