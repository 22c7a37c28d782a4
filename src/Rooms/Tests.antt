-- ===== src/Rooms/Tests.antt =====
-- The theorems on rooms at a concrete hotel (backend/src/modules/rooms).
use kars_hotel.Base.{
  find, ℕ, ◌+◌, ◌≡◌, refl, ap, ◌↔◌, inl, inr, true, false, none, some, [], ◌∷◌, arith, In, length,
}
use kars_hotel.Base.Int.{pos}
use kars_hotel.Base.Text.{Text, codes}
use kars_hotel.Base.Result.{ok, err}
use kars_hotel.Hotel.{Reservation, clean, confirmed, direct}
use kars_hotel.Rooms.Beds.{BedsInput, double, from_type}
use kars_hotel.Rooms.Fund.{
  RoomRefusal, find_type, Room, RoomType, RoomFields, Fund, no_view, no_hold, find_room,
  is_archived,
}
use kars_hotel.Rooms.Service.{
  put_away, live_code, archive, restore, live_count, original_code, new_room,
}
use kars_hotel.Rooms.Bulk.{
  CreateMany, CreatedMany, create_many, archive_many, decimal, numbers_from, decimal_fuel,
  has_number, create_each,
}
use kars_hotel.Rooms.Kept.{Tidy}
use kars_hotel.Rooms.KeptBulk.{start, then_step, archiving}
use kars_hotel.Rooms.Orderly.{IsOrderly, Tidy-IsOrderly, RoomHistory-IsOrderly}
use kars_hotel.Rooms.Archive.{away, archive_iff, Awaited, restore-archive}
use kars_hotel.Rooms.Types.{remove_type}
use kars_hotel.Rooms.TypeBack.{restore-remove_type}
use kars_hotel.Rooms.Many.{row_after, archive_many-archive}
use kars_hotel.Rooms.Created.{create_many-accounts}

abbrev nothing_said : BedsInput
nothing_said = record {
  single_beds = none;
  double_beds = none;
  sofas = none;
  extra_beds = none;
  bed_type = none;
}

abbrev plain : RoomFields
plain = record {
  room_type_id = 1;
  floor = none;
  beds = nothing_said;
  view = none;
  status = none;
  is_active = none;
  capacity = none;
  partner_hold = none;
  notes = none;
}

abbrev room : ℕ → Text → Room
room id number = record {
  id = id;
  room_type_id = 1;
  number = number;
  floor = pos 1;
  bed_type = double;
  beds = from_type double 0;
  view = no_view;
  status = clean;
  is_active = true;
  capacity = 1;
  partner_hold = no_hold;
  archived_at = none;
  archived_by = none;
  notes = none;
}

abbrev standard : RoomType
standard = record {
  id = 1;
  code = codes "STD";
  is_active = true;
  archived_at = none;
  archived_by = none;
}

abbrev stay : ℕ → ℕ → Reservation
stay id room_id = record {
  id = id;
  room_id = room_id;
  room_type_id = 1;
  guest_name = codes "Ann";
  phone = none;
  email = none;
  check_in = 10;
  check_out = 12;
  status = confirmed;
  source = direct;
  adults = 1;
  children = 0;
  notes = none;
  total_price = none;
  rate_plan_id = none;
  place_number = 1;
  channel_managed = false;
  partner_id = none;
  partner_idempotency_key = none;
  partner_payload_hash = none;
  guest_kind = none;
  version = 1;
  arrival_at = none;
  departure_at = none;
  flight = none;
  checked_in_at = none;
  checked_out_at = none;
}

-- Rooms 11 and 12, and a guest who is to come to the second.
abbrev two_rooms : Fund
two_rooms = record {
  rooms = room 2 (codes "11") ∷ room 3 (codes "12") ∷ [];
  room_types = standard ∷ [];
  reservations = stay 4 3 ∷ [];
  journal = [];
  next_id = 5;
}

two_rooms-Tidy : Tidy two_rooms
two_rooms-Tidy = record {
  put_off = λ r i a. elim i [
    | inl e ↦ absurd (ground (arith, a, ap is_archived e))
    | inr (inl e) ↦ absurd (ground (arith, a, ap is_archived e))
    | inr (inr n) ↦ absurd n
  ];
  one = λ r s i j q. ids_apart r s i j q;
  below = λ r i. elim i [
    | inl e ↦ omega (arith, ap (λ (x : Room). x.id) e)
    | inr (inl e) ↦ omega (arith, ap (λ (x : Room). x.id) e)
    | inr (inr n) ↦ absurd n
  ];
  housed = λ v i. elim i [
    | inl e ↦
        (room 3 (codes "12"), inr (inl refl), omega (arith, ap (λ (x : Reservation). x.room_id) e))
    | inr n ↦ absurd n
  ];
}
  where
    ids_apart : (r s : Room) → In r two_rooms.rooms → In s two_rooms.rooms → r.id ≡ s.id → r ≡ s
    ids_apart r s (inl e) (inl e') q = cc
    ids_apart r s (inl e) (inr (inl e')) q =
        absurd (omega (arith, ap (λ (x : Room). x.id) e, ap (λ (x : Room). x.id) e'))
    ids_apart r s (inl e) (inr (inr n)) q = absurd n
    ids_apart r s (inr (inl e)) (inl e') q =
        absurd (omega (arith, ap (λ (x : Room). x.id) e, ap (λ (x : Room). x.id) e'))
    ids_apart r s (inr (inl e)) (inr (inl e')) q = cc
    ids_apart r s (inr (inl e)) (inr (inr n)) q = absurd n
    ids_apart r s (inr (inr n)) j q = absurd n

archives :
    archive 2 100 (some 9) two_rooms
    ≡ ok (some 100, away 2 100 (some 9) two_rooms (room 2 (codes "11")) refl refl)
unfolding archive live_count
archives = refl

abbrev eleven_away : Fund
eleven_away = away 2 100 (some 9) two_rooms (room 2 (codes "11")) refl refl

RoomHistory-IsOrderly_example : IsOrderly eleven_away
RoomHistory-IsOrderly_example =
    RoomHistory-IsOrderly
      (then_step start (archiving 2 100 (some 9) (some 100) eleven_away archives))
      (Tidy-IsOrderly two_rooms two_rooms-Tidy)

archive_iff_example :
    (((f' : Fund) × (archive 3 100 (some 9) two_rooms ≡ ok (some 100, f'))
        × (find_room 3 f'.rooms
            ≡ some (record (room 3 (codes "12")) {
              is_active = false;
              archived_at = some 100;
              archived_by = some 9;
            })))
      ↔ ((v : Reservation) → In v two_rooms.reservations → v.room_id ≡ 3 → Awaited v.status → ⊥))
    × (((why : RoomRefusal) × (archive 3 100 (some 9) two_rooms ≡ err why))
        ↔ ((v : Reservation) × In v two_rooms.reservations × (v.room_id ≡ 3) × Awaited v.status))
archive_iff_example = archive_iff 3 100 (some 9) two_rooms (room 3 (codes "12")) refl refl

restore-archive_example :
    (f2 : Fund) × (restore 2 eleven_away ≡ ok f2) × (f2.rooms ≡ two_rooms.rooms)
restore-archive_example =
    restore-archive 2 100 (some 9) two_rooms (room 2 (codes "11")) refl refl two_rooms-Tidy refl
      refl eleven_away archives

archive_many-archive_example :
    find_room 2 (archive_many (3 ∷ 2 ∷ 2 ∷ []) 100 (some 9) two_rooms).1.rooms
    ≡ row_after 2 two_rooms (archive 2 100 (some 9) two_rooms)
archive_many-archive_example =
    archive_many-archive (3 ∷ 2 ∷ 2 ∷ []) 2 100 (some 9) two_rooms (room 2 (codes "11")) refl refl

abbrev batch : CreateMany
batch = record {
  fields = plain;
  start_number = 10;
  count = 4;
  prefix = none;
  suffix = none;
  skip_existing = none;
}

abbrev batch_out : CreatedMany × Fund
batch_out = elim (create_many batch two_rooms) [
  | ok out ↦ out
  | err e ↦ (record { created = 0; skipped = []; skipped_archived = []; rooms = [] }, two_rooms)
]

batch_answered : create_many batch two_rooms ≡ ok (batch_out.0, batch_out.1)
unfolding create_many numbers_from decimal decimal_fuel has_number create_each new_room
batch_answered = refl

create_many-accounts_example :
    (length batch_out.0.rooms ≡ batch_out.0.created)
    × (batch_out.0.created + (length batch_out.0.skipped + length batch_out.0.skipped_archived) ≡ 4)
create_many-accounts_example =
    create_many-accounts batch two_rooms batch_out.1 batch_out.0 batch_answered

batch_skips : batch_out.0.skipped ≡ codes "11" ∷ codes "12" ∷ []
unfolding create_many numbers_from decimal decimal_fuel has_number create_each new_room
batch_skips = refl

old_code : original_code (codes "STD~1a") ≡ codes "STD"
unfolding original_code
old_code = refl

-- Room 11 alone, in the archive, and its category.
abbrev one_put_away : Fund
one_put_away = record two_rooms {
  rooms = put_away 90 (some 9) (room 2 (codes "11")) ∷ [];
  reservations = [];
}

abbrev without_type : Fund
without_type = elim (remove_type 1 100 (some 9) one_put_away) [ ok f ↦ f | err e ↦ one_put_away ]

type_removed : remove_type 1 100 (some 9) one_put_away ≡ ok without_type
unfolding remove_type
type_removed = refl

code_free : find (live_code standard.code) without_type.room_types ≡ none
unfolding remove_type
code_free = refl

restore-remove_type_example :
    (f2 : Fund) × (restore 2 without_type ≡ ok f2) × (find_type 1 f2.room_types ≡ some standard)
restore-remove_type_example =
    restore-remove_type 1 2 100 90 (some 9) one_put_away without_type standard
      (put_away 90 (some 9) (room 2 (codes "11"))) refl refl refl refl refl refl refl type_removed
      code_free
