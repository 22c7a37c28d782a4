-- ===== src/Rooms/Service.antt =====
-- One room at a time: get, create, update, setStatus, archive, restore and remove of
-- backend/src/modules/rooms/rooms.service.ts. `now` is the moment, `actor` who asks. That two rooms of
-- a hotel never have one number is the table's key.
use kars_hotel.Base.{
  ℕ, suc, Bool, true, false, not, Option, none, some, List, [], ◌∷◌, ◌++◌, map, ◌==◌, ◌&&◌, ◌||◌,
  ltb, leb, every, find, select, length, if◌then◌else◌,
}
use kars_hotel.Base.Int.{pos}
use kars_hotel.Base.Text.{Text, text_eq}
use kars_hotel.Base.Result.{Result, ok, err, ◌>>=◌, ◌>>◌, refuse_if, or_refuse}
use kars_hotel.Hotel.{RoomStatus, clean, Reservation}
use kars_hotel.Rooms.Beds.{double, or_default, beds_for_create, beds_for_update}
use kars_hotel.Rooms.Fund.{
  no_view, no_hold, Room, RoomType, RoomFields, UpdateRoomDto, room_created, room_updated,
  room_status_changed, room_archived, room_restored, room_deleted, Fund, RoomRefusal,
  room_type_not_found, room_not_found, room_is_archived, deletion_off, number_taken,
  number_in_archive, live_reservations, has_reservations, is_live, find_room, find_number,
  find_type, update_room, is_archived, note,
}

-- `get`
unfoldable pub get : ℕ → Fund → Result RoomRefusal Room
get id f = or_refuse (find_room id f.rooms) room_not_found

-- The row that a creation inserts.
unfoldable pub new_room : ℕ → Text → RoomFields → Room
new_room id number dto = record {
  id = id;
  room_type_id = dto.room_type_id;
  number = number;
  floor = or_default (pos 1) dto.floor;
  bed_type = or_default double dto.beds.bed_type;
  beds = beds_for_create dto.beds;
  view = or_default no_view dto.view;
  status = or_default clean dto.status;
  is_active = or_default true dto.is_active;
  capacity = or_default 1 dto.capacity;
  partner_hold = or_default no_hold dto.partner_hold;
  archived_at = none;
  archived_by = none;
  notes = dto.notes;
}

-- The number is taken; a room in the archive is named as such.
abbrev pub taken_by : Text → Room → RoomRefusal
taken_by number r = if is_archived r then number_in_archive number else number_taken number

abbrev pub insert_room : Option Room → Text → RoomFields → Fund → Result RoomRefusal (Room × Fund)
insert_room (some r) number dto f = err (taken_by number r)
insert_room none number dto f =
    let r = new_room f.next_id number dto in
    ok (r, record f { rooms = f.rooms ++ r ∷ []; next_id = suc f.next_id })

abbrev pub created : Room × Fund → Room × Fund
created (r, f) = (r, note room_created (some r.id) f)

-- `create`
unfoldable pub create : Text → RoomFields → Fund → Result RoomRefusal (Room × Fund)
create number dto f = do
  or_refuse (find_type dto.room_type_id f.room_types) room_type_not_found
  made ← insert_room (find_number number f.rooms) number dto f
  ok (created made)

abbrev pub edit : UpdateRoomDto → Room → Room
edit dto r = record r {
  room_type_id = or_default r.room_type_id dto.room_type_id;
  number = or_default r.number dto.number;
  floor = or_default r.floor dto.floor;
  bed_type = or_default r.bed_type dto.beds.bed_type;
  beds = beds_for_update dto.beds r.beds;
  view = or_default r.view dto.view;
  status = or_default r.status dto.status;
  is_active = or_default r.is_active dto.is_active;
  capacity = or_default r.capacity dto.capacity;
  partner_hold = or_default r.partner_hold dto.partner_hold;
  notes = or_default r.notes dto.notes;
}

-- Another room has the number that is asked for.
abbrev pub clashes : ℕ → Option Text → List Room → Bool
clashes id none rooms = false
clashes id (some number) rooms =
    elim (find (λ (r : Room). not (r.id == id) && text_eq r.number number) rooms) [
      | none ↦ false
      | some r ↦ true
    ]

abbrev pub number_of : Option Text → Text
number_of none = []
number_of (some n) = n

abbrev pub check_type : Option ℕ → Fund → Result RoomRefusal (Unit {0})
check_type none f = ok tt
check_type (some t) f = or_refuse (find_type t f.room_types) room_type_not_found >> ok tt

abbrev pub archived_row : Option Room → Bool
archived_row none = false
archived_row (some r) = is_archived r

-- `update`
unfoldable pub update : ℕ → UpdateRoomDto → Fund → Result RoomRefusal (Room × Fund)
update id dto f = do
  refuse_if (archived_row (find_room id f.rooms)) room_is_archived
  check_type dto.room_type_id f
  r ← or_refuse (find_room id f.rooms) room_not_found
  refuse_if (clashes id dto.number f.rooms) (number_taken (number_of dto.number))
  ok (
    edit dto r,
    note room_updated (some id) (record f { rooms = update_room id (edit dto) f.rooms }),
  )

-- `setStatus`
unfoldable pub set_status : ℕ → RoomStatus → Fund → Result RoomRefusal (Room × Fund)
set_status id status f = do
  r ← or_refuse (find_room id f.rooms) room_not_found
  ok (
    record r { status = status },
    note room_status_changed (some id)
        (record f { rooms = update_room id (λ r. record r { status = status }) f.rooms }),
  )

-- `reservation.count({ where: { roomId, status: { in: LIVE } } })`
unfoldable pub live_count : ℕ → List Reservation → ℕ
live_count id rs = length (select (λ (r : Reservation). r.room_id == id && is_live r.status) rs)

abbrev pub put_away : ℕ → Option ℕ → Room → Room
put_away now actor r = record r { is_active = false; archived_at = some now; archived_by = actor }

abbrev pub archive_row :
    ℕ → ℕ → Option ℕ → Room → Option ℕ → Fund → Result RoomRefusal (Option ℕ × Fund)
archive_row id now actor r (some at) f = ok (some at, f)
archive_row id now actor r none f = do
  refuse_if (ltb 0 (live_count id f.reservations))
      (live_reservations r.number (live_count id f.reservations))
  ok (
    some now,
    note room_archived (some id) (record f { rooms = update_room id (put_away now actor) f.rooms }),
  )

-- `archive`: when the room went to the archive.
unfoldable pub archive : ℕ → ℕ → Option ℕ → Fund → Result RoomRefusal (Option ℕ × Fund)
archive id now actor f = do
  r ← or_refuse (find_room id f.rooms) room_not_found
  archive_row id now actor r r.archived_at f

-- `[0-9a-z]`
abbrev pub is_tail_char : ℕ → Bool
is_tail_char c = leb b'0' c && leb c b'9' || leb b'a' c && leb c b'z'

abbrev pub is_tail : Text → Bool
is_tail [] = false
is_tail (c ∷ cs) = every is_tail_char (c ∷ cs)

-- `code.replace(/~[0-9a-z]+$/, '')`
unfoldable pub original_code : Text → Text
original_code [] = []
original_code (c ∷ cs) =
    let rest = original_code cs in if c == b'~' && is_tail cs then [] else c ∷ rest

abbrev pub live_code : Text → RoomType → Bool
live_code code t = elim t.archived_at [ none ↦ text_eq t.code code | some at ↦ false ]

abbrev pub code_back : Option RoomType → Text → Text
code_back none code = original_code code
code_back (some taken) code = code

abbrev pub restored_type : List RoomType → RoomType → RoomType
restored_type types t = record t {
  is_active = true;
  archived_at = none;
  archived_by = none;
  code = code_back (find (live_code (original_code t.code)) types) t.code;
}

-- A category that was deleted comes back with its room.
abbrev pub restore_type : Option RoomType → List RoomType → List RoomType
restore_type none types = types
restore_type (some t) types = elim t.archived_at [
  | none ↦ types
  | some at ↦ map (λ (x : RoomType). if x.id == t.id then restored_type types x else x) types
]

abbrev pub take_back : Room → Room
take_back r = record r { is_active = true; archived_at = none; archived_by = none }

abbrev pub restore_row : ℕ → Room → Option ℕ → Fund → Fund
restore_row id r none f = f
restore_row id r (some at) f = note room_restored (some id) (record f {
  rooms = update_room id take_back f.rooms;
  room_types = restore_type (find_type r.room_type_id f.room_types) f.room_types;
})

-- `restore`
unfoldable pub restore : ℕ → Fund → Result RoomRefusal Fund
restore id f = do
  r ← or_refuse (find_room id f.rooms) room_not_found
  ok (restore_row id r r.archived_at f)

abbrev pub of_room : ℕ → List Reservation → List Reservation
of_room id = select (λ (r : Reservation). r.room_id == id)

-- `remove`; `enabled` is `roomDeleteSwitch.enabled`.
unfoldable pub remove : Bool → ℕ → Fund → Result RoomRefusal Fund
remove enabled id f = do
  refuse_if (not enabled) deletion_off
  r ← or_refuse (find_room id f.rooms) room_not_found
  refuse_if (ltb 0 (length (of_room id f.reservations)))
      (has_reservations r.number (length (of_room id f.reservations)))
  ok (
      note room_deleted (some id)
        (record f { rooms = select (λ (x : Room). not (x.id == id)) f.rooms }))
