-- ===== src/Rooms/Types.antt =====
-- A category of rooms goes to the archive: `remove` of
-- backend/src/modules/room-types/room-types.service.ts. `now` is the moment, `actor` who asks.
use kars_hotel.Base.{
  ℕ, zero, suc, ◌+◌, ◌/◌, ◌%◌, false, not, Option, none, some, List, [], ◌∷◌, ◌++◌, map, ◌==◌, ◌&&◌,
  ltb, select, length, if◌then◌else◌,
}
use kars_hotel.Base.Text.{Text}
use kars_hotel.Base.Result.{Result, ok, ◌>>=◌, ◌>>◌, refuse_if, or_refuse}
use kars_hotel.Rooms.Fund.{
  Room, RoomType, type_archived, Fund, RoomRefusal, room_type_not_found, type_has_rooms, find_type,
  is_archived, note,
}

-- A digit of the notation with the base 36.
abbrev pub digit : ℕ → ℕ
digit d = if ltb d 10 then b'0' + d else b'W' + d

-- `n.toString(36)`
unfoldable pub base36_fuel : ℕ → ℕ → Text
base36_fuel zero n = []
base36_fuel (suc fuel) n =
    let head = base36_fuel fuel (n / 36) in
    if ltb n 36 then digit n ∷ [] else head ++ digit (n % 36) ∷ []

unfoldable pub base36 : ℕ → Text
base36 n = base36_fuel (suc n) n

-- The code that the archive gives, so that the old one is free.
abbrev pub archived_code : ℕ → Text → Text
archived_code now code = code ++ b'~' ∷ base36 now

abbrev pub put_off : ℕ → Option ℕ → RoomType → RoomType
put_off now actor t = record t {
  is_active = false;
  archived_at = some now;
  archived_by = actor;
  code = archived_code now t.code;
}

-- `LIVE_ROOMS_COUNT`
abbrev pub rooms_of_type : ℕ → List Room → List Room
rooms_of_type id = select (λ (r : Room). r.room_type_id == id && not (is_archived r))

abbrev pub put_off_type : ℕ → ℕ → Option ℕ → List RoomType → List RoomType
put_off_type id now actor = map (λ t. if t.id == id then put_off now actor t else t)

abbrev pub remove_row : ℕ → ℕ → Option ℕ → Option ℕ → Fund → Result RoomRefusal Fund
remove_row id now actor (some at) f = ok f
remove_row id now actor none f = do
  refuse_if (ltb 0 (length (rooms_of_type id f.rooms)))
      (type_has_rooms (length (rooms_of_type id f.rooms)))
  ok (
      note type_archived (some id)
        (record f { room_types = put_off_type id now actor f.room_types }))

-- `remove`
unfoldable pub remove_type : ℕ → ℕ → Option ℕ → Fund → Result RoomRefusal Fund
remove_type id now actor f = do
  t ← or_refuse (find_type id f.room_types) room_type_not_found
  remove_row id now actor t.archived_at f
