-- ===== src/Rooms/Fund.antt =====
-- The rows that backend/src/modules/rooms/rooms.service.ts reads and writes
-- (backend/prisma/schema.prisma), and its requests (rooms/dto).
use kars_hotel.Base.{
  ℕ, Bool, true, false, Option, none, some, List, [], ◌∷◌, ◌++◌, map, ◌==◌, find, if◌then◌else◌,
}
use kars_hotel.Base.Int.{ℤ}
use kars_hotel.Base.Text.{Text, text_eq}
use kars_hotel.Hotel.{
  RoomStatus, Reservation, Status, new, confirmed, checked_in, checked_out, cancelled, no_show,
}
use kars_hotel.Rooms.Beds.{BedType, RoomBeds, BedsInput}

pub data RoomView : Type 0 where
  no_view city garden pool sea mountain courtyard : RoomView

pub data RoomPartnerHold : Type 0 where
  no_hold quota reserve : RoomPartnerHold

pub record Room : Type 0 where
  pub id : ℕ
  pub room_type_id : ℕ
  pub number : Text
  pub floor : ℤ
  pub bed_type : BedType
  pub beds : RoomBeds
  pub view : RoomView
  pub status : RoomStatus
  pub is_active : Bool
  pub capacity : ℕ
  pub partner_hold : RoomPartnerHold
  pub archived_at : Option ℕ
  pub archived_by : Option ℕ
  pub notes : Option Text

pub record RoomType : Type 0 where
  pub id : ℕ
  pub code : Text
  pub is_active : Bool
  pub archived_at : Option ℕ
  pub archived_by : Option ℕ

-- `CreateRoomDto` without the number, which the two ways of creation give.
pub record RoomFields : Type 0 where
  pub room_type_id : ℕ
  pub floor : Option ℤ
  pub beds : BedsInput
  pub view : Option RoomView
  pub status : Option RoomStatus
  pub is_active : Option Bool
  pub capacity : Option ℕ
  pub partner_hold : Option RoomPartnerHold
  pub notes : Option Text

-- `UpdateRoomDto`; the notes may be cleared.
pub record UpdateRoomDto : Type 0 where
  pub room_type_id : Option ℕ
  pub number : Option Text
  pub floor : Option ℤ
  pub beds : BedsInput
  pub view : Option RoomView
  pub status : Option RoomStatus
  pub is_active : Option Bool
  pub capacity : Option ℕ
  pub partner_hold : Option RoomPartnerHold
  pub notes : Option (Option Text)

pub data RoomAction : Type 0 where
  room_created room_updated room_status_changed room_archived room_restored room_deleted
        type_archived :
      RoomAction
  rooms_created rooms_archived : ℕ → RoomAction

pub record RoomEntry : Type 0 where
  pub action : RoomAction
  pub entity_id : Option ℕ

pub record Fund : Type 0 where
  pub rooms : List Room
  pub room_types : List RoomType
  pub reservations : List Reservation
  pub journal : List RoomEntry
  pub next_id : ℕ

pub data RoomRefusal : Type 0 where
  room_type_not_found room_not_found room_is_archived deletion_off : RoomRefusal
  number_taken number_in_archive : Text → RoomRefusal
  numbers_taken : List Text → RoomRefusal
  type_has_rooms : ℕ → RoomRefusal
  live_reservations has_reservations : Text → ℕ → RoomRefusal

-- `LIVE_RESERVATION_STATUSES`
abbrev pub is_live : Status → Bool
is_live new = true
is_live confirmed = true
is_live checked_in = true
is_live checked_out = false
is_live cancelled = false
is_live no_show = false

abbrev pub find_room : ℕ → List Room → Option Room
find_room id = find (λ r. r.id == id)

abbrev pub find_number : Text → List Room → Option Room
find_number number = find (λ r. text_eq r.number number)

abbrev pub find_type : ℕ → List RoomType → Option RoomType
find_type id = find (λ t. t.id == id)

abbrev pub update_room : ℕ → (Room → Room) → List Room → List Room
update_room id f = map (λ r. if r.id == id then f r else r)

abbrev pub is_archived : Room → Bool
is_archived r = elim r.archived_at [ none ↦ false | some at ↦ true ]

abbrev pub note : RoomAction → Option ℕ → Fund → Fund
note action id f = record f {
  journal = f.journal ++ record { action = action; entity_id = id } ∷ [];
}
