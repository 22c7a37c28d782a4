-- ===== src/Rooms/Beds.antt =====
-- The beds of a room by numbers: backend/src/modules/rooms/room-beds.ts.
use kars_hotel.Base.{ℕ, Bool, true, false, ◌||◌, Option, none, some, if◌then◌else◌}

pub data BedType : Type 0 where
  single double twin three_single four_single five_single two_double double_single king queen sofa :
      BedType

pub record RoomBeds : Type 0 where
  pub single_beds : ℕ
  pub double_beds : ℕ
  pub sofas : ℕ
  pub extra_beds : ℕ

pub record BedsInput : Type 0 where
  pub single_beds : Option ℕ
  pub double_beds : Option ℕ
  pub sofas : Option ℕ
  pub extra_beds : Option ℕ
  pub bed_type : Option BedType

abbrev pub beds : ℕ → ℕ → ℕ → ℕ → RoomBeds
beds s d f e = record { single_beds = s; double_beds = d; sofas = f; extra_beds = e }

-- `FROM_TYPE`, with the extra beds.
unfoldable pub from_type : BedType → ℕ → RoomBeds
from_type single e = beds 1 0 0 e
from_type double e = beds 0 1 0 e
from_type twin e = beds 2 0 0 e
from_type three_single e = beds 3 0 0 e
from_type four_single e = beds 4 0 0 e
from_type five_single e = beds 5 0 0 e
from_type two_double e = beds 0 2 0 e
from_type double_single e = beds 1 1 0 e
from_type king e = beds 0 1 0 e
from_type queen e = beds 0 1 0 e
from_type sofa e = beds 0 0 1 e

abbrev pub given {ℓ} : {A : Type ℓ} → Option A → Bool
given none = false
given (some a) = true

abbrev pub or_default {ℓ} : {A : Type ℓ} → A → Option A → A
or_default d none = d
or_default d (some a) = a

-- `KEYS.some((k) => dto[k] != null)`
abbrev pub has_numbers : BedsInput → Bool
has_numbers dto = given dto.single_beds || (given dto.double_beds || given dto.sofas)

-- `bedsForCreate`
unfoldable pub beds_for_create : BedsInput → RoomBeds
beds_for_create dto =
    if has_numbers dto
    then beds (or_default 0 dto.single_beds) (or_default 0 dto.double_beds) (or_default 0 dto.sofas)
        (or_default 0 dto.extra_beds)
    else from_type (or_default double dto.bed_type) (or_default 0 dto.extra_beds)

abbrev of_type : Option BedType → RoomBeds → RoomBeds
of_type none current = current
of_type (some t) current = from_type t current.extra_beds

-- `bedsForUpdate`, on the row that is edited: what it leaves out stays.
unfoldable pub beds_for_update : BedsInput → RoomBeds → RoomBeds
beds_for_update dto current =
    if has_numbers dto
    then beds (or_default current.single_beds dto.single_beds)
        (or_default current.double_beds dto.double_beds) (or_default current.sofas dto.sofas)
        (or_default current.extra_beds dto.extra_beds)
    else record (of_type dto.bed_type current) {
      extra_beds = or_default current.extra_beds dto.extra_beds;
    }
