-- ===== src/Inventory.antt =====
-- Rooms of a category counted by days: backend/src/modules/inventory/inventory.service.ts. A date is
-- the number of its day. The lock and the cache's own store are outside; of the cache the model keeps
-- the categories that have cached answers.
use kars_hotel.Base.{
  ℕ, zero, suc, ◌+◌, ◌-◌, Bool, true, false, not, Option, none, some, List, [], ◌∷◌, ◌++◌, map,
  ◌==◌, ◌&&◌, ltb, leb, if◌then◌else◌, select, find, contains, length,
}
use kars_hotel.Base.Result.{Result, ok, err, ◌>>=◌, ◌>>◌, or_refuse}
use kars_hotel.Hotel.{Room}
pub mod Capacity
pub mod Bulk
mod Tests

pub record InventoryRow : Type 0 where
  pub room_type_id : ℕ
  pub date : ℕ
  pub total_rooms : ℕ
  pub booked_rooms : ℕ
  pub blocked_rooms : ℕ
  pub stop_sell : Bool

pub record BulkUpdateRow : Type 0 where
  pub date : ℕ
  pub total_rooms : Option ℕ
  pub blocked_rooms : Option ℕ
  pub stop_sell : Option Bool

pub record GridRow : Type 0 where
  pub row : InventoryRow
  pub available : ℕ

pub record Store : Type 0 where
  pub rooms : List Room
  pub room_types : List ℕ
  pub inventory : List InventoryRow
  pub cached : List ℕ

pub data InventoryRefusal : Type 0 where
  room_type_not_found : InventoryRefusal
  no_availability : ℕ → InventoryRefusal

-- `Math.max(0, total - booked - blocked)`
unfoldable pub compute_available : InventoryRow → ℕ
compute_available r = r.total_rooms - (r.booked_rooms + r.blocked_rooms)

abbrev pub is_row : ℕ → ℕ → InventoryRow → Bool
is_row room_type date r = r.room_type_id == room_type && r.date == date

abbrev pub in_dates : ℕ → List ℕ → InventoryRow → Bool
in_dates room_type dates r = r.room_type_id == room_type && contains r.date dates

abbrev pub find_row : ℕ → ℕ → List InventoryRow → Option InventoryRow
find_row room_type date = find (is_row room_type date)

-- `room.count({ where: { roomTypeId, isActive: true } })`
unfoldable pub room_count : ℕ → List Room → ℕ
room_count room_type rooms = length (select (λ r. r.room_type_id == room_type && r.is_active) rooms)

abbrev pub fresh_row : ℕ → ℕ → ℕ → InventoryRow
fresh_row room_type count date = record {
  room_type_id = room_type;
  date = date;
  total_rooms = count;
  booked_rooms = 0;
  blocked_rooms = 0;
  stop_sell = false;
}

-- `INSERT ... ON CONFLICT DO NOTHING`
abbrev pub insert_missing :
    InventoryRow → Option InventoryRow → List InventoryRow → List InventoryRow
insert_missing row (some r) rows = rows
insert_missing row none rows = rows ++ row ∷ []

unfoldable pub ensure : ℕ → ℕ → List ℕ → List InventoryRow → List InventoryRow
ensure room_type count [] rows = rows
ensure room_type count (d ∷ ds) rows =
    ensure room_type count ds
      (insert_missing (fresh_row room_type count d) (find_row room_type d rows) rows)

-- `available < delta`, on signed numbers.
abbrev pub lacks : ℕ → InventoryRow → Bool
lacks delta r = ltb r.total_rooms (r.booked_rooms + r.blocked_rooms + delta)

abbrev pub refuse_full :
    Option InventoryRow → List InventoryRow → Result InventoryRefusal (List InventoryRow)
refuse_full none rows = ok rows
refuse_full (some r) rows = err (no_availability r.date)

abbrev pub book : ℕ → InventoryRow → InventoryRow
book delta r = record r { booked_rooms = r.booked_rooms + delta }

abbrev pub change_rows :
    ℕ → List ℕ → (InventoryRow → InventoryRow) → List InventoryRow → List InventoryRow
change_rows room_type dates f = map (λ r. if in_dates room_type dates r then f r else r)

-- `incrementBooked`
unfoldable pub increment_booked : ℕ → List ℕ → ℕ → Store → Result InventoryRefusal Store
increment_booked room_type [] delta s = ok s
increment_booked room_type (d ∷ ds) delta s =
    let dates = d ∷ ds in
    let rows = ensure room_type (room_count room_type s.rooms) dates s.inventory in
    refuse_full (find (lacks delta) (select (in_dates room_type dates) rows)) rows >>= λ rows.
    ok (record s { inventory = change_rows room_type dates (book delta) rows })

-- `GREATEST(0, booked_rooms - delta)`
abbrev pub unbook : ℕ → InventoryRow → InventoryRow
unbook delta r = record r { booked_rooms = r.booked_rooms - delta }

-- `decrementBooked`
unfoldable pub decrement_booked : ℕ → List ℕ → ℕ → Store → Store
decrement_booked room_type dates delta s = record s {
  inventory = change_rows room_type dates (unbook delta) s.inventory;
}

abbrev pub known_type : ℕ → Store → Result InventoryRefusal (Unit {0})
known_type room_type s = if contains room_type s.room_types then ok tt else err room_type_not_found

abbrev pub grid_row : InventoryRow → Option InventoryRow → GridRow
grid_row fresh none = record { row = fresh; available = fresh.total_rooms }
grid_row fresh (some r) = record { row = r; available = compute_available r }

-- The days of a grid, both ends included.
unfoldable pub each_day : ℕ → ℕ → List ℕ
each_day zero from = []
each_day (suc n) from = from ∷ each_day n (from + 1)

-- `getGrid`, for an interval in order (the interval is enumerated by date-fns).
unfoldable pub get_grid : ℕ → ℕ → ℕ → Store → Result InventoryRefusal (List GridRow)
get_grid room_type from to s = do
  known_type room_type s
  ok (
      map
        (λ d.
          grid_row (fresh_row room_type (room_count room_type s.rooms) d)
            (find_row room_type d s.inventory))
        (each_day (suc to - from) from))

abbrev pub or_keep {ℓ} : {A : Type ℓ} → Option A → A → A
or_keep none a = a
or_keep (some b) a = b

abbrev pub overwrite : BulkUpdateRow → InventoryRow → InventoryRow
overwrite u r = record r {
  total_rooms = or_keep u.total_rooms r.total_rooms;
  blocked_rooms = or_keep u.blocked_rooms r.blocked_rooms;
  stop_sell = or_keep u.stop_sell r.stop_sell;
}

-- `inventory.upsert`: a new row starts from the count of the rooms.
abbrev pub upsert :
    ℕ → ℕ → BulkUpdateRow → Option InventoryRow → List InventoryRow → List InventoryRow
upsert room_type count u none rows = rows ++ overwrite u (fresh_row room_type count u.date) ∷ []
upsert room_type count u (some r) rows =
    map (λ r. if is_row room_type u.date r then overwrite u r else r) rows

unfoldable pub upsert_all : ℕ → ℕ → List BulkUpdateRow → List InventoryRow → List InventoryRow
upsert_all room_type count [] rows = rows
upsert_all room_type count (u ∷ us) rows =
    upsert_all room_type count us (upsert room_type count u (find_row room_type u.date rows) rows)

-- `invalidateCache`
unfoldable pub invalidate_cache : ℕ → List ℕ → Store → Store
invalidate_cache room_type [] s = s
invalidate_cache room_type (d ∷ ds) s = record s {
  cached = select (λ t. not (t == room_type)) s.cached;
}

-- `bulkUpdate`
unfoldable pub bulk_update : ℕ → List BulkUpdateRow → Store → Result InventoryRefusal (ℕ × Store)
bulk_update room_type updates s = do
  known_type room_type s
  let rows = upsert_all room_type (room_count room_type s.rooms) updates s.inventory
  ok (
    length updates,
    invalidate_cache room_type (map (λ u. u.date) updates) (record s { inventory = rows }),
  )
