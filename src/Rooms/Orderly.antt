-- ===== src/Rooms/Orderly.antt =====
-- What holds of the rooms after any sequence of requests (backend/src/modules/rooms/rooms.service.ts).
use kars_hotel.Base.{ℕ, zero, suc, ◌<◌, ◌≡◌, refl, false, true, List, In}
use kars_hotel.Hotel.{Reservation}
use kars_hotel.Rooms.Fund.{Room, Fund, is_archived}
use kars_hotel.Rooms.Service.{live_count}
use kars_hotel.Rooms.Kept.{Tidy}
use kars_hotel.Rooms.KeptBulk.{RoomHistory, RoomHistory-Tidy}
use kars_hotel.Rooms.Archive.{Awaited, live_count-none, live_count-some}

-- A room in the archive is switched off, and no reservation of it is NEW, CONFIRMED or CHECKED_IN; no
-- two rooms share an id, and every reservation has its room.
pub record IsOrderly (f : Fund) : Type 0 where
  pub put_off :
      (r : Room)
      → In r f.rooms
      → is_archived r ≡ true
      → (r.is_active ≡ false)
        × ((v : Reservation) → In v f.reservations → v.room_id ≡ r.id → Awaited v.status → ⊥)
  pub one : (r r' : Room) → In r f.rooms → In r' f.rooms → r.id ≡ r'.id → r ≡ r'
  pub below : (r : Room) → In r f.rooms → r.id < f.next_id
  pub housed :
      (v : Reservation) → In v f.reservations → (r : Room) × In r f.rooms × (r.id ≡ v.room_id)

live_count-zero :
    (id : ℕ) (vs : List Reservation)
    → ((v : Reservation) → In v vs → v.room_id ≡ id → Awaited v.status → ⊥)
    → live_count id vs ≡ 0
live_count-zero id vs nobody = counted (live_count id vs) refl
  where
    counted : (n : ℕ) → live_count id vs ≡ n → live_count id vs ≡ 0
    counted zero e = e
    counted (suc n) e = let (v, i, q, w) = live_count-some id vs n e in absurd (nobody v i q w)

IsOrderly-Tidy : (f : Fund) → IsOrderly f → Tidy f
IsOrderly-Tidy f o = record {
  put_off = λ r i a.
      let (idle, nobody) = o.put_off r i a in (idle, live_count-zero r.id f.reservations nobody);
  one = o.one;
  below = o.below;
  housed = o.housed;
}

pub Tidy-IsOrderly : (f : Fund) → Tidy f → IsOrderly f
Tidy-IsOrderly f t = record {
  put_off = λ r i a.
      let (idle, none_left) = t.put_off r i a in
      (idle, live_count-none r.id f.reservations none_left);
  one = t.one;
  below = t.below;
  housed = t.housed;
}

-- However the rooms are created, edited, archived, restored and deleted, singly or many at once: a
-- room in the archive is switched off and has no reservation that is NEW, CONFIRMED or CHECKED_IN,
-- no two rooms share an id, and every reservation keeps its room, if it was so at first and
-- reservations do not change meanwhile.
pub RoomHistory-IsOrderly : {f g : Fund} → RoomHistory f g → IsOrderly f → IsOrderly g
RoomHistory-IsOrderly {f} {g} past o = Tidy-IsOrderly g (RoomHistory-Tidy past (IsOrderly-Tidy f o))
