-- ===== src/Reservations/Swap.antt =====
-- Swapping the places of two reservations:
-- backend/src/modules/reservations/reservations.service.ts, `swap`.
use kars_hotel.Base.{ℕ, suc, not, [], ◌∷◌, ◌&&◌, ◌==◌}
use kars_hotel.Base.Result.{Result, ok, ◌>>=◌, ◌>>◌, or_refuse, refuse_if}
use kars_hotel.Hotel.{
  Hotel, Reservation, Refusal, reservation_not_found, version_mismatch, different_rooms,
  invalidated, notified_updated, find_reservation, update_reservation, emit,
}

pub record SwapReservations : Type 0 where
  pub id_a : ℕ
  pub version_a : ℕ
  pub id_b : ℕ
  pub version_b : ℕ

abbrev pub move_to : ℕ → Reservation → Reservation
move_to place r = record r { place_number = place; version = suc r.version }

-- Two rows are asked for by their ids: with one id for both there is one row.
unfoldable pub swap : SwapReservations → Hotel → Result Refusal ((ℕ × ℕ) × Hotel)
swap dto h = do
  refuse_if (dto.id_a == dto.id_b) reservation_not_found
  a ← or_refuse (find_reservation dto.id_a h.reservations) reservation_not_found
  b ← or_refuse (find_reservation dto.id_b h.reservations) reservation_not_found
  refuse_if (not (a.version == dto.version_a && b.version == dto.version_b)) version_mismatch
  refuse_if (not (a.room_id == b.room_id)) different_rooms
  let moved = update_reservation dto.id_a (move_to b.place_number) h.reservations
  let both = update_reservation dto.id_b (move_to a.place_number) moved
  ok (
    (suc a.version, suc b.version),
    emit (invalidated ∷ notified_updated ∷ []) (record h { reservations = both }),
  )
