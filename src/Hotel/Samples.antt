-- ===== src/Hotel/Samples.antt =====
-- Small hotels for the runs of the services (backend/src/modules).
use kars_hotel.Base.{ℕ, Bool, true, none, List, [], ◌∷◌}
use kars_hotel.Base.Result.{Result, ok, err}
use kars_hotel.Hotel.{Hotel, Reservation, Room, Status, direct, clean, Refusal}

abbrev pub room_101 : Room
room_101 = record { id = 101; room_type_id = 7; capacity = 2; is_active = true; status = clean }

-- A reservation of room 101 for one guest.
abbrev pub stay_of : ℕ → ℕ → ℕ → ℕ → Status → Bool → Reservation
stay_of id place check_in check_out status managed = record {
  id = id;
  room_id = 101;
  room_type_id = 7;
  guest_name = [];
  phone = none;
  email = none;
  check_in = check_in;
  check_out = check_out;
  status = status;
  source = direct;
  adults = 1;
  children = 0;
  notes = none;
  total_price = none;
  rate_plan_id = none;
  place_number = place;
  channel_managed = managed;
  partner_id = none;
  partner_idempotency_key = none;
  partner_payload_hash = none;
  guest_kind = none;
  version = 1;
  arrival_at = none;
  departure_at = none;
  flight = none;
  checked_in_at = none;
  checked_out_at = none;
}

abbrev pub hotel_of : Bool → List Reservation → Hotel
hotel_of multi_place rs = record {
  rooms = room_101 ∷ [];
  multi_place = multi_place;
  reservations = rs;
  folios = [];
  tasks = [];
  next_id = 50;
  webhooks_on = true;
  effects = [];
}

-- The hotel that a request leaves.
abbrev pub hotel_after : {A : Type 0} → Hotel → Result Refusal (A × Hotel) → Hotel
hotel_after h (ok (a, h')) = h'
hotel_after h (err e) = h
