-- ===== src/Reservations/Create.antt =====
-- Making a reservation: backend/src/modules/reservations/reservations.service.ts, `create`. The
-- whole transaction is one step; requests with one idempotency key are put in order by a lock.
use kars_hotel.Base.{
  ℕ, suc, Bool, true, false, not, Option, none, some, List, [], ◌∷◌, ◌++◌, ◌&&◌, ltb, ◌==◌, find,
  if◌then◌else◌,
}
use kars_hotel.Base.Text.{Text, text_eq}
use kars_hotel.Base.Result.{Result, ok, err, ◌>>=◌, ◌>>◌, or_refuse, refuse_if}
use kars_hotel.Places.{allocate_place}
use kars_hotel.Hotel.{
  Hotel, Reservation, Room, Status, confirmed, direct, Refusal, date_conflict, room_not_found,
  no_place_available, key_reused, invalidated, notified_created, journaled, create,
  find_active_room, emit, Change, absent, status_value, number, words,
}
use kars_hotel.Reservations.Request.{
  CreateReservation, PartnerStayInfo, ChannelContext, Idempotency, status_or, source_or, or_else,
}
use kars_hotel.Reservations.Overlap.{overlapping}

pub record Created : Type 0 where
  pub id : ℕ
  pub status : Status
  pub version : ℕ
  pub place_number : ℕ

abbrev pub created_of : Reservation → Created
created_of r = record {
  id = r.id;
  status = r.status;
  version = r.version;
  place_number = r.place_number;
}

abbrev pub is_num : ℕ → Option ℕ → Bool
is_num n none = false
is_num n (some m) = m == n

abbrev pub is_text : Text → Option Text → Bool
is_text t none = false
is_text t (some u) = text_eq u t

-- The `where` of `channelReservation`.
unfoldable pub has_key : ℕ → Text → Reservation → Bool
has_key partner key r =
    is_num partner r.partner_id && (r.channel_managed && is_text key r.partner_idempotency_key)

abbrev pub same_payload : Text → Option Reservation → Result Refusal (Option Created)
same_payload hash none = ok none
same_payload hash (some r) =
    if is_text hash r.partner_payload_hash then ok (some (created_of r)) else err key_reused

abbrev replay_by_key : ℕ → Option Idempotency → List Reservation → Result Refusal (Option Created)
replay_by_key partner none rs = ok none
replay_by_key partner (some i) rs = same_payload i.payload_hash (find (has_key partner i.key) rs)

-- `channelReservation`: the reservation that this key has made before.
unfoldable pub channel_reservation :
    Option ChannelContext → List Reservation → Result Refusal (Option Created)
channel_reservation none rs = ok none
channel_reservation (some channel) rs = replay_by_key channel.partner_id channel.idempotency rs

abbrev partner_of : Option ChannelContext → Option ℕ
partner_of none = none
partner_of (some channel) = some channel.partner_id

abbrev idempotency_of : Option ChannelContext → Option Idempotency
idempotency_of none = none
idempotency_of (some channel) = channel.idempotency

abbrev key_of : Option Idempotency → Option Text
key_of none = none
key_of (some i) = some i.key

abbrev hash_of : Option Idempotency → Option Text
hash_of none = none
hash_of (some i) = some i.payload_hash

-- `channel ? true : dto.channelManaged ?? false`
abbrev managed_by : Option ChannelContext → Option Bool → Bool
managed_by none sent = or_else sent false
managed_by (some channel) sent = true

abbrev sent_or_null : Option (Option Text) → Option Text
sent_or_null none = none
sent_or_null (some t) = t

-- The inserted row.
unfoldable pub new_reservation :
    CreateReservation → PartnerStayInfo → Option ChannelContext → Room → ℕ → ℕ → Reservation
new_reservation dto stay channel room place id = record {
  id = id;
  room_id = dto.room_id;
  room_type_id = room.room_type_id;
  guest_name = dto.guest_name;
  phone = dto.phone;
  email = dto.email;
  check_in = dto.check_in;
  check_out = dto.check_out;
  status = status_or dto.status confirmed;
  source = source_or dto.source direct;
  adults = dto.adults;
  children = or_else dto.children 0;
  notes = dto.notes;
  total_price = dto.total_price;
  rate_plan_id = dto.rate_plan_id;
  place_number = place;
  channel_managed = managed_by channel dto.channel_managed;
  partner_id = partner_of channel;
  partner_idempotency_key = key_of (idempotency_of channel);
  partner_payload_hash = hash_of (idempotency_of channel);
  guest_kind = dto.guest_kind;
  version = 1;
  arrival_at = sent_or_null stay.arrival_at;
  departure_at = sent_or_null stay.departure_at;
  flight = sent_or_null stay.flight;
  checked_in_at = none;
  checked_out_at = none;
}

abbrev create_changes : Reservation → List Change
create_changes r =
    record { before = absent; after = status_value r.status }
    ∷ record { before = absent; after = number r.room_id }
    ∷ record { before = absent; after = words r.guest_name }
    ∷ []

unfoldable pub create_fresh :
    CreateReservation
    → PartnerStayInfo
    → Option ChannelContext
    → Option ℕ
    → Hotel
    → Result Refusal (Created × Hotel)
create_fresh dto stay channel user h = do
  room ← or_refuse (find_active_room dto.room_id h.rooms) room_not_found
  place ←
      or_refuse
        (allocate_place room.capacity h.multi_place
          (record { adults = dto.adults; children = some (or_else dto.children 0) })
          (overlapping dto.room_id dto.check_in dto.check_out none h.reservations))
        no_place_available
  let r = new_reservation dto stay channel room place h.next_id
  ok (
    created_of r,
    emit (invalidated ∷ notified_created ∷ journaled create r.id user (create_changes r) ∷ [])
        (record h { reservations = h.reservations ++ r ∷ []; next_id = suc h.next_id }),
  )

abbrev pub replayed_or :
    Option Created → Hotel → Result Refusal (Created × Hotel) → Result Refusal (Created × Hotel)
replayed_or none h fresh = fresh
replayed_or (some c) h fresh = ok (c, h)

-- `create`: a replay answers as the first request did, and writes nothing.
unfoldable pub create_reservation :
    CreateReservation
    → PartnerStayInfo
    → Option ChannelContext
    → Option ℕ
    → Hotel
    → Result Refusal (Created × Hotel)
create_reservation dto stay channel user h = do
  refuse_if (not (ltb dto.check_in dto.check_out)) date_conflict
  replay ← channel_reservation channel h.reservations
  replayed_or replay h (create_fresh dto stay channel user h)
