-- ===== src/Reservations/Request.antt =====
-- What the cabinet and the partner send (backend/src/modules/reservations/dto), and how a status or a
-- source sent as text is read (backend/src/modules/reservations/reservations.service.ts).
use kars_hotel.Base.{ℕ, Bool, Option, none, some, List, [], ◌∷◌, if◌then◌else◌}
use kars_hotel.Base.Text.{Text, codes, text_eq, to_upper}
use kars_hotel.Hotel.{
  Status, new, confirmed, checked_in, checked_out, cancelled, no_show, Source, direct, phone,
  online, ota, corporate, GuestKind,
}

abbrev pub status_name : Status → Text
status_name new = codes "NEW"
status_name confirmed = codes "CONFIRMED"
status_name checked_in = codes "CHECKED_IN"
status_name checked_out = codes "CHECKED_OUT"
status_name cancelled = codes "CANCELLED"
status_name no_show = codes "NO_SHOW"

abbrev pub source_name : Source → Text
source_name direct = codes "DIRECT"
source_name phone = codes "PHONE"
source_name online = codes "ONLINE"
source_name ota = codes "OTA"
source_name corporate = codes "CORPORATE"

-- The value of a list whose name is this text.
abbrev named {ℓ} : {A : Type ℓ} → (A → Text) → Text → List A → Option A
named name t [] = none
named name t (x ∷ xs) = if text_eq t (name x) then some x else named name t xs

-- `VALID_STATUSES` and `VALID_SOURCES`
abbrev valid_statuses : List Status
valid_statuses = new ∷ confirmed ∷ checked_in ∷ checked_out ∷ cancelled ∷ no_show ∷ []

abbrev valid_sources : List Source
valid_sources = direct ∷ phone ∷ online ∷ ota ∷ corporate ∷ []

unfoldable pub read_status : Text → Option Status
read_status t = named status_name (to_upper t) valid_statuses

unfoldable pub read_source : Text → Option Source
read_source t = named source_name (to_upper t) valid_sources

abbrev pub or_else {ℓ} : {A : Type ℓ} → Option A → A → A
or_else none d = d
or_else (some a) d = a

-- `sent && VALID.includes(sent.toUpperCase()) ? sent.toUpperCase() : otherwise`
unfoldable pub status_or : Option Text → Status → Status
status_or none d = d
status_or (some t) d = or_else (read_status t) d

unfoldable pub source_or : Option Text → Source → Source
source_or none d = d
source_or (some t) d = or_else (read_source t) d

-- Arrival, departure and flight, which only the partner sends. Not sent: `none`; erased:
-- `some none`.
pub record PartnerStayInfo : Type 0 where
  pub arrival_at : Option (Option Text)
  pub departure_at : Option (Option Text)
  pub flight : Option (Option Text)

pub record Idempotency : Type 0 where
  pub key : Text
  pub payload_hash : Text

pub record ChannelContext : Type 0 where
  pub partner_id : ℕ
  pub idempotency : Option Idempotency

pub record CreateReservation : Type 0 where
  pub room_id : ℕ
  pub guest_name : Text
  pub phone : Option Text
  pub email : Option Text
  pub check_in : ℕ
  pub check_out : ℕ
  pub adults : ℕ
  pub children : Option ℕ
  pub status : Option Text
  pub source : Option Text
  pub notes : Option Text
  pub total_price : Option ℕ
  pub rate_plan_id : Option ℕ
  pub channel_managed : Option Bool
  pub guest_kind : Option GuestKind

pub record UpdateReservation : Type 0 where
  pub version : ℕ
  pub room_id : Option ℕ
  pub guest_name : Option Text
  pub phone : Option Text
  pub email : Option Text
  pub check_in : Option ℕ
  pub check_out : Option ℕ
  pub adults : Option ℕ
  pub children : Option ℕ
  pub status : Option Text
  pub source : Option Text
  pub notes : Option Text
  pub place_number : Option ℕ
  pub total_price : Option (Option ℕ)
