-- ===== src/Hotel.antt =====
-- The rows that the reservation services of one hotel read and write (backend/prisma/schema.prisma),
-- and the traces that they leave outside the transaction. Row ids are only compared, so they are
-- numbers; `next_id` is the next value of the database's generator. A date is a number of days, a
-- moment a number of milliseconds, money a number of kopecks.
use kars_hotel.Base.{
  ℕ, suc, Bool, true, false, Option, none, some, List, [], ◌∷◌, ◌++◌, map, ◌==◌, ◌&&◌,
  if◌then◌else◌, find,
}
use kars_hotel.Base.Text.{Text}
pub mod Store
pub mod Samples

pub data Status : Type 0 where
  new confirmed checked_in checked_out cancelled no_show : Status

pub data Source : Type 0 where
  direct phone online ota corporate : Source

pub data GuestKind : Type 0 where
  crew disruption : GuestKind

pub record Reservation : Type 0 where
  pub id : ℕ
  pub room_id : ℕ
  pub room_type_id : ℕ
  pub guest_name : Text
  pub phone : Option Text
  pub email : Option Text
  pub check_in : ℕ
  pub check_out : ℕ
  pub status : Status
  pub source : Source
  pub adults : ℕ
  pub children : ℕ
  pub notes : Option Text
  pub total_price : Option ℕ
  pub rate_plan_id : Option ℕ
  pub place_number : ℕ
  pub channel_managed : Bool
  pub partner_id : Option ℕ
  pub partner_idempotency_key : Option Text
  pub partner_payload_hash : Option Text
  pub guest_kind : Option GuestKind
  pub version : ℕ
  pub arrival_at : Option Text
  pub departure_at : Option Text
  pub flight : Option Text
  pub checked_in_at : Option ℕ
  pub checked_out_at : Option ℕ

pub data RoomStatus : Type 0 where
  dirty cleaning inspected clean ready out_of_order out_of_service : RoomStatus

pub record Room : Type 0 where
  pub id : ℕ
  pub room_type_id : ℕ
  pub capacity : ℕ
  pub is_active : Bool
  pub status : RoomStatus

pub data PaymentType : Type 0 where
  payment deposit refund : PaymentType

pub data ChargeType : Type 0 where
  room_charge meal ancillary penalty manual : ChargeType

pub data PaymentMethod : Type 0 where
  cash card bank_transfer ota_passthru : PaymentMethod

pub record Charge : Type 0 where
  pub id : ℕ
  pub type : ChargeType
  pub description : Text
  pub quantity : ℕ  -- in hundredths
  pub unit_price : ℕ
  pub total : ℕ
  pub added_by : ℕ

pub record Payment : Type 0 where
  pub id : ℕ
  pub type : PaymentType
  pub method : PaymentMethod
  pub amount : ℕ
  pub note : Option Text
  pub received_by : ℕ

pub record Folio : Type 0 where
  pub reservation_id : ℕ
  pub charges : List Charge
  pub payments : List Payment

pub data TaskType : Type 0 where
  cleaning_task turndown inspection maintenance deep_clean : TaskType

pub data TaskStatus : Type 0 where
  pending in_progress done task_inspected : TaskStatus

pub record HkTask : Type 0 where
  pub id : ℕ
  pub room_id : ℕ
  pub type : TaskType
  pub status : TaskStatus
  pub assignee_id : Option ℕ
  pub notes : Option Text
  pub created_from : Option ℕ
  pub completed_at : Option ℕ

-- A value of a row as the journal compares it: `String(v ?? '')`.
pub data Value : Type 0 where
  absent : Value
  words : Text → Value
  number : ℕ → Value
  status_value : Status → Value
  source_value : Source → Value

pub record Change : Type 0 where
  pub before : Value
  pub after : Value

pub data Action : Type 0 where
  create update check_in check_out no_show_action cancel view charge_add payment_add charge_delete :
      Action

-- What a service leaves outside the tables: cache and socket calls, the journal, partner events.
pub data Effect : Type 0 where
  invalidated notified_created notified_updated : Effect
  journaled : Action → ℕ → Option ℕ → List Change → Effect
  told_fact : Status → ℕ → Option ℕ → ℕ → ℕ → Effect
  told_changed : ℕ → Status → ℕ → ℕ → ℕ → ℕ → Effect
  cleaning_asked : ℕ → ℕ → Effect

pub record Hotel : Type 0 where
  pub rooms : List Room
  pub multi_place : Bool
  pub reservations : List Reservation
  pub folios : List Folio
  pub tasks : List HkTask
  pub next_id : ℕ
  pub webhooks_on : Bool
  pub effects : List Effect

pub data Fact : Type 0 where
  fact_checked_in fact_checked_out fact_no_show : Fact

pub data CancelRefusal : Type 0 where
  by_channel already_closed : CancelRefusal

-- The exceptions that the services throw.
pub data Refusal : Type 0 where
  reservation_not_found room_not_found task_not_found charge_not_found : Refusal
  version_mismatch date_conflict no_place_available booking_conflict channel_guests : Refusal
  different_rooms outstanding_balance key_reused : Refusal
  wrong_status : Fact → Refusal
  cancel_refused : CancelRefusal → Refusal

-- `... WHERE id = ${id} LIMIT 1` and `UPDATE ... WHERE id = ${id}`.
abbrev pub find_reservation : ℕ → List Reservation → Option Reservation
find_reservation id = find (λ r. r.id == id)

abbrev pub update_reservation :
    ℕ → (Reservation → Reservation) → List Reservation → List Reservation
update_reservation id f = map (λ r. if r.id == id then f r else r)

-- `... WHERE id = ${id} AND is_active = true LIMIT 1`
abbrev pub find_active_room : ℕ → List Room → Option Room
find_active_room id = find (λ r. r.id == id && r.is_active)

abbrev pub set_room_status : ℕ → RoomStatus → List Room → List Room
set_room_status id s = map (λ r. if r.id == id then record r { status = s } else r)

abbrev pub emit : List Effect → Hotel → Hotel
emit es h = record h { effects = h.effects ++ es }
