-- ===== src/Folio.antt =====
-- The bill of a reservation: backend/src/modules/folio/folio.service.ts. The columns hold whole
-- kopecks; a balance is added up in doubles.
use kars_hotel.Base.{
  ℕ, suc, ◌+◌, ◌*◌, ◌/◌, ◌≡◌, Bool, true, false, Option, none, some, List, [], ◌∷◌, ◌++◌, map, ◌==◌,
  if◌then◌else◌, find, select, not,
}
use kars_hotel.Base.Int.{pos}
use kars_hotel.Folio.Doubles.{Double, of_kopecks, plus, minus, over_kopeck}
use kars_hotel.Base.Text.{Text}
use kars_hotel.Base.Result.{Result, ok, err, ◌>>=◌, ◌>>◌, or_refuse}
use kars_hotel.Hotel.{
  Hotel, Reservation, Folio, Charge, ChargeType, Payment, PaymentType, payment, deposit, refund,
  PaymentMethod, Refusal, reservation_not_found, charge_not_found, outstanding_balance, Effect,
  journaled, charge_add, payment_add, charge_delete, find_reservation, emit, Change, Value, absent,
  number,
}
pub mod Doubles
pub mod Settled
mod Tests

abbrev pub find_folio : ℕ → List Folio → Option Folio
find_folio id = find (λ f. f.reservation_id == id)

abbrev pub update_folio : ℕ → (Folio → Folio) → List Folio → List Folio
update_folio id f = map (λ x. if x.reservation_id == id then f x else x)

-- `reduce((s, c) => s + Number(c.total), 0)`
unfoldable pub charged : Double → List Charge → Double
charged s [] = s
charged s (c ∷ cs) = charged (plus s (of_kopecks c.total)) cs

abbrev pub paid_step : PaymentType → Double → Double → Double
paid_step refund amount s = minus s amount
paid_step payment amount s = plus s amount
paid_step deposit amount s = plus s amount

unfoldable pub paid : Double → List Payment → Double
paid s [] = s
paid s (p ∷ ps) = paid (paid_step p.type (of_kopecks p.amount) s) ps

-- `totalCharged - totalPaid`
unfoldable pub balance : Folio → Double
balance f = minus (charged (pos 0) f.charges) (paid (pos 0) f.payments)

abbrev pub refuse_debt : Option Folio → Result Refusal (Unit {0})
refuse_debt none = ok tt
refuse_debt (some f) = if over_kopeck (balance f) then err outstanding_balance else ok tt

unfoldable pub assert_zero_balance : ℕ → Hotel → Result Refusal (Unit {0})
assert_zero_balance id h = refuse_debt (find_folio id h.folios)

abbrev pub empty_folio : ℕ → Folio
empty_folio id = record { reservation_id = id; charges = []; payments = [] }

abbrev pub with_folio : ℕ → Hotel → Option Folio → Hotel
with_folio id h (some f) = h
with_folio id h none = record h { folios = h.folios ++ empty_folio id ∷ [] }

-- `folioOf`: the bill of one's own reservation, made at the first call.
unfoldable pub folio_of : ℕ → Hotel → Result Refusal Hotel
folio_of id h = do
  or_refuse (find_reservation id h.reservations) reservation_not_found
  ok (with_folio id h (find_folio id h.folios))

pub record AddCharge : Type 0 where
  pub type : ChargeType
  pub description : Text
  pub quantity : ℕ
  pub unit_price : ℕ

pub record AddPayment : Type 0 where
  pub method : PaymentMethod
  pub amount : ℕ
  pub type : Option PaymentType
  pub note : Option Text

-- `quantity * unitPrice`, as the column with two decimals keeps it. The product is exact here; in
-- doubles it may come out a digit away where its third decimal is a 5 and nothing follows.
abbrev pub line_total : ℕ → ℕ → ℕ
line_total quantity unit_price = (quantity * unit_price + 50) / 100

abbrev pub or_payment : Option PaymentType → PaymentType
or_payment none = payment
or_payment (some t) = t

-- The rows that the two inserts make.
unfoldable pub new_charge : AddCharge → ℕ → ℕ → Charge
new_charge dto user id = record {
  id = id;
  type = dto.type;
  description = dto.description;
  quantity = dto.quantity;
  unit_price = dto.unit_price;
  total = line_total dto.quantity dto.unit_price;
  added_by = user;
}

unfoldable pub new_payment : AddPayment → ℕ → ℕ → Payment
new_payment dto user id = record {
  id = id;
  type = or_payment dto.type;
  method = dto.method;
  amount = dto.amount;
  note = dto.note;
  received_by = user;
}

abbrev pub push_charge : Charge → Folio → Folio
push_charge c f = record f { charges = f.charges ++ c ∷ [] }

abbrev pub push_payment : Payment → Folio → Folio
push_payment p f = record f { payments = f.payments ++ p ∷ [] }

abbrev pub drop_charge : ℕ → Folio → Folio
drop_charge charge_id f = record f { charges = select (λ c. not (c.id == charge_id)) f.charges }

-- A line of the journal with what was and what is.
abbrev pub changed : Value → Value → List Change
changed was is = record { before = was; after = is } ∷ []

unfoldable pub add_charge : ℕ → AddCharge → ℕ → Hotel → Result Refusal (Charge × Hotel)
add_charge id dto user h = do
  h' ← folio_of id h
  let charge = new_charge dto user h'.next_id
  ok (
    charge,
    emit (journaled charge_add id (some user) (changed absent (number charge.total)) ∷ [])
        (record h' {
          folios = update_folio id (push_charge charge) h'.folios;
          next_id = suc h'.next_id;
        }),
  )

unfoldable pub add_payment : ℕ → AddPayment → ℕ → Hotel → Result Refusal (Payment × Hotel)
add_payment id dto user h = do
  h' ← folio_of id h
  let entry = new_payment dto user h'.next_id
  ok (
    entry,
    emit (journaled payment_add id (some user) (changed absent (number entry.amount)) ∷ [])
        (record h' {
          folios = update_folio id (push_payment entry) h'.folios;
          next_id = suc h'.next_id;
        }),
  )

abbrev pub charges_of : Option Folio → List Charge
charges_of none = []
charges_of (some f) = f.charges

-- The line is looked for in the bill of this reservation, and deleted by its id.
unfoldable pub delete_charge : ℕ → ℕ → Option ℕ → Hotel → Result Refusal Hotel
delete_charge id charge_id user h = do
  found ←
      or_refuse (find (λ c. c.id == charge_id) (charges_of (find_folio id h.folios)))
        charge_not_found
  ok (
      emit (journaled charge_delete id user (changed (number found.total) absent) ∷ [])
        (record h { folios = map (drop_charge charge_id) h.folios }))
