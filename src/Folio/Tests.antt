-- ===== src/Folio/Tests.antt =====
-- The theorems on the bill at a concrete hotel (backend/src/modules/folio/folio.service.ts).
use kars_hotel.Base.{◌≡◌, refl, true, false, none, [], ◌∷◌}
use kars_hotel.Base.Int.{pos, ◌-ℤ◌, ◌+ℤ◌}
use kars_hotel.Base.Result.{ok, err}
use kars_hotel.Hotel.{
  Hotel, checked_in, Folio, Charge, Payment, manual, payment, card, outstanding_balance,
}
use kars_hotel.Hotel.Samples.{stay_of, hotel_of, hotel_after}
use kars_hotel.Folio.{
  folio_of, balance, charged, paid, new_charge, new_payment, AddCharge, AddPayment, add_charge,
  add_payment, assert_zero_balance,
}
use kars_hotel.Folio.Doubles.{plus, excess, nearest, rounded, of_kopecks, minus, over_kopeck}
use kars_hotel.Folio.Settled.{no_lines, line, assert_zero_balance-Mirrors}

abbrev guest : Hotel
guest = hotel_of false (stay_of 1 1 10 12 checked_in false ∷ [])

abbrev minibar : AddCharge
minibar = record { type = manual; description = []; quantity = 200; unit_price = 45000 }

abbrev charged_guest : Hotel
charged_guest = hotel_after guest (add_charge 1 minibar 3 guest)

abbrev pays : AddPayment
pays = record { method = card; amount = 90000; type = none; note = none }

debt_test : assert_zero_balance 1 charged_guest ≡ err outstanding_balance
unfolding assert_zero_balance add_charge folio_of over_kopeck of_kopecks rounded nearest excess
    balance minus ◌-ℤ◌ charged plus ◌+ℤ◌ new_charge paid
debt_test = refl

abbrev fee : Charge
fee = record {
  id = 50;
  type = manual;
  description = [];
  quantity = 200;
  unit_price = 45000;
  total = 90000;
  added_by = 3;
}

abbrev fare : Payment
fare = record {
  id = 51;
  type = payment;
  method = card;
  amount = 90000;
  note = none;
  received_by = 3;
}

abbrev bill : Folio
bill = record { reservation_id = 1; charges = fee ∷ []; payments = fare ∷ [] }

-- The guest pays what was charged.
abbrev paid_guest : Hotel
paid_guest = hotel_after charged_guest (add_payment 1 pays 3 charged_guest)

-- One kopeck alone is not over 0.01, but 100.01 less 100 is.
one_kopeck_test : over_kopeck (minus (of_kopecks 1) (pos 0)) ≡ false
unfolding over_kopeck minus ◌-ℤ◌ of_kopecks rounded nearest excess
one_kopeck_test = refl

last_kopeck_test : over_kopeck (minus (of_kopecks 10001) (of_kopecks 10000)) ≡ true
unfolding over_kopeck minus ◌-ℤ◌ of_kopecks rounded nearest excess
last_kopeck_test = refl

assert_zero_balance-Mirrors_example : assert_zero_balance 1 paid_guest ≡ ok tt
unfolding add_payment folio_of add_charge new_charge new_payment
assert_zero_balance-Mirrors_example =
    assert_zero_balance-Mirrors 1 paid_guest bill refl (line fee fare (λ q. cc) refl no_lines)
