-- ===== src/Restrictions/Tests.antt =====
-- The theorems on restrictions at a concrete stay
-- (backend/src/modules/restrictions/restrictions.service.ts).
use kars_hotel.Base.{◌-◌, ◌≡◌, ◌↔◌, refl, true, false, none, some, List, [], ◌∷◌, select, arith}
use kars_hotel.Restrictions.{
  Restriction, CheckInput, CheckResult, code_min_los, by_date, in_stay, departure_row, check,
  violations_of, nights_violations, night_violations, arrival_violations, departure_violations,
}
use kars_hotel.Restrictions.Rules.{NightsAreOpen, ArrivalIsOpen, DepartureIsOpen, check-allows}

abbrev same_order : List Restriction → List Restriction
same_order rows = rows

abbrev three_nights : Restriction
three_nights = record {
  room_type_id = 7;
  rate_plan_id = none;
  date = 10;
  closed = false;
  stop_sell = false;
  cta = false;
  ctd = false;
  min_los = some 3;
  max_los = none;
  min_los_arrival = none;
  max_los_arrival = none;
  min_advance = none;
  max_advance = none;
}

abbrev any_length : Restriction
any_length = record three_nights { rate_plan_id = some 1; min_los = none }

abbrev stay : CheckInput
stay = record { rate_plan_id = none; room_type_id = 7; arrival = 10; departure = 12; now = 5 }

abbrev refused : CheckResult
refused = record {
  allowed = false;
  nights = 2;
  violations = record { code = code_min_los; date = some 10 } ∷ [];
}

check-allows_example : (◌≡◌ false true) ↔ (
    NightsAreOpen (12 - 10) (12 - 10) 10 (select (in_stay stay) (three_nights ∷ any_length ∷ []))
    × (ArrivalIsOpen
          (12 - 10)
          stay
          (by_date 10 (select (in_stay stay) (three_nights ∷ any_length ∷ [])) none)
        × DepartureIsOpen (departure_row same_order stay (three_nights ∷ any_length ∷ []))))
unfolding check violations_of nights_violations night_violations arrival_violations
    departure_violations departure_row by_date
check-allows_example =
    check-allows same_order stay (7 ∷ []) (three_nights ∷ any_length ∷ []) refused (omega arith)
      refl
