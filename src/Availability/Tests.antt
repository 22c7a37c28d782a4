-- ===== src/Availability/Tests.antt =====
-- The theorems on availability at a concrete hotel
-- (backend/src/modules/inventory/availability.service.ts).
use kars_hotel.Base.{
  ℕ, suc, ◌-◌, ◌≤◌, ◌<◌, ◌≡◌, ◌↔◌, ◌∙◌, sym, refl, inl, inr, Bool, true, false, Option, none, some,
  List, [], ◌∷◌, arith, In, length, sort_by, insert_by,
}
use kars_hotel.Base.Text.{Text}
use kars_hotel.Base.Result.{ok}
use kars_hotel.Hotel.Samples.{room_101}
use kars_hotel.Inventory.{
  InventoryRow, Store, each_day, increment_booked, room_count, compute_available,
}
use kars_hotel.Restrictions.{Restriction}
use kars_hotel.Pricing.Baseline.{StandardWindow, resolve, seasons_of, season_hit, pick_by_occupancy}
use kars_hotel.Availability.Tables.{
  DailyRate, RatePlan, Tables, Query, OfferQuery, DayAvailability, RatePlanPrice, Cache, bb,
}
use kars_hotel.Availability.Check.{
  check, check_all, check_each, cached_answer, fresh_answer, result_of, drop_last, day_availability,
  day_of, inventory_of, rule_of, last_match, min_price, lowest, plan_ids, add_ids, effective_price,
  daily_min, day_restrictions, sells_day,
}
use kars_hotel.Availability.Bookable.{EachDay, NightSells, check-bookable}
use kars_hotel.Availability.Sale.{OneRow, bookable-increment_booked}
use kars_hotel.Availability.Cheapest.{min_price-cheapest}
use kars_hotel.Availability.Departures.{check-never_ctd}
use kars_hotel.Availability.Offers.{
  price_by_plan, fresh_offers, price_plans, price_each, night_price, daily_for, least,
  cached_offers,
}
use kars_hotel.Availability.Quoted.{IsOffer, Priced, dates_of, price_by_plan-offers}

abbrev days_between : ℕ → ℕ → List ℕ
days_between from to = each_day (suc (to - from)) from

abbrev days_between_law : EachDay days_between
days_between_law from to h = refl

abbrev half_sold : InventoryRow
half_sold = record {
  room_type_id = 7;
  date = 10;
  total_rooms = 2;
  booked_rooms = 1;
  blocked_rooms = 0;
  stop_sell = false;
}

abbrev two_nights_least : Restriction
two_nights_least = record {
  room_type_id = 7;
  rate_plan_id = none;
  date = 10;
  closed = false;
  stop_sell = false;
  cta = false;
  ctd = true;
  min_los = some 2;
  max_los = none;
  min_los_arrival = none;
  max_los_arrival = some 3;
  min_advance = none;
  max_advance = none;
}

abbrev plan_of : ℕ → Option ℕ → RatePlan
plan_of id partner = record {
  id = id;
  code = [];
  name = [];
  meal_plan = bb;
  partner_id = partner;
  partner_account_id = none;
  partner_customer_id = none;
  guest_kind = none;
  vat_rate = none;
  sort_order = id;
  is_active = true;
}

abbrev rate_on : ℕ → ℕ → ℕ → ℕ → DailyRate
rate_on plan date occupancy price = record {
  rate_plan_id = plan;
  room_type_id = 7;
  date = date;
  occupancy = occupancy;
  price = price;
}

abbrev standard_price : StandardWindow
standard_price = record { rate_plan_id = 1; room_type_id = 7; price = 400000; occupancy = none }

abbrev tables : Tables
tables = record {
  rooms = room_101 ∷ [];
  room_types = record { id = 7; sort_order = 1; is_active = true } ∷ [];
  inventory = half_sold ∷ [];
  restrictions = two_nights_least ∷ [];
  rates = rate_on 1 10 2 450000 ∷ rate_on 2 10 1 300000 ∷ rate_on 2 11 1 310000 ∷ [];
  seasons = [];
  standards = standard_price ∷ [];
  rate_plans = plan_of 1 none ∷ plan_of 2 (some 5) ∷ [];
}

abbrev two_nights : Query
two_nights = record { room_type_id = 7; check_in = 10; check_out = 12; rate_plan_id = none }

abbrev nothing_cached : Cache
nothing_cached = record { answers = []; offers = [] }

bookable_test : (check days_between two_nights tables nothing_cached).0.bookable ≡ true
unfolding check cached_answer fresh_answer result_of drop_last each_day sells_day day_availability
    day_of inventory_of rule_of last_match day_restrictions compute_available room_count
bookable_test = refl

-- The second call answers from the cache, and one night is too short.
cached_test :
    (check days_between two_nights
      (record tables { inventory = []; rooms = [] })
      (check days_between two_nights tables nothing_cached).1).0.bookable
    ≡ true
unfolding check cached_answer fresh_answer result_of drop_last each_day sells_day day_availability
    day_of inventory_of rule_of last_match day_restrictions compute_available room_count
cached_test = refl

short_test :
    (check days_between (record two_nights { check_out = 11 }) tables nothing_cached).0.bookable
    ≡ false
unfolding check cached_answer fresh_answer result_of drop_last each_day sells_day day_availability
    day_of inventory_of rule_of last_match day_restrictions compute_available room_count
short_test = refl

all_test : length (check_all days_between 10 12 none tables nothing_cached).0 ≡ 1
unfolding check_all check_each sort_by insert_by
all_test = refl

check-bookable_example :
    ((check days_between two_nights tables nothing_cached).0.bookable ≡ true)
    ↔ ((k : ℕ) → k < 12 - 10 → NightSells two_nights tables (12 - 10) k)
unfolding cached_answer
check-bookable_example =
    check-bookable days_between days_between_law two_nights tables (omega arith) nothing_cached refl

one_row : OneRow (half_sold ∷ [])
one_row r r' (inl e) (inl e') same day = e ∙ sym e'
one_row r r' (inl e) (inr i) same day = absurd i
one_row r r' (inr i) j same day = absurd i

bookable-increment_booked_example :
    (s' : Store) × (increment_booked 7 (each_day (12 - 10) 10) 1 (record {
      rooms = room_101 ∷ [];
      room_types = 7 ∷ [];
      inventory = half_sold ∷ [];
      cached = [];
    })
      ≡ ok s')
unfolding cached_answer
bookable-increment_booked_example =
    bookable-increment_booked days_between days_between_law two_nights tables nothing_cached
      (record {
        rooms = room_101 ∷ [];
        room_types = 7 ∷ [];
        inventory = half_sold ∷ [];
        cached = [];
      })
      (omega arith) one_row refl refl refl bookable_test

min_price-cheapest_example :
    ((m : ℕ)
      → min_price two_nights tables 10 ≡ some m
      → ((plan : ℕ) × (effective_price two_nights tables 10 plan ≡ some m))
        × ((plan x : ℕ) → effective_price two_nights tables 10 plan ≡ some x → m ≤ x))
    × (min_price two_nights tables 10 ≡ none
        → (plan : ℕ) → effective_price two_nights tables 10 plan ≡ none)
min_price-cheapest_example = min_price-cheapest two_nights tables 10

lowest_test : min_price two_nights tables 10 ≡ some 300000
unfolding min_price lowest plan_ids add_ids effective_price daily_min resolve seasons_of season_hit
    pick_by_occupancy
lowest_test = refl

abbrev first_day : DayAvailability
first_day = day_availability two_nights tables 10

check-never_ctd_example : first_day.restrictions.ctd ≡ false
unfolding cached_answer check fresh_answer result_of drop_last each_day
check-never_ctd_example =
    check-never_ctd days_between days_between_law two_nights tables nothing_cached (omega arith)
      refl first_day (inl refl)

abbrev for_one : OfferQuery
for_one = record {
  room_type_id = 7;
  check_in = 10;
  check_out = 12;
  base_price = some 900000;
  guests = some 1;
}

abbrev by_name : Text → Text → Bool
by_name a b = false

offers_test : length (price_by_plan days_between by_name for_one tables nothing_cached).0 ≡ 2
unfolding price_by_plan fresh_offers drop_last each_day price_plans price_each night_price daily_for
    cached_offers resolve seasons_of season_hit pick_by_occupancy least sort_by insert_by
offers_test = refl

price_by_plan-offers_example :
    ((o : RatePlanPrice)
      → In o (price_by_plan days_between by_name for_one tables nothing_cached).0
      → (p : RatePlan) × In p tables.rate_plans
        × (p.is_active ≡ true)
        × IsOffer for_one tables (dates_of days_between for_one) p o)
    × ((p : RatePlan) (prices : List ℕ)
        → In p tables.rate_plans
        → p.is_active ≡ true
        → Priced (night_price for_one tables p) (dates_of days_between for_one) prices
        → (o : RatePlanPrice) × In o
            (price_by_plan days_between by_name for_one tables nothing_cached).0
          × IsOffer for_one tables (dates_of days_between for_one) p o)
unfolding cached_offers drop_last each_day
price_by_plan-offers_example =
    price_by_plan-offers days_between by_name for_one tables nothing_cached 10 (11 ∷ []) refl refl

partner_night : night_price for_one tables (plan_of 2 (some 5)) 11 ≡ some 310000
unfolding night_price daily_for
partner_night = refl
