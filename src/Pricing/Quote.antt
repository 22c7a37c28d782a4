-- ===== src/Pricing/Quote.antt =====
-- The price asked for by the cabinet: backend/src/modules/pricing/pricing.service.ts, with the lookup
-- of the day's rates (`makeMapLookup` of pricing.calculator.ts).
use kars_hotel.Base.{
  ℕ, zero, suc, Bool, Option, none, some, List, [], ◌∷◌, map, ◌==◌, ◌&&◌, ltb, leb, select, find,
  contains,
}
use kars_hotel.Base.Text.{Text, codes}
use kars_hotel.Base.Result.{Result, ok, err, ◌>>=◌, ◌>>◌, or_refuse, refuse_if}
use kars_hotel.Pricing.{
  RatePlanLike, RateQuery, RateLookup, PricingBreakdown, CalculateArgs, RangeError, day_of,
  calculate_pricing,
}
use kars_hotel.Pricing.Baseline.{SeasonWindow, StandardWindow, resolve}

pub record RateRow : Type 0 where
  pub key : RateQuery
  pub price : ℕ

abbrev pub same_key : RateQuery → RateQuery → Bool
same_key a b =
    a.rate_plan_id == b.rate_plan_id
    && (a.room_type_id == b.room_type_id && (a.date == b.date && a.occupancy == b.occupancy))

-- The map, the newest entry first: a later row with one key replaces the former.
unfoldable pub rates_map : List RateRow → List RateRow → List RateRow
rates_map [] entries = entries
rates_map (row ∷ rows) entries = rates_map rows (row ∷ entries)

abbrev pub price_in : Option RateRow → Option ℕ
price_in none = none
price_in (some row) = some row.price

unfoldable pub make_map_lookup : List RateRow → RateLookup
make_map_lookup rows q = price_in (find (λ row. same_key row.key q) (rates_map rows []))

pub record RoomTypeRow : Type 0 where
  pub id : ℕ
  pub base_occupancy : ℕ

pub record PriceTables : Type 0 where
  pub room_types : List RoomTypeRow
  pub rate_plans : List RatePlanLike
  pub rates : List RateRow
  pub seasons : List SeasonWindow
  pub standards : List StandardWindow

pub record QuoteInput : Type 0 where
  pub rate_plan_id : ℕ
  pub room_type_id : ℕ
  pub arrival : Option ℕ
  pub departure : Option ℕ
  pub occupancy : ℕ
  pub currency : Option Text

pub data QuoteRefusal : Type 0 where
  invalid_dates departure_before room_type_not_found rate_plan_not_found : QuoteRefusal
  calculation_failed : RangeError → QuoteRefusal

abbrev pub find_plan : ℕ → List RatePlanLike → Option RatePlanLike
find_plan id = find (λ p. p.id == id)

-- `while (currentParentId && depth < 5)`, on the levels left.
unfoldable pub parent_chain : ℕ → Option ℕ → List RatePlanLike → List RatePlanLike
parent_chain zero parent plans = []
parent_chain (suc levels) none plans = []
parent_chain (suc levels) (some id) plans = elim (find_plan id plans) [
  | none ↦ []
  | some p ↦ p ∷ parent_chain levels p.parent_rate_plan_id plans
]

abbrev or_rub : Option Text → Text
or_rub none = codes "RUB"
or_rub (some c) = c

-- `where: { ratePlanId: { in: planIds }, roomTypeId, date: { gte, lte } }`
abbrev pub is_candidate : List ℕ → ℕ → ℕ → ℕ → RateRow → Bool
is_candidate plans room_type from to row =
    contains row.key.rate_plan_id plans
    && (row.key.room_type_id == room_type && (leb from row.key.date && ltb row.key.date to))

abbrev season_candidate : List ℕ → ℕ → SeasonWindow → Bool
season_candidate plans room_type s = contains s.rate_plan_id plans && s.room_type_id == room_type

abbrev standard_candidate : List ℕ → ℕ → StandardWindow → Bool
standard_candidate plans room_type s = contains s.rate_plan_id plans && s.room_type_id == room_type

unfoldable pub quote_args :
    QuoteInput → ℕ → ℕ → RoomTypeRow → RatePlanLike → PriceTables → CalculateArgs
quote_args input arrival departure room_type plan db =
    let parents = parent_chain 5 plan.parent_rate_plan_id db.rate_plans in
    let ids = plan.id ∷ map (λ p. p.id) parents in
    let rows =
      select (is_candidate ids input.room_type_id (day_of arrival) (day_of departure)) db.rates in
    let seasons = select (season_candidate ids input.room_type_id) db.seasons in
    let standards = select (standard_candidate ids input.room_type_id) db.standards in
    record {
      rate_plan = plan;
      parent_chain = parents;
      arrival = some arrival;
      departure = some departure;
      occupancy = input.occupancy;
      base_occupancy = room_type.base_occupancy;
      room_type_id = input.room_type_id;
      currency = or_rub input.currency;
      rates = make_map_lookup rows;
      fallback = some (λ plan_id date.
          resolve seasons standards plan_id input.room_type_id date (some input.occupancy));
    }

abbrev or_failed : Result RangeError PricingBreakdown → Result QuoteRefusal PricingBreakdown
or_failed (ok b) = ok b
or_failed (err e) = err (calculation_failed e)

-- `quote`
unfoldable pub quote : QuoteInput → PriceTables → Result QuoteRefusal PricingBreakdown
quote input db = do
  arrival ← or_refuse input.arrival invalid_dates
  departure ← or_refuse input.departure invalid_dates
  refuse_if (ltb departure arrival) departure_before
  room_type ← or_refuse (find (λ t. t.id == input.room_type_id) db.room_types) room_type_not_found
  plan ← or_refuse (find_plan input.rate_plan_id db.rate_plans) rate_plan_not_found
  or_failed (calculate_pricing (quote_args input arrival departure room_type plan db))
