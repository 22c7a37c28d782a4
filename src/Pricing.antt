-- ===== src/Pricing.antt =====
-- The price of a stay: backend/src/modules/pricing/pricing.types.ts and pricing.calculator.ts. Money
-- is a number of kopecks, exact; a modifier is in hundredths (of a rouble, or of a percent); a moment
-- is a number of milliseconds since 1970, or `none` for JavaScript's Invalid Date; a night is the
-- number of its day.
use kars_hotel.Base.{
  ℕ, zero, suc, ◌+◌, ◌-◌, ◌*◌, ◌/◌, Bool, true, false, not, Option, none, some, List, [], ◌∷◌, ◌++◌,
  ◌==◌, ◌&&◌, ltb, if◌then◌else◌, length,
}
use kars_hotel.Base.Int.{ℤ, pos, negsuc, ◌+ℤ◌}
use kars_hotel.Base.Text.{Text}
use kars_hotel.Base.Result.{Result, ok, err, ◌>>=◌, ◌>>◌, or_refuse, refuse_if}
pub mod Baseline
pub mod Quote
pub mod Nights
pub mod Stays
pub mod Answers
pub mod Seasons
mod Tests

pub data PriceModifierType : Type 0 where
  absolute percent : PriceModifierType

pub record RatePlanLike : Type 0 where
  pub id : ℕ
  pub parent_rate_plan_id : Option ℕ
  pub price_modifier_type : PriceModifierType
  pub price_modifier_value : ℤ
  pub occupancy_pricing : Bool

pub record RateQuery : Type 0 where
  pub rate_plan_id : ℕ
  pub room_type_id : ℕ
  pub date : ℕ
  pub occupancy : ℕ

abbrev pub RateLookup : Type 0
RateLookup = RateQuery → Option ℕ

pub record PricingNight : Type 0 where
  pub date : ℕ
  pub price : ℕ
  pub has_rate : Bool
  pub occupancy_fallback : Bool
  pub inherited_from_parent : Bool
  pub source_rate_plan_id : Option ℕ

pub record PricingBreakdown : Type 0 where
  pub rate_plan_id : ℕ
  pub room_type_id : ℕ
  pub arrival : ℕ
  pub departure : ℕ
  pub occupancy : ℕ
  pub base_occupancy : ℕ
  pub nights : ℕ
  pub currency : Text
  pub subtotal : ℕ
  pub total_price : ℕ
  pub nightly : List PricingNight
  pub warnings : List ℕ  -- the nights with no rate

pub record CalculateArgs : Type 0 where
  pub rate_plan : RatePlanLike
  pub parent_chain : List RatePlanLike
  pub arrival : Option ℕ
  pub departure : Option ℕ
  pub occupancy : ℕ
  pub base_occupancy : ℕ
  pub room_type_id : ℕ
  pub currency : Text
  pub rates : RateLookup
  pub fallback : Option (ℕ → ℕ → Option ℕ)

pub data RangeError : Type 0 where
  invalid_arrival invalid_departure departure_before_arrival : RangeError

-- `startOfDayUTC`, as the number of the day.
abbrev pub day_of : ℕ → ℕ
day_of ms = ms / 86400000

-- What stays of a sum that may be below zero.
abbrev pub clamp : ℤ → ℕ
clamp (pos n) = n
clamp (negsuc n) = 0

abbrev pub is_zero : ℤ → Bool
is_zero (pos zero) = true
is_zero _ = false

-- `base * (1 + v / 100)` rounded half up to kopecks, or `base + v`; never below 0.
abbrev pub modified : PriceModifierType → ℤ → ℕ → ℕ
modified percent v base = (base * clamp (pos 10000 +ℤ v) + 5000) / 10000
modified absolute v base = clamp (pos base +ℤ v)

unfoldable pub apply_modifier : ℕ → RatePlanLike → ℕ
apply_modifier base plan =
    if is_zero plan.price_modifier_value
    then base
    else modified plan.price_modifier_type plan.price_modifier_value base

-- What one plan says of a night: the price, and whether it is that of the base occupancy.
abbrev pub baseline : Option (ℕ → ℕ → Option ℕ) → ℕ → ℕ → Option ℕ
baseline none plan_id date = none
baseline (some fallback) plan_id date = fallback plan_id date

abbrev pub with_flag : Bool → Option ℕ → Option (ℕ × Bool)
with_flag b none = none
with_flag b (some p) = some (p, b)

abbrev pub or_try {ℓ} : {A : Type ℓ} → Option A → Option A → Option A
or_try (some a) other = some a
or_try none other = other

unfoldable pub plan_price : CalculateArgs → ℕ → RatePlanLike → Option (ℕ × Bool)
plan_price args date plan =
    let asked : RateQuery = record {
      rate_plan_id = plan.id;
      room_type_id = args.room_type_id;
      date = date;
      occupancy = if plan.occupancy_pricing then args.occupancy else args.base_occupancy;
    } in
    let exact = with_flag false (args.rates asked) in
    let based =
      if plan.occupancy_pricing && not (args.occupancy == args.base_occupancy)
      then with_flag true (args.rates (record asked { occupancy = args.base_occupancy }))
      else none in
    or_try exact (or_try based (with_flag false (baseline args.fallback plan.id date)))

abbrev pub found_or :
    ℕ
    → RatePlanLike
    → Option (ℕ × Bool)
    → Option (ℕ × RatePlanLike × ℕ × Bool)
    → Option (ℕ × RatePlanLike × ℕ × Bool)
found_or i plan none rest = rest
found_or i plan (some (p, b)) rest = some (i, plan, p, b)

-- The first plan of the chain that has a price: its index, the price, the flag.
unfoldable pub first_price :
    CalculateArgs → ℕ → ℕ → List RatePlanLike → Option (ℕ × RatePlanLike × ℕ × Bool)
first_price args date i [] = none
first_price args date i (plan ∷ chain) =
    found_or i plan (plan_price args date plan) (first_price args date (i + 1) chain)

abbrev pub modify_at : ℕ → List RatePlanLike → ℕ → ℕ
modify_at i [] price = price
modify_at zero (plan ∷ chain) price = apply_modifier price plan
modify_at (suc i) (plan ∷ chain) price = modify_at i chain price

-- `for (let i = foundIndex - 1; i >= 0; i--) price = applyModifier(price, chain[i])`
unfoldable pub walk_down : ℕ → List RatePlanLike → ℕ → ℕ
walk_down zero chain price = price
walk_down (suc i) chain price = walk_down i chain (modify_at i chain price)

abbrev pub night_of : List RatePlanLike → ℕ → Option (ℕ × RatePlanLike × ℕ × Bool) → PricingNight
night_of chain date none = record {
  date = date;
  price = 0;
  has_rate = false;
  occupancy_fallback = false;
  inherited_from_parent = false;
  source_rate_plan_id = none;
}
night_of chain date (some (i, plan, base, flag)) = record {
  date = date;
  price = walk_down i chain base;
  has_rate = true;
  occupancy_fallback = flag;
  inherited_from_parent = ltb 0 i;
  source_rate_plan_id = some plan.id;
}

unfoldable pub price_night : CalculateArgs → List RatePlanLike → ℕ → PricingNight
price_night args chain date = night_of chain date (first_price args date 0 chain)

-- The loop over the nights, from the day `start + i`.
unfoldable pub price_nights : ℕ → CalculateArgs → List RatePlanLike → ℕ → List PricingNight
price_nights zero args chain date = []
price_nights (suc n) args chain date =
    price_night args chain date ∷ price_nights n args chain (date + 1)

unfoldable pub unpriced : List PricingNight → List ℕ
unpriced [] = []
unpriced (night ∷ nights) =
    let rest = unpriced nights in if night.has_rate then rest else night.date ∷ rest

unfoldable pub total_of : List PricingNight → ℕ
total_of [] = 0
total_of (night ∷ nights) = night.price + total_of nights

unfoldable pub breakdown_of : CalculateArgs → ℕ → ℕ → PricingBreakdown
breakdown_of args start end =
    let nightly = price_nights (end - start) args (args.rate_plan ∷ args.parent_chain) start in
    record {
      rate_plan_id = args.rate_plan.id;
      room_type_id = args.room_type_id;
      arrival = start;
      departure = end;
      occupancy = args.occupancy;
      base_occupancy = args.base_occupancy;
      nights = end - start;
      currency = args.currency;
      subtotal = total_of nightly;
      total_price = total_of nightly;
      nightly = nightly;
      warnings = unpriced nightly;
    }

-- `calculatePricing`
unfoldable pub calculate_pricing : CalculateArgs → Result RangeError PricingBreakdown
calculate_pricing args = do
  arrival ← or_refuse args.arrival invalid_arrival
  departure ← or_refuse args.departure invalid_departure
  refuse_if (ltb departure arrival) departure_before_arrival
  ok (breakdown_of args (day_of arrival) (day_of departure))
