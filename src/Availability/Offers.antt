-- ===== src/Availability/Offers.antt =====
-- The prices of a stay by plans: `priceByPlan` of
-- backend/src/modules/inventory/availability.service.ts. `name_before` is the order of names in the
-- database.
use kars_hotel.Base.{
  ℕ, zero, suc, ◌+◌, Bool, true, false, Option, none, some, List, [], ◌∷◌, ◌==◌, ◌&&◌, ◌||◌, ltb,
  leb, if◌then◌else◌, select, find, length, sort_by,
}
use kars_hotel.Base.Text.{Text}
use kars_hotel.Pricing.Baseline.{SeasonWindow, StandardWindow, resolve, or_find, or_any}
use kars_hotel.Availability.Tables.{
  DailyRate, RatePlan, Tables, OfferQuery, OfferKey, RatePlanNight, RatePlanPrice, Cache,
}
use kars_hotel.Availability.Check.{between, lower, stay_dates}

-- The `where` of each query.
abbrev pub offer_rate_of : OfferQuery → DailyRate → Bool
offer_rate_of q r = r.room_type_id == q.room_type_id && between r.date q.check_in q.check_out

abbrev pub offer_season_of : OfferQuery → SeasonWindow → Bool
offer_season_of q s =
    s.room_type_id == q.room_type_id && (leb s.date_from q.check_out && leb q.check_in s.date_to)

abbrev pub offer_standard_of : OfferQuery → StandardWindow → Bool
offer_standard_of q s = s.room_type_id == q.room_type_id

-- `basePrice != null && Number(basePrice) > 0`
abbrev pub base_fallback : Option ℕ → Option ℕ
base_fallback none = none
base_fallback (some zero) = none
base_fallback (some (suc n)) = some (suc n)

abbrev pub price_of : Option DailyRate → Option ℕ
price_of none = none
price_of (some r) = some r.price

-- `list.reduce((m, x) => (x.price.lessThan(m) ? x.price : m), list[0].price)`
unfoldable pub least : List DailyRate → ℕ → ℕ
least [] m = m
least (r ∷ rs) m = least rs (if ltb r.price m then r.price else m)

abbrev pub least_of : List DailyRate → Option ℕ
least_of [] = none
least_of (r ∷ rs) = some (least (r ∷ rs) r.price)

-- `dailyFor`, on the rows of a plan and a day. No number of guests and 0 are the same.
unfoldable pub daily_for : List DailyRate → Option ℕ → Bool → Option ℕ
daily_for rows guests strict =
    if ltb 0 (or_any guests)
    then or_find
        (or_find (price_of (find (λ r. r.occupancy == or_any guests) rows))
          (price_of (find (λ r. r.occupancy == 0) rows)))
        (if strict then none else least_of rows)
    else least_of rows

abbrev pub is_partner_plan : RatePlan → Bool
is_partner_plan p = elim p.partner_id [ none ↦ false | some id ↦ true ]

abbrev pub day_rates : OfferQuery → Tables → RatePlan → ℕ → List DailyRate
day_rates q t p day =
    select (λ (r : DailyRate). r.rate_plan_id == p.id && r.date == day)
      (select (offer_rate_of q) t.rates)

-- The price of a night: of the day, of a season or the standard one, and for the hotel's own plans
-- the price of the category.
unfoldable pub night_price : OfferQuery → Tables → RatePlan → ℕ → Option ℕ
night_price q t p day = or_find (daily_for (day_rates q t p day) q.guests (is_partner_plan p)) (
    or_find
      (resolve (select (offer_season_of q) t.seasons) (select (offer_standard_of q) t.standards)
        p.id q.room_type_id day q.guests)
      (if is_partner_plan p then none else base_fallback q.base_price))

pub record Running : Type 0 where
  pub per_night : List RatePlanNight
  pub total : Option ℕ
  pub cheapest : Option ℕ

abbrev pub add_night : Option ℕ → Option ℕ → Option ℕ
add_night none total = none
add_night (some eff) none = none
add_night (some eff) (some total) = some (total + eff)

-- The loop over the nights; the nights are collected in their order.
unfoldable pub price_each : (ℕ → Option ℕ) → List ℕ → Option ℕ → Option ℕ → Running
price_each price [] total cheapest = record { per_night = []; total = total; cheapest = cheapest }
price_each price (day ∷ days) total cheapest =
    let rest = price_each price days (add_night (price day) total) (lower (price day) cheapest) in
    record rest { per_night = record { date = day; price = price day } ∷ rest.per_night }

abbrev pub offer_of : RatePlan → ℕ → Running → ℕ → RatePlanPrice
offer_of p nights run total = record {
  rate_plan_id = p.id;
  code = p.code;
  name = p.name;
  meal_plan = p.meal_plan;
  partner_id = p.partner_id;
  partner_account_id = p.partner_account_id;
  partner_customer_id = p.partner_customer_id;
  guest_kind = p.guest_kind;
  vat_rate = p.vat_rate;
  nights = nights;
  per_night = run.per_night;
  total = total;
  nightly_from = run.cheapest;
}

-- `if (total === null) continue; priced.push(...)`
abbrev pub push_offer : RatePlan → ℕ → Running → Option ℕ → List RatePlanPrice → List RatePlanPrice
push_offer p nights run none rest = rest
push_offer p nights run (some total) rest = offer_of p nights run total ∷ rest

unfoldable pub price_plans : OfferQuery → Tables → List ℕ → List RatePlan → List RatePlanPrice
price_plans q t dates [] = []
price_plans q t dates (p ∷ ps) =
    let run = price_each (night_price q t p) dates (some 0) none in
    push_offer p (length dates) run run.total (price_plans q t dates ps)

abbrev pub offer_key : OfferQuery → OfferKey
offer_key q = record {
  room_type_id = q.room_type_id;
  check_in = q.check_in;
  check_out = q.check_out;
  guests = or_any q.guests;
}

abbrev same_offer_key : OfferKey → OfferKey → Bool
same_offer_key a b =
    a.room_type_id == b.room_type_id
    && (a.check_in == b.check_in && (a.check_out == b.check_out && a.guests == b.guests))

unfoldable pub cached_offers :
    OfferKey → List (OfferKey × List RatePlanPrice) → Option (List RatePlanPrice)
cached_offers k [] = none
cached_offers k ((k', a) ∷ rest) =
    let older = cached_offers k rest in if same_offer_key k' k then some a else older

abbrev keep_offers :
    OfferKey → Option (List RatePlanPrice) → List RatePlanPrice → Cache → List RatePlanPrice × Cache
keep_offers k (some a) fresh c = (a, c)
keep_offers k none fresh c = (fresh, record c { offers = (k, fresh) ∷ c.offers })

module _ (each_day_of_interval : ℕ → ℕ → List ℕ) (name_before : Text → Text → Bool) where
  -- `orderBy: [{ sortOrder: 'asc' }, { name: 'asc' }]`
  abbrev pub plan_before : RatePlan → RatePlan → Bool
  plan_before a b =
      ltb a.sort_order b.sort_order || (a.sort_order == b.sort_order && name_before a.name b.name)

  abbrev pub active_plans : Tables → List RatePlan
  active_plans t = sort_by plan_before (select (λ (p : RatePlan). p.is_active) t.rate_plans)

  abbrev offers_for : OfferQuery → Tables → List ℕ → List RatePlanPrice
  offers_for q t [] = []
  offers_for q t (d ∷ ds) = price_plans q t (d ∷ ds) (active_plans t)

  unfoldable pub fresh_offers : OfferQuery → Tables → List RatePlanPrice
  fresh_offers q t = offers_for q t (stay_dates each_day_of_interval q.check_in q.check_out)

  -- `priceByPlan`
  unfoldable pub price_by_plan : OfferQuery → Tables → Cache → List RatePlanPrice × Cache
  price_by_plan q t c =
      keep_offers (offer_key q) (cached_offers (offer_key q) c.offers) (fresh_offers q t) c
