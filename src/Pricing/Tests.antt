-- ===== src/Pricing/Tests.antt =====
-- The theorems on prices at concrete tariffs (backend/src/modules/pricing).
use kars_hotel.Base.{
  ℕ, ◌+◌, ◌≡◌, ◌⊎◌, refl, true, false, not, none, some, [], ◌∷◌, In, is_empty, length, arith, ◌==◌,
  sort_by, insert_by, if◌then◌else◌,
}
use kars_hotel.Base.Int.{pos, negsuc, ◌+ℤ◌}
use kars_hotel.Base.Result.{ok}
use kars_hotel.Pricing.{
  PricingBreakdown, RatePlanLike, RateQuery, CalculateArgs, absolute, percent, apply_modifier,
  plan_price, price_night, day_of,
}
use kars_hotel.Pricing.Baseline.{
  SeasonWindow, StandardWindow, resolve, season_occ, standard_occ, is_standard_of, seasons_of,
  season_hit, pick_by_occupancy,
}
use kars_hotel.Pricing.Quote.{RoomTypeRow, PriceTables, QuoteInput, quote, RateRow}
use kars_hotel.Pricing.Answers.{quote_answers}
use kars_hotel.Pricing.Nights.{through, price_night-nearest}
use kars_hotel.Pricing.Seasons.{IsChosenSeason, resolve-chosen}

-- "Last minute", a fifth cheaper than its parent, the standard plan; the parents form a loop.
abbrev last_minute : RatePlanLike
last_minute = record {
  id = 2;
  parent_rate_plan_id = some 1;
  price_modifier_type = percent;
  price_modifier_value = negsuc 1999;
  occupancy_pricing = false;
}

abbrev standard : RatePlanLike
standard = record {
  id = 1;
  parent_rate_plan_id = some 2;
  price_modifier_type = absolute;
  price_modifier_value = pos 0;
  occupancy_pricing = true;
}

abbrev two_nights : CalculateArgs
two_nights = record {
  rate_plan = last_minute;
  parent_chain = standard ∷ [];
  arrival = some 864000000;
  departure = some 1036800000;
  occupancy = 2;
  base_occupancy = 2;
  room_type_id = 7;
  currency = [];
  rates = λ q. none;
  fallback = some (λ plan day. if plan == 1 then some 440055 else none);
}

price_night-nearest_example : price_night two_nights (last_minute ∷ standard ∷ []) 10 ≡ record {
  date = 10;
  price = through (last_minute ∷ []) 440055;
  has_rate = true;
  occupancy_fallback = false;
  inherited_from_parent = not (is_empty (last_minute ∷ []));
  source_rate_plan_id = some 1;
}
unfolding plan_price
price_night-nearest_example =
    price_night-nearest two_nights 10 (last_minute ∷ []) [] standard 440055 false (refl, tt) refl

-- 4400.55 less a fifth is 3520.44.
last_minute_test : through (last_minute ∷ []) 440055 ≡ 352044
unfolding through apply_modifier ◌+ℤ◌
last_minute_test = refl

abbrev asked : RateQuery
asked = record { rate_plan_id = 1; room_type_id = 7; date = 10; occupancy = 2 }

abbrev row_of : ℕ → RateRow
row_of price = record { key = asked; price = price }

abbrev summer : SeasonWindow
summer = record {
  rate_plan_id = 1;
  room_type_id = 7;
  date_from = 0;
  date_to = 90;
  price = 500000;
  sort_order = 0;
  occupancy = none;
}

abbrev july : SeasonWindow
july = record summer { date_from = 30; date_to = 60; price = 700000; occupancy = some 2 }

abbrev always : StandardWindow
always = record { rate_plan_id = 1; room_type_id = 7; price = 440000; occupancy = none }

resolve-chosen_example :
    ((t : SeasonWindow) × IsChosenSeason (summer ∷ july ∷ []) 1 7 40 t
      × ((season_occ t ≡ 2) ⊎ (season_occ t ≡ 0))
      × (t.price ≡ 700000))
    ⊎ ((s : StandardWindow) × In s (always ∷ [])
        × (is_standard_of 1 7 s ≡ true)
        × ((standard_occ s ≡ 2) ⊎ (standard_occ s ≡ 0))
        × (s.price ≡ 700000))
unfolding resolve seasons_of season_hit pick_by_occupancy sort_by insert_by
resolve-chosen_example = resolve-chosen (summer ∷ july ∷ []) (always ∷ []) 1 7 40 1 700000 refl

abbrev double : RoomTypeRow
double = record { id = 7; base_occupancy = 2 }

abbrev tables : PriceTables
tables = record {
  room_types = double ∷ [];
  rate_plans = last_minute ∷ standard ∷ [];
  rates = row_of 440055 ∷ [];
  seasons = summer ∷ july ∷ [];
  standards = always ∷ [];
}

abbrev question : QuoteInput
question = record {
  rate_plan_id = 2;
  room_type_id = 7;
  arrival = some 864000000;
  departure = some 1036800000;
  occupancy = 2;
  currency = none;
}

quote_answers_example :
    (b : PricingBreakdown) × (quote question tables ≡ ok b)
    × (b.rate_plan_id ≡ 2)
    × (b.room_type_id ≡ 7)
    × (length b.nightly + day_of 864000000 ≡ day_of 1036800000)
quote_answers_example =
    quote_answers question tables 864000000 1036800000 double last_minute refl refl (omega arith)
      refl refl
