-- ===== src/Pricing/Baseline.antt =====
-- Season and standard prices: backend/src/modules/pricing/rate-resolution.ts. A date is the number of
-- its day.
use kars_hotel.Base.{
  ℕ, Bool, Option, none, some, List, [], ◌∷◌, ◌==◌, ◌&&◌, ◌||◌, ltb, leb, if◌then◌else◌, select,
  find, sort_by, first,
}

pub record SeasonWindow : Type 0 where
  pub rate_plan_id : ℕ
  pub room_type_id : ℕ
  pub date_from : ℕ
  pub date_to : ℕ
  pub price : ℕ
  pub sort_order : ℕ
  pub occupancy : Option ℕ

pub record StandardWindow : Type 0 where
  pub rate_plan_id : ℕ
  pub room_type_id : ℕ
  pub price : ℕ
  pub occupancy : Option ℕ

abbrev pub or_any : Option ℕ → ℕ
or_any none = 0
or_any (some n) = n

abbrev pub or_find {ℓ} : {A : Type ℓ} → Option A → Option A → Option A
or_find (some a) other = some a
or_find none other = other

-- `pickByOccupancy`, on rows whose number of guests is `occ`.
unfoldable pub pick_by_occupancy : {A : Type 0} → (A → ℕ) → List A → Option ℕ → Option A
pick_by_occupancy occ rows occupancy =
    if ltb 0 (or_any occupancy)
    then or_find (find (λ r. occ r == or_any occupancy) rows) (find (λ r. occ r == 0) rows)
    else or_find (find (λ r. occ r == 0) rows) (first (sort_by (λ a b. ltb (occ a) (occ b)) rows))

-- The later start first, then the higher sort order.
abbrev pub more_specific : SeasonWindow → SeasonWindow → Bool
more_specific a b =
    ltb b.date_from a.date_from || (a.date_from == b.date_from && ltb b.sort_order a.sort_order)

abbrev pub is_season_of : ℕ → ℕ → SeasonWindow → Bool
is_season_of plan room_type s = s.rate_plan_id == plan && s.room_type_id == room_type

abbrev pub is_standard_of : ℕ → ℕ → StandardWindow → Bool
is_standard_of plan room_type s = s.rate_plan_id == plan && s.room_type_id == room_type

abbrev pub covers : ℕ → SeasonWindow → Bool
covers day s = leb s.date_from day && leb day s.date_to

abbrev pub season_occ : SeasonWindow → ℕ
season_occ s = or_any s.occupancy

abbrev pub standard_occ : StandardWindow → ℕ
standard_occ s = or_any s.occupancy

abbrev pub same_window : SeasonWindow → SeasonWindow → Bool
same_window top s =
    s.date_from == top.date_from && (s.date_to == top.date_to && s.sort_order == top.sort_order)

-- The constructor's lists: by plan and category, the seasons sorted.
unfoldable pub seasons_of : ℕ → ℕ → List SeasonWindow → List SeasonWindow
seasons_of plan room_type seasons =
    sort_by more_specific (select (is_season_of plan room_type) seasons)

unfoldable pub season_hit : List SeasonWindow → Option ℕ → Option SeasonWindow
season_hit [] occupancy = none
season_hit (top ∷ covering) occupancy =
    pick_by_occupancy season_occ (select (same_window top) (top ∷ covering)) occupancy

abbrev pub price_of_season : Option SeasonWindow → Option ℕ
price_of_season none = none
price_of_season (some s) = some s.price

abbrev pub price_of_standard : Option StandardWindow → Option ℕ
price_of_standard none = none
price_of_standard (some s) = some s.price

-- `resolve`: the season, then the standard price.
unfoldable pub resolve : List SeasonWindow → List StandardWindow → ℕ → ℕ → ℕ → Option ℕ → Option ℕ
resolve seasons standards plan room_type day occupancy =
    or_find
      (price_of_season
        (season_hit (select (covers day) (seasons_of plan room_type seasons)) occupancy))
      (price_of_standard (
        pick_by_occupancy standard_occ (select (is_standard_of plan room_type) standards)
          occupancy))
