-- ===== src/Availability/Tables.antt =====
-- The rows that backend/src/modules/inventory/availability.service.ts reads, and its answers
-- (lines 11 to 62). A date is the number of its day, a price a number of kopecks.
use kars_hotel.Base.{ℕ, Bool, Option, List}
use kars_hotel.Base.Text.{Text}
use kars_hotel.Hotel.{Room, GuestKind}
use kars_hotel.Inventory.{InventoryRow}
use kars_hotel.Restrictions.{Restriction}
use kars_hotel.Pricing.Baseline.{SeasonWindow, StandardWindow}

pub record DailyRate : Type 0 where
  pub rate_plan_id : ℕ
  pub room_type_id : ℕ
  pub date : ℕ
  pub occupancy : ℕ
  pub price : ℕ

pub data MealPlan : Type 0 where
  no_meals bb hb fb ai : MealPlan

pub record RatePlan : Type 0 where
  pub id : ℕ
  pub code : Text
  pub name : Text
  pub meal_plan : MealPlan
  pub partner_id : Option ℕ
  pub partner_account_id : Option ℕ
  pub partner_customer_id : Option ℕ
  pub guest_kind : Option GuestKind
  pub vat_rate : Option ℕ
  pub sort_order : ℕ
  pub is_active : Bool

pub record RoomType : Type 0 where
  pub id : ℕ
  pub sort_order : ℕ
  pub is_active : Bool

pub record Tables : Type 0 where
  pub rooms : List Room
  pub room_types : List RoomType
  pub inventory : List InventoryRow
  pub restrictions : List Restriction
  pub rates : List DailyRate
  pub seasons : List SeasonWindow
  pub standards : List StandardWindow
  pub rate_plans : List RatePlan

-- The arguments of `check`.
pub record Query : Type 0 where
  pub room_type_id : ℕ
  pub check_in : ℕ
  pub check_out : ℕ
  pub rate_plan_id : Option ℕ

pub record DayRestrictions : Type 0 where
  pub closed : Bool
  pub cta : Bool
  pub ctd : Bool
  pub min_los : Option ℕ
  pub max_los : Option ℕ

pub record DayAvailability : Type 0 where
  pub date : ℕ
  pub available : ℕ
  pub total_rooms : ℕ
  pub booked_rooms : ℕ
  pub blocked_rooms : ℕ
  pub stop_sell : Bool
  pub min_price : Option ℕ
  pub restrictions : DayRestrictions

pub record AvailabilityResult : Type 0 where
  pub room_type_id : ℕ
  pub check_in : ℕ
  pub check_out : ℕ
  pub nights : ℕ
  pub bookable : Bool
  pub days : List DayAvailability

pub record RatePlanNight : Type 0 where
  pub date : ℕ
  pub price : Option ℕ

pub record RatePlanPrice : Type 0 where
  pub rate_plan_id : ℕ
  pub code : Text
  pub name : Text
  pub meal_plan : MealPlan
  pub partner_id : Option ℕ
  pub partner_account_id : Option ℕ
  pub partner_customer_id : Option ℕ
  pub guest_kind : Option GuestKind
  pub vat_rate : Option ℕ
  pub nights : ℕ
  pub per_night : List RatePlanNight
  pub total : ℕ
  pub nightly_from : Option ℕ

-- The arguments of `priceByPlan`.
pub record OfferQuery : Type 0 where
  pub room_type_id : ℕ
  pub check_in : ℕ
  pub check_out : ℕ
  pub base_price : Option ℕ
  pub guests : Option ℕ

-- The answers that the cache has, by the arguments that its keys are made of.
pub record OfferKey : Type 0 where
  pub room_type_id : ℕ
  pub check_in : ℕ
  pub check_out : ℕ
  pub guests : ℕ

pub record Cache : Type 0 where
  pub answers : List (Query × AvailabilityResult)
  pub offers : List (OfferKey × List RatePlanPrice)
