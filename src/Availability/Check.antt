-- ===== src/Availability/Check.antt =====
-- `check` and `checkAll` of backend/src/modules/inventory/availability.service.ts. Rows stand in the
-- order in which the database gives them; `each_day_of_interval` is the function of date-fns.
use kars_hotel.Base.{
  ℕ, zero, suc, Bool, true, false, not, Option, none, some, List, [], ◌∷◌, map, max, ◌==◌, ◌&&◌,
  ltb, leb, if◌then◌else◌, select, every, insert, length, sort_by,
}
use kars_hotel.Inventory.{InventoryRow, compute_available, room_count, fresh_row, or_keep}
use kars_hotel.Restrictions.{Restriction}
use kars_hotel.Pricing.Baseline.{SeasonWindow, StandardWindow, resolve, or_find, or_any}
use kars_hotel.Availability.Tables.{
  DailyRate, RoomType, Tables, Query, DayRestrictions, DayAvailability, AvailabilityResult, Cache,
}

-- `slice(0, -1)`
unfoldable pub drop_last {ℓ} : {A : Type ℓ} → List A → List A
drop_last [] = []
drop_last (x ∷ []) = []
drop_last (x ∷ y ∷ ys) = x ∷ drop_last (y ∷ ys)

-- `new Map(rows.map((r) => [key(r), r])).get(key)`: the last row of the key.
unfoldable pub last_match {ℓ} : {A : Type ℓ} → (A → Bool) → List A → Option A → Option A
last_match p [] best = best
last_match p (x ∷ xs) best = last_match p xs (if p x then some x else best)

-- `x BETWEEN from AND to`
abbrev pub between : ℕ → ℕ → ℕ → Bool
between x from to = leb from x && leb x to

abbrev pub is_asked : Option ℕ → ℕ → Bool
is_asked none plan = true
is_asked (some p) plan = plan == p

-- `rate_plan_id IS NULL OR rate_plan_id = asked`
abbrev pub rule_applies : Option ℕ → Option ℕ → Bool
rule_applies asked none = true
rule_applies none (some p) = false
rule_applies (some q) (some p) = p == q

-- The `where` of each query.
abbrev pub inventory_row_of : Query → InventoryRow → Bool
inventory_row_of q r = r.room_type_id == q.room_type_id && between r.date q.check_in q.check_out

abbrev pub restriction_of : Query → Restriction → Bool
restriction_of q r =
    r.room_type_id == q.room_type_id
    && (between r.date q.check_in q.check_out && rule_applies q.rate_plan_id r.rate_plan_id)

abbrev pub rate_of : Query → DailyRate → Bool
rate_of q r =
    r.room_type_id == q.room_type_id
    && (between r.date q.check_in q.check_out && is_asked q.rate_plan_id r.rate_plan_id)

abbrev pub season_of : Query → SeasonWindow → Bool
season_of q s =
    s.room_type_id == q.room_type_id
    && (is_asked q.rate_plan_id s.rate_plan_id
        && (leb s.date_from q.check_out && leb q.check_in s.date_to))

abbrev pub standard_of : Query → StandardWindow → Bool
standard_of q s = s.room_type_id == q.room_type_id && is_asked q.rate_plan_id s.rate_plan_id

-- `min === null || eff.lessThan(min)`
abbrev pub lower : Option ℕ → Option ℕ → Option ℕ
lower none min = min
lower (some eff) none = some eff
lower (some eff) (some min) = if ltb eff min then some eff else some min

-- `MIN(price) ... GROUP BY rate_plan_id, date`
unfoldable pub daily_min : ℕ → ℕ → List DailyRate → Option ℕ
daily_min plan day [] = none
daily_min plan day (r ∷ rs) =
    let rest = daily_min plan day rs in
    if r.rate_plan_id == plan && r.date == day then lower (some r.price) rest else rest

unfoldable pub add_ids {ℓ} : {A : Type ℓ} → (A → ℕ) → List A → List ℕ → List ℕ
add_ids id [] ids = ids
add_ids id (x ∷ xs) ids = add_ids id xs (insert (id x) ids)

-- The plans that have a price of some kind for the category.
unfoldable pub plan_ids : Query → Tables → List ℕ
plan_ids q t =
    add_ids (λ (s : StandardWindow). s.rate_plan_id) (select (standard_of q) t.standards)
      (add_ids (λ (s : SeasonWindow). s.rate_plan_id) (select (season_of q) t.seasons)
        (add_ids (λ (r : DailyRate). r.rate_plan_id) (select (rate_of q) t.rates) []))

-- The price of a plan for a day: of the day itself, of a season, the standard one.
unfoldable pub effective_price : Query → Tables → ℕ → ℕ → Option ℕ
effective_price q t day plan = or_find (daily_min plan day (select (rate_of q) t.rates)) (
    resolve (select (season_of q) t.seasons) (select (standard_of q) t.standards) plan
      q.room_type_id day none)

unfoldable pub lowest : (ℕ → Option ℕ) → List ℕ → Option ℕ → Option ℕ
lowest price [] min = min
lowest price (plan ∷ plans) min = lowest price plans (lower (price plan) min)

unfoldable pub min_price : Query → Tables → ℕ → Option ℕ
min_price q t day = lowest (effective_price q t day) (plan_ids q t) none

-- `n || null`
abbrev pub or_null : ℕ → Option ℕ
or_null zero = none
or_null (suc n) = some (suc n)

-- The limits of a day; `arrives` says that it is the day of arrival, `leaves` that of departure.
unfoldable pub day_restrictions : Bool → Bool → Option Restriction → DayRestrictions
day_restrictions arrives leaves none = record {
  closed = false;
  cta = false;
  ctd = false;
  min_los = none;
  max_los = none;
}
day_restrictions arrives leaves (some r) = record {
  closed = r.closed;
  cta = if arrives then r.cta else false;
  ctd = if leaves then r.ctd else false;
  min_los = or_null (max (or_any r.min_los) (if arrives then or_any r.min_los_arrival else 0));
  max_los = or_find r.max_los r.max_los_arrival;
}

-- A day of the answer, from its row of the inventory (a day with none counts the rooms), its row
-- of restrictions and its price.
unfoldable pub day_of :
    Query → ℕ → ℕ → Option InventoryRow → Option Restriction → Option ℕ → DayAvailability
day_of q count day inv res price =
    let row = or_keep inv (fresh_row q.room_type_id count day) in
    record {
      date = day;
      available = compute_available row;
      total_rooms = row.total_rooms;
      booked_rooms = row.booked_rooms;
      blocked_rooms = row.blocked_rooms;
      stop_sell = row.stop_sell;
      min_price = price;
      restrictions = day_restrictions (day == q.check_in) (day == q.check_out) res;
    }

unfoldable pub inventory_of : Query → Tables → ℕ → Option InventoryRow
inventory_of q t day =
    last_match (λ r. r.date == day) (select (inventory_row_of q) t.inventory) none

unfoldable pub rule_of : Query → Tables → ℕ → Option Restriction
rule_of q t day = last_match (λ r. r.date == day) (select (restriction_of q) t.restrictions) none

unfoldable pub day_availability : Query → Tables → ℕ → DayAvailability
day_availability q t day =
    day_of q (room_count q.room_type_id t.rooms) day (inventory_of q t day) (rule_of q t day)
      (min_price q t day)

-- `limit === null || limit <= n`, `limit === null || n <= limit`.
abbrev pub reaches : ℕ → Option ℕ → Bool
reaches n none = true
reaches n (some limit) = leb limit n

abbrev pub within : ℕ → Option ℕ → Bool
within n none = true
within n (some limit) = leb n limit

unfoldable pub sells_day : ℕ → ℕ → DayAvailability → Bool
sells_day nights check_in d =
    leb 1 d.available
    && (not d.stop_sell
        && (not d.restrictions.closed
            && (not (d.restrictions.cta && d.date == check_in)
                && (reaches nights d.restrictions.min_los
                    && within nights d.restrictions.max_los))))

-- `emptyResult`
unfoldable pub empty_result : Query → AvailabilityResult
empty_result q = record {
  room_type_id = q.room_type_id;
  check_in = q.check_in;
  check_out = q.check_out;
  nights = 0;
  bookable = false;
  days = [];
}

unfoldable pub result_of : Query → Tables → List ℕ → AvailabilityResult
result_of q t [] = empty_result q
result_of q t (d ∷ ds) =
    let days = map (day_availability q t) (d ∷ ds) in
    record {
      room_type_id = q.room_type_id;
      check_in = q.check_in;
      check_out = q.check_out;
      nights = length (d ∷ ds);
      bookable = every (sells_day (length (d ∷ ds)) q.check_in) days;
      days = days;
    }

abbrev same_plan : Option ℕ → Option ℕ → Bool
same_plan none none = true
same_plan none (some q) = false
same_plan (some p) none = false
same_plan (some p) (some q) = p == q

abbrev same_query : Query → Query → Bool
same_query a b =
    a.room_type_id == b.room_type_id
    && (a.check_in == b.check_in
        && (a.check_out == b.check_out && same_plan a.rate_plan_id b.rate_plan_id))

-- `redis.raw.get(cacheKey)`
unfoldable pub cached_answer : Query → List (Query × AvailabilityResult) → Option AvailabilityResult
cached_answer q [] = none
cached_answer q ((k, a) ∷ rest) =
    let older = cached_answer q rest in if same_query k q then some a else older

abbrev keep_answer :
    Query → Option AvailabilityResult → AvailabilityResult → Cache → AvailabilityResult × Cache
keep_answer q (some a) fresh c = (a, c)
keep_answer q none fresh c = (fresh, record c { answers = (q, fresh) ∷ c.answers })

module _ (each_day_of_interval : ℕ → ℕ → List ℕ) where
  abbrev pub stay_dates : ℕ → ℕ → List ℕ
  stay_dates check_in check_out = drop_last (each_day_of_interval check_in check_out)

  -- What `check` computes, with nothing in the cache.
  unfoldable pub fresh_answer : Query → Tables → AvailabilityResult
  fresh_answer q t = result_of q t (stay_dates q.check_in q.check_out)

  -- `check`
  unfoldable pub check : Query → Tables → Cache → AvailabilityResult × Cache
  check q t c = keep_answer q (cached_answer q c.answers) (fresh_answer q t) c

  abbrev query_for : ℕ → ℕ → Option ℕ → RoomType → Query
  query_for check_in check_out plan rt = record {
    room_type_id = rt.id;
    check_in = check_in;
    check_out = check_out;
    rate_plan_id = plan;
  }

  unfoldable pub check_each : List Query → Tables → Cache → List AvailabilityResult × Cache
  check_each [] t c = ([], c)
  check_each (q ∷ qs) t c =
      let (a, c1) = check q t c in let (rest, c2) = check_each qs t c1 in (a ∷ rest, c2)

  -- `checkAll`, the categories one after another.
  unfoldable pub check_all : ℕ → ℕ → Option ℕ → Tables → Cache → List AvailabilityResult × Cache
  check_all check_in check_out plan t c =
      check_each
        (map (query_for check_in check_out plan) (
          sort_by (λ (a b : RoomType). ltb a.sort_order b.sort_order)
            (select (λ (rt : RoomType). rt.is_active) t.room_types)))
        t c
