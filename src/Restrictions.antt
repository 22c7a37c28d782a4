-- ===== src/Restrictions.antt =====
-- Limits on a stay by days: backend/src/modules/restrictions/restrictions.service.ts. A date is the
-- number of its day. The order in which the database gives the rows of the day of departure is a
-- parameter.
use kars_hotel.Base.{
  ℕ, zero, suc, ◌+◌, ◌-◌, Bool, true, false, not, Option, none, some, List, [], ◌∷◌, ◌++◌, map,
  ◌==◌, ◌&&◌, ◌||◌, ltb, leb, if◌then◌else◌, select, is_empty, contains, first,
}
use kars_hotel.Base.Result.{Result, ok, err, ◌>>=◌, ◌>>◌, refuse_if}
pub mod Rules
pub mod Choice
mod Tests

pub data ViolationCode : Type 0 where
  code_closed code_stop_sell code_cta code_ctd code_min_los code_max_los code_min_los_arrival
        code_max_los_arrival :
      ViolationCode
  code_min_advance code_max_advance : ViolationCode

pub record Violation : Type 0 where
  pub code : ViolationCode
  pub date : Option ℕ

pub record Restriction : Type 0 where
  pub room_type_id : ℕ
  pub rate_plan_id : Option ℕ
  pub date : ℕ
  pub closed : Bool
  pub stop_sell : Bool
  pub cta : Bool
  pub ctd : Bool
  pub min_los : Option ℕ
  pub max_los : Option ℕ
  pub min_los_arrival : Option ℕ
  pub max_los_arrival : Option ℕ
  pub min_advance : Option ℕ
  pub max_advance : Option ℕ

pub record CheckInput : Type 0 where
  pub rate_plan_id : Option ℕ
  pub room_type_id : ℕ
  pub arrival : ℕ
  pub departure : ℕ
  pub now : ℕ

pub record CheckResult : Type 0 where
  pub allowed : Bool
  pub nights : ℕ
  pub violations : List Violation

abbrev is_plan : Option ℕ → Option ℕ → Bool
is_plan asked none = true
is_plan none (some p) = false
is_plan (some q) (some p) = p == q

-- The `where` of the query, without the dates.
abbrev pub applies : CheckInput → Restriction → Bool
applies input r = r.room_type_id == input.room_type_id && is_plan input.rate_plan_id r.rate_plan_id

abbrev pub has_plan : Restriction → Bool
has_plan r = elim r.rate_plan_id [ none ↦ false | some p ↦ true ]

-- `byDate` at one date, after the rows read so far.
abbrev pub prefer : Option Restriction → Restriction → Option Restriction
prefer none r = some r
prefer (some e) r = if has_plan r && not (has_plan e) then some r else some e

unfoldable pub by_date : ℕ → List Restriction → Option Restriction → Option Restriction
by_date date [] best = best
by_date date (r ∷ rs) best = by_date date rs (if r.date == date then prefer best r else best)

abbrev pub violation_if : Bool → ViolationCode → Option ℕ → List Violation
violation_if false code date = []
violation_if true code date = record { code = code; date = date } ∷ []

-- `limit != null && n < limit`, `limit != null && n > limit`.
abbrev pub below : ℕ → Option ℕ → Bool
below n none = false
below n (some limit) = ltb n limit

abbrev pub above : ℕ → Option ℕ → Bool
above n none = false
above n (some limit) = ltb limit n

unfoldable pub night_violations : ℕ → ℕ → Option Restriction → List Violation
night_violations nights d none = []
night_violations nights d (some r) =
    violation_if r.closed code_closed (some d)
    ++ (violation_if r.stop_sell code_stop_sell (some d)
        ++ (violation_if (below nights r.min_los) code_min_los (some d)
            ++ violation_if (above nights r.max_los) code_max_los (some d)))

-- The nights from the day `d`, `n` of them.
unfoldable pub nights_violations : ℕ → ℕ → ℕ → List Restriction → List Violation
nights_violations zero nights d rows = []
nights_violations (suc n) nights d rows =
    night_violations nights d (by_date d rows none) ++ nights_violations n nights (d + 1) rows

-- `advanceDays < limit` and `advanceDays > limit` for the signed days from `now` to the arrival.
abbrev pub too_soon : ℕ → ℕ → Option ℕ → Bool
too_soon arrival now none = false
too_soon arrival now (some limit) = ltb arrival (now + limit)

abbrev pub too_early : ℕ → ℕ → Option ℕ → Bool
too_early arrival now none = false
too_early arrival now (some limit) = ltb (now + limit) arrival

unfoldable pub arrival_violations : ℕ → CheckInput → Option Restriction → List Violation
arrival_violations nights input none = []
arrival_violations nights input (some r) =
    violation_if r.cta code_cta (some input.arrival)
    ++ (violation_if (below nights r.min_los_arrival) code_min_los_arrival (some input.arrival)
        ++ (violation_if (above nights r.max_los_arrival) code_max_los_arrival (some input.arrival)
            ++ (violation_if (too_soon input.arrival input.now r.min_advance) code_min_advance none
                ++ violation_if (too_early input.arrival input.now r.max_advance) code_max_advance
                    none)))

unfoldable pub departure_violations : CheckInput → Option Restriction → List Violation
departure_violations input none = []
departure_violations input (some r) = violation_if r.ctd code_ctd (some input.departure)

abbrev pub in_stay : CheckInput → Restriction → Bool
in_stay input r = applies input r && (leb input.arrival r.date && ltb r.date input.departure)

module _ (ordered : List Restriction → List Restriction) where
  -- `findFirst({ where: { date: departure }, orderBy: { ratePlanId: 'desc' } })`
  unfoldable pub departure_row : CheckInput → List Restriction → Option Restriction
  departure_row input table =
      first (ordered (select (λ r. applies input r && r.date == input.departure) table))

  unfoldable pub violations_of : CheckInput → List Restriction → List Violation
  violations_of input table =
      let nights = input.departure - input.arrival in
      let rows = select (in_stay input) table in
      nights_violations nights nights input.arrival rows
      ++ (arrival_violations nights input (by_date input.arrival rows none)
          ++ departure_violations input (departure_row input table))

  -- `check`; `Unit` is the refusal of an unknown category.
  unfoldable pub check : CheckInput → List ℕ → List Restriction → Result (Unit {0}) CheckResult
  check input room_types table =
      if leb input.departure input.arrival
      then ok (record { allowed = true; nights = 0; violations = [] })
      else (refuse_if (not (contains input.room_type_id room_types)) tt
          >> ok (record {
            allowed = is_empty (violations_of input table);
            nights = input.departure - input.arrival;
            violations = violations_of input table;
          }))
