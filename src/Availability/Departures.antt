-- ===== src/Availability/Departures.antt =====
-- The ban on departures in the answers of `check`
-- (backend/src/modules/inventory/availability.service.ts, line 321).
use kars_hotel.Base.{
  ℕ, zero, suc, ◌+◌, ◌-◌, ◌≤◌, ◌<◌, ◌≡◌, refl, ap, subst, ◌∙◌, inl, inr, false, Option, none, some,
  List, [], ◌∷◌, map, arith, In, In-map,
}
use kars_hotel.Restrictions.{Restriction}
use kars_hotel.Inventory.{each_day}
use kars_hotel.Availability.Tables.{Tables, Query, Cache, DayAvailability}
use kars_hotel.Availability.Check.{
  day_restrictions, day_of, day_availability, empty_result, result_of, fresh_answer, cached_answer,
  check, rule_of,
}
use kars_hotel.Availability.Bookable.{EachDay, stay_dates-each_day}

In-each_day : (n from d : ℕ) → In d (each_day n from) → (from ≤ d) × (d < from + n)
unfolding each_day
In-each_day zero from d i = absurd i
In-each_day (suc n) from d (inl e) = ground arith
In-each_day (suc n) from d (inr i) = ground (arith, In-each_day n (from + 1) d i)

result_of-days :
    (q : Query) (t : Tables) (ds : List ℕ) → (result_of q t ds).days ≡ map (day_availability q t) ds
unfolding result_of empty_result
result_of-days q t [] = refl
result_of-days q t (d ∷ ds) = refl

day_of-ctd :
    (q : Query) (t : Tables) (day : ℕ) (o : Option Restriction)
    → o ≡ rule_of q t day
    → day < q.check_out
    → (day_availability q t day).restrictions.ctd ≡ false
unfolding day_availability day_of day_restrictions
day_of-ctd q t day none e l = rw (← e) refl
day_of-ctd q t day (some r) e l = rw (← e) (ground arith)

-- No day of an answer is closed to departure, whatever the rules of the day of departure say, if the
-- cache had no answer.
pub check-never_ctd :
    (f : ℕ → ℕ → List ℕ) (days : EachDay f) (q : Query) (t : Tables) (c : Cache)
    → q.check_in < q.check_out
    → cached_answer q c.answers ≡ none
    → (d : DayAvailability) → In d (check f q t c).0.days
    → d.restrictions.ctd ≡ false
unfolding check fresh_answer
check-never_ctd f days q t c ordered miss d i =
    let n = q.check_out - q.check_in in
    let dates = each_day n q.check_in in
    let same : (check f q t c).0.days ≡ map (day_availability q t) dates = rw miss (
      ap (λ ds. (result_of q t ds).days) (stay_dates-each_day f days q t ordered)
      ∙ result_of-days q t dates) in
    let (day, j, e) = In-map (day_availability q t) dates d (subst (In d) same i) in
    let (from, to) = In-each_day n q.check_in day j in
    ap (λ (x : DayAvailability). x.restrictions.ctd) e
    ∙ day_of-ctd q t day (rule_of q t day) refl (omega arith)
