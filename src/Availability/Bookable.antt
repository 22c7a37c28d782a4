-- ===== src/Availability/Bookable.antt =====
-- When a stay can be booked (backend/src/modules/inventory/availability.service.ts, `check`).
use kars_hotel.Base.{
  ℕ, zero, suc, ◌+◌, ◌-◌, ◌≤◌, ◌<◌, ◌≡◌, refl, sym, ap, subst, ◌∙◌, ◌↔◌, Bool, true, false, Option,
  none, some, List, ◌∷◌, map, arith, every, length,
}
use kars_hotel.Inventory.{InventoryRow, compute_available, room_count, each_day}
use kars_hotel.Restrictions.{Restriction}
use kars_hotel.Pricing.Baseline.{or_any, or_find}
use kars_hotel.Availability.Tables.{Tables, Query, DayAvailability, Cache}
use kars_hotel.Availability.Check.{
  drop_last, within, day_restrictions, day_of, inventory_of, rule_of, day_availability, sells_day,
  result_of, fresh_answer, stay_dates, cached_answer, check,
}

-- What date-fns documents of `eachDayOfInterval`, for an interval in order.
abbrev pub EachDay : (ℕ → ℕ → List ℕ) → Type 0
EachDay f = (from to : ℕ) → from ≤ to → f from to ≡ each_day (suc (to - from)) from

-- The rooms of a category on a day, and those that are taken, from its row of the inventory.
abbrev pub all_rooms : ℕ → Option InventoryRow → ℕ
all_rooms count none = count
all_rooms count (some i) = i.total_rooms

abbrev pub taken_rooms : Option InventoryRow → ℕ
taken_rooms none = 0
taken_rooms (some i) = i.booked_rooms + i.blocked_rooms

-- A night of a stay can be sold: a room is left, sales are not stopped, and the rules of the day let
-- the stay in. A limit of 0 is none; the longest stay by day of arrival counts on every night, and
-- only if the day has no other one.
pub record Sells (nights check_in count day : ℕ) (inv : Option InventoryRow)
    (res : Option Restriction) : Type 0 where
  pub room_left : taken_rooms inv < all_rooms count inv
  pub on_sale : (i : InventoryRow) → inv ≡ some i → i.stop_sell ≡ false
  pub not_closed : (r : Restriction) → res ≡ some r → r.closed ≡ false
  pub arrival_open : (r : Restriction) → res ≡ some r → day ≡ check_in → r.cta ≡ false
  pub long_enough : (r : Restriction) → res ≡ some r → or_any r.min_los ≤ nights
  pub long_enough_from :
      (r : Restriction) → res ≡ some r → day ≡ check_in → or_any r.min_los_arrival ≤ nights
  pub short_enough :
      (r : Restriction) (n : ℕ)
      → res ≡ some r
      → or_find r.max_los r.max_los_arrival ≡ some n
      → nights ≤ n

within_of : (n : ℕ) (o : Option ℕ) → ((m : ℕ) → o ≡ some m → n ≤ m) → within n o ≡ true
within_of n none h = refl
within_of n (some m) h = ground (arith, h m refl)

module _ (q : Query) (nights count day : ℕ) (p : Option ℕ) where
  abbrev sold : Option InventoryRow → Option Restriction → Bool
  sold inv res = sells_day nights q.check_in (day_of q count day inv res p)

  open_night_then :
      (inv : Option InventoryRow) (res : Option Restriction)
      → sold inv res ≡ true
      → Sells nights q.check_in count day inv res
  unfolding sells_day day_of day_restrictions compute_available
  open_night_then none none h = ground arith
  open_night_then none (some r) h = ground arith
  open_night_then (some i) none h = ground arith
  open_night_then (some i) (some r) h = ground arith

  open_night_if :
      (inv : Option InventoryRow) (res : Option Restriction)
      → Sells nights q.check_in count day inv res
      → sold inv res ≡ true
  unfolding sells_day day_of day_restrictions compute_available
  open_night_if none none s = ground (arith, s.room_left)
  open_night_if none (some r) s = ground (
    arith,
    s.room_left,
    s.not_closed r refl,
    s.arrival_open r refl,
    s.long_enough r refl,
    s.long_enough_from r refl,
    within_of nights (or_find r.max_los r.max_los_arrival) (λ m e. s.short_enough r m refl e),
  )
  open_night_if (some i) none s = ground (arith, s.room_left, s.on_sale i refl)
  open_night_if (some i) (some r) s = ground (
    arith,
    s.room_left,
    s.on_sale i refl,
    s.not_closed r refl,
    s.arrival_open r refl,
    s.long_enough r refl,
    s.long_enough_from r refl,
    within_of nights (or_find r.max_los r.max_los_arrival) (λ m e. s.short_enough r m refl e),
  )

module _ (p : DayAvailability → Bool) (f : ℕ → DayAvailability) where
  zero_off : (from : ℕ) → from ≡ from + 0
  zero_off from = omega arith

  next_off : (from k : ℕ) → from + 1 + k ≡ from + suc k
  next_off from k = omega arith

  every-each_day :
      (n from k : ℕ) → every p (map f (each_day n from)) ≡ true → k < n → p (f (from + k)) ≡ true
  unfolding each_day
  every-each_day zero from k h l = absurd (omega arith)
  every-each_day (suc n) from zero h l = ap (λ d. p (f d)) (sym (zero_off from)) ∙ ground arith
  every-each_day (suc n) from (suc k) h l =
      ap (λ d. p (f d)) (sym (next_off from k))
      ∙ every-each_day n (from + 1) k (ground arith) (omega arith)

  each_day-every :
      (n from : ℕ)
      → ((k : ℕ) → k < n → p (f (from + k)) ≡ true)
      → every p (map f (each_day n from)) ≡ true
  unfolding each_day
  each_day-every zero from h = refl
  each_day-every (suc n) from h = ground (
    arith,
    ap (λ d. p (f d)) (zero_off from) ∙ h 0 (omega arith),
    each_day-every n (from + 1)
        (λ k l. ap (λ d. p (f d)) (next_off from k) ∙ h (suc k) (omega arith)),
  )

pub drop_last-each_day : (n from : ℕ) → drop_last (each_day (suc n) from) ≡ each_day n from
unfolding drop_last each_day
drop_last-each_day zero from = refl
drop_last-each_day (suc n) from = ap (λ ds. from ∷ ds) (drop_last-each_day n (from + 1))

pub length-each_day : (n from : ℕ) → length (each_day n from) ≡ n
unfolding each_day
length-each_day zero from = refl
length-each_day (suc n) from = ap suc (length-each_day n (from + 1))

module _ (q : Query) (t : Tables) where
  -- What the rows say of the night `k` of a stay.
  abbrev pub NightSells : ℕ → ℕ → Type 0
  NightSells nights k =
      Sells nights q.check_in (room_count q.room_type_id t.rooms) (q.check_in + k)
        (inventory_of q t (q.check_in + k)) (rule_of q t (q.check_in + k))

module _ (f : ℕ → ℕ → List ℕ) (days : EachDay f) (q : Query) (t : Tables)
    (ordered : q.check_in < q.check_out) where
  pub stay_dates-each_day :
      stay_dates f q.check_in q.check_out ≡ each_day (q.check_out - q.check_in) q.check_in
  stay_dates-each_day =
      ap drop_last (days q.check_in q.check_out (omega arith))
      ∙ drop_last-each_day (q.check_out - q.check_in) q.check_in

  -- The answer of a stay with a night, by its nights.
  pub fresh_answer-nights :
      (n : ℕ)
      → q.check_out - q.check_in ≡ suc n
      → (fresh_answer f q t).bookable
        ≡ every
            (sells_day (suc n) q.check_in)
            (map (day_availability q t) (each_day (suc n) q.check_in))
  unfolding fresh_answer result_of each_day
  fresh_answer-nights n e =
      ap (λ ds. (result_of q t ds).bookable)
        (stay_dates-each_day ∙ ap (λ m. each_day m q.check_in) e)
      ∙ ap
          (λ m.
            every (sells_day m q.check_in)
              (map (day_availability q t) (each_day (suc n) q.check_in)))
          (length-each_day (suc n) q.check_in)

  nights_suc : (n : ℕ) × (q.check_out - q.check_in ≡ suc n)
  nights_suc = (q.check_out - q.check_in - 1, omega arith)

  -- If the cache has no answer, `check` says that a stay can be booked exactly when each of its
  -- nights sells: a room is left, sales are not stopped, the day is not closed, nor closed to arrival
  -- if it is the first, and the stay is long enough and short enough for the day's rules. A stop of
  -- sales in a restriction row and its limits of advance booking are not asked.
  pub check-bookable :
      (c : Cache)
      → cached_answer q c.answers ≡ none
      → ((check f q t c).0.bookable ≡ true)
        ↔ ((k : ℕ) → k < q.check_out - q.check_in → NightSells q t (q.check_out - q.check_in) k)
  unfolding check day_availability
  check-bookable c miss =
      let (n, e) = nights_suc in
      let same : (check f q t c).0.bookable ≡ (fresh_answer f q t).bookable = rw miss refl in
      (
        λ yes_all k l.
            subst (λ m. NightSells q t m k) (sym e)
              (open_night_then q (suc n) _ _ _ _ _ (
                every-each_day (sells_day (suc n) q.check_in) (day_availability q t) (suc n)
                  q.check_in k (sym (fresh_answer-nights n e) ∙ sym same ∙ yes_all) (omega arith))),
        λ all_sell.
            same
            ∙ fresh_answer-nights n e
            ∙ each_day-every (sells_day (suc n) q.check_in) (day_availability q t) (suc n)
                q.check_in
                (λ k l.
                  open_night_if q (suc n) _ _ _ _ _
                    (subst (λ m. NightSells q t m k) e (all_sell k (omega arith)))),
      )
