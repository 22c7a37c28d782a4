-- ===== src/Availability/Partnered.antt =====
-- The price of a night of a partner's plan (backend/src/modules/inventory/availability.service.ts,
-- `priceByPlan`).
use kars_hotel.Base.{
  ℕ, suc, ◌≡◌, refl, ◌⊎◌, inl, inr, true, Option, none, some, ◌==◌, arith, ltb, lt→ltb, find,
  find-some, In, In-find, select, select-In,
}
use kars_hotel.Pricing.Baseline.{or_find, resolve}
use kars_hotel.Availability.Tables.{DailyRate, RatePlan, Tables, OfferQuery}
use kars_hotel.Availability.Offers.{
  night_price, price_of, daily_for, day_rates, offer_season_of, offer_standard_of, offer_rate_of,
}

picked :
    (a b : Option DailyRate) (m : Option ℕ) (x : ℕ)
    → or_find (or_find (or_find (price_of a) (price_of b)) none) (or_find m none) ≡ some x
    → ((r : DailyRate) × ((a ≡ some r) ⊎ (b ≡ some r)) × (r.price ≡ x)) ⊎ (m ≡ some x)
picked (some r) b m x h = inl (r, inl refl, ground arith)
picked none (some r) m x h = inl (r, inr refl, ground arith)
picked none none (some y) x h = inr h
picked none none none x h = cc

-- For a known number of guests, at least one, a night of a partner's plan costs what a row of the
-- plan for the day says for this number of guests or for any, or else what the seasons and the
-- standard prices give for this number; never the price of the category.
pub night_price-partner :
    (q : OfferQuery) (t : Tables) (p : RatePlan) (id n day x : ℕ)
    → p.partner_id ≡ some id
    → q.guests ≡ some (suc n)
    → night_price q t p day ≡ some x
    → ((r : DailyRate) × In r t.rates
        × (r.rate_plan_id ≡ p.id)
        × (r.date ≡ day)
        × ((r.occupancy ≡ suc n) ⊎ (r.occupancy ≡ 0))
        × (r.price ≡ x))
      ⊎ (resolve
            (select (offer_season_of q) t.seasons)
            (select (offer_standard_of q) t.standards)
            p.id
            q.room_type_id
            day
            (some (suc n))
          ≡ some x)
unfolding night_price daily_for
night_price-partner q t p id n day x partner guests h =
    let rows = day_rates q t p day in
    let base =
      resolve (select (offer_season_of q) t.seasons) (select (offer_standard_of q) t.standards) p.id
        q.room_type_id day (some (suc n)) in
    elim (picked (find (λ r. r.occupancy == suc n) rows) (find (λ r. r.occupancy == 0) rows) base x
      (rw (guests, partner, some_guests) at h)) [
        | inr e ↦ inr e
        | inl (r, from, price) ↦ inl (row_of (suc n) r from price)
      ]
  where
    some_guests : ltb 0 (suc n) ≡ true
    some_guests = lt→ltb 0 (suc n) (omega arith)

    rated :
        (k : ℕ) (r : DailyRate)
        → find (λ (r : DailyRate). r.occupancy == k) (day_rates q t p day) ≡ some r
        → In r t.rates × (r.rate_plan_id ≡ p.id) × (r.date ≡ day) × (r.occupancy ≡ k)
    rated k r e =
        let (i, mine) = select-In _ (select (offer_rate_of q) t.rates) r (In-find _ _ r e) in
        let (j, range) = select-In (offer_rate_of q) t.rates r i in
        (j, ground arith, ground arith, ground (arith, find-some _ (day_rates q t p day) r e))

    row_of :
        (k : ℕ) (r : DailyRate)
        → (find (λ (r : DailyRate). r.occupancy == k) (day_rates q t p day) ≡ some r)
          ⊎ (find (λ (r : DailyRate). r.occupancy == 0) (day_rates q t p day) ≡ some r)
        → r.price ≡ x
        → (r : DailyRate) × In r t.rates
          × (r.rate_plan_id ≡ p.id)
          × (r.date ≡ day)
          × ((r.occupancy ≡ k) ⊎ (r.occupancy ≡ 0))
          × (r.price ≡ x)
    row_of k r (inl e) price =
        let (i, mine, on, occ) = rated k r e in (r, i, mine, on, inl occ, price)
    row_of k r (inr e) price =
        let (i, mine, on, occ) = rated 0 r e in (r, i, mine, on, inr occ, price)
