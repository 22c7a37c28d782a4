-- ===== src/Pricing/Stays.antt =====
-- The price of a whole stay: backend/src/modules/pricing/pricing.calculator.ts (`calculatePricing`)
-- and pricing.service.ts (`quote`).
use kars_hotel.Base.{
  ℕ, zero, suc, ◌+◌, ◌-◌, ◌≤◌, ◌≡◌, refl, sym, ap, ◌∙◌, Option, none, some, List, [], ◌∷◌, ◌++◌,
  map, length, ltb, arith, Option-cases, if◌then◌else◌, find, inl, inr,
}
use kars_hotel.Base.Result.{ok, ok-injective, or_refuse-then, refuse_if-then}
use kars_hotel.Pricing.{
  RatePlanLike, RateQuery, CalculateArgs, PricingBreakdown, invalid_arrival, invalid_departure,
  departure_before_arrival, day_of, price_night, price_nights, unpriced, total_of, breakdown_of,
  calculate_pricing,
}
use kars_hotel.Pricing.Quote.{
  RateRow, same_key, rates_map, price_in, make_map_lookup, parent_chain, find_plan,
}

-- The days `from`, `from + 1`, ... of `n` nights.
pub days_from : ℕ → ℕ → List ℕ
days_from zero from = []
days_from (suc n) from = from ∷ days_from n (from + 1)

price_nights-map :
    (n : ℕ) (args : CalculateArgs) (chain : List RatePlanLike) (from : ℕ)
    → price_nights n args chain from ≡ map (price_night args chain) (days_from n from)
unfolding price_nights days_from
price_nights-map zero args chain from = refl
price_nights-map (suc n) args chain from =
    ap (λ ns. price_night args chain from ∷ ns) (price_nights-map n args chain (from + 1))

-- A stay that is priced does not end before it begins, has one night for each day from the arrival
-- on, as many as the days between, each priced by itself, and costs their sum.
pub calculate_pricing-nights :
    (args : CalculateArgs) (b : PricingBreakdown)
    → calculate_pricing args ≡ ok b
    → (arrival departure : ℕ) × (args.arrival ≡ some arrival)
      × (args.departure ≡ some departure)
      × (arrival ≤ departure)
      × (b.nights + day_of arrival ≡ day_of departure)
      × (b.nightly
          ≡ map
              (price_night args (args.rate_plan ∷ args.parent_chain))
              (days_from b.nights (day_of arrival)))
      × (b.total_price ≡ total_of b.nightly)
      × (b.warnings ≡ unpriced b.nightly)
unfolding calculate_pricing breakdown_of
calculate_pricing-nights args b e =
    let (arrival, fa, q₁) = or_refuse-then args.arrival invalid_arrival _ e in
    let (departure, fd, q₂) = or_refuse-then args.departure invalid_departure _ q₁ in
    let (o, q₃) = refuse_if-then (ltb departure arrival) departure_before_arrival _ q₂ in
    let out = ok-injective _ b q₃ in
    let chain = args.rate_plan ∷ args.parent_chain in
    let long = ap (λ (x : PricingBreakdown). x.nights) out in
    let later : arrival ≤ departure = ground arith in
    (
      arrival,
      departure,
      fa,
      fd,
      later,
      omega (arith, long, later),
      sym (ap (λ (x : PricingBreakdown). x.nightly) out)
          ∙ price_nights-map (day_of departure - day_of arrival) args chain (day_of arrival)
          ∙ ap (λ n. map (price_night args chain) (days_from n (day_of arrival))) long,
      sym (ap (λ (x : PricingBreakdown). x.total_price) out)
          ∙ ap (λ (x : PricingBreakdown). total_of x.nightly) out,
      sym (ap (λ (x : PricingBreakdown). x.warnings) out)
          ∙ ap (λ (x : PricingBreakdown). unpriced x.nightly) out,
    )

rates_map-append :
    (rows : List RateRow) (row : RateRow) (entries : List RateRow)
    → rates_map (rows ++ row ∷ []) entries ≡ row ∷ rates_map rows entries
unfolding rates_map
rates_map-append [] row entries = refl
rates_map-append (x ∷ rows) row entries = rates_map-append rows row (x ∷ entries)

-- The last row of a plan, category, date and number of guests is the one that counts; a row of
-- another key changes nothing.
pub make_map_lookup-append :
    (rows : List RateRow) (row : RateRow) (q : RateQuery)
    → make_map_lookup (rows ++ row ∷ []) q
      ≡ (if same_key row.key q then some row.price else make_map_lookup rows q)
unfolding make_map_lookup
make_map_lookup-append rows row q =
    ap (λ rs. price_in (find (λ r. same_key r.key q) rs)) (rates_map-append rows row [])
    ∙ ground arith

-- Each plan is the one that the former names as its parent.
abbrev pub IsLineage : Option ℕ → List RatePlanLike → List RatePlanLike → Type 0
IsLineage parent [] plans = Unit
IsLineage none (p ∷ chain) plans = ⊥
IsLineage (some id) (p ∷ chain) plans =
    (find_plan id plans ≡ some p) × IsLineage p.parent_rate_plan_id chain plans

parent_chain-stops :
    (levels id : ℕ) (plans : List RatePlanLike)
    → find_plan id plans ≡ none
    → parent_chain (suc levels) (some id) plans ≡ []
unfolding parent_chain
parent_chain-stops levels id plans h = rw (parent_chain, h) refl

parent_chain-climbs :
    (levels id : ℕ) (plans : List RatePlanLike) (p : RatePlanLike)
    → find_plan id plans ≡ some p
    → parent_chain (suc levels) (some id) plans
      ≡ p ∷ parent_chain levels p.parent_rate_plan_id plans
unfolding parent_chain
parent_chain-climbs levels id plans p h = rw (parent_chain, h) refl

-- The chain of parents is at most as long as the levels allowed, so a loop of parents ends too, and
-- each of its plans is the parent that the plan before it names.
pub parent_chain-IsLineage :
    (levels : ℕ) (parent : Option ℕ) (plans : List RatePlanLike)
    → (length (parent_chain levels parent plans) ≤ levels)
      × IsLineage parent (parent_chain levels parent plans) plans
unfolding parent_chain
parent_chain-IsLineage zero parent plans = (omega arith, tt)
parent_chain-IsLineage (suc levels) none plans = (omega arith, tt)
parent_chain-IsLineage (suc levels) (some id) plans = elim (Option-cases (find_plan id plans)) [
  | inl h ↦ rw (parent_chain-stops levels id plans h) (omega arith, tt)
  | inr (p, h) ↦
      let (short, line) = parent_chain-IsLineage levels p.parent_rate_plan_id plans in
      rw (parent_chain-climbs levels id plans p h) (omega (arith, short), (h, line))
]
