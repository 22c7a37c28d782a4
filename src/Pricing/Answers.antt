-- ===== src/Pricing/Answers.antt =====
-- A quote always gets an answer (backend/src/modules/pricing/pricing.service.ts, `quote`).
use kars_hotel.Base.{
  ℕ, zero, suc, ◌+◌, ◌-◌, ◌≤◌, ◌≡◌, refl, ap, some, List, ◌∷◌, length, find, arith, ◌==◌,
}
use kars_hotel.Base.Result.{ok}
use kars_hotel.Pricing.{
  RatePlanLike, CalculateArgs, PricingBreakdown, day_of, price_nights, breakdown_of,
  calculate_pricing,
}
use kars_hotel.Pricing.Quote.{RoomTypeRow, PriceTables, QuoteInput, find_plan, quote_args, quote}

price_nights-length :
    (n : ℕ) (args : CalculateArgs) (chain : List RatePlanLike) (from : ℕ)
    → length (price_nights n args chain from) ≡ n
unfolding price_nights
price_nights-length zero args chain from = refl
price_nights-length (suc n) args chain from = ap suc (price_nights-length n args chain (from + 1))

-- A quote for valid dates in order, a known category and a known plan is answered, whatever prices
-- there are and even if the parents of the plan form a loop; it names the plan and the category that
-- were asked for and has a price for each night between the two days.
pub quote_answers :
    (input : QuoteInput) (db : PriceTables) (arrival departure : ℕ) (room_type : RoomTypeRow)
    (plan : RatePlanLike)
    → input.arrival ≡ some arrival
    → input.departure ≡ some departure
    → arrival ≤ departure
    → find (λ t. t.id == input.room_type_id) db.room_types ≡ some room_type
    → find_plan input.rate_plan_id db.rate_plans ≡ some plan
    → (b : PricingBreakdown) × (quote input db ≡ ok b)
      × (b.rate_plan_id ≡ plan.id)
      × (b.room_type_id ≡ input.room_type_id)
      × (length b.nightly + day_of arrival ≡ day_of departure)
unfolding quote calculate_pricing breakdown_of quote_args
quote_answers input db arrival departure room_type plan a d order t p =
    let args = quote_args input arrival departure room_type plan db in
    let start = day_of arrival in
    let end = day_of departure in
    let long = price_nights-length (end - start) args (args.rate_plan ∷ args.parent_chain) start in
    (
      breakdown_of args start end,
      rw (a, d, t, p) (ground (arith, order)),
      refl,
      refl,
      omega (arith, long, order),
    )
