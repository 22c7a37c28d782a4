-- ===== src/Availability/Quoted.antt =====
-- What the prices by plans are (backend/src/modules/inventory/availability.service.ts,
-- `priceByPlan`).
use kars_hotel.Base.{
  ℕ, ◌+◌, ◌≡◌, refl, sym, ap, subst, ◌∙◌, ◌⊎◌, inl, inr, Bool, true, Option, none, some, List, [],
  ◌∷◌, map, arith, length, In, select-In, In-select, sort_by-In, In-sort_by, Option-cases,
}
use kars_hotel.Base.Text.{Text}
use kars_hotel.Availability.Tables.{RatePlan, Tables, OfferQuery, RatePlanPrice, Cache}
use kars_hotel.Availability.Check.{lower, stay_dates}
use kars_hotel.Availability.Offers.{
  Running, add_night, price_each, night_price, offer_of, push_offer, price_plans, active_plans,
  offer_key, cached_offers, price_by_plan, fresh_offers, plan_before,
}

abbrev pub sum : List ℕ → ℕ
sum [] = 0
sum (x ∷ xs) = x + sum xs

-- `prices` are the prices of the nights: every one has a price.
abbrev pub Priced : (ℕ → Option ℕ) → List ℕ → List ℕ → Type 0
Priced price days prices = map price days ≡ map some prices

add_night-none : (o : Option ℕ) → add_night o none ≡ none
add_night-none none = refl
add_night-none (some x) = refl

price_each-none :
    (price : ℕ → Option ℕ) (days : List ℕ) (cheapest : Option ℕ)
    → (price_each price days none cheapest).total ≡ none
unfolding price_each
price_each-none price [] cheapest = refl
price_each-none price (d ∷ days) cheapest =
    ap (λ o. (price_each price days o (lower (price d) cheapest)).total) (add_night-none (price d))
    ∙ price_each-none price days _

-- The total is there exactly if every night has a price, and then it is their sum.
price_each-total :
    (price : ℕ → Option ℕ) (days : List ℕ) (start : ℕ) (cheapest : Option ℕ) (total : ℕ)
    → (price_each price days (some start) cheapest).total ≡ some total
    → (prices : List ℕ) × Priced price days prices × (total ≡ start + sum prices)
unfolding price_each
price_each-total price [] start cheapest total h = ([], refl, ground arith)
price_each-total price (d ∷ days) start cheapest total h = elim (Option-cases (price d)) [
  | inl e ↦ absurd (clash (sym (price_each-none price days _) ∙ rw e at h))
  | inr (x, e) ↦
      let (prices, p, s) = price_each-total price days (start + x) _ total (rw e at h) in
      (x ∷ prices, ground (arith, e, p), omega (arith, s))
]
  where
    clash : ◌≡◌ {A = Option ℕ} none (some total) → ⊥
    clash e = cc

price_each-Priced :
    (price : ℕ → Option ℕ) (days prices : List ℕ) (start : ℕ) (cheapest : Option ℕ)
    → Priced price days prices
    → (price_each price days (some start) cheapest).total ≡ some (start + sum prices)
unfolding price_each
price_each-Priced price [] [] start cheapest p = ground arith
price_each-Priced price [] (x ∷ xs) start cheapest p = cc
price_each-Priced price (d ∷ days) [] start cheapest p = cc
price_each-Priced price (d ∷ days) (x ∷ xs) start cheapest p =
    let e : price d ≡ some x = ground arith in
    rw e (price_each-Priced price days xs (start + x) _ (ground arith) ∙ ap some (omega arith))

price_each-nights :
    (price : ℕ → Option ℕ) (days : List ℕ) (total cheapest : Option ℕ)
    → (price_each price days total cheapest).per_night
      ≡ map (λ d. record { date = d; price = price d }) days
unfolding price_each
price_each-nights price [] total cheapest = refl
price_each-nights price (d ∷ days) total cheapest =
    ap (λ ns. record { date = d; price = price d } ∷ ns) (price_each-nights price days _ _)

-- An offer of a plan: its nights with their prices, all of them there, and their sum.
pub record IsOffer (q : OfferQuery) (t : Tables) (dates : List ℕ) (p : RatePlan) (o : RatePlanPrice)
    : Type 0 where
  pub prices : List ℕ
  pub priced : Priced (night_price q t p) dates prices
  pub plan : o.rate_plan_id ≡ p.id
  pub partner : o.partner_id ≡ p.partner_id
  pub nights : o.nights ≡ length dates
  pub per_night : o.per_night ≡ map (λ d. record { date = d; price = night_price q t p d }) dates
  pub total : o.total ≡ sum prices

push_offer-In :
    (p : RatePlan) (n : ℕ) (run : Running) (total : Option ℕ) (rest : List RatePlanPrice)
    (o : RatePlanPrice)
    → In o (push_offer p n run total rest)
    → ((x : ℕ) × (total ≡ some x) × (o ≡ offer_of p n run x)) ⊎ In o rest
push_offer-In p n run none rest o i = inr i
push_offer-In p n run (some x) rest o (inl e) = inl (x, refl, e)
push_offer-In p n run (some x) rest o (inr i) = inr i

In-push_offer :
    (p : RatePlan) (n : ℕ) (run : Running) (total : Option ℕ) (rest : List RatePlanPrice)
    (o : RatePlanPrice)
    → In o rest
    → In o (push_offer p n run total rest)
In-push_offer p n run none rest o i = i
In-push_offer p n run (some x) rest o i = inr i

module _ (q : OfferQuery) (t : Tables) (dates : List ℕ) where
  offer_of-IsOffer :
      (p : RatePlan) (x : ℕ)
      → (price_each (night_price q t p) dates (some 0) none).total ≡ some x
      → IsOffer q t dates p
          (offer_of p (length dates) (price_each (night_price q t p) dates (some 0) none) x)
  offer_of-IsOffer p x e =
      let (prices, priced, s) = price_each-total (night_price q t p) dates 0 none x e in
      record {
        prices = prices;
        priced = priced;
        plan = refl;
        partner = refl;
        nights = refl;
        per_night = price_each-nights (night_price q t p) dates (some 0) none;
        total = omega (arith, s);
      }

  price_plans_sound :
      (ps : List RatePlan) (o : RatePlanPrice)
      → In o (price_plans q t dates ps)
      → (p : RatePlan) × In p ps × IsOffer q t dates p o
  unfolding price_plans
  price_plans_sound [] o i = absurd i
  price_plans_sound (p ∷ ps) o i =
      let run = price_each (night_price q t p) dates (some 0) none in
      elim (push_offer-In p (length dates) run run.total (price_plans q t dates ps) o i) [
        | inl (x, e, same) ↦
            (p, inl refl, subst (IsOffer q t dates p) (sym same) (offer_of-IsOffer p x e))
        | inr j ↦ let (p', k, f) = price_plans_sound ps o j in (p', inr k, f)
      ]

  price_plans_complete :
      (ps : List RatePlan) (p : RatePlan) (prices : List ℕ)
      → In p ps
      → Priced (night_price q t p) dates prices
      → (o : RatePlanPrice) × In o (price_plans q t dates ps) × IsOffer q t dates p o
  unfolding price_plans
  price_plans_complete [] p prices i h = absurd i
  price_plans_complete (x ∷ ps) p prices (inl e) h =
      let run = price_each (night_price q t x) dates (some 0) none in
      let total =
        price_each-Priced (night_price q t x) dates prices 0 none
          (subst (λ y. Priced (night_price q t y) dates prices) e h) in
      (
        offer_of x (length dates) run (0 + sum prices),
        rw total (inl refl),
        subst (λ y. IsOffer q t dates y (offer_of x (length dates) run (0 + sum prices))) (sym e)
            (offer_of-IsOffer x (0 + sum prices) total),
      )
  price_plans_complete (x ∷ ps) p prices (inr i) h =
      let (o, j, f) = price_plans_complete ps p prices i h in
      let run = price_each (night_price q t x) dates (some 0) none in
      (o, In-push_offer x (length dates) run run.total (price_plans q t dates ps) o j, f)

abbrev pub dates_of : (ℕ → ℕ → List ℕ) → OfferQuery → List ℕ
dates_of f q = stay_dates f q.check_in q.check_out

module _ (f : ℕ → ℕ → List ℕ) (before : Text → Text → Bool) (q : OfferQuery) (t : Tables) where
  -- With nothing in the cache and a night to price, every offer is of an active plan that has a
  -- price for each night and costs their sum, and every such plan is offered.
  pub price_by_plan-offers :
      (c : Cache) (d : ℕ) (ds : List ℕ)
      → cached_offers (offer_key q) c.offers ≡ none
      → dates_of f q ≡ d ∷ ds
      → ((o : RatePlanPrice)
          → In o (price_by_plan f before q t c).0
          → (p : RatePlan) × In p t.rate_plans
            × (p.is_active ≡ true)
            × IsOffer q t (dates_of f q) p o)
        × ((p : RatePlan) (prices : List ℕ)
            → In p t.rate_plans
            → p.is_active ≡ true
            → Priced (night_price q t p) (dates_of f q) prices
            → (o : RatePlanPrice) × In o (price_by_plan f before q t c).0
              × IsOffer q t (dates_of f q) p o)
  unfolding price_by_plan fresh_offers
  price_by_plan-offers c d ds miss some_night =
      let dates = d ∷ ds in
      let plans = active_plans f before t in
      let same : (price_by_plan f before q t c).0 ≡ price_plans q t dates plans =
        rw miss (rw some_night refl) in
      (
        λ o i.
            let (p, j, g) = price_plans_sound q t dates plans o (subst (In o) same i) in
            let (k, on) =
              select-In (λ (p : RatePlan). p.is_active) t.rate_plans p
                (sort_by-In (plan_before f before) _ p j) in
            (p, k, on, subst (λ x. IsOffer q t x p o) (sym some_night) g),
        λ p prices i on h.
            let (o, j, g) =
              price_plans_complete q t dates plans p prices
                (In-sort_by (plan_before f before) _ p
                  (In-select (λ (p : RatePlan). p.is_active) t.rate_plans p i on))
                (subst (λ x. Priced (night_price q t p) x prices) some_night h) in
            (o, subst (In o) (sym same) j, subst (λ x. IsOffer q t x p o) (sym some_night) g),
      )
