-- ===== src/Pricing/Nights.antt =====
-- The price of one night (backend/src/modules/pricing/pricing.calculator.ts, `priceNight` and
-- `applyModifier`).
use kars_hotel.Base.{
  ℕ, zero, suc, ◌+◌, ◌*◌, ◌/◌, ◌≤◌, ◌<◌, ◌≡◌, refl, ap, ◌∙◌, ◌↔◌, Bool, true, false, not, Option,
  none, some, List, [], ◌∷◌, ◌++◌, All, is_empty, length, ltb, if◌then◌else◌, arith,
}
use kars_hotel.Base.Int.{ℤ, pos, negsuc, ◌+ℤ◌}
use kars_hotel.Pricing.{
  RatePlanLike, PriceModifierType, percent, absolute, CalculateArgs, apply_modifier, modified,
  clamp, plan_price, found_or, first_price, walk_down, modify_at, is_zero, night_of, price_night,
}

-- The modifiers of these plans, the last one first.
unfoldable pub through : List RatePlanLike → ℕ → ℕ
through [] price = price
through (plan ∷ plans) price = apply_modifier (through plans price) plan

walk_down-cons :
    (i : ℕ) (plan : RatePlanLike) (chain : List RatePlanLike) (price : ℕ)
    → walk_down (suc i) (plan ∷ chain) price ≡ apply_modifier (walk_down i chain price) plan
unfolding walk_down
walk_down-cons zero plan chain price = refl
walk_down-cons (suc i) plan chain price = walk_down-cons i plan chain (modify_at i chain price)

walk_down-through :
    (before rest : List RatePlanLike) (price : ℕ)
    → walk_down (length before) (before ++ rest) price ≡ through before price
unfolding walk_down through
walk_down-through [] rest price = refl
walk_down-through (plan ∷ before) rest price =
    walk_down-cons (length before) plan (before ++ rest) price
    ∙ ap (λ p. apply_modifier p plan) (walk_down-through before rest price)

abbrev pub HasNoPrice : CalculateArgs → ℕ → RatePlanLike → Type 0
HasNoPrice args date plan = plan_price args date plan ≡ none

first_price-nearest :
    (args : CalculateArgs) (date i j : ℕ) (before after : List RatePlanLike) (plan : RatePlanLike)
    (base : ℕ) (flag : Bool)
    → j ≡ i + length before
    → All (HasNoPrice args date) before
    → plan_price args date plan ≡ some (base, flag)
    → first_price args date i (before ++ plan ∷ after) ≡ some (j, plan, base, flag)
unfolding first_price
first_price-nearest args date i j [] after plan base flag q nothing h =
    ap (λ o. found_or i plan o (first_price args date (i + 1) after)) h
    ∙ ap (λ (k : ℕ). some (k, plan, base, flag)) (omega (arith, q))
first_price-nearest args date i j (x ∷ before) after plan base flag q nothing h =
    ap (λ o. found_or i x o (first_price args date (i + 1) (before ++ plan ∷ after))) nothing.0
    ∙ first_price-nearest args date (i + 1) j before after plan base flag (omega (arith, q))
        nothing.1 h

found_or-none :
    (i : ℕ) (plan : RatePlanLike) (o : Option (ℕ × Bool))
    (rest : Option (ℕ × RatePlanLike × ℕ × Bool))
    → found_or i plan o rest ≡ none
    → (o ≡ none) × (rest ≡ none)
found_or-none i plan none rest h = (refl, h)
found_or-none i plan (some x) rest h = cc

first_price-All :
    (args : CalculateArgs) (date i : ℕ) (chain : List RatePlanLike)
    → All (HasNoPrice args date) chain
    → first_price args date i chain ≡ none
unfolding first_price
first_price-All args date i [] nothing = refl
first_price-All args date i (x ∷ chain) nothing =
    ap (λ o. found_or i x o (first_price args date (i + 1) chain)) nothing.0
    ∙ first_price-All args date (i + 1) chain nothing.1

first_price-none :
    (args : CalculateArgs) (date i : ℕ) (chain : List RatePlanLike)
    → first_price args date i chain ≡ none
    → All (HasNoPrice args date) chain
unfolding first_price
first_price-none args date i [] e = tt
first_price-none args date i (x ∷ chain) e =
    let (here, rest) = found_or-none i x (plan_price args date x) _ e in
    (here, first_price-none args date (i + 1) chain rest)

length-pos : (before : List RatePlanLike) → ltb 0 (length before) ≡ not (is_empty before)
length-pos [] = refl
length-pos (x ∷ before) = ground arith

-- A night has the price of the nearest plan of the chain that has one, changed by the modifiers of
-- the plans before it, the nearest to that plan first; the price is inherited exactly when there are
-- such plans.
pub price_night-nearest :
    (args : CalculateArgs) (date : ℕ) (before after : List RatePlanLike) (plan : RatePlanLike)
    (base : ℕ) (flag : Bool)
    → All (HasNoPrice args date) before
    → plan_price args date plan ≡ some (base, flag)
    → price_night args (before ++ plan ∷ after) date ≡ record {
      date = date;
      price = through before base;
      has_rate = true;
      occupancy_fallback = flag;
      inherited_from_parent = not (is_empty before);
      source_rate_plan_id = some plan.id;
    }
unfolding price_night
price_night-nearest args date before after plan base flag nothing h = rw (
  first_price-nearest args date 0 (length before) before after plan base flag (omega arith) nothing
      h,
  walk_down-through before (plan ∷ after) base,
  length-pos before,
)

-- A night has no rate exactly when no plan of the chain has a price for it, and then it costs
-- nothing.
pub price_night-no_rate :
    (args : CalculateArgs) (date : ℕ) (chain : List RatePlanLike)
    → (((price_night args chain date).has_rate ≡ false) ↔ All (HasNoPrice args date) chain)
      × ((price_night args chain date).has_rate ≡ false → (price_night args chain date).price ≡ 0)
unfolding price_night
price_night-no_rate args date chain =
    let o = first_price args date 0 chain in
    (
      (
        λ h. first_price-none args date 0 chain (empty o h),
        λ nothing. rw (first_price-All args date 0 chain nothing) refl,
      ),
      λ h. rw (empty o h) refl,
    )
  where
    empty :
        (o : Option (ℕ × RatePlanLike × ℕ × Bool))
        → (night_of chain date o).has_rate ≡ false
        → o ≡ none
    empty none h = refl
    empty (some x) h = cc

times_mono : (a b c : ℕ) → a ≤ b → a * c ≤ b * c
times_mono a b zero h = omega arith
times_mono a b (suc c) h = omega (arith, times_mono a b c h)

modified_mono : (t : PriceModifierType) (v : ℤ) (a b : ℕ) → a ≤ b → modified t v a ≤ modified t v b
unfolding ◌+ℤ◌
modified_mono percent v a b h = omega (arith, times_mono a b (clamp (pos 10000 +ℤ v)) h)
modified_mono absolute (pos n) a b h = ground arith
modified_mono absolute (negsuc n) a b h = ground arith

-- A dearer price stays at least as dear after any modifier.
pub apply_modifier_mono :
    (plan : RatePlanLike) (a b : ℕ) → a ≤ b → apply_modifier a plan ≤ apply_modifier b plan
unfolding apply_modifier
apply_modifier_mono plan a b h =
    ground (arith, modified_mono plan.price_modifier_type plan.price_modifier_value a b h)

halves :
    (x r : ℕ) → r ≡ (x + 5000) / 10000 → (2 * x < 20000 * r + 10000) × (20000 * r ≤ 2 * x + 10000)
halves x r e = (omega arith, omega arith)

whole_factor : (base factor : ℕ) → factor ≡ 10000 → base ≡ (base * factor + 5000) / 10000
whole_factor base factor e = rw e (omega arith)

-- A modifier in percent gives the exact price, multiplied by the factor, to within half a kopeck.
pub apply_modifier-rounds :
    (plan : RatePlanLike) (base factor : ℕ)
    → plan.price_modifier_type ≡ percent
    → pos 10000 +ℤ plan.price_modifier_value ≡ pos factor
    → (2 * (base * factor) < 20000 * apply_modifier base plan + 10000)
      × (20000 * apply_modifier base plan ≤ 2 * (base * factor) + 10000)
unfolding apply_modifier ◌+ℤ◌
apply_modifier-rounds plan base factor t v =
    go plan.price_modifier_type plan.price_modifier_value t v
  where
    go :
        (u : PriceModifierType) (w : ℤ)
        → u ≡ percent
        → pos 10000 +ℤ w ≡ pos factor
        → (2 * (base * factor) < 20000 * (if is_zero w then base else modified u w base) + 10000)
          × (20000 * (if is_zero w then base else modified u w base) ≤ 2 * (base * factor) + 10000)
    go absolute w t v = cc
    go percent (pos zero) t v =
        halves (base * factor) base (whole_factor base factor (ground arith))
    go percent (pos (suc n)) t v =
        halves (base * factor) _ (ap (λ z. (base * clamp z + 5000) / 10000) v)
    go percent (negsuc n) t v =
        halves (base * factor) _ (ap (λ z. (base * clamp z + 5000) / 10000) v)
