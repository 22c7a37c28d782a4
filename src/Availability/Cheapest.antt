-- ===== src/Availability/Cheapest.antt =====
-- The lowest price of a day and the ban on departures in the answers of `check`
-- (backend/src/modules/inventory/availability.service.ts).
use kars_hotel.Base.{
  ltb, ℕ, ◌≤◌, ◌≡◌, refl, sym, ap, subst, ◌∙◌, ◌⊎◌, inl, inr, true, Option, none, some, List, [],
  ◌∷◌, ◌==◌, ==_iff, arith, contains, contains-insert, select, In, Bool-cases, Option-cases,
}
use kars_hotel.Availability.Tables.{Tables, Query}
use kars_hotel.Availability.Check.{
  rate_of, season_of, standard_of, lower, daily_min, add_ids, plan_ids, effective_price, lowest,
  min_price,
}
use kars_hotel.Availability.Rows.{resolve-row, daily_min-row}

module _ (price : ℕ → Option ℕ) where
  lowest-le :
      (plans : List ℕ) (min : Option ℕ) (m : ℕ)
      → lowest price plans min ≡ some m
      → ((y : ℕ) → min ≡ some y → m ≤ y)
        × ((plan x : ℕ) → contains plan plans ≡ true → price plan ≡ some x → m ≤ x)
  unfolding lowest
  lowest-le [] min m h = (λ y e. ground arith, λ plan x i e. ground arith)
  lowest-le (p ∷ plans) min m h =
      let (old, new) = lowest-le plans (lower (price p) min) m h in
      (
        λ y e. step (price p) y e old,
        λ plan x i e. elim (Bool-cases (plan == p)) [
          | inl here ↦ first_le min (price p) x (sym (ap price ((==_iff plan p).0 here)) ∙ e) old
          | inr past ↦ new plan x (ground arith) e
        ],
      )
    where
      step :
          (o : Option ℕ) (y : ℕ) → min ≡ some y → ((z : ℕ) → lower o min ≡ some z → m ≤ z) → m ≤ y
      step none y e old = old y (ground arith)
      step (some v) y e old = elim (Bool-cases (ltb v y)) [
        | inl less ↦ ground (arith, old v (ground arith))
        | inr more ↦ old y (ground arith)
      ]

      first_le :
          (min o : Option ℕ) (x : ℕ) → o ≡ some x → ((z : ℕ) → lower o min ≡ some z → m ≤ z) → m ≤ x
      first_le min none x e old = cc
      first_le none (some v) x e old = ground (arith, old v refl)
      first_le (some w) (some v) x e old = elim (Bool-cases (ltb v w)) [
        | inl less ↦ ground (arith, old v (ground arith))
        | inr more ↦ ground (arith, old w (ground arith))
      ]

  lowest-none :
      (plans : List ℕ) (min : Option ℕ)
      → lowest price plans min ≡ none
      → (min ≡ none) × ((plan : ℕ) → contains plan plans ≡ true → price plan ≡ none)
  unfolding lowest
  lowest-none [] min h = (h, λ plan i. absurd (ground arith))
  lowest-none (p ∷ plans) min h =
      let (both, rest) = lowest-none plans (lower (price p) min) h in
      let (here, old) = neither (price p) min both in
      (
        old,
        λ plan i. elim (Bool-cases (plan == p)) [
          | inl same ↦ ap price ((==_iff plan p).0 same) ∙ here
          | inr past ↦ rest plan (ground arith)
        ],
      )
    where
      neither : (o min : Option ℕ) → lower o min ≡ none → (o ≡ none) × (min ≡ none)
      neither none min e = (refl, e)
      neither (some v) none e = cc
      neither (some v) (some w) e = absurd (ground arith)

  lowest-from :
      (plans : List ℕ) (min : Option ℕ) (m : ℕ)
      → lowest price plans min ≡ some m
      → (min ≡ some m) ⊎ ((plan : ℕ) × (price plan ≡ some m))
  unfolding lowest
  lowest-from [] min m h = inl h
  lowest-from (p ∷ plans) min m h = elim (lowest-from plans _ m h) [
    | inl e ↦ came_from (price p) min refl e
    | inr f ↦ inr f
  ]
    where
      came_from :
          (o min : Option ℕ)
          → price p ≡ o
          → lower o min ≡ some m
          → (min ≡ some m) ⊎ ((plan : ℕ) × (price plan ≡ some m))
      came_from none min q e = inl e
      came_from (some v) none q e = inr (p, q ∙ e)
      came_from (some v) (some w) q e = elim (Bool-cases (ltb v w)) [
        | inl less ↦ inr (p, q ∙ ground arith)
        | inr more ↦ inl (ground arith)
      ]

-- A price that is picked is of one of the rows.
module _ {A : Type 0} (id : A → ℕ) where
  add_ids-keeps :
      (xs : List A) (ids : List ℕ) (n : ℕ)
      → contains n ids ≡ true
      → contains n (add_ids id xs ids) ≡ true
  unfolding add_ids
  add_ids-keeps [] ids n h = h
  add_ids-keeps (x ∷ xs) ids n h =
      add_ids-keeps xs _ n (ground (arith, contains-insert n (id x) ids))

  add_ids-adds :
      (xs : List A) (ids : List ℕ) (a : A) → In a xs → contains (id a) (add_ids id xs ids) ≡ true
  unfolding add_ids
  add_ids-adds [] ids a i = absurd i
  add_ids-adds (x ∷ xs) ids a (inl e) =
      add_ids-keeps xs _ (id a) (rw e (ground (arith, contains-insert (id x) (id x) ids)))
  add_ids-adds (x ∷ xs) ids a (inr i) = add_ids-adds xs _ a i

  add_ids-named :
      (xs : List A) (ids : List ℕ) (a : A) (plan : ℕ)
      → In a xs
      → id a ≡ plan
      → contains plan (add_ids id xs ids) ≡ true
  add_ids-named xs ids a plan i e =
      subst (λ p. contains p (add_ids id xs ids) ≡ true) e (add_ids-adds xs ids a i)

module _ (q : Query) (t : Tables) (day : ℕ) where
  -- A plan with a price is one of those that are compared.
  effective_price-plan :
      (plan x : ℕ) → effective_price q t day plan ≡ some x → contains plan (plan_ids q t) ≡ true
  unfolding effective_price plan_ids
  effective_price-plan plan x h =
      let rates = select (rate_of q) t.rates in
      let standards = select (standard_of q) t.standards in
      let seasons = select (season_of q) t.seasons in
      elim (Option-cases (daily_min plan day rates)) [
        | inr (v, daily) ↦
            let (r, i, e) = daily_min-row plan day rates v daily in
            add_ids-keeps _ standards _ plan (
              add_ids-keeps _ seasons _ plan
                (add_ids-named (λ r. r.rate_plan_id) rates [] r plan i e))
        | inl none_daily ↦
            elim (resolve-row seasons standards plan q.room_type_id day none x
              (rw none_daily at h)) [
                | inl (w, i, e) ↦
                    add_ids-keeps _ standards _ plan
                      (add_ids-named (λ w. w.rate_plan_id) seasons _ w plan i e)
                | inr (w, i, e) ↦ add_ids-named (λ w. w.rate_plan_id) standards _ w plan i e
              ]
      ]

  -- The price of a day in an answer is the lowest of the plans' prices for the day, whether a
  -- plan is active or not: some plan has it, and none has a lower one. A day has none only if no plan has one.
  pub min_price-cheapest :
      ((m : ℕ)
        → min_price q t day ≡ some m
        → ((plan : ℕ) × (effective_price q t day plan ≡ some m))
          × ((plan x : ℕ) → effective_price q t day plan ≡ some x → m ≤ x))
      × (min_price q t day ≡ none → (plan : ℕ) → effective_price q t day plan ≡ none)
  unfolding min_price
  min_price-cheapest =
      let price = effective_price q t day in
      let plans = plan_ids q t in
      (
        λ m e. (
          found m (lowest-from price plans none m e),
          λ plan x f. (lowest-le price plans none m e).1 plan x (effective_price-plan plan x f) f,
        ),
        λ e plan. elim (Option-cases (price plan)) [
          | inl gone ↦ gone
          | inr (x, f) ↦ (lowest-none price plans none e).1 plan (effective_price-plan plan x f)
        ],
      )
    where
      found :
          (m : ℕ)
          → (◌≡◌ {A = Option ℕ} none (some m))
            ⊎ ((plan : ℕ) × (effective_price q t day plan ≡ some m))
          → (plan : ℕ) × (effective_price q t day plan ≡ some m)
      found m (inl e) = cc
      found m (inr f) = f
