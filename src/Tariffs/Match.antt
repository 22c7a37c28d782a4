-- ===== src/Tariffs/Match.antt =====
-- Which of a hotel's plans a partner's request gets:
-- backend/src/modules/rate-plans/partner-tariff-match.ts.
use kars_hotel.Base.{
  ℕ, ◌+◌, ◌≤◌, ◌≡◌, refl, sym, ap, ◌∙◌, ◌↔◌, inl, inr, Bool, true, false, not, Option, none, some,
  List, [], ◌∷◌, ◌==◌, ◌&&◌, max, if◌then◌else◌, select, select-In, In-select, In, arith,
  Bool-cases, ltb, ==_iff,
}
use kars_hotel.Hotel.{GuestKind, crew, disruption}

pub record PartnerPlanScope : Type 0 where
  pub id : ℕ
  pub partner_id : Option ℕ
  pub partner_account_id : Option ℕ
  pub partner_customer_id : Option ℕ
  pub guest_kind : Option GuestKind
  pub is_active : Bool

pub record PartnerPlanQuery : Type 0 where
  pub partner_id : ℕ
  pub account_id : Option ℕ
  pub customer_id : Option ℕ
  pub guest_kind : Option GuestKind

abbrev pub is_given {ℓ} : {A : Type ℓ} → Option A → Bool
is_given none = false
is_given (some a) = true

abbrev pub same_kind : GuestKind → GuestKind → Bool
same_kind crew crew = true
same_kind crew disruption = false
same_kind disruption crew = false
same_kind disruption disruption = true

-- `!condition || condition === (asked ?? null)`
abbrev pub meets {ℓ} : {A : Type ℓ} → (A → A → Bool) → Option A → Option A → Bool
meets same none asked = true
meets same (some a) none = false
meets same (some a) (some b) = same a b

-- `planSpecificity`: the customer counts 4, the account 2, the kind of guests 1.
unfoldable pub plan_specificity : PartnerPlanScope → ℕ
plan_specificity p =
    (if is_given p.partner_customer_id then 4 else 0)
    + (if is_given p.partner_account_id then 2 else 0)
    + (if is_given p.guest_kind then 1 else 0)

abbrev pub is_partner : Option ℕ → ℕ → Bool
is_partner none partner = false
is_partner (some p) partner = p == partner

-- `planMatches`
unfoldable pub plan_matches : PartnerPlanScope → PartnerPlanQuery → Bool
plan_matches p q =
    if not (p.is_active && is_partner p.partner_id q.partner_id)
    then false
    else if not (meets ◌==◌ p.partner_account_id q.account_id)
    then false
    else if not (meets ◌==◌ p.partner_customer_id q.customer_id)
    then false
    else meets same_kind p.guest_kind q.guest_kind

-- `Math.max(...fit.map(planSpecificity))`
unfoldable pub best_of {ℓ} : {A : Type ℓ} → (A → ℕ) → List A → ℕ
best_of f [] = 0
best_of f (x ∷ xs) = max (f x) (best_of f xs)

-- `pickPartnerPlans`, on values that have the conditions of a plan.
module _ {A : Type 0} (scope : A → PartnerPlanScope) where
  abbrev pick_best : List A → List A
  pick_best [] = []
  pick_best (x ∷ xs) =
      let best = best_of (λ p. plan_specificity (scope p)) (x ∷ xs) in
      select (λ p. plan_specificity (scope p) == best) (x ∷ xs)

  unfoldable pub pick_partner_plans : List A → PartnerPlanQuery → List A
  pick_partner_plans plans q = pick_best (select (λ p. plan_matches (scope p) q) plans)

-- A condition that is set is the one that was asked for.
abbrev pub Meets {ℓ} : {A : Type ℓ} → Option A → Option A → Type ℓ
Meets {A} condition asked = (a : A) → condition ≡ some a → asked ≡ some a

-- The plan is for the request.
pub record Suits (p : PartnerPlanScope) (q : PartnerPlanQuery) : Type 0 where
  pub active : p.is_active ≡ true
  pub partner : p.partner_id ≡ some q.partner_id
  pub account : Meets p.partner_account_id q.account_id
  pub customer : Meets p.partner_customer_id q.customer_id
  pub kind : Meets p.guest_kind q.guest_kind

same_kind-eq : (a b : GuestKind) → same_kind a b ≡ true → a ≡ b
same_kind-eq crew crew h = refl
same_kind-eq crew disruption h = cc
same_kind-eq disruption crew h = cc
same_kind-eq disruption disruption h = refl

same_kind_refl : (a : GuestKind) → same_kind a a ≡ true
same_kind_refl crew = refl
same_kind_refl disruption = refl

module _ {A : Type 0} (same : A → A → Bool) (sound : (a b : A) → same a b ≡ true → a ≡ b)
    (complete : (a : A) → same a a ≡ true) where
  meets-Meets : (c asked : Option A) → meets same c asked ≡ true → Meets c asked
  meets-Meets none asked h a e = cc
  meets-Meets (some x) none h a e = cc
  meets-Meets (some x) (some y) h a e = ap some (sym (sound x y h)) ∙ e

  Meets-meets : (c asked : Option A) → Meets c asked → meets same c asked ≡ true
  Meets-meets none asked m = refl
  Meets-meets (some x) asked m = rw (m x refl) (complete x)

==-eq : (a b : ℕ) → (a == b) ≡ true → a ≡ b
==-eq a b h = (==_iff a b).0 h

==-refl : (a : ℕ) → (a == a) ≡ true
==-refl a = (==_iff a a).1 refl

is_partner-some : (o : Option ℕ) (n : ℕ) → is_partner o n ≡ true → o ≡ some n
is_partner-some none n h = cc
is_partner-some (some m) n h = ap some (==-eq m n h)

-- A plan matches exactly if it is active, the partner's, and each condition that it sets is met.
plan_matches-Suits :
    (p : PartnerPlanScope) (q : PartnerPlanQuery) → (plan_matches p q ≡ true) ↔ Suits p q
unfolding plan_matches
plan_matches-Suits p q = (
  λ h. record {
    active = ground arith;
    partner = is_partner-some p.partner_id q.partner_id (ground arith);
    account = meets-Meets ◌==◌ ==-eq ==-refl _ _ (ground arith);
    customer = meets-Meets ◌==◌ ==-eq ==-refl _ _ (ground arith);
    kind = meets-Meets same_kind same_kind-eq same_kind_refl _ _ (ground arith);
  },
  λ s. ground (
    arith,
    s.active,
    s.partner,
    ==-refl q.partner_id,
    Meets-meets ◌==◌ ==-eq ==-refl _ _ s.account,
    Meets-meets ◌==◌ ==-eq ==-refl _ _ s.customer,
    Meets-meets same_kind same_kind-eq same_kind_refl _ _ s.kind,
  ),
)

module _ {A : Type 0} (f : A → ℕ) where
  best_of-le : (xs : List A) (a : A) → In a xs → f a ≤ best_of f xs
  unfolding best_of
  best_of-le [] a i = absurd i
  best_of-le (x ∷ xs) a (inl e) = rw e (omega arith)
  best_of-le (x ∷ xs) a (inr i) = omega (arith, best_of-le xs a i)

  best_of-In : (x : A) (xs : List A) → (a : A) × In a (x ∷ xs) × (f a ≡ best_of f (x ∷ xs))
  unfolding best_of
  best_of-In x [] = (x, inl refl, omega arith)
  best_of-In x (y ∷ ys) =
      let (a, i, e) = best_of-In y ys in
      elim (Bool-cases (ltb (f x) (best_of f (y ∷ ys)))) [
        | inl less ↦ (a, inr i, e ∙ ground arith)
        | inr more ↦ (x, inl refl, ground arith)
      ]

module _ {A : Type 0} (scope : A → PartnerPlanScope) where
  abbrev rank : A → ℕ
  rank a = plan_specificity (scope a)

  abbrev is_top : A → List A → A → Bool
  is_top x xs p = rank p == best_of rank (x ∷ xs)

  pick_best-In :
      (fit : List A) (a : A)
      → In a (pick_best scope fit) ↔ (In a fit × ((b : A) → In b fit → rank b ≤ rank a))
  pick_best-In [] a = (λ i. absurd i, λ h. absurd h.0)
  pick_best-In (x ∷ xs) a = (
    λ i.
        let (j, e) = select-In (is_top x xs) (x ∷ xs) a i in
        (
          j,
          λ b k.
              omega (
                arith,
                best_of-le rank (x ∷ xs) b k,
                (==_iff (rank a) (best_of rank (x ∷ xs))).0 e,
              ),
        ),
    λ h.
        let (b, j, e) = best_of-In rank x xs in
        In-select (is_top x xs) (x ∷ xs) a h.0 (
          (==_iff (rank a) (best_of rank (x ∷ xs))).1
            (omega (arith, e, h.1 b j, best_of-le rank (x ∷ xs) a h.0))),
  )

  pick_best_some : (fit : List A) (b : A) → In b fit → (a : A) × In a (pick_best scope fit)
  pick_best_some [] b i = absurd i
  pick_best_some (x ∷ xs) b i =
      let (a, j, e) = best_of-In rank x xs in
      (a, In-select (is_top x xs) (x ∷ xs) a j ((==_iff (rank a) (best_of rank (x ∷ xs))).1 e))

module _ {A : Type 0} (scope : A → PartnerPlanScope) (plans : List A) (q : PartnerPlanQuery) where
  abbrev fits : A → Bool
  fits p = plan_matches (scope p) q

  -- The plans that a request gets are exactly those that suit it and than which no suitable one is
  -- more specific; and some plan is picked whenever one suits the request.
  pub pick_partner_plans-best :
      ((a : A)
        → In a (pick_partner_plans scope plans q) ↔ (
            In a plans
            × Suits (scope a) q
            × ((b : A)
                → In b plans
                → Suits (scope b) q
                → plan_specificity (scope b) ≤ plan_specificity (scope a))))
      × ((b : A)
          → In b plans
          → Suits (scope b) q
          → (a : A) × In a (pick_partner_plans scope plans q))
  unfolding pick_partner_plans
  pick_partner_plans-best = (
    λ a. (
      λ i.
          let (j, best) = (pick_best-In scope (select fits plans) a).0 i in
          let (k, e) = select-In fits plans a j in
          (
            k,
            (plan_matches-Suits (scope a) q).0 e,
            λ b l s. best b (In-select fits plans b l ((plan_matches-Suits (scope b) q).1 s)),
          ),
      λ h. (pick_best-In scope (select fits plans) a).1 (
        In-select fits plans a h.0 ((plan_matches-Suits (scope a) q).1 h.1),
        λ b i.
            let (k, e) = select-In fits plans b i in h.2 b k ((plan_matches-Suits (scope b) q).0 e),
      ),
    ),
    λ b i s.
        pick_best_some scope (select fits plans) b
          (In-select fits plans b i ((plan_matches-Suits (scope b) q).1 s)),
  )
