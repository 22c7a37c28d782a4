-- ===== src/Tariffs/Status.antt =====
-- When a tariff applies (backend/src/modules/rate-plans/operator-tariff-status.ts).
use kars_hotel.Base.{◌≡◌, ◌↔◌, ap, Bool, true, false, Option, none, some, List, arith}
use kars_hotel.Base.Text.{Text, text_eq_refl, text_eq-eq}
use kars_hotel.Tariffs.{
  confirmed, draft, Verdict, verdict_confirmed, verdict_rejected, ReviewedPlan, ContractPriceDoc,
  Reason, operator_tariff_status, reviewed, is_fingerprint,
}

is_fingerprint_iff :
    (current : Text) (o : Option Text) → (is_fingerprint current o ≡ true) ↔ (o ≡ some current)
is_fingerprint_iff current none = (λ h. cc, λ h. cc)
is_fingerprint_iff current (some f) =
    (λ h. ap some (text_eq-eq f current h), λ h. rw (inside h) (text_eq_refl current))
  where
    inside : some f ≡ some current → f ≡ current
    inside q = cc

reviewed_iff :
    (v : Option Verdict) (why : Reason) (same : Bool)
    → (((reviewed v why same).applies ≡ true) ↔ ((v ≡ some verdict_confirmed) × (same ≡ true)))
      × (((reviewed v why same).state ≡ confirmed) ↔ ((reviewed v why same).applies ≡ true))
      × (((reviewed v why same).state ≡ draft) ↔ (v ≡ none))
reviewed_iff none why same = ground arith
reviewed_iff (some verdict_rejected) why same = ground arith
reviewed_iff (some verdict_confirmed) why false = ground arith
reviewed_iff (some verdict_confirmed) why true = ground arith

-- A tariff applies exactly when the operator's last verdict confirmed it and the prices still have the
-- fingerprint that was confirmed; it is called confirmed exactly when it applies, and a draft exactly
-- when there is no verdict.
pub operator_tariff_status_applies :
    (plan : ReviewedPlan) (docs : List ContractPriceDoc) (current : Text)
    → (((operator_tariff_status plan docs current).applies ≡ true) ↔ (
        (plan.review_verdict ≡ some verdict_confirmed) × (plan.review_fingerprint ≡ some current)))
      × (((operator_tariff_status plan docs current).state ≡ confirmed)
          ↔ ((operator_tariff_status plan docs current).applies ≡ true))
      × (((operator_tariff_status plan docs current).state ≡ draft) ↔ (plan.review_verdict ≡ none))
unfolding operator_tariff_status
operator_tariff_status_applies plan docs current =
    let same = is_fingerprint_iff current plan.review_fingerprint in
    let (a, b, c) =
      reviewed_iff plan.review_verdict _ (is_fingerprint current plan.review_fingerprint) in
    ((λ h. let (v, s) = a.0 h in (v, same.0 s), λ p. a.1 (p.0, same.1 p.1)), b, c)
