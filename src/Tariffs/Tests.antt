-- ===== src/Tariffs/Tests.antt =====
-- The state of a concrete tariff (backend/src/modules/rate-plans/operator-tariff-status.ts).
use kars_hotel.Base.{◌≡◌, ◌↔◌, ◌≤◌, refl, true, none, some, List, [], ◌∷◌, In}
use kars_hotel.Base.Text.{codes}
use kars_hotel.Tariffs.{
  stale, verdict_confirmed, ReviewedPlan, ContractPriceDoc, docs_of_contract,
  operator_tariff_status, no_prices,
}
use kars_hotel.Hotel.{crew}
use kars_hotel.Tariffs.Match.{
  PartnerPlanScope, PartnerPlanQuery, Suits, plan_specificity, plan_matches, best_of,
  pick_partner_plans, pick_partner_plans-best,
}

abbrev contract : ContractPriceDoc
contract = record { partner_id = some 4; contract_number = codes "18" }

abbrev plan : ReviewedPlan
plan = record {
  partner_id = some 4;
  operator_contract = some (codes "18");
  review_verdict = some verdict_confirmed;
  review_fingerprint = some (codes "aa");
}

changed_test : (operator_tariff_status plan (contract ∷ []) (codes "ab")).state ≡ stale
unfolding operator_tariff_status
changed_test = refl

other_partner_test :
    (operator_tariff_status
      (record plan { partner_id = some 5; review_verdict = none })
      (contract ∷ [])
      (codes "aa")).reason
    ≡ no_prices
unfolding operator_tariff_status docs_of_contract
other_partner_test = refl

abbrev for_all : PartnerPlanScope
for_all = record {
  id = 1;
  partner_id = some 5;
  partner_account_id = none;
  partner_customer_id = none;
  guest_kind = none;
  is_active = true;
}

abbrev for_crew : PartnerPlanScope
for_crew = record for_all { id = 2; guest_kind = some crew }

abbrev for_customer : PartnerPlanScope
for_customer = record for_all { id = 3; partner_customer_id = some 9 }

abbrev offered : List PartnerPlanScope
offered = for_all ∷ for_crew ∷ for_customer ∷ []

abbrev crew_request : PartnerPlanQuery
crew_request = record {
  partner_id = 5;
  account_id = none;
  customer_id = none;
  guest_kind = some crew;
}

crew_test : pick_partner_plans (λ p. p) offered crew_request ≡ for_crew ∷ []
unfolding pick_partner_plans plan_matches plan_specificity best_of
crew_test = refl

pick_partner_plans-best_example :
    ((a : PartnerPlanScope)
      → In a (pick_partner_plans (λ p. p) offered crew_request) ↔ (
          In a offered
          × Suits a crew_request
          × ((b : PartnerPlanScope)
              → In b offered
              → Suits b crew_request
              → plan_specificity b ≤ plan_specificity a)))
    × ((b : PartnerPlanScope)
        → In b offered
        → Suits b crew_request
        → (a : PartnerPlanScope) × In a (pick_partner_plans (λ p. p) offered crew_request))
pick_partner_plans-best_example = pick_partner_plans-best (λ p. p) offered crew_request
