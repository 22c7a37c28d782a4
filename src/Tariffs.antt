-- ===== src/Tariffs.antt =====
-- The state of a tariff that an operator reviews:
-- backend/src/modules/rate-plans/operator-tariff-status.ts. The fingerprint of the prices is a hash that
-- a library computes; here it is a text that is given.
use kars_hotel.Base.{
  ℕ, Bool, true, false, Option, none, some, List, [], ◌∷◌, ◌==◌, ◌&&◌, ◌||◌, if◌then◌else◌, select,
}
use kars_hotel.Base.Text.{Text, text_eq}
pub mod Status
pub mod Match
mod Tests

pub data OperatorTariffState : Type 0 where
  draft confirmed rejected stale : OperatorTariffState

pub data Verdict : Type 0 where
  verdict_confirmed verdict_rejected : Verdict

pub record ContractPriceDoc : Type 0 where
  pub partner_id : Option ℕ
  pub contract_number : Text

pub record ReviewedPlan : Type 0 where
  pub partner_id : Option ℕ
  pub operator_contract : Option Text
  pub review_verdict : Option Verdict
  pub review_fingerprint : Option Text

-- The phrase that says why.
pub data Reason : Type 0 where
  no_contract no_prices awaits_review not_confirmed prices_changed confirmed_by_operator : Reason

pub record TariffStatus : Type 0 where
  pub state : OperatorTariffState
  pub reason : Reason
  pub applies : Bool

-- An empty number counts as none.
abbrev pub set_number : Option Text → Option Text
set_number none = none
set_number (some []) = none
set_number (some (c ∷ t)) = some (c ∷ t)

-- `!partnerId || !d.partnerId || d.partnerId === partnerId`
abbrev pub same_partner : Option ℕ → Option ℕ → Bool
same_partner none theirs = true
same_partner (some p) none = true
same_partner (some p) (some q) = q == p

abbrev docs_of : Option Text → Option ℕ → List ContractPriceDoc → List ContractPriceDoc
docs_of none partner docs = []
docs_of (some number) partner docs =
    select (λ d. text_eq d.contract_number number && same_partner partner d.partner_id) docs

-- `docsOfContract`
unfoldable pub docs_of_contract :
    List ContractPriceDoc → Option Text → Option ℕ → List ContractPriceDoc
docs_of_contract docs number partner = docs_of (set_number number) partner docs

abbrev draft_reason : Option Text → List ContractPriceDoc → Reason
draft_reason none mine = no_contract
draft_reason (some number) [] = no_prices
draft_reason (some number) (d ∷ mine) = awaits_review

abbrev pub is_fingerprint : Text → Option Text → Bool
is_fingerprint current none = false
is_fingerprint current (some f) = text_eq f current

abbrev pub reviewed : Option Verdict → Reason → Bool → TariffStatus
reviewed none why same = record { state = draft; reason = why; applies = false }
reviewed (some verdict_rejected) why same = record {
  state = rejected;
  reason = not_confirmed;
  applies = false;
}
reviewed (some verdict_confirmed) why false = record {
  state = stale;
  reason = prices_changed;
  applies = false;
}
reviewed (some verdict_confirmed) why true = record {
  state = confirmed;
  reason = confirmed_by_operator;
  applies = true;
}

-- `operatorTariffStatus`
unfoldable pub operator_tariff_status : ReviewedPlan → List ContractPriceDoc → Text → TariffStatus
operator_tariff_status plan docs current =
    reviewed plan.review_verdict
      (draft_reason (set_number plan.operator_contract)
        (docs_of_contract docs plan.operator_contract plan.partner_id))
      (is_fingerprint current plan.review_fingerprint)
