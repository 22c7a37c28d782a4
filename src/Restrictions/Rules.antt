-- ===== src/Restrictions/Rules.antt =====
-- When a stay is allowed (backend/src/modules/restrictions/restrictions.service.ts).
use kars_hotel.Base.{
  ℕ, zero, suc, ◌+◌, ◌-◌, ◌≤◌, ◌<◌, ◌≡◌, ◌↔◌, refl, sym, subst, ◌⊎◌, ◌∙◌, inl, inr, Bool, true,
  false, Option, none, some, List, [], ◌∷◌, ◌++◌, arith, is_empty, select,
}
use kars_hotel.Base.Result.{ok}
use kars_hotel.Restrictions.{
  Restriction, Violation, ViolationCode, CheckInput, CheckResult, by_date, violation_if, below,
  above, too_soon, too_early, night_violations, nights_violations, arrival_violations,
  departure_violations, in_stay, departure_row, violations_of, check,
}

-- A limit that is set.
abbrev pub AtLeast : Option ℕ → ℕ → Type 0
AtLeast none n = Unit
AtLeast (some limit) n = limit ≤ n

abbrev pub AtMost : Option ℕ → ℕ → Type 0
AtMost none n = Unit
AtMost (some limit) n = n ≤ limit

-- The rules of one night, of the day of arrival and of the day of departure.
abbrev pub NightIsOpen : ℕ → Option Restriction → Type 0
NightIsOpen nights none = Unit
NightIsOpen nights (some r) =
    (r.closed ≡ false)
    × ((r.stop_sell ≡ false) × (AtLeast r.min_los nights × AtMost r.max_los nights))

abbrev pub LateEnough : CheckInput → Option ℕ → Type 0
LateEnough input none = Unit
LateEnough input (some limit) = input.now + limit ≤ input.arrival

abbrev pub EarlyEnough : CheckInput → Option ℕ → Type 0
EarlyEnough input none = Unit
EarlyEnough input (some limit) = input.arrival ≤ input.now + limit

abbrev pub ArrivalIsOpen : ℕ → CheckInput → Option Restriction → Type 0
ArrivalIsOpen nights input none = Unit
ArrivalIsOpen nights input (some r) =
    (r.cta ≡ false)
    × (AtLeast r.min_los_arrival nights
        × (AtMost r.max_los_arrival nights
            × (LateEnough input r.min_advance × EarlyEnough input r.max_advance)))

abbrev pub DepartureIsOpen : Option Restriction → Type 0
DepartureIsOpen none = Unit
DepartureIsOpen (some r) = r.ctd ≡ false

module _ {A B C : Type 0} where
  then_iff : A ↔ B → B ↔ C → A ↔ C
  then_iff f g = (λ a. g.0 (f.0 a), λ c. f.1 (g.1 c))

module _ {A A' B B' : Type 0} where
  both_iff : A ↔ A' → B ↔ B' → (A × B) ↔ (A' × B')
  both_iff f g = (λ p. (f.0 p.0, g.0 p.1), λ p. (f.1 p.0, g.1 p.1))

append-empty :
    (xs ys : List Violation)
    → (is_empty (xs ++ ys) ≡ true) ↔ ((is_empty xs ≡ true) × (is_empty ys ≡ true))
append-empty [] ys = (λ h. (refl, h), λ h. h.1)
append-empty (x ∷ xs) ys = (λ h. cc, λ h. h.0)

violation_if-empty :
    (b : Bool) (code : ViolationCode) (d : Option ℕ)
    → (is_empty (violation_if b code d) ≡ true) ↔ (b ≡ false)
violation_if-empty true code d = (λ h. sym h, λ h. sym h)
violation_if-empty false code d = (λ h. refl, λ h. refl)

-- One rule more, before the others.
more :
    {P Q : Type 0} (b : Bool) (code : ViolationCode) (d : Option ℕ) (ys : List Violation)
    → (b ≡ false) ↔ P
    → (is_empty ys ≡ true) ↔ Q
    → (is_empty (violation_if b code d ++ ys) ≡ true) ↔ (P × Q)
more b code d ys p q =
    then_iff (append-empty (violation_if b code d) ys)
      (both_iff (then_iff (violation_if-empty b code d) p) q)

same_iff : {A : Type 0} → A ↔ A
same_iff = (λ a. a, λ a. a)

below_iff : (n : ℕ) (o : Option ℕ) → (below n o ≡ false) ↔ AtLeast o n
below_iff n none = (λ h. tt, λ h. refl)
below_iff n (some l) = (λ h. ground arith, λ h. ground arith)

above_iff : (n : ℕ) (o : Option ℕ) → (above n o ≡ false) ↔ AtMost o n
above_iff n none = (λ h. tt, λ h. refl)
above_iff n (some l) = (λ h. ground arith, λ h. ground arith)

too_soon_iff :
    (input : CheckInput) (o : Option ℕ)
    → (too_soon input.arrival input.now o ≡ false) ↔ LateEnough input o
too_soon_iff input none = (λ h. tt, λ h. refl)
too_soon_iff input (some l) = (λ h. ground arith, λ h. ground arith)

too_early_iff :
    (input : CheckInput) (o : Option ℕ)
    → (too_early input.arrival input.now o ≡ false) ↔ EarlyEnough input o
too_early_iff input none = (λ h. tt, λ h. refl)
too_early_iff input (some l) = (λ h. ground arith, λ h. ground arith)

night_violations_iff :
    (nights d : ℕ) (o : Option Restriction)
    → (is_empty (night_violations nights d o) ≡ true) ↔ NightIsOpen nights o
unfolding night_violations
night_violations_iff nights d none = (λ h. tt, λ h. refl)
night_violations_iff nights d (some r) = more r.closed _ _ _ same_iff (
    more r.stop_sell _ _ _ same_iff (
      more (below nights r.min_los) _ _ _ (below_iff nights r.min_los)
        (then_iff (violation_if-empty (above nights r.max_los) _ _) (above_iff nights r.max_los))))

arrival_violations_iff :
    (nights : ℕ) (input : CheckInput) (o : Option Restriction)
    → (is_empty (arrival_violations nights input o) ≡ true) ↔ ArrivalIsOpen nights input o
unfolding arrival_violations
arrival_violations_iff nights input none = (λ h. tt, λ h. refl)
arrival_violations_iff nights input (some r) = more r.cta _ _ _ same_iff (
    more (below nights r.min_los_arrival) _ _ _ (below_iff nights r.min_los_arrival) (
      more (above nights r.max_los_arrival) _ _ _ (above_iff nights r.max_los_arrival) (
        more (too_soon input.arrival input.now r.min_advance) _ _ _
          (too_soon_iff input r.min_advance)
          (then_iff (violation_if-empty (too_early input.arrival input.now r.max_advance) _ _)
            (too_early_iff input r.max_advance)))))

departure_violations_iff :
    (input : CheckInput) (o : Option Restriction)
    → (is_empty (departure_violations input o) ≡ true) ↔ DepartureIsOpen o
unfolding departure_violations
departure_violations_iff input none = (λ h. tt, λ h. refl)
departure_violations_iff input (some r) = violation_if-empty r.ctd _ _

-- Each of `n` nights from `d` on is open for a stay of this length.
abbrev pub NightsAreOpen : ℕ → ℕ → ℕ → List Restriction → Type 0
NightsAreOpen n nights d rows =
    (k : ℕ) → d ≤ k → k < d + n → NightIsOpen nights (by_date k rows none)

nights_violations_iff :
    (n nights d : ℕ) (rows : List Restriction)
    → (is_empty (nights_violations n nights d rows) ≡ true) ↔ NightsAreOpen n nights d rows
unfolding nights_violations
nights_violations_iff zero nights d rows = (λ h k lo hi. absurd (omega arith), λ h. refl)
nights_violations_iff (suc n) nights d rows =
    let rest = nights_violations_iff n nights (d + 1) rows in
    let night = night_violations_iff nights d (by_date d rows none) in
    let split =
      append-empty (night_violations nights d (by_date d rows none))
        (nights_violations n nights (d + 1) rows) in
    (
      λ h k lo hi. elim (le-cases d k lo) [
        | inl same ↦
            subst (λ (x : ℕ). NightIsOpen nights (by_date x rows none)) same (night.0 (split.0 h).0)
        | inr after ↦ rest.0 (split.0 h).1 k (omega arith) (omega arith)
      ],
      λ all. split.1 (
        night.1 (all d (omega arith) (omega arith)),
        rest.1 (λ k lo hi. all k (omega arith) (omega arith)),
      ),
    )
  where
    le-cases : (a b : ℕ) → a ≤ b → (a ≡ b) ⊎ (a < b)
    le-cases a b h = omega arith

-- A stay of at least one night that is answered is allowed exactly when each of its nights is open
-- and stays of its length are allowed on it, the day of arrival allows an arrival, this length and
-- this time ahead, and the day of departure allows a departure; of the rows of a day the one that
-- `by_date` chooses counts.
pub check-allows :
    (ordered : List Restriction → List Restriction) (input : CheckInput) (room_types : List ℕ)
    (table : List Restriction) (result : CheckResult)
    → input.arrival < input.departure
    → check ordered input room_types table ≡ ok result
    → (result.allowed ≡ true) ↔ (
        NightsAreOpen
          (input.departure - input.arrival)
          (input.departure - input.arrival)
          input.arrival
          (select (in_stay input) table)
        × (ArrivalIsOpen
              (input.departure - input.arrival)
              input
              (by_date input.arrival (select (in_stay input) table) none)
            × DepartureIsOpen (departure_row ordered input table)))
unfolding check violations_of
check-allows ordered input room_types table result stay e =
    let nights = input.departure - input.arrival in
    let rows = select (in_stay input) table in
    let vs = nights_violations nights nights input.arrival rows in
    let ws = arrival_violations nights input (by_date input.arrival rows none) in
    let zs = departure_violations input (departure_row ordered input table) in
    let answer : result.allowed ≡ is_empty (vs ++ (ws ++ zs)) = ground arith in
    then_iff (λ h. sym answer ∙ h, λ h. answer ∙ h)
      (then_iff (append-empty vs (ws ++ zs)) (
        both_iff (nights_violations_iff nights nights input.arrival rows) (
          then_iff (append-empty ws zs) (
            both_iff (arrival_violations_iff nights input (by_date input.arrival rows none))
              (departure_violations_iff input (departure_row ordered input table))))))
