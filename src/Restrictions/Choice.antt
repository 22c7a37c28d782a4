-- ===== src/Restrictions/Choice.antt =====
-- Which row of a day counts (backend/src/modules/restrictions/restrictions.service.ts, `byDate`).
use kars_hotel.Base.{
  ℕ, ◌≡◌, refl, sym, ap, ◌∙◌, inl, inr, true, Option, none, some, List, [], ◌∷◌, ◌==◌, ==_iff,
  arith, if◌then◌else◌, Bool-cases, In,
}
use kars_hotel.Restrictions.{Restriction, by_date, prefer, has_plan}

-- Once a row of the asked plan has been seen for the day, it stays.
by_date-stays :
    (d : ℕ) (rows : List Restriction) (e : Restriction)
    → has_plan e ≡ true
    → by_date d rows (some e) ≡ some e
unfolding by_date
by_date-stays d [] e h = refl
by_date-stays d (r ∷ rows) e h = elim (Bool-cases (r.date == d)) [
  | inl y ↦ rw y (rw h (ground (arith, by_date-stays d rows e h)))
  | inr n ↦ rw n (by_date-stays d rows e h)
]

-- Wherever a row with a plan stands among the rows of a day, the row that counts for the day is
-- one with a plan.
pub by_date-has_plan :
    (d : ℕ) (rows : List Restriction) (best : Option Restriction) (p : Restriction)
    → In p rows
    → p.date ≡ d
    → has_plan p ≡ true
    → (r : Restriction) × (by_date d rows best ≡ some r) × (has_plan r ≡ true)
unfolding by_date
by_date-has_plan d [] best p i q h = absurd i
by_date-has_plan d (x ∷ rows) best p (inr i) q h = by_date-has_plan d rows _ p i q h
by_date-has_plan d (x ∷ rows) best p (inl e) q h =
    let (r, now, plan) = chosen best in
    (r, ap (by_date d rows) now ∙ by_date-stays d rows r plan, plan)
  where
    here : has_plan x ≡ true
    here = ap (λ (r : Restriction). has_plan r) (sym e) ∙ h

    today : (x.date == d) ≡ true
    today = (==_iff x.date d).1 (ap (λ (r : Restriction). r.date) (sym e) ∙ q)

    chosen :
        (o : Option Restriction)
        → (r : Restriction) × ((if x.date == d then prefer o x else o) ≡ some r)
          × (has_plan r ≡ true)
    chosen none = (x, rw today refl, here)
    chosen (some b) = elim (Bool-cases (has_plan b)) [
      | inl y ↦ (b, rw (today, y) (ground arith), y)
      | inr n ↦ (x, rw (today, n, here) refl, here)
    ]
