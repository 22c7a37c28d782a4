-- ===== src/Availability/Rows.antt =====
-- The rows that a price of a day comes from (backend/src/modules/inventory/availability.service.ts).
use kars_hotel.Base.{
  ltb, ℕ, ◌≡◌, refl, ◌⊎◌, inl, inr, Bool, Option, none, some, List, [], ◌∷◌, ◌==◌, arith, find,
  select, select-In, In, In-find, sort_by-In, sort_by, first, Bool-cases, Option-cases,
}
use kars_hotel.Pricing.Baseline.{
  SeasonWindow, StandardWindow, or_find, or_any, pick_by_occupancy, more_specific, is_season_of,
  is_standard_of, covers, season_occ, standard_occ, same_window, seasons_of, season_hit, resolve,
}
use kars_hotel.Availability.Tables.{DailyRate}
use kars_hotel.Availability.Check.{daily_min}

pub or_find-In :
    {A : Type 0} (xs : List A) (o p : Option A) (a : A)
    → ((x : A) → o ≡ some x → In x xs)
    → ((x : A) → p ≡ some x → In x xs)
    → or_find o p ≡ some a
    → In a xs
or_find-In xs none p a f g h = g a h
or_find-In xs (some x) p a f g h = f a h

pub first-In : {A : Type 0} (xs : List A) (a : A) → first xs ≡ some a → In a xs
first-In [] a h = cc
first-In (x ∷ xs) a h = inl (ground arith)

pub pick_by_occupancy-In :
    {A : Type 0} (occ : A → ℕ) (rows : List A) (o : Option ℕ) (a : A)
    → pick_by_occupancy occ rows o ≡ some a
    → In a rows
unfolding pick_by_occupancy
pick_by_occupancy-In {A} occ rows o a h = elim (Bool-cases (ltb 0 (or_any o))) [
  | inl known ↦
      or_find-In rows (find (λ r. occ r == or_any o) rows) (find (λ r. occ r == 0) rows) a
        (λ x e. In-find _ rows x e) (λ x e. In-find _ rows x e) (rw known at h)
  | inr any ↦
      let before : A → A → Bool = λ a b. ltb (occ a) (occ b) in
      or_find-In rows (find (λ r. occ r == 0) rows) (first (sort_by before rows)) a
        (λ x e. In-find _ rows x e) (λ x e. sort_by-In before rows x (first-In _ x e)) (rw any at h)
]

pub season_hit-In :
    (covering : List SeasonWindow) (o : Option ℕ) (w : SeasonWindow)
    → season_hit covering o ≡ some w
    → In w covering
unfolding season_hit
season_hit-In [] o w h = cc
season_hit-In (top ∷ covering) o w h =
    (select-In (same_window top) (top ∷ covering) w (pick_by_occupancy-In season_occ _ o w h)).0

-- A baseline price of a plan comes from a row of the plan.
pub resolve-row :
    (seasons : List SeasonWindow) (standards : List StandardWindow) (plan room_type day : ℕ)
    (o : Option ℕ) (x : ℕ)
    → resolve seasons standards plan room_type day o ≡ some x
    → ((w : SeasonWindow) × In w seasons × (w.rate_plan_id ≡ plan))
      ⊎ ((w : StandardWindow) × In w standards × (w.rate_plan_id ≡ plan))
unfolding resolve seasons_of
resolve-row seasons standards plan room_type day o x h =
    let covering = select (covers day) (seasons_of plan room_type seasons) in
    let mine = select (is_standard_of plan room_type) standards in
    elim (Option-cases (season_hit covering o)) [
      | inr (w, hit) ↦
          let (i, c) = select-In (covers day) _ w (season_hit-In covering o w hit) in
          let (j, y) =
            select-In (is_season_of plan room_type) seasons w (sort_by-In more_specific _ w i) in
          inl (w, j, ground arith)
      | inl miss ↦ elim (Option-cases (pick_by_occupancy standard_occ mine o)) [
        | inr (w, hit) ↦
            let (i, y) =
              select-In (is_standard_of plan room_type) standards w
                (pick_by_occupancy-In standard_occ mine o w hit) in
            inr (w, i, ground arith)
        | inl none_there ↦ absurd (clash (rw (miss, none_there) at h))
      ]
    ]
  where
    clash : ◌≡◌ {A = Option ℕ} none (some x) → ⊥
    clash e = cc

pub daily_min-row :
    (plan day : ℕ) (rs : List DailyRate) (x : ℕ)
    → daily_min plan day rs ≡ some x
    → (r : DailyRate) × In r rs × (r.rate_plan_id ≡ plan)
unfolding daily_min
daily_min-row plan day [] x h = cc
daily_min-row plan day (r ∷ rs) x h = elim (Bool-cases (r.rate_plan_id == plan)) [
  | inl y ↦ (r, inl refl, ground arith)
  | inr n ↦ let (r', i, e) = daily_min-row plan day rs x (ground arith) in (r', inr i, e)
]
