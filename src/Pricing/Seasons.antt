-- ===== src/Pricing/Seasons.antt =====
-- Which season or standard price counts (backend/src/modules/pricing/rate-resolution.ts).
use kars_hotel.Base.{
  ℕ, suc, ◌≡◌, refl, ap, subst, ◌∙◌, ◌⊎◌, inl, inr, true, false, Option, none, some, List, [], ◌∷◌,
  ◌==◌, arith, In, In-find, find-some, find, select, select-In, In-select, sort_by-In, In-sort_by,
  IsSorted, sort_by-IsSorted, select-IsSorted, All-In,
}
use kars_hotel.Pricing.Baseline.{
  SeasonWindow, StandardWindow, or_find, pick_by_occupancy, more_specific, is_season_of,
  is_standard_of, covers, season_occ, standard_occ, same_window, seasons_of, season_hit,
  price_of_season, price_of_standard, resolve,
}

or_find-or :
    {A : Type 0} (o p : Option A) (a : A) → or_find o p ≡ some a → (o ≡ some a) ⊎ (p ≡ some a)
or_find-or none p a h = inr h
or_find-or (some x) p a h = inl h

-- A price that is picked for a known number of guests is for that number or for any.
pick_by_occupancy-fits :
    {A : Type 0} (occ : A → ℕ) (rows : List A) (n : ℕ) (a : A)
    → pick_by_occupancy occ rows (some (suc n)) ≡ some a
    → In a rows × ((occ a ≡ suc n) ⊎ (occ a ≡ 0))
unfolding pick_by_occupancy
pick_by_occupancy-fits occ rows n a h =
    let picked : or_find (find (λ r. occ r == suc n) rows) (find (λ r. occ r == 0) rows) ≡ some a =
      ground (arith, h) in
    elim (or_find-or (find (λ r. occ r == suc n) rows) (find (λ r. occ r == 0) rows) a picked) [
      | inl e ↦ (In-find _ rows a e, inl (ground (arith, find-some _ rows a e)))
      | inr e ↦ (In-find _ rows a e, inr (ground (arith, find-some _ rows a e)))
    ]

more_specific-asym : (a b : SeasonWindow) → more_specific a b ≡ true → more_specific b a ≡ false
more_specific-asym a b h = ground arith

more_specific-ntrans :
    (a b c : SeasonWindow)
    → more_specific a b ≡ false
    → more_specific b c ≡ false
    → more_specific a c ≡ false
more_specific-ntrans a b c h k = ground arith

-- The first of the covering seasons of a sorted list is as specific as any.
head_specific :
    (day : ℕ) (top s : SeasonWindow) (covering : List SeasonWindow)
    → IsSorted more_specific (top ∷ covering)
    → In s (top ∷ covering)
    → more_specific s top ≡ false
head_specific day top s covering sorted (inl e) = ap (λ x. more_specific x top) e ∙ ground arith
head_specific day top s covering sorted (inr i) =
    All-In (λ y. more_specific y top ≡ false) covering sorted.0 s i

same_specific :
    (top t s : SeasonWindow)
    → same_window top t ≡ true
    → more_specific s top ≡ false
    → more_specific s t ≡ false
same_specific top t s w h = ground arith

-- The season `t` is one of this plan and category that covers the day, and no other one that covers
-- it begins later, or begins on the same day with a higher sort order.
pub record IsChosenSeason (seasons : List SeasonWindow) (plan room_type day : ℕ) (t : SeasonWindow)
    : Type 0 where
  pub known : In t seasons
  pub own : is_season_of plan room_type t ≡ true
  pub covering : covers day t ≡ true
  pub top :
      (s : SeasonWindow)
      → In s seasons
      → is_season_of plan room_type s ≡ true
      → covers day s ≡ true
      → more_specific s t ≡ false

seasons_of-In :
    (plan room_type : ℕ) (seasons : List SeasonWindow) (s : SeasonWindow)
    → In s (seasons_of plan room_type seasons)
    → In s seasons × (is_season_of plan room_type s ≡ true)
unfolding seasons_of
seasons_of-In plan room_type seasons s i =
    select-In (is_season_of plan room_type) seasons s
      (sort_by-In more_specific (select (is_season_of plan room_type) seasons) s i)

In-seasons_of :
    (plan room_type : ℕ) (seasons : List SeasonWindow) (s : SeasonWindow)
    → In s seasons
    → is_season_of plan room_type s ≡ true
    → In s (seasons_of plan room_type seasons)
unfolding seasons_of
In-seasons_of plan room_type seasons s i own =
    In-sort_by more_specific (select (is_season_of plan room_type) seasons) s
      (In-select (is_season_of plan room_type) seasons s i own)

seasons_of-IsSorted :
    (plan room_type : ℕ) (seasons : List SeasonWindow)
    → IsSorted more_specific (seasons_of plan room_type seasons)
unfolding seasons_of
seasons_of-IsSorted plan room_type seasons =
    sort_by-IsSorted more_specific more_specific-asym more_specific-ntrans
      (select (is_season_of plan room_type) seasons)

season_hit-chosen :
    (seasons : List SeasonWindow) (plan room_type day n : ℕ) (t : SeasonWindow)
    → season_hit (select (covers day) (seasons_of plan room_type seasons)) (some (suc n)) ≡ some t
    → IsChosenSeason seasons plan room_type day t × ((season_occ t ≡ suc n) ⊎ (season_occ t ≡ 0))
unfolding season_hit
season_hit-chosen seasons plan room_type day n t h =
    go (select (covers day) (seasons_of plan room_type seasons)) refl h
  where
    go :
        (covering : List SeasonWindow)
        → select (covers day) (seasons_of plan room_type seasons) ≡ covering
        → season_hit covering (some (suc n)) ≡ some t
        → IsChosenSeason seasons plan room_type day t
          × ((season_occ t ≡ suc n) ⊎ (season_occ t ≡ 0))
    go [] e h = cc
    go (top ∷ covering) e h =
        let all = seasons_of plan room_type seasons in
        let (i, fits) =
          pick_by_occupancy-fits season_occ (select (same_window top) (top ∷ covering)) n t h in
        let (j, window) = select-In (same_window top) (top ∷ covering) t i in
        let (k, covered) = select-In (covers day) all t (rw e j) in
        let (known, own) = seasons_of-In plan room_type seasons t k in
        let sorted : IsSorted more_specific (top ∷ covering) = subst (IsSorted more_specific) e (
          select-IsSorted more_specific (covers day) all
            (seasons_of-IsSorted plan room_type seasons)) in
        (
          record {
            known = known;
            own = own;
            covering = covered;
            top = λ s is mine over. same_specific top t s window (
                head_specific day top s covering sorted (
                  subst (In s) e (
                    In-select (covers day) all s (In-seasons_of plan room_type seasons s is mine)
                      over)));
          },
          fits,
        )

-- For a known number of guests, at least one, a price found for a day is that of a covering season
-- that begins last (of those that begin on one day, of the highest sort order), or a standard
-- price of the plan and category; in both cases it is a price for this number of guests or for any
-- number.
pub resolve-chosen :
    (seasons : List SeasonWindow) (standards : List StandardWindow) (plan room_type day n price : ℕ)
    → resolve seasons standards plan room_type day (some (suc n)) ≡ some price
    → ((t : SeasonWindow) × IsChosenSeason seasons plan room_type day t
        × ((season_occ t ≡ suc n) ⊎ (season_occ t ≡ 0))
        × (t.price ≡ price))
      ⊎ ((s : StandardWindow) × In s standards
          × (is_standard_of plan room_type s ≡ true)
          × ((standard_occ s ≡ suc n) ⊎ (standard_occ s ≡ 0))
          × (s.price ≡ price))
unfolding resolve
resolve-chosen seasons standards plan room_type day n price h =
    let hit = season_hit (select (covers day) (seasons_of plan room_type seasons)) (some (suc n)) in
    let mine = select (is_standard_of plan room_type) standards in
    let picked = pick_by_occupancy standard_occ mine (some (suc n)) in
    elim (or_find-or (price_of_season hit) (price_of_standard picked) price h) [
      | inl e ↦ inl (season hit refl e)
      | inr e ↦ inr (standard picked refl e)
    ]
  where
    season :
        (o : Option SeasonWindow)
        → season_hit (select (covers day) (seasons_of plan room_type seasons)) (some (suc n)) ≡ o
        → price_of_season o ≡ some price
        → (t : SeasonWindow) × IsChosenSeason seasons plan room_type day t
          × ((season_occ t ≡ suc n) ⊎ (season_occ t ≡ 0))
          × (t.price ≡ price)
    season none q e = cc
    season (some t) q e =
        let (chosen, fits) = season_hit-chosen seasons plan room_type day n t q in
        (t, chosen, fits, ground (arith, e))

    standard :
        (o : Option StandardWindow)
        → pick_by_occupancy standard_occ
            (select (is_standard_of plan room_type) standards)
            (some (suc n))
          ≡ o
        → price_of_standard o ≡ some price
        → (s : StandardWindow) × In s standards
          × (is_standard_of plan room_type s ≡ true)
          × ((standard_occ s ≡ suc n) ⊎ (standard_occ s ≡ 0))
          × (s.price ≡ price)
    standard none q e = cc
    standard (some s) q e =
        let (i, fits) = pick_by_occupancy-fits standard_occ _ n s q in
        let (j, own) = select-In (is_standard_of plan room_type) standards s i in
        (s, j, own, fits, ground (arith, e))
