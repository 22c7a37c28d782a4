-- ===== src/Base/Sort.antt =====
-- Sorting: what `xs.sort(...)` gives holds the same elements, none after one that it goes before.
use mathlib.Core.Path.{◌≡◌, refl, sym, subst, ◌∙◌, ap}
use mathlib.Core.Logic.{inl, inr}
use mathlib.Core.List.{List, [], ◌∷◌}
use mathlib.Core.Bool.{Bool, true, false}
use mathlib.Core.Option.{Option, none, some}
use kars_hotel.Base.Tests.{Bool-cases, if◌then◌else◌}
use kars_hotel.Base.Lists.{In, All, select}

-- `xs.sort(...)` is stable: an element goes before the equal ones that follow it.
unfoldable pub insert_by {ℓ} : {A : Type ℓ} → (A → A → Bool) → A → List A → List A
insert_by before x [] = x ∷ []
insert_by before x (y ∷ ys) =
    let rest = insert_by before x ys in if before y x then y ∷ rest else x ∷ y ∷ ys

unfoldable pub sort_by {ℓ} : {A : Type ℓ} → (A → A → Bool) → List A → List A
sort_by before [] = []
sort_by before (x ∷ xs) = insert_by before x (sort_by before xs)

abbrev pub first {ℓ} : {A : Type ℓ} → List A → Option A
first [] = none
first (x ∷ xs) = some x

pub All-In : {A : Type 0} (P : A → Type 0) (xs : List A) → All P xs → (a : A) → In a xs → P a
All-In P [] all a i = absurd i
All-In P (x ∷ xs) all a (inl e) = subst P (sym e) all.0
All-In P (x ∷ xs) all a (inr i) = All-In P xs all.1 a i

pub All-of_In : {A : Type 0} (P : A → Type 0) (xs : List A) → ((a : A) → In a xs → P a) → All P xs
All-of_In P [] h = tt
All-of_In P (x ∷ xs) h = (h x (inl refl), All-of_In P xs (λ a i. h a (inr i)))

module _ {A : Type 0} (p : A → Bool) where
  select-keeps : (x : A) (xs : List A) → p x ≡ true → select p (x ∷ xs) ≡ x ∷ select p xs
  select-keeps x xs h = rw h

  select-drops : (x : A) (xs : List A) → p x ≡ false → select p (x ∷ xs) ≡ select p xs
  select-drops x xs h = rw h

  pub select-In : (xs : List A) (a : A) → In a (select p xs) → In a xs × (p a ≡ true)
  select-In [] a i = absurd i
  select-In (x ∷ xs) a i = elim (Bool-cases (p x)) [
    | inl h ↦ elim (subst (In a) (select-keeps x xs h) i) [
      | inl e ↦ (inl e, ap p e ∙ h)
      | inr j ↦ let (k, q) = select-In xs a j in (inr k, q)
    ]
    | inr h ↦ let (k, q) = select-In xs a (subst (In a) (select-drops x xs h) i) in (inr k, q)
  ]

  pub In-select : (xs : List A) (a : A) → In a xs → p a ≡ true → In a (select p xs)
  In-select [] a i h = absurd i
  In-select (x ∷ xs) a (inl e) h = subst (In a) (sym (select-keeps x xs (sym (ap p e) ∙ h))) (inl e)
  In-select (x ∷ xs) a (inr i) h = elim (Bool-cases (p x)) [
    | inl q ↦ subst (In a) (sym (select-keeps x xs q)) (inr (In-select xs a i h))
    | inr q ↦ subst (In a) (sym (select-drops x xs q)) (In-select xs a i h)
  ]

module _ {A : Type 0} (before : A → A → Bool) where
  insert_by-past :
      (x y : A) (ys : List A)
      → before y x ≡ true
      → insert_by before x (y ∷ ys) ≡ y ∷ insert_by before x ys
  unfolding insert_by
  insert_by-past x y ys h = rw h

  insert_by-here :
      (x y : A) (ys : List A) → before y x ≡ false → insert_by before x (y ∷ ys) ≡ x ∷ y ∷ ys
  unfolding insert_by
  insert_by-here x y ys h = rw h

  insert_by-In : (x : A) (xs : List A) (a : A) → In a (insert_by before x xs) → In a (x ∷ xs)
  unfolding insert_by
  insert_by-In x [] a i = i
  insert_by-In x (y ∷ ys) a i = elim (Bool-cases (before y x)) [
    | inl h ↦ elim (subst (In a) (insert_by-past x y ys h) i) [
      | inl e ↦ inr (inl e)
      | inr j ↦ elim (insert_by-In x ys a j) [ inl e ↦ inl e | inr k ↦ inr (inr k) ]
    ]
    | inr h ↦ subst (In a) (insert_by-here x y ys h) i
  ]

  In-insert_by : (x : A) (xs : List A) (a : A) → In a (x ∷ xs) → In a (insert_by before x xs)
  unfolding insert_by
  In-insert_by x [] a i = i
  In-insert_by x (y ∷ ys) a i = elim (Bool-cases (before y x)) [
    | inl h ↦ subst (In a) (sym (insert_by-past x y ys h)) (elim i [
      | inl e ↦ inr (In-insert_by x ys a (inl e))
      | inr (inl e) ↦ inl e
      | inr (inr j) ↦ inr (In-insert_by x ys a (inr j))
    ])
    | inr h ↦ subst (In a) (sym (insert_by-here x y ys h)) i
  ]

  pub sort_by-In : (xs : List A) (a : A) → In a (sort_by before xs) → In a xs
  unfolding sort_by
  sort_by-In [] a i = i
  sort_by-In (x ∷ xs) a i = elim (insert_by-In x (sort_by before xs) a i) [
    | inl e ↦ inl e
    | inr j ↦ inr (sort_by-In xs a j)
  ]

  pub In-sort_by : (xs : List A) (a : A) → In a xs → In a (sort_by before xs)
  unfolding sort_by
  In-sort_by [] a i = i
  In-sort_by (x ∷ xs) a (inl e) = In-insert_by x (sort_by before xs) a (inl e)
  In-sort_by (x ∷ xs) a (inr i) = In-insert_by x (sort_by before xs) a (inr (In-sort_by xs a i))

  -- No element goes before one that stands earlier.
  abbrev pub IsSorted : List A → Type 0
  IsSorted [] = Unit
  IsSorted (x ∷ xs) = All (λ y. before y x ≡ false) xs × IsSorted xs

  pub select-IsSorted : (p : A → Bool) (xs : List A) → IsSorted xs → IsSorted (select p xs)
  select-IsSorted p [] s = s
  select-IsSorted p (x ∷ xs) s = elim (Bool-cases (p x)) [
    | inl h ↦ subst IsSorted (sym (select-keeps p x xs h)) (
      All-of_In (λ y. before y x ≡ false) (select p xs)
          (λ a i. All-In (λ y. before y x ≡ false) xs s.0 a (select-In p xs a i).0),
      select-IsSorted p xs s.1,
    )
    | inr h ↦ subst IsSorted (sym (select-drops p x xs h)) (select-IsSorted p xs s.1)
  ]

  module _ (asym : (a b : A) → before a b ≡ true → before b a ≡ false)
      (ntrans : (a b c : A) → before a b ≡ false → before b c ≡ false → before a c ≡ false) where
    insert_by-IsSorted : (x : A) (xs : List A) → IsSorted xs → IsSorted (insert_by before x xs)
    unfolding insert_by
    insert_by-IsSorted x [] s = (tt, tt)
    insert_by-IsSorted x (y ∷ ys) s = elim (Bool-cases (before y x)) [
      | inl h ↦ subst IsSorted (sym (insert_by-past x y ys h)) (
        All-of_In (λ z. before z y ≡ false) (insert_by before x ys)
            (λ a i. elim (insert_by-In x ys a i) [
              | inl e ↦ ap (λ z. before z y) e ∙ asym y x h
              | inr j ↦ All-In (λ z. before z y ≡ false) ys s.0 a j
            ]),
        insert_by-IsSorted x ys s.1,
      )
      | inr h ↦ subst IsSorted (sym (insert_by-here x y ys h)) (
        (
          h,
          All-of_In (λ z. before z x ≡ false) ys
              (λ a j. ntrans a y x (All-In (λ z. before z y ≡ false) ys s.0 a j) h),
        ),
        s,
      )
    ]

    pub sort_by-IsSorted : (xs : List A) → IsSorted (sort_by before xs)
    unfolding sort_by
    sort_by-IsSorted [] = tt
    sort_by-IsSorted (x ∷ xs) = insert_by-IsSorted x (sort_by before xs) (sort_by-IsSorted xs)
