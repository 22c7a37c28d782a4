-- ===== src/Base/Lists.antt =====
-- Lists over the native numbers: membership tests, filters and tables keyed by a number.
use Prim.Native.Nat.{ℕ, suc, ◌+◌}
use mathlib.Core.Path.{◌≡◌, refl, ap, ◌∙◌}
use mathlib.Core.Logic.{◌⊎◌, inl, inr}
use mathlib.Core.List.{List, [], ◌∷◌, ◌++◌, map}
use mathlib.Core.Bool.{Bool, true, false, ◌&&◌, ◌||◌}
use mathlib.Core.Option.{Option, none, some}
use native.Mathlib.Omega.{arith}
use kars_hotel.Base.Tests.{◌==◌, Bool-cases, if◌then◌else◌}

module _ {ℓ} {A : Type ℓ} where
  abbrev pub length : List A → ℕ
  length [] = 0
  length (x ∷ xs) = suc (length xs)

  -- `xs.every(p)` and `xs.filter(p)`.
  abbrev pub every : (A → Bool) → List A → Bool
  every p [] = true
  every p (x ∷ xs) = p x && every p xs

  abbrev pub select : (A → Bool) → List A → List A
  select p [] = []
  select p (x ∷ xs) = if p x then x ∷ select p xs else select p xs

  -- `xs.find(p)`
  abbrev pub find : (A → Bool) → List A → Option A
  find p [] = none
  find p (x ∷ xs) = if p x then some x else find p xs

  -- `xs.length === 0`
  abbrev pub is_empty : List A → Bool
  is_empty [] = true
  is_empty (x ∷ xs) = false

  -- A value for every element.
  abbrev pub All {κ} : (A → Type κ) → List A → Type κ
  All P [] = Unit
  All P (x ∷ xs) = P x × All P xs

-- `xs.includes(n)`, and adding to a set kept as a list.
abbrev pub contains : ℕ → List ℕ → Bool
contains n [] = false
contains n (x ∷ xs) = n == x || contains n xs

abbrev pub insert : ℕ → List ℕ → List ℕ
insert n xs = if contains n xs then xs else n ∷ xs

pub contains-insert : (n m : ℕ) (xs : List ℕ) → contains n (insert m xs) ≡ (n == m || contains n xs)
contains-insert n m xs = ground arith

module _ {ℓ} {A : Type ℓ} where
  pub find-some : (p : A → Bool) (xs : List A) (a : A) → find p xs ≡ some a → p a ≡ true
  find-some p [] a h = cc
  find-some p (x ∷ xs) a h = ground (arith, find-some p xs a)

  pub length-append : (xs ys : List A) → length (xs ++ ys) ≡ length xs + length ys
  length-append [] ys = omega arith
  length-append (x ∷ xs) ys = omega (arith, length-append xs ys)

-- The element stands in the list.
abbrev pub In : {A : Type 0} → A → List A → Type 0
In a [] = ⊥
In a (x ∷ xs) = (a ≡ x) ⊎ In a xs

module _ {A : Type 0} where
  pub In-append : (xs ys : List A) (a : A) → In a (xs ++ ys) → In a xs ⊎ In a ys
  In-append [] ys a m = inr m
  In-append (x ∷ xs) ys a (inl e) = inl (inl e)
  In-append (x ∷ xs) ys a (inr m) = elim (In-append xs ys a m) [
    | inl l ↦ inl (inr l)
    | inr r ↦ inr r
  ]

  pub In-map :
      {B : Type 0} (f : A → B) (xs : List A) (b : B)
      → In b (map f xs)
      → (a : A) × In a xs × (b ≡ f a)
  In-map f [] b m = absurd m
  In-map f (x ∷ xs) b (inl e) = (x, inl refl, e)
  In-map f (x ∷ xs) b (inr m) = let (a, i, e) = In-map f xs b m in (a, inr i, e)

  pub In-find : (p : A → Bool) (xs : List A) (a : A) → find p xs ≡ some a → In a xs
  In-find p [] a h = cc
  In-find p (x ∷ xs) a h = elim (Bool-cases (p x)) [
    | inl yes_x ↦ inl (ground arith)
    | inr no_x ↦ inr (In-find p xs a (ground arith))
  ]

  pub select-empty : (p : A → Bool) (xs : List A) (a : A) → select p xs ≡ [] → In a xs → p a ≡ false
  select-empty p [] a h m = absurd m
  select-empty p (x ∷ xs) a h (inl e) = rw e (ground arith)
  select-empty p (x ∷ xs) a h (inr m) = select-empty p xs a (ground arith) m

-- A change that does not touch what is searched for.
module _ {A : Type 0} (p : A → Bool) (f : A → A) (same : (x : A) → p (f x) ≡ p x) where
  pub find-map-some :
      (xs ys : List A) (a : A) → find p xs ≡ some a → find p (map f xs ++ ys) ≡ some (f a)
  find-map-some [] ys a h = cc
  find-map-some (x ∷ xs) ys a h = elim (Bool-cases (p x)) [
    | inl y ↦ let e : x ≡ a = ground arith in rw (same x, y) (ap (λ z. some (f z)) e)
    | inr n ↦ rw (same x, n) (find-map-some xs ys a (rw n at h))
  ]

  pub find-map : (xs : List A) (a : A) → find p xs ≡ some a → find p (map f xs) ≡ some (f a)
  find-map [] a h = cc
  find-map (x ∷ xs) a h = elim (Bool-cases (p x)) [
    | inl y ↦ let e : x ≡ a = ground arith in rw (same x, y) (ap (λ z. some (f z)) e)
    | inr n ↦ rw (same x, n) (find-map xs a (rw n at h))
  ]

  pub find-map-none : (xs : List A) → find p xs ≡ none → find p (map f xs) ≡ none
  find-map-none [] h = refl
  find-map-none (x ∷ xs) h = elim (Bool-cases (p x)) [
    | inl y ↦ absurd (ground arith)
    | inr n ↦ rw (same x, n) (find-map-none xs (rw n at h))
  ]

pub map-map-back :
    {A : Type 0} (g h : A → A) (xs : List A)
    → ((x : A) → In x xs → h (g x) ≡ x)
    → map h (map g xs) ≡ xs
map-map-back g h [] back = refl
map-map-back g h (x ∷ xs) back =
    ground (arith, back x (inl refl), map-map-back g h xs (λ y i. back y (inr i)))

pub find-misses :
    {A : Type 0} (p : A → Bool) (xs : List A) (a : A) → find p xs ≡ none → In a xs → p a ≡ false
find-misses p [] a h i = absurd i
find-misses p (x ∷ xs) a h (inl e) = ap p e ∙ ground arith
find-misses p (x ∷ xs) a h (inr i) = find-misses p xs a (ground arith) i

pub In-map-of : {A B : Type 0} (g : A → B) (xs : List A) (a : A) → In a xs → In (g a) (map g xs)
In-map-of g [] a i = absurd i
In-map-of g (x ∷ xs) a (inl e) = inl (ap g e)
In-map-of g (x ∷ xs) a (inr i) = inr (In-map-of g xs a i)

pub In-left : {A : Type 0} (xs ys : List A) (a : A) → In a xs → In a (xs ++ ys)
In-left [] ys a i = absurd i
In-left (x ∷ xs) ys a (inl e) = inl e
In-left (x ∷ xs) ys a (inr i) = inr (In-left xs ys a i)

pub In-right : {A : Type 0} (xs ys : List A) (a : A) → In a ys → In a (xs ++ ys)
In-right [] ys a i = i
In-right (x ∷ xs) ys a i = inr (In-right xs ys a i)
