-- ===== src/Base/Result.antt =====
-- Errors as values: what a request answers, or why it is refused.
use mathlib.Core.Path.{◌≡◌, refl, ap}
use mathlib.Core.Logic.{◌⊎◌, inl, inr}
use mathlib.Core.Bool.{Bool, true, false}
use mathlib.Core.Option.{Option, none, some}

pub data Result {ℓ} (E : Type ℓ) (A : Type ℓ) : Type ℓ where
  ok : A → Result E A
  err : E → Result E A

module _ {E : Type 0} where
  infixl 5 ◌>>=◌ ◌>>◌
  abbrev pub ◌>>=◌ : {A B : Type 0} → Result E A → (A → Result E B) → Result E B
  err why >>= step = err why
  ok value >>= step = step value

  abbrev pub ◌>>◌ : {A B : Type 0} → Result E A → Result E B → Result E B
  first >> rest = first >>= λ _. rest

  -- `if (bad) return { ok: false, reason: e }`
  abbrev pub refuse_if : Bool → E → Result E (Unit {0})
  refuse_if true e = err e
  refuse_if false e = ok tt

  -- `if (!rows.length) return { ok: false, reason: e }`
  abbrev pub or_refuse : {A : Type 0} → Option A → E → Result E A
  or_refuse none e = err e
  or_refuse (some a) e = ok a

  -- A success of two steps is a success of each.
  pub >>=-eq-ok :
      {A B : Type 0} (first : Result E A) (second : A → Result E B) {last : B}
      → (first >>= second) ≡ ok last
      → (middle : A) × (first ≡ ok middle) × (second middle ≡ ok last)
  >>=-eq-ok (err why) second done = cc
  >>=-eq-ok (ok middle) second done = (middle, refl, done)

  -- The same for the two ways in which a step refuses, and for a step with no value.
  pub refuse_if-then :
      {B : Type 0} (b : Bool) (e : E) (m : Result E B) {x : B}
      → (refuse_if b e >> m) ≡ ok x
      → (b ≡ false) × (m ≡ ok x)
  refuse_if-then true e m h = cc
  refuse_if-then false e m h = (refl, h)

  pub or_refuse-then :
      {A B : Type 0} (o : Option A) (e : E) (f : A → Result E B) {x : B}
      → (or_refuse o e >>= f) ≡ ok x
      → (a : A) × (o ≡ some a) × (f a ≡ ok x)
  or_refuse-then none e f h = cc
  or_refuse-then (some a) e f h = (a, refl, h)

  pub unit-then :
      {B : Type 0} (u : Result E (Unit {0})) (m : Result E B) {x : B}
      → (u >> m) ≡ ok x
      → (u ≡ ok tt) × (m ≡ ok x)
  unit-then (ok tt) m h = (refl, h)
  unit-then (err e) m h = cc

module _ {E A : Type 0} where
  abbrev get_ok : A → Result E A → A
  get_ok d (ok a) = a
  get_ok d (err e) = d

  pub ok-injective : (a b : A) → ◌≡◌ {A = Result E A} (ok a) (ok b) → a ≡ b
  ok-injective a b q = ap (get_ok a) q

  pub Result-cases : (m : Result E A) → ((a : A) × (m ≡ ok a)) ⊎ ((e : E) × (m ≡ err e))
  Result-cases (ok a) = inl (a, refl)
  Result-cases (err e) = inr (e, refl)
