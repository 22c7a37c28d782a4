-- ===== src/Auth/Permissions.antt =====
-- Who may call a method: backend/src/common/guards/permissions.guard.ts. A permission is the number
-- of its code.
use kars_hotel.Base.{
  ℕ, Bool, true, false, not, Option, none, some, List, [], ◌∷◌, ◌≡◌, ◌↔◌, ◌⊎◌, inl, inr, refl,
  arith, In, contains, select, select-empty, subst, select-In, In-select, Bool-cases, if◌then◌else◌,
  ap, sym,
}
use kars_hotel.Base.Result.{Result, ok, err}

-- The caller, as `AuthenticatedRequestUser` says.
pub record RequestUser : Type 0 where
  pub permissions : List ℕ
  pub is_super_admin : Bool

-- `user?.isSuperAdmin` and `user?.permissions ?? []`
abbrev pub is_admin : Option RequestUser → Bool
is_admin none = false
is_admin (some u) = u.is_super_admin

abbrev pub permissions_of : Option RequestUser → List ℕ
permissions_of none = []
permissions_of (some u) = u.permissions

abbrev check_missing : List ℕ → Result (List ℕ) (Unit {0})
check_missing [] = ok tt
check_missing (p ∷ ps) = err (p ∷ ps)

abbrev check_required : List ℕ → Option RequestUser → Result (List ℕ) (Unit {0})
check_required [] user = ok tt
check_required (p ∷ ps) user =
    if is_admin user
    then ok tt
    else check_missing (select (λ q. not (contains q (permissions_of user))) (p ∷ ps))

-- `canActivate`; the refusal is the list of the missing permissions.
unfoldable pub can_activate : Bool → List ℕ → Option RequestUser → Result (List ℕ) (Unit {0})
can_activate is_public required user = if is_public then ok tt else check_required required user

check_missing-ok : (ms : List ℕ) → check_missing ms ≡ ok tt → ms ≡ []
check_missing-ok [] h = refl
check_missing-ok (m ∷ ms) h = cc

check_missing-err : (ms out : List ℕ) → check_missing ms ≡ err out → out ≡ ms
check_missing-err [] out h = cc
check_missing-err (m ∷ ms) out h = ground arith

select-none : (f : ℕ → Bool) (xs : List ℕ) → ((p : ℕ) → In p xs → f p ≡ false) → select f xs ≡ []
select-none f [] h = refl
select-none f (x ∷ xs) h = rw (h x (inl refl)) (select-none f xs (λ p i. h p (inr i)))

-- A method may be called exactly if it is public, or asks for no permission, or the caller is a super
-- administrator, or has every permission that it asks for; a refusal lists exactly the
-- permissions asked for that the caller has not.
pub can_activate_iff :
    (is_public : Bool) (required : List ℕ) (user : Option RequestUser)
    → ((can_activate is_public required user ≡ ok tt) ↔ (
        (is_public ≡ true)
        ⊎ ((is_admin user ≡ true)
            ⊎ ((p : ℕ) → In p required → contains p (permissions_of user) ≡ true))))
      × ((missing : List ℕ)
          → can_activate is_public required user ≡ err missing
          → (p : ℕ) → In p missing ↔ (In p required × (contains p (permissions_of user) ≡ false)))
unfolding can_activate
can_activate_iff true required user = ((λ h. inl refl, λ h. refl), λ missing h. cc)
can_activate_iff false [] user = ((λ h. inr (inr (λ p i. absurd i)), λ h. refl), λ missing h. cc)
can_activate_iff false (r ∷ rs) user = (
  (
    λ h. elim (Bool-cases (is_admin user)) [
      | inl y ↦ inr (inl y)
      | inr n ↦
          let gone = check_missing-ok _ (rw n at h) in
          inr (inr (λ p i. ground (arith, select-empty lacks (r ∷ rs) p gone i)))
    ],
    λ h. elim h [
      | inl e ↦ cc
      | inr (inl y) ↦ rw y refl
      | inr (inr all) ↦ elim (Bool-cases (is_admin user)) [
        | inl y ↦ rw y refl
        | inr n ↦ rw n (ap check_missing (none_lacks (r ∷ rs) all))
      ]
    ],
  ),
  λ missing h. elim (Bool-cases (is_admin user)) [
    | inl y ↦ absurd (no_err missing (rw y at h))
    | inr n ↦ λ p.
        let same = check_missing-err _ missing (rw n at h) in
        (
          λ i.
              let (j, e) = select-In lacks (r ∷ rs) p (subst (In p) same i) in
              (j, ground (arith, e)),
          λ h. subst (In p) (sym same) (In-select lacks (r ∷ rs) p h.0 (ground (arith, h.1))),
        )
  ],
)
  where
    lacks : ℕ → Bool
    lacks q = not (contains q (permissions_of user))

    none_lacks :
        (xs : List ℕ)
        → ((p : ℕ) → In p xs → contains p (permissions_of user) ≡ true)
        → select lacks xs ≡ []
    none_lacks xs all = select-none lacks xs (λ p i. ground (arith, all p i))

    no_err : (missing : List ℕ) → ◌≡◌ {A = Result (List ℕ) (Unit {0})} (ok tt) (err missing) → ⊥
    no_err missing q = cc
