-- ===== src/Auth/Entry.antt =====
-- Who is let in by a password, and whose session is prolonged
-- (backend/src/modules/auth/auth.service.ts, `login` and `refresh`).
use kars_hotel.Base.{
  Option-cases, ◌&&◌, ℕ, suc, ◌≡◌, ◌↔◌, refl, sym, ap, ◌∙◌, inl, inr, Bool, true, false, Option,
  none, some, ◌==◌, arith, Bool-cases, if◌then◌else◌, ◌&&◌,
}
use kars_hotel.Base.Text.{Text}
use kars_hotel.Base.Result.{Result, ok, err}
use kars_hotel.Auth.Counters.{CounterStore}
use kars_hotel.Auth.Throttle.{assert_allowed, email_key}
use kars_hotel.Auth.Limits.{failures, get-fail}
use kars_hotel.Auth.Accounts.{
  Tenant, find_tenant, User, RefreshToken, Accounts, RefreshPayload, AuthTokens, AuthRefusal,
  wrong_credentials, Libraries, find_user, find_email, find_token,
}
use kars_hotel.Auth.Sessions.{
  is_dead, own_cookie, issue_tokens, for_user, for_row, for_payload, prolong, refresh, revoke,
  own_args, is_super_admin,
}
use kars_hotel.Auth.Rotation.{if_not-true}
use kars_hotel.Auth.Login.{
  tenant_is_active, LoginDto, may_enter, judge, after_limit, refuse_login, login,
}

if-false {ℓ} : {A : Type ℓ} (b : Bool) (x y : A) → b ≡ false → (if b then x else y) ≡ y
if-false b x y h = rw h refl

if-true {ℓ} : {A : Type ℓ} (b : Bool) (x y : A) → b ≡ true → (if b then x else y) ≡ x
if-true b x y h = rw h refl

module _ (r : CounterStore) (l : Libraries) where
  open r use {Store}

  abbrev Outcome : Type 0
  Outcome = Result AuthRefusal AuthTokens × Store × Accounts

  no_tokens :
      (why : AuthRefusal) (tokens : AuthTokens)
      → ◌≡◌ {A = Result AuthRefusal AuthTokens} (err why) (ok tokens)
      → ⊥
  no_tokens why tokens q = cc

  module _ (dto : LoginDto) (email : Text) (ip : Option Text) (now : ℕ) (s : Store)
      (a : Accounts) where
    judge-ok :
        (o : Option User) (tokens : AuthTokens)
        → (judge r l o dto email ip now s a).0 ≡ ok tokens
        → (u : User) × (o ≡ some u) × (may_enter r l dto.password a u ≡ true)
    judge-ok none tokens h = absurd (no_tokens _ tokens h)
    judge-ok (some u) tokens h = elim (Bool-cases (may_enter r l dto.password a u)) [
      | inl y ↦ (u, refl, y)
      | inr n ↦ absurd (no_tokens _ tokens (sym (ap (λ (x : Outcome). x.0) (if-false _ _ _ n)) ∙ h))
    ]

    limit-ok :
        (lim : Result ℕ (Unit {0})) (tokens : AuthTokens)
        → (after_limit r l lim dto email ip now s a).0 ≡ ok tokens
        → (lim ≡ ok tt)
          × ((u : User) × (find_email email a.users ≡ some u)
              × (may_enter r l dto.password a u ≡ true))
    limit-ok (err left) tokens h = absurd (no_tokens _ tokens h)
    limit-ok (ok tt) tokens h = (refl, judge-ok (find_email email a.users) tokens h)

  login-may_enter :
      (dto : LoginDto) (ip : Option Text) (now : ℕ) (s : Store) (a : Accounts)
      → ((tokens : AuthTokens) × ((login r l dto ip now s a).0 ≡ ok tokens)) ↔ (
          (assert_allowed r l.to_lower (l.to_lower dto.email) ip s ≡ ok tt)
          × ((u : User) × (find_email (l.to_lower dto.email) a.users ≡ some u)
              × (may_enter r l dto.password a u ≡ true)))
  unfolding login issue_tokens
  login-may_enter dto ip now s a =
      let email = l.to_lower dto.email in
      (
        λ h. limit-ok dto email ip now s a _ h.0 h.1,
        λ h.
            let (u, f, y) = h.1 in
            (
              (issue_tokens l (own_args l u u.tenant_id (is_super_admin u.role.code) false) now
                  a).0,
              ap (λ m. (after_limit r l m dto email ip now s a).0) h.0
                  ∙ ap (λ o. (judge r l o dto email ip now s a).0) f
                  ∙ ap (λ (x : Outcome). x.0) (if-true _ _ _ y),
            ),
      )

  -- What a user needs besides the limit: the password, an active account and an active hotel.
  abbrev pub Welcome : LoginDto → Accounts → User → Type 0
  Welcome dto a u =
      (l.bcrypt_compare dto.password u.password_hash ≡ true)
      × (u.is_active ≡ true)
      × ((t : Tenant) × (find_tenant u.tenant_id a.tenants ≡ some t) × (t.is_active ≡ true))

  may_enter-Welcome :
      (dto : LoginDto) (a : Accounts) (u : User)
      → (may_enter r l dto.password a u ≡ true) ↔ Welcome dto a u
  may_enter-Welcome dto a u = elim (Option-cases (find_tenant u.tenant_id a.tenants)) [
    | inl gone ↦ (λ h. absurd (ground (arith, h, gone)), λ w. absurd (clash (sym gone ∙ w.2.1)))
    | inr (t, f) ↦ (
      λ h. (ground (arith, h), ground (arith, h), (t, f, ground (arith, h, f))),
      λ w. let active = ap tenant_is_active w.2.1 ∙ w.2.2 in ground (arith, w.0, w.1, active),
    )
  ]
    where
      clash : {t : Tenant} → ◌≡◌ {A = Option Tenant} none (some t) → ⊥
      clash q = cc

  -- A password lets in exactly if the limit is not reached, the email is known, the password is
  -- right, and the account and its hotel are active.
  pub login_iff :
      (dto : LoginDto) (ip : Option Text) (now : ℕ) (s : Store) (a : Accounts)
      → ((tokens : AuthTokens) × ((login r l dto ip now s a).0 ≡ ok tokens)) ↔ (
          (assert_allowed r l.to_lower (l.to_lower dto.email) ip s ≡ ok tt)
          × ((u : User) × (find_email (l.to_lower dto.email) a.users ≡ some u) × Welcome dto a u))
  login_iff dto ip now s a =
      let (there, back) = login-may_enter dto ip now s a in
      (
        λ h.
            let (free, rest) = there h in
            let (u, f, y) = rest in (free, (u, f, (may_enter-Welcome dto a u).0 y)),
        λ h.
            let (free, rest) = h in
            let (u, f, w) = rest in back (free, (u, f, (may_enter-Welcome dto a u).1 w)),
      )

  -- Every other attempt that the limit lets through is answered alike, whether the email is known or
  -- not, and counts as a failure of the email.
  pub login-counts :
      (dto : LoginDto) (ip : Option Text) (now : ℕ) (s : Store) (a : Accounts)
      → assert_allowed r l.to_lower (l.to_lower dto.email) ip s ≡ ok tt
      → ((u : User)
          → find_email (l.to_lower dto.email) a.users ≡ some u
          → may_enter r l dto.password a u ≡ false)
      → ((login r l dto ip now s a).0 ≡ err wrong_credentials)
        × (failures r l.to_lower
              (email_key r l.to_lower (l.to_lower dto.email))
              (login r l dto ip now s a).1
            ≡ suc (failures r l.to_lower (email_key r l.to_lower (l.to_lower dto.email)) s))
  unfolding login
  login-counts dto ip now s a let_in wrong =
      let email = l.to_lower dto.email in
      let (o, same) = refused (find_email email a.users) wrong in
      let all : login r l dto ip now s a ≡ refuse_login r l o email ip s a =
        ap (λ m. after_limit r l m dto email ip now s a) let_in ∙ same in
      (
        ap (λ (x : Outcome). x.0) all,
        ap (λ (x : Outcome). failures r l.to_lower (email_key r l.to_lower email) x.1) all
            ∙ get-fail r l.to_lower email ip s,
      )
    where
      refused :
          (o : Option User)
          → ((u : User) → o ≡ some u → may_enter r l dto.password a u ≡ false)
          → (w : Option User) × (judge r l o dto (l.to_lower dto.email) ip now s a
              ≡ refuse_login r l w (l.to_lower dto.email) ip s a)
      refused none h = (none, refl)
      refused (some u) h = (some u, if-false _ _ _ (h u refl))

-- A token that is in time and not revoked prolongs its own session while the account is active,
-- whatever has become of the account's hotel.
pub refresh_succeeds :
    (l : Libraries) (token : Text) (now : ℕ) (a : Accounts) (p : RefreshPayload) (t : RefreshToken)
    (u : User)
    → l.jwt_verify token ≡ some p
    → find_token (l.sha256 token) a.refresh_tokens ≡ some t
    → is_dead now t ≡ false
    → t.user_id ≡ p.sub
    → t.tenant_id ≡ p.tid
    → t.impersonated_by ≡ none
    → find_user t.user_id a.users ≡ some u
    → u.is_active ≡ true
    → (tokens : AuthTokens) × ((refresh l token now none a).0 ≡ ok tokens)
unfolding refresh issue_tokens own_cookie
refresh_succeeds l token now a p t u verified found live user tenant own known active =
    let b = record a { refresh_tokens = revoke t.id now a.refresh_tokens } in
    (
      (issue_tokens l (own_args l u t.tenant_id (is_super_admin u.role.code) u.is_dispatcher) now
          b).0,
      ap (λ o. (for_payload l o token now none a).0) verified
          ∙ ap (λ o. (for_row l p o now none a).0) found
          ∙ ap said (if-false (is_dead now t) _ _ live)
          ∙ ap said (
              if_not-true (t.user_id == p.sub && t.tenant_id == p.tid) _ _
                (ground (arith, user, tenant)))
          ∙ ap said (if_not-true (own_cookie none t) _ _ (rw own refl))
          ∙ ap (λ o. (for_user l o t now a).0) known
          ∙ ap said (if_not-true u.is_active _ _ active)
          ∙ ap (λ by. (prolong l by t u now b).0) own,
    )
  where
    said : Result AuthRefusal AuthTokens × Accounts → Result AuthRefusal AuthTokens
    said x = x.0
