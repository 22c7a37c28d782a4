-- ===== src/Auth/Login.antt =====
-- `login` of backend/src/modules/auth/auth.service.ts, with the limit of
-- backend/src/modules/auth/login-throttle.ts.
use kars_hotel.Base.{ℕ, Bool, false, Option, none, some, leb, ◌&&◌, if◌then◌else◌}
use kars_hotel.Base.Text.{Text}
use kars_hotel.Base.Result.{Result, ok, err}
use kars_hotel.Auth.Counters.{CounterStore}
use kars_hotel.Auth.Throttle.{max_per_email, assert_allowed, fail, success}
use kars_hotel.Auth.Accounts.{
  User, Tenant, login_locked, login_failed, AuditAction, Accounts, AuthTokens, AuthRefusal,
  too_many_attempts, wrong_credentials, Libraries, find_email, find_tenant, update_user,
}
use kars_hotel.Auth.Sessions.{log, is_super_admin, issue_tokens, own_args}

pub record LoginDto : Type 0 where
  pub email : Text
  pub password : Text

abbrev pub tenant_is_active : Option Tenant → Bool
tenant_is_active none = false
tenant_is_active (some t) = t.is_active

-- The entry in the journal of a known user's hotel.
abbrev failure_action : ℕ → AuditAction
failure_action failures =
    if leb max_per_email failures then login_locked failures else login_failed failures

abbrev log_failure : Option User → ℕ → Accounts → Accounts
log_failure none failures a = a
log_failure (some u) failures a = log u.tenant_id u.id (failure_action failures) a

module _ (r : CounterStore) (l : Libraries) where
  open r use {Store}

  -- `user && ok && user.isActive && user.tenant.isActive`
  abbrev pub may_enter : Text → Accounts → User → Bool
  may_enter password a u =
      l.bcrypt_compare password u.password_hash
      && (u.is_active && tenant_is_active (find_tenant u.tenant_id a.tenants))

  abbrev pub refuse_login :
      Option User
      → Text
      → Option Text
      → Store
      → Accounts
      → Result AuthRefusal AuthTokens × Store × Accounts
  refuse_login who email ip s a =
      let (failures, s1) = fail r l.to_lower email ip s in
      (err wrong_credentials, s1, log_failure who failures a)

  abbrev pub admit_login :
      User → Text → ℕ → Store → Accounts → Result AuthRefusal AuthTokens × Store × Accounts
  admit_login u email now s a =
      let (tokens, b) =
        issue_tokens l (own_args l u u.tenant_id (is_super_admin u.role.code) false) now (record a {
          users = update_user u.id (λ v. record v { last_login_at = some now }) a.users;
        }) in
      (ok tokens, success r l.to_lower email s, b)

  abbrev pub judge :
      Option User
      → LoginDto
      → Text
      → Option Text
      → ℕ
      → Store
      → Accounts
      → Result AuthRefusal AuthTokens × Store × Accounts
  judge none dto email ip now s a = refuse_login none email ip s a
  judge (some u) dto email ip now s a =
      if may_enter dto.password a u
      then admit_login u email now s a
      else refuse_login (some u) email ip s a

  abbrev pub after_limit :
      Result ℕ (Unit {0})
      → LoginDto
      → Text
      → Option Text
      → ℕ
      → Store
      → Accounts
      → Result AuthRefusal AuthTokens × Store × Accounts
  after_limit (err left) dto email ip now s a = (err (too_many_attempts left), s, a)
  after_limit (ok tt) dto email ip now s a = judge (find_email email a.users) dto email ip now s a

  -- `login`
  unfoldable pub login :
      LoginDto
      → Option Text
      → ℕ
      → Store
      → Accounts
      → Result AuthRefusal AuthTokens × Store × Accounts
  login dto ip now s a =
      let email = l.to_lower dto.email in
      after_limit (assert_allowed r l.to_lower email ip s) dto email ip now s a
