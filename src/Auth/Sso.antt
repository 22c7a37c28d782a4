-- ===== src/Auth/Sso.antt =====
-- The dispatcher's entry by a one-time code: provisionDispatcher, createSsoCode, exchangeSsoCode,
-- dispatcherRole and deactivateDispatcher of backend/src/modules/auth/auth.service.ts.
use kars_hotel.Base.{
  ℕ, suc, ◌+◌, Bool, true, false, not, Option, none, some, List, [], ◌∷◌, ◌++◌, map, ◌==◌, ◌&&◌,
  ◌||◌, ltb, find, select, if◌then◌else◌,
}
use kars_hotel.Base.Text.{Text, text_eq}
use kars_hotel.Base.Result.{Result, ok, err}
use kars_hotel.Auth.Accounts.{
  owner, manager, front_desk, housekeeping, accountant, channel_manager, read_only, super_admin,
  dispatcher, Role, User, Tenant, RefreshToken, SsoCode, impersonation_start,
  dispatcher_deactivated, Accounts, AuthTokens, AuthRefusal, foreign_account, no_platform,
  sso_invalid, dispatcher_inactive, Libraries, find_user, find_email, update_user,
}
use kars_hotel.Auth.Sessions.{
  Identity, log, issue_tokens, issued, issue_visit, own_args, resolve_impersonation,
}

abbrev pub sso_code_ttl_ms : ℕ
sso_code_ttl_ms = 60000

abbrev is_dispatcher_role : ℕ → Role → Bool
is_dispatcher_role tenant r = r.tenant_id == tenant && elim r.code [
  | owner ↦ false
  | manager ↦ false
  | front_desk ↦ false
  | housekeeping ↦ false
  | accountant ↦ false
  | channel_manager ↦ false
  | read_only ↦ false
  | super_admin ↦ false
  | dispatcher ↦ true
]

abbrev upsert_role : ℕ → Option Role → Accounts → Role × Accounts
upsert_role tenant (some r) a = (r, a)
upsert_role tenant none a =
    let r : Role = record {
      id = a.next_id;
      tenant_id = tenant;
      code = dispatcher;
      permissions = [];
    } in
    (r, record a { roles = a.roles ++ r ∷ []; next_id = suc a.next_id })

abbrev role_of_platform : Option Tenant → Accounts → Result AuthRefusal (Role × Accounts)
role_of_platform none a = err no_platform
role_of_platform (some t) a = ok (upsert_role t.id (find (is_dispatcher_role t.id) a.roles) a)

-- `dispatcherRole`
unfoldable pub dispatcher_role : Accounts → Result AuthRefusal (Role × Accounts)
dispatcher_role a = role_of_platform (find (λ (t : Tenant). t.is_platform) a.tenants) a

-- `dispatcher.fullName || email`
abbrev name_or : Text → Text → Text
name_or [] email = email
name_or (c ∷ cs) email = c ∷ cs

-- `entry.expiresAt < now`
abbrev pub is_stale : ℕ → SsoCode → Bool
is_stale now c = ltb c.expires_at now

abbrev pub drop_code : Text → List SsoCode → List SsoCode
drop_code code = select (λ c. not (text_eq c.code code))

abbrev pub revoke_user : ℕ → ℕ → RefreshToken → RefreshToken
revoke_user user now t =
    if t.user_id == user
    then elim t.revoked_at [ none ↦ record t { revoked_at = some now } | some at ↦ t ]
    else t

module _ (l : Libraries) where
  abbrev provision : Option User → Text → Text → Role → Accounts → Result AuthRefusal ℕ × Accounts
  provision (some u) email name role a = if not u.is_dispatcher then (err foreign_account, a) else (
    ok u.id,
    if not u.is_active || not (u.role.id == role.id)
        then record a {
          users = update_user u.id (λ v. record v { is_active = true; role = role }) a.users;
        }
        else a,
  )
  provision none email name role a = (
    ok a.next_id,
    record a {
      users =
          a.users
          ++ record {
            id = a.next_id;
            tenant_id = role.tenant_id;
            email = email;
            full_name = name_or name email;
            password_hash = l.bcrypt_hash a.next_id;
            role = role;
            is_active = true;
            is_dispatcher = true;
            last_login_at = none;
          }
            ∷ [];
      next_id = suc a.next_id;
    },
  )

  abbrev with_role :
      Result AuthRefusal (Role × Accounts)
      → Text
      → Text
      → Accounts
      → Result AuthRefusal ℕ × Accounts
  with_role (err why) email name a = (err why, a)
  with_role (ok (role, b)) email name a = provision (find_email email b.users) email name role b

  -- `provisionDispatcher`: the account's id.
  unfoldable pub provision_dispatcher : Text → Text → Accounts → Result AuthRefusal ℕ × Accounts
  provision_dispatcher email name a =
      with_role (dispatcher_role a) (l.to_lower (l.trim email)) name a

  abbrev keep_code :
      Result AuthRefusal ℕ × Accounts → Option ℕ → ℕ → Result AuthRefusal Text × Accounts
  keep_code (err why, a) tenant now = (err why, a)
  keep_code (ok user, a) tenant now =
      let code = l.random_code a.next_id in
      (
        ok code,
        record a {
          sso_codes =
              drop_code code a.sso_codes
              ++ record {
                code = code;
                dispatcher_user_id = user;
                tenant_id = tenant;
                expires_at = now + sso_code_ttl_ms;
              }
                ∷ [];
          next_id = suc a.next_id;
        },
      )

  -- `createSsoCode`
  unfoldable pub create_sso_code :
      Text → Text → Option ℕ → ℕ → Accounts → Result AuthRefusal Text × Accounts
  create_sso_code email name tenant now a =
      keep_code
        (provision_dispatcher email name
          (record a { sso_codes = select (λ c. not (is_stale now c)) a.sso_codes }))
        tenant now

  abbrev pub enter_hotel :
      Result AuthRefusal Identity → ℕ → ℕ → ℕ → Accounts → Result AuthRefusal AuthTokens × Accounts
  enter_hotel (err why) tenant by now a = (err why, a)
  enter_hotel (ok who) tenant by now a =
      issue_visit l (ok who) tenant by now (log tenant by impersonation_start a)

  abbrev pub enter_panel : Option User → ℕ → Accounts → Result AuthRefusal AuthTokens × Accounts
  enter_panel none now a = (err dispatcher_inactive, a)
  enter_panel (some u) now a =
      if not u.is_active
      then (err dispatcher_inactive, a)
      else issued l (issue_tokens l (own_args l u u.tenant_id false true) now a)

  abbrev pub enter_mode : Option ℕ → ℕ → ℕ → Accounts → Result AuthRefusal AuthTokens × Accounts
  enter_mode (some tenant) by now a =
      enter_hotel (resolve_impersonation l tenant by a) tenant by now a
  enter_mode none by now a = enter_panel (find_user by a.users) now a

  abbrev pub enter : Option SsoCode → ℕ → Accounts → Result AuthRefusal AuthTokens × Accounts
  enter none now a = (err sso_invalid, a)
  enter (some c) now a =
      if is_stale now c
      then (err sso_invalid, a)
      else enter_mode c.tenant_id c.dispatcher_user_id now a

  -- `exchangeSsoCode`: the code is gone whatever comes of it.
  unfoldable pub exchange_sso_code : Text → ℕ → Accounts → Result AuthRefusal AuthTokens × Accounts
  exchange_sso_code code now a =
      enter (find (λ c. text_eq c.code code) a.sso_codes) now
        (record a { sso_codes = drop_code code a.sso_codes })

  abbrev pub deactivate : Option User → ℕ → Accounts → Bool × Accounts
  deactivate none now a = (false, a)
  deactivate (some u) now a = if not u.is_dispatcher then (false, a) else (
    true,
    log u.tenant_id u.id dispatcher_deactivated (record a {
      users = update_user u.id (λ v. record v { is_active = false }) a.users;
      refresh_tokens = map (revoke_user u.id now) a.refresh_tokens;
    }),
  )

  -- `deactivateDispatcher`
  unfoldable pub deactivate_dispatcher : Text → ℕ → Accounts → Bool × Accounts
  deactivate_dispatcher email now a =
      deactivate (find_email (l.to_lower (l.trim email)) a.users) now a
