-- ===== src/Auth/Sessions.antt =====
-- Sessions: issueTokens, refresh, logout, resolveImpersonation, exitImpersonation and
-- issueImpersonationToken of backend/src/modules/auth/auth.service.ts.
use kars_hotel.Base.{
  ℕ, suc, ◌+◌, Bool, true, false, not, Option, none, some, List, [], ◌∷◌, ◌++◌, map, ◌==◌, ◌&&◌,
  ltb, find, if◌then◌else◌,
}
use kars_hotel.Base.Text.{Text, text_eq}
use kars_hotel.Base.Result.{Result, ok, err}
use kars_hotel.Auth.Accounts.{
  RoleCode, owner, super_admin, Role, User, Tenant, RefreshToken, impersonation_start,
  impersonation_end, AuditAction, Accounts, RefreshPayload, AccessPayload, AuthTokens, AuthRefusal,
  invalid_token, expired_or_revoked, payload_mismatch, other_session, user_inactive,
  tenant_inactive, operator_inactive, no_such_user, Libraries, find_user, find_tenant, find_token,
}

-- The arguments of `issueTokens`.
pub record TokenArgs : Type 0 where
  pub user_id : ℕ
  pub tenant_id : ℕ
  pub email : Text
  pub role_code : RoleCode
  pub permissions : List ℕ
  pub is_super_admin : Bool
  pub is_dispatcher : Bool
  pub impersonated_by : Option ℕ

-- `resolveImpersonation` answers who works inside the hotel.
pub record Identity : Type 0 where
  pub user_id : ℕ
  pub email : Text
  pub role_code : RoleCode
  pub permissions : List ℕ

abbrev pub is_super_admin : RoleCode → Bool
is_super_admin super_admin = true
is_super_admin _ = false

abbrev pub is_owner : RoleCode → Bool
is_owner owner = true
is_owner _ = false

abbrev pub log : ℕ → ℕ → AuditAction → Accounts → Accounts
log tenant user action a = record a {
  audit = a.audit ++ record { tenant_id = tenant; user_id = user; action = action } ∷ [];
}

abbrev pub permissions_or : List ℕ → Option Role → List ℕ
permissions_or default none = default
permissions_or default (some r) = r.permissions

-- `new Date()` on a row.
abbrev pub revoke : ℕ → ℕ → List RefreshToken → List RefreshToken
revoke id now = map (λ t. if t.id == id then record t { revoked_at = some now } else t)

abbrev pub revoke_hash : Text → ℕ → List RefreshToken → List RefreshToken
revoke_hash hash now =
    map (λ t. if text_eq t.token_hash hash then record t { revoked_at = some now } else t)

abbrev pub is_dead : ℕ → RefreshToken → Bool
is_dead now t = elim t.revoked_at [ none ↦ ltb t.expires_at now | some at ↦ true ]

-- `ownCookie`: a hotel's cookie prolongs a visit to this hotel, the common one an own session.
unfoldable pub own_cookie : Option ℕ → RefreshToken → Bool
own_cookie none t = elim t.impersonated_by [ none ↦ true | some by ↦ false ]
own_cookie (some hotel) t = elim t.impersonated_by [ none ↦ false | some by ↦ t.tenant_id == hotel ]

module _ (l : Libraries) where
  unfoldable pub issue_tokens : TokenArgs → ℕ → Accounts → AuthTokens × Accounts
  issue_tokens args now a =
      let token =
        l.jwt_sign (record { sub = args.user_id; tid = args.tenant_id; jti = a.next_id }) in
      (
        record {
          access = record {
            sub = args.user_id;
            tid = args.tenant_id;
            role = args.role_code;
            perms = args.permissions;
            email = args.email;
            isa = args.is_super_admin;
            disp = args.is_dispatcher;
            imp = args.impersonated_by;
          };
          refresh_token = token;
        },
        record a {
          refresh_tokens =
              a.refresh_tokens
              ++ record {
                id = a.next_id;
                tenant_id = args.tenant_id;
                user_id = args.user_id;
                token_hash = l.sha256 token;
                impersonated_by = args.impersonated_by;
                expires_at = now + l.refresh_ttl_ms;
                revoked_at = none;
              }
                ∷ [];
          next_id = suc a.next_id;
        },
      )

  abbrev pub identity_of : Option Role → Option User → Result AuthRefusal Identity
  identity_of role none = err operator_inactive
  identity_of role (some u) =
      if not u.is_active
      then err operator_inactive
      else ok (record {
        user_id = u.id;
        email = u.email;
        role_code = owner;
        permissions = permissions_or l.owner_permissions role;
      })

  abbrev pub in_tenant : Option Tenant → Result AuthRefusal Identity → Result AuthRefusal Identity
  in_tenant none who = err tenant_inactive
  in_tenant (some t) who = if not t.is_active then err tenant_inactive else who

  unfoldable pub resolve_impersonation : ℕ → ℕ → Accounts → Result AuthRefusal Identity
  resolve_impersonation tenant admin a = in_tenant (find_tenant tenant a.tenants) (
      identity_of (find (λ (r : Role). r.tenant_id == tenant && is_owner r.code) a.roles)
        (find_user admin a.users))

  abbrev pub issued : AuthTokens × Accounts → Result AuthRefusal AuthTokens × Accounts
  issued (tokens, a) = (ok tokens, a)

  -- The tokens of a visit to a hotel `on behalf of`.
  abbrev pub issue_visit :
      Result AuthRefusal Identity → ℕ → ℕ → ℕ → Accounts → Result AuthRefusal AuthTokens × Accounts
  issue_visit (err why) tenant by now a = (err why, a)
  issue_visit (ok who) tenant by now a = issued (
      issue_tokens
        (record {
          user_id = who.user_id;
          tenant_id = tenant;
          email = who.email;
          role_code = who.role_code;
          permissions = who.permissions;
          is_super_admin = false;
          is_dispatcher = false;
          impersonated_by = some by;
        })
        now a)

  -- The tokens of a user's own session.
  abbrev pub own_args : User → ℕ → Bool → Bool → TokenArgs
  own_args u tenant super disp = record {
    user_id = u.id;
    tenant_id = tenant;
    email = u.email;
    role_code = u.role.code;
    permissions = u.role.permissions;
    is_super_admin = super;
    is_dispatcher = disp;
    impersonated_by = none;
  }

  abbrev pub prolong :
      Option ℕ → RefreshToken → User → ℕ → Accounts → Result AuthRefusal AuthTokens × Accounts
  prolong (some by) t u now a =
      issue_visit (resolve_impersonation t.tenant_id by a) t.tenant_id by now a
  prolong none t u now a =
      issued
        (issue_tokens (own_args u t.tenant_id (is_super_admin u.role.code) u.is_dispatcher) now a)

  abbrev pub for_user :
      Option User → RefreshToken → ℕ → Accounts → Result AuthRefusal AuthTokens × Accounts
  for_user none t now a = (err no_such_user, a)
  for_user (some u) t now a =
      if not u.is_active
      then (err user_inactive, a)
      else prolong t.impersonated_by t u now
          (record a { refresh_tokens = revoke t.id now a.refresh_tokens })

  abbrev pub for_row :
      RefreshPayload
      → Option RefreshToken
      → ℕ
      → Option ℕ
      → Accounts
      → Result AuthRefusal AuthTokens × Accounts
  for_row p none now hotel a = (err expired_or_revoked, a)
  for_row p (some t) now hotel a =
      if is_dead now t
      then (err expired_or_revoked, a)
      else if not (t.user_id == p.sub && t.tenant_id == p.tid)
      then (err payload_mismatch, a)
      else if not (own_cookie hotel t)
      then (err other_session, a)
      else for_user (find_user t.user_id a.users) t now a

  abbrev pub for_payload :
      Option RefreshPayload
      → Text
      → ℕ
      → Option ℕ
      → Accounts
      → Result AuthRefusal AuthTokens × Accounts
  for_payload none token now hotel a = (err invalid_token, a)
  for_payload (some p) token now hotel a =
      for_row p (find_token (l.sha256 token) a.refresh_tokens) now hotel a

  -- `refresh`, as one step: the source reads, revokes and issues outside one transaction. A refusal of
  -- the visit comes after the old token was revoked.
  unfoldable pub refresh : Text → ℕ → Option ℕ → Accounts → Result AuthRefusal AuthTokens × Accounts
  refresh token now hotel a = for_payload (l.jwt_verify token) token now hotel a

  -- `logout`; a token that is not known changes nothing.
  unfoldable pub logout : Text → ℕ → Accounts → Accounts
  logout [] now a = a
  logout (c ∷ cs) now a = record a {
    refresh_tokens = revoke_hash (l.sha256 (c ∷ cs)) now a.refresh_tokens;
  }

  abbrev pub back_to : Option User → ℕ → Accounts → Result AuthRefusal AuthTokens × Accounts
  back_to none now a = (err user_inactive, a)
  back_to (some u) now a =
      if not u.is_active
      then (err user_inactive, a)
      else issued
          (issue_tokens (own_args u u.tenant_id (is_super_admin u.role.code) u.is_dispatcher) now a)

  -- `exitImpersonation`
  unfoldable pub exit_impersonation :
      ℕ → Option ℕ → ℕ → Accounts → Result AuthRefusal AuthTokens × Accounts
  exit_impersonation operator none now a = back_to (find_user operator a.users) now a
  exit_impersonation operator (some tenant) now a =
      back_to (find_user operator a.users) now (log tenant operator impersonation_end a)

  abbrev visit_token :
      Result AuthRefusal Identity → ℕ → ℕ → Accounts → Result AuthRefusal AccessPayload × Accounts
  visit_token (err why) tenant admin a = (err why, a)
  visit_token (ok who) tenant admin a = (
    ok (record {
      sub = who.user_id;
      tid = tenant;
      role = who.role_code;
      perms = who.permissions;
      email = who.email;
      isa = false;
      disp = false;
      imp = some admin;
    }),
    log tenant admin impersonation_start a,
  )

  -- `issueImpersonationToken`: what the access token says.
  unfoldable pub issue_impersonation_token :
      ℕ → ℕ → Accounts → Result AuthRefusal AccessPayload × Accounts
  issue_impersonation_token tenant admin a =
      visit_token (resolve_impersonation tenant admin a) tenant admin a
