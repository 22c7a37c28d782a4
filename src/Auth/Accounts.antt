-- ===== src/Auth/Accounts.antt =====
-- The rows and the libraries that backend/src/modules/auth/auth.service.ts works with. What is signed
-- and hashed is a text that the libraries make; `next_id` is the next value of the database's and
-- the random generator. Addresses of callers are not kept.
use kars_hotel.Base.{ℕ, Bool, Option, List, ◌==◌, find, map, if◌then◌else◌}
use kars_hotel.Base.Text.{Text, text_eq}

pub data RoleCode : Type 0 where
  owner manager front_desk housekeeping accountant channel_manager read_only super_admin
        dispatcher :
      RoleCode

pub record Role : Type 0 where
  pub id : ℕ
  pub tenant_id : ℕ
  pub code : RoleCode
  pub permissions : List ℕ

pub record User : Type 0 where
  pub id : ℕ
  pub tenant_id : ℕ
  pub email : Text
  pub full_name : Text
  pub password_hash : Text
  pub role : Role
  pub is_active : Bool
  pub is_dispatcher : Bool
  pub last_login_at : Option ℕ

pub record Tenant : Type 0 where
  pub id : ℕ
  pub is_active : Bool
  pub is_platform : Bool

pub record RefreshToken : Type 0 where
  pub id : ℕ
  pub tenant_id : ℕ
  pub user_id : ℕ
  pub token_hash : Text
  pub impersonated_by : Option ℕ
  pub expires_at : ℕ
  pub revoked_at : Option ℕ

pub record SsoCode : Type 0 where
  pub code : Text
  pub dispatcher_user_id : ℕ
  pub tenant_id : Option ℕ
  pub expires_at : ℕ

pub data AuditAction : Type 0 where
  login_locked login_failed : ℕ → AuditAction
  impersonation_start impersonation_end dispatcher_deactivated : AuditAction

pub record AuditEntry : Type 0 where
  pub tenant_id : ℕ
  pub user_id : ℕ
  pub action : AuditAction

pub record Accounts : Type 0 where
  pub tenants : List Tenant
  pub roles : List Role
  pub users : List User
  pub refresh_tokens : List RefreshToken
  pub sso_codes : List SsoCode
  pub audit : List AuditEntry
  pub next_id : ℕ

-- `JwtRefreshPayload` and `JwtAccessPayload`
pub record RefreshPayload : Type 0 where
  pub sub : ℕ
  pub tid : ℕ
  pub jti : ℕ

pub record AccessPayload : Type 0 where
  pub sub : ℕ
  pub tid : ℕ
  pub role : RoleCode
  pub perms : List ℕ
  pub email : Text
  pub isa : Bool
  pub disp : Bool
  pub imp : Option ℕ

-- What the access token says, and the refresh token.
pub record AuthTokens : Type 0 where
  pub access : AccessPayload
  pub refresh_token : Text

pub data AuthRefusal : Type 0 where
  too_many_attempts : ℕ → AuthRefusal
  wrong_credentials invalid_token expired_or_revoked payload_mismatch other_session : AuthRefusal
  user_inactive tenant_inactive operator_inactive no_such_user : AuthRefusal
  foreign_account no_platform sso_invalid dispatcher_inactive : AuthRefusal

-- The libraries, the settings and the table of constants that the service uses.
pub record Libraries : Type 0 where
  pub to_lower : Text → Text
  pub trim : Text → Text
  pub bcrypt_compare : Text → Text → Bool
  pub bcrypt_hash : ℕ → Text
  pub sha256 : Text → Text
  pub jwt_sign : RefreshPayload → Text
  pub jwt_verify : Text → Option RefreshPayload
  pub random_code : ℕ → Text
  pub refresh_ttl_ms : ℕ
  pub owner_permissions : List ℕ

abbrev pub find_user : ℕ → List User → Option User
find_user id = find (λ u. u.id == id)

abbrev pub find_email : Text → List User → Option User
find_email email = find (λ u. text_eq u.email email)

abbrev pub find_tenant : ℕ → List Tenant → Option Tenant
find_tenant id = find (λ t. t.id == id)

abbrev pub find_token : Text → List RefreshToken → Option RefreshToken
find_token hash = find (λ t. text_eq t.token_hash hash)

abbrev pub update_user : ℕ → (User → User) → List User → List User
update_user id f = map (λ u. if u.id == id then f u else u)
