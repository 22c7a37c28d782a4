-- ===== src/Auth/Tests.antt =====
-- The theorems on logins and sessions at concrete accounts (backend/src/modules/auth).
use kars_hotel.Base.{
  ◌++◌, arith, find, ℕ, ◌≡◌, ◌↔◌, ◌⊎◌, refl, true, false, Option, none, some, List, [], ◌∷◌, In,
  contains,
}
use kars_hotel.Base.Text.{Text, codes, text_eq}
use kars_hotel.Base.Result.{Result, ok, err}
use kars_hotel.Auth.Counters.{Key}
use kars_hotel.Auth.Memory.{Counter, in_memory}
use kars_hotel.Auth.Throttle.{check_limits, assert_allowed, count_one, count_all, fail}
use kars_hotel.Auth.Limits.{
  failed, passed, history, fail_each, fail_from, assert_allowed_again, fail-locks,
}
use kars_hotel.Auth.Accounts.{
  Role, User, RefreshToken, SsoCode, Accounts, RefreshPayload, AuthTokens, AuthRefusal, Libraries,
  owner, dispatcher, expired_or_revoked, find_email, find_token,
}
use kars_hotel.Auth.Sessions.{issue_tokens, own_cookie, refresh}
use kars_hotel.Auth.Sso.{exchange_sso_code, deactivate_dispatcher}
use kars_hotel.Auth.Login.{LoginDto, login}
use kars_hotel.Auth.Permissions.{can_activate, can_activate_iff}
use kars_hotel.Auth.Rotation.{refresh_once}
use kars_hotel.Auth.Closing.{deactivate_dispatcher-shuts}
use kars_hotel.Auth.Entry.{Welcome, login_iff, refresh_succeeds}

abbrev Counters : Type 0
Counters = Key → Option Counter

abbrev no_counters : Counters
no_counters k = none

abbrev same_text : Text → Text
same_text t = t

abbrev ann : Text
ann = codes "ann"

abbrev home : Text
home = codes "home"

assert_allowed_again_example :
    assert_allowed in_memory same_text ann (some home) (
      in_memory.wait 900 (
        history in_memory same_text
          (failed ann none ∷ passed 60 ∷ failed ann (some home) ∷ [])
          no_counters))
    ≡ ok tt
assert_allowed_again_example =
    assert_allowed_again in_memory same_text
      (failed ann none ∷ passed 60 ∷ failed ann (some home) ∷ []) no_counters ann (some home)
      (λ k. refl)

abbrev five_anns : List Text
five_anns = ann ∷ ann ∷ ann ∷ ann ∷ ann ∷ []

abbrev twenty_anns : List Text
twenty_anns = five_anns ++ (five_anns ++ (five_anns ++ five_anns))

fail-locks_example :
    ((left : ℕ) × (assert_allowed in_memory same_text ann
          (some home)
          (fail_each in_memory same_text ann (none ∷ none ∷ none ∷ none ∷ none ∷ []) no_counters)
        ≡ err left))
    × ((left : ℕ) × (assert_allowed in_memory same_text home
            (some (b'a' ∷ []))
            (fail_from in_memory same_text (b'a' ∷ []) twenty_anns no_counters)
          ≡ err left))
fail-locks_example =
    fail-locks in_memory same_text ann (none ∷ none ∷ none ∷ none ∷ none ∷ []) (some home) b'a' []
      twenty_anns home no_counters (omega arith) (omega arith)

-- Four failures do not lock, and the fifth does, for fifteen minutes.
four_test :
    assert_allowed in_memory same_text ann none
      (fail_each in_memory same_text ann (none ∷ none ∷ none ∷ none ∷ []) no_counters)
    ≡ ok tt
unfolding assert_allowed check_limits fail_each fail count_one count_all
four_test = refl

five_test :
    assert_allowed in_memory same_text ann none
      (fail_each in_memory same_text ann (none ∷ none ∷ none ∷ none ∷ none ∷ []) no_counters)
    ≡ err 15
unfolding assert_allowed check_limits fail_each fail count_one count_all
five_test = refl

can_activate_iff_example :
    ((can_activate false
          (3 ∷ 4 ∷ [])
          (some (record { permissions = 3 ∷ []; is_super_admin = false }))
        ≡ ok tt)
      ↔ ((false ≡ true)
          ⊎ ((false ≡ true) ⊎ ((p : ℕ) → In p (3 ∷ 4 ∷ []) → contains p (3 ∷ []) ≡ true))))
    × ((missing : List ℕ)
        → can_activate false
            (3 ∷ 4 ∷ [])
            (some (record { permissions = 3 ∷ []; is_super_admin = false }))
          ≡ err missing
        → (p : ℕ) → In p missing ↔ (In p (3 ∷ 4 ∷ []) × (contains p (3 ∷ []) ≡ false)))
can_activate_iff_example =
    can_activate_iff false (3 ∷ 4 ∷ [])
      (some (record { permissions = 3 ∷ []; is_super_admin = false }))

missing_test :
    can_activate false (3 ∷ 4 ∷ []) (some (record { permissions = 3 ∷ []; is_super_admin = false }))
    ≡ err (4 ∷ [])
unfolding can_activate
missing_test = refl

-- Libraries that sign by writing the payload out.
abbrev read_payload : Text → Option RefreshPayload
read_payload [] = none
read_payload (a ∷ []) = none
read_payload (a ∷ b ∷ []) = none
read_payload (a ∷ b ∷ c ∷ rest) = some (record { sub = a; tid = b; jti = c })

abbrev libraries : Libraries
libraries = record {
  to_lower = same_text;
  trim = same_text;
  bcrypt_compare = text_eq;
  bcrypt_hash = λ n. n ∷ [];
  sha256 = same_text;
  jwt_sign = λ p. p.sub ∷ p.tid ∷ p.jti ∷ [];
  jwt_verify = read_payload;
  random_code = λ n. n ∷ [];
  refresh_ttl_ms = 1000;
  owner_permissions = 1 ∷ [];
}

abbrev owner_role : Role
owner_role = record { id = 1; tenant_id = 7; code = owner; permissions = 1 ∷ 2 ∷ [] }

abbrev ann_user : User
ann_user = record {
  id = 11;
  tenant_id = 7;
  email = ann;
  full_name = ann;
  password_hash = codes "pw";
  role = owner_role;
  is_active = true;
  is_dispatcher = false;
  last_login_at = none;
}

abbrev dispatcher_user : User
dispatcher_user = record ann_user {
  id = 12;
  email = codes "disp";
  is_dispatcher = true;
  role = record { id = 2; tenant_id = 1; code = dispatcher; permissions = [] };
}

abbrev token_row : ℕ → ℕ → Option ℕ → RefreshToken
token_row id user by = record {
  id = id;
  tenant_id = 7;
  user_id = user;
  token_hash = user ∷ 7 ∷ id ∷ [];
  impersonated_by = by;
  expires_at = 500;
  revoked_at = none;
}

abbrev accounts : Accounts
accounts = record {
  tenants = record { id = 7; is_active = true; is_platform = false } ∷ [];
  roles = owner_role ∷ [];
  users = ann_user ∷ dispatcher_user ∷ [];
  refresh_tokens = token_row 21 11 none ∷ token_row 22 12 (some 12) ∷ [];
  sso_codes =
      record { code = 5 ∷ []; dispatcher_user_id = 12; tenant_id = some 7; expires_at = 500 } ∷ [];
  audit = [];
  next_id = 30;
}

abbrev ann_token : Text
ann_token = 11 ∷ 7 ∷ 21 ∷ []

abbrev prolonged : Result AuthRefusal AuthTokens × Accounts
prolonged = refresh libraries ann_token 100 none accounts

abbrev new_tokens : Result AuthRefusal AuthTokens → AuthTokens
new_tokens (ok tokens) = tokens
new_tokens (err why) = record {
  access = record {
    sub = 0;
    tid = 0;
    role = owner;
    perms = [];
    email = [];
    isa = false;
    disp = false;
    imp = none;
  };
  refresh_token = [];
}

prolongs :
    refresh libraries ann_token 100 none accounts ≡ (ok (new_tokens prolonged.0), prolonged.1)
unfolding refresh issue_tokens own_cookie
prolongs = refl

refresh_once_example :
    refresh libraries ann_token 101 (some 7) prolonged.1 ≡ (err expired_or_revoked, prolonged.1)
refresh_once_example =
    refresh_once libraries ann_token 100 101 none (some 7) accounts prolonged.1
      (new_tokens prolonged.0) prolongs

deactivate_dispatcher-shuts_example :
    ((hotel : Option ℕ) (token : Text) (t : RefreshToken)
      → find_token (same_text token) accounts.refresh_tokens ≡ some t
      → t.user_id ≡ 12
      → (why : AuthRefusal) × ((refresh libraries token 101 hotel
            (deactivate_dispatcher libraries (codes "disp") 100 accounts).1).0
          ≡ err why))
    × ((code : Text) (c : SsoCode)
        → find (λ (x : SsoCode). text_eq x.code code) accounts.sso_codes ≡ some c
        → c.dispatcher_user_id ≡ 12
        → (why : AuthRefusal) × ((exchange_sso_code libraries code 101
              (deactivate_dispatcher libraries (codes "disp") 100 accounts).1).0
            ≡ err why))
deactivate_dispatcher-shuts_example =
    deactivate_dispatcher-shuts libraries (codes "disp") 100 101 accounts dispatcher_user refl refl

abbrev right : LoginDto
right = record { email = ann; password = codes "pw" }

abbrev wrong : LoginDto
wrong = record { email = ann; password = codes "no" }

login_iff_example :
    ((tokens : AuthTokens) × ((login in_memory libraries right none 100 no_counters accounts).0
        ≡ ok tokens))
    ↔ ((assert_allowed in_memory same_text ann none no_counters ≡ ok tt)
        × ((u : User) × (find_email ann accounts.users ≡ some u)
            × Welcome in_memory libraries right accounts u))
login_iff_example = login_iff in_memory libraries right none 100 no_counters accounts

-- The hotel is closed, and the session goes on.
refresh_succeeds_example :
    (tokens : AuthTokens) × ((refresh libraries ann_token 100 none (record accounts {
      tenants = record { id = 7; is_active = false; is_platform = false } ∷ [];
    })).0
      ≡ ok tokens)
refresh_succeeds_example =
    refresh_succeeds libraries ann_token 100
      (record accounts { tenants = record { id = 7; is_active = false; is_platform = false } ∷ [] })
      (record { sub = 11; tid = 7; jti = 21 }) (token_row 21 11 none) ann_user refl refl refl refl
      refl refl refl refl
