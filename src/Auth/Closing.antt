-- ===== src/Auth/Closing.antt =====
-- Sessions that are ended: `deactivateDispatcher` of
-- backend/src/modules/auth/auth.service.ts.
use kars_hotel.Base.{
  find-map, find-map-none, ℕ, ◌≡◌, refl, sym, ap, ◌∙◌, subst, ◌⊎◌, inl, inr, Bool, true, false,
  Option, none, some, List, map, ◌==◌, ==_iff, arith, find, find-some, Bool-cases, Option-cases,
  if◌then◌else◌, ◌&&◌,
}
use kars_hotel.Base.Text.{Text, text_eq}
use kars_hotel.Base.Result.{Result, err}
use kars_hotel.Auth.Accounts.{
  Role, User, RefreshToken, SsoCode, Accounts, AuthTokens, AuthRefusal, dispatcher_deactivated,
  operator_inactive, tenant_inactive, dispatcher_inactive, sso_invalid, Libraries, find_user,
  find_email, find_token, find_tenant,
}
use kars_hotel.Auth.Sessions.{log, is_dead, resolve_impersonation, refresh, identity_of, is_owner}
use kars_hotel.Auth.Sso.{
  drop_code, is_stale, enter, enter_mode, exchange_sso_code, deactivate, deactivate_dispatcher,
  revoke_user,
}
use kars_hotel.Auth.Rotation.{if_not-true}
use kars_hotel.Auth.Leaving.{dead-refused}

-- A disabled account gets no visit and no panel.
module _ (id : ℕ) (users : List User) where
  disable : User → User
  disable u = if u.id == id then record u { is_active = false } else u

  disable-id : (u : User) → ((disable u).id == id) ≡ (u.id == id)
  unfolding disable
  disable-id u = elim (Bool-cases (u.id == id)) [ inl y ↦ rw y y | inr n ↦ rw n n ]

  find-disabled :
      (find_user id (map disable users) ≡ none)
      ⊎ ((u : User) × (find_user id (map disable users) ≡ some u) × (u.is_active ≡ false))
  unfolding disable
  find-disabled = elim (Option-cases (find_user id users)) [
    | inl gone ↦ inl (find-map-none (λ u. u.id == id) disable disable-id users gone)
    | inr (u, f) ↦ inr (
      disable u,
      find-map (λ u. u.id == id) disable disable-id users u f,
      rw (find-some (λ (u : User). u.id == id) users u f) refl,
    )
  ]

module _ (l : Libraries) (a : Accounts) (user now : ℕ)
    (off : (find_user user a.users ≡ none)
      ⊎ ((u : User) × (find_user user a.users ≡ some u) × (u.is_active ≡ false))) where
  no_identity :
      (role : Option Role) → identity_of l role (find_user user a.users) ≡ err operator_inactive
  no_identity role = elim off [ inl gone ↦ rw gone refl | inr (u, f, idle) ↦ rw (f, idle) refl ]

  no_visit : (tenant : ℕ) → (why : AuthRefusal) × (resolve_impersonation l tenant user a ≡ err why)
  unfolding resolve_impersonation
  no_visit tenant = elim (Option-cases (find_tenant tenant a.tenants)) [
    | inl gone ↦ (tenant_inactive, rw gone refl)
    | inr (t, f) ↦ elim (Bool-cases t.is_active) [
      | inl y ↦ (
        operator_inactive,
        rw f (
            rw y (
              no_identity (find (λ (r : Role). r.tenant_id == tenant && is_owner r.code) a.roles))),
      )
      | inr n ↦ (tenant_inactive, rw f (rw n refl))
    ]
  ]

  no_mode : (m : Option ℕ) → (why : AuthRefusal) × ((enter_mode l m user now a).0 ≡ err why)
  no_mode none = (
    dispatcher_inactive,
    elim off [ inl gone ↦ rw gone refl | inr (u, f, idle) ↦ rw (f, idle) refl ],
  )
  no_mode (some tenant) = let (why, e) = no_visit tenant in (why, rw e refl)

  no_entry :
      (c : Option SsoCode)
      → ((x : SsoCode) → c ≡ some x → x.dispatcher_user_id ≡ user)
      → (why : AuthRefusal) × ((enter l c now a).0 ≡ err why)
  no_entry none h = (sso_invalid, refl)
  no_entry (some c) h = elim (Bool-cases (is_stale now c)) [
    | inl stale ↦ (sso_invalid, rw stale refl)
    | inr fresh ↦
        let (why, e) = no_mode c.tenant_id in
        (why, rw fresh (ap (λ u. (enter_mode l c.tenant_id u now a).0) (h c refl) ∙ e))
  ]

some-injective : {A : Type 0} (x y : A) → some x ≡ some y → x ≡ y
some-injective x y e = ap (λ o. elim o [ none ↦ x | some z ↦ z ]) e

revoke_user-hash :
    (hash : Text) (id now : ℕ) (t : RefreshToken)
    → text_eq (revoke_user id now t).token_hash hash ≡ text_eq t.token_hash hash
revoke_user-hash hash id now t = elim (Bool-cases (t.user_id == id)) [
  | inr n ↦ rw n refl
  | inl y ↦ elim (Option-cases t.revoked_at) [
    | inl live ↦ rw (y, live) refl
    | inr (at, dead) ↦ rw (y, dead) refl
  ]
]

revoke_user-dead :
    (id now later : ℕ) (t : RefreshToken)
    → t.user_id ≡ id
    → is_dead later (revoke_user id now t) ≡ true
revoke_user-dead id now later t e = elim (Option-cases t.revoked_at) [
  | inl live ↦ ground (arith, (==_iff t.user_id id).1 e, live)
  | inr (at, dead) ↦ ground (arith, (==_iff t.user_id id).1 e, dead)
]

-- The accounts that the disabling of `u` leaves.
abbrev left_by : User → ℕ → Accounts → Accounts
left_by u now a = log u.tenant_id u.id dispatcher_deactivated (record a {
  users = map (disable u.id a.users) a.users;
  refresh_tokens = map (revoke_user u.id now) a.refresh_tokens;
})

module _ (l : Libraries) (email : Text) (now later : ℕ) (a : Accounts) (u : User)
    (found : find_email (l.to_lower (l.trim email)) a.users ≡ some u)
    (is_disp : u.is_dispatcher ≡ true) where
  left : (deactivate_dispatcher l email now a).1 ≡ left_by u now a
  unfolding deactivate_dispatcher disable
  left =
      ap (λ o. (deactivate l o now a).1) found
      ∙ ap (λ (x : Bool × Accounts). x.1)
          (if_not-true u.is_dispatcher (false, a) (true, left_by u now a) is_disp)

  token_refused :
      (hotel : Option ℕ) (token : Text) (t : RefreshToken)
      → find_token (l.sha256 token) a.refresh_tokens ≡ some t
      → t.user_id ≡ u.id
      → (why : AuthRefusal) × ((refresh l token later hotel
            (deactivate_dispatcher l email now a).1).0
          ≡ err why)
  token_refused hotel token t given his =
      let (why, e) =
        dead-refused l token later hotel (left_by u now a) (some (revoke_user u.id now t))
          (find-map _ (revoke_user u.id now) (revoke_user-hash (l.sha256 token) u.id now)
            a.refresh_tokens t given)
          (λ x q.
            subst (λ y. is_dead later y ≡ true) (some-injective _ x q)
              (revoke_user-dead u.id now later t his)) in
      (
        why,
        ap (λ b. (refresh l token later hotel b).0) left
            ∙ ap (λ (x : Result AuthRefusal AuthTokens × Accounts). x.0) e,
      )

  code_refused :
      (code : Text) (c : SsoCode)
      → find (λ (x : SsoCode). text_eq x.code code) a.sso_codes ≡ some c
      → c.dispatcher_user_id ≡ u.id
      → (why : AuthRefusal) × ((exchange_sso_code l code later
            (deactivate_dispatcher l email now a).1).0
          ≡ err why)
  unfolding exchange_sso_code
  code_refused code c made for_him =
      let b = record (left_by u now a) { sso_codes = drop_code code a.sso_codes } in
      let (why, e) = no_entry l b u.id later (find-disabled u.id a.users) (some c) (λ x q.
        ap (λ (y : SsoCode). y.dispatcher_user_id) (sym (some-injective c x q)) ∙ for_him) in
      (
        why,
        ap (λ b. (exchange_sso_code l code later b).0) left
            ∙ ap (λ o. (enter l o later b).0) made
            ∙ e,
      )

  -- In the accounts that the disabling of a dispatcher leaves, every token that he had prolongs
  -- nothing, and every code that was made for him lets nobody in, at whatever time they are sent.
  pub deactivate_dispatcher-shuts :
      ((hotel : Option ℕ) (token : Text) (t : RefreshToken)
        → find_token (l.sha256 token) a.refresh_tokens ≡ some t
        → t.user_id ≡ u.id
        → (why : AuthRefusal) × ((refresh l token later hotel
              (deactivate_dispatcher l email now a).1).0
            ≡ err why))
      × ((code : Text) (c : SsoCode)
          → find (λ (x : SsoCode). text_eq x.code code) a.sso_codes ≡ some c
          → c.dispatcher_user_id ≡ u.id
          → (why : AuthRefusal) × ((exchange_sso_code l code later
                (deactivate_dispatcher l email now a).1).0
              ≡ err why))
  deactivate_dispatcher-shuts = (token_refused, code_refused)
