-- ===== src/Auth/Rotation.antt =====
-- A session is prolonged once for each token, and stays what it is
-- (backend/src/modules/auth/auth.service.ts, `refresh` and `logout`).
use kars_hotel.Base.{
  find-map-some, ℕ, ◌+◌, ◌≤◌, ◌≡◌, refl, sym, ap, ◌∙◌, subst, inl, inr, Bool, true, false, not,
  Option, none, some, [], ◌∷◌, ◌++◌, ◌==◌, ==_iff, arith, Bool-cases, if◌then◌else◌, ◌&&◌,
}
use kars_hotel.Base.Text.{Text, text_eq}
use kars_hotel.Base.Result.{Result, ok, err, ok-injective}
use kars_hotel.Auth.Accounts.{
  User, RefreshToken, Accounts, RefreshPayload, AuthTokens, AuthRefusal, expired_or_revoked,
  Libraries, find_user, find_token,
}
use kars_hotel.Auth.Sessions.{
  TokenArgs, Identity, revoke, is_dead, own_cookie, issue_tokens, resolve_impersonation,
  issue_visit, prolong, for_user, for_row, for_payload, refresh, issued,
}

revoke-hash :
    (hash : Text) (id now : ℕ) (t : RefreshToken)
    → text_eq (if t.id == id then record t { revoked_at = some now } else t).token_hash hash
      ≡ text_eq t.token_hash hash
revoke-hash hash id now t = elim (Bool-cases (t.id == id)) [ inl y ↦ rw y refl | inr n ↦ rw n refl ]

pub if_not-true {ℓ} : {A : Type ℓ} (b : Bool) (x y : A) → b ≡ true → (if not b then x else y) ≡ y
if_not-true b x y h = rw h refl

module _ (l : Libraries) (token : Text) (now : ℕ) (hotel : Option ℕ) (a : Accounts) where
  -- What a success did: the row `t` of the token lived and was the cookie's own; it is revoked, and a
  -- row of the same hotel, for the same visitor, is added.
  pub record Prolonged (tokens : AuthTokens) (a' : Accounts) : Type 0 where
    pub t : RefreshToken
    pub added : RefreshToken
    pub found : find_token (l.sha256 token) a.refresh_tokens ≡ some t
    pub live : is_dead now t ≡ false
    pub own : own_cookie hotel t ≡ true
    pub rows : a'.refresh_tokens ≡ revoke t.id now a.refresh_tokens ++ added ∷ []
    pub hash : added.token_hash ≡ l.sha256 tokens.refresh_token
    pub tenant : (added.tenant_id ≡ t.tenant_id) × (tokens.access.tid ≡ t.tenant_id)
    pub visitor :
        (added.impersonated_by ≡ t.impersonated_by) × (tokens.access.imp ≡ t.impersonated_by)

  abbrev Answer : Type 0
  Answer = Result AuthRefusal AuthTokens × Accounts

  no_ok :
      (why : AuthRefusal) (b : Accounts) (tokens : AuthTokens) (a' : Accounts)
      → ◌≡◌ {A = Answer} (err why, b) (ok tokens, a')
      → ⊥
  no_ok why b tokens a' h = clash (ap (λ (x : Answer). x.0) h)
    where
      clash : ◌≡◌ {A = Result AuthRefusal AuthTokens} (err why) (ok tokens) → ⊥
      clash q = cc

  module _ (tokens : AuthTokens) (a' : Accounts) where
    issued-Prolonged :
        (t : RefreshToken) (args : TokenArgs)
        → find_token (l.sha256 token) a.refresh_tokens ≡ some t
        → is_dead now t ≡ false
        → own_cookie hotel t ≡ true
        → args.tenant_id ≡ t.tenant_id
        → args.impersonated_by ≡ t.impersonated_by
        → issued l (
            issue_tokens l args now
              (record a { refresh_tokens = revoke t.id now a.refresh_tokens }))
          ≡ (ok tokens, a')
        → Prolonged tokens a'
    unfolding issue_tokens
    issued-Prolonged t args f d o tn by h =
        let b = record a { refresh_tokens = revoke t.id now a.refresh_tokens } in
        let made = issue_tokens l args now b in
        let given : made.0 ≡ tokens = ok-injective _ _ (ap (λ (x : Answer). x.0) h) in
        let left : made.1 ≡ a' = ap (λ (x : Answer). x.1) h in
        record {
          t = t;
          added = record {
            id = a.next_id;
            tenant_id = args.tenant_id;
            user_id = args.user_id;
            token_hash = l.sha256 made.0.refresh_token;
            impersonated_by = args.impersonated_by;
            expires_at = now + l.refresh_ttl_ms;
            revoked_at = none;
          };
          found = f;
          live = d;
          own = o;
          rows = ap (λ (x : Accounts). x.refresh_tokens) (sym left);
          hash = ap (λ (x : AuthTokens). l.sha256 x.refresh_token) given;
          tenant = (tn, ap (λ (x : AuthTokens). x.access.tid) (sym given) ∙ tn);
          visitor = (by, ap (λ (x : AuthTokens). x.access.imp) (sym given) ∙ by);
        }

    module _ (t : RefreshToken) (f : find_token (l.sha256 token) a.refresh_tokens ≡ some t)
        (d : is_dead now t ≡ false) (o : own_cookie hotel t ≡ true) where
      abbrev b : Accounts
      b = record a { refresh_tokens = revoke t.id now a.refresh_tokens }

      visit-Prolonged :
          (by : ℕ) (who : Result AuthRefusal Identity)
          → t.impersonated_by ≡ some by
          → issue_visit l who t.tenant_id by now b ≡ (ok tokens, a')
          → Prolonged tokens a'
      visit-Prolonged by (err why) e h = absurd (no_ok why _ tokens a' h)
      visit-Prolonged by (ok who) e h = issued-Prolonged t _ f d o refl (sym e) h

      prolong-Prolonged :
          (by : Option ℕ) (u : User)
          → t.impersonated_by ≡ by
          → prolong l by t u now b ≡ (ok tokens, a')
          → Prolonged tokens a'
      prolong-Prolonged none u e h = issued-Prolonged t _ f d o refl (sym e) h
      prolong-Prolonged (some by) u e h =
          visit-Prolonged by (resolve_impersonation l t.tenant_id by b) e h

      for_user-Prolonged :
          (u : Option User) → for_user l u t now a ≡ (ok tokens, a') → Prolonged tokens a'
      for_user-Prolonged none h = absurd (no_ok _ _ tokens a' h)
      for_user-Prolonged (some u) h = elim (Bool-cases u.is_active) [
        | inl y ↦
            prolong-Prolonged t.impersonated_by u refl (sym (if_not-true u.is_active _ _ y) ∙ h)
        | inr n ↦ absurd (no_ok _ _ tokens a' (rw n at h))
      ]

    for_row-Prolonged :
        (p : RefreshPayload) (o : Option RefreshToken)
        → find_token (l.sha256 token) a.refresh_tokens ≡ o
        → for_row l p o now hotel a ≡ (ok tokens, a')
        → Prolonged tokens a'
    for_row-Prolonged p none f h = absurd (no_ok _ _ tokens a' h)
    for_row-Prolonged p (some t) f h = elim (Bool-cases (is_dead now t)) [
      | inl dead ↦ absurd (no_ok _ _ tokens a' (rw dead at h))
      | inr live ↦ elim (Bool-cases (t.user_id == p.sub && t.tenant_id == p.tid)) [
        | inr other ↦ absurd (no_ok _ _ tokens a' (rw (live, other) at h))
        | inl mine ↦ elim (Bool-cases (own_cookie hotel t)) [
          | inr foreign ↦ absurd (no_ok _ _ tokens a' (rw (live, mine, foreign) at h))
          | inl own ↦
              for_user-Prolonged t f live own (find_user t.user_id a.users)
                (rw (live, mine, own) at h)
        ]
      ]
    ]

    pub refresh-Prolonged : refresh l token now hotel a ≡ (ok tokens, a') → Prolonged tokens a'
    unfolding refresh
    refresh-Prolonged h = by_payload (l.jwt_verify token) h
      where
        by_payload :
            (o : Option RefreshPayload)
            → for_payload l o token now hotel a ≡ (ok tokens, a')
            → Prolonged tokens a'
        by_payload none h = absurd (no_ok _ _ tokens a' h)
        by_payload (some p) h = for_row-Prolonged p _ refl h

-- A token that prolonged a session is of no use any more: whoever sends it again, at whatever time
-- and with whichever cookie, is refused.
pub refresh_once :
    (l : Libraries) (token : Text) (now later : ℕ) (hotel other : Option ℕ) (a a' : Accounts)
    (tokens : AuthTokens)
    → refresh l token now hotel a ≡ (ok tokens, a')
    → refresh l token later other a' ≡ (err expired_or_revoked, a')
unfolding refresh
refresh_once l token now later hotel other a a' tokens h =
    let P = refresh-Prolonged l token now hotel a tokens a' h in
    by_payload (l.jwt_verify token) refl (gone P)
  where
    stamp : ℕ → RefreshToken → RefreshToken
    stamp id t = if t.id == id then record t { revoked_at = some now } else t

    gone :
        Prolonged l token now hotel a tokens a'
        → (t : RefreshToken) × (find_token (l.sha256 token) a'.refresh_tokens ≡ some t)
          × (is_dead later t ≡ true)
    gone P = (
      stamp P.t.id P.t,
      ap (find_token (l.sha256 token)) P.rows
          ∙ find-map-some _ (stamp P.t.id) (revoke-hash (l.sha256 token) P.t.id now)
              a.refresh_tokens (P.added ∷ []) P.t P.found,
      rw ((==_iff P.t.id P.t.id).1 refl) refl,
    )

    by_payload :
        (o : Option RefreshPayload)
        → l.jwt_verify token ≡ o
        → ((t : RefreshToken) × (find_token (l.sha256 token) a'.refresh_tokens ≡ some t)
            × (is_dead later t ≡ true))
        → refresh l token later other a' ≡ (err expired_or_revoked, a')
    by_payload none e g = absurd (no_ok l token now hotel a _ _ tokens a' (rw e at h))
    by_payload (some p) e (t, f, dead) = rw (e, f, dead) refl

-- A prolonged session is the same session: the new token is for the same hotel and the same visitor
-- on behalf of it, and it was the cookie's own: a hotel's cookie only prolongs a visit to this
-- hotel, and the common cookie only a session that is no visit.
pub refresh-same_session :
    (l : Libraries) (token : Text) (now : ℕ) (hotel : Option ℕ) (a a' : Accounts)
    (tokens : AuthTokens)
    → refresh l token now hotel a ≡ (ok tokens, a')
    → (t added : RefreshToken) × (find_token (l.sha256 token) a.refresh_tokens ≡ some t)
      × (t.revoked_at ≡ none)
      × (now ≤ t.expires_at)
      × (a'.refresh_tokens ≡ revoke t.id now a.refresh_tokens ++ added ∷ [])
      × (added.token_hash ≡ l.sha256 tokens.refresh_token)
      × (added.tenant_id ≡ t.tenant_id)
      × (added.impersonated_by ≡ t.impersonated_by)
      × (tokens.access.tid ≡ t.tenant_id)
      × (tokens.access.imp ≡ t.impersonated_by)
      × (hotel ≡ none → t.impersonated_by ≡ none)
      × ((id : ℕ) → hotel ≡ some id → t.tenant_id ≡ id)
unfolding own_cookie
refresh-same_session l token now hotel a a' tokens h =
    let P = refresh-Prolonged l token now hotel a tokens a' h in
    (
      P.t,
      P.added,
      P.found,
      alive P.t P.live,
      in_time P.t P.live,
      P.rows,
      P.hash,
      P.tenant.0,
      P.visitor.0,
      P.tenant.1,
      P.visitor.1,
      λ e. common P.t (subst (λ x. own_cookie x P.t ≡ true) e P.own),
      λ id e. of_hotel id P.t (subst (λ x. own_cookie x P.t ≡ true) e P.own),
    )
  where
    alive : (t : RefreshToken) → is_dead now t ≡ false → t.revoked_at ≡ none
    alive t d = ground arith

    in_time : (t : RefreshToken) → is_dead now t ≡ false → now ≤ t.expires_at
    in_time t d = ground arith

    common : (t : RefreshToken) → own_cookie none t ≡ true → t.impersonated_by ≡ none
    common t o = ground arith

    of_hotel : (id : ℕ) (t : RefreshToken) → own_cookie (some id) t ≡ true → t.tenant_id ≡ id
    of_hotel id t o = ground arith
