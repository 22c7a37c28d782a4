-- ===== src/Auth/Leaving.antt =====
-- A token after a logout (backend/src/modules/auth/auth.service.ts).
use kars_hotel.Base.{
  find-map, find-map-none, ℕ, ◌≡◌, refl, ap, subst, inl, inr, true, Option, none, some, ◌∷◌, map,
  find-some, Bool-cases, Option-cases, if◌then◌else◌,
}
use kars_hotel.Base.Text.{Text, text_eq}
use kars_hotel.Base.Result.{err}
use kars_hotel.Auth.Accounts.{
  RefreshToken, Accounts, RefreshPayload, AuthRefusal, expired_or_revoked, invalid_token, Libraries,
  find_token,
}
use kars_hotel.Auth.Sessions.{is_dead, refresh, logout}

-- A token whose row is dead prolongs nothing.
pub dead-refused :
    (l : Libraries) (token : Text) (later : ℕ) (hotel : Option ℕ) (a : Accounts)
    (o : Option RefreshToken)
    → find_token (l.sha256 token) a.refresh_tokens ≡ o
    → ((t : RefreshToken) → o ≡ some t → is_dead later t ≡ true)
    → (why : AuthRefusal) × (refresh l token later hotel a ≡ (err why, a))
unfolding refresh
dead-refused l token later hotel a o f dead = by_payload (l.jwt_verify token) refl o f dead
  where
    by_payload :
        (p : Option RefreshPayload)
        → l.jwt_verify token ≡ p
        → (o : Option RefreshToken) → find_token (l.sha256 token) a.refresh_tokens ≡ o
        → ((t : RefreshToken) → o ≡ some t → is_dead later t ≡ true)
        → (why : AuthRefusal) × (refresh l token later hotel a ≡ (err why, a))
    by_payload none e o f dead = (invalid_token, rw e refl)
    by_payload (some p) e none f dead = (expired_or_revoked, rw (e, f) refl)
    by_payload (some p) e (some t) f dead = (expired_or_revoked, rw (e, f, dead t refl) refl)

-- After a logout the token prolongs nothing, whenever and with whichever cookie it is sent.
pub logout-ends :
    (l : Libraries) (c : ℕ) (cs : Text) (now later : ℕ) (hotel : Option ℕ) (a : Accounts)
    → (why : AuthRefusal) × (refresh l (c ∷ cs) later hotel (logout l (c ∷ cs) now a)
        ≡ (err why, logout l (c ∷ cs) now a))
unfolding logout
logout-ends l c cs now later hotel a =
    let hash = l.sha256 (c ∷ cs) in
    elim (Option-cases (find_token hash a.refresh_tokens)) [
      | inl gone ↦
          dead-refused l (c ∷ cs) later hotel _ none
            (find-map-none _ stamp stamp-hash a.refresh_tokens gone) (λ t e. cc)
      | inr (t, f) ↦ dead-refused l (c ∷ cs) later hotel _ (some (stamp t)) (found t f) (λ x e.
          subst (λ (y : RefreshToken). is_dead later y ≡ true) (inj e)
            (stamped t (find-some _ a.refresh_tokens t f)))
    ]
  where
    stamp : RefreshToken → RefreshToken
    stamp t =
        if text_eq t.token_hash (l.sha256 (c ∷ cs)) then record t { revoked_at = some now } else t

    stamp-hash :
        (t : RefreshToken)
        → text_eq (stamp t).token_hash (l.sha256 (c ∷ cs))
          ≡ text_eq t.token_hash (l.sha256 (c ∷ cs))
    stamp-hash t = elim (Bool-cases (text_eq t.token_hash (l.sha256 (c ∷ cs)))) [
      | inl y ↦ rw y y
      | inr n ↦ rw n n
    ]

    found :
        (t : RefreshToken)
        → find_token (l.sha256 (c ∷ cs)) a.refresh_tokens ≡ some t
        → find_token (l.sha256 (c ∷ cs)) (map stamp a.refresh_tokens) ≡ some (stamp t)
    found t f = find-map _ stamp stamp-hash a.refresh_tokens t f

    stamped :
        (t : RefreshToken)
        → text_eq t.token_hash (l.sha256 (c ∷ cs)) ≡ true
        → is_dead later (stamp t) ≡ true
    stamped t y = rw y refl

    inj : {x y : RefreshToken} → ◌≡◌ {A = Option RefreshToken} (some x) (some y) → x ≡ y
    inj {x} {y} e = ap (λ (o : Option RefreshToken). elim o [ none ↦ x | some z ↦ z ]) e
