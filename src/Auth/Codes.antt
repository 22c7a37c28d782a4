-- ===== src/Auth/Codes.antt =====
-- A code of the single sign-on is good once (backend/src/modules/auth/auth.service.ts).
use kars_hotel.Base.{
  ℕ, ◌≡◌, refl, ap, ◌∙◌, inl, inr, Bool, not, Option, none, some, List, [], ◌∷◌, find, select,
  Bool-cases,
}
use kars_hotel.Base.Text.{Text, text_eq}
use kars_hotel.Base.Result.{Result, ok, err}
use kars_hotel.Auth.Accounts.{
  User, SsoCode, Accounts, AuthRefusal, sso_invalid, Libraries, find_user,
}
use kars_hotel.Auth.Sessions.{Identity, issue_tokens}
use kars_hotel.Auth.Sso.{
  drop_code, is_stale, enter, enter_mode, enter_panel, enter_hotel, exchange_sso_code,
}

select-none_left :
    {A : Type 0} (p : A → Bool) (xs : List A) → find p (select (λ x. not (p x)) xs) ≡ none
select-none_left p [] = refl
select-none_left p (x ∷ xs) = elim (Bool-cases (p x)) [
  | inl y ↦ rw y (select-none_left p xs)
  | inr n ↦ rw n (rw n (select-none_left p xs))
]

-- What an entry leaves of the codes: all of them.
kept-issued :
    (l : Libraries) (who : Result AuthRefusal Identity) (tenant by now : ℕ) (a : Accounts)
    → (enter_hotel l who tenant by now a).1.sso_codes ≡ a.sso_codes
unfolding issue_tokens
kept-issued l (err why) tenant by now a = refl
kept-issued l (ok who) tenant by now a = refl

kept-mode :
    (l : Libraries) (m : Option ℕ) (by now : ℕ) (a : Accounts)
    → (enter_mode l m by now a).1.sso_codes ≡ a.sso_codes
unfolding issue_tokens
kept-mode l (some tenant) by now a = kept-issued l _ tenant by now a
kept-mode l none by now a = panel (find_user by a.users)
  where
    panel : (o : Option User) → (enter_panel l o now a).1.sso_codes ≡ a.sso_codes
    panel none = refl
    panel (some u) = elim (Bool-cases u.is_active) [ inl y ↦ rw y refl | inr n ↦ rw n refl ]

kept :
    (l : Libraries) (o : Option SsoCode) (now : ℕ) (a : Accounts)
    → (enter l o now a).1.sso_codes ≡ a.sso_codes
kept l none now a = refl
kept l (some c) now a = elim (Bool-cases (is_stale now c)) [
  | inl y ↦ rw y refl
  | inr n ↦ rw n (kept-mode l c.tenant_id c.dispatcher_user_id now a)
]

-- A code is good once: whatever came of it, and whenever it is sent again, it is refused.
pub exchange_sso_code_once :
    (l : Libraries) (code : Text) (now later : ℕ) (a : Accounts)
    → (exchange_sso_code l code later (exchange_sso_code l code now a).1).0 ≡ err sso_invalid
unfolding exchange_sso_code
exchange_sso_code_once l code now later a =
    let is_it : SsoCode → Bool = λ c. text_eq c.code code in
    let b = (exchange_sso_code l code now a).1 in
    let rest = record a { sso_codes = drop_code code a.sso_codes } in
    let gone : find is_it b.sso_codes ≡ none =
      ap (find is_it) (kept l (find is_it a.sso_codes) now rest)
      ∙ select-none_left is_it a.sso_codes in
    ap (λ o. (enter l o later (record b { sso_codes = drop_code code b.sso_codes })).0) gone
