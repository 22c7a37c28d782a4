-- ===== src/Auth/Limits.antt =====
-- What the limit of logins does (backend/src/modules/auth/login-throttle.ts).
use kars_hotel.Base.{
  ℕ, suc, ◌+◌, ◌-◌, ◌≤◌, ◌<◌, ◌≡◌, refl, sym, ap, ◌∙◌, ◌↔◌, ◌⊎◌, inl, inr, true, false, Option,
  none, some, List, [], ◌∷◌, ◌==◌, leb, arith, In, length, Bool-cases, Option-cases,
}
use kars_hotel.Base.Result.{Result, ok, err}
use kars_hotel.Base.Text.{Text, text_eq_refl, text_eq-eq}
use kars_hotel.Pricing.Baseline.{or_any}
use kars_hotel.Auth.Counters.{Key, by_email, by_ip, same_counter, CounterStore}
use kars_hotel.Auth.Throttle.{
  window_seconds, ip_keys, email_key, check_limits, assert_allowed, count_one, count_all, fail,
  success,
}

same_counter-eq : (j k : Key) → same_counter j k ≡ true → j ≡ k
same_counter-eq (by_email a) (by_email b) h = ap by_email (text_eq-eq a b h)
same_counter-eq (by_email a) (by_ip b) h = cc
same_counter-eq (by_ip a) (by_email b) h = cc
same_counter-eq (by_ip a) (by_ip b) h = ap by_ip (text_eq-eq a b h)

same_counter_refl : (k : Key) → same_counter k k ≡ true
same_counter_refl (by_email a) = text_eq_refl a
same_counter_refl (by_ip a) = text_eq_refl a

module _ (r : CounterStore) (to_lower : Text → Text) where
  open r use {
    Store, get, incr, expire, del, ttl, wait, incr_value, get_incr, get_incr_other, ttl_incr,
    get_expire, ttl_expire, ttl_expire_other, get_del, get_del_other, ttl_del_other, wait_over,
    wait_less, wait_none,
  }

  -- The failures that a counter has.
  abbrev pub failures : Key → Store → ℕ
  failures k s = or_any (get k s)

  -- Every counter ends within the window.
  abbrev pub IsTimed : Store → Type 0
  IsTimed s =
      (k : Key) (v : ℕ)
      → get k s ≡ some v
      → (n : ℕ) × (ttl k s ≡ some n) × (n ≤ window_seconds) × (1 ≤ v)

  get-count_one :
      (k : Key) (s : Store) → get k (count_one r to_lower k s).1 ≡ some (suc (failures k s))
  unfolding count_one
  get-count_one k s = elim (Bool-cases ((incr k s).0 == 1)) [
    | inl y ↦ rw y (get_expire k k 899 (incr k s).1 ∙ get_incr k s)
    | inr n ↦ rw n (get_incr k s)
  ]

  get-count_one_other :
      (j k : Key) (s : Store)
      → same_counter j k ≡ false
      → get j (count_one r to_lower k s).1 ≡ get j s
  unfolding count_one
  get-count_one_other j k s h = elim (Bool-cases ((incr k s).0 == 1)) [
    | inl y ↦ rw y (get_expire j k 899 (incr k s).1 ∙ get_incr_other j k s h)
    | inr n ↦ rw n (get_incr_other j k s h)
  ]

  count_one-IsTimed : (k : Key) (s : Store) → IsTimed s → IsTimed (count_one r to_lower k s).1
  unfolding count_one
  count_one-IsTimed k s timed j v e = elim (Bool-cases (same_counter j k)) [
    | inl same ↦ own (same_counter-eq j k same) (Bool-cases ((incr k s).0 == 1))
    | inr apart ↦
        let before : get j s ≡ some v = sym (get-count_one_other j k s apart) ∙ e in
        let (n, t, le, pos) = timed j v before in
        (n, others apart before (Bool-cases ((incr k s).0 == 1)) ∙ t, le, pos)
  ]
    where
      positive : j ≡ k → 1 ≤ v
      positive same =
          ground
            (arith, sym (ap (λ x. get x (count_one r to_lower k s).1) same) ∙ e, get-count_one k s)

      others :
          same_counter j k ≡ false
          → get j s ≡ some v
          → (((incr k s).0 == 1) ≡ true) ⊎ (((incr k s).0 == 1) ≡ false)
          → ttl j (count_one r to_lower k s).1 ≡ ttl j s
      others apart before (inl y) =
          rw y (ttl_expire_other j k 900 (incr k s).1 apart ∙ ttl_incr j k s v before)
      others apart before (inr n) = rw n (ttl_incr j k s v before)

      old_one :
          (o : Option ℕ) → get k s ≡ o → ((incr k s).0 == 1) ≡ false → (w : ℕ) × (get k s ≡ some w)
      old_one (some w) q n = (w, q)
      old_one none q n = absurd (ground (arith, incr_value k s, q, n))

      own :
          j ≡ k
          → (((incr k s).0 == 1) ≡ true) ⊎ (((incr k s).0 == 1) ≡ false)
          → (n : ℕ) × (ttl j (count_one r to_lower k s).1 ≡ some n) × (n ≤ 900) × (1 ≤ v)
      own same (inl y) = (
        900,
        rw (same, y) (ttl_expire k 899 _ (incr k s).1 (get_incr k s)),
        omega arith,
        positive same,
      )
      own same (inr n) =
          let (w, q) = old_one (get k s) refl n in
          let (left, t, le, pos) = timed k w q in
          (left, rw (same, n) (ttl_incr k k s w q ∙ t), le, positive same)

  count_all-IsTimed : (ks : List Key) (s : Store) → IsTimed s → IsTimed (count_all r to_lower ks s)
  unfolding count_all
  count_all-IsTimed [] s timed = timed
  count_all-IsTimed (k ∷ ks) s timed = count_all-IsTimed ks _ (count_one-IsTimed k s timed)

  fail-IsTimed :
      (email : Text) (ip : Option Text) (s : Store)
      → IsTimed s
      → IsTimed (fail r to_lower email ip s).1
  unfolding fail
  fail-IsTimed email ip s timed =
      count_all-IsTimed (ip_keys ip) _ (count_one-IsTimed (email_key r to_lower email) s timed)

  success-IsTimed : (email : Text) (s : Store) → IsTimed s → IsTimed (success r to_lower email s)
  unfolding success
  success-IsTimed email s timed j v e =
      let k = email_key r to_lower email in
      elim (Bool-cases (same_counter j k)) [
        | inl same ↦ absurd (
            no_value (sym (ap (λ x. get x (del k s)) (same_counter-eq j k same) ∙ get_del k s) ∙ e))
        | inr apart ↦
            let (n, t, le, pos) = timed j v (sym (get_del_other j k s apart) ∙ e) in
            (n, ttl_del_other j k s apart ∙ t, le, pos)
      ]
    where
      no_value : ◌≡◌ {A = Option ℕ} none (some v) → ⊥
      no_value q = cc

  wait-IsTimed : (d : ℕ) (s : Store) → IsTimed s → IsTimed (wait d s)
  wait-IsTimed d s timed k v e = elim (Option-cases (get k s)) [
    | inl gone ↦ absurd (no_value (sym (wait_none k d s gone) ∙ e))
    | inr (w, there) ↦
        let (n, t, le, pos) = timed k w there in
        elim (Bool-cases (leb n d)) [
          | inl over ↦ absurd (no_value (sym (wait_over k d n s t (ground arith)) ∙ e))
          | inr less ↦
              let (g, l) = wait_less k d n s t (ground arith) in
              (n - d, l, omega (arith, le), ground (arith, sym there ∙ sym g ∙ e))
        ]
  ]
    where
      no_value : ◌≡◌ {A = Option ℕ} none (some v) → ⊥
      no_value q = cc

  -- What happens to the counters.
  pub data Event : Type 0 where
    failed : Text → Option Text → Event
    succeeded : Text → Event
    passed : ℕ → Event

  unfoldable pub happen : Event → Store → Store
  happen (failed email ip) s = (fail r to_lower email ip s).1
  happen (succeeded email) s = success r to_lower email s
  happen (passed d) s = wait d s

  unfoldable pub history : List Event → Store → Store
  unfolding happen
  history [] s = s
  history (e ∷ es) s = history es (happen e s)

  history-IsTimed : (es : List Event) (s : Store) → IsTimed s → IsTimed (history es s)
  unfolding history
  history-IsTimed [] s timed = timed
  history-IsTimed (failed email ip ∷ es) s timed =
      history-IsTimed es _ (fail-IsTimed email ip s timed)
  history-IsTimed (succeeded email ∷ es) s timed =
      history-IsTimed es _ (success-IsTimed email s timed)
  history-IsTimed (passed d ∷ es) s timed = history-IsTimed es _ (wait-IsTimed d s timed)

  -- A login is let to its password exactly while the email has fewer than five failures and the
  -- address, if there is one, fewer than twenty.
  pub assert_allowed_iff :
      (email : Text) (ip : Option Text) (s : Store)
      → (assert_allowed r to_lower email ip s ≡ ok tt) ↔ (
          (failures (email_key r to_lower email) s < 5)
          × ((k : Key) → In k (ip_keys ip) → failures k s < 20))
  unfolding assert_allowed check_limits
  assert_allowed_iff email none s = (λ h. (ground arith, λ k i. absurd i), λ h. ground (arith, h.0))
  assert_allowed_iff email (some []) s =
      (λ h. (ground arith, λ k i. absurd i), λ h. ground (arith, h.0))
  assert_allowed_iff email (some (x ∷ xs)) s = (
    λ h. (
      ground arith,
      λ k i. elim i [ inl e ↦ ground (arith, ap (λ y. failures y s) e) | inr j ↦ absurd j ],
    ),
    λ h. ground (arith, h.0, h.1 (by_ip (x ∷ xs)) (inl refl)),
  )

  -- Once a window has passed with no failure counted, nobody is kept out any more, whatever went
  -- before, if there were no counters at first.
  pub assert_allowed_again :
      (es : List Event) (s : Store) (email : Text) (ip : Option Text)
      → ((k : Key) → get k s ≡ none)
      → assert_allowed r to_lower email ip (wait window_seconds (history es s)) ≡ ok tt
  assert_allowed_again es s email ip empty =
      (assert_allowed_iff email ip _).1
        (ground (arith, over (email_key r to_lower email)), λ k i. ground (arith, over k))
    where
      over : (k : Key) → get k (wait window_seconds (history es s)) ≡ none
      over k =
          let timed = history-IsTimed es s (λ k v e. absurd (no_value k v e)) in
          elim (Option-cases (get k (history es s))) [
            | inl gone ↦ wait_none k window_seconds _ gone
            | inr (w, there) ↦
                let (n, t, le, pos) = timed k w there in wait_over k window_seconds n _ t le
          ]
        where
          no_value : (k : Key) (v : ℕ) → get k s ≡ some v → ⊥
          no_value k v e = ground (arith, empty k)

  pub get-fail :
      (email : Text) (ip : Option Text) (s : Store)
      → failures (email_key r to_lower email) (fail r to_lower email ip s).1
        ≡ suc (failures (email_key r to_lower email) s)
  unfolding fail count_all
  get-fail email none s = ground (arith, get-count_one (email_key r to_lower email) s)
  get-fail email (some []) s = ground (arith, get-count_one (email_key r to_lower email) s)
  get-fail email (some (c ∷ cs)) s = ground (
    arith,
    get-count_one (email_key r to_lower email) s,
    get-count_one_other (email_key r to_lower email) (by_ip (c ∷ cs))
        (count_one r to_lower (email_key r to_lower email) s).1 refl,
  )

  get-fail_ip :
      (email : Text) (c : ℕ) (cs : Text) (s : Store)
      → failures (by_ip (c ∷ cs)) (fail r to_lower email (some (c ∷ cs)) s).1
        ≡ suc (failures (by_ip (c ∷ cs)) s)
  unfolding fail count_all
  get-fail_ip email c cs s = ground (
    arith,
    get-count_one (by_ip (c ∷ cs)) (count_one r to_lower (email_key r to_lower email) s).1,
    get-count_one_other (by_ip (c ∷ cs)) (email_key r to_lower email) s refl,
  )

  -- Failures of one email, from these addresses, and of these emails, from one address.
  unfoldable pub fail_each : Text → List (Option Text) → Store → Store
  fail_each email [] s = s
  fail_each email (ip ∷ ips) s = fail_each email ips (fail r to_lower email ip s).1

  unfoldable pub fail_from : Text → List Text → Store → Store
  fail_from ip [] s = s
  fail_from ip (email ∷ emails) s = fail_from ip emails (fail r to_lower email (some ip) s).1

  failures-fail_each :
      (email : Text) (ips : List (Option Text)) (s : Store)
      → failures (email_key r to_lower email) (fail_each email ips s)
        ≡ failures (email_key r to_lower email) s + length ips
  unfolding fail_each
  failures-fail_each email [] s = omega arith
  failures-fail_each email (ip ∷ ips) s =
      omega
        (arith, failures-fail_each email ips (fail r to_lower email ip s).1, get-fail email ip s)

  failures-fail_from :
      (c : ℕ) (cs : Text) (emails : List Text) (s : Store)
      → failures (by_ip (c ∷ cs)) (fail_from (c ∷ cs) emails s)
        ≡ failures (by_ip (c ∷ cs)) s + length emails
  unfolding fail_from
  failures-fail_from c cs [] s = omega arith
  failures-fail_from c cs (email ∷ emails) s = omega (
    arith,
    failures-fail_from c cs emails (fail r to_lower email (some (c ∷ cs)) s).1,
    get-fail_ip email c cs s,
  )

  refused-of : (m : Result ℕ (Unit {0})) → (m ≡ ok tt → ⊥) → (n : ℕ) × (m ≡ err n)
  refused-of (ok tt) h = absurd (h refl)
  refused-of (err n) h = (n, refl)

  -- With no time passing in between, after five failures of an email, from wherever they came, nobody
  -- gets in by it, and after twenty from one address nobody gets in from there, whatever the email.
  pub fail-locks :
      (email : Text) (ips : List (Option Text)) (ip : Option Text) (c : ℕ) (cs : Text)
      (emails : List Text) (other : Text) (s : Store)
      → 5 ≤ length ips
      → 20 ≤ length emails
      → ((left : ℕ) × (assert_allowed r to_lower email ip (fail_each email ips s) ≡ err left))
        × ((left : ℕ) × (assert_allowed r to_lower other
                (some (c ∷ cs))
                (fail_from (c ∷ cs) emails s)
              ≡ err left))
  fail-locks email ips ip c cs emails other s five twenty = (
    refused-of _ (λ in_. omega (
      arith,
      ((assert_allowed_iff email ip (fail_each email ips s)).0 in_).0,
      failures-fail_each email ips s,
      five,
    )),
    refused-of _ (λ in_. omega (
      arith,
      ((assert_allowed_iff other (some (c ∷ cs)) (fail_from (c ∷ cs) emails s)).0 in_).1
          (by_ip (c ∷ cs)) (inl refl),
      failures-fail_from c cs emails s,
      twenty,
    )),
  )

  -- A successful login clears the failures of its email and of nothing else.
  pub success-clears :
      (email : Text) (s : Store)
      → (failures (email_key r to_lower email) (success r to_lower email s) ≡ 0)
        × ((k : Key)
            → same_counter k (email_key r to_lower email) ≡ false
            → get k (success r to_lower email s) ≡ get k s)
  unfolding success
  success-clears email s = (
    ap or_any (get_del (email_key r to_lower email) s),
    λ k apart. get_del_other k (email_key r to_lower email) s apart,
  )
