-- ===== src/Auth/Memory.antt =====
-- Counters in memory: the calls of `CounterStore` (backend/src/modules/auth/login-throttle.ts) with
-- the laws that are asked of them.
use kars_hotel.Base.{
  ℕ, suc, ◌-◌, ◌≤◌, ◌<◌, ◌≡◌, refl, inl, inr, true, Option, none, some, leb, arith, if◌then◌else◌,
  Bool-cases,
}
use kars_hotel.Base.Text.{text_eq_refl}
use kars_hotel.Pricing.Baseline.{or_any}
use kars_hotel.Auth.Counters.{Key, by_email, by_ip, same_counter, CounterStore}

pub record Counter : Type 0 where
  pub count : ℕ
  pub left : Option ℕ

abbrev pub count_of : Option Counter → Option ℕ
count_of none = none
count_of (some c) = some c.count

abbrev pub left_of : Option Counter → Option ℕ
left_of none = none
left_of (some c) = c.left

abbrev limit : ℕ → Option Counter → Option Counter
limit n none = none
limit n (some c) = some (record c { left = some n })

abbrev age_left : ℕ → ℕ → Option ℕ → Option Counter
age_left d count none = some (record { count = count; left = none })
age_left d count (some n) =
    if leb n d then none else some (record { count = count; left = some (n - d) })

abbrev age : ℕ → Option Counter → Option Counter
age d none = none
age d (some c) = age_left d c.count c.left

pub same_key_refl : (k : Key) → same_counter k k ≡ true
same_key_refl (by_email a) = text_eq_refl a
same_key_refl (by_ip a) = text_eq_refl a

pub count-limit : (n : ℕ) (o : Option Counter) → count_of (limit n o) ≡ count_of o
count-limit n none = refl
count-limit n (some c) = refl

pub age-over :
    (d n : ℕ) (o : Option Counter) → left_of o ≡ some n → n ≤ d → count_of (age d o) ≡ none
age-over d n none e h = refl
age-over d n (some c) e h = rw e (ground arith)

pub age-less :
    (d n : ℕ) (o : Option Counter)
    → left_of o ≡ some n
    → d < n
    → (count_of (age d o) ≡ count_of o) × (left_of (age d o) ≡ some (n - d))
age-less d n none e h = cc
age-less d n (some c) e h = (rw e (ground arith), rw e (ground arith))

pub age-none : (d : ℕ) (o : Option Counter) → count_of o ≡ none → count_of (age d o) ≡ none
age-none d none e = refl
age-none d (some c) e = cc

pub limited : (n v : ℕ) (o : Option Counter) → count_of o ≡ some v → left_of (limit n o) ≡ some n
limited n v none e = cc
limited n v (some c) e = refl

abbrev pub in_memory : CounterStore
in_memory = record {
  Store = Key → Option Counter;
  get = λ k s. count_of (s k);
  incr = λ k s. (
    suc (or_any (count_of (s k))),
    λ j.
        if same_counter j k
        then some (record { count = suc (or_any (count_of (s j))); left = left_of (s j) })
        else s j,
  );
  expire = λ k n s j. if same_counter j k then limit n (s j) else s j;
  del = λ k s j. if same_counter j k then none else s j;
  ttl = λ k s. left_of (s k);
  wait = λ d s j. age d (s j);
  incr_value = λ k s. refl;
  get_incr = λ k s. rw (same_key_refl k) refl;
  get_incr_other = λ j k s h. rw h refl;
  ttl_incr =
      λ j k s v h. elim (Bool-cases (same_counter j k)) [ inl y ↦ rw y refl | inr n ↦ rw n refl ];
  get_expire = λ j k n s. elim (Bool-cases (same_counter j k)) [
    | inl y ↦ rw y (count-limit (suc n) (s j))
    | inr n ↦ rw n refl
  ];
  ttl_expire = λ k n v s h. rw (same_key_refl k) (limited (suc n) v (s k) h);
  ttl_expire_other = λ j k n s h. rw h refl;
  get_del = λ k s. rw (same_key_refl k) refl;
  get_del_other = λ j k s h. rw h refl;
  ttl_del_other = λ j k s h. rw h refl;
  wait_over = λ k d n s e h. age-over d n (s k) e h;
  wait_less = λ k d n s e h. age-less d n (s k) e h;
  wait_none = λ k d s e. age-none d (s k) e;
}
