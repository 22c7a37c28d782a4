-- ===== src/Auth/Throttle.antt =====
-- The limit of logins: backend/src/modules/auth/login-throttle.ts. A refusal carries the minutes that
-- are left; `to_lower` is `toLowerCase`.
use kars_hotel.Base.{ℕ, ◌+◌, ◌/◌, Option, none, some, List, [], ◌∷◌, ◌==◌, leb, max, if◌then◌else◌}
use kars_hotel.Base.Result.{Result, ok, err}
use kars_hotel.Base.Text.{Text}
use kars_hotel.Pricing.Baseline.{or_any}
use kars_hotel.Auth.Counters.{Key, by_email, by_ip, CounterStore}

abbrev pub window_seconds : ℕ
window_seconds = 900

abbrev pub max_per_email : ℕ
max_per_email = 5

abbrev pub max_per_ip : ℕ
max_per_ip = 20

-- An address that is missing or empty is not counted.
abbrev pub ip_keys : Option Text → List Key
ip_keys none = []
ip_keys (some []) = []
ip_keys (some (c ∷ cs)) = by_ip (c ∷ cs) ∷ []

-- `Math.max(1, Math.ceil(ttl / 60))`; Redis answers -1 or -2 where there is no limit.
abbrev pub minutes_left : Option ℕ → ℕ
minutes_left none = 1
minutes_left (some seconds) = max 1 ((seconds + 59) / 60)

module _ (r : CounterStore) (to_lower : Text → Text) where
  open r use {Store, get, incr, expire, del, ttl}

  abbrev pub email_key : Text → Key
  email_key email = by_email (to_lower email)

  abbrev ip_limit : Key → Key × ℕ
  ip_limit k = (k, max_per_ip)

  abbrev pub limits_of : List Key → List (Key × ℕ)
  limits_of [] = []
  limits_of (k ∷ ks) = ip_limit k ∷ limits_of ks

  -- The loop of `assertAllowed`; the refusal is that of the first limit that is reached.
  unfoldable pub check_limits : List (Key × ℕ) → Store → Result ℕ (Unit {0})
  check_limits [] s = ok tt
  check_limits (l ∷ ls) s =
      if leb l.1 (or_any (get l.0 s)) then err (minutes_left (ttl l.0 s)) else check_limits ls s

  -- `assertAllowed`
  unfoldable pub assert_allowed : Text → Option Text → Store → Result ℕ (Unit {0})
  assert_allowed email ip s =
      check_limits ((email_key email, max_per_email) ∷ limits_of (ip_keys ip)) s

  -- One round of the loop of `fail`: the value, and the window that a first failure opens.
  unfoldable pub count_one : Key → Store → ℕ × Store
  count_one k s = let (n, s1) = incr k s in (n, if n == 1 then expire k window_seconds s1 else s1)

  unfoldable pub count_all : List Key → Store → Store
  count_all [] s = s
  count_all (k ∷ ks) s = count_all ks (count_one k s).1

  -- `fail`; the email's key is the first, and no other is the same.
  unfoldable pub fail : Text → Option Text → Store → ℕ × Store
  fail email ip s =
      let (failures, s1) = count_one (email_key email) s in (failures, count_all (ip_keys ip) s1)

  -- `success`
  unfoldable pub success : Text → Store → Store
  success email s = del (email_key email) s
