-- ===== src/Auth/Counters.antt =====
-- The counters that the limit of logins needs: `CounterStore` of
-- backend/src/modules/auth/login-throttle.ts, which Redis implements. The laws are those that Redis
-- documents for GET, INCR, EXPIRE, DEL and TTL.
use kars_hotel.Base.{ℕ, suc, ◌-◌, ◌≤◌, ◌<◌, ◌≡◌, Bool, false, Option, none, some}
use kars_hotel.Base.Text.{Text, text_eq}
use kars_hotel.Pricing.Baseline.{or_any}

-- `login:fail:email:...` and `login:fail:ip:...`
pub data Key : Type 0 where
  by_email by_ip : Text → Key

abbrev pub same_counter : Key → Key → Bool
same_counter (by_email a) (by_email b) = text_eq a b
same_counter (by_email a) (by_ip b) = false
same_counter (by_ip a) (by_email b) = false
same_counter (by_ip a) (by_ip b) = text_eq a b

pub record CounterStore : Type 1 where
  pub Store : Type 0
  pub get : Key → Store → Option ℕ
  -- The value after the addition, and the store.
  pub incr : Key → Store → ℕ × Store
  pub expire : Key → ℕ → Store → Store
  pub del : Key → Store → Store
  -- The seconds that a counter still has, if it has a limit.
  pub ttl : Key → Store → Option ℕ
  -- What is left of a store some seconds later, with no call in between.
  pub wait : ℕ → Store → Store
  pub incr_value : (k : Key) (s : Store) → (incr k s).0 ≡ suc (or_any (get k s))
  pub get_incr : (k : Key) (s : Store) → get k (incr k s).1 ≡ some (suc (or_any (get k s)))
  pub get_incr_other :
      (j k : Key) (s : Store) → same_counter j k ≡ false → get j (incr k s).1 ≡ get j s
  pub ttl_incr : (j k : Key) (s : Store) (v : ℕ) → get j s ≡ some v → ttl j (incr k s).1 ≡ ttl j s
  pub get_expire : (j k : Key) (n : ℕ) (s : Store) → get j (expire k (suc n) s) ≡ get j s
  pub ttl_expire :
      (k : Key) (n v : ℕ) (s : Store) → get k s ≡ some v → ttl k (expire k (suc n) s) ≡ some (suc n)
  pub ttl_expire_other :
      (j k : Key) (n : ℕ) (s : Store) → same_counter j k ≡ false → ttl j (expire k n s) ≡ ttl j s
  pub get_del : (k : Key) (s : Store) → get k (del k s) ≡ none
  pub get_del_other : (j k : Key) (s : Store) → same_counter j k ≡ false → get j (del k s) ≡ get j s
  pub ttl_del_other : (j k : Key) (s : Store) → same_counter j k ≡ false → ttl j (del k s) ≡ ttl j s
  pub wait_over :
      (k : Key) (d n : ℕ) (s : Store) → ttl k s ≡ some n → n ≤ d → get k (wait d s) ≡ none
  pub wait_less :
      (k : Key) (d n : ℕ) (s : Store)
      → ttl k s ≡ some n
      → d < n
      → (get k (wait d s) ≡ get k s) × (ttl k (wait d s) ≡ some (n - d))
  pub wait_none : (k : Key) (d : ℕ) (s : Store) → get k s ≡ none → get k (wait d s) ≡ none
