-- ===== src/Redis/Interface.antt =====
-- Redis, which the backend calls and does not implement: an unknown store with the commands that
-- the services send. `IsLawful` states the documented behaviour that they rely on.

use Prim.Native.String.{String}
use ufuk_ai_agent.Prelude.{ℕ, ◌<◌, ◌≡◌, ◌≢◌, Option, none, some, or_default}
use ufuk_ai_agent.Prelude.Int.{ℤ, pos, negsuc, ◌+ℤ◌}

-- The keys that the services format, one constructor for each f-string. A user is a number for the
-- UUID, a period the number of its first day, a window its start in seconds.
pub data Key : Type 0 where
  credits : ℕ → ℕ → Key
  budget : ℕ → ℕ → Key
  inflight : ℕ → Key
  rpm : ℕ → ℕ → Key
  global_rpm : Key
  anomaly_clients : ℕ → ℕ → Key
  anomaly_count : ℕ → ℕ → Key
  register_ip : String → Key
  login_ip : String → Key
  oauth_ip : String → Key
  login_account : String → Key

-- A number at a key is in the key's unit: micro-credits under `credits` and `budget`, else 1.
-- `incrby` is INCR, DECR or INCRBYFLOAT, and gives the reply and the new store.
pub record Redis : Type 1 where
  pub Store : Type 0
  pub get : Store → Key → Option ℤ
  pub incrby : Store → Key → ℤ → ℤ × Store
  pub set : Store → Key → ℤ → ℕ → Store
  pub expire : Store → Key → ℕ → Store
  pub ttl : Store → Key → ℤ
  pub sadd : Store → Key → String → Store
  pub scard : Store → Key → ℕ
  pub delete : Store → Key → Store

-- A missing key counts as 0 for INCR and its kin.
abbrev pub value_at : (R : Redis) → R.Store → Key → ℤ
value_at R s k = or_default (R.get s k) (pos 0)

pub record IsLawful (R : Redis) : Type 0 where
  pub reply-incrby : (s : R.Store) (k : Key) (d : ℤ) → (R.incrby s k d).0 ≡ value_at R s k +ℤ d
  pub get-incrby_self :
      (s : R.Store) (k : Key) (d : ℤ) → R.get (R.incrby s k d).1 k ≡ some (value_at R s k +ℤ d)
  pub get-incrby_ne :
      (s : R.Store) (k j : Key) (d : ℤ) → j ≢ k → R.get (R.incrby s k d).1 j ≡ R.get s j
  pub get-set_self :
      (s : R.Store) (k : Key) (v : ℤ) (ex : ℕ) → 0 < ex → R.get (R.set s k v ex) k ≡ some v
  pub get-set_ne :
      (s : R.Store) (k j : Key) (v : ℤ) (ex : ℕ)
      → 0 < ex
      → j ≢ k
      → R.get (R.set s k v ex) j ≡ R.get s j
  pub get-expire :
      (s : R.Store) (k j : Key) (ex : ℕ) → 0 < ex → R.get (R.expire s k ex) j ≡ R.get s j
  pub get-sadd : (s : R.Store) (k j : Key) (m : String) → R.get (R.sadd s k m) j ≡ R.get s j
  pub get-delete_self : (s : R.Store) (k : Key) → R.get (R.delete s k) k ≡ none
  pub get-delete_ne : (s : R.Store) (k j : Key) → j ≢ k → R.get (R.delete s k) j ≡ R.get s j
  pub ttl-expire_self :
      (s : R.Store) (k : Key) (ex : ℕ) {v : ℤ}
      → 0 < ex
      → R.get s k ≡ some v
      → R.ttl (R.expire s k ex) k ≡ pos ex
  pub ttl-incrby_new :
      (s : R.Store) (k : Key) (d : ℤ) → R.get s k ≡ none → R.ttl (R.incrby s k d).1 k ≡ negsuc 0
  pub ttl-incrby_old :
      (s : R.Store) (k : Key) (d : ℤ) {v : ℤ}
      → R.get s k ≡ some v
      → R.ttl (R.incrby s k d).1 k ≡ R.ttl s k
