-- ===== src/Limits/Rate/Window.antt =====
-- Sequences of requests and of failures within one window of rate_limiter.py.
use ufuk_ai_agent.Prelude.{
  ℕ, zero, suc, ◌+◌, ◌-◌, ◌<◌, ◌≡◌, ◌≢◌, ◌∙◌, inl, inr, Bool-cases, Option, none, some, arith, min,
  ltb, ap, if◌then◌else◌,
}
use ufuk_ai_agent.Prelude.Int.{ℤ, pos, ◌+ℤ◌, ◌≤ℤ◌, ltb_ℤ, max_ℤ, int_laws}
use ufuk_ai_agent.Redis.{Redis, Key, IsLawful, value_at}
use ufuk_ai_agent.Limits.Rate.{check_rate_limit, register_failure, retry_after_if_blocked}

abbrev pub passed : Option ℤ → ℕ
passed none = 1
passed (some _) = 0

-- A refusal asks for a second or more.
abbrev pub WaitsOne : Option ℤ → Type 0
WaitsOne none = Unit
WaitsOne (some t) = pos 1 ≤ℤ t

module _ (R : Redis) where
  -- The answers to `n` requests in a row, as the number that passed.
  unfoldable pub passed_of : ℕ → R.Store → Key → ℕ → ℕ → ℕ × R.Store
  passed_of zero s key limit window_seconds = (0, s)
  passed_of (suc n) s key limit window_seconds =
      let (answer, s') = check_rate_limit R s key limit window_seconds in
      let (rest, t) = passed_of n s' key limit window_seconds in (passed answer + rest, t)

  unfoldable pub register_failures : ℕ → R.Store → Key → ℕ → R.Store
  register_failures zero s key window_seconds = s
  register_failures (suc n) s key window_seconds =
      register_failures n (register_failure R s key window_seconds) key window_seconds

module _ (R : Redis) (L : IsLawful R) (key : Key) (limit window_seconds : ℕ)
    (w : 0 < window_seconds) where
  get-check_rate_limit :
      (s : R.Store)
      → R.get (check_rate_limit R s key limit window_seconds).1 key
        ≡ some (value_at R s key +ℤ pos 1)
  unfolding check_rate_limit
  get-check_rate_limit s =
      elim (Bool-cases (ltb_ℤ (R.ttl (R.incrby s key (pos 1)).1 key) (pos 0))) [
        | inl immortal ↦ rw immortal (L.get-expire _ key key _ w ∙ L.get-incrby_self s key (pos 1))
        | inr timed ↦ rw timed (L.get-incrby_self s key (pos 1))
      ]

  pub get-check_rate_limit_ne :
      (s : R.Store) (j : Key)
      → j ≢ key
      → R.get (check_rate_limit R s key limit window_seconds).1 j ≡ R.get s j
  unfolding check_rate_limit
  get-check_rate_limit_ne s j h =
      elim (Bool-cases (ltb_ℤ (R.ttl (R.incrby s key (pos 1)).1 key) (pos 0))) [
        | inl immortal ↦ rw immortal (L.get-expire _ key j _ w ∙ L.get-incrby_ne s key j _ h)
        | inr timed ↦ rw timed (L.get-incrby_ne s key j _ h)
      ]

  check_rate_limit_answer :
      (s : R.Store) (c : ℕ)
      → value_at R s key ≡ pos c
      → passed (check_rate_limit R s key limit window_seconds).0 ≡ (if ltb c limit then 1 else 0)
  unfolding check_rate_limit ◌+ℤ◌
  check_rate_limit_answer s c e = ground (arith, L.reply-incrby s key (pos 1))

  -- Of n requests in a row on a counter at c, exactly min(c + n, limit) - min(c, limit) pass, and
  -- the counter ends at c + n. The window's length is positive.
  pub passed_of-eq :
      (n c : ℕ) (s : R.Store)
      → value_at R s key ≡ pos c
      → let (k, t) = passed_of R n s key limit window_seconds in
        (k ≡ min (c + n) limit - min c limit) × (value_at R t key ≡ pos (c + n))
  unfolding passed_of
  passed_of-eq zero c s e = (omega arith, e ∙ ap pos (omega arith))
  passed_of-eq (suc n) c s e =
      let s' = (check_rate_limit R s key limit window_seconds).1 in
      let answer = check_rate_limit_answer s c e in
      let (k, counted) =
        passed_of-eq n (c + 1) s' (rw (get-check_rate_limit s, e) (omega int_laws)) in
      (ground (arith, answer, k), counted ∙ ap pos (omega arith))

  -- After a check with a positive window the key has a time to live, so no counter lives forever,
  -- and a refused caller is told to wait a second or more.
  pub check_rate_limit_expires :
      (s : R.Store)
      → let (answer, s') = check_rate_limit R s key limit window_seconds in
        (pos 0 ≤ℤ R.ttl s' key) × WaitsOne answer
  unfolding check_rate_limit
  check_rate_limit_expires s =
      elim (Bool-cases (ltb_ℤ (R.ttl (R.incrby s key (pos 1)).1 key) (pos 0))) [
        | inl immortal ↦ (
          rw immortal (
              rw (L.ttl-expire_self _ key window_seconds w (L.get-incrby_self s key (pos 1)))
                (omega arith)),
          ground arith,
        )
        | inr timed ↦ (rw timed (ground arith), ground arith)
      ]

  pub register_failure_count :
      (s : R.Store)
      → R.get (register_failure R s key window_seconds) key ≡ some (value_at R s key +ℤ pos 1)
  unfolding register_failure
  register_failure_count s = ground (
    arith,
    L.get-incrby_self s key (pos 1),
    L.get-expire (R.incrby s key (pos 1)).1 key key window_seconds w,
  )

  register_failures_count :
      (n c : ℕ) (s : R.Store)
      → R.get s key ≡ some (pos c)
      → R.get (register_failures R n s key window_seconds) key ≡ some (pos (c + n))
  unfolding register_failures
  register_failures_count zero c s e = e ∙ ap (λ (m : ℕ). some (pos m)) (omega arith)
  register_failures_count (suc n) c s e =
      register_failures_count n (c + 1) (register_failure R s key window_seconds)
        (register_failure_count s ∙ rw e (ap some (omega int_laws)))
      ∙ ap (λ (m : ℕ). some (pos m)) (omega arith)

  blocked_at :
      (s : R.Store) (c : ℕ)
      → R.get s key ≡ some (pos c)
      → retry_after_if_blocked R s key limit
        ≡ (if ltb c limit then none else some (max_ℤ (R.ttl s key) (pos 1)))
  unfolding retry_after_if_blocked
  blocked_at s c e = ground arith

  -- After n + 1 failures at a key that did not exist, with a positive window, a login is let
  -- through if they are fewer than the limit, and is otherwise told to wait for the key's time to
  -- live, one second at least.
  pub retry_after_if_blocked-failures :
      (n : ℕ) (s : R.Store)
      → R.get s key ≡ none
      → let s' = register_failures R (suc n) s key window_seconds in
        retry_after_if_blocked R s' key limit
        ≡ (if ltb (n + 1) limit then none else some (max_ℤ (R.ttl s' key) (pos 1)))
  unfolding register_failures
  retry_after_if_blocked-failures n s missing =
      let s₁ = register_failure R s key window_seconds in
      let first : R.get s₁ key ≡ some (pos 1) =
        register_failure_count s ∙ rw missing (ap some (omega int_laws)) in
      blocked_at (register_failures R n s₁ key window_seconds) (n + 1)
        (register_failures_count n 1 s₁ first ∙ ap (λ (m : ℕ). some (pos m)) (omega arith))
