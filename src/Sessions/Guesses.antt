-- ===== src/Sessions/Guesses.antt =====
-- Guesses at one account's password, from any clients.
use Prim.Native.String.{String}
use ufuk_ai_agent.Prelude.{
  ℕ, ◌+◌, ◌≤◌, ◌<◌, ◌≡◌, ◌∙◌, sym, ap, inl, inr, false, or_default, ◌==◌, Option, none, some, List,
  [], ◌∷◌, arith, if◌then◌else◌,
}
use ufuk_ai_agent.Prelude.Int.{ℤ, pos, int_laws}
use ufuk_ai_agent.Errors.{Outcome}
use ufuk_ai_agent.Redis.{Redis, Key, IsLawful, value_at}
use ufuk_ai_agent.Redis.Memory.{Key-discrete}
use ufuk_ai_agent.Sessions.{
  App, State, Draws, TokenResponse, login_account_failures, account_key, login,
}
use ufuk_ai_agent.Sessions.Login.{SignsIn, is_blocked, login-SignsIn}

-- A request to `login`: what it draws, the client's address and the password.
abbrev pub Guess : Type 0
Guess = Draws × String × String

-- A request, or the expiry of a key; the count of an address expires `login_account_window` seconds
-- after the first failure in it.
pub data Event : Type 0 where
  guess : Guess → Event
  lapse : Key → Event

-- 1 for an answer that the password is wrong.
abbrev pub told_wrong : Outcome TokenResponse → ℕ
told_wrong (Outcome.ok _) = 0
told_wrong (Outcome.raise e) = if e.status_code == 401 then 1 else 0
told_wrong Outcome.crash = 0

-- Five failures for each expiry of the count of the address.
abbrev pub allowance : {P : Type 0} → Dec P → ℕ
allowance (yes _) = login_account_failures
allowance (no _) = 0

abbrev pub renewed : Key → List Event → ℕ
renewed counter [] = 0
renewed counter (guess g ∷ events) = renewed counter events
renewed counter (lapse k ∷ events) = allowance (Key-discrete k counter) + renewed counter events

module _ (R : Redis) (app : App) (email : String) where
  -- The events in turn, with the number of logins that were told so.
  unfoldable pub run_logins : List Event → State R → ℕ × State R
  run_logins [] w = (0, w)
  run_logins (guess (d, ip, password) ∷ events) w =
      let (r, w') = login R app d ip email password w in
      let (n, w'') = run_logins events w' in (told_wrong r + n, w'')
  run_logins (lapse k ∷ events) w = run_logins events (record w { store = R.delete w.store k })

below_limit :
    (o : Option ℤ) (c : ℕ)
    → or_default o (pos 0) ≡ pos c
    → is_blocked o ≡ false
    → c < login_account_failures
below_limit none c e h = ground arith
below_limit (some count) c e h = ground arith

module _ (R : Redis) (L : IsLawful R) (app : App) (email : String) where
  -- One login counts what it tells, and stays within the limit.
  counted :
      (d : Draws) (ip password : String) (w : State R) (c : ℕ)
      → value_at R w.store (account_key app email) ≡ pos c
      → c ≤ login_account_failures
      → (r : Outcome TokenResponse × State R) → SignsIn R app d email password w r
      → (value_at R r.1.store (account_key app email) ≡ pos (c + told_wrong r.0))
        × (c + told_wrong r.0 ≤ login_account_failures)
  counted d ip password w c e h (Outcome.ok response, w') (s, free) = (
    ap (λ (o : Option ℤ). or_default o (pos 0)) s.uncounted ∙ e ∙ ap pos (omega arith),
    omega arith,
  )
  counted d ip password w c e h (Outcome.raise x, w') (u, inl (invalid, wrong, free, more)) =
      let below = below_limit (R.get w.store (account_key app email)) c e free in
      rw invalid (
        ap (λ (o : Option ℤ). or_default o (pos 0)) more ∙ rw e (omega int_laws),
        omega (arith, below),
      )
  counted d ip password w c e h (Outcome.raise x, w') (u, inr ((t, limited), same)) =
      rw limited
        (ap (λ (o : Option ℤ). or_default o (pos 0)) same ∙ e ∙ ap pos (omega arith), omega arith)
  counted d ip password w c e h (Outcome.crash, w') (u, free, same) =
      (ap (λ (o : Option ℤ). or_default o (pos 0)) same ∙ e ∙ ap pos (omega arith), omega arith)

  -- From a count c, the logins told that the password is wrong, and the count that is left.
  pub record Bounded (c more : ℕ) (end : ℕ × State R) : Type 0 where
    pub told : c + end.0 ≤ login_account_failures + more
    pub count : ℕ
    pub left : value_at R end.1.store (account_key app email) ≡ pos count
    pub within : count ≤ login_account_failures
    pub exact : more ≡ 0 → count ≡ c + end.0

  lapse-Bounded :
      (k : Key) (w : State R) (c more : ℕ) (end : ℕ × State R)
      → value_at R w.store (account_key app email) ≡ pos c
      → c ≤ login_account_failures
      → ((c' : ℕ)
          → value_at R (R.delete w.store k) (account_key app email) ≡ pos c'
          → c' ≤ login_account_failures
          → Bounded c' more end)
      → (own : Dec (k ≡ account_key app email)) → Bounded c (allowance own + more) end
  lapse-Bounded k w c more end e h rest (yes own) =
      let b = rest 0 (rw (own, L.get-delete_self w.store (account_key app email))) (omega arith) in
      record {
        told = omega (arith, b.told);
        count = b.count;
        left = b.left;
        within = b.within;
        exact = λ z. absurd (omega arith);
      }
  lapse-Bounded k w c more end e h rest (no other) =
      let kept =
        ap (λ (o : Option ℤ). or_default o (pos 0))
          (L.get-delete_ne w.store k (account_key app email) (λ same. other (sym same))) in
      let b = rest c (kept ∙ e) h in
      record {
        told = omega (arith, b.told);
        count = b.count;
        left = b.left;
        within = b.within;
        exact = λ z. b.exact (omega arith);
      }

  -- From a count c of an address's failures, at most five, any sequence of logins for it, from any
  -- clients and with any passwords, and of expiries of keys: the logins are told at most 5 - c
  -- times that the password is wrong, and five times more for each expiry of the count; the count
  -- ends at five at most, and at c and the number told where it did not expire.
  pub run_logins-Bounded :
      (events : List Event) (w : State R) (c : ℕ)
      → value_at R w.store (account_key app email) ≡ pos c
      → c ≤ login_account_failures
      → Bounded c (renewed (account_key app email) events) (run_logins R app email events w)
  unfolding run_logins
  run_logins-Bounded [] w c e h = record {
    told = omega arith;
    count = c;
    left = e;
    within = h;
    exact = λ z. omega arith;
  }
  run_logins-Bounded (guess (d', ip, password) ∷ events) w c e h =
      let (r, w') = login R app d' ip email password w in
      let (e', h') =
        counted d' ip password w c e h (r, w') (login-SignsIn R L app d' email password ip w) in
      let b = run_logins-Bounded events w' (c + told_wrong r) e' h' in
      record {
        told = omega (arith, b.told);
        count = b.count;
        left = b.left;
        within = b.within;
        exact = λ z. omega (arith, b.exact z);
      }
  run_logins-Bounded (lapse k ∷ events) w c e h =
      lapse-Bounded k w c (renewed (account_key app email) events)
        (run_logins R app email events (record w { store = R.delete w.store k })) e h
        (run_logins-Bounded events (record w { store = R.delete w.store k }))
        (Key-discrete k (account_key app email))
