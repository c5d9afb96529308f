-- ===== src/Ledger/Race.antt =====
-- Any number of requests reserving at once. A request is two commands of `CreditLedger.reserve`:
-- the increment, and the roll back of a refused one. A schedule says whose command runs next.
use ufuk_ai_agent.Prelude.{
  ℕ, zero, suc, ◌+◌, ◌≤◌, ◌≡◌, refl, ap, ◌∙◌, List, [], ◌∷◌, arith, sum_by, if◌then◌else◌,
}
use ufuk_ai_agent.Prelude.Int.{pos, ◌+ℤ◌, ◌-ℤ◌, ltb_ℤ}
use ufuk_ai_agent.Errors.{Outcome, ok, raise, api_error}
use ufuk_ai_agent.Redis.{Redis, Key, IsLawful, value_at}
use ufuk_ai_agent.Ledger.{reserve}
use ufuk_ai_agent.Ledger.Laws.{value_at-incrby_self}

-- Where a request stands in `reserve`, with its amount.
pub data Process : Type 0 where
  waiting : ℕ → Process
  rolling : ℕ → Process
  admitted : ℕ → Process
  refused : Process

-- What the request has admitted, and what it has put on the counter.
abbrev pub granted : Process → ℕ
granted (waiting a) = 0
granted (rolling a) = 0
granted (admitted a) = a
granted refused = 0

abbrev pub held : Process → ℕ
held (waiting a) = 0
held (rolling a) = a
held (admitted a) = a
held refused = 0

-- What a refused request has still to take off the counter.
abbrev pub owed : Process → ℕ
owed (waiting a) = 0
owed (rolling a) = a
owed (admitted a) = 0
owed refused = 0

unfoldable pub fresh_requests : List ℕ → List Process
fresh_requests [] = []
fresh_requests (a ∷ amounts) = waiting a ∷ fresh_requests amounts

module _ (R : Redis) (key : Key) (limit : ℕ) where
  -- One command of `reserve`.
  unfoldable pub advance : Process → R.Store → Process × R.Store
  advance (waiting a) s =
      let (value, s') = R.incrby s key (pos a) in
      (if ltb_ℤ (pos limit) value then rolling a else admitted a, s')
  advance (rolling a) s = (refused, (R.incrby s key (pos 0 -ℤ pos a)).1)
  advance (admitted a) s = (admitted a, s)
  advance refused s = (refused, s)

  -- The request at a position runs one command; a position out of range does nothing.
  unfoldable pub step_at : ℕ → List Process → R.Store → List Process × R.Store
  unfolding advance
  step_at i [] s = ([], s)
  step_at zero (p ∷ ps) s = let (p', s') = advance p s in (p' ∷ ps, s')
  step_at (suc i) (p ∷ ps) s = let (ps', s') = step_at i ps s in (p ∷ ps', s')

  unfoldable pub run_schedule : List ℕ → List Process → R.Store → List Process × R.Store
  unfolding step_at
  run_schedule [] ps s = (ps, s)
  run_schedule (i ∷ is) ps s = let (ps', s') = step_at i ps s in run_schedule is ps' s'

abbrev pub result : Process → Outcome (Unit {0})
result (waiting a) = Outcome.crash
result (rolling a) = Outcome.crash
result (admitted a) = ok tt
result refused = raise (api_error 402 "quota_exceeded")

-- A request that runs alone is `reserve`.
pub reserve-advance :
    (R : Redis) (key : Key) (a limit : ℕ) (s : R.Store)
    → reserve R s key a limit ≡ (
        let (ps, s') = run_schedule R key limit (0 ∷ 0 ∷ []) (waiting a ∷ []) s in
        (elim ps [ [] ↦ Outcome.crash | p ∷ _ ↦ result p ], s'))
unfolding reserve run_schedule
reserve-advance R key a limit s = ground arith

sum_by-held : (ps : List Process) → sum_by held ps ≡ sum_by granted ps + sum_by owed ps
sum_by-held [] = refl
sum_by-held (waiting a ∷ ps) = omega (arith, sum_by-held ps)
sum_by-held (rolling a ∷ ps) = omega (arith, sum_by-held ps)
sum_by-held (admitted a ∷ ps) = omega (arith, sum_by-held ps)
sum_by-held (refused ∷ ps) = omega (arith, sum_by-held ps)

fresh-sums :
    (amounts : List ℕ)
    → (sum_by held (fresh_requests amounts) ≡ 0) × (sum_by granted (fresh_requests amounts) ≡ 0)
unfolding fresh_requests
fresh-sums [] = (refl, refl)
fresh-sums (a ∷ amounts) = let (h, g) = fresh-sums amounts in (omega arith, omega arith)

module _ (R : Redis) (L : IsLawful R) (key : Key) (limit : ℕ) where
  -- `outside` is what stood on the counter before any of the requests, `spent` the granted part.
  pub record Inv (outside spent : ℕ) (ps : List Process) (s : R.Store) : Type 0 where
    pub counted : value_at R s key ≡ pos (outside + sum_by held ps)
    pub within : spent + sum_by granted ps ≤ limit
    pub below : spent ≤ outside

  advance-Inv :
      (outside spent : ℕ) (p : Process) (ps : List Process) (s : R.Store)
      → Inv outside spent (p ∷ ps) s
      → let (p', s') = advance R key limit p s in Inv outside spent (p' ∷ ps) s'
  unfolding advance ◌+ℤ◌ ◌-ℤ◌
  advance-Inv outside spent (waiting a) ps s h =
      ground (
        arith,
        L.reply-incrby s key (pos a),
        value_at-incrby_self R L s key (pos a),
        sum_by-held ps,
      )
  advance-Inv outside spent (rolling a) ps s h =
      ground (arith, value_at-incrby_self R L s key (pos 0 -ℤ pos a), sum_by-held ps)
  advance-Inv outside spent (admitted a) ps s h = h
  advance-Inv outside spent refused ps s h = h

  -- The invariant at the tail of the list takes the head's parts into its two totals.
  Inv-shift :
      (outside spent : ℕ) (p : Process) (ps : List Process) (s : R.Store)
      → Inv outside spent (p ∷ ps) s
      → Inv (outside + held p) (spent + granted p) ps s
  Inv-shift outside spent (waiting a) ps s h = ground arith
  Inv-shift outside spent (rolling a) ps s h = ground arith
  Inv-shift outside spent (admitted a) ps s h = ground arith
  Inv-shift outside spent refused ps s h = ground arith

  Inv-unshift :
      (outside spent : ℕ) (p : Process) (ps : List Process) (s : R.Store)
      → spent ≤ outside
      → Inv (outside + held p) (spent + granted p) ps s
      → Inv outside spent (p ∷ ps) s
  Inv-unshift outside spent (waiting a) ps s b h = ground arith
  Inv-unshift outside spent (rolling a) ps s b h = ground arith
  Inv-unshift outside spent (admitted a) ps s b h = ground arith
  Inv-unshift outside spent refused ps s b h = ground arith

  step_at-Inv :
      (i outside spent : ℕ) (ps : List Process) (s : R.Store)
      → Inv outside spent ps s
      → let (ps', s') = step_at R key limit i ps s in Inv outside spent ps' s'
  unfolding step_at
  step_at-Inv i outside spent [] s h = h
  step_at-Inv zero outside spent (p ∷ ps) s h = advance-Inv outside spent p ps s h
  step_at-Inv (suc i) outside spent (p ∷ ps) s h =
      Inv-unshift outside spent p _ _ h.below (
        step_at-Inv i (outside + held p) (spent + granted p) ps s
          (Inv-shift outside spent p ps s h))

  run_schedule-Inv :
      (is : List ℕ) (outside spent : ℕ) (ps : List Process) (s : R.Store)
      → Inv outside spent ps s
      → let (ps', s') = run_schedule R key limit is ps s in Inv outside spent ps' s'
  unfolding run_schedule
  run_schedule-Inv [] outside spent ps s h = h
  run_schedule-Inv (i ∷ is) outside spent ps s h =
      run_schedule-Inv is outside spent _ _ (step_at-Inv i outside spent ps s h)

  -- Any number of requests reserve at once on a counter that starts at or below the limit, and
  -- their Redis commands interleave in any order: the amounts admitted, with what was spent
  -- before, never exceed the limit, and the counter is what was spent, plus the admitted, plus
  -- what refused requests have still to roll back.
  pub run_schedule_within_limit :
      (is amounts : List ℕ) (before : ℕ) (s : R.Store)
      → value_at R s key ≡ pos before
      → before ≤ limit
      → let (ps, s') = run_schedule R key limit is (fresh_requests amounts) s in
        (before + sum_by granted ps ≤ limit)
        × (value_at R s' key ≡ pos (before + sum_by granted ps + sum_by owed ps))
  run_schedule_within_limit is amounts before s e h =
      let inv = run_schedule-Inv is before before (fresh_requests amounts) s (record {
        counted = rw ((fresh-sums amounts).0, e) (ap pos (omega arith));
        within = rw ((fresh-sums amounts).1) (omega arith);
        below = omega arith;
      }) in
      (inv.within, inv.counted ∙ ap pos (omega (arith, sum_by-held _)))
