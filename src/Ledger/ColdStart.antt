-- ===== src/Ledger/ColdStart.antt =====
-- Two requests that find no ledger key at once: `ensure_ledger_synced` reads the key, sums the rows
-- and writes the sum, three awaits of which another request's commands may come in between.
use ufuk_ai_agent.Prelude.{
  ℕ, ◌+◌, ◌≤◌, ◌<◌, ◌≡◌, ap, Bool, true, false, none, some, List, [], ◌∷◌, arith,
}
use ufuk_ai_agent.Prelude.Int.{pos, ◌+ℤ◌}
use ufuk_ai_agent.Models.{UsageEvent}
use ufuk_ai_agent.Credits.{quantize_credits}
use ufuk_ai_agent.Redis.{Redis, Key, IsLawful, value_at}
use ufuk_ai_agent.Ledger.{period_total}
use ufuk_ai_agent.Ledger.Laws.{quantize_credits_whole}
use ufuk_ai_agent.Ledger.Race.{Process, waiting, admitted, advance}

-- A request before and after the sync, with its amount; `loaded` holds the sum that it read.
pub data ColdProcess : Type 0 where
  start : ℕ → ColdProcess
  loaded : ℕ → ℕ → ColdProcess
  synced : Process → ColdProcess

module _ (R : Redis) (rows : List UsageEvent) (user period_key period_start period_end : ℕ) where
  -- One step of a request: the key's read with the sum of the rows, the write, or a command of
  -- `reserve`.
  unfoldable pub cold_advance : ℕ → ℕ → ColdProcess → R.Store → ColdProcess × R.Store
  unfolding quantize_credits
  cold_advance ttl limit (start a) s = elim (R.get s (Key.credits user period_key)) [
    | some _ ↦ (synced (waiting a), s)
    | none ↦ (loaded a (quantize_credits (period_total rows user period_start period_end) 1), s)
  ]
  cold_advance ttl limit (loaded a total) s =
      (synced (waiting a), R.set s (Key.credits user period_key) (pos total) ttl)
  cold_advance ttl limit (synced p) s =
      let (p', s') = advance R (Key.credits user period_key) limit p s in (synced p', s')

  -- A schedule of two requests: `false` is a step of the first.
  unfoldable pub cold_run :
      ℕ → ℕ → List Bool → ColdProcess → ColdProcess → R.Store → ColdProcess × ColdProcess × R.Store
  cold_run ttl limit [] p q s = (p, q, s)
  cold_run ttl limit (false ∷ turns) p q s =
      let (p', s') = cold_advance ttl limit p s in cold_run ttl limit turns p' q s'
  cold_run ttl limit (true ∷ turns) p q s =
      let (q', s') = cold_advance ttl limit q s in cold_run ttl limit turns p q' s'

-- Both read, then the first writes and reserves, then the second writes and reserves.
abbrev pub racing : List Bool
racing = false ∷ true ∷ false ∷ false ∷ true ∷ true ∷ []

module _ (R : Redis) (L : IsLawful R) (rows : List UsageEvent)
    (user period_key period_start period_end : ℕ) where
  abbrev key : Key
  key = Key.credits user period_key

  pub advance_fits :
      (limit a base ttl : ℕ) (s : R.Store)
      → 0 < ttl
      → base + a ≤ limit
      → let (p, s') = advance R key limit (waiting a) (R.set s key (pos base) ttl) in
        (p ≡ admitted a) × (R.get s' key ≡ some (pos (base + a)))
  unfolding advance ◌+ℤ◌
  advance_fits limit a base ttl s t h =
      let e : value_at R (R.set s key (pos base) ttl) key ≡ pos base =
        rw (L.get-set_self s key (pos base) ttl t) in
      ground (
        arith,
        L.get-set_self s key (pos base) ttl t,
        L.reply-incrby (R.set s key (pos base) ttl) key (pos a),
        L.get-incrby_self (R.set s key (pos base) ttl) key (pos a),
      )

  cold_advance_miss :
      (ttl limit a : ℕ) (s : R.Store)
      → R.get s key ≡ none
      → cold_advance R rows user period_key period_start period_end ttl limit (start a) s
        ≡ (loaded a (period_total rows user period_start period_end), s)
  unfolding cold_advance
  cold_advance_miss ttl limit a s missing =
      ground (arith, quantize_credits_whole (period_total rows user period_start period_end))

  -- Two requests that find no ledger key, in the order read, read, write and reserve, write and
  -- reserve, are both admitted if each alone fits, and, with a positive time to live, the counter
  -- ends without the first one's amount.
  pub cold_start_race :
      (limit a b ttl : ℕ) (s : R.Store)
      → R.get s key ≡ none
      → 0 < ttl
      → period_total rows user period_start period_end + a ≤ limit
      → period_total rows user period_start period_end + b ≤ limit
      → let (p, q, s') =
          cold_run R rows user period_key period_start period_end ttl limit racing
            (start a)
            (start b)
            s in
        (p ≡ synced (admitted a))
        × (q ≡ synced (admitted b))
        × (R.get s' key ≡ some (pos (period_total rows user period_start period_end + b)))
  unfolding cold_run
  cold_start_race limit a b ttl s missing t ha hb =
      let base = period_total rows user period_start period_end in
      let after_first = (advance R key limit (waiting a) (R.set s key (pos base) ttl)).1 in
      let (first, _) = advance_fits limit a base ttl s t ha in
      let (second, last) = advance_fits limit b base ttl after_first t hb in
      rw (cold_advance_miss ttl limit a s missing, cold_advance_miss ttl limit b s missing)
        (unfold cold_advance in (ap synced first, ap synced second, last))
