-- ===== src/Limits/Guard/Slots.antt =====
-- The in-flight counter of session_guard.py under acquisitions and releases.
use ufuk_ai_agent.Prelude.{
  ℕ, zero, suc, ◌+◌, ◌≤◌, ◌≡◌, refl, ◌∙◌, inl, inr, Bool-cases, Bool, true, false, Option, none,
  some, List, [], ◌∷◌, arith,
}
use ufuk_ai_agent.Prelude.Int.{ℤ, pos, negsuc, ◌+ℤ◌, ◌-ℤ◌, ◌≤ℤ◌, ltb_ℤ, eq_ℤ, max_ℤ, int_laws}
use ufuk_ai_agent.Errors.{Outcome, ok}
use ufuk_ai_agent.Redis.{Redis, Key, IsLawful, value_at}
use ufuk_ai_agent.Limits.Guard.{
  concurrency_slot_ttl_seconds, concurrency_error, start_ttl, acquire_slot, release_slot,
}

over_step : (limit : ℕ) (v : ℤ) → ltb_ℤ (pos limit) (v +ℤ pos 1) ≡ true → pos limit ≤ℤ v
unfolding ◌+ℤ◌
over_step limit v h = ground arith

floor_negative : (v : ℤ) → ltb_ℤ (v +ℤ negsuc 0) (pos 0) ≡ true → pos 0 ≡ max_ℤ (v -ℤ pos 1) (pos 0)
unfolding ◌+ℤ◌ ◌-ℤ◌
floor_negative v h = ground arith

floor_nonneg :
    (v : ℤ) → ltb_ℤ (v +ℤ negsuc 0) (pos 0) ≡ false → v +ℤ negsuc 0 ≡ max_ℤ (v -ℤ pos 1) (pos 0)
unfolding ◌+ℤ◌ ◌-ℤ◌
floor_nonneg v h = ground arith

-- A request that asks for a slot, one that holds a slot and gives it back, or the expiry of the
-- counter, which may come while slots are held.
pub data SlotOp : Type 0 where
  enter leave lapse : SlotOp

-- The slots that the expiries of a run may leave out of the counter.
abbrev pub uncounted : ℕ → List SlotOp → ℕ
uncounted limit [] = 0
uncounted limit (enter ∷ ops) = uncounted limit ops
uncounted limit (leave ∷ ops) = uncounted limit ops
uncounted limit (lapse ∷ ops) = limit + uncounted limit ops

abbrev gained : Outcome Bool → ℕ
gained (Outcome.ok true) = 1
gained (Outcome.ok false) = 0
gained (Outcome.raise _) = 0
gained Outcome.crash = 0

module _ (R : Redis) (user limit : ℕ) where
  -- One operation, on the number of slots held and the store.
  unfoldable pub slot_step : SlotOp → ℕ → R.Store → ℕ × R.Store
  slot_step enter held s = let (r, s') = acquire_slot R s user (some limit) in (held + gained r, s')
  slot_step leave zero s = (zero, s)
  slot_step leave (suc held) s = (held, release_slot R s user true)
  slot_step lapse held s = (held, R.delete s (Key.inflight user))

  unfoldable pub slot_run : List SlotOp → ℕ → R.Store → ℕ × R.Store
  unfolding slot_step
  slot_run [] held s = (held, s)
  slot_run (op ∷ ops) held s = let (held', s') = slot_step op held s in slot_run ops held' s'

module _ (R : Redis) (L : IsLawful R) (user : ℕ) where
  pub get-start_ttl :
      (s : R.Store) (key j : Key) (count : ℤ) → R.get (start_ttl R s key count) j ≡ R.get s j
  unfolding start_ttl
  get-start_ttl s key j count = elim (Bool-cases (eq_ℤ count (pos 1))) [
    | inl first ↦ rw first (L.get-expire s key j _ (omega arith))
    | inr later ↦ rw later
  ]

  -- What `acquire_slot` did, by how it ended.
  abbrev pub Acquires : (s : R.Store) → Option ℕ → Outcome Bool × R.Store → Type 0
  Acquires s none r = r ≡ (ok false, s)
  Acquires s (some limit) (Outcome.ok held, s') =
      (held ≡ true)
      × (value_at R s' (Key.inflight user) ≡ value_at R s (Key.inflight user) +ℤ pos 1)
      × (value_at R s' (Key.inflight user) ≤ℤ pos limit)
  Acquires s (some limit) (Outcome.raise e, s') =
      (e ≡ concurrency_error)
      × (value_at R s' (Key.inflight user) ≡ value_at R s (Key.inflight user))
      × (pos limit ≤ℤ value_at R s (Key.inflight user))
  Acquires s (some limit) (Outcome.crash, s') = ⊥

  -- `acquire_slot` with no limit returns false and touches nothing. With a limit it either returns
  -- true, adds one to the counter and leaves it at most the limit, or raises the concurrency
  -- error, keeps the counter's value and only where that is the limit or more.
  pub acquire_slot-Acquires :
      (s : R.Store) (limit : Option ℕ) → Acquires s limit (acquire_slot R s user limit)
  unfolding acquire_slot
  acquire_slot-Acquires s none = refl
  acquire_slot-Acquires s (some limit) =
      let key = Key.inflight user in
      let v = value_at R s key in
      let s₂ = start_ttl R (R.incrby s key (pos 1)).1 key (v +ℤ pos 1) in
      let counted : R.get s₂ key ≡ some (v +ℤ pos 1) =
        get-start_ttl _ key key _ ∙ L.get-incrby_self s key (pos 1) in
      elim (Bool-cases (ltb_ℤ (pos limit) (v +ℤ pos 1))) [
        | inl over ↦
            rw (L.reply-incrby s key (pos 1), over)
              (
                refl,
                rw (L.get-incrby_self s₂ key (negsuc 0), counted) (omega int_laws),
                over_step limit v over,
              )
        | inr fits ↦
            rw (L.reply-incrby s key (pos 1), fits) (refl, rw counted, rw counted (ground arith))
      ]

  -- The release of a held slot takes one off the counter and never leaves it negative.
  pub release_slot_lem :
      (s : R.Store)
      → value_at R (release_slot R s user true) (Key.inflight user)
        ≡ max_ℤ (value_at R s (Key.inflight user) -ℤ pos 1) (pos 0)
  unfolding release_slot
  release_slot_lem s =
      let key = Key.inflight user in
      let v = value_at R s key in
      elim (Bool-cases (ltb_ℤ (v +ℤ negsuc 0) (pos 0))) [
        | inl negative ↦
            rw (L.reply-incrby s key (negsuc 0), negative)
              (rw
                (L.get-set_self (R.incrby s key (negsuc 0)).1 key (pos 0)
                  concurrency_slot_ttl_seconds (omega arith))
                (floor_negative v negative))
        | inr fine ↦
            rw (L.reply-incrby s key (negsuc 0), fine)
              (rw (L.get-incrby_self s key (negsuc 0)) (floor_nonneg v fine))
      ]

  step_of_Acquires :
      (s : R.Store) (limit held : ℕ) (r : Outcome Bool × R.Store)
      → Acquires s (some limit) r
      → value_at R s (Key.inflight user) ≡ pos held
      → held ≤ limit
      → (value_at R r.1 (Key.inflight user) ≡ pos (held + gained r.0)) × (held + gained r.0 ≤ limit)
  unfolding ◌+ℤ◌
  step_of_Acquires s limit held (Outcome.ok true, s') h e b = ground arith
  step_of_Acquires s limit held (Outcome.ok false, s') h e b = cc (h.0)
  step_of_Acquires s limit held (Outcome.raise _, s') h e b = ground arith
  step_of_Acquires s limit held (Outcome.crash, s') h e b = absurd h

  -- The counter is at most the limit and the slots held; at most `missed` slots are not in it.
  abbrev pub Counts : (limit missed held : ℕ) → R.Store → Type 0
  Counts limit missed held s =
      (count : ℕ) × (value_at R s (Key.inflight user) ≡ pos count)
      × (count ≤ limit)
      × (count ≤ held)
      × (held ≤ count + missed)

  enter-Counts :
      (limit missed held : ℕ) (s : R.Store)
      → Counts limit missed held s
      → let (held', s') = slot_step R user limit enter held s in Counts limit missed held' s'
  unfolding slot_step
  enter-Counts limit missed held s (count, e, b, m, g) =
      let r = acquire_slot R s user (some limit) in
      let (e', b') = step_of_Acquires s limit count r (acquire_slot-Acquires s (some limit)) e b in
      (count + gained r.0, e', b', omega arith, omega arith)

  leave-Counts :
      (limit missed held : ℕ) (s : R.Store)
      → Counts limit missed held s
      → let (held', s') = slot_step R user limit leave held s in Counts limit missed held' s'
  unfolding slot_step ◌-ℤ◌
  leave-Counts limit missed zero s h = h
  leave-Counts limit missed (suc held) s (zero, e, b, m, g) =
      (0, ground (arith, release_slot_lem s), omega arith, omega arith, omega arith)
  leave-Counts limit missed (suc held) s (suc count, e, b, m, g) =
      (count, ground (arith, release_slot_lem s), omega arith, omega arith, omega arith)

  lapse-Counts :
      (limit missed held : ℕ) (s : R.Store)
      → Counts limit missed held s
      → let (held', s') = slot_step R user limit lapse held s in
        Counts limit (missed + limit) held' s'
  unfolding slot_step
  lapse-Counts limit missed held s (count, e, b, m, g) =
      (0, rw (L.get-delete_self s (Key.inflight user)), omega arith, omega arith, omega arith)

  widen :
      (limit more most held : ℕ) (s : R.Store)
      → more ≤ most
      → Counts limit more held s
      → Counts limit most held s
  widen limit more most held s h (count, e, b, m, g) = (count, e, b, m, omega arith)

  -- From a counter that is at most the limit and the slots held, with at most m slots that it
  -- misses: any sequence of requests that ask for a slot, of holders that give theirs back, and of
  -- expiries of the counter keeps it at most the limit and the slots held, and it misses at most m
  -- and, for each expiry, the limit. Without an expiry and with m = 0 the counter is the number of
  -- slots held.
  pub slot_run-Counts :
      (limit : ℕ) (ops : List SlotOp) (missed held : ℕ) (s : R.Store)
      → Counts limit missed held s
      → let (held', s') = slot_run R user limit ops held s in
        Counts limit (missed + uncounted limit ops) held' s'
  unfolding slot_run
  slot_run-Counts limit [] missed held s h = widen limit missed _ held s (omega arith) h
  slot_run-Counts limit (enter ∷ ops) missed held s h =
      slot_run-Counts limit ops missed _ _ (enter-Counts limit missed held s h)
  slot_run-Counts limit (leave ∷ ops) missed held s h =
      slot_run-Counts limit ops missed _ _ (leave-Counts limit missed held s h)
  slot_run-Counts limit (lapse ∷ ops) missed held s h =
      widen limit (missed + limit + uncounted limit ops) _ _ _ (omega arith)
        (slot_run-Counts limit ops (missed + limit) _ _ (lapse-Counts limit missed held s h))
