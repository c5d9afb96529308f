-- ===== src/Tiers/Cache/Coherence.antt =====
-- The cache against the table: what an entry holds, through any run of requests and changes.
use Prim.Native.String.{String}
use text.Mathlib.Text.{◌==◌ as str_eq}
use text.Mathlib.TextEquality.{eq_iff}
use ufuk_ai_agent.Prelude.{
  ℕ, ◌≡◌, ◌∙◌, sym, refl, inl, inr, Bool-cases, Option-cases, Bool, false, Option, none, some, List,
  [], ◌∷◌, ◌++◌, any, arith,
}
use ufuk_ai_agent.Prelude.Options.{Dict}
use ufuk_ai_agent.Errors.{Outcome}
use ufuk_ai_agent.Subscriptions.Tables.{first}
use ufuk_ai_agent.Auth.{change_first}
use ufuk_ai_agent.Tiers.{TierView}
use ufuk_ai_agent.Tiers.View.{Codec, IsFaithful, as_dict, from_dict}
use ufuk_ai_agent.Tiers.View.RoundTrip.{cached_view, cached_view-cached_view, from_dict-as_dict}
use ufuk_ai_agent.Tiers.Row.{ModelTier, TierUpdate, tier_to_view, apply_update}
use ufuk_ai_agent.Tiers.Cache.{
  Tiers, Command, put, serves, has_alias, has_id, load_tier, keep_tier, read_tier, get_tier,
  create_tier, update_tier, invalidate_tier, run_command, run_commands,
}

-- Each entry is the dictionary of the enabled row with its alias.
abbrev pub IsCoherent : Codec → Tiers → Type 0
IsCoherent c w =
    (alias : String) (d : Dict)
    → w.cache alias ≡ some d
    → (tier : ModelTier) × (load_tier alias w.rows ≡ some tier)
      × (d ≡ as_dict c (tier_to_view tier))

first-change_first {ℓ} :
    {A : Type ℓ} (p q : A → Bool) (f : A → A) (rows : List A) (x : A)
    → first q rows ≡ some x
    → p x ≡ false
    → p (f x) ≡ false
    → first p (change_first q f rows) ≡ first p rows
unfolding first change_first
first-change_first p q f [] x e h k = refl
first-change_first p q f (y ∷ rows) x e h k = ground (arith, first-change_first p q f rows x)

first-append_other {ℓ} :
    {A : Type ℓ} (p : A → Bool) (rows : List A) (x : A)
    → p x ≡ false
    → first p (rows ++ x ∷ []) ≡ first p rows
unfolding first
first-append_other p [] x h = rw h refl
first-append_other p (y ∷ rows) x h = ground (arith, first-append_other p rows x)

serves_other : (a : String) (tier : ModelTier) → str_eq a tier.alias ≡ false → serves a tier ≡ false
serves_other a tier h = ground (arith, eq_iff a tier.alias, eq_iff tier.alias a)

module _ (c : Codec) where
  -- A change of the rows of one alias, with its entry dropped.
  invalidate_tier-IsCoherent :
      (alias : String) (w : Tiers) (rows : List ModelTier)
      → ((a : String) → str_eq a alias ≡ false → load_tier a rows ≡ load_tier a w.rows)
      → IsCoherent c w
      → IsCoherent c (invalidate_tier alias (record w { rows = rows }))
  invalidate_tier-IsCoherent alias w rows same h a d e = elim (Bool-cases (str_eq a alias)) [
    | inl own ↦ absurd (gone (rw own at e))
    | inr other ↦
        let (tier, found, held) = h a d (rw other at e) in (tier, same a other ∙ found, held)
  ]
    where
      gone : Path (Option Dict) none (some d) → ⊥
      gone g = cc

  create_tier-IsCoherent :
      (tier : ModelTier) (w : Tiers) → IsCoherent c w → IsCoherent c (create_tier tier w).1
  unfolding create_tier load_tier
  create_tier-IsCoherent tier w h = elim (Bool-cases (any (has_alias tier.alias) w.rows)) [
    | inl taken ↦ rw taken h
    | inr new ↦ rw new (
        invalidate_tier-IsCoherent tier.alias w (w.rows ++ tier ∷ [])
          (λ a other. first-append_other (serves a) w.rows tier (serves_other a tier other)) h)
  ]

  update_tier-IsCoherent :
      (id : ℕ) (values : TierUpdate) (w : Tiers)
      → IsCoherent c w
      → IsCoherent c (update_tier id values w).1
  unfolding update_tier load_tier apply_update
  update_tier-IsCoherent id values w h = elim (Option-cases (first (has_id id) w.rows)) [
    | inl missing ↦ rw (update_tier, missing) h
    | inr (tier, found) ↦
        rw (update_tier, found)
          (invalidate_tier-IsCoherent tier.alias w
            (change_first (has_id id) (apply_update values) w.rows)
            (λ a other.
              first-change_first (serves a) (has_id id) (apply_update values) w.rows tier found
                (serves_other a tier other) (serves_other a (apply_update values tier) other))
            h)
  ]

  kept_entry :
      (alias : String) (w : Tiers) (tier : ModelTier)
      → load_tier alias w.rows ≡ some tier
      → IsCoherent c w
      → IsCoherent c (record w { cache = put alias (some (as_dict c (tier_to_view tier))) w.cache })
  kept_entry alias w tier e h a d held = elim (Bool-cases (str_eq a alias)) [
    | inl own ↦ (tier, rw ((eq_iff a alias).0 own) e, sym (same (rw own at held)))
    | inr other ↦ h a d (rw other at held)
  ]
    where
      same :
          Path (Option Dict) (some (as_dict c (tier_to_view tier))) (some d)
          → as_dict c (tier_to_view tier) ≡ d
      same g = cc

  keep_tier-IsCoherent :
      (alias : String) (w : Tiers)
      → (o : Option ModelTier) → load_tier alias w.rows ≡ o
      → IsCoherent c w
      → IsCoherent c (keep_tier c alias o w).1
  unfolding keep_tier
  keep_tier-IsCoherent alias w none e h = h
  keep_tier-IsCoherent alias w (some tier) e h = kept_entry alias w tier e h

  read_tier_keeps : (d : Dict) (w : Tiers) → (read_tier c d w).1 ≡ w
  unfolding read_tier
  read_tier_keeps d w = elim (Option-cases (from_dict c d)) [
    | inl broken ↦ rw (read_tier, broken) refl
    | inr (v, reads) ↦ rw (read_tier, reads) refl
  ]

  get_tier-IsCoherent :
      (alias : String) (w : Tiers) → IsCoherent c w → IsCoherent c (get_tier c alias w).1
  unfolding get_tier
  get_tier-IsCoherent alias w h = elim (Option-cases (w.cache alias)) [
    | inl missed ↦
        rw (get_tier, missed) (keep_tier-IsCoherent alias w (load_tier alias w.rows) refl h)
    | inr (d, hit) ↦ rw (get_tier, hit) (rw (read_tier_keeps d w) h)
  ]

  expire-IsCoherent :
      (alias : String) (w : Tiers) → IsCoherent c w → IsCoherent c (invalidate_tier alias w)
  expire-IsCoherent alias w h = invalidate_tier-IsCoherent alias w w.rows (λ a _. refl) h

  run_commands-IsCoherent :
      (commands : List Command) (w : Tiers)
      → IsCoherent c w
      → IsCoherent c (run_commands c commands w)
  unfolding run_commands
  run_commands-IsCoherent [] w h = h
  run_commands-IsCoherent (command ∷ commands) w h =
      run_commands-IsCoherent commands (run_command c command w) (by_command command)
    where
      by_command : (command : Command) → IsCoherent c (run_command c command w)
      by_command (Command.read alias) = unfold run_command in get_tier-IsCoherent alias w h
      by_command (Command.create tier) = unfold run_command in create_tier-IsCoherent tier w h
      by_command (Command.update id values) =
          unfold run_command in update_tier-IsCoherent id values w h
      by_command (Command.expire alias) = unfold run_command in expire-IsCoherent alias w h

-- What a request for a tier answers, against the table: no tier, or the view of the row.
abbrev pub Answers : String → List ModelTier → Outcome (Option TierView) → Type 0
Answers alias rows (Outcome.ok none) = load_tier alias rows ≡ none
Answers alias rows (Outcome.ok (some v)) =
    (tier : ModelTier) × (load_tier alias rows ≡ some tier)
    × (cached_view v ≡ cached_view (tier_to_view tier))
Answers alias rows (Outcome.raise _) = ⊥
Answers alias rows Outcome.crash = ⊥

module _ (c : Codec) (F : IsFaithful c) where
  answer_cached :
      (alias : String) (w : Tiers) (d : Dict) (tier : ModelTier)
      → load_tier alias w.rows ≡ some tier
      → d ≡ as_dict c (tier_to_view tier)
      → Answers alias w.rows (read_tier c d w).0
  unfolding read_tier
  answer_cached alias w d tier found held =
      rw (read_tier, held, from_dict-as_dict c F (tier_to_view tier))
        (tier, found, cached_view-cached_view (tier_to_view tier))

  answer_kept :
      (alias : String) (w : Tiers) (o : Option ModelTier)
      → load_tier alias w.rows ≡ o
      → Answers alias w.rows (keep_tier c alias o w).0
  unfolding keep_tier
  answer_kept alias w none e = e
  answer_kept alias w (some tier) e = (tier, e, refl)

  get_tier-Answers :
      (alias : String) (w : Tiers) → IsCoherent c w → Answers alias w.rows (get_tier c alias w).0
  unfolding get_tier
  get_tier-Answers alias w h = elim (Option-cases (w.cache alias)) [
    | inl missed ↦ rw (get_tier, missed) (answer_kept alias w (load_tier alias w.rows) refl)
    | inr (d, hit) ↦
        let (tier, found, held) = h alias d hit in
        rw (get_tier, hit) (answer_cached alias w d tier found held)
  ]

  -- From tables where each cache entry is the dictionary of the enabled row with its alias, after
  -- any sequence of reads, creations, updates and expiries, one at a time: `get_tier` answers none
  -- exactly where no enabled row has the alias, and else the view of that row, but for empty
  -- optional texts and levels of 0.
  pub run_commands-Answers :
      (commands : List Command) (w : Tiers) (alias : String)
      → IsCoherent c w
      → let w' = run_commands c commands w in Answers alias w'.rows (get_tier c alias w').0
  run_commands-Answers commands w alias h =
      get_tier-Answers alias (run_commands c commands w) (run_commands-IsCoherent c commands w h)
