-- ===== src/Auth/Rotation.antt =====
-- Repeated uses of a refresh token: `rotate_refresh_token` of auth_service.py.
use Prim.Native.String.{String}
use text.Mathlib.TextEquality.{eq_iff}
use ufuk_ai_agent.Prelude.{
  ℕ, ◌+◌, ◌≤◌, ◌≡◌, refl, ◌∙◌, Bool, true, false, none, some, is_some, List, [], ◌∷◌, ◌++◌, any,
  arith, inl, inr, Option-cases,
}
use ufuk_ai_agent.Errors.{ok, raise}
use ufuk_ai_agent.Subscriptions.Tables.{first}
use ufuk_ai_agent.Subscriptions.Grants.{first-append_hit, first-append_miss}
use ufuk_ai_agent.Auth.{
  User, RefreshToken, refresh_token_ttl, change_first, has_hash, is_live, revoke_all_user_tokens,
  refresh_row, auth_error, active_user, spent, rotate_refresh_token,
}
use ufuk_ai_agent.Auth.Shared.{first-change_first, first_passes, revoke_all_user_tokens-none_live}

module _ (sha256_hex : String → String) where
  -- A rotation that succeeded found a live row and spent it.
  rotated :
      (users : List User) (rows : List RefreshToken) (token new_token : String) (fresh now : ℕ)
      (user : ℕ) (answer : String) (row : RefreshToken)
      → first (has_hash (sha256_hex token)) rows ≡ some row
      → (rotate_refresh_token sha256_hex users rows token new_token fresh now).0 ≡ ok (user, answer)
      → (rotate_refresh_token sha256_hex users rows token new_token fresh now ≡ (
        ok (row.user_id, new_token),
        change_first (has_hash (sha256_hex token)) (spent now fresh) rows
            ++ refresh_row fresh row.user_id (sha256_hex new_token) (now + refresh_token_ttl) now
              ∷ [],
      ))
        × (row.user_id ≡ user)
  unfolding rotate_refresh_token
  rotated users rows token new_token fresh now user answer row found done =
      (ground arith, ground arith)

  -- A row that was revoked already takes every session of its user down.
  reused :
      (users : List User) (rows : List RefreshToken) (token new_token : String) (fresh now : ℕ)
      (row : RefreshToken)
      → first (has_hash (sha256_hex token)) rows ≡ some row
      → is_some row.revoked_at ≡ true
      → rotate_refresh_token sha256_hex users rows token new_token fresh now
        ≡ (raise (auth_error "refresh_token_reused"), revoke_all_user_tokens row.user_id now rows)
  unfolding rotate_refresh_token
  reused users rows token new_token fresh now row found old = ground arith

  unknown :
      (users : List User) (rows : List RefreshToken) (token new_token : String) (fresh now : ℕ)
      (user : ℕ) (answer : String)
      → first (has_hash (sha256_hex token)) rows ≡ none
      → (rotate_refresh_token sha256_hex users rows token new_token fresh now).0 ≡ ok (user, answer)
      → ⊥
  unfolding rotate_refresh_token
  unknown users rows token new_token fresh now user answer missing done = ground arith

  -- After a refresh token was rotated with success, a second use of the same token on the table it
  -- left raises `refresh_token_reused`, and then the user has no live refresh token, the
  -- replacement included.
  pub rotate_refresh_token_reuse :
      (users : List User) (rows : List RefreshToken) (token new_token : String) (fresh now : ℕ)
      (user : ℕ) (answer : String) (users' : List User) (new_token' : String) (fresh' now' : ℕ)
      → (rotate_refresh_token sha256_hex users rows token new_token fresh now).0 ≡ ok (user, answer)
      → let rows' = (rotate_refresh_token sha256_hex users rows token new_token fresh now).1 in
        let (again, rows'') =
          rotate_refresh_token sha256_hex users' rows' token new_token' fresh' now' in
        (again ≡ raise (auth_error "refresh_token_reused")) × (any (is_live user) rows'' ≡ false)
  rotate_refresh_token_reuse users rows token new_token fresh now user answer users' new_token'
        fresh' now' done =
      let h = has_hash (sha256_hex token) in
      elim (Option-cases (first h rows)) [
        | inl missing ↦
            absurd (unknown users rows token new_token fresh now user answer missing done)
        | inr (row, found) ↦
            let (step, owner) =
              rotated users rows token new_token fresh now user answer row found done in
            let inserted =
              refresh_row fresh row.user_id (sha256_hex new_token) (now + refresh_token_ttl) now in
            let kept =
              first-append_hit h (change_first h (spent now fresh) rows) (inserted ∷ [])
                (spent now fresh row)
                (first-change_first h (spent now fresh) rows row (first_passes h rows row found)
                  found) in
            rw
              (
                step,
                reused users' (change_first h (spent now fresh) rows ++ inserted ∷ []) token
                    new_token' fresh' now' (spent now fresh row) kept refl,
              )
              (refl, rw owner (revoke_all_user_tokens-none_live user now' _))
      ]

  unused :
      (users : List User) (rows : List RefreshToken) (token new_token : String) (fresh now : ℕ)
      (user : ℕ) (answer : String)
      → (rotate_refresh_token sha256_hex users rows token new_token fresh now).0 ≡ ok (user, answer)
      → (any (has_hash (sha256_hex new_token)) rows ≡ false) × (answer ≡ new_token)
  unfolding rotate_refresh_token
  unused users rows token new_token fresh now user answer done = (ground arith, ground arith)

  any-spent :
      (p : RefreshToken → Bool) (hash : String) (now fresh : ℕ) (rows : List RefreshToken)
      → any (has_hash hash) (change_first p (spent now fresh) rows) ≡ any (has_hash hash) rows
  unfolding change_first
  any-spent p hash now fresh [] = refl
  any-spent p hash now fresh (r ∷ rows) = ground (arith, any-spent p hash now fresh rows)

  rotates :
      (users : List User) (rows : List RefreshToken) (token new_token : String) (fresh now : ℕ)
      (row : RefreshToken)
      → first (has_hash (sha256_hex token)) rows ≡ some row
      → row.revoked_at ≡ none
      → now ≤ row.expires_at
      → active_user row.user_id users ≡ true
      → any (has_hash (sha256_hex new_token)) rows ≡ false
      → (rotate_refresh_token sha256_hex users rows token new_token fresh now).0
        ≡ ok (row.user_id, new_token)
  unfolding rotate_refresh_token
  rotates users rows token new_token fresh now row found live early here unseen = ground arith

  -- The token that a rotation returned is itself rotated, on the table it left, with success as
  -- long as its user is active, its thirty days are not over and the next token's hash is not
  -- taken.
  pub rotate_refresh_token_chain :
      (users : List User) (rows : List RefreshToken) (token new_token : String) (fresh now : ℕ)
      (user : ℕ) (answer : String) (users' : List User) (next : String) (fresh' now' : ℕ)
      → (rotate_refresh_token sha256_hex users rows token new_token fresh now).0 ≡ ok (user, answer)
      → active_user user users' ≡ true
      → now' ≤ now + refresh_token_ttl
      → any
          (has_hash (sha256_hex next))
          (rotate_refresh_token sha256_hex users rows token new_token fresh now).1
        ≡ false
      → (rotate_refresh_token sha256_hex users'
          (rotate_refresh_token sha256_hex users rows token new_token fresh now).1
          answer
          next
          fresh'
          now').0
        ≡ ok (user, next)
  rotate_refresh_token_chain users rows token new_token fresh now user answer users' next fresh'
        now' done here early unseen =
      let h = has_hash (sha256_hex token) in
      elim (Option-cases (first h rows)) [
        | inl missing ↦
            absurd (unknown users rows token new_token fresh now user answer missing done)
        | inr (row, found) ↦
            let (step, owner) =
              rotated users rows token new_token fresh now user answer row found done in
            let (never, named) = unused users rows token new_token fresh now user answer done in
            let inserted =
              refresh_row fresh row.user_id (sha256_hex new_token) (now + refresh_token_ttl) now in
            let table = change_first h (spent now fresh) rows in
            let newest =
              first-append_miss (has_hash (sha256_hex new_token)) table inserted
                (any-spent h (sha256_hex new_token) now fresh rows ∙ never)
                (ground (arith, eq_iff (sha256_hex new_token) (sha256_hex new_token))) in
            rw (named, step)
              (rotates users' (table ++ inserted ∷ []) new_token next fresh' now' inserted newest
                  refl early (rw owner here) (rw step at unseen)
                ∙ rw owner)
      ]
