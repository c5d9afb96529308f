-- ===== src/Auth/Shared.antt =====
-- Rows that a query finds, and tokens that are revoked.
use ufuk_ai_agent.Prelude.{ℕ, ◌≡◌, refl, Bool, true, false, some, List, [], ◌∷◌, any, arith}
use ufuk_ai_agent.Subscriptions.Tables.{first}
use ufuk_ai_agent.Auth.{RefreshToken, change_first, is_live, revoke_all_user_tokens}

pub first-change_first {ℓ} :
    {A : Type ℓ} (p : A → Bool) (f : A → A) (xs : List A) (x : A)
    → p (f x) ≡ true
    → first p xs ≡ some x
    → first p (change_first p f xs) ≡ some (f x)
unfolding first change_first
first-change_first p f [] x h e = cc
first-change_first p f (y ∷ xs) x h e = ground (arith, first-change_first p f xs x h)

pub first_passes {ℓ} :
    {A : Type ℓ} (p : A → Bool) (xs : List A) (x : A) → first p xs ≡ some x → p x ≡ true
unfolding first
first_passes p [] x e = cc
first_passes p (y ∷ xs) x e = ground (arith, first_passes p xs x)

pub revoke_all_user_tokens-none_live :
    (user now : ℕ) (rows : List RefreshToken)
    → any (is_live user) (revoke_all_user_tokens user now rows) ≡ false
unfolding revoke_all_user_tokens
revoke_all_user_tokens-none_live user now [] = refl
revoke_all_user_tokens-none_live user now (r ∷ rows) =
    ground (arith, revoke_all_user_tokens-none_live user now rows)
