-- ===== src/Action.antt =====
-- A coroutine of the backend: state passed along, and an end with a value, an `ApiError` or another
-- exception. What was written before an exception stays written.
use ufuk_ai_agent.Prelude.{◌≡◌, refl, ap, Option, none, some}
use ufuk_ai_agent.Errors.{ApiError, Outcome, ok, raise, crash}

abbrev pub Action : Type 0 → Type 0 → Type 0
Action S A = S → Outcome A × S

module _ {S A : Type 0} where
  abbrev pub pure : A → Action S A
  pure a s = (ok a, s)

  abbrev pub or_raise : Option A → ApiError → Action S A
  or_raise none e s = (raise e, s)
  or_raise (some a) e s = (ok a, s)

  -- Where none stands for an exception that is no `ApiError`.
  abbrev pub or_crash : Option A → Action S A
  or_crash none s = (crash, s)
  or_crash (some a) s = (ok a, s)

  -- An outcome that leaves the state.
  abbrev pub lift : Outcome A → Action S A
  lift r s = (r, s)

infixl 5 ◌>>=◌ ◌>>◌
abbrev pub ◌>>=◌ : {S A B : Type 0} → Action S A → (A → Action S B) → Action S B
◌>>=◌ m f s =
    let (r, s') = m s in elim r [ ok a ↦ f a s' | raise e ↦ (raise e, s') | crash ↦ (crash, s') ]

abbrev pub ◌>>◌ : {S B : Type 0} → Action S (Unit {0}) → Action S B → Action S B
m >> k = m >>= λ _. k

-- What holds of every end of the first part, and of what follows its values, holds of the whole.
pub >>=-post :
    {S A B : Type 0} (Q : Outcome B × S → Type 0) (m : Action S A) (f : A → Action S B) (s : S)
    → ((a : A) (s' : S) → m s ≡ (ok a, s') → Q (f a s'))
    → ((e : ApiError) (s' : S) → m s ≡ (raise e, s') → Q (raise e, s'))
    → ((s' : S) → m s ≡ (crash, s') → Q (crash, s'))
    → Q ((m >>= f) s)
>>=-post {S} {A} Q m f s on_ok on_raise on_crash = go (m s) refl
  where
    go :
        (r : Outcome A × S)
        → m s ≡ r
        → Q (elim r.0 [ ok a ↦ f a r.1 | raise e ↦ (raise e, r.1) | crash ↦ (crash, r.1) ])
    go (Outcome.ok a, s') e = on_ok a s' e
    go (Outcome.raise x, s') e = on_raise x s' e
    go (Outcome.crash, s') e = on_crash s' e

pub >>=-ok :
    {S A B : Type 0} (m : Action S A) (f : A → Action S B) (s s' : S) (a : A)
    → m s ≡ (ok a, s')
    → (m >>= f) s ≡ f a s'
>>=-ok {S} {A} {B} m f s s' a e = ap continue e
  where
    continue : Outcome A × S → Outcome B × S
    continue r = elim r.0 [ ok a ↦ f a r.1 | raise e ↦ (raise e, r.1) | crash ↦ (crash, r.1) ]
