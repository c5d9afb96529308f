-- ===== src/SignIn/Identities.antt =====
-- What `find_or_create_user` of oauth_service.py returns and changes.
use Prim.Native.String.{String}
use text.Mathlib.Text.{◌==◌ as str_eq}
use text.Mathlib.TextEquality.{eq_iff}
use ufuk_ai_agent.Prelude.{
  ◌≡◌, refl, subst, ◌∙◌, inl, inr, ◌⊎◌, Bool-cases, Bool, true, false, not, ◌&&◌, Option, none,
  some, is_some, [], ◌∷◌, ◌++◌, any, arith, if◌then◌else◌,
}
use ufuk_ai_agent.Errors.{Outcome, ok, raise}
use ufuk_ai_agent.Auth.{change_first}
use ufuk_ai_agent.SignIn.Lookup.{Bound, Known, has_identity-Bound, find_account-Known}
use ufuk_ai_agent.SignIn.{
  Account, OauthIdentity, Setup, Times, Users, normalize_email, insert_account, oauth_failed,
  has_identity, find_account, bind_identity, complete, link_account, has_id, chosen_name, clashes,
  new_account, create_account, link_bound, find_or_create_user,
}

same_string : (s : String) → str_eq s s ≡ true
same_string s = ground (arith, eq_iff s s)

-- An account that this identity may use.
pub record Usable (provider subject : String) (a : Account) : Type 0 where
  pub bound : Bound provider subject a
  pub enabled : a.is_active ≡ true
  pub verified : a.email_verified ≡ true

-- The account before, and what signing in leaves of it.
pub record Kept (old a : Account) : Type 0 where
  pub id : a.id ≡ old.id
  pub email : a.email ≡ old.email
  pub password_hash : a.password_hash ≡ old.password_hash
  pub role : a.role ≡ old.role

-- By whether the identity could be bound.
abbrev Binds : String → String → Account → Option Account → Type 0
Binds provider subject old none = Unit
Binds provider subject old (some bound) =
    (has_identity provider subject bound ≡ true)
    × (bound.is_active ≡ old.is_active)
    × Kept old bound

own_identity :
    (provider : String) (identity : OauthIdentity) (old : Account)
    → has_identity provider identity.subject
        (record old { auth_provider = some provider; provider_subject = some identity.subject })
      ≡ true
own_identity provider identity old = rw (same_string provider, same_string identity.subject) refl

bind_identity-Binds :
    (provider : String) (identity : OauthIdentity) (old : Account)
    → Binds provider identity.subject old (bind_identity provider identity old)
unfolding bind_identity
bind_identity-Binds provider identity old =
    elim (Bool-cases (not (is_some old.auth_provider) && not (is_some old.provider_subject))) [
      | inl free ↦
          rw (bind_identity, free)
            (
              own_identity provider identity old,
              refl,
              record { id = refl; email = refl; password_hash = refl; role = refl },
            )
      | inr taken ↦ elim (Bool-cases (has_identity provider identity.subject old)) [
        | inl own ↦
            rw (bind_identity, taken, own)
              (own, refl, record { id = refl; email = refl; password_hash = refl; role = refl })
        | inr other ↦ rw (bind_identity, taken, other) tt
      ]
    ]

-- How a sign-in ends.
abbrev pub Identifies :
    Setup → Times → String → OauthIdentity → Users → Outcome Account × Users → Type 0
Identifies c d provider identity w (Outcome.ok a, w') =
    Usable provider identity.subject a
    × (((old : Account) × Known provider identity.subject (normalize_email c identity.email)
            w.accounts (some old)
          × Kept old a
          × (w'.subs ≡ w.subs)
          × (w'.accounts ≡ change_first (has_id old.id) (λ _. a) w.accounts))
        ⊎ (Known provider identity.subject (normalize_email c identity.email) w.accounts none
            × (a.password_hash ≡ none)
            × (a.email ≡ normalize_email c identity.email)
            × (w'.accounts ≡ (w.accounts ++ d.raced) ++ a ∷ [])))
Identifies c d provider identity w (Outcome.raise e, w') = (e ≡ oauth_failed) × (w' ≡ w)
Identifies c d provider identity w (Outcome.crash, w') =
    w' ≡ record w { accounts = w.accounts ++ d.raced }

module _ (c : Setup) (d : Times) (provider : String) (identity : OauthIdentity) (w : Users) where
  abbrev normalized : String
  normalized = normalize_email c identity.email

  link_bound-Identifies :
      (name : Option String) (old : Account)
      → Known provider identity.subject normalized w.accounts (some old)
      → old.is_active ≡ true
      → Identifies c d provider identity w (link_bound provider identity name old w)
  unfolding link_bound complete
  link_bound-Identifies name old found enabled = go _ (bind_identity-Binds provider identity old)
    where
      go :
          (r : Option Account)
          → Binds provider identity.subject old r
          → Identifies c d provider identity w (elim r [
            | none ↦ (raise oauth_failed, w)
            | some bound ↦
                let linked = complete name bound in
                (
                  ok linked,
                  record w { accounts = change_first (has_id old.id) (λ _. linked) w.accounts },
                )
          ])
      go none h = (refl, refl)
      go (some bound) h = (
        record {
          bound = has_identity-Bound provider identity.subject bound h.0;
          enabled = h.1 ∙ enabled;
          verified = refl;
        },
        inl (
          old,
          found,
          record {
            id = h.2.id;
            email = h.2.email;
            password_hash = h.2.password_hash;
            role = h.2.role;
          },
          refl,
          refl,
        ),
      )

  link_account-Identifies :
      (name : Option String) (old : Account)
      → Known provider identity.subject normalized w.accounts (some old)
      → Identifies c d provider identity w (link_account provider identity name old w)
  unfolding link_account
  link_account-Identifies name old found = go old.is_active refl
    where
      go :
          (b : Bool)
          → old.is_active ≡ b
          → Identifies c d provider identity w
              (if not b then (raise oauth_failed, w) else link_bound provider identity name old w)
      go true enabled = link_bound-Identifies name old found enabled
      go false disabled = (refl, refl)

  create_account-Identifies :
      (name : Option String) (accept_terms : Bool)
      → Known provider identity.subject normalized w.accounts none
      → Identifies c d provider identity w
          (create_account c d (new_account c d provider identity name accept_terms) w)
  unfolding create_account insert_account
  create_account-Identifies name accept_terms missing =
      elim (Bool-cases (
        any (clashes (new_account c d provider identity name accept_terms))
          (w.accounts ++ d.raced))) [
            | inl taken ↦ rw (create_account, insert_account, taken) refl
            | inr free ↦
                rw (create_account, insert_account, free)
                  (
                    record { bound = (refl, refl); enabled = refl; verified = refl },
                    inr (missing, refl, refl, refl),
                  )
          ]

  -- How a sign-in with a provider's identity ends. With an account: its row holds this provider
  -- and subject, it is active, and its address is verified; and it is either an account of the
  -- table, with its id, address, password and role as they were, and no other row changed, or a
  -- new one without a password for the normalised address. The first was bound to the identity
  -- before, or no account was and it has the normalised address; the second comes only where no
  -- account is bound to the identity and none has the address. With an error: it is
  -- `oauth_failed`, and nothing changes. With any other exception: nothing changes but the rows of
  -- other transactions.
  pub find_or_create_user-Identifies :
      (override : Option String) (accept_terms : Bool)
      → Identifies c d provider identity w
          (find_or_create_user c d provider identity override accept_terms w)
  unfolding find_or_create_user
  find_or_create_user-Identifies override accept_terms = go _ refl
    where
      known :
          (o : Option Account)
          → find_account w.accounts provider identity normalized ≡ o
          → Known provider identity.subject normalized w.accounts o
      known o e =
          subst (Known provider identity.subject normalized w.accounts) e
            (find_account-Known w.accounts provider identity normalized)

      go :
          (o : Option Account)
          → find_account w.accounts provider identity normalized ≡ o
          → Identifies c d provider identity w (elim o as (λ _. Outcome Account × Users) [
            | some a ↦ link_account provider identity (chosen_name override identity) a w
            | none ↦
                create_account c d
                  (new_account c d provider identity (chosen_name override identity) accept_terms)
                  w
          ])
      go none missing =
          create_account-Identifies (chosen_name override identity) accept_terms
            (known none missing)
      go (some old) found =
          link_account-Identifies (chosen_name override identity) old (known (some old) found)
