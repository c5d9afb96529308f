-- ===== src/Me/Deletion.antt =====
-- What `delete_me` of me.py leaves of a user, and of the others.
use Prim.Native.String.{String}
use ufuk_ai_agent.Prelude.{
  ℕ, ◌≡◌, ◌≢◌, refl, inl, inr, ◌⊎◌, Bool, true, false, not, ◌==◌, Option, none, some, List, [], ◌∷◌,
  any, select, sum_by, arith, if◌then◌else◌,
}
use ufuk_ai_agent.Errors.{Outcome, ok, raise}
use ufuk_ai_agent.Models.{UsageEvent, Subscription}
use ufuk_ai_agent.Redis.{Redis, Key, IsLawful}
use ufuk_ai_agent.Auth.{RefreshToken, EmailToken}
use ufuk_ai_agent.SignIn.{Account}
use ufuk_ai_agent.Images.{GeneratedImage, delete_for_user, get_image}
use ufuk_ai_agent.Images.Deletion.{Owned, delete_for_user_forgets}
use ufuk_ai_agent.Me.Keys.{Forgotten, delete_keys-Forgotten}
use ufuk_ai_agent.Me.{State, of_user, anonymize, without_password, purge, delete_me}

-- No row of the user is left, and those of every other user are.
abbrev pub Removed : {A : Type 0} → (A → ℕ) → ℕ → List A → List A → Type 0
Removed owner user rows rows' =
    (any (λ x. owner x == user) rows' ≡ false)
    × ((v : ℕ) → v ≢ user → select (λ x. owner x == v) rows' ≡ select (λ x. owner x == v) rows)

select-Removed :
    {A : Type 0} (owner : A → ℕ) (user : ℕ) (rows : List A)
    → Removed owner user rows (select (λ x. not (owner x == user)) rows)
select-Removed owner user [] = (refl, λ v h. refl)
select-Removed {A} owner user (x ∷ rows) =
    let (gone, kept) = select-Removed owner user rows in (ground arith, λ v h. other v h (kept v h))
  where
    other :
        (v : ℕ)
        → v ≢ user
        → select (λ y. owner y == v) (select (λ y. not (owner y == user)) rows)
          ≡ select (λ y. owner y == v) rows
        → select (λ y. owner y == v) (select (λ y. not (owner y == user)) (x ∷ rows))
          ≡ select (λ y. owner y == v) (x ∷ rows)
    other v h k = ground arith

-- The rows of usage keep their number and their charges, and lose the user.
anonymize_gone :
    (user : ℕ) (events : List UsageEvent)
    → any (λ (e : UsageEvent). of_user user e.user_id) (anonymize user events) ≡ false
unfolding anonymize
anonymize_gone user [] = refl
anonymize_gone user (e ∷ events) = ground (arith, anonymize_gone user events)

anonymize_charges :
    (user : ℕ) (events : List UsageEvent)
    → sum_by (λ (e : UsageEvent). e.credits_charged) (anonymize user events)
      ≡ sum_by (λ (e : UsageEvent). e.credits_charged) events
unfolding anonymize
anonymize_charges user [] = refl
anonymize_charges user (e ∷ events) = ground (arith, anonymize_charges user events)

module _ (R : Redis) (L : IsLawful R) where
  -- What a deletion leaves: no row of the user, no key of the user that the scans walked, the charges
  -- without the user, and the daily rollups as they were.
  pub record Purged (user : ℕ) (images_root : Bool) (keys : List Key) (w w' : State R)
      : Type 0 where
    pub accounts : Removed (λ (a : Account). a.id) user w.accounts w'.accounts
    pub refresh_tokens :
        Removed (λ (r : RefreshToken). r.user_id) user w.refresh_tokens w'.refresh_tokens
    pub email_tokens : Removed (λ (r : EmailToken). r.user_id) user w.email_tokens w'.email_tokens
    pub subs : Removed (λ (s : Subscription). s.user_id) user w.gallery.subs w'.gallery.subs
    pub images : Removed (λ (r : GeneratedImage). r.user_id) user w.gallery.images w'.gallery.images
    pub events : any (λ (e : UsageEvent). of_user user e.user_id) w'.events ≡ false
    pub charges :
        sum_by (λ (e : UsageEvent). e.credits_charged) w'.events
        ≡ sum_by (λ (e : UsageEvent). e.credits_charged) w.events
    pub rollups : w'.rollups ≡ w.rollups
    pub forgotten : Forgotten R L user keys w.store w'.store
    pub served :
        images_root ≡ true
        → (v id : ℕ) → v ≢ user
        → get_image w'.gallery v id ≡ get_image w.gallery v id

  purge-Purged :
      (user : ℕ) (images_root : Bool) (keys : List Key) (w : State R)
      → Owned w.gallery.images
      → Purged user images_root keys w (purge R user images_root keys w)
  unfolding purge delete_for_user get_image
  purge-Purged user images_root keys w o = record {
    accounts = select-Removed (λ (a : Account). a.id) user w.accounts;
    refresh_tokens = select-Removed (λ (r : RefreshToken). r.user_id) user w.refresh_tokens;
    email_tokens = select-Removed (λ (r : EmailToken). r.user_id) user w.email_tokens;
    subs = select-Removed (λ (s : Subscription). s.user_id) user w.gallery.subs;
    images = removed images_root;
    events = anonymize_gone user w.events;
    charges = anonymize_charges user w.events;
    rollups = refl;
    forgotten = delete_keys-Forgotten R L user keys w.store;
    served = λ e v id h. others images_root e v id h;
  }
    where
      clash : Path Bool false true → ⊥
      clash e = cc

      others :
          (b : Bool)
          → b ≡ true
          → (v id : ℕ) → v ≢ user
          → get_image (purge R user b keys w).gallery v id ≡ get_image w.gallery v id
      others true e v id h = (delete_for_user_forgets user w.gallery o).1 v id h
      others false e v id h = absurd (clash e)

      removed :
          (b : Bool)
          → Removed
              (λ (r : GeneratedImage). r.user_id)
              user
              w.gallery.images
              (purge R user b keys w).gallery.images
      removed true = select-Removed (λ (r : GeneratedImage). r.user_id) user w.gallery.images
      removed false = select-Removed (λ (r : GeneratedImage). r.user_id) user w.gallery.images

  -- By how `delete_me` ended.
  abbrev pub Deletes :
      (String → String → Bool)
      → Account
      → String
      → Bool
      → List Key
      → State R
      → Outcome (Unit {0}) × State R
      → Type 0
  Deletes verify_password user password images_root keys w (Outcome.ok _, w') =
      ((hash : String) × (user.password_hash ≡ some hash) × (verify_password password hash ≡ true))
      × Purged user.id images_root keys w w'
  Deletes verify_password user password images_root keys w (Outcome.raise e, w') =
      (e ≡ without_password)
      × (w' ≡ w)
      × ((user.password_hash ≡ none)
          ⊎ ((hash : String) × (user.password_hash ≡ some hash)
              × (verify_password password hash ≡ false)))
  Deletes verify_password user password images_root keys w (Outcome.crash, w') = ⊥

  -- What the deletion of an account does, where every image's path is under its owner. It succeeds
  -- only with the account's password: then no row of the user is left among accounts, tokens,
  -- subscriptions and images, and the rows of every other user are; no usage event names the user,
  -- and the events' charges sum to what they did; every key with the user in its text is gone, if
  -- it is the in-flight key or one that the scans walk, and every other key is as before; where
  -- images are stored, those of others are served as before; and the daily rollups are unchanged,
  -- the user's id included. An error is `invalid_credentials`, for an account without a password
  -- or a wrong one, and changes nothing. There is no other exception.
  pub delete_me-Deletes :
      (verify_password : String → String → Bool) (user : Account) (password : String)
      (images_root : Bool) (keys : List Key) (w : State R)
      → Owned w.gallery.images
      → Deletes verify_password user password images_root keys w
          (delete_me R verify_password user password images_root keys w)
  unfolding delete_me
  delete_me-Deletes verify_password user password images_root keys w o =
      by_hash user.password_hash refl
    where
      by_test :
          (hash : String)
          → user.password_hash ≡ some hash
          → (b : Bool) → verify_password password hash ≡ b
          → Deletes verify_password user password images_root keys w (
              if not b
              then (raise without_password, w)
              else (ok tt, purge R user.id images_root keys w))
      by_test hash e true right = ((hash, e, right), purge-Purged user.id images_root keys w o)
      by_test hash e false wrong = (refl, refl, inr (hash, e, wrong))

      by_hash :
          (h : Option String)
          → user.password_hash ≡ h
          → Deletes verify_password user password images_root keys w (elim h [
            | none ↦ (raise without_password, w)
            | some hash ↦
                if not (verify_password password hash)
                then (raise without_password, w)
                else (ok tt, purge R user.id images_root keys w)
          ])
      by_hash none e = (refl, refl, inl e)
      by_hash (some hash) e = by_test hash e (verify_password password hash) refl
