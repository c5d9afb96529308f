-- ===== src/Me/Keys.antt =====
-- The keys that `delete_me` deletes, by whose they are.
use Prim.Native.String.{String}
use text.Mathlib.TextEquality.{eq_iff}
use ufuk_ai_agent.Prelude.{
  ℕ, ◌≡◌, ◌≢◌, refl, sym, ap, ◌∙◌, inl, inr, ◌⊎◌, Bool-cases, Bool, true, false, Option, none, some,
  List, [], ◌∷◌, ◌++◌, select, arith, if◌then◌else◌,
}
use ufuk_ai_agent.Redis.{Redis, Key, IsLawful}
use ufuk_ai_agent.Redis.Memory.{Key-discrete}
use ufuk_ai_agent.Me.{starts, matches, prefixes, scans, user_keys, delete_keys}

-- The user in a key's text.
abbrev pub owner : Key → Option ℕ
owner (Key.credits u _) = some u
owner (Key.budget u _) = some u
owner (Key.inflight u) = some u
owner (Key.rpm u _) = some u
owner Key.global_rpm = none
owner (Key.anomaly_clients u _) = some u
owner (Key.anomaly_count u _) = some u
owner (Key.register_ip _) = none
owner (Key.login_ip _) = none
owner (Key.oauth_ip _) = none
owner (Key.login_account _) = none

abbrev pub Listed : {A : Type 0} → A → List A → Type 0
Listed x [] = ⊥
Listed x (y ∷ ys) = (x ≡ y) ⊎ Listed x ys

Listed-right : {A : Type 0} (x : A) (xs ys : List A) → Listed x ys → Listed x (xs ++ ys)
Listed-right x [] ys h = h
Listed-right x (z ∷ xs) ys h = inr (Listed-right x xs ys h)

Listed-left : {A : Type 0} (x : A) (xs ys : List A) → Listed x xs → Listed x (xs ++ ys)
Listed-left x [] ys h = absurd h
Listed-left x (z ∷ xs) ys (inl same) = inl same
Listed-left x (z ∷ xs) ys (inr later) = inr (Listed-left x xs ys later)

Listed-either :
    {A : Type 0} (x : A) (xs ys : List A) → Listed x (xs ++ ys) → Listed x xs ⊎ Listed x ys
Listed-either x [] ys h = inr h
Listed-either x (z ∷ xs) ys (inl same) = inl (inl same)
Listed-either x (z ∷ xs) ys (inr later) = elim (Listed-either x xs ys later) [
  | inl here ↦ inl (inr here)
  | inr there ↦ inr there
]

Listed-select :
    (p : Key → Bool) (k : Key) (keys : List Key)
    → p k ≡ true
    → Listed k keys
    → Listed k (select p keys)
Listed-select p k [] e h = absurd h
Listed-select p k (j ∷ keys) e (inl same) = rw (sym (ap p same) ∙ e) (inl same)
Listed-select p k (j ∷ keys) e (inr later) = elim (Bool-cases (p j)) [
  | inl yes' ↦ rw yes' (inr (Listed-select p k keys e later))
  | inr no' ↦ rw no' (Listed-select p k keys e later)
]

select-Listed : (p : Key → Bool) (k : Key) (keys : List Key) → Listed k (select p keys) → p k ≡ true
select-Listed p k [] h = absurd h
select-Listed p k (j ∷ keys) h = go (select-Listed p k keys) (p j) refl h
  where
    go :
        (Listed k (select p keys) → p k ≡ true)
        → (b : Bool) → p j ≡ b
        → Listed k (if b then j ∷ select p keys else select p keys)
        → p k ≡ true
    go rest true e (inl same) = ap p same ∙ e
    go rest true e (inr later) = rest later
    go rest false e later = rest later

starts_same : (name : String) (u user : ℕ) → u ≡ user → starts name user (some (name, u)) ≡ true
starts_same name u user e = ground (arith, eq_iff name name)

started : (name other : String) (u user : ℕ) → starts name user (some (other, u)) ≡ true → u ≡ user
started name other u user e = ground arith

same_user : (u user : ℕ) → Path (Option ℕ) (some u) (some user) → u ≡ user
same_user u user e = cc

nobody : (user : ℕ) → Path (Option ℕ) none (some user) → ⊥
nobody user e = cc

-- A key that a pattern matches is the user's.
matches-owner :
    (name : String) (user : ℕ) (k : Key) → matches name user k ≡ true → owner k ≡ some user
matches-owner name user (Key.credits u p) e = ap (λ x. some x) (started name "credits" u user e)
matches-owner name user (Key.budget u p) e = ap (λ x. some x) (started name "budget" u user e)
matches-owner name user (Key.inflight u) e = cc
matches-owner name user (Key.rpm u p) e = ap (λ x. some x) (started name "rpm" u user e)
matches-owner name user Key.global_rpm e = cc
matches-owner name user (Key.anomaly_clients u p) e =
    ap (λ x. some x) (started name "anomaly" u user e)
matches-owner name user (Key.anomaly_count u p) e =
    ap (λ x. some x) (started name "anomaly" u user e)
matches-owner name user (Key.register_ip t) e = cc
matches-owner name user (Key.login_ip t) e = cc
matches-owner name user (Key.oauth_ip t) e = cc
matches-owner name user (Key.login_account t) e = cc

-- The in-flight key, or a key that one of the patterns matches.
abbrev Covered : ℕ → Key → Type 0
Covered user k =
    (k ≡ Key.inflight user)
    ⊎ ((name : String) × Listed name prefixes × (matches name user k ≡ true))

owned-Covered : (user : ℕ) (k : Key) → owner k ≡ some user → Covered user k
owned-Covered user (Key.credits u p) e =
    inr ("credits", inl refl, starts_same "credits" u user (same_user u user e))
owned-Covered user (Key.budget u p) e =
    inr ("budget", inr (inr (inl refl)), starts_same "budget" u user (same_user u user e))
owned-Covered user (Key.inflight u) e = inl (ap Key.inflight (same_user u user e))
owned-Covered user (Key.rpm u p) e =
    inr ("rpm", inr (inl refl), starts_same "rpm" u user (same_user u user e))
owned-Covered user Key.global_rpm e = absurd (nobody user e)
owned-Covered user (Key.anomaly_clients u p) e =
    inr ("anomaly", inr (inr (inr (inl refl))), starts_same "anomaly" u user (same_user u user e))
owned-Covered user (Key.anomaly_count u p) e =
    inr ("anomaly", inr (inr (inr (inl refl))), starts_same "anomaly" u user (same_user u user e))
owned-Covered user (Key.register_ip t) e = absurd (nobody user e)
owned-Covered user (Key.login_ip t) e = absurd (nobody user e)
owned-Covered user (Key.oauth_ip t) e = absurd (nobody user e)
owned-Covered user (Key.login_account t) e = absurd (nobody user e)

Listed-scans :
    (user : ℕ) (name : String) (names : List String) (k : Key) (keys : List Key)
    → Listed name names
    → matches name user k ≡ true
    → Listed k keys
    → Listed k (scans user names keys)
Listed-scans user name [] k keys h e l = absurd h
Listed-scans user name (other ∷ names) k keys (inl same) e l =
    Listed-left k (select (matches other user) keys) (scans user names keys)
      (Listed-select (matches other user) k keys (ap (λ n. matches n user k) (sym same) ∙ e) l)
Listed-scans user name (other ∷ names) k keys (inr later) e l =
    Listed-right k (select (matches other user) keys) (scans user names keys)
      (Listed-scans user name names k keys later e l)

scans-owner :
    (user : ℕ) (names : List String) (k : Key) (keys : List Key)
    → Listed k (scans user names keys)
    → owner k ≡ some user
scans-owner user [] k keys h = absurd h
scans-owner user (name ∷ names) k keys h =
    elim (Listed-either k (select (matches name user) keys) (scans user names keys) h) [
      | inl here ↦ matches-owner name user k (select-Listed (matches name user) k keys here)
      | inr there ↦ scans-owner user names k keys there
    ]

Listed-user_keys :
    (user : ℕ) (k : Key) (keys : List Key)
    → owner k ≡ some user
    → Listed k keys ⊎ (k ≡ Key.inflight user)
    → Listed k (user_keys user keys)
unfolding user_keys
Listed-user_keys user k keys e (inr own) =
    Listed-right k (scans user prefixes keys) (Key.inflight user ∷ []) (inl own)
Listed-user_keys user k keys e (inl l) = elim (owned-Covered user k e) [
  | inl own ↦ Listed-right k (scans user prefixes keys) (Key.inflight user ∷ []) (inl own)
  | inr (name, known, m) ↦
      Listed-left k (scans user prefixes keys) (Key.inflight user ∷ [])
        (Listed-scans user name prefixes k keys known m l)
]

user_keys-owner :
    (user : ℕ) (k : Key) (keys : List Key) → Listed k (user_keys user keys) → owner k ≡ some user
unfolding user_keys
user_keys-owner user k keys h =
    elim (Listed-either k (scans user prefixes keys) (Key.inflight user ∷ []) h) [
      | inl here ↦ scans-owner user prefixes k keys here
      | inr (inl own) ↦ ap owner own
      | inr (inr none') ↦ absurd none'
    ]

module _ (R : Redis) (L : IsLawful R) where
  get-delete_keys-none :
      (keys : List Key) (s : R.Store) (k : Key)
      → R.get s k ≡ none
      → R.get (delete_keys R keys s) k ≡ none
  unfolding delete_keys
  get-delete_keys-none [] s k e = e
  get-delete_keys-none (j ∷ keys) s k e =
      get-delete_keys-none keys (R.delete s j) k (gone (Key-discrete k j))
    where
      gone : Dec (k ≡ j) → R.get (R.delete s j) k ≡ none
      gone (yes p) = rw p (L.get-delete_self s j)
      gone (no p) = L.get-delete_ne s j k p ∙ e

  get-delete_keys :
      (keys : List Key) (s : R.Store) (k : Key)
      → Listed k keys
      → R.get (delete_keys R keys s) k ≡ none
  unfolding delete_keys
  get-delete_keys [] s k e = absurd e
  get-delete_keys (j ∷ keys) s k (inl same) =
      get-delete_keys-none keys (R.delete s j) k (rw same (L.get-delete_self s j))
  get-delete_keys (j ∷ keys) s k (inr later) = get-delete_keys keys (R.delete s j) k later

  get-delete_keys_ne :
      (keys : List Key) (s : R.Store) (k : Key)
      → (Listed k keys → ⊥)
      → R.get (delete_keys R keys s) k ≡ R.get s k
  unfolding delete_keys
  get-delete_keys_ne [] s k h = refl
  get-delete_keys_ne (j ∷ keys) s k h =
      get-delete_keys_ne keys (R.delete s j) k (λ l. h (inr l))
      ∙ L.get-delete_ne s j k (λ same. h (inl same))

  -- The keys of the user are gone, where the scans walked them, and the others are as before.
  pub record Forgotten (user : ℕ) (keys : List Key) (s s' : R.Store) : Type 0 where
    pub gone :
        (k : Key)
        → owner k ≡ some user
        → Listed k keys ⊎ (k ≡ Key.inflight user)
        → R.get s' k ≡ none
    pub kept : (k : Key) → owner k ≢ some user → R.get s' k ≡ R.get s k

  pub delete_keys-Forgotten :
      (user : ℕ) (keys : List Key) (s : R.Store)
      → Forgotten user keys s (delete_keys R (user_keys user keys) s)
  delete_keys-Forgotten user keys s = record {
    gone = λ k e l. get-delete_keys (user_keys user keys) s k (Listed-user_keys user k keys e l);
    kept = λ k other.
        get-delete_keys_ne (user_keys user keys) s k (λ l. other (user_keys-owner user k keys l));
  }
