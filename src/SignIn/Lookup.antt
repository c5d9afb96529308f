-- ===== src/SignIn/Lookup.antt =====
-- The look-ups of an account in auth_service.py and oauth_service.py, by what is in the rows.
use Prim.Native.String.{String}
use text.Mathlib.TextEquality.{eq_iff}
use ufuk_ai_agent.Prelude.{
  ◌≡◌, ◌≢◌, refl, sym, ap, subst, ◌∙◌, inl, inr, ◌⊎◌, Bool-cases, Bool, true, false, ◌&&◌, Option,
  none, some, List, [], ◌∷◌, if◌then◌else◌,
}
use ufuk_ai_agent.Subscriptions.Tables.{first, str_eq?}
use ufuk_ai_agent.Text.{strip}
use ufuk_ai_agent.SignIn.{
  Account, OauthIdentity, Setup, normalize_email, get_user_by_email, checked, authenticate_user,
  has_email, has_identity, find_account,
}

abbrev pub Row : Account → List Account → Type 0
Row a [] = ⊥
Row a (b ∷ accounts) = (a ≡ b) ⊎ Row a accounts

-- What `first` finds is a row that passes; where it finds none, no row passes.
abbrev Finds : (Account → Bool) → List Account → Option Account → Type 0
Finds p accounts none = (a : Account) → Row a accounts → p a ≡ false
Finds p accounts (some a) = Row a accounts × (p a ≡ true)

later :
    (p : Account → Bool) (b : Account) (accounts : List Account) (o : Option Account)
    → p b ≡ false
    → Finds p accounts o
    → Finds p (b ∷ accounts) o
later p b accounts none e h = λ a row. elim row [ inl same ↦ ap p same ∙ e | inr rest ↦ h a rest ]
later p b accounts (some a) e (row, passes) = (inr row, passes)

first-Finds : (p : Account → Bool) (accounts : List Account) → Finds p accounts (first p accounts)
unfolding first
first-Finds p [] = λ a row. absurd row
first-Finds p (b ∷ accounts) = elim (Bool-cases (p b)) [
  | inl passes ↦ rw passes (inl refl, passes)
  | inr fails ↦ rw fails (later p b accounts (first p accounts) fails (first-Finds p accounts))
]

-- The account is bound to this subject of the provider.
abbrev pub Bound : String → String → Account → Type 0
Bound provider subject a = (a.auth_provider ≡ some provider) × (a.provider_subject ≡ some subject)

same_text : (s : String) (o : Option String) → str_eq? s o ≡ true → o ≡ some s
same_text s none e = cc
same_text s (some t) e = ap (λ x. some x) (sym ((eq_iff s t).0 e))

text_same : (s : String) (o : Option String) → o ≡ some s → str_eq? s o ≡ true
text_same s o e = rw e ((eq_iff s s).1 refl)

both : (x y : Bool) → (x && y) ≡ true → (x ≡ true) × (y ≡ true)
both true true e = (refl, refl)
both true false e = cc
both false y e = cc

pub has_identity-Bound :
    (provider subject : String) (a : Account)
    → has_identity provider subject a ≡ true
    → Bound provider subject a
has_identity-Bound provider subject a e =
    let (p, s) = both (str_eq? provider a.auth_provider) (str_eq? subject a.provider_subject) e in
    (same_text provider a.auth_provider p, same_text subject a.provider_subject s)

Bound-has_identity :
    (provider subject : String) (a : Account)
    → Bound provider subject a
    → has_identity provider subject a ≡ true
Bound-has_identity provider subject a (p, s) =
    rw (text_same provider a.auth_provider p, text_same subject a.provider_subject s) refl

unequal : {P : Type 0} (b : Bool) → b ≡ false → (P → b ≡ true) → P → ⊥
unequal b e h p = clash (sym e ∙ h p)
  where
    clash : Path Bool false true → ⊥
    clash x = cc

same_email : (s : String) (a : Account) → a.email ≡ s → has_email s a ≡ true
same_email s a e = (eq_iff a.email s).1 e

unbound :
    (provider subject : String) (accounts : List Account)
    → first (has_identity provider subject) accounts ≡ none
    → (a : Account) → Row a accounts
    → Bound provider subject a
    → ⊥
unbound provider subject accounts e a row =
    unequal (has_identity provider subject a)
      (subst (Finds (has_identity provider subject) accounts) e
        (first-Finds (has_identity provider subject) accounts) a row)
      (Bound-has_identity provider subject a)

-- What the look-up of an identity finds: the row of the identity, or else the row of its address.
abbrev pub Known : String → String → String → List Account → Option Account → Type 0
Known provider subject normalized accounts (some old) =
    Row old accounts
    × (Bound provider subject old
        ⊎ (((a : Account) → Row a accounts → Bound provider subject a → ⊥)
            × (old.email ≡ normalized)))
Known provider subject normalized accounts none =
    (a : Account) → Row a accounts → (Bound provider subject a → ⊥) × (a.email ≢ normalized)

pub find_account-Known :
    (accounts : List Account) (provider : String) (identity : OauthIdentity) (normalized : String)
    → Known provider identity.subject normalized accounts
        (find_account accounts provider identity normalized)
unfolding find_account
find_account-Known accounts provider identity normalized =
    by_identity (first (has_identity provider identity.subject) accounts) refl
  where
    by_email :
        first (has_identity provider identity.subject) accounts ≡ none
        → (o : Option Account) → Finds (has_email normalized) accounts o
        → Known provider identity.subject normalized accounts o
    by_email e none h = λ a row. (
      unbound provider identity.subject accounts e a row,
      unequal (has_email normalized a) (h a row) (same_email normalized a),
    )
    by_email e (some old) (row, same) = (
      row,
      inr (unbound provider identity.subject accounts e, (eq_iff old.email normalized).0 same),
    )

    by_identity :
        (o : Option Account)
        → first (has_identity provider identity.subject) accounts ≡ o
        → Known provider identity.subject normalized accounts
            (elim o [ some a ↦ some a | none ↦ first (has_email normalized) accounts ])
    by_identity none e = by_email e _ (first-Finds (has_email normalized) accounts)
    by_identity (some a) e =
        let (row, same) =
          subst (Finds (has_identity provider identity.subject) accounts) e
            (first-Finds (has_identity provider identity.subject) accounts) in
        (row, inl (has_identity-Bound provider identity.subject a same))

-- The account may sign in with this password.
abbrev pub Accepts : Setup → String → Account → Type 0
Accepts c password a =
    (a.is_active ≡ true)
    × ((hash : String) × (a.password_hash ≡ some hash) × (c.verify_password password hash ≡ true))

-- What a sign-in with a password finds: an account of the address that it may enter. It finds none
-- only where no row has the address, or one has it that it may not enter.
abbrev pub Authenticates : Setup → List Account → String → String → Option Account → Type 0
Authenticates c accounts email password (some a) =
    Row a accounts × (a.email ≡ c.lower (strip email)) × Accepts c password a
Authenticates c accounts email password none =
    ((a : Account) → Row a accounts → a.email ≢ c.lower (strip email))
    ⊎ ((a : Account) × Row a accounts
        × (a.email ≡ c.lower (strip email))
        × (Accepts c password a → ⊥))

abbrev Checks : Setup → String → Account → Option Account → Type 0
Checks c password a none = Accepts c password a → ⊥
Checks c password a (some b) = (b ≡ a) × Accepts c password a

checked-Checks :
    (c : Setup) (password : String) (a : Account) → Checks c password a (checked c password a)
unfolding checked
checked-Checks c password a = go a.password_hash refl
  where
    missing : (hash : String) → Path (Option String) none (some hash) → ⊥
    missing hash e = cc

    test :
        (hash : String)
        → a.password_hash ≡ some hash
        → (x y : Bool) → c.verify_password password hash ≡ x
        → a.is_active ≡ y
        → Checks c password a (if x && y then some a else none)
    test hash e true true v active = (refl, (active, (hash, e, v)))
    test hash e true false v idle = λ h. unequal a.is_active idle (λ z. z) h.0
    test hash e false y v active = λ h.
        let (other, f, w) = h.1 in
        unequal (c.verify_password password hash) v
          (λ z. ap (c.verify_password password) (same_hash other hash (sym e ∙ f)) ∙ z) w
      where
        same_hash :
            (other hash : String) → Path (Option String) (some hash) (some other) → hash ≡ other
        same_hash other hash q = cc

    go :
        (h : Option String)
        → a.password_hash ≡ h
        → Checks c password a (elim h [
          | none ↦ none
          | some hash ↦ if c.verify_password password hash && a.is_active then some a else none
        ])
    go none e = λ h. let (hash, f, w) = h.1 in missing hash (sym e ∙ f)
    go (some hash) e = test hash e (c.verify_password password hash) a.is_active refl refl

pub authenticate_user-Authenticates :
    (c : Setup) (accounts : List Account) (email password : String)
    → Authenticates c accounts email password (authenticate_user c accounts email password)
unfolding authenticate_user get_user_by_email normalize_email
authenticate_user-Authenticates c accounts email password =
    by_address _ (first-Finds (has_email (c.lower (strip email))) accounts)
  where
    by_check :
        (a : Account)
        → Row a accounts
        → a.email ≡ c.lower (strip email)
        → (o : Option Account) → Checks c password a o
        → Authenticates c accounts email password o
    by_check a row e none refused = inr (a, row, e, refused)
    by_check a row e (some b) (same, accepts) =
        subst (λ x. Row x accounts × (x.email ≡ c.lower (strip email)) × Accepts c password x)
          (sym same) (row, e, accepts)

    by_address :
        (o : Option Account)
        → Finds (has_email (c.lower (strip email))) accounts o
        → Authenticates c accounts email password
            (elim o [ none ↦ none | some a ↦ checked c password a ])
    by_address none h = inl (λ a row.
        unequal (has_email (c.lower (strip email)) a) (h a row)
          (same_email (c.lower (strip email)) a))
    by_address (some a) (row, same) =
        by_check a row ((eq_iff a.email (c.lower (strip email))).0 same) _
          (checked-Checks c password a)
