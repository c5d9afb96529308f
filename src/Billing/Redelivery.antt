-- ===== src/Billing/Redelivery.antt =====
-- What a delivery to `billing_webhook` changes, and what a second delivery of its event does.
use Prim.Native.String.{String}
use ufuk_ai_agent.Prelude.{
  ◌≡◌, ◌≢◌, sym, refl, ap, subst, ◌∙◌, inl, inr, ◌⊎◌, true, Option, none, some, List, ◌++◌,
}
use ufuk_ai_agent.Errors.{Outcome, ok, raise, crash, api_error}
use ufuk_ai_agent.Action.{Action, or_raise, or_crash, ◌>>=◌}
use ufuk_ai_agent.Models.{Plan, Subscription}
use ufuk_ai_agent.Json.{Value, string}
use ufuk_ai_agent.Subscriptions.Tables.{first}
use ufuk_ai_agent.Subscriptions.{GrantMode, assign_plan}
use ufuk_ai_agent.Upstream.{truthy}
use ufuk_ai_agent.Billing.{
  Provider, get_provider, NormalizedEvent, Delivery, Account, Setup, Times, Receipt, ignored,
  unknown_price, unknown_user, assigned, grant_mode, as_text, event_id_text, has_price, has_email,
  grant, match_and_grant, handle_event, signed, by_check, or_receipt, grant_account, find_account,
  with_price, billing_webhook,
}
use ufuk_ai_agent.Billing.Signatures.{Check, accepted, rejected, crashed}
use ufuk_ai_agent.Billing.Readings.{truthy_same, as_text_same}
use ufuk_ai_agent.Billing.Assignment.{Ends, assign_plan-Ends}

-- A grant that a delivery may make: for a started or a renewed subscription, a plan with the event's
-- price and a user with the event's address.
pub record Grant (c : Setup) (e : NormalizedEvent) (d : Times) (subs : List Subscription)
    (name : String) (subs' : List Subscription) : Type 0 where
  pub mode : GrantMode
  pub plan : Plan
  pub account : Account
  pub price : String
  pub email : String
  pub event_id : Option String
  pub row : Subscription
  pub lifecycle : grant_mode e.type ≡ some mode
  pub priced : e.provider_price_id ≡ some (string price)
  pub addressed : e.customer_email ≡ some (string email)
  pub sold : first (has_price price) c.plans ≡ some plan
  pub known : first (has_email email) c.accounts ≡ some account
  pub identified : event_id_text e.provider_event_id ≡ some event_id
  pub named : name ≡ plan.name
  pub granted :
      assign_plan subs d.raced true account.id plan.id mode event_id d.now d.fresh d.stamp
      ≡ (ok row, subs')

-- What an event did to the table, by the answer.
abbrev pub Handles :
    Setup
    → NormalizedEvent
    → Times
    → List Subscription
    → Outcome Receipt × List Subscription
    → Type 0
Handles c e d subs (Outcome.ok ignored, subs') = subs' ≡ subs
Handles c e d subs (Outcome.ok unknown_price, subs') = subs' ≡ subs
Handles c e d subs (Outcome.ok unknown_user, subs') = subs' ≡ subs
Handles c e d subs (Outcome.ok (assigned name), subs') = Grant c e d subs name subs'
Handles c e d subs (Outcome.raise _, subs') = ⊥
Handles c e d subs (Outcome.crash, subs') = (subs' ≡ subs) ⊎ (subs' ≡ subs ++ d.raced)

module _ (Q : Outcome Receipt × List Subscription → Type 0) (subs : List Subscription) where
  -- The end of a part from a table.
  record Sound (part : Action (List Subscription) Receipt) : Type 0 where
    pub sound : Q (part subs)

  or_crash-Sound :
      {A : Type 0} (o : Option A) (f : A → Action (List Subscription) Receipt)
      → ((a : A) → o ≡ some a → Sound (f a))
      → Q (crash, subs)
      → Sound (or_crash o >>= f)
  or_crash-Sound none f h k = record { sound = k }
  or_crash-Sound (some a) f h k = record { sound = (h a refl).sound }

  or_receipt-Sound :
      {A : Type 0} (o : Option A) (receipt : Receipt) (f : A → Action (List Subscription) Receipt)
      → ((a : A) → o ≡ some a → Sound (f a))
      → Q (ok receipt, subs)
      → Sound (or_receipt o receipt f)
  or_receipt-Sound none receipt f h k = record { sound = k }
  or_receipt-Sound (some a) receipt f h k = h a refl

module _ (c : Setup) (e : NormalizedEvent) (d : Times) (subs : List Subscription) (mode : GrantMode)
    (price email : Value) (lifecycle : grant_mode e.type ≡ some mode)
    (priced : e.provider_price_id ≡ some price) (addressed : e.customer_email ≡ some email) where
  grant-Handles :
      (plan : Plan) (account : Account) (price_id customer_email : String)
      (event_id : Option String)
      → as_text price ≡ some price_id
      → as_text email ≡ some customer_email
      → first (has_price price_id) c.plans ≡ some plan
      → first (has_email customer_email) c.accounts ≡ some account
      → event_id_text e.provider_event_id ≡ some event_id
      → Handles c e d subs (grant plan account mode event_id d subs)
  unfolding grant
  grant-Handles plan account price_id customer_email event_id p m sold known identified =
      go (assign_plan subs d.raced true account.id plan.id mode event_id d.now d.fresh d.stamp) refl
    where
      go :
          (r : Outcome Subscription × List Subscription)
          → assign_plan subs d.raced true account.id plan.id mode event_id d.now d.fresh d.stamp ≡ r
          → Handles c e d subs (
            elim r.0 [ ok row ↦ ok (assigned plan.name) | raise e ↦ raise e | crash ↦ crash ],
            r.1,
          )
      go (Outcome.ok row, subs') h = record {
        mode = mode;
        plan = plan;
        account = account;
        price = price_id;
        email = customer_email;
        event_id = event_id;
        row = row;
        lifecycle = lifecycle;
        priced = priced ∙ ap (λ v. some v) (as_text_same price price_id p);
        addressed = addressed ∙ ap (λ v. some v) (as_text_same email customer_email m);
        sold = sold;
        known = known;
        identified = identified;
        named = refl;
        granted = h;
      }
      go (Outcome.raise x, subs') h = absurd (
          subst (Ends subs d.raced) h (
            assign_plan-Ends subs d.raced true account.id plan.id mode event_id d.now d.fresh
              d.stamp))
      go (Outcome.crash, subs') h = inr (
          subst (Ends subs d.raced) h (
            assign_plan-Ends subs d.raced true account.id plan.id mode event_id d.now d.fresh
              d.stamp))

  find_account-Handles :
      (price_id : String) (plan : Plan)
      → as_text price ≡ some price_id
      → first (has_price price_id) c.plans ≡ some plan
      → Sound (Handles c e d subs) subs (find_account c mode e.provider_event_id email d plan)
  find_account-Handles price_id plan p sold =
      or_crash-Sound _ _ (as_text email)
        (λ customer_email.
          or_receipt (first (has_email customer_email) c.accounts) unknown_user
            (grant_account c mode e.provider_event_id d plan))
        (λ customer_email m.
          or_receipt-Sound _ _ (first (has_email customer_email) c.accounts) unknown_user
            (grant_account c mode e.provider_event_id d plan)
            (λ account known.
              or_crash-Sound _ _ (event_id_text e.provider_event_id)
                (λ id. grant plan account mode id d)
                (λ id identified. record {
                  sound =
                      grant-Handles plan account price_id customer_email id p m sold known
                        identified;
                })
                (inl refl))
            refl)
        (inl refl)

  match_and_grant-Handles :
      Sound (Handles c e d subs) subs (match_and_grant c mode e.provider_event_id price email d)
  unfolding match_and_grant
  match_and_grant-Handles =
      or_crash-Sound _ _ (as_text price)
        (λ price_id.
          or_receipt (first (has_price price_id) c.plans) unknown_price
            (find_account c mode e.provider_event_id email d))
        (λ price_id p.
          or_receipt-Sound _ _ (first (has_price price_id) c.plans) unknown_price
            (find_account c mode e.provider_event_id email d)
            (λ plan sold. find_account-Handles price_id plan p sold) refl)
        (inl refl)

handle_event-Handles :
    (c : Setup) (e : NormalizedEvent) (d : Times) (subs : List Subscription)
    → Sound (Handles c e d subs) subs (handle_event c e d)
unfolding handle_event
handle_event-Handles c e d subs =
    or_receipt-Sound _ _ (grant_mode e.type) ignored
      (λ mode. or_receipt (truthy e.provider_price_id) ignored (with_price c e d mode))
      (λ mode lifecycle.
        or_receipt-Sound _ _ (truthy e.provider_price_id) ignored (with_price c e d mode)
          (λ price p.
            or_receipt-Sound _ _ (truthy e.customer_email) ignored
              (λ email. match_and_grant c mode e.provider_event_id price email d)
              (λ email m.
                match_and_grant-Handles c e d subs mode price email lifecycle
                  (truthy_same e.provider_price_id price p) (truthy_same e.customer_email email m))
              refl)
          refl)
      refl

-- What a delivery did, by the answer.
abbrev pub Receives :
    Setup → Delivery → Times → List Subscription → Outcome Receipt × List Subscription → Type 0
Receives c v d subs (Outcome.ok ignored, subs') = subs' ≡ subs
Receives c v d subs (Outcome.ok unknown_price, subs') = subs' ≡ subs
Receives c v d subs (Outcome.ok unknown_user, subs') = subs' ≡ subs
Receives c v d subs (Outcome.ok (assigned name), subs') =
    (get_provider c.billing_provider ≢ none)
    × (signed c v ≡ accepted)
    × ((e : NormalizedEvent) × (v.event ≡ some (some e)) × Grant c e d subs name subs')
Receives c v d subs (Outcome.raise x, subs') =
    (subs' ≡ subs)
    × (((get_provider c.billing_provider ≡ none) × (x ≡ api_error 502 "unknown_provider"))
        ⊎ (((signed c v ≡ rejected) × (x ≡ api_error 400 "invalid_signature"))
            ⊎ ((v.event ≡ none) × (x ≡ api_error 400 "invalid_payload"))))
Receives c v d subs (Outcome.crash, subs') = (subs' ≡ subs) ⊎ (subs' ≡ subs ++ d.raced)

handled-Receives :
    (c : Setup) (v : Delivery) (d : Times) (subs : List Subscription) (e : NormalizedEvent)
    → get_provider c.billing_provider ≢ none
    → signed c v ≡ accepted
    → v.event ≡ some (some e)
    → (r : Outcome Receipt × List Subscription) → Handles c e d subs r
    → Receives c v d subs r
handled-Receives c v d subs e n s p (Outcome.ok ignored, subs') h = h
handled-Receives c v d subs e n s p (Outcome.ok unknown_price, subs') h = h
handled-Receives c v d subs e n s p (Outcome.ok unknown_user, subs') h = h
handled-Receives c v d subs e n s p (Outcome.ok (assigned name), subs') h = (n, s, (e, p, h))
handled-Receives c v d subs e n s p (Outcome.raise x, subs') h = absurd h
handled-Receives c v d subs e n s p (Outcome.crash, subs') h = h

-- What a delivery to the webhook does, by its answer. Ignored, an unknown price or an unknown
-- user: the subscriptions do not change. A plan assigned: the provider is known, the signature was
-- valid or no secret is set, the event is a start or a renewal with a text as price and as
-- address, the plan is the first with that price, the user the first with that address, and the
-- change is the one of `assign_plan` for them. An `ApiError`: nothing changes, and the configured
-- provider is unknown, the signature was not valid or the payload not readable, with the status
-- and the code of each. Any other exception: nothing changes but the rows of other transactions.
pub billing_webhook-Receives :
    (c : Setup) (v : Delivery) (d : Times) (subs : List Subscription)
    → Receives c v d subs (billing_webhook c v d subs)
unfolding billing_webhook
billing_webhook-Receives c v d subs = by_provider (get_provider c.billing_provider) refl
  where
    by_event :
        get_provider c.billing_provider ≢ none
        → signed c v ≡ accepted
        → (o : Option (Option NormalizedEvent)) → v.event ≡ o
        → Receives c v d subs (
            (or_raise o (api_error 400 "invalid_payload") >>= λ event.
            or_receipt event ignored (λ e. handle_event c e d))
              subs)
    by_event known valid none e = (refl, inr (inr (e, refl)))
    by_event known valid (some none) e = refl
    by_event known valid (some (some event)) e =
        handled-Receives c v d subs event known valid e _
          (handle_event-Handles c event d subs).sound

    by_check_end :
        get_provider c.billing_provider ≢ none
        → (k : Check) → signed c v ≡ k
        → Receives c v d subs (by_check k c v d subs)
    by_check_end known accepted e = by_event known e v.event refl
    by_check_end known rejected e = (refl, inr (inl (e, refl)))
    by_check_end known crashed e = inl refl

    by_provider :
        (o : Option Provider)
        → get_provider c.billing_provider ≡ o
        → Receives c v d subs (
            (elim o as (λ _. Action (List Subscription) Receipt) [
              | none ↦ or_raise none (api_error 502 "unknown_provider")
              | some provider ↦ by_check (signed c v) c v d
            ])
              subs)
    by_provider none e = (refl, inl (e, refl))
    by_provider (some provider) e =
        by_check_end (λ missing. differ provider (sym missing ∙ e)) (signed c v) refl
      where
        differ : (p : Provider) → Path (Option Provider) none (some p) → ⊥
        differ p x = cc
