-- ===== src/Images/Batch.antt =====
-- A whole generation against the quota: the loop of `generate_images` over the upstream's items.
use Prim.Native.String.{String}
use ufuk_ai_agent.Prelude.{
  ℕ, ◌+◌, ◌/◌, ◌<◌, ◌≤◌, ◌≡◌, refl, sym, ap, subst, ◌∙◌, inl, inr, Bool-cases, ◌==◌, Option, none,
  some, List, [], ◌∷◌, or_default, arith,
}
use ufuk_ai_agent.Errors.{ApiError, Outcome, ok, api_error}
use ufuk_ai_agent.Action.{Action, pure, or_raise, or_crash, lift, >>=-post, >>=-ok, ◌>>=◌}
use ufuk_ai_agent.Models.{Subscription}
use ufuk_ai_agent.Usage.{Amount, Cost}
use ufuk_ai_agent.Json.{
  Value, Items, nil, cons, get_in, as_dict, null, boolean, int, float, string, array, object,
}
use ufuk_ai_agent.Subscriptions.{ActiveSubscription, get_active_or_rolled_subscription}
use ufuk_ai_agent.Upstream.{Reply, refused, timeout, http_error, response}
use ufuk_ai_agent.Gateway.Response.{read_cost}
use ufuk_ai_agent.Images.{
  ImageQuality, standard, Format, GeneratedImage, Gallery, NewImage, store, period, charged_sum,
  micro, validate_prompt, normalize_format,
}
use ufuk_ai_agent.Images.Generate.{
  Setup, Input, Times, Item, skipped, unsupported, encoded, read_item, items_length, share,
  as_items, image_empty, new_image, store_items, some_rows, store_answer, take_reply, subscribe,
  check_quota, image_count, ask, generate_for, generate_images,
}
use ufuk_ai_agent.Images.Quota.{Within, store-Within}

not_nil : (v : Option Value) → as_items v ≡ some nil → ⊥
not_nil none e = cc
not_nil (some null) e = cc
not_nil (some (boolean b)) e = cc
not_nil (some (int n)) e = cc
not_nil (some (float f)) e = cc
not_nil (some (string s)) e = cc
not_nil (some (array nil)) e = cc
not_nil (some (array (cons v vs))) e = cc
not_nil (some (object fs)) e = cc

shared_items : (v : Option Value) (items : Items) → as_items v ≡ some items → 0 < items_length items
shared_items v nil e = absurd (not_nil v e)
shared_items v (cons x xs) e = omega arith

images-subscribe :
    (c : Setup) (q : Input) (d : Times) (g : Gallery) → (subscribe c q d g).1.images ≡ g.images
unfolding subscribe
images-subscribe c q d g =
    go (get_active_or_rolled_subscription c.plans g.subs q.user d.now d.later d.fresh d.stamp).0 _
  where
    go :
        (o : Option ActiveSubscription) (subs : List Subscription)
        → (or_raise o (api_error 403 "subscription_inactive") (record g { subs = subs })).1.images
          ≡ g.images
    go none subs = refl
    go (some a) subs = refl

module _ (c : Setup) (q : Input) (d : Times) (a : ActiveSubscription) (m : ℕ)
    (quota : a.plan.monthly_image_quota ≡ some m) where
  -- Every end of a part leaves the use within the quota.
  record Keeps {A : Type 0} (part : Action Gallery A) : Type 0 where
    keeps : (g : Gallery) → Within m q.user (period a) g → Within m q.user (period a) (part g).1

  >>=-Keeps :
      {A B : Type 0} (part : Action Gallery A) (f : A → Action Gallery B)
      → Keeps part
      → ((x : A) → Keeps (f x))
      → Keeps (part >>= f)
  >>=-Keeps part f h k = record {
    keeps = λ g within.
        let after = h.keeps g within in
        >>=-post (λ r. Within m q.user (period a) r.1) part f g
          (λ x g' e. (k x).keeps g' (subst (λ r. Within m q.user (period a) r.1) e after))
          (λ x g' e. subst (λ r. Within m q.user (period a) r.1) e after)
          (λ g' e. subst (λ r. Within m q.user (period a) r.1) e after);
  }

  or_raise-Keeps : {A : Type 0} (o : Option A) (e : ApiError) → Keeps (or_raise o e)
  or_raise-Keeps none e = record { keeps = λ g h. h }
  or_raise-Keeps (some x) e = record { keeps = λ g h. h }

  or_crash-Keeps : {A : Type 0} (o : Option A) → Keeps (or_crash o)
  or_crash-Keeps none = record { keeps = λ g h. h }
  or_crash-Keeps (some x) = record { keeps = λ g h. h }

  pure-Keeps : {A : Type 0} (x : A) → Keeps (pure x)
  pure-Keeps x = record { keeps = λ g h. h }

  lift-Keeps : {A : Type 0} (r : Outcome A) → Keeps (lift r)
  lift-Keeps r = record { keeps = λ g h. h }

  check_quota-Keeps : (quality : ImageQuality) (n : ℕ) → Keeps (check_quota q a quality n)
  unfolding check_quota
  check_quota-Keeps quality n = record { keeps = λ g h. h }

  module _ (image : List ℕ → NewImage)
      (kept : (bytes : List ℕ) (id at : ℕ) → Keeps (store (image bytes) id at)) where
    store_item-Keeps :
        (i : ℕ) (rest : Action Gallery (List GeneratedImage))
        → Keeps rest
        → (item : Item)
        → Keeps (elim item [
          | skipped ↦ rest
          | unsupported ↦ or_raise none (api_error 502 "image_generation_unsupported_response")
          | encoded b64 ↦ (do
            bytes ← or_raise (c.decode b64) (api_error 502 "invalid_upstream_image")
            row ← store (image bytes) (d.image_id i) (d.created_at i)
            rows ← rest
            pure (row ∷ rows))
        ])
    store_item-Keeps i rest h skipped = h
    store_item-Keeps i rest h unsupported = or_raise-Keeps none _
    store_item-Keeps i rest h (encoded b64) =
        >>=-Keeps _ _ (or_raise-Keeps (c.decode b64) _) (λ bytes.
          >>=-Keeps _ _ (kept bytes _ _) (λ row. >>=-Keeps _ _ h (λ rows. pure-Keeps (row ∷ rows))))

    store_items-Keeps : (items : Items) (i : ℕ) → Keeps (store_items c.decode image d items i)
    unfolding store_items
    store_items-Keeps nil i = pure-Keeps []
    store_items-Keeps (cons v vs) i =
        store_item-Keeps i _ (store_items-Keeps vs (i + 1)) (read_item v)

  stored-Keeps :
      (prompt : String) (format : Format) (quality : ImageQuality) (credits : Amount)
      (cost : Option Cost)
      → 0 < credits.den
      → (bytes : List ℕ) (id at : ℕ)
      → Keeps (store (new_image q d a prompt format quality credits cost bytes) id at)
  stored-Keeps prompt format quality credits cost shared bytes id at = record {
    keeps =
        store-Within (new_image q d a prompt format quality credits cost bytes) id at a.plan
          (period a) m refl refl quota shared;
  }

  store_answer-Keeps :
      (prompt : String) (format : Format) (quality : ImageQuality) (total : ℕ) (body : Option Value)
      → Keeps (store_answer c q d a prompt format quality total body)
  unfolding store_answer
  store_answer-Keeps prompt format quality total body =
      go (as_items (get_in "data" (as_dict body))) (shared_items (get_in "data" (as_dict body)))
    where
      go :
          (o : Option Items)
          → ((items : Items) → o ≡ some items → 0 < items_length items)
          → Keeps {A = List GeneratedImage} (elim o as (λ _. Action Gallery (List GeneratedImage)) [
            | none ↦ or_raise none image_empty
            | some items ↦ (do
              cost ← or_crash (read_cost (get_in "cost" (as_dict (get_in "usage" (as_dict body)))))
              rows ←
                  store_items c.decode
                    (new_image q d a prompt format quality (share total (items_length items)) cost)
                    d
                    items
                    0
              or_raise (some_rows rows) image_empty)
          ])
      go none h = or_raise-Keeps none image_empty
      go (some items) h = >>=-Keeps _ _ (or_crash-Keeps _) (λ cost.
          >>=-Keeps _ _
            (store_items-Keeps
              (new_image q d a prompt format quality (share total (items_length items)) cost)
              (stored-Keeps prompt format quality (share total (items_length items)) cost
                (h items refl))
              items 0)
            (λ rows. or_raise-Keeps (some_rows rows) image_empty))

  take_reply-Keeps :
      (prompt : String) (format : Format) (quality : ImageQuality) (total : ℕ) (reply : Reply)
      → Keeps (take_reply c q d a prompt format quality total reply)
  unfolding take_reply
  take_reply-Keeps prompt format quality total (refused e) = or_raise-Keeps none e
  take_reply-Keeps prompt format quality total timeout = or_crash-Keeps none
  take_reply-Keeps prompt format quality total http_error = or_crash-Keeps none
  take_reply-Keeps prompt format quality total (response status_code body headers) =
      elim (Bool-cases (status_code == 200)) [
        | inl fine ↦ rw fine (
            >>=-Keeps _ _ (or_crash-Keeps body)
              (λ v. store_answer-Keeps prompt format quality total (some v)))
        | inr other ↦ rw other (or_raise-Keeps none _)
      ]

  generate_for-Keeps : Keeps (generate_for c q d a)
  unfolding generate_for
  generate_for-Keeps = >>=-Keeps _ _ (lift-Keeps (validate_prompt q.prompt)) (λ prompt.
      >>=-Keeps _ _ (or_raise-Keeps (normalize_format q.format) _) (λ format.
        >>=-Keeps _ _ (check_quota-Keeps (or_default q.quality standard) (image_count q.count))
          (λ total.
            take_reply-Keeps prompt format (or_default q.quality standard) total (ask c q prompt))))

  -- For the subscription that serves the user, with an image quota: if the whole credits used in
  -- its period are within the quota, they are within it after any generation, however it ends.
  pub generate_images-Within :
      (g g' : Gallery)
      → subscribe c q d g ≡ (ok a, g')
      → Within m q.user (period a) g
      → Within m q.user (period a) (generate_images c q d g).1
  unfolding generate_images
  generate_images-Within g g' e within =
      subst (λ r. Within m q.user (period a) r.1)
        (sym (>>=-ok (subscribe c q d) (generate_for c q d) g g' a e))
        (generate_for-Keeps.keeps g' (
          subst (λ images. charged_sum images q.user (period a) / micro ≤ m)
            (sym (ap (λ r. r.1.images) (sym e) ∙ images-subscribe c q d g)) within))
