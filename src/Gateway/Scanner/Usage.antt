-- ===== src/Gateway/Scanner/Usage.antt =====
-- What a stream is settled by.
use Prim.Native.String.{String}
use ufuk_ai_agent.Prelude.{
  ℕ, ◌+◌, ◌/◌, ◌≡◌, refl, Bool, true, false, not, ◌&&◌, ◌||◌, Option, none, some, is_some, List, [],
  ◌∷◌, map, max, arith, inl, inr, Option-cases,
}
use ufuk_ai_agent.Prelude.Int.{pos}
use ufuk_ai_agent.Estimate.{chars, concat, estimate_tokens}
use ufuk_ai_agent.Estimate.Laws.{chars-concat}
use ufuk_ai_agent.Json.{
  Value, object, array, string, Items, nil, cons, Fields, field, end, get, as_dict, as_string,
  iterate,
}
use ufuk_ai_agent.Gateway.Scanner.{
  Scanner, fresh_scanner, and_then, feed_usage, feed_choice, feed_choices, feed_iterated,
  feed_object, feed_line, feed_lines, partial_reading, over,
}

-- A scanner that claims to have seen the usage has both counts.
abbrev pub is_honest : Scanner → Bool
is_honest s = not s.usage_seen || (is_some s.prompt_tokens && is_some s.completion_tokens)

module _ (P : Scanner → Type 0) where
  and_then-P :
      (r : Bool × Scanner) (k : Scanner → Bool × Scanner)
      → P r.1
      → ((s : Scanner) → P s → P (k s).1)
      → P (and_then r k).1
  and_then-P (false, s) k h f = h
  and_then-P (true, s) k h f = f s h

abbrev Honest : Scanner → Type 0
Honest s = is_honest s ≡ true

feed_usage-Honest : (usage : Option Fields) (s : Scanner) → Honest s → Honest (feed_usage usage s).1
unfolding feed_usage
feed_usage-Honest none s h = h
feed_usage-Honest (some usage) s h = ground arith

feed_choice-Honest : (choice : Value) (s : Scanner) → Honest s → Honest (feed_choice choice s).1
unfolding feed_choice
feed_choice-Honest choice s h = ground arith

feed_choices-Honest : (choices : Items) (s : Scanner) → Honest s → Honest (feed_choices choices s).1
unfolding feed_choices
feed_choices-Honest nil s h = h
feed_choices-Honest (cons choice choices) s h =
    and_then-P Honest (feed_choice choice s) (feed_choices choices) (feed_choice-Honest choice s h)
      (feed_choices-Honest choices)

feed_rest-Honest :
    (choices : Option Items) (s : Scanner) → Honest s → Honest (feed_iterated choices s).1
feed_rest-Honest none s h = h
feed_rest-Honest (some choices) s h = feed_choices-Honest choices s h

feed_object-Honest : (obj : Fields) (s : Scanner) → Honest s → Honest (feed_object obj s).1
unfolding feed_object
feed_object-Honest obj s h =
    let named = record s {
      selected_model_id = over (as_string (get "model" obj)) s.selected_model_id;
    } in
    and_then-P Honest (feed_usage (as_dict (get "usage" obj)) named)
      (feed_iterated (iterate (get "choices" obj)))
      (feed_usage-Honest (as_dict (get "usage" obj)) named h)
      (feed_rest-Honest (iterate (get "choices" obj)))

feed_line-Honest : (line : Option Value) (s : Scanner) → Honest s → Honest (feed_line line s).1
unfolding feed_line
feed_line-Honest line s h = elim (Option-cases (as_dict line)) [
  | inl skipped ↦ rw (skipped, feed_line) h
  | inr (obj, e) ↦ rw (e, feed_line) (feed_object-Honest obj s h)
]

feed_lines-Honest :
    (lines : List (Option Value)) (s : Scanner) → Honest s → Honest (feed_lines lines s).1
unfolding feed_lines
feed_lines-Honest [] s h = h
feed_lines-Honest (line ∷ lines) s h =
    and_then-P Honest (feed_line line s) (feed_lines lines) (feed_line-Honest line s h)
      (feed_lines-Honest lines)

exact_counts :
    (est_prompt : ℕ) (s : Scanner)
    → Honest s
    → (partial_reading est_prompt s).estimated ≡ false
    → (s.prompt_tokens ≡ some (partial_reading est_prompt s).prompt_tokens)
      × (s.completion_tokens ≡ some (partial_reading est_prompt s).completion_tokens)
unfolding partial_reading
exact_counts est_prompt s h e = (ground arith, ground arith)

-- Whatever lines a stream had, and wherever it ended, a settlement that is not marked as estimated
-- uses the prompt and completion counts that the upstream reported.
pub feed_lines-partial_reading_exact :
    (lines : List (Option Value)) (est_prompt : ℕ)
    → let s = (feed_lines lines fresh_scanner).1 in
      let reading = partial_reading est_prompt s in
      reading.estimated ≡ false
      → (s.prompt_tokens ≡ some reading.prompt_tokens)
        × (s.completion_tokens ≡ some reading.completion_tokens)
feed_lines-partial_reading_exact lines est_prompt e =
    exact_counts est_prompt _ (feed_lines-Honest lines fresh_scanner refl) e

-- A line with one piece of text, and the texts of a stream in a row.
abbrev pub text_line : String → Option Value
text_line s = some (
    object (
      field "choices"
        (array (cons (object (field "delta" (object (field "content" (string s) end)) end)) nil))
        end))

abbrev pub all_text : List String → String
all_text [] = String.[]
all_text (s ∷ texts) = concat s (all_text texts)

feed_text :
    (s : String) (c : Scanner)
    → feed_line (text_line s) c ≡ (true, record c { content_chars = c.content_chars + chars s })
unfolding feed_line get
feed_text s c = ground arith

feed_texts :
    (texts : List String) (c : Scanner)
    → feed_lines (map text_line texts) c
      ≡ (true, record c { content_chars = c.content_chars + chars (all_text texts) })
unfolding feed_lines
feed_texts [] c = ground arith
feed_texts (s ∷ texts) c =
    rw
      (
        feed_text s c,
        feed_texts texts (record c { content_chars = c.content_chars + chars s }),
        chars-concat s (all_text texts),
      )
      (ground arith)

estimate_of_chars : (s : String) → estimate_tokens none s ≡ max 1 ((chars s + 3) / 4)
unfolding estimate_tokens
estimate_of_chars String.[] = omega arith
estimate_of_chars (String.◌∷◌ c s) = refl

-- A stream of lines that each carry a piece of text, and no usage, is settled as estimated, with
-- the prompt's estimate and with the completion that `estimate_tokens` without an encoder gives
-- for the whole text.
pub feed_lines-estimate_tokens :
    (texts : List String) (est_prompt : ℕ)
    → let reading = partial_reading est_prompt (feed_lines (map text_line texts) fresh_scanner).1 in
      (reading.completion_tokens ≡ pos (estimate_tokens none (all_text texts)))
      × (reading.prompt_tokens ≡ pos est_prompt)
      × (reading.estimated ≡ true)
unfolding partial_reading
feed_lines-estimate_tokens texts est_prompt =
    rw (feed_texts texts fresh_scanner, estimate_of_chars (all_text texts))
      (ground arith, refl, refl)
