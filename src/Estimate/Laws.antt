-- ===== src/Estimate/Laws.antt =====
-- The two walks over the messages in credits.py, and the bounds of the estimate.
use Prim.Native.String.{String}
use ufuk_ai_agent.Prelude.{ℕ, ◌+◌, ◌*◌, ◌≤◌, ◌≡◌, refl, Option, List, [], ◌∷◌, length, arith}
use ufuk_ai_agent.Estimate.{
  chars, concat, Block, text, non_text, Content, plain, blocks, null, dumped, block_counts,
  content_counts, message_counts, block_text, content_text, collect_text, text_tokens,
  estimate_messages_tokens, non_text_block_tokens,
}

pub chars-concat : (s t : String) → chars (concat s t) ≡ chars s + chars t
chars-concat String.[] t = omega arith
chars-concat (String.◌∷◌ c s) t = omega (arith, chars-concat s t)

chars-block_text : (bs : List Block) → chars (block_text bs) ≡ (block_counts bs).0
chars-block_text [] = refl
chars-block_text (text s ∷ bs) = omega (arith, chars-concat s (block_text bs), chars-block_text bs)
chars-block_text (non_text ∷ bs) = chars-block_text bs

chars-content_text : (m : Content) → chars (content_text m) ≡ (content_counts m).0
chars-content_text (plain s) = refl
chars-content_text (blocks bs) = chars-block_text bs
chars-content_text null = refl
chars-content_text (dumped s) = refl

-- The characters that the walk over the messages counts are those of the text that `_collect_text`
-- collects for the encoder.
pub chars-collect_text :
    (messages : List Content) → chars (collect_text messages) ≡ (message_counts messages).0
unfolding collect_text message_counts
chars-collect_text [] = refl
chars-collect_text (m ∷ messages) = omega (
  arith,
  chars-concat (content_text m) (collect_text messages),
  chars-content_text m,
  chars-collect_text messages,
)

-- The prompt's estimate is at least 1.2 times the tokens of its text plus the flat overhead, and
-- less than two tokens above that.
pub estimate_messages_tokens_padded :
    (encoder : Option (String → ℕ)) (messages : List Content)
    → let est = estimate_messages_tokens encoder messages in
      let overhead = (message_counts messages).1 * non_text_block_tokens + 4 * length messages in
      (6 * text_tokens encoder messages + 5 * overhead ≤ 5 * est)
      × (5 * est ≤ 6 * text_tokens encoder messages + 5 * overhead + 9)
unfolding estimate_messages_tokens
estimate_messages_tokens_padded encoder messages = omega arith
