-- ===== src/Estimate.antt =====
-- The token estimates of evren-backend/app/services/credits.py. The encoder is tiktoken's, a function
-- from a text to its number of tokens, or none where it is not available.
pub mod Laws
use Prim.Native.String.{String}
use ufuk_ai_agent.Prelude.{
  ℕ, suc, ◌+◌, ◌*◌, ◌/◌, Bool, ◌&&◌, not, Option, none, some, List, [], ◌∷◌, max, length, ◌==◌,
  if◌then◌else◌,
}

-- `len` of a Python string: its characters.
abbrev pub chars : String → ℕ
chars String.[] = 0
chars (String.◌∷◌ c s) = suc (chars s)

abbrev pub concat : String → String → String
concat String.[] t = t
concat (String.◌∷◌ c s) t = String.◌∷◌ c (concat s t)

-- A content block: a text block with `str(block.get("text", ""))`, or anything else.
pub data Block : Type 0 where
  text : String → Block
  non_text : Block

-- `message.get("content", "")`: a string, a list of blocks, `None`, or another value with what
-- `json.dumps` makes of it.
pub data Content : Type 0 where
  plain : String → Content
  blocks : List Block → Content
  null : Content
  dumped : String → Content

abbrev pub non_text_block_tokens : ℕ
non_text_block_tokens = 1024

-- `math.ceil(raw * 1.2)`: a multiple of 5 gives an exact product, any other is a fifth or more away
-- from a whole number, so the rounding of the float never moves the ceiling.
unfoldable pub apply_margin : ℕ → ℕ
apply_margin raw = max 1 ((6 * raw + 4) / 5)

unfoldable pub estimate_tokens : Option (String → ℕ) → String → ℕ
estimate_tokens encoder String.[] = 1
estimate_tokens none (String.◌∷◌ c s) = max 1 ((chars (String.◌∷◌ c s) + 3) / 4)
estimate_tokens (some encode) (String.◌∷◌ c s) = max 1 (encode (String.◌∷◌ c s))

-- The counts that one block, one message and all messages add to `text_chars` and
-- `non_text_blocks`.
abbrev pub block_counts : List Block → ℕ × ℕ
block_counts [] = (0, 0)
block_counts (text s ∷ bs) = let (t, n) = block_counts bs in (chars s + t, n)
block_counts (non_text ∷ bs) = let (t, n) = block_counts bs in (t, n + 1)

abbrev pub content_counts : Content → ℕ × ℕ
content_counts (plain s) = (chars s, 0)
content_counts (blocks bs) = block_counts bs
content_counts null = (0, 0)
content_counts (dumped s) = (chars s, 0)

unfoldable pub message_counts : List Content → ℕ × ℕ
message_counts [] = (0, 0)
message_counts (m ∷ messages) =
    let (t, n) = content_counts m in let (ts, ns) = message_counts messages in (t + ts, n + ns)

abbrev pub block_text : List Block → String
block_text [] = String.[]
block_text (text s ∷ bs) = concat s (block_text bs)
block_text (non_text ∷ bs) = block_text bs

abbrev pub content_text : Content → String
content_text (plain s) = s
content_text (blocks bs) = block_text bs
content_text null = String.[]
content_text (dumped s) = s

-- `_collect_text`
unfoldable pub collect_text : List Content → String
collect_text [] = String.[]
collect_text (m ∷ messages) = concat (content_text m) (collect_text messages)

-- The tokens of the messages' text, before the margin.
unfoldable pub text_tokens : Option (String → ℕ) → List Content → ℕ
unfolding message_counts collect_text
text_tokens none messages = ((message_counts messages).0 + 3) / 4
text_tokens (some encode) messages =
    if not ((message_counts messages).0 == 0)
    then encode (collect_text messages)
    else ((message_counts messages).0 + 3) / 4

unfoldable pub estimate_messages_tokens : Option (String → ℕ) → List Content → ℕ
unfolding apply_margin text_tokens
estimate_messages_tokens encoder messages = max 1 (
    apply_margin (text_tokens encoder messages)
    + (message_counts messages).1 * non_text_block_tokens
    + 4 * length messages)
