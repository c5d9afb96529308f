-- ===== src/Tests/Streams.antt =====
-- A streamed response at concrete lines.
use ufuk_ai_agent.Prelude.{◌≡◌, refl, false, Option, none, some, List, [], ◌∷◌}
use ufuk_ai_agent.Prelude.Int.{pos}
use ufuk_ai_agent.Json.{Value, object, int, field, end, get}
use ufuk_ai_agent.Gateway.Response.{read_cost}
use ufuk_ai_agent.Gateway.Scanner.{fresh_scanner, feed_lines, partial_reading}
use ufuk_ai_agent.Gateway.Scanner.Usage.{text_line}

abbrev lines : List (Option Value)
lines =
    text_line "hi"
    ∷ none
    ∷ some (
        object (
          field "usage"
            (object
              (field "prompt_tokens" (int (pos 9)) (field "completion_tokens" (int (pos 2)) end)))
            end))
    ∷ []

exact : (partial_reading 12 (feed_lines lines fresh_scanner).1).estimated ≡ false
unfolding partial_reading feed_lines get read_cost
exact = refl
