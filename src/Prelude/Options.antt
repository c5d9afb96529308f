-- ===== src/Prelude/Options.antt =====
-- Chains of fallible readings, and dictionaries of texts.
use Prim.Native.String.{String}
use text.Mathlib.Text.{◌==◌ as str_eq}
use mathlib.Core.List.{List, [], ◌∷◌}
use mathlib.Core.Option.{Option, none, some}
use ufuk_ai_agent.Prelude.Tests.{if◌then◌else◌}

infixl 5 ◌>>=◌
abbrev pub ◌>>=◌ {ℓ κ} : {A : Type ℓ} {B : Type κ} → Option A → (A → Option B) → Option B
none >>= f = none
some a >>= f = f a

abbrev pub Dict : Type 0
Dict = List (String × String)

-- `data.get(key)`; the first entry of a key is its only one.
abbrev pub lookup : String → Dict → Option String
lookup k [] = none
lookup k ((j, v) ∷ d) = let rest = lookup k d in if str_eq j k then some v else rest
