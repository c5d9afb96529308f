-- ===== src/Json.antt =====
-- JSON values as Python's `json` gives them, with the tests and look-ups that the gateway makes.
pub mod Laws
use Prim.Native.String.{String}
use text.Mathlib.Text.{◌==◌ as str_eq}
use ufuk_ai_agent.Prelude.{ℕ, suc, Bool, true, false, Option, none, some, if◌then◌else◌}
use ufuk_ai_agent.Prelude.Int.{ℤ, pos, negsuc}
use ufuk_ai_agent.Usage.{Cost}

-- `float` is a number with a fraction or an exponent, by its decimal value in millionths.
mutual
  pub data Value : Type 0 where
    null : Value
    boolean : Bool → Value
    int : ℤ → Value
    float : Cost → Value
    string : String → Value
    array : Items → Value
    object : Fields → Value

  pub data Items : Type 0 where
    nil : Items
    cons : Value → Items → Items

  pub data Fields : Type 0 where
    end : Fields
    field : String → Value → Fields → Fields

-- `d.get(key)` and, on a dict, `del d[key]` and `d[key] = value`
unfoldable pub get : String → Fields → Option Value
get key end = none
get key (field k v fs) = if str_eq k key then some v else get key fs

unfoldable pub delete : String → Fields → Fields
delete key end = end
delete key (field k v fs) =
    let rest = delete key fs in if str_eq k key then rest else field k v rest

unfoldable pub put : String → Value → Fields → Fields
put key v end = field key v end
put key v (field k w fs) = if str_eq k key then field k v fs else field k w (put key v fs)

-- `isinstance(x, dict)`, `isinstance(x, str)` and `isinstance(x, int)`, where `True` is 1.
abbrev pub as_dict : Option Value → Option Fields
as_dict (some (object fs)) = some fs
as_dict (some null) = none
as_dict (some _) = none
as_dict none = none

abbrev pub as_string : Option Value → Option String
as_string (some (string s)) = some s
as_string (some null) = none
as_string (some _) = none
as_string none = none

abbrev pub as_int : Option Value → Option ℤ
as_int (some (int n)) = some n
as_int (some (boolean true)) = some (pos 1)
as_int (some (boolean false)) = some (pos 0)
as_int (some null) = none
as_int (some _) = none
as_int none = none

-- `d.get(key)` where `d` is `x` if that is a dict.
abbrev pub get_in : String → Option Fields → Option Value
get_in key none = none
get_in key (some fs) = get key fs

-- What `for choice in x or []` goes over: the items of a list, nothing that is a dict for a falsy
-- value, a text or a dict, and a `TypeError` (`none`) for any other.
abbrev pub iterate : Option Value → Option Items
iterate none = some nil
iterate (some null) = some nil
iterate (some (boolean true)) = none
iterate (some (boolean false)) = some nil
iterate (some (int (pos ℕ.zero))) = some nil
iterate (some (int (pos (suc _)))) = none
iterate (some (int (negsuc _))) = none
iterate (some (float c)) = elim c.num [
  | pos ℕ.zero ↦ some nil
  | pos (suc _) ↦ none
  | negsuc _ ↦ none
]
iterate (some (string _)) = some nil
iterate (some (array xs)) = some xs
iterate (some (object _)) = some nil

-- `x or 0` where an integer is wanted: any other truthy value ends in an exception.
abbrev pub int_or_zero : Option Value → Option ℤ
int_or_zero none = some (pos 0)
int_or_zero (some null) = some (pos 0)
int_or_zero (some (boolean true)) = some (pos 1)
int_or_zero (some (boolean false)) = some (pos 0)
int_or_zero (some (int n)) = some n
int_or_zero (some (float c)) = elim c.num [
  | pos ℕ.zero ↦ some (pos 0)
  | pos (suc _) ↦ none
  | negsuc _ ↦ none
]
int_or_zero (some (string String.[])) = some (pos 0)
int_or_zero (some (string (String.◌∷◌ _ _))) = none
int_or_zero (some (array nil)) = some (pos 0)
int_or_zero (some (array (cons _ _))) = none
int_or_zero (some (object end)) = some (pos 0)
int_or_zero (some (object (field _ _ _))) = none
