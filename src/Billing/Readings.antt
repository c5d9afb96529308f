-- ===== src/Billing/Readings.antt =====
-- What the fields of an event in `billing_webhook` are where its tests let them through.
use Prim.Native.String.{String}
use ufuk_ai_agent.Prelude.{zero, suc, ◌≡◌, true, false, Option, none, some}
use ufuk_ai_agent.Prelude.Int.{ℤ, pos, negsuc}
use ufuk_ai_agent.Json.{
  Value, null, boolean, int, float, string, array, object, nil, cons, end, field,
}
use ufuk_ai_agent.Usage.{Cost}
use ufuk_ai_agent.Upstream.{truthy}
use ufuk_ai_agent.Billing.{as_text}

float_same :
    (c : Cost) (w : Value) (n : ℤ)
    → Path
        (Option Value)
        (elim n [ pos zero ↦ none | pos (suc _) ↦ some (float c) | negsuc _ ↦ some (float c) ])
        (some w)
    → Path (Option Value) (some (float c)) (some w)
float_same c w (pos zero) e = cc
float_same c w (pos (suc n)) e = e
float_same c w (negsuc n) e = e

pub truthy_same : (v : Option Value) (w : Value) → truthy v ≡ some w → v ≡ some w
truthy_same none w e = cc
truthy_same (some null) w e = cc
truthy_same (some (boolean true)) w e = e
truthy_same (some (boolean false)) w e = cc
truthy_same (some (int (pos zero))) w e = cc
truthy_same (some (int (pos (suc n)))) w e = e
truthy_same (some (int (negsuc n))) w e = e
truthy_same (some (float c)) w e = float_same c w c.num e
truthy_same (some (string String.[])) w e = cc
truthy_same (some (string (String.◌∷◌ c s))) w e = e
truthy_same (some (array nil)) w e = cc
truthy_same (some (array (cons v vs))) w e = e
truthy_same (some (object end)) w e = cc
truthy_same (some (object (field k v fs))) w e = e

pub as_text_same : (v : Value) (s : String) → as_text v ≡ some s → v ≡ string s
as_text_same (string t) s e = cc
as_text_same null s e = cc
as_text_same (boolean b) s e = cc
as_text_same (int n) s e = cc
as_text_same (float c) s e = cc
as_text_same (array vs) s e = cc
as_text_same (object fs) s e = cc
