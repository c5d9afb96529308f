-- ===== src/Json/Laws.antt =====
-- What a look-up finds after a deletion or an assignment.
use Prim.Native.String.{String}
use text.Mathlib.Text.{◌==◌ as str_eq}
use text.Mathlib.TextEquality.{eq_iff}
use ufuk_ai_agent.Prelude.{◌≡◌, refl, none, some, arith, if◌then◌else◌}
use ufuk_ai_agent.Json.{Value, Fields, end, field, get, delete, put}

pub get-delete :
    (key j : String) (fs : Fields)
    → get j (delete key fs) ≡ (if str_eq key j then none else get j fs)
unfolding get delete
get-delete key j end = ground arith
get-delete key j (field k v fs) =
    ground (arith, eq_iff key j, eq_iff k key, eq_iff k j, get-delete key j fs)

pub get-put :
    (key j : String) (v : Value) (fs : Fields)
    → get j (put key v fs) ≡ (if str_eq key j then some v else get j fs)
unfolding get put
get-put key j v end = refl
get-put key j v (field k w fs) =
    ground (arith, eq_iff key j, eq_iff k key, eq_iff k j, get-put key j v fs)
