-- ===== src/Redis/Memory.antt =====
-- A small in-memory store that meets `IsLawful`: what witnesses and tests run on.
use Prim.Native.String.{String}
use text.Mathlib.Text.{◌==◌ as str_eq}
use text.Mathlib.TextEquality.{eq_iff}
use native.Mathlib.Decide.{ℕ_discrete}
use mathlib.Core.Logic.{ite, if_pos, if_neg}
use ufuk_ai_agent.Prelude.{
  ℕ, ◌≡◌, refl, sym, ◌∙◌, inl, inr, Bool-cases, Bool, true, false, ◌≢◌, Option, none, some, List,
  [], ◌∷◌, length, any, or_default, if◌then◌else◌,
}
use ufuk_ai_agent.Prelude.Int.{ℤ, pos, negsuc, ◌+ℤ◌}
use ufuk_ai_agent.Redis.Interface.{Key, Redis, IsLawful}

unfoldable String-discrete : Discrete String
String-discrete s t = elim (Bool-cases (str_eq s t)) [
  | inl same ↦ yes ((eq_iff s t).0 same)
  | inr other ↦ no (λ e. differ (sym other ∙ (eq_iff s t).1 e))
]
  where
    differ : Path Bool false true → ⊥
    differ h = cc

unfoldable pub Key-discrete : Discrete Key
unfolding ℕ_discrete String-discrete
Key-discrete = hlevel (ℕ_discrete, String-discrete)

-- `left` is the remaining time to live, `none` for no expiry.
pub record Cell : Type 0 where
  pub number : Option ℤ
  pub left : Option ℕ
  pub members : List String

abbrev pub Memory : Type 0
Memory = Key → Cell

abbrev pub empty_cell : Cell
empty_cell = record { number = none; left = none; members = [] }

abbrev pub empty : Memory
empty k = empty_cell

unfoldable pub update : Memory → Key → Cell → Memory
unfolding Key-discrete
update s k c j = ite (Key-discrete j k) c (s j)

update_self : (s : Memory) (k : Key) (c : Cell) → update s k c k ≡ c
unfolding update
update_self s k c = if_pos (Key-discrete k k) refl c (s k)

update_ne : (s : Memory) (k j : Key) (c : Cell) → j ≢ k → update s k c j ≡ s j
unfolding update
update_ne s k j c h = if_neg (Key-discrete j k) h c (s j)

abbrev bumped : Cell → ℤ → Cell
bumped c d = record {
  number = some (or_default c.number (pos 0) +ℤ d);
  left = elim c.number [ none ↦ none | some _ ↦ c.left ];
  members = c.members;
}

abbrev time_left : Cell → ℤ
time_left c = elim c.number [
  | none ↦ negsuc 1
  | some _ ↦ elim c.left [ none ↦ negsuc 0 | some n ↦ pos n ]
]

abbrev joined : Cell → String → Cell
joined c m = record c { members = if any (str_eq m) c.members then c.members else m ∷ c.members }

abbrev pub memory : Redis
memory = record {
  Store = Memory;
  get = λ s k. (s k).number;
  incrby = λ s k d. (or_default (s k).number (pos 0) +ℤ d, update s k (bumped (s k) d));
  set = λ s k v ex. update s k (record { number = some v; left = some ex; members = [] });
  expire = λ s k ex. update s k (record (s k) { left = some ex });
  ttl = λ s k. time_left (s k);
  sadd = λ s k m. update s k (joined (s k) m);
  scard = λ s k. length (s k).members;
  delete = λ s k. update s k empty_cell;
}

-- An update that keeps the number at its key keeps it at every key.
update-number :
    (s : Memory) (k j : Key) (c : Cell)
    → c.number ≡ (s k).number
    → (update s k c j).number ≡ (s j).number
unfolding update
update-number s k j c h = elim (Key-discrete j k) [
  | yes p ↦ rw (if_pos (Key-discrete j k) p c (s j), p) h
  | no p ↦ rw (if_neg (Key-discrete j k) p c (s j))
]

-- The in-memory store behaves as Redis documents.
pub memory-IsLawful : IsLawful memory
memory-IsLawful = record {
  reply-incrby = λ s k d. refl;
  get-incrby_self = λ s k d. rw update_self;
  get-incrby_ne = λ s k j d h. rw (update_ne s k j (bumped (s k) d) h);
  get-set_self = λ s k v ex h. rw update_self;
  get-set_ne = λ s k j v ex h ne. rw (update_ne s k j _ ne);
  get-expire = λ s k j ex h. update-number s k j _ refl;
  get-sadd = λ s k j m. update-number s k j _ refl;
  get-delete_self = λ s k. rw update_self;
  get-delete_ne = λ s k j ne. rw (update_ne s k j _ ne);
  ttl-expire_self = λ s k ex h e. rw (update_self, e);
  ttl-incrby_new = λ s k d e. rw (update_self, e);
  ttl-incrby_old = λ s k d e. rw (update_self, e);
}
