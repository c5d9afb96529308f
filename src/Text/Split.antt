-- ===== src/Text/Split.antt =====
-- `str.split` by one character, and `split(…, 1)` of a text that has the character.
use Prim.Native.Char.{Char, code}
use Prim.Native.String.{String, [], ◌∷◌, ◌++◌}
use Prim.Native.String.append
use ufuk_ai_agent.Prelude.{
  ℕ, ◌≡◌, ap, refl, inl, inr, Bool-cases, Bool, true, false, ◌&&◌, not, ◌==◌, leb, Option, none,
  some, List, arith, if◌then◌else◌,
}

-- A character before the first piece.
abbrev pub onto_first : Char → List String → List String
onto_first c List.[] = List.◌∷◌ (c ∷ []) List.[]
onto_first c (List.◌∷◌ s pieces) = List.◌∷◌ (c ∷ s) pieces

-- `s.split(sep)`; the separator is the code of its character.
unfoldable pub split : ℕ → String → List String
split sep [] = List.◌∷◌ [] List.[]
split sep (c ∷ s) =
    let pieces = split sep s in if code c == sep then List.◌∷◌ [] pieces else onto_first c pieces

abbrev pub before_cut : Char → Option (String × String) → Option (String × String)
before_cut c none = none
before_cut c (some (s, t)) = some (c ∷ s, t)

-- `item.split(sep, 1)`, none where `sep in item` is false.
unfoldable pub cut : ℕ → String → Option (String × String)
cut sep [] = none
cut sep (c ∷ s) = let rest = cut sep s in if code c == sep then some ([], s) else before_cut c rest

-- Whether a text has no such character.
unfoldable pub lacks : ℕ → String → Bool
lacks sep [] = true
lacks sep (c ∷ s) = not (code c == sep) && lacks sep s

-- `isascii`
unfoldable pub is_ascii : String → Bool
is_ascii [] = true
is_ascii (c ∷ s) = leb (code c) 127 && is_ascii s

lacks_no : (b r : Bool) → b ≡ true → not b && r ≡ true → ⊥
lacks_no b r p h = ground (arith, p, h)

lacks_rest : (b r : Bool) → b ≡ false → not b && r ≡ true → r ≡ true
lacks_rest b r p h = ground (arith, p, h)

pub split-lacks : (sep : ℕ) (s : String) → lacks sep s ≡ true → split sep s ≡ List.◌∷◌ s List.[]
unfolding split lacks
split-lacks sep [] h = refl
split-lacks sep (c ∷ s) h = elim (Bool-cases (code c == sep)) [
  | inl hit ↦ absurd (lacks_no _ _ hit h)
  | inr miss ↦ rw miss (ap (onto_first c) (split-lacks sep s (lacks_rest _ _ miss h)))
]

append-nil : (t : String) → [] ++ t ≡ t
append-nil t = λ i. append.nil t i

pub append-cons : (c : Char) (s t : String) → (c ∷ s) ++ t ≡ c ∷ (s ++ t)
append-cons c s t = λ i. append.cons c s t i

pub split-append :
    (sep : ℕ) (s : String) (c : Char) (t : String)
    → lacks sep s ≡ true
    → (code c == sep) ≡ true
    → split sep (s ++ (c ∷ t)) ≡ List.◌∷◌ s (split sep t)
unfolding split lacks
split-append sep [] c t h e = rw (append-nil, e) refl
split-append sep (d ∷ s) c t h e = rw append-cons (elim (Bool-cases (code d == sep)) [
  | inl hit ↦ absurd (lacks_no _ _ hit h)
  | inr miss ↦ rw miss (ap (onto_first d) (split-append sep s c t (lacks_rest _ _ miss h) e))
])

pub cut-append :
    (sep : ℕ) (s : String) (c : Char) (t : String)
    → lacks sep s ≡ true
    → (code c == sep) ≡ true
    → cut sep (s ++ (c ∷ t)) ≡ some (s, t)
unfolding cut lacks
cut-append sep [] c t h e = rw (append-nil, e) refl
cut-append sep (d ∷ s) c t h e = rw append-cons (elim (Bool-cases (code d == sep)) [
  | inl hit ↦ absurd (lacks_no _ _ hit h)
  | inr miss ↦ rw miss (ap (before_cut d) (cut-append sep s c t (lacks_rest _ _ miss h) e))
])

pub lacks-append :
    (sep : ℕ) (s t : String) → lacks sep s ≡ true → lacks sep t ≡ true → lacks sep (s ++ t) ≡ true
unfolding lacks
lacks-append sep [] t h k = rw append-nil k
lacks-append sep (c ∷ s) t h k = rw append-cons (ground (arith, lacks-append sep s t))
