-- ===== src/Images/Disk.antt =====
-- The image files as `ImageService` writes, reads and unlinks them.
use ufuk_ai_agent.Prelude.{
  ℕ, ◌≡◌, ◌≢◌, refl, ap, ◌∙◌, inl, inr, Bool-cases, Bool, true, false, Option, none, some, List, [],
  ◌∷◌, if◌then◌else◌, arith,
}
use ufuk_ai_agent.Images.{
  Format, png, jpeg, StoragePath, Files, same_format, same_path, unlink, write_bytes, read_file,
}

same_format_refl : (f : Format) → same_format f f ≡ true
same_format_refl png = refl
same_format_refl jpeg = refl

same_path_refl : (p : StoragePath) → same_path p p ≡ true
same_path_refl p = ground (arith, same_format_refl p.format)

-- A removal leaves the paths of other owners.
different_owner :
    (p q k : StoragePath) → p.owner ≢ q.owner → same_path q k ≡ true → same_path p k ≡ false
different_owner p q k h e = ground arith

pub read_file-unlink_ne :
    (p q : StoragePath) (files : Files)
    → p.owner ≢ q.owner
    → read_file p (unlink q files) ≡ read_file p files
unfolding read_file unlink
read_file-unlink_ne p q [] h = refl
read_file-unlink_ne p q ((k, bytes) ∷ files) h = elim (Bool-cases (same_path q k)) [
  | inl own ↦ rw (own, different_owner p q k h own) (read_file-unlink_ne p q files h)
  | inr other ↦
      rw other
        (ap (λ rest. if same_path p k then some bytes else rest) (read_file-unlink_ne p q files h))
]

-- A path that is not there is not touched by its removal.
absent_rest :
    (b : Bool) (bytes : List ℕ) (rest : Option (List ℕ))
    → (if b then some bytes else rest) ≡ none
    → (b ≡ false) × (rest ≡ none)
absent_rest true bytes rest h = absurd (clash h)
  where
    clash : Path (Option (List ℕ)) (some bytes) none → ⊥
    clash c = cc
absent_rest false bytes rest h = (refl, h)

unlink_absent :
    (p : StoragePath) (files : Files) → read_file p files ≡ none → unlink p files ≡ files
unfolding read_file unlink
unlink_absent p [] h = refl
unlink_absent p ((k, bytes) ∷ files) h =
    let (other, rest) = absent_rest (same_path p k) bytes (read_file p files) h in
    rw other (ap (λ x. (k, bytes) ∷ x) (unlink_absent p files rest))

pub unlink-write_bytes :
    (p : StoragePath) (bytes : List ℕ) (files : Files)
    → read_file p files ≡ none
    → unlink p (write_bytes p bytes files) ≡ files
unfolding unlink write_bytes
unlink-write_bytes p bytes files h =
    let once = unlink_absent p files h in rw (same_path_refl p) (ap (unlink p) once ∙ once)

pub read_file-write_bytes :
    (p : StoragePath) (bytes : List ℕ) (files : Files)
    → read_file p (write_bytes p bytes files) ≡ some bytes
unfolding read_file write_bytes
read_file-write_bytes p bytes files = rw (same_path_refl p) refl
