-- ===== src/Images/Deletion.antt =====
-- What `ImageService.delete_for_user` leaves for `get_image`.
use ufuk_ai_agent.Prelude.{
  ℕ, ◌≡◌, ◌≢◌, refl, ap, subst, ◌∙◌, inl, inr, Bool-cases, true, not, ◌==◌, Option, none, some,
  List, [], ◌∷◌, select, arith,
}
use ufuk_ai_agent.Errors.{raise, api_error}
use ufuk_ai_agent.Subscriptions.Tables.{first}
use ufuk_ai_agent.Images.{
  StoragePath, GeneratedImage, Files, Gallery, unlink, unlink_all, read_file, serve_row,
  owned_image, get_image, delete_for_user,
}
use ufuk_ai_agent.Images.Disk.{read_file-unlink_ne}

-- Every row's path is under its owner.
abbrev pub Owned : List GeneratedImage → Type 0
Owned [] = Unit
Owned (r ∷ rows) = (r.storage_path.owner ≡ r.user_id) × Owned rows

first_gone :
    (user id : ℕ) (rows : List GeneratedImage)
    → first (owned_image user id) (select (λ (r : GeneratedImage). not (r.user_id == user)) rows)
      ≡ none
unfolding first
first_gone user id [] = refl
first_gone user id (r ∷ rows) = ground (arith, first_gone user id rows)

first_kept :
    (user w id : ℕ) (rows : List GeneratedImage)
    → w ≢ user
    → first (owned_image w id) (select (λ (r : GeneratedImage). not (r.user_id == user)) rows)
      ≡ first (owned_image w id) rows
unfolding first
first_kept user w id [] h = refl
first_kept user w id (r ∷ rows) h = ground (arith, first_kept user w id rows h)

other_owner :
    (p : StoragePath) (r : GeneratedImage) (user : ℕ)
    → r.storage_path.owner ≡ r.user_id
    → r.user_id == user ≡ true
    → p.owner ≢ user
    → p.owner ≢ r.storage_path.owner
other_owner p r user o e h = ground arith

read_file-unlink_all_ne :
    (p : StoragePath) (user : ℕ) (rows : List GeneratedImage) (files : Files)
    → Owned rows
    → p.owner ≢ user
    → read_file p (unlink_all (select (λ (r : GeneratedImage). r.user_id == user) rows) files)
      ≡ read_file p files
unfolding unlink_all
read_file-unlink_all_ne p user [] files o h = refl
read_file-unlink_all_ne p user (r ∷ rows) files o h = elim (Bool-cases (r.user_id == user)) [
  | inl own ↦ rw own (
      read_file-unlink_all_ne p user rows (unlink r.storage_path files) o.1 h
      ∙ read_file-unlink_ne p r.storage_path files (other_owner p r user o.0 own h))
  | inr other ↦ rw other (read_file-unlink_all_ne p user rows files o.1 h)
]

its_user : (w id : ℕ) (x : GeneratedImage) → owned_image w id x ≡ true → x.user_id ≡ w
its_user w id x own = ground arith

first_owner :
    (w id : ℕ) (rows : List GeneratedImage) (r : GeneratedImage)
    → Owned rows
    → first (owned_image w id) rows ≡ some r
    → r.storage_path.owner ≡ w
unfolding first
first_owner w id [] r o e = absurd (clash e)
  where
    clash : Path (Option GeneratedImage) none (some r) → ⊥
    clash c = cc
first_owner w id (x ∷ rows) r o e = elim (Bool-cases (owned_image w id x)) [
  | inl own ↦
      let found = (rw own at e) in
      let same : x ≡ r = cc in
      subst (λ (z : GeneratedImage). z.storage_path.owner ≡ w) same (o.0 ∙ its_user w id x own)
  | inr other ↦ first_owner w id rows r o.1 (rw other at e)
]

owner_ne :
    (r : GeneratedImage) (w user : ℕ)
    → r.storage_path.owner ≡ w
    → w ≢ user
    → r.storage_path.owner ≢ user
owner_ne r w user e h = ground arith

serve_kept :
    (user w id : ℕ) (g : Gallery)
    → w ≢ user
    → Owned g.images
    → (found : Option GeneratedImage) → first (owned_image w id) g.images ≡ found
    → serve_row
        (unlink_all (select (λ (r : GeneratedImage). r.user_id == user) g.images) g.files)
        found
      ≡ serve_row g.files found
unfolding serve_row
serve_kept user w id g h o none e = refl
serve_kept user w id g h o (some r) e =
    rw
      (
        serve_row,
        read_file-unlink_all_ne r.storage_path user g.images g.files o
            (owner_ne r w user (first_owner w id g.images r o e) h),
      )
      refl

-- Where every row's path is under its owner: after the deletion of a user's images, none of them
-- is served to the user, and every image is served to any other user as before.
pub delete_for_user_forgets :
    (user : ℕ) (g : Gallery)
    → Owned g.images
    → let g' = (delete_for_user user g).1 in
      ((id : ℕ) → get_image g' user id ≡ raise (api_error 404 "image_not_found"))
      × ((w id : ℕ) → w ≢ user → get_image g' w id ≡ get_image g w id)
unfolding delete_for_user get_image serve_row
delete_for_user_forgets user g o = (
  λ id. rw (first_gone user id g.images) refl,
  λ w id h.
      ap
        (serve_row
          (unlink_all (select (λ (r : GeneratedImage). r.user_id == user) g.images) g.files))
        (first_kept user w id g.images h)
      ∙ serve_kept user w id g h o (first (owned_image w id) g.images) refl,
)
