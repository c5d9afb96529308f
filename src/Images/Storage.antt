-- ===== src/Images/Storage.antt =====
-- The images on the disk and in the table: `ImageService.store` and `get_image`.
use ufuk_ai_agent.Prelude.{
  ℕ, ◌≡◌, ◌≢◌, refl, ap, ◌∙◌, inl, inr, Bool-cases, Bool, ◌==◌, none, some, List, [], ◌∷◌, ◌++◌,
  if◌then◌else◌, arith,
}
use ufuk_ai_agent.Errors.{Outcome, ok, raise, api_error}
use ufuk_ai_agent.Subscriptions.Tables.{first}
use ufuk_ai_agent.Images.{
  GeneratedImage, Files, Gallery, NewImage, write_bytes, read_file, image_row, over_quota, store,
  serve_row, owned_image, get_image,
}
use ufuk_ai_agent.Images.Disk.{unlink-write_bytes, read_file-write_bytes}

first-append_none :
    (p : GeneratedImage → Bool) (rows : List GeneratedImage) (r : GeneratedImage)
    → first p rows ≡ none
    → first p (rows ++ r ∷ []) ≡ (if p r then some r else none)
unfolding first
first-append_none p [] r h = ground arith
first-append_none p (x ∷ rows) r h = ground (arith, first-append_none p rows r)

-- No row of an id, then no row of it and a user.
first_of_user :
    (user id : ℕ) (rows : List GeneratedImage)
    → first (λ (r : GeneratedImage). r.id == id) rows ≡ none
    → first (owned_image user id) rows ≡ none
unfolding first
first_of_user user id [] h = refl
first_of_user user id (r ∷ rows) h = ground (arith, first_of_user user id rows)

serve_found :
    (files : Files) (r : GeneratedImage) (bytes : List ℕ)
    → read_file r.storage_path files ≡ some bytes
    → serve_row files (some r) ≡ ok (r.format, bytes)
unfolding serve_row
serve_found files r bytes e = rw (serve_row, e) refl

module _ (v : NewImage) (image_id created_at : ℕ) (g : Gallery) where
  abbrev row : GeneratedImage
  row = image_row v image_id created_at

  -- By how `store` ended.
  abbrev pub Stores : Outcome GeneratedImage × Gallery → Type 0
  Stores (Outcome.ok r, g') =
      (r ≡ row)
      × (g'.images ≡ g.images ++ row ∷ [])
      × (get_image g' v.user_id image_id ≡ ok (v.image_format, v.image_bytes))
      × ((w : ℕ)
          → w ≢ v.user_id
          → get_image g' w image_id ≡ raise (api_error 404 "image_not_found"))
  Stores (Outcome.raise e, g') = (e ≡ api_error 402 "image_quota_exceeded") × (g' ≡ g)
  Stores (Outcome.crash, g') = ⊥

  own_row : (if owned_image v.user_id image_id row then some row else none) ≡ some row
  unfolding image_row
  own_row = ground arith

  other_row :
      (w : ℕ) → w ≢ v.user_id → (if owned_image w image_id row then some row else none) ≡ none
  unfolding image_row
  other_row w h = ground arith

  served :
      serve_row (write_bytes row.storage_path v.image_bytes g.files) (some row)
      ≡ ok (v.image_format, v.image_bytes)
  unfolding image_row
  served =
      serve_found _ row v.image_bytes (read_file-write_bytes row.storage_path v.image_bytes g.files)

  unserved :
      serve_row (write_bytes row.storage_path v.image_bytes g.files) none
      ≡ raise (api_error 404 "image_not_found")
  unfolding serve_row
  unserved = refl

  get_own :
      first (λ (r : GeneratedImage). r.id == image_id) g.images ≡ none
      → get_image
          (record g {
            images = g.images ++ row ∷ [];
            files = write_bytes row.storage_path v.image_bytes g.files;
          })
          v.user_id
          image_id
        ≡ ok (v.image_format, v.image_bytes)
  unfolding get_image
  get_own new =
      ap (serve_row (write_bytes row.storage_path v.image_bytes g.files)) (
        first-append_none (owned_image v.user_id image_id) g.images row
          (first_of_user v.user_id image_id g.images new)
        ∙ own_row)
      ∙ served

  get_other :
      (w : ℕ)
      → first (λ (r : GeneratedImage). r.id == image_id) g.images ≡ none
      → w ≢ v.user_id
      → get_image
          (record g {
            images = g.images ++ row ∷ [];
            files = write_bytes row.storage_path v.image_bytes g.files;
          })
          w
          image_id
        ≡ raise (api_error 404 "image_not_found")
  unfolding get_image
  get_other w new h =
      ap (serve_row (write_bytes row.storage_path v.image_bytes g.files)) (
        first-append_none (owned_image w image_id) g.images row
          (first_of_user w image_id g.images new)
        ∙ other_row w h)
      ∙ unserved

  -- For an image id that no row has and a path where no file is: a stored image is one new row,
  -- its owner gets its format and its bytes back, and any other user gets 404; a refusal raises
  -- `image_quota_exceeded` and leaves the files and the rows as they were.
  pub store-Stores :
      first (λ (r : GeneratedImage). r.id == image_id) g.images ≡ none
      → read_file row.storage_path g.files ≡ none
      → Stores (store v image_id created_at g)
  unfolding store
  store-Stores new absent = elim (Bool-cases (over_quota g.images v)) [
    | inl over ↦ rw over (
      refl,
      ap (λ files. record g { files = files })
          (unlink-write_bytes row.storage_path v.image_bytes g.files absent),
    )
    | inr fits ↦ rw fits (refl, refl, get_own new, λ w h. get_other w new h)
  ]
