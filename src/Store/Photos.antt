-- ===== src/Store/Photos.antt =====
-- The operations of store.go on the `photos` table. The id of a new row is SQLite's choice, an
-- argument here.
use web_bijin.Prelude.{
  ℕ, Bool, not, ◌&&◌, Option, none, some, List, [], ◌∷◌, Text, leb, if◌then◌else◌, text_eq, ◌==◌,
  nat_eq, find_where, update_where, delete_where, keep_where, any_where, text_beq,
}
use web_bijin.Store.{
  Photo, Share, Store, no_photo, has_id, retire_photo, insert_share, share_broken, photo_changed,
}

abbrev pub has_key : Text → Photo → Bool
has_key key p = p.source_key == key

abbrev pub get_by_id : ℕ → Store → Option Photo
get_by_id id s = find_where (has_id id) s.photos

unfoldable pub get_by_source_key : Text → Store → Option Photo
unfolding text_beq
get_by_source_key key s = find_where (has_key key) s.photos

-- The columns that the UPDATE of `upsert` writes, over the row that it finds.
abbrev pub written : Photo → Photo → Photo
written p existing = record p { id = existing.id; source_key = existing.source_key }

-- The UPDATE with its trigger.
unfoldable pub update_photo : Photo → Photo → Store → Store
unfolding share_broken photo_changed
update_photo existing p s =
    let row = written p existing in
    record s {
      photos = update_where (has_id existing.id) (λ _. row) s.photos;
      shares = if share_broken existing row then retire_photo existing.id s.shares else s.shares;
      revisions = photo_changed existing p s.revisions;
    }

-- The INSERT with its trigger.
unfoldable pub insert_photo : ℕ → Text → Photo → Store → Store
unfolding insert_share photo_changed
insert_photo new_id key p s = record s {
  photos = record p { id = new_id; source_key = key } ∷ s.photos;
  shares = insert_share new_id s.shares;
  revisions = photo_changed no_photo p s.revisions;
}

abbrev pub upsert_key : Photo → Text
upsert_key p = if p.source_key == [] then p.rel_path else p.source_key

-- `upsert`: the id that the row has afterwards, and the store.
unfoldable pub upsert : ℕ → Photo → Store → ℕ × Store
unfolding get_by_source_key update_photo insert_photo text_beq
upsert new_id p s = elim (get_by_source_key (upsert_key p) s) [
  | some existing ↦ (existing.id, update_photo existing p s)
  | none ↦ (new_id, insert_photo new_id (upsert_key p) p s)
]

-- `deleteByID` with its trigger, but for the wallpaper files.
unfoldable pub delete_by_id : ℕ → Store → Store
unfolding photo_changed
delete_by_id id s =
    let before : Photo = elim (get_by_id id s) [ none ↦ no_photo | some p ↦ p ] in
    let shares : List Share = elim (get_by_id id s) [
      | none ↦ s.shares
      | some p ↦ retire_photo id s.shares
    ] in
    record s {
      photos = delete_where (has_id id) s.photos;
      shares = shares;
      revisions = photo_changed before no_photo s.revisions;
    }

-- `missingPhotos`: rows up to `up_to` that the scan did not see, but for the sources that could
-- not be listed. `owner` is `keyOwner`.
unfoldable pub missing_photos : (Text → Text) → List Text → List Text → ℕ → Store → List Photo
unfolding text_beq
missing_photos owner keep failed up_to s =
    keep_where
      (λ p.
        leb p.id up_to
        && not (any_where (λ k. k == p.source_key) keep)
        && not (any_where (λ o. o == owner p.source_key) failed))
      s.photos
