-- ===== src/Share/Issued.antt =====
-- The whole operations keep the tables sound: upserts and deletions of photos, and the writes of
-- permits.
use web_bijin.Prelude.{
  ℕ, ◌≡◌, inl, inr, Bool, true, none, some, List, Text, arith, nat_eq, text_eq, text_beq_iff,
  nat_beq_iff, Bool-cases, Option-cases, All, All-update_where, find_where, find_where-holds,
  count_where, count_where-zero, delete_where-none, subst, ◌+◌, nat_beq,
}
use web_bijin.Store.{Photo, Share, Store, has_id, has_photo, source_key, retired}
use web_bijin.Store.Photos.{get_by_source_key, upsert, upsert_key, has_key, get_by_id, delete_by_id}
use web_bijin.Share.{is_active, has_token, retire_share, share_for_photo}
use web_bijin.Share.Writes.{
  is_same_photo, is_current, open_share, reuse_share, same_original, write_share, save_share,
  write_stop_share, stop_share, is_stopped, put_share, is_taken, commits,
}
use web_bijin.Share.Rows.{
  DistinctIds-update, DistinctTokens-retired, DistinctIds-put_share, DistinctTokens-put_share,
}
use web_bijin.Share.Permits.{
  Backed, Permitted, DistinctPhotos, IsSound, retired-All, delete-Permitted,
}
use web_bijin.Share.Sound.{
  find_where-has_id, DistinctPhotos-delete, retired-keeps, retire_photo-IsSound,
  note_change-IsSound, update_photo-IsSound, insert_photo-IsSound,
}

-- Indexing a photo keeps every permit sound: one whose original changed is ended.
pub upsert-IsSound :
    (new_id : ℕ) (p : Photo) (s : Store)
    → find_where (has_id new_id) s.photos ≡ none
    → IsSound s
    → IsSound (upsert new_id p s).1
unfolding upsert
upsert-IsSound new_id p s absent v = elim (Option-cases (get_by_source_key (upsert_key p) s)) [
  | inl e ↦ rw (e, upsert) (insert_photo-IsSound new_id (upsert_key p) p s absent v)
  | inr (existing, e) ↦
      rw (e, upsert)
        (update_photo-IsSound existing p s
          (find_where-has_id (has_key (upsert_key p)) s.photos v.photos e) v)
]

-- Removing a photo ends its permit, and leaves the others.
pub delete_by_id-IsSound : (id : ℕ) (s : Store) → IsSound s → IsSound (delete_by_id id s)
unfolding delete_by_id
delete_by_id-IsSound id s v = elim (Option-cases (get_by_id id s)) [
  | inr (p, e) ↦
      let w = retire_photo-IsSound s id v in
      rw (e, delete_by_id)
        (record {
          permits = delete-Permitted id s.photos s.shares v.permits;
          ids = w.ids;
          tokens = w.tokens;
          photos = DistinctPhotos-delete (has_id id) s.photos v.photos;
        })
  | inl e ↦
      rw (e, delete_by_id)
        (record {
          permits = rw (delete_where-none (has_id id) s.photos e) v.permits;
          ids = v.ids;
          tokens = v.tokens;
          photos = DistinctPhotos-delete (has_id id) s.photos v.photos;
        })
]

-- Stopping by link.
pub retire_share-IsSound : (token : Text) (s : Store) → IsSound s → IsSound (retire_share token s)
unfolding retire_share
retire_share-IsSound token s v = note_change-IsSound _ _ (record {
  permits = retired-All s.photos (has_token token) s.shares v.permits;
  ids =
      DistinctIds-update (has_token token) retired (retired-keeps (has_token token)) s.shares v.ids;
  tokens = DistinctTokens-retired (has_token token) s.shares v.tokens;
  photos = v.photos;
})

-- The permit that a caller asks for copies the key and the version of the photo it has checked.
pub record IsFor (p : Photo) (fresh : Share) : Type 0 where
  pub key : fresh.source_key ≡ source_key p
  pub version : fresh.source_version ≡ p.source_version

checked-photo :
    (p : Photo) (photos : List Photo)
    → count_where (is_same_photo p) photos ≡ 1
    → (row : Photo) × (find_where (is_same_photo p) photos ≡ some row)
checked-photo p photos e = elim (Option-cases (find_where (is_same_photo p) photos)) [
  | inl miss ↦ absurd (omega (arith, count_where-zero (is_same_photo p) photos miss))
  | inr found ↦ found
]

-- The photo that was checked backs the new permit.
fresh-Backed :
    (p : Photo) (fresh : Share) (g : ℕ) (photos : List Photo)
    → DistinctPhotos photos
    → IsFor p fresh
    → count_where (is_same_photo p) photos ≡ 1
    → Backed photos (record fresh { photo_id = p.id; generation = g })
unfolding is_same_photo
fresh-Backed p fresh g photos d made one =
    let (row, found) = checked-photo p photos one in
    let same : is_same_photo p row ≡ true = find_where-holds (is_same_photo p) photos found in
    let at : row.id ≡ p.id = ground arith in
    record {
      photo = row;
      found =
          subst (λ i. find_where (has_id i) photos ≡ some row) at
            (find_where-has_id (is_same_photo p) photos d found);
      key = ground (arith, text_beq_iff row.source_key (source_key p), made.key);
      version = ground (arith, text_beq_iff row.source_version p.source_version, made.version);
      visible = ground arith;
    }

put_share-All :
    (photos : List Photo) (sh : Share) (xs : List Share)
    → Permitted photos sh
    → All (Permitted photos) xs
    → All (Permitted photos) (put_share sh xs)
unfolding put_share
put_share-All photos sh xs h a = elim (Option-cases (find_where (has_photo sh.photo_id) xs)) [
  | inl e ↦ rw (e, put_share) (h, a)
  | inr (x, e) ↦
      rw (e, put_share)
        (All-update_where (Permitted photos) (has_photo sh.photo_id) (λ _. sh) xs (λ y hy b. h) a)
]

open_share-IsSound :
    (s : Store) (p : Photo) (current fresh : Share)
    → IsFor p fresh
    → count_where (is_same_photo p) s.photos ≡ 1
    → IsSound s
    → IsSound (open_share s p current fresh).store
unfolding open_share
open_share-IsSound s p current fresh made one v =
    let sh : Share = record fresh { photo_id = p.id; generation = current.generation + 1 } in
    let b = fresh-Backed p fresh (current.generation + 1) s.photos v.photos made one in
    elim (Bool-cases (is_taken fresh.token s.shares)) [
      | inl e ↦ rw (e, open_share) v
      | inr e ↦
          rw (e, open_share)
            (record {
              permits = put_share-All s.photos sh s.shares (λ _. b) v.permits;
              ids = DistinctIds-put_share sh s.shares v.ids;
              tokens = DistinctTokens-put_share sh s.shares e v.ids v.tokens;
              photos = v.photos;
            })
    ]

reuse_share-IsSound :
    (s : Store) (p : Photo) (current fresh : Share)
    → IsSound s
    → IsSound (reuse_share s p current fresh).store
unfolding reuse_share
reuse_share-IsSound s p current fresh v = elim (Bool-cases (same_original current fresh)) [
  | inl e ↦ rw (e, reuse_share) v
  | inr e ↦ rw (e, reuse_share) (retire_photo-IsSound s p.id v)
]

-- A write of one permit, of the owner or of a batch.
pub write_share-IsSound :
    (s : Store) (p : Photo) (expected : ℕ) (fresh : Share) (converge : Bool)
    → IsFor p fresh
    → IsSound s
    → IsSound (write_share s p expected fresh converge).store
unfolding write_share
write_share-IsSound s p expected fresh converge made v =
    let current = share_for_photo p.id s in
    elim (Bool-cases (nat_beq (count_where (is_same_photo p) s.photos) 1)) [
      | inr e ↦ rw (e, write_share) v
      | inl e ↦
          let opened = open_share-IsSound s p current fresh made ((nat_beq_iff _ _).0 e) v in
          let reused = reuse_share-IsSound s p current fresh v in
          elim (Bool-cases (is_current converge expected current)) [
            | inr f ↦ rw (e, f, write_share) v
            | inl f ↦ elim (Bool-cases (is_active current)) [
              | inl a ↦ rw (e, f, a, write_share) reused
              | inr a ↦ rw (e, f, a, write_share) opened
            ]
          ]
    ]

pub save_share-IsSound :
    (s : Store) (p : Photo) (expected : ℕ) (fresh : Share)
    → IsFor p fresh
    → IsSound s
    → IsSound (save_share s p expected fresh).store
unfolding save_share
save_share-IsSound s p expected fresh made v =
    let w = write_share s p expected fresh true in
    let sound = write_share-IsSound s p expected fresh true made v in
    elim (Bool-cases (commits w)) [
      | inl e ↦ rw (e, save_share) (note_change-IsSound w.changed w.store sound)
      | inr e ↦ rw (e, save_share) v
    ]

pub write_stop_share-IsSound :
    (s : Store) (id expected : ℕ) → IsSound s → IsSound (write_stop_share s id expected).store
unfolding write_stop_share
write_stop_share-IsSound s id expected v =
    let current = share_for_photo id s in
    elim (Bool-cases (is_stopped expected current)) [
      | inl e ↦ rw (e, write_stop_share) v
      | inr e ↦ elim (Bool-cases (nat_beq current.generation expected)) [
        | inl f ↦ rw (e, f, write_stop_share) (retire_photo-IsSound s id v)
        | inr f ↦ rw (e, f, write_stop_share) v
      ]
    ]

pub stop_share-IsSound :
    (s : Store) (id expected : ℕ) → IsSound s → IsSound (stop_share s id expected).store
unfolding stop_share
stop_share-IsSound s id expected v =
    let w = write_stop_share s id expected in
    let sound = write_stop_share-IsSound s id expected v in
    elim (Option-cases w.error) [
      | inl e ↦ rw (e, stop_share) (note_change-IsSound w.changed w.store sound)
      | inr (x, e) ↦ rw (e, stop_share) v
    ]
