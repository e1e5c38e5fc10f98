-- ===== src/Share/History.antt =====
-- Any order of indexing, removals, copies and stops: the requests and the scans take the database
-- one transaction at a time.
use web_bijin.Prelude.{
  ℕ, ◌+◌, ◌<◌, ◌≡◌, ◌≢◌, refl, inl, inr, true, false, none, some, Text, arith, find_where,
  count_where,
}
use web_bijin.Store.{Photo, Share, Store, has_id}
use web_bijin.Store.Photos.{upsert, delete_by_id}
use web_bijin.Share.{is_active, share_for_photo, retire_share, note_change}
use web_bijin.Share.Writes.{
  is_same_photo, is_current, open_share, reuse_share, same_original, write_share, save_share,
  stop_share, put_share,
}
use web_bijin.Share.Permits.{IsSound}
use web_bijin.Share.Issued.{
  IsFor, upsert-IsSound, delete_by_id-IsSound, retire_share-IsSound, save_share-IsSound,
  stop_share-IsSound,
}
use web_bijin.Share.Generations.{
  Advance, Advances, Advance-trans, upsert-Advances, delete_by_id-Advances, retire_share-Advances,
  save_share-Advances, stop_share-Advances, put_share_self, share_at,
}

pub data Step (s : Store) : Store → Type 0 where
  indexes :
      (new_id : ℕ) (p : Photo)
      → find_where (has_id new_id) s.photos ≡ none
      → Step s (upsert new_id p s).1
  removes : (id : ℕ) → Step s (delete_by_id id s)
  saves :
      (p : Photo) (expected : ℕ) (fresh : Share)
      → IsFor p fresh
      → Step s (save_share s p expected fresh).store
  stops : (id expected : ℕ) → Step s (stop_share s id expected).store
  retires : (token : Text) → Step s (retire_share token s)

pub data Reach (s : Store) : Store → Type 0 where
  here : Reach s s
  next : {t u : Store} → Reach s t → Step t u → Reach s u

Step-IsSound : {s t : Store} → Step s t → IsSound s → IsSound t
Step-IsSound {s} (indexes new_id p absent) v = upsert-IsSound new_id p s absent v
Step-IsSound {s} (removes id) v = delete_by_id-IsSound id s v
Step-IsSound {s} (saves p expected fresh made) v = save_share-IsSound s p expected fresh made v
Step-IsSound {s} (stops id expected) v = stop_share-IsSound s id expected v
Step-IsSound {s} (retires token) v = retire_share-IsSound token s v

Step-Advances : {s t : Store} → Step s t → Advances s t
Step-Advances {s} (indexes new_id p absent) = upsert-Advances new_id p s
Step-Advances {s} (removes id) = delete_by_id-Advances id s
Step-Advances {s} (saves p expected fresh made) = save_share-Advances s p expected fresh
Step-Advances {s} (stops id expected) = stop_share-Advances s id expected
Step-Advances {s} (retires token) = retire_share-Advances token s

-- Whatever order photos are indexed and removed in and links are made, stopped and retired in, a
-- sound store stays sound: every active permit names a row of its photo that is visible and has
-- the permit's key and version, a photo has one permit, and no link leads to two photos.
pub Reach-IsSound : {s t : Store} → Reach s t → IsSound s → IsSound t
Reach-IsSound here v = v
Reach-IsSound (next r st) v = Step-IsSound st (Reach-IsSound r v)

-- Over any such history the permit of a photo is unchanged or has a greater generation: the
-- generation never falls, and no permit changes under the same generation.
pub Reach-Advances :
    {s t : Store} → Reach s t → (id : ℕ) → Advance (share_for_photo id s) (share_for_photo id t)
Reach-Advances here id = inl refl
Reach-Advances {s} (next {t} {u} r st) id =
    Advance-trans (share_for_photo id s) (share_for_photo id t) (share_for_photo id u)
      (Reach-Advances r id) (Step-Advances st id)

-- A write that is not current, on an inactive permit, is refused and changes nothing.
stale-refused :
    (t : Store) (p : Photo) (expected : ℕ) (fresh : Share)
    → is_active (share_for_photo p.id t) ≡ false
    → expected < (share_for_photo p.id t).generation
    → ((save_share t p expected fresh).store ≡ t) × ((save_share t p expected fresh).error ≢ none)
unfolding save_share write_share is_current
stale-refused t p expected fresh off later = (ground arith, ground arith)

-- Let the permit of a photo change after an owner read its generation, and be inactive now: a
-- copy of the link that the owner started with that generation, however late, is refused and
-- leaves the store as it is, so it cannot undo a stop.
pub delayed_save_refused :
    {s t : Store} (p : Photo) (fresh : Share)
    → Reach s t
    → share_for_photo p.id s ≢ share_for_photo p.id t
    → is_active (share_for_photo p.id t) ≡ false
    → let late = save_share t p (share_for_photo p.id s).generation fresh in
      (late.store ≡ t) × (late.error ≢ none)
delayed_save_refused {s} {t} p fresh r changed off =
    let moved : (share_for_photo p.id s).generation < (share_for_photo p.id t).generation =
      elim (Reach-Advances r p.id) [ inl e ↦ absurd (changed e) | inr lt ↦ lt ] in
    stale-refused t p (share_for_photo p.id s).generation fresh off moved

-- The permit and the store that the first copy leaves.
abbrev given : Store → Photo → Share → Share
given s p first = record first {
  photo_id = p.id;
  generation = (share_for_photo p.id s).generation + 1;
}

abbrev opened : Store → Photo → Share → Store
opened s p first = note_change true (record s { shares = put_share (given s p first) s.shares })

first_made :
    (s : Store) (p : Photo) (first : Share)
    → is_active (share_for_photo p.id s) ≡ false
    → (save_share s p (share_for_photo p.id s).generation first).error ≡ none
    → (save_share s p (share_for_photo p.id s).generation first ≡ record {
      store = opened s p first;
      share = given s p first;
      changed = true;
      error = none;
    })
      × (count_where (is_same_photo p) s.photos ≡ 1)
unfolding save_share write_share is_current open_share
first_made s p first off done = (ground arith, ground arith)

second_made :
    (t : Store) (p : Photo) (expected : ℕ) (second : Share)
    → count_where (is_same_photo p) t.photos ≡ 1
    → is_active (share_for_photo p.id t) ≡ true
    → (share_for_photo p.id t).generation ≡ expected + 1
    → same_original (share_for_photo p.id t) second ≡ true
    → save_share t p expected second
      ≡ record { store = t; share = share_for_photo p.id t; changed = false; error = none }
unfolding save_share write_share is_current reuse_share
second_made t p expected second one on moved same = ground arith

opened-share :
    (s : Store) (p : Photo) (first : Share)
    → share_for_photo p.id (opened s p first) ≡ given s p first
unfolding share_for_photo share_at
opened-share s p first = put_share_self (given s p first) s.shares

-- Two copies of one original that were started on the same inactive permit converge: where the
-- first made a link, the second answers the first one's permit and changes nothing.
pub save_share_converges :
    (s : Store) (p : Photo) (first second : Share) (token : Text)
    → first.token ≡ some token
    → is_active (share_for_photo p.id s) ≡ false
    → same_original first second ≡ true
    → (save_share s p (share_for_photo p.id s).generation first).error ≡ none
    → let g = (share_for_photo p.id s).generation in
      let made = save_share s p g first in
      let again = save_share made.store p g second in
      (again.share ≡ made.share)
      × (again.store ≡ made.store)
      × (again.error ≡ none)
      × (made.share.token ≡ some token)
unfolding same_original
save_share_converges s p first second token named off same done =
    let (made, one) = first_made s p first off done in
    let e = opened-share s p first in
    let again =
      second_made (opened s p first) p (share_for_photo p.id s).generation second one
        (rw e (ground arith)) (rw e) (rw e same) in
    rw (made, again) (e, refl, refl, named)
