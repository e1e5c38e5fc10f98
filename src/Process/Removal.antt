-- ===== src/Process/Removal.antt =====
-- What `RemoveIfUnchanged` of photo_processing.go removes.
use web_bijin.Prelude.{
  ℕ, ◌≢◌, List, [], ◌∷◌, Text, All, Bool-cases, find_where, keep_where, find_where-delete_self,
  find_where-delete_ne, find_where-update_ne, ap, sym, subst, ◌∙◌, some_injective, ◌≡◌, refl, inl,
  inr, Bool, true, false, not, ◌||◌, Option, none, some, arith, Option-cases, if-knowing, text_eq,
  ◌==◌, nat_eq, nat_beq_iff, text_beq, text_beq_iff,
}
use web_bijin.Store.{Photo, Share, source_key, has_id, has_photo, retired, retire_photo}
use web_bijin.Share.{is_active, share_for_photo, scan_share}
use web_bijin.Store.Photos.{get_by_id, get_by_source_key, has_key, delete_by_id}
use web_bijin.Process.Photo.{
  Seen, seen, not_found, not_configured, unreachable, Library, Thumb, remove_thumbs,
}
use web_bijin.Process.Publish.{remove, remove_if_unchanged}

-- The object is not in its source, or its source is no longer configured.
abbrev pub is_absent : Seen → Bool
is_absent now = elim now [ not_found ↦ true | not_configured ↦ true | _ ↦ false ]

-- Links of a photo that no longer work.
abbrev pub NoLink : ℕ → List Share → Type 0
NoLink id = All (λ (sh : Share). has_photo id sh ≡ true → is_active sh ≡ false)

abbrev pub thumbs_for : ℕ → Library → List Thumb
thumbs_for id w = keep_where (λ (t : Thumb). t.id == id) w.thumbs

removed_self :
    (id : ℕ) (thumbs : List Thumb)
    → keep_where (λ (t : Thumb). t.id == id) (remove_thumbs id thumbs) ≡ []
removed_self id [] = refl
removed_self id (t ∷ thumbs) = ground (arith, removed_self id thumbs)

removed_other :
    (j id : ℕ) (thumbs : List Thumb)
    → j ≢ id
    → keep_where (λ (t : Thumb). t.id == j) (remove_thumbs id thumbs)
      ≡ keep_where (λ (t : Thumb). t.id == j) thumbs
removed_other j id [] ne = refl
removed_other j id (t ∷ thumbs) ne =
    let later = removed_other j id thumbs ne in
    ground (arith, ne, later, nat_beq_iff t.id j, nat_beq_iff t.id id)

-- The photo is out of the table, its links have ended and its thumbnails are gone; what belongs to
-- other photos is as it was.
pub record IsGone (id : ℕ) (w after : Library) : Type 0 where
  pub row_gone : get_by_id id after.store ≡ none
  pub links_ended : NoLink id after.store.shares
  pub thumbs_gone : thumbs_for id after ≡ []
  pub other_rows : (j : ℕ) → j ≢ id → get_by_id j after.store ≡ get_by_id j w.store
  pub other_links : (j : ℕ) → j ≢ id → share_for_photo j after.store ≡ share_for_photo j w.store
  pub other_thumbs : (j : ℕ) → j ≢ id → thumbs_for j after ≡ thumbs_for j w

retired-NoLink : (id : ℕ) (shares : List Share) → NoLink id (retire_photo id shares)
retired-NoLink id [] = tt
retired-NoLink id (sh ∷ shares) = elim (Bool-cases (has_photo id sh)) [
  | inl t ↦ rw t ((λ h. refl), retired-NoLink id shares)
  | inr t ↦ rw t ((λ h. absurd (ground (arith, t, h))), retired-NoLink id shares)
]

-- A row that a search finds is found by its id.
has-id :
    (q : Photo → Bool) (photos : List Photo) {p : Photo}
    → find_where q photos ≡ some p
    → (r : Photo) × (find_where (has_id p.id) photos ≡ some r)
has-id q [] e = cc
has-id q (c ∷ photos) {p} e = elim (Bool-cases (has_id p.id c)) [
  | inl t ↦ (c, rw t refl)
  | inr t ↦ let (r, later) = has-id q photos {p = p} (ground arith) in (r, rw t later)
]

removed_shares :
    (p r : Photo) (w : Library)
    → get_by_id p.id w.store ≡ some r
    → (remove p w).store.shares ≡ retire_photo p.id w.store.shares
unfolding remove delete_by_id
removed_shares p r w at = rw (at, delete_by_id) refl

remove-IsGone :
    (key : Text) (p : Photo) (w : Library)
    → get_by_source_key key w.store ≡ some p
    → IsGone p.id w (remove p w)
unfolding remove delete_by_id get_by_source_key share_for_photo
remove-IsGone key p w found =
    let (r, at) = has-id (has_key key) w.store.photos {p = p} found in
    record {
      row_gone = find_where-delete_self (has_id p.id) w.store.photos;
      links_ended =
          subst (NoLink p.id) (sym (removed_shares p r w at)) (retired-NoLink p.id w.store.shares);
      thumbs_gone = removed_self p.id w.thumbs;
      other_rows = λ j ne.
          find_where-delete_ne (has_id j) (has_id p.id) w.store.photos
            (λ q h. ground (arith, ne, nat_beq_iff q.id p.id, nat_beq_iff q.id j));
      other_links = λ j ne.
          ap (λ shares. scan_share (find_where (has_photo j) shares) j) (removed_shares p r w at)
          ∙ ap (λ o. scan_share o j)
              (find_where-update_ne (has_photo j) (has_photo p.id) retired w.store.shares (λ sh h.
                let other : has_photo j sh ≡ false =
                  ground (arith, ne, h, nat_beq_iff sh.photo_id p.id, nat_beq_iff sh.photo_id j) in
                (other, other)));
      other_thumbs = λ j ne. removed_other j p.id w.thumbs ne;
    }

-- The row that was removed is the expected version, and its source is absent.
pub record IsExact (expected : Photo) (now : Seen) (w after : Library) : Type 0 where
  pub row : Photo
  pub found : get_by_source_key (source_key expected) w.store ≡ some row
  pub same_id : row.id ≡ expected.id
  pub same_version : row.source_version ≡ expected.source_version
  pub absent : is_absent now ≡ true
  pub removed : after ≡ remove row w
  pub gone : IsGone row.id w after

-- No row of the key is the expected version with an absent source.
abbrev NoReason : Photo → Seen → Library → Type 0
NoReason expected now w =
    (row : Photo)
    → get_by_source_key (source_key expected) w.store ≡ some row
    → row.id ≡ expected.id
    → row.source_version ≡ expected.source_version
    → is_absent now ≡ false

-- A removal is exact, the answer that nothing was to remove is right, and it and an error change nothing.
abbrev pub IsRemoval : Photo → Seen → Library → Option Bool × Library → Type 0
IsRemoval expected now w (none, after) = (after ≡ w) × (is_absent now ≡ false)
IsRemoval expected now w (some false, after) = (after ≡ w) × NoReason expected now w
IsRemoval expected now w (some true, after) = IsExact expected now w after

module _ (expected : Photo) (w : Library) (p : Photo)
    (found : get_by_source_key (source_key expected) w.store ≡ some p)
    (same_id : p.id ≡ expected.id) (same_version : p.source_version ≡ expected.source_version) where
  exact : (now : Seen) → is_absent now ≡ true → IsExact expected now w (remove p w)
  exact now h = record {
    row = p;
    found = found;
    same_id = same_id;
    same_version = same_version;
    absent = h;
    removed = refl;
    gone = remove-IsGone (source_key expected) p w found;
  }

  looked :
      (now : Seen)
      → IsRemoval expected now w (elim now [
        | seen object ↦ (some false, w)
        | not_found ↦ (some true, remove p w)
        | not_configured ↦ (some true, remove p w)
        | unreachable ↦ (none, w)
      ])
  looked (seen object) = (refl, λ row f i v. refl)
  looked not_found = exact not_found refl
  looked not_configured = exact not_configured refl
  looked unreachable = (refl, refl)

-- `RemoveIfUnchanged` answers that it removed the photo exactly where the row of the expected photo's
-- key has the expected id and version and its source is absent or not configured. Then the row and its
-- thumbnails are gone and its links have ended, and the rows, permits and thumbnails of all other photos
-- are as they were; with any other answer, nothing changed.
pub remove_if_unchanged-IsRemoval :
    (expected : Photo) (now : Seen) (w : Library)
    → IsRemoval expected now w (remove_if_unchanged expected now w)
unfolding remove_if_unchanged text_beq
remove_if_unchanged-IsRemoval expected now w =
    elim (Option-cases (get_by_source_key (source_key expected) w.store)) [
      | inl e ↦ rw (remove_if_unchanged, e) (refl, λ row f i v. absurd (ground (arith, e, f)))
      | inr (p, e) ↦
          rw (remove_if_unchanged, e)
            (if-knowing (IsRemoval expected now w)
              (not (p.id == expected.id) || not (p.source_version == expected.source_version))
              (λ t. (
                refl,
                λ row f i v.
                    let same : row ≡ p = some_injective (sym f ∙ e) in
                    let one =
                      (nat_beq_iff p.id expected.id).1 (ap (λ (q : Photo). q.id) (sym same) ∙ i) in
                    let two =
                      (text_beq_iff p.source_version expected.source_version).1
                        (ap (λ (q : Photo). q.source_version) (sym same) ∙ v) in
                    absurd (ground (arith, t, one, two)),
              ))
              (λ t.
                looked expected w p e ((nat_beq_iff p.id expected.id).0 (ground arith))
                  ((text_beq_iff p.source_version expected.source_version).0 (ground arith)) now))
    ]
