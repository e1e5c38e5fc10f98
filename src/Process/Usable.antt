-- ===== src/Process/Usable.antt =====
-- A photo that photo_processing.go calls usable is shown, with its thumbnail.
use web_bijin.Prelude.{
  ℕ, ◌≡◌, ◌≢◌, ◌<◌, refl, ap, ◌∙◌, Bool, true, false, not, ◌&&◌, ◌||◌, Option, none, some, List, [],
  arith, if-both, if-knowing, text_eq, nat_eq, text_beq, text_beq_iff,
}
use web_bijin.Store.{Photo, Store, no_photo}
use web_bijin.Store.Photos.{get_by_source_key, upsert}
use web_bijin.Process.Photo.{
  PhotoResult, failing, SourceObject, validate, Attempt, Thumb, Library, Fixed, thumb_of,
  thumb_exists, remove_old, Judged, aborted, bad_file, bad_image, good, inspect,
}
use web_bijin.Process.Publish.{
  target_of, reject, with_row, save_thumb, publish, conclude, is_aborted, read_original, is_same,
  is_known_bad, is_cached, with_thumb, process,
}
use web_bijin.Process.Stages.{upsert-id, get_by_source_key-upsert, thumb_exists-saved}

-- The row under the key is the object's version, is shown, and its thumbnail is there.
pub record IsServed (x : Fixed) (object : SourceObject) (w : Library) : Type 0 where
  pub row : Photo
  pub found : get_by_source_key object.key w.store ≡ some row
  pub version : row.source_version ≡ object.version
  pub sound : row.broken ≡ false
  pub sides : (0 < row.width) × (0 < row.height)
  pub thumb : thumb_exists x row w.thumbs ≡ true

-- The sides of an image that was inspected.
abbrev pub HasSides : Judged → Type 0
HasSides aborted = Unit {0}
HasSides bad_file = Unit {0}
HasSides (bad_image reason) = Unit {0}
HasSides (good width height) = (0 < width) × (0 < height)

module _ (x : Fixed) (object : SourceObject) (wallpapers : Bool) (a : Attempt)
    (named : object.key ≢ []) where
  abbrev Honest : PhotoResult × Library → Type 0
  Honest y = y.0.album_usable ≡ true → IsServed x object y.1

  abbrev existing_of : Option Photo → Photo
  existing_of found = elim found [ none ↦ no_photo | some p ↦ p ]

  abbrev sized : Option Photo → ℕ → ℕ → Photo
  sized found width height = record (target_of object (existing_of found)) {
    width = width;
    height = height;
  }

  -- The photo as it is published.
  abbrev numbered : Option Photo → ℕ → ℕ → Store → Photo
  numbered found width height s = record (sized found width height) {
    id = (with_row a found (sized found width height) s).0;
  }

  -- The second write finds the row of the first.
  with_row-id :
      (found : Option Photo) (width height : ℕ) (s : Store)
      → get_by_source_key object.key s ≡ found
      → (upsert a.new_id
          (numbered found width height s)
          (with_row a found (sized found width height) s).1).0
        ≡ (with_row a found (sized found width height) s).0
  unfolding with_row
  with_row-id none width height s f =
      upsert-id a.new_id (numbered none width height s)
        (with_row a none (sized none width height) s).1 named
        (get_by_source_key-upsert a.new_id
          (record (sized none width height) { broken = true; source_version = [] }) s named)
  with_row-id (some p) width height s f =
      upsert-id a.new_id (numbered (some p) width height s) s named f

  published-IsServed :
      (found : Option Photo) (width height : ℕ) (s : Store) (thumbs : List Thumb)
      → get_by_source_key object.key s ≡ found
      → (0 < width) × (0 < height)
      → IsServed x object (record {
        store =
            (upsert a.new_id
              (numbered found width height s)
              (with_row a found (sized found width height) s).1).1;
        thumbs =
            remove_old x
              (numbered found width height s)
              (existing_of found)
              (save_thumb (thumb_of x (numbered found width height s)) thumbs);
      })
  published-IsServed found width height s thumbs f sides = record {
    row = numbered found width height s;
    found =
        get_by_source_key-upsert a.new_id (numbered found width height s)
          (with_row a found (sized found width height) s).1 named
        ∙ ap (λ id. some (record (sized found width height) { id = id }))
            (with_row-id found width height s f);
    version = refl;
    sound = refl;
    sides = sides;
    thumb = thumb_exists-saved x (numbered found width height s) (existing_of found) thumbs;
  }

  publish-Honest :
      (found : Option Photo) (width height : ℕ) (r : PhotoResult) (w : Library)
      → get_by_source_key object.key w.store ≡ found
      → (0 < width) × (0 < height)
      → r.album_usable ≡ false
      → Honest (publish x object wallpapers a found (sized found width height) r w)
  unfolding publish
  publish-Honest found width height r w f sides unused =
      if-both Honest (not a.saved) (λ h. absurd (ground (arith, unused, h)))
        (if-both Honest (not (validate object a.stat_saved))
          (λ h. absurd (ground (arith, unused, h)))
          (λ h. published-IsServed found width height w.store w.thumbs f sides))

  failing-Honest :
      (cached : Bool) (r : PhotoResult) (w : Library)
      → (cached ≡ true → IsServed x object w)
      → (cached ≡ false → r.album_usable ≡ false)
      → Honest (failing r, w)
  failing-Honest true r w was fresh = λ h. was refl
  failing-Honest false r w was fresh = λ h. absurd (ground (arith, fresh refl, h))

  conclude-Honest :
      (cached : Bool) (found : Option Photo) (j : Judged) (r : PhotoResult) (w : Library)
      → get_by_source_key object.key w.store ≡ found
      → HasSides j
      → (cached ≡ true → IsServed x object w)
      → (cached ≡ false → r.album_usable ≡ false)
      → Honest (conclude x object wallpapers a cached found j r w)
  unfolding conclude reject
  conclude-Honest cached found aborted r w f s was fresh = failing-Honest cached r w was fresh
  conclude-Honest cached found bad_file r w f s was fresh = failing-Honest cached r w was fresh
  conclude-Honest cached found (bad_image reason) r w f s was fresh =
      λ h. absurd (ground (arith, h))
  conclude-Honest true found (good width height) r w f s was fresh = λ h. was refl
  conclude-Honest false found (good width height) r w f s was fresh =
      publish-Honest found width height r w f s (fresh refl)

  read_original-Honest :
      (cached : Bool) (found : Option Photo) (r : PhotoResult) (w : Library)
      → get_by_source_key object.key w.store ≡ found
      → HasSides (inspect x object a)
      → (cached ≡ true → IsServed x object w)
      → (cached ≡ false → r.album_usable ≡ false)
      → Honest (read_original x object wallpapers a cached found r w)
  unfolding read_original
  read_original-Honest cached found r w f s was fresh =
      if-both Honest (not a.spool || not (validate object a.stat_first) || not a.read)
        (failing-Honest cached r w was fresh)
        (if-both Honest (is_aborted (inspect x object a) || not (validate object a.stat_publishing))
          (failing-Honest cached r w was fresh)
          (conclude-Honest cached found (inspect x object a) r w f s was fresh))

  with_thumb-Honest :
      (found : Option Photo) (w : Library) (o : Option Bool)
      → get_by_source_key object.key w.store ≡ found
      → HasSides (inspect x object a)
      → IsServed x object w
      → Honest (with_thumb x object wallpapers a found w o)
  with_thumb-Honest found w none f s served = λ h. served
  with_thumb-Honest found w (some ready) f s served =
      if-both Honest (not wallpapers || ready) (λ h. served)
        (read_original-Honest true found _ w f s (λ _. served) (λ h. absurd (ground arith)))

  -- A row that is cached and not known to be bad is served.
  cached-IsServed :
      (found : Option Photo) (w : Library)
      → get_by_source_key object.key w.store ≡ found
      → is_cached x object found w.thumbs ≡ true
      → (is_same object found && is_known_bad found) ≡ false
      → IsServed x object w
  unfolding is_cached text_beq
  cached-IsServed none w f c b = absurd (ground arith)
  cached-IsServed (some p) w f c b = record {
    row = p;
    found = f;
    version = (text_beq_iff p.source_version object.version).0 (ground (arith, c));
    sound = ground (arith, c, b);
    sides = ground (arith, c);
    thumb = ground (arith, c);
  }

-- For a photo with a key, where an image that was decoded has sides: if `process` answers that a
-- version can be used, then the photo's row is of that version and shown, and the thumbnail of that
-- row is there; `retryInvalid` apart.
pub process-IsServed :
    (x : Fixed) (object : SourceObject) (wallpapers : Bool) (a : Attempt) (w : Library)
    → object.key ≢ []
    → HasSides (inspect x object a)
    → (process x object wallpapers false a w).0.album_usable ≡ true
    → IsServed x object (process x object wallpapers false a w).1
unfolding process text_beq
process-IsServed x object wallpapers a w named s =
    let found = get_by_source_key object.key w.store in
    if-knowing (Honest x object wallpapers a named)
      (is_same object found && is_known_bad found && not false) (λ t h. absurd (ground arith))
      (λ b.
        if-knowing (Honest x object wallpapers a named) (is_cached x object found w.thumbs)
          (λ c.
            with_thumb-Honest x object wallpapers a named found w a.walls_before refl s
              (cached-IsServed x object wallpapers a named found w refl c (not_bad b)))
          (λ c.
            read_original-Honest x object wallpapers a named false found _ w refl s
              (λ e. absurd (ground arith)) (λ e. refl)))
  where
    not_bad : {b : Bool} → (b && not false) ≡ false → b ≡ false
    not_bad h = ground arith
