-- ===== src/Process/Obsolete.antt =====
-- Bytes of a version that the source no longer has change nothing.
use web_bijin.Prelude.{
  ◌≡◌, refl, Bool, true, false, not, ◌&&◌, ◌||◌, Option, none, some, arith, if-both, text_beq,
}
use web_bijin.Store.{Photo}
use web_bijin.Store.Photos.{get_by_source_key}
use web_bijin.Process.Photo.{
  PhotoResult, SourceObject, validate, Attempt, Library, Fixed, Judged, inspect,
}
use web_bijin.Process.Publish.{
  confirm, read_original, is_same, is_known_bad, is_cached, process, with_thumb,
}

module _ (x : Fixed) (object : SourceObject) (wallpapers : Bool) (a : Attempt) (w : Library)
    (changed : validate object a.stat_publishing ≡ false) where
  read_original-keeps :
      (cached : Bool) (found : Option Photo) (r : PhotoResult)
      → (read_original x object wallpapers a cached found r w).1 ≡ w
  unfolding read_original
  read_original-keeps cached found r =
      if-both Keeps (not a.spool || not (validate object a.stat_first) || not a.read) refl
        (unconfirmed (inspect x object a))
    where
      Keeps : PhotoResult × Library → Type 0
      Keeps y = y.1 ≡ w

      unconfirmed : (j : Judged) → (confirm x object wallpapers a cached found r w j).1 ≡ w
      unconfirmed j = ground (arith, changed)

  with_thumb-keeps :
      (found : Option Photo) (o : Option Bool) → (with_thumb x object wallpapers a found w o).1 ≡ w
  with_thumb-keeps found none = refl
  with_thumb-keeps found (some ready) =
      if-both (λ (y : PhotoResult × Library). y.1 ≡ w) (not wallpapers || ready) refl
        (read_original-keeps true found _)

-- Where the source has another version, or cannot be asked, once the original was read: whatever was
-- read, the photos, their permits and the thumbnails stay as they are.
pub obsolete_bytes_ignored :
    (x : Fixed) (object : SourceObject) (wallpapers retry_invalid : Bool) (a : Attempt)
    (w : Library)
    → validate object a.stat_publishing ≡ false
    → (process x object wallpapers retry_invalid a w).1 ≡ w
unfolding process text_beq
obsolete_bytes_ignored x object wallpapers retry_invalid a w changed =
    let found = get_by_source_key object.key w.store in
    if-both (λ (y : PhotoResult × Library). y.1 ≡ w)
      (is_same object found && is_known_bad found && not retry_invalid) refl
      (if-both (λ (y : PhotoResult × Library). y.1 ≡ w) (is_cached x object found w.thumbs)
        (with_thumb-keeps x object wallpapers a w changed found a.walls_before)
        (read_original-keeps x object wallpapers a w changed false found _))
