-- ===== src/Scan/Tests.antt =====
-- A scan during which the local folder cannot be listed, and one that lists nothing.
use web_bijin.Prelude.{
  arith, ◌≡◌, refl, true, false, some, none, [], ◌∷◌, codes, text_eq, text_beq, has_prefix,
}
use web_bijin.Store.{Photo, no_photo}
use web_bijin.Store.Photos.{get_by_id, get_by_source_key, delete_by_id, missing_photos}
use web_bijin.Process.Photo.{Library, Fixed, not_found}
use web_bijin.Process.Publish.{remove_if_unchanged}
use web_bijin.Scan.{Listing, walk, run_work, clean_up, key_owner, failed_sources}
use web_bijin.Scan.Removed.{walk-removes}
use web_bijin.Scan.Survive.{walk-spares}

abbrev kept_photo : Photo
kept_photo = record no_photo {
  id = 1;
  source_key = codes "a/x.jpg";
  rel_path = codes "a/x.jpg";
  width = 4;
  height = 3;
}

abbrev library : Library
library = record {
  store = record {
    photos = kept_photo ∷ [];
    shares = [];
    revisions = record { index = 0; source = 0; album = 0; wall = 0; people = 0; share = 0 };
  };
  thumbs = [];
}

abbrev fixed : Fixed
fixed = record { digest = λ s. s; pixel_message = λ m n. []; max_pixels = 0 }

abbrev local_folder : Listing
local_folder = record { id = codes "local"; prefix = []; objects = []; failed = true }

program : Unit {0}
unfolding walk run_work clean_up key_owner text_beq has_prefix failed_sources remove_if_unchanged
    delete_by_id missing_photos
program = tt

-- Without the failure, the photo is removed.
photo_removed :
    get_by_id 1
      (walk fixed
        (record local_folder { failed = false } ∷ [])
        []
        (λ p. not_found)
        library).library.store
    ≡ none
unfolding program
photo_removed = refl

walk-spares_example :
    get_by_id 1 (walk fixed (local_folder ∷ []) [] (λ p. not_found) library).library.store
    ≡ some kept_photo
unfolding program
walk-spares_example =
    walk-spares fixed (local_folder ∷ []) [] (λ p. not_found) library 1 kept_photo (refl, tt) refl
      (omega arith) refl

walk-removes_example :
    get_by_id 1
      (walk fixed
        (record local_folder { failed = false } ∷ [])
        []
        (λ p. not_found)
        library).library.store
    ≡ none
unfolding program get_by_source_key
walk-removes_example =
    walk-removes fixed (record local_folder { failed = false } ∷ []) [] (λ p. not_found) library
      kept_photo (λ e. cc) refl refl
