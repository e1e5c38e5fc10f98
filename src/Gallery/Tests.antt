-- ===== src/Gallery/Tests.antt =====
-- A gallery of three photos, one of them broken, and pages of one photo each.
use web_bijin.Prelude.{
  ℕ, ◌≡◌, refl, true, false, some, List, [], ◌∷◌, Text, arith, codes, keep_where,
}
use mathlib.Core.List.{Perm}
use web_bijin.Store.{Photo, Store}
use web_bijin.Gallery.{load_index, is_wanted}
use web_bijin.Gallery.Pages.{browse}
use web_bijin.Gallery.Whole.{browse-Perm}

abbrev shot : ℕ → Text → Photo
shot id path = record {
  id = id;
  source_key = path;
  rel_path = path;
  size = 9;
  mtime_unix = 5;
  width = 4;
  height = 3;
  broken = false;
  invalid_reason = [];
  source_version = codes "v";
}

abbrev gallery : Store
gallery = record {
  photos =
      shot 1 (codes "a/x.jpg")
      ∷ record (shot 2 (codes "a/y.jpg")) { broken = true }
      ∷ shot 3 (codes "b/z.jpg")
      ∷ [];
  shares = [];
  revisions = record { index = 0; source = 0; album = 0; wall = 0; people = 0; share = 0 };
}

-- Two pages of one photo each.
browse-Perm_example :
    (photos : List Photo) × (browse 4 gallery (load_index false gallery) 7 [] 1 [] ≡ some photos)
    × Perm photos (keep_where (is_wanted gallery [] false) gallery.photos)
browse-Perm_example =
    browse-Perm gallery false 7 [] 1 (omega arith) (refl, (refl, (refl, tt)))
      ((omega arith, omega arith), ((omega arith, omega arith), ((omega arith, omega arith), tt)))
