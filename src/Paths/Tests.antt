-- ===== src/Paths/Tests.antt =====
-- The path functions at inputs that can be followed in Go's documentation.
use web_bijin.Prelude.{◌≡◌, refl, true, some, none, [], codes}
use web_bijin.Paths.{
  clean, dir, base, ext, is_image_name, hidden_rel, photo_album_id, valid_album_id, dot,
}

tests : Unit {0}
unfolding clean dir base ext is_image_name hidden_rel photo_album_id valid_album_id
tests = tt

clean_tests :
    (clean (codes "a/./b//../c/") ≡ codes "a/c")
    × (clean (codes "/../x") ≡ codes "/x")
    × (clean (codes "../../x/..") ≡ codes "../..")
    × (clean [] ≡ dot)
    × (clean (codes "a/..") ≡ dot)
unfolding tests
clean_tests = (refl, refl, refl, refl, refl)

dir_tests :
    (photo_album_id (codes "2026/trip/a.jpg") ≡ codes "2026/trip")
    × (photo_album_id (codes "a.jpg") ≡ dot)
    × (base (codes "2026/trip/") ≡ codes "trip")
    × (ext (codes "a.b/c.JPG") ≡ codes ".JPG")
    × (ext (codes "a.b/c") ≡ [])
unfolding tests
dir_tests = (refl, refl, refl, refl, refl)

album_tests :
    (valid_album_id (codes "2026/trip") ≡ some (codes "2026/trip"))
    × (valid_album_id (codes "../x") ≡ none)
    × (valid_album_id (codes ".hidden") ≡ none)
    × (valid_album_id dot ≡ some dot)
    × (is_image_name (codes "x.JPeG") ≡ true)
    × (hidden_rel (codes "a/.b/c") ≡ true)
unfolding tests
album_tests = (refl, refl, refl, refl, refl, refl)
