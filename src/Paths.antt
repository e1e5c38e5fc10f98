-- ===== src/Paths.antt =====
-- Go's `path` package as the program uses it, and the source's own tests on paths: album.go, and
-- `isImageName` and `hiddenRel` of scan.go. A path is the bytes of its text.
mod Tests
use web_bijin.Prelude.{
  ℕ, Bool, true, not, ◌&&◌, ◌||◌, Option, none, some, List, [], ◌∷◌, ◌++◌, Text, if◌then◌else◌,
  text_beq, codes, any_where, has_prefix, contains_byte, split_on, join_with, to_lower, text_eq,
  ◌==◌, nat_eq,
}

abbrev pub slash : ℕ
slash = b'/'

abbrev pub dot : Text
dot = codes "."

abbrev pub dot_dot : Text
dot_dot = codes ".."

-- One element of a path against the elements kept so far, the last one first.
clean_step : Bool → List Text → Text → List Text
clean_step rooted [] part =
    if part == [] || part == dot
    then []
    else if part == dot_dot
    then (if rooted then [] else dot_dot ∷ [])
    else part ∷ []
clean_step rooted (top ∷ out) part =
    if part == [] || part == dot
    then top ∷ out
    else if part == dot_dot
    then (if top == dot_dot then dot_dot ∷ top ∷ out else out)
    else part ∷ top ∷ out

clean_parts : Bool → List Text → List Text → List Text
clean_parts rooted out [] = out
clean_parts rooted out (part ∷ parts) = clean_parts rooted (clean_step rooted out part) parts

reverse_onto : List Text → List Text → List Text
reverse_onto [] acc = acc
reverse_onto (part ∷ parts) acc = reverse_onto parts (part ∷ acc)

abbrev or_dot : Text → Text
or_dot [] = dot
or_dot (c ∷ s) = c ∷ s

-- `path.Clean`.
unfoldable pub clean : Text → Text
unfolding clean_step clean_parts reverse_onto split_on join_with has_prefix text_beq
clean p =
    let rooted = has_prefix p (slash ∷ []) in
    let body = join_with slash (reverse_onto (clean_parts rooted [] (split_on slash p)) []) in
    if rooted then slash ∷ body else or_dot body

-- All parts but the last, and the last one.
split_last : Text → List Text → List Text × Text
split_last part [] = ([], part)
split_last part (next ∷ parts) = let (init, last) = split_last next parts in (part ∷ init, last)

split_dir : List Text → List Text × Text
unfolding split_last
split_dir [] = ([], [])
split_dir (part ∷ parts) = split_last part parts

-- `path.Split`'s directory, its slash included, cleaned: `path.Dir`.
dir_text : List Text → Text
dir_text [] = []
dir_text (part ∷ parts) = join_with slash (part ∷ parts) ++ (slash ∷ [])

unfoldable pub dir : Text → Text
unfolding clean split_dir dir_text split_on
dir p = clean (dir_text (split_dir (split_on slash p)).0)

-- The last element, trailing slashes apart: `path.Base`.
last_named : Text → List Text → Text
last_named found [] = found
last_named found (part ∷ parts) = last_named (if part == [] then found else part) parts

unfoldable pub base : Text → Text
unfolding last_named split_on text_beq
base [] = dot
base (c ∷ p) =
    let found = last_named [] (split_on slash (c ∷ p)) in if found == [] then slash ∷ [] else found

-- The text from the last dot of the last element: `path.Ext`.
ext_from : Text → Text → Text
ext_from found [] = found
ext_from found (c ∷ s) = ext_from (if c == slash then [] else if c == b'.' then c ∷ s else found) s

unfoldable pub ext : Text → Text
unfolding ext_from
ext p = ext_from [] p

-- scan.go
unfoldable pub is_image_name : Text → Bool
unfolding ext to_lower text_beq
is_image_name name =
    let e = to_lower (ext name) in
    any_where (λ known. e == known)
      (codes ".jpg" ∷ codes ".jpeg" ∷ codes ".png" ∷ codes ".webp" ∷ codes ".gif" ∷ [])

unfoldable pub hidden_part : Text → Bool
unfolding text_beq has_prefix
hidden_part part = not (part == dot) && has_prefix part dot

unfoldable pub hidden_rel : Text → Bool
unfolding hidden_part split_on
hidden_rel rel = any_where hidden_part (split_on slash rel)

-- album.go
abbrev pub root_album_id : Text
root_album_id = dot

unfoldable pub photo_album_id : Text → Text
unfolding dir clean
photo_album_id rel = dir (clean rel)

-- `none` is the answer `"", false`.
unfoldable pub valid_album_id : Text → Option Text
unfolding clean hidden_rel has_prefix text_beq
valid_album_id raw =
    if raw == [] || contains_byte 0 raw || has_prefix raw (slash ∷ []) || contains_byte b'\\' raw
    then none
    else if not (clean raw == raw)
        || clean raw == dot_dot
        || has_prefix (clean raw) (codes "../")
        || hidden_rel (clean raw ++ codes "/photo.jpg")
    then none
    else some (clean raw)
