-- ===== src/Upload/Names.antt =====
-- The paths that `uploadPath` lets through, against the tests of scan.go.
use web_bijin.Prelude.{
  ◌≤◌, ◌≡◌, refl, Bool, true, false, not, ◌||◌, none, some, List, [], ◌∷◌, Text, arith, text_eq,
  ◌==◌, text_beq, any_where, has_prefix, split_on, to_lower, length, ltb, if◌then◌else◌,
  some_injective, sym, ap, nat_eq, text_beq_iff,
}
use web_bijin.Paths.{ext, slash, clean, is_image_name, hidden_part, hidden_rel}
use web_bijin.Upload.{UploadInput, valid_path, bad_part, image_kind, upload_path, upload_max_bytes}

good-parts :
    (parts : List Text) → any_where bad_part parts ≡ false → any_where hidden_part parts ≡ false
unfolding hidden_part
good-parts [] h = refl
good-parts (part ∷ parts) h = ground (arith, good-parts parts)

known-kind :
    (name : Text) → (image_kind (to_lower (ext name)) == []) ≡ false → is_image_name name ≡ true
unfolding image_kind is_image_name
known-kind name h = ground arith

-- What `hidden_rel` asks of a path that `valid` lets through.
valid-shown :
    (valid_utf8 : Text → Bool) (v : Text) → valid_path valid_utf8 v ≡ true → hidden_rel v ≡ false
unfolding valid_path hidden_rel
valid-shown valid_utf8 v h = ground (arith, good-parts (split_on slash v))

-- A path as the upload page may store it: relative, cleaned, not beyond one folder, with no hidden
-- element and the name of an image, of a size within the bound.
pub record IsStorable (x : UploadInput) : Type 0 where
  pub relative : has_prefix x.path (slash ∷ []) ≡ false
  pub cleaned : clean x.path ≡ x.path
  pub shallow : length (split_on slash x.path) ≤ 2
  pub shown : hidden_rel x.path ≡ false
  pub image : is_image_name x.path ≡ true
  pub some_bytes : 1 ≤ x.size
  pub few_bytes : x.size ≤ upload_max_bytes

-- Four guards that were all passed.
four_guards :
    {A : Type 0} (a b c d : Bool) {x y : A}
    → (if a then none else if b then none else if c then none else if d then none else some x)
      ≡ some y
    → (a ≡ false) × (b ≡ false) × (c ≡ false) × (x ≡ y)
four_guards true b c d e = absurd (ground (arith, e))
four_guards false true c d e = absurd (ground (arith, e))
four_guards false false true d e = absurd (ground (arith, e))
four_guards false false false true e = absurd (ground (arith, e))
four_guards false false false false e = (refl, refl, refl, some_injective e)

valid-cleaned :
    (valid_utf8 : Text → Bool) (v : Text)
    → valid_path valid_utf8 v ≡ true
    → (has_prefix v (slash ∷ []) ≡ false) × (clean v ≡ v)
unfolding valid_path
valid-cleaned valid_utf8 v h = (ground arith, ground (arith, text_beq_iff (clean v) v))

-- Every path that the upload page lets through stays under its root and is one that the scan
-- takes for a visible photo: what can be uploaded is never stored where the library does not look.
pub upload_path-IsStorable :
    (valid_utf8 : Text → Bool) (x : UploadInput) {rel kind : Text}
    → upload_path valid_utf8 x ≡ some (rel, kind)
    → (rel ≡ x.path) × IsStorable x
unfolding upload_path text_beq
upload_path-IsStorable valid_utf8 x {rel} {kind} e =
    let (path_ok, known, sized, same) =
      four_guards (not (valid_path valid_utf8 x.path) || ltb 2 (length (split_on slash x.path)))
        (image_kind (to_lower (ext x.path)) == []) (ltb x.size 1 || ltb upload_max_bytes x.size)
        (ltb 1024 (length x.path)) e in
    let valid : valid_path valid_utf8 x.path ≡ true = ground (arith, path_ok) in
    (
      ap (λ (y : Text × Text). y.0) (sym same),
      record {
        relative = (valid-cleaned valid_utf8 x.path valid).0;
        cleaned = (valid-cleaned valid_utf8 x.path valid).1;
        shallow = ground (arith, path_ok);
        shown = valid-shown valid_utf8 x.path valid;
        image = known-kind x.path known;
        some_bytes = ground (arith, sized);
        few_bytes = ground (arith, sized);
      },
    )
