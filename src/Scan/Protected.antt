-- ===== src/Scan/Protected.antt =====
-- The photos that a scan of scan.go has no reason to remove.
use web_bijin.Prelude.{
  ◌≡◌, ◌<◌, refl, ap, ◌∙◌, Bool, true, false, not, ◌&&◌, ◌||◌, List, [], ◌∷◌, ◌++◌, Text, arith,
  text_eq, ◌==◌, nat_eq, leb, any_where,
}
use web_bijin.Store.{Photo}
use web_bijin.Process.Photo.{SourceObject, Seen, Library}
use web_bijin.Process.Removal.{is_absent}
use web_bijin.Scan.{Listing, listed_objects, keyed, keys_of, failed_sources, max_id, key_owner}

-- No row had this id or a later one.
abbrev pub is_newer : List Photo → Photo → Bool
is_newer photos p = not (any_where (λ (q : Photo). leb p.id q.id) photos)

-- A source has listed this key.
abbrev pub is_listed_by : Text → Listing → Bool
is_listed_by key l = any_where (λ (o : SourceObject). l.prefix ++ o.rel_path == key) l.objects

-- The source of this key could not be listed.
abbrev pub is_failed_for : Text → Listing → Bool
is_failed_for key l = l.failed && l.id == key_owner key

-- The photo came after the scan began, or was listed, or is of a source that could not be listed, or
-- its source is still configured and does not answer that it is absent.
abbrev pub is_protected : List Listing → Library → (Photo → Seen) → Photo → Bool
is_protected listings start now p =
    is_newer start.store.photos p
    || any_where (is_listed_by p.source_key) listings
    || any_where (is_failed_for p.source_key) listings
    || not (is_absent (now p))

any-append {ℓ} :
    {A : Type ℓ} (test : A → Bool) (xs ys : List A)
    → any_where test (xs ++ ys) ≡ any_where test xs || any_where test ys
any-append test [] ys = refl
any-append test (x ∷ xs) ys = ground (arith, any-append test xs ys)

keys_of-append : (xs ys : List SourceObject) → keys_of (xs ++ ys) ≡ keys_of xs ++ keys_of ys
keys_of-append [] ys = refl
keys_of-append (o ∷ xs) ys = ap (λ keys. o.key ∷ keys) (keys_of-append xs ys)

keys_of-keyed :
    (key prefix : Text) (objects : List SourceObject)
    → any_where (λ k. k == key) (keys_of (keyed prefix objects))
      ≡ any_where (λ (o : SourceObject). prefix ++ o.rel_path == key) objects
keys_of-keyed key prefix [] = refl
keys_of-keyed key prefix (o ∷ objects) =
    ap (λ b. (prefix ++ o.rel_path == key) || b) (keys_of-keyed key prefix objects)

pub listed_objects-any :
    (key : Text) (listings : List Listing)
    → any_where (λ k. k == key) (keys_of (listed_objects listings))
      ≡ any_where (is_listed_by key) listings
unfolding listed_objects
listed_objects-any key [] = refl
listed_objects-any key (l ∷ listings) =
    ap (λ keys. any_where (λ k. k == key) keys)
      (keys_of-append (keyed l.prefix l.objects) (listed_objects listings))
    ∙ any-append (λ k. k == key) (keys_of (keyed l.prefix l.objects))
        (keys_of (listed_objects listings))
    ∙ ground (arith, keys_of-keyed key l.prefix l.objects, listed_objects-any key listings)

pub failed_sources-any :
    (key : Text) (listings : List Listing)
    → any_where (λ id. id == key_owner key) (failed_sources listings)
      ≡ any_where (is_failed_for key) listings
unfolding failed_sources
failed_sources-any key [] = refl
failed_sources-any key (l ∷ listings) = ground (arith, failed_sources-any key listings)

pub max_id-any :
    (p : Photo) (photos : List Photo)
    → 0 < p.id
    → leb p.id (max_id photos) ≡ true
    → is_newer photos p ≡ false
unfolding max_id
max_id-any p [] pos h = ground arith
max_id-any p (q ∷ photos) pos h = ground (arith, max_id-any p photos)
