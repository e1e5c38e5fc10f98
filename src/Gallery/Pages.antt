-- ===== src/Gallery/Pages.antt =====
-- A client that follows the cursors of query_photos.go from page to page.
use web_bijin.Prelude.{
  ℕ, zero, suc, ◌^◌, ◌≡◌, sym, ◌∙◌, ◌≤◌, ◌<◌, refl, ap, subst, true, Option, none, some, List, [],
  ◌∷◌, ◌++◌, Text, arith, append_assoc, append-nil, length, length-append, All,
}
use mathlib.Core.Option
use web_bijin.Store.{Photo, Store}
use web_bijin.Order.Cursor.{parse_cursor, format_cursor}
use web_bijin.Gallery.{
  PhotoIndex, RankedPhoto, Round, Page, photo_order, start_behind, gather, last_of, is_full, fill,
  next_cursor, pick_limit, photo_page, list_page,
}
use web_bijin.Gallery.Sorted.{IsSorted, All-prefix, All-suffix}
use web_bijin.Gallery.Starts.{IsEntry, last_of-some, All-last_of, behind-part, start_behind-cursor}
use web_bijin.Gallery.Rounds.{Consumed, fill-Consumed, is_full-fill, gather-append, last_of-append}

-- The photos of all pages, asked for with the cursor of the page before; `none` where the fuel ends
-- before the pages do.
unfoldable pub browse : ℕ → Store → PhotoIndex → ℕ → Text → ℕ → Text → Option (List Photo)
browse zero s index seed album limit after = none
browse (suc fuel) s index seed album limit after =
    let page = list_page s index seed album limit after in
    elim page.next [
      | none ↦ some page.photos
      | some next ↦
          Option.map (λ more. page.photos ++ more) (browse fuel s index seed album limit next)
    ]

module _ (s : Store) (index : PhotoIndex) (seed : ℕ) (album : Text) (limit : ℕ)
    (small : seed < 2 ^ 64) (sorted : IsSorted (photo_order index seed album))
    (entries : All (IsEntry seed) (photo_order index seed album)) where
  -- Behind the cursor of the last entry of a part stands what the part left.
  cursor-start :
      (front done rest : List RankedPhoto) (d e : RankedPhoto)
      → photo_order index seed album ≡ (front ++ (d ∷ done)) ++ rest
      → last_of (some d) done ≡ some e
      → start_behind
          (parse_cursor (format_cursor seed e.id)).0
          (parse_cursor (format_cursor seed e.id)).1
          (photo_order index seed album)
        ≡ rest
  cursor-start front done rest d e h l =
      let in_order = All-suffix (IsEntry seed) front (d ∷ done) (
        All-prefix (IsEntry seed) (front ++ (d ∷ done)) rest
          (subst (All (IsEntry seed)) h entries)) in
      start_behind-cursor seed e (photo_order index seed album) small
        (All-last_of (IsEntry seed) d done e in_order.0 in_order.1 l)
      ∙ rw h (
          behind-part (front ++ (d ∷ done)) rest e (subst IsSorted h sorted)
            (last_of-append none front (d ∷ done) ∙ l))

  -- The round that ends a page that starts here.
  abbrev page_of : List RankedPhoto → Round
  page_of rest =
      fill (length rest) s album index.shared (pick_limit limit)
        (record { photos = []; last = none; rest = rest })

  list_page-start :
      (after : Text) (rest : List RankedPhoto)
      → start_behind (parse_cursor after).0 (parse_cursor after).1 (photo_order index seed album)
        ≡ rest
      → list_page s index seed album limit after ≡ record {
        photos = (page_of rest).photos;
        total = length (photo_order index seed album);
        next = next_cursor seed (page_of rest);
      }
  unfolding list_page photo_page
  list_page-start after rest h =
      ap
        (λ start. record {
          photos = (page_of start).photos;
          total = length (photo_order index seed album);
          next = next_cursor seed (page_of start);
        })
        h

  browse-last :
      (fuel : ℕ) (after : Text) (p : Page)
      → list_page s index seed album limit after ≡ p
      → p.next ≡ none
      → browse (suc fuel) s index seed album limit after ≡ some p.photos
  unfolding browse
  browse-last fuel after p h k =
      rw (browse, ap (λ (q : Page). q.next) h ∙ k) (ap (λ (q : Page). some q.photos) h)

  browse-next :
      (fuel : ℕ) (after next : Text) (p : Page) (more : List Photo)
      → list_page s index seed album limit after ≡ p
      → p.next ≡ some next
      → browse fuel s index seed album limit next ≡ some more
      → browse (suc fuel) s index seed album limit after ≡ some (p.photos ++ more)
  unfolding browse
  browse-next fuel after next p more h k l =
      rw (browse, ap (λ (q : Page). q.next) h ∙ k, l) (ap (λ (q : Page). some (q.photos ++ more)) h)

  pick_limit_positive : (n : ℕ) → 0 < pick_limit n
  pick_limit_positive n = ground arith

  is_full-le :
      (r : Round) (x : RankedPhoto) (more : List RankedPhoto)
      → r.rest ≡ x ∷ more
      → is_full (pick_limit limit) r ≡ true
      → pick_limit limit ≤ length r.photos
  is_full-le r x more h full = counted r.rest h full
    where
      counted :
          (rest : List RankedPhoto)
          → rest ≡ x ∷ more
          → is_full (pick_limit limit) (record { photos = r.photos; last = r.last; rest = rest })
            ≡ true
          → pick_limit limit ≤ length r.photos
      counted [] e h = absurd (ground arith)
      counted (y ∷ rest) e h = ground arith

  -- A page that stopped before the end is full, so it is not empty.
  full-cons :
      (r : Round) (x : RankedPhoto) (more done : List RankedPhoto)
      → r.rest ≡ x ∷ more
      → r.photos ≡ gather s album index.shared done
      → is_full (pick_limit limit) r ≡ true
      → (d : RankedPhoto) × (ds : List RankedPhoto) × (done ≡ d ∷ ds)
  unfolding gather
  full-cons r x more [] h k full = absurd (
      omega (
        arith,
        is_full-le r x more h full,
        ap (λ (ps : List Photo). length ps) k,
        pick_limit_positive limit,
      ))
  full-cons r x more (d ∷ done) h k full = (d, done, refl)

  next_cursor-some :
      (r : Round) (x e : RankedPhoto) (more : List RankedPhoto)
      → r.rest ≡ x ∷ more
      → r.last ≡ some e
      → next_cursor seed r ≡ some (format_cursor seed e.id)
  unfolding next_cursor
  next_cursor-some r x e more h l = rw (l, h) refl

  next_cursor-none : (r : Round) → r.rest ≡ [] → next_cursor seed r ≡ none
  unfolding next_cursor
  next_cursor-none r h = none_left r.last r.rest h
    where
      none_left :
          (last : Option RankedPhoto) (rest : List RankedPhoto)
          → rest ≡ []
          → next_cursor seed (record { photos = r.photos; last = last; rest = rest }) ≡ none
      none_left none rest e = refl
      none_left (some e) rest h = rw (next_cursor, h) refl

  shorter :
      {fuel : ℕ} (rest : List RankedPhoto) (d : RankedPhoto) (ds : List RankedPhoto)
      (x : RankedPhoto) (more : List RankedPhoto)
      → rest ≡ (d ∷ ds) ++ (x ∷ more)
      → length rest < suc fuel
      → length (x ∷ more) < fuel
  shorter rest d ds x more e h =
      omega
        (arith, ap (λ (part : List RankedPhoto). length part) e, length-append (d ∷ ds) (x ∷ more))

  -- What this much fuel is enough for.
  abbrev Follows : ℕ → Type 0
  Follows fuel =
      (front rest : List RankedPhoto) (after : Text)
      → length rest < fuel
      → photo_order index seed album ≡ front ++ rest
      → start_behind (parse_cursor after).0 (parse_cursor after).1 (photo_order index seed album)
        ≡ rest
      → browse fuel s index seed album limit after ≡ some (gather s album index.shared rest)

  browse_turn : (fuel : ℕ) → Follows fuel → Follows (suc fuel)
  browse_turn fuel again front rest after f h k = follow (page_of rest).rest refl
    where
      c :
          Consumed s album index.shared
            (record { photos = []; last = none; rest = rest })
            (page_of rest)
      c =
          fill-Consumed s album index.shared (length rest) (pick_limit limit)
            (record { photos = []; last = none; rest = rest })

      full : is_full (pick_limit limit) (page_of rest) ≡ true
      full =
          is_full-fill s album index.shared (length rest) (pick_limit limit)
            (record { photos = []; last = none; rest = rest }) (omega arith)

      follow :
          (left : List RankedPhoto)
          → (page_of rest).rest ≡ left
          → browse (suc fuel) s index seed album limit after
            ≡ some (gather s album index.shared rest)
      follow [] e =
          browse-last fuel after _ (list_page-start after rest k)
            (next_cursor-none (page_of rest) e)
          ∙ ap some (
              c.found
              ∙ ap (λ part. gather s album index.shared part)
                  (sym (append-nil c.part) ∙ ap (λ left. c.part ++ left) (sym e) ∙ sym c.split))
      follow (x ∷ more) e =
          let (d, ds, nonempty) = full-cons (page_of rest) x more c.part e c.found full in
          let (l, is_last) = last_of-some d ds in
          let split : rest ≡ (d ∷ ds) ++ (x ∷ more) =
            c.split ∙ ap (λ left. c.part ++ left) e ∙ ap (λ part. part ++ (x ∷ more)) nonempty in
          let whole : photo_order index seed album ≡ (front ++ (d ∷ ds)) ++ (x ∷ more) =
            h ∙ ap (λ tail. front ++ tail) split ∙ sym (append_assoc front (d ∷ ds) (x ∷ more)) in
          let later =
            again (front ++ (d ∷ ds)) (x ∷ more) (format_cursor seed l.id)
              (shorter rest d ds x more split f) whole
              (cursor-start front ds (x ∷ more) d l whole is_last) in
          browse-next fuel after (format_cursor seed l.id) _
            (gather s album index.shared (x ∷ more)) (list_page-start after rest k)
            (next_cursor-some (page_of rest) x l more e
              (c.last ∙ ap (λ part. last_of none part) nonempty ∙ is_last))
            later
          ∙ ap some (
              ap (λ photos. photos ++ gather s album index.shared (x ∷ more))
                (c.found ∙ ap (λ part. gather s album index.shared part) nonempty)
              ∙ sym (gather-append s album index.shared (d ∷ ds) (x ∷ more))
              ∙ ap (λ part. gather s album index.shared part) (sym split))

  pub browse_from : (fuel : ℕ) → Follows fuel
  browse_from zero front rest after f h k = absurd (omega arith)
  browse_from (suc fuel) front rest after f h k =
      browse_turn fuel (browse_from fuel) front rest after f h k
