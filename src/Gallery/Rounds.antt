-- ===== src/Gallery/Rounds.antt =====
-- The loop of query_photos.go consumes a part of the order, and gathers the photos of that part.
use web_bijin.Prelude.{
  ℕ, zero, suc, ◌-◌, ◌≡◌, sym, ◌∙◌, ◌≤◌, ◌<◌, refl, ap, inl, inr, Bool, true, false, Option, some,
  List, [], ◌∷◌, ◌++◌, Text, arith, Bool-cases, append-nil, append_assoc, length, take, drop,
  take-drop, length-drop,
}
use web_bijin.Store.{Photo, Store}
use web_bijin.Gallery.{RankedPhoto, Round, gather, last_of, one_round, is_full, fill}

pub gather-append :
    (s : Store) (album : Text) (shared : Bool) (xs ys : List RankedPhoto)
    → gather s album shared (xs ++ ys) ≡ gather s album shared xs ++ gather s album shared ys
unfolding gather
gather-append s album shared [] ys = refl
gather-append s album shared (e ∷ xs) ys = ground (arith, gather-append s album shared xs ys)

pub last_of-append :
    (o : Option RankedPhoto) (xs ys : List RankedPhoto)
    → last_of o (xs ++ ys) ≡ last_of (last_of o xs) ys
last_of-append o [] ys = refl
last_of-append o (e ∷ xs) ys = last_of-append (some e) xs ys

-- How a later state of the loop stands to an earlier one.
pub record Consumed (s : Store) (album : Text) (shared : Bool) (r after : Round) : Type 0 where
  pub part : List RankedPhoto
  pub split : r.rest ≡ part ++ after.rest
  pub found : after.photos ≡ r.photos ++ gather s album shared part
  pub last : after.last ≡ last_of r.last part

module _ (s : Store) (album : Text) (shared : Bool) where
  Consumed-none : (r : Round) → Consumed s album shared r r
  unfolding gather
  Consumed-none r = record {
    part = [];
    split = refl;
    found = sym (append-nil r.photos);
    last = refl;
  }

  Consumed-trans :
      (q r t : Round)
      → Consumed s album shared q r
      → Consumed s album shared r t
      → Consumed s album shared q t
  Consumed-trans q r t a b = record {
    part = a.part ++ b.part;
    split = a.split ∙ ap (λ rest. a.part ++ rest) b.split ∙ sym (append_assoc a.part b.part t.rest);
    found =
        rw (gather-append s album shared a.part b.part, b.found, a.found)
          (append_assoc q.photos (gather s album shared a.part) (gather s album shared b.part));
    last = b.last ∙ ap (λ o. last_of o b.part) a.last ∙ sym (last_of-append q.last a.part b.part);
  }

  one_round-Consumed :
      (limit : ℕ) (r : Round) → Consumed s album shared r (one_round s album shared limit r)
  unfolding one_round
  one_round-Consumed limit r = record {
    part = take (limit - length r.photos) r.rest;
    split = sym (take-drop (limit - length r.photos) r.rest);
    found = refl;
    last = refl;
  }

  pub fill-Consumed :
      (fuel limit : ℕ) (r : Round) → Consumed s album shared r (fill fuel s album shared limit r)
  unfolding fill
  fill-Consumed zero limit r = Consumed-none r
  fill-Consumed (suc fuel) limit r = elim (Bool-cases (is_full limit r)) [
    | inl t ↦ rw (t, fill) (Consumed-none r)
    | inr t ↦
        rw (t, fill)
          (Consumed-trans r (one_round s album shared limit r)
            (fill fuel s album shared limit (one_round s album shared limit r))
            (one_round-Consumed limit r)
            (fill-Consumed fuel limit (one_round s album shared limit r)))
  ]

  -- A round that the loop starts consumes at least one entry.
  one_round-shorter :
      (limit : ℕ) (r : Round)
      → is_full limit r ≡ false
      → length (one_round s album shared limit r).rest < length r.rest
  unfolding one_round
  one_round-shorter limit r h = consumes r.rest r.photos h
    where
      consumes :
          (rest : List RankedPhoto) (photos : List Photo)
          → is_full limit (record { photos = photos; last = r.last; rest = rest }) ≡ false
          → length (drop (limit - length photos) rest) < length rest
      consumes [] photos h = absurd (ground arith)
      consumes (e ∷ rest) photos h =
          ground (arith, length-drop (limit - length photos) (e ∷ rest), h)

  -- One round for each entry is enough fuel.
  pub is_full-fill :
      (fuel limit : ℕ) (r : Round)
      → length r.rest ≤ fuel
      → is_full limit (fill fuel s album shared limit r) ≡ true
  unfolding fill
  is_full-fill zero limit r h = empty r.rest h
    where
      empty :
          (rest : List RankedPhoto)
          → length rest ≤ 0
          → is_full limit (record { photos = r.photos; last = r.last; rest = rest }) ≡ true
      empty [] h = refl
      empty (e ∷ rest) h = absurd (omega arith)
  is_full-fill (suc fuel) limit r h = elim (Bool-cases (is_full limit r)) [
    | inl t ↦ rw (t, fill) t
    | inr t ↦
        rw (t, fill)
          (is_full-fill fuel limit (one_round s album shared limit r)
            (omega (arith, one_round-shorter limit r t, h)))
  ]
