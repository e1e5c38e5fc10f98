-- ===== src/Gallery/Sorted.antt =====
-- The order of query_photos.go is sorted, and its entries behind a cursor are its tail.
use web_bijin.Prelude.{
  ℕ, ◌≡◌, ◌≢◌, refl, inl, inr, true, false, some, List, [], ◌∷◌, ◌++◌, arith, Bool-cases, All,
  All-mono, some_injective, subst, length, ◌+◌,
}
use web_bijin.Order.{photo_rank}
use web_bijin.Gallery.{RankedPhoto, before, insert_ranked, ranked, is_after, behind, last_of}

abbrev pub IsSorted : List RankedPhoto → Type 0
IsSorted [] = Unit {0}
IsSorted (e ∷ order) = All (λ f. before e f ≡ true) order × IsSorted order

before_trans : (e f g : RankedPhoto) → before e f ≡ true → before f g ≡ true → before e g ≡ true
before_trans e f g h k = ground arith

before_total : (e f : RankedPhoto) → e.id ≢ f.id → before e f ≡ false → before f e ≡ true
before_total e f ne h = ground arith

All-insert_ranked :
    (P : RankedPhoto → Type 0) (e : RankedPhoto) (order : List RankedPhoto)
    → P e
    → All P order
    → All P (insert_ranked e order)
unfolding insert_ranked
All-insert_ranked P e [] h a = (h, tt)
All-insert_ranked P e (f ∷ order) h a = elim (Bool-cases (before e f)) [
  | inl t ↦ rw (t, insert_ranked) (h, a)
  | inr t ↦ rw (t, insert_ranked) (a.0, All-insert_ranked P e order h a.1)
]

insert_ranked-IsSorted :
    (e : RankedPhoto) (order : List RankedPhoto)
    → All (λ f. e.id ≢ f.id) order
    → IsSorted order
    → IsSorted (insert_ranked e order)
unfolding insert_ranked
insert_ranked-IsSorted e [] ne s = (tt, tt)
insert_ranked-IsSorted e (f ∷ order) ne s = elim (Bool-cases (before e f)) [
  | inl t ↦
      rw (t, insert_ranked)
        (
          (
            t,
            All-mono (λ g. before f g ≡ true) (λ g. before e g ≡ true) order
                (λ g h. before_trans e f g t h) s.0,
          ),
          s,
        )
  | inr t ↦
      rw (t, insert_ranked)
        (
          All-insert_ranked (λ g. before f g ≡ true) e order (before_total e f ne.0 t) s.0,
          insert_ranked-IsSorted e order ne.1 s.1,
        )
]

length-insert_ranked :
    (e : RankedPhoto) (order : List RankedPhoto) → length (insert_ranked e order) ≡ length order + 1
unfolding insert_ranked
length-insert_ranked e [] = omega arith
length-insert_ranked e (f ∷ order) = ground (arith, length-insert_ranked e order)

abbrev pub DistinctNumbers : List ℕ → Type 0
DistinctNumbers [] = Unit {0}
DistinctNumbers (id ∷ ids) = All (λ other. id ≢ other) ids × DistinctNumbers ids

-- What holds of all ids holds of all entries.
pub All-ranked :
    (P : ℕ → Type 0) (seed : ℕ) (ids : List ℕ)
    → All P ids
    → All (λ (e : RankedPhoto). P e.id × (e.rank ≡ photo_rank seed e.id)) (ranked seed ids)
unfolding ranked
All-ranked P seed [] a = tt
All-ranked P seed (id ∷ ids) a =
    All-insert_ranked (λ (e : RankedPhoto). P e.id × (e.rank ≡ photo_rank seed e.id))
      (record { rank = photo_rank seed id; id = id }) (ranked seed ids) (a.0, refl)
      (All-ranked P seed ids a.1)

pub length-ranked : (seed : ℕ) (ids : List ℕ) → length (ranked seed ids) ≡ length ids
unfolding ranked
length-ranked seed [] = refl
length-ranked seed (id ∷ ids) =
    let one =
      length-insert_ranked (record { rank = photo_rank seed id; id = id }) (ranked seed ids) in
    omega (arith, one, length-ranked seed ids)

pub ranked-IsSorted : (seed : ℕ) (ids : List ℕ) → DistinctNumbers ids → IsSorted (ranked seed ids)
unfolding ranked
ranked-IsSorted seed [] d = tt
ranked-IsSorted seed (id ∷ ids) d =
    insert_ranked-IsSorted (record { rank = photo_rank seed id; id = id }) (ranked seed ids)
      (All-mono (λ (e : RankedPhoto). (id ≢ e.id) × (e.rank ≡ photo_rank seed e.id))
        (λ e. id ≢ e.id) (ranked seed ids) (λ e h. h.0)
        (All-ranked (λ other. id ≢ other) seed ids d.0))
      (ranked-IsSorted seed ids d.1)

not-after : (d e : RankedPhoto) → before d e ≡ true → is_after e.rank e.id d ≡ false
not-after d e h = ground arith

-- The last entry of a part, as an equation.
last_of-some :
    (d : RankedPhoto) (done : List RankedPhoto) (e : RankedPhoto)
    → All (λ f. before d f ≡ true) done
    → last_of (some d) done ≡ some e
    → is_after e.rank e.id d ≡ false
last_of-some d [] e a h =
    let same : d ≡ e = some_injective h in
    subst (λ (x : RankedPhoto). is_after x.rank x.id d ≡ false) same (ground arith)
last_of-some d (f ∷ done) e a h = not-after d e (reached f done a.0 a.1 h)
  where
    reached :
        (f : RankedPhoto) (done : List RankedPhoto)
        → before d f ≡ true
        → All (λ g. before d g ≡ true) done
        → last_of (some f) done ≡ some e
        → before d e ≡ true
    reached f [] b a h = subst (λ (x : RankedPhoto). before d x ≡ true) (some_injective h) b
    reached f (g ∷ done) b a h = reached g done a.0 a.1 h

pub All-prefix :
    (P : RankedPhoto → Type 0) (done rest : List RankedPhoto) → All P (done ++ rest) → All P done
All-prefix P [] rest a = tt
All-prefix P (d ∷ done) rest a = (a.0, All-prefix P done rest a.1)

pub All-suffix :
    (P : RankedPhoto → Type 0) (done rest : List RankedPhoto) → All P (done ++ rest) → All P rest
All-suffix P [] rest a = a
All-suffix P (d ∷ done) rest a = All-suffix P done rest a.1

-- Behind the last entry of the part that was consumed stands what was not.
pub behind-last :
    (d : RankedPhoto) (done rest : List RankedPhoto) (e : RankedPhoto)
    → IsSorted ((d ∷ done) ++ rest)
    → last_of (some d) done ≡ some e
    → behind e.rank e.id ((d ∷ done) ++ rest) ≡ rest
unfolding behind
behind-last d [] [] e s h =
    let same : d ≡ e = some_injective h in
    subst (λ (x : RankedPhoto). behind x.rank x.id (d ∷ []) ≡ []) same (ground arith)
behind-last d [] (r ∷ rest) e s h =
    let same : d ≡ e = some_injective h in
    let after : is_after d.rank d.id r ≡ true = ground (arith, s.0.0) in
    subst (λ (x : RankedPhoto). behind x.rank x.id (d ∷ r ∷ rest) ≡ r ∷ rest) same
      (ground (arith, after))
behind-last d (f ∷ done) rest e s h =
    let stays =
      last_of-some d (f ∷ done) e (All-prefix (λ g. before d g ≡ true) (f ∷ done) rest s.0) h in
    rw stays (behind-last f done rest e s.1 h)
