-- ===== src/People/Rows.antt =====
-- The rows of `album_people` under the statements of organize.go.
use web_bijin.Prelude.{
  ℕ, ◌+◌, ◌≡◌, ◌≢◌, refl, sym, ◌∙◌, subst, inl, inr, Bool, true, false, not, ◌&&◌, ◌||◌, List, [],
  ◌∷◌, ◌++◌, Text, arith, Bool-cases, All, All-mono, All-append, text_eq, ◌==◌, nat_eq, nat_beq_iff,
  nat_beq, text_beq, text_beq_iff, text_beq_refl, update_where, delete_where,
}
use web_bijin.People.{Link, has_link, insert_links, move_links}

-- `PRIMARY KEY (album, person_id)` of `album_people`.
abbrev pub DistinctLinks : List Link → Type 0
DistinctLinks [] = Unit {0}
DistinctLinks (l ∷ links) = (has_link l.album l.person links ≡ false) × DistinctLinks links

has_link-append :
    (album : Text) (id : ℕ) (xs ys : List Link)
    → has_link album id (xs ++ ys) ≡ has_link album id xs || has_link album id ys
unfolding has_link
has_link-append album id [] ys = refl
has_link-append album id (l ∷ xs) ys = ground (arith, has_link-append album id xs ys)

has_link-delete :
    (test : Link → Bool) (album : Text) (id : ℕ) (links : List Link)
    → has_link album id links ≡ false
    → has_link album id (delete_where test links) ≡ false
unfolding has_link
has_link-delete test album id [] h = refl
has_link-delete test album id (l ∷ links) h = ground (arith, has_link-delete test album id links)

pub delete-DistinctLinks :
    (test : Link → Bool) (links : List Link)
    → DistinctLinks links
    → DistinctLinks (delete_where test links)
delete-DistinctLinks test [] d = tt
delete-DistinctLinks test (l ∷ links) d =
    ground
      (arith, has_link-delete test l.album l.person links d.0, delete-DistinctLinks test links d.1)

-- A new row at the end.
append-DistinctLinks :
    (l : Link) (links : List Link)
    → has_link l.album l.person links ≡ false
    → DistinctLinks links
    → DistinctLinks (links ++ (l ∷ []))
unfolding has_link text_beq
append-DistinctLinks l [] h d = (refl, tt)
append-DistinctLinks l (k ∷ links) h d = (
  has_link-append k.album k.person links (l ∷ [])
      ∙ ground (arith, d.0, h, text_beq_iff l.album k.album, text_beq_iff k.album l.album),
  append-DistinctLinks l links (ground (arith, h)) d.1,
)

pub insert_links-DistinctLinks :
    (album : Text) (i : ℕ) (ids : List ℕ) (links : List Link)
    → DistinctLinks links
    → DistinctLinks (insert_links album i ids links)
unfolding insert_links
insert_links-DistinctLinks album i [] links d = d
insert_links-DistinctLinks album i (id ∷ ids) links d =
    elim (Bool-cases (has_link album id links)) [
      | inl t ↦ rw (t, insert_links) (insert_links-DistinctLinks album (i + 1) ids links d)
      | inr t ↦
          rw (t, insert_links)
            (insert_links-DistinctLinks album (i + 1) ids _ (
              append-DistinctLinks (record { album = album; person = id; position = i }) links t d))
    ]

pub All-insert_links :
    (P : Link → Type 0) (album : Text) (i : ℕ) (ids : List ℕ) (links : List Link)
    → All (λ id. (j : ℕ) → P (record { album = album; person = id; position = j })) ids
    → All P links
    → All P (insert_links album i ids links)
unfolding insert_links
All-insert_links P album i [] links h a = a
All-insert_links P album i (id ∷ ids) links h a = elim (Bool-cases (has_link album id links)) [
  | inl t ↦ rw (t, insert_links) (All-insert_links P album (i + 1) ids links h.1 a)
  | inr t ↦
      rw (t, insert_links)
        (All-insert_links P album (i + 1) ids _ h.1 (
          All-append P links (record { album = album; person = id; position = i } ∷ []) a
            (h.0 i, tt)))
]

-- A merge moves the rows of one person to another, album by album.
module _ (id target : ℕ) (all : List Link) where
  abbrev moves : Link → Bool
  moves l = l.person == id && not (has_link l.album target all)

  abbrev moved : List Link → List Link
  moved = update_where moves (λ l. record l { person = target })

  moved-other :
      (album : Text) (p : ℕ) (links : List Link)
      → p ≢ target
      → has_link album p links ≡ false
      → has_link album p (moved links) ≡ false
  unfolding has_link
  moved-other album p [] ne h = refl
  moved-other album p (l ∷ links) ne h =
      ground (arith, moved-other album p links ne, nat_beq_iff target p)

  moved-taken :
      (album : Text) (links : List Link)
      → has_link album target all ≡ true
      → has_link album target links ≡ false
      → has_link album target (moved links) ≡ false
  unfolding has_link text_beq
  moved-taken album [] t h = refl
  moved-taken album (l ∷ links) t h = elim (Bool-cases (l.album == album)) [
    | inl e ↦
        let same : l.album ≡ album = (text_beq_iff l.album album).0 e in
        let held : has_link l.album target all ≡ true =
          subst (λ text. has_link text target all ≡ true) (sym same) t in
        let rest = moved-taken album links t in ground (arith, rest)
    | inr e ↦ ground (arith, moved-taken album links t)
  ]

  moved-free :
      (album : Text) (links : List Link)
      → has_link album id links ≡ false
      → has_link album target links ≡ false
      → has_link album target (moved links) ≡ false
  unfolding has_link
  moved-free album [] t h = refl
  moved-free album (l ∷ links) t h = ground (arith, moved-free album links)

  moved-DistinctLinks :
      (links : List Link)
      → All (λ (l : Link). has_link l.album l.person all ≡ true) links
      → ((album : Text) → has_link album target all ≡ false → has_link album target links ≡ false)
      → DistinctLinks links
      → DistinctLinks (moved links)
  unfolding has_link
  moved-DistinctLinks [] a free d = tt
  moved-DistinctLinks (l ∷ links) a free d =
      let rest = moved-DistinctLinks links a.1 (λ album h. ground (arith, free album h)) d.1 in
      elim (Bool-cases (moves l)) [
        | inl t ↦
            let at_id : l.person ≡ id = ground (arith, nat_beq_iff l.person id) in
            let none_left : has_link l.album target links ≡ false = ground (arith, free l.album) in
            rw t (
              moved-free l.album links (subst (λ p. has_link l.album p links ≡ false) at_id d.0)
                  none_left,
              rest,
            )
        | inr t ↦ rw t (stays l links a.0 d.0, rest)
      ]
    where
      stays :
          (l : Link) (links : List Link)
          → has_link l.album l.person all ≡ true
          → has_link l.album l.person links ≡ false
          → has_link l.album l.person (moved links) ≡ false
      stays l links a h = elim (Bool-cases (nat_beq l.person target)) [
        | inl e ↦
            let same : l.person ≡ target = (nat_beq_iff l.person target).0 e in
            subst (λ p. has_link l.album p (moved links) ≡ false) (sym same)
              (moved-taken l.album links (subst (λ p. has_link l.album p all ≡ true) same a)
                (subst (λ p. has_link l.album p links ≡ false) same h))
        | inr e ↦ moved-other l.album l.person links (ground (arith, nat_beq_iff l.person target)) h
      ]

-- Every row of a table is in it.
All-has_link :
    (links : List Link) → All (λ (l : Link). has_link l.album l.person links ≡ true) links
unfolding has_link text_beq
All-has_link [] = tt
All-has_link (l ∷ links) = (
  ground (arith, text_beq_refl l.album),
  All-mono (λ (k : Link). has_link k.album k.person links ≡ true) _ links (λ k h. ground (arith, h))
      (All-has_link links),
)

pub move_links-DistinctLinks :
    (id target : ℕ) (links : List Link)
    → DistinctLinks links
    → DistinctLinks (move_links id target links)
unfolding move_links
move_links-DistinctLinks id target links d =
    moved-DistinctLinks id target links links (All-has_link links) (λ album h. h) d
