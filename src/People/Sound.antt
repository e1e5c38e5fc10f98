-- ===== src/People/Sound.antt =====
-- The keys of the tables of organize.go, under each of its transactions.
use web_bijin.Prelude.{
  ℕ, ◌≡◌, refl, subst, inl, inr, Bool, true, Option, none, some, List, [], ◌∷◌, Text, arith,
  Bool-cases, Option-cases, All, text_eq, nat_eq, text_beq, text_beq_iff, find_where, any_where,
}
use web_bijin.People.Rows.{DistinctLinks}
use web_bijin.People.{
  Person, Link, People, has_person, is_named, same_name, name_key, person_id, author_ids, model_ids,
  role_author, role_model,
}

-- `id INTEGER PRIMARY KEY` and `UNIQUE (role, name)` of `people`.
abbrev pub DistinctPeople : List Person → Type 0
DistinctPeople [] = Unit {0}
DistinctPeople (p ∷ people) =
    (find_where (has_person p.id) people ≡ none)
    × (find_where (is_named p.role p.name) people ≡ none)
    × DistinctPeople people

-- The link leads to a person.
abbrev pub Leads : List Person → Link → Type 0
Leads people l = any_where (has_person l.person) people ≡ true

pub record IsSound (t : People) : Type 0 where
  pub people : DistinctPeople t.people
  pub links : DistinctLinks t.links
  pub leads : All (Leads t.people) t.links

-- SQLite gives a new row an id that no row has.
abbrev pub IsFresh : (List Person → ℕ) → Type 0
IsFresh fresh = (people : List Person) → find_where (has_person (fresh people)) people ≡ none

-- The persons before are persons after.
abbrev pub Grows : List Person → List Person → Type 0
Grows people more =
    (id : ℕ) → any_where (has_person id) people ≡ true → any_where (has_person id) more ≡ true

-- What `personID` does to the table.
pub record IsNumbered (people : List Person) (id : ℕ) (more : List Person) : Type 0 where
  pub distinct : DistinctPeople more
  pub present : any_where (has_person id) more ≡ true
  pub grows : Grows people more

pub find-any :
    (id : ℕ) (people : List Person) {p : Person}
    → find_where (has_person id) people ≡ some p
    → any_where (has_person id) people ≡ true
find-any id [] e = cc
find-any id (q ∷ people) {p} e = ground (arith, find-any id people {p = p})

-- A row that was found by any test is there by its id.
pub found-any :
    (test : Person → Bool) (people : List Person) {p : Person}
    → find_where test people ≡ some p
    → any_where (has_person p.id) people ≡ true
found-any test [] e = cc
found-any test (q ∷ people) {p} e = elim (Bool-cases (test q)) [
  | inl t ↦
      let same : q ≡ p = ground arith in
      subst (λ (x : Person). any_where (has_person x.id) (q ∷ people) ≡ true) same (ground arith)
  | inr t ↦ ground (arith, found-any test people {p = p})
]

pub same_name_refl : (name : Text) → same_name name name ≡ true
unfolding same_name text_beq
same_name_refl name = (text_beq_iff (name_key name) (name_key name)).1 refl

module _ (fresh : List Person → ℕ) (is_fresh : IsFresh fresh) where
  pub person_id-IsNumbered :
      (role name : Text) (people : List Person)
      → DistinctPeople people
      → IsNumbered people (person_id fresh role name people).0 (person_id fresh role name people).1
  unfolding person_id
  person_id-IsNumbered role name people d =
      elim (Option-cases (find_where (is_named role name) people)) [
        | inl e ↦
            rw (e, person_id)
              (record {
                distinct = (is_fresh people, e, d);
                present = ground arith;
                grows = λ id h. ground arith;
              })
        | inr (p, e) ↦
            rw (e, person_id)
              (record {
                distinct = d;
                present = found-any (is_named role name) people e;
                grows = λ id h. h;
              })
      ]

  -- All the ids are of persons.
  abbrev pub Present : List Person → List ℕ → Type 0
  Present people = All (λ id. any_where (has_person id) people ≡ true)

  pub model_ids-IsNumbered :
      (models : List Text) (people : List Person)
      → DistinctPeople people
      → DistinctPeople (model_ids fresh models people).1
        × Present (model_ids fresh models people).1 (model_ids fresh models people).0
        × Grows people (model_ids fresh models people).1
  unfolding model_ids
  model_ids-IsNumbered [] people d = (d, tt, λ id h. h)
  model_ids-IsNumbered (name ∷ models) people d =
      let one = person_id-IsNumbered role_model name people d in
      let (dist, pres, grows) =
        model_ids-IsNumbered models (person_id fresh role_model name people).1 one.distinct in
      (dist, (grows _ one.present, pres), λ id h. grows id (one.grows id h))

  pub author_ids-IsNumbered :
      (author : Option Text) (people : List Person)
      → DistinctPeople people
      → DistinctPeople (author_ids fresh author people).1
        × Present (author_ids fresh author people).1 (author_ids fresh author people).0
        × Grows people (author_ids fresh author people).1
  unfolding author_ids
  author_ids-IsNumbered none people d = (d, tt, λ id h. h)
  author_ids-IsNumbered (some []) people d = (d, tt, λ id h. h)
  author_ids-IsNumbered (some (r ∷ name)) people d =
      let one = person_id-IsNumbered role_author (r ∷ name) people d in
      (one.distinct, (one.present, tt), one.grows)
