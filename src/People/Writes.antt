-- ===== src/People/Writes.antt =====
-- Assigning and removing keeps the tables of organize.go sound.
use web_bijin.Prelude.{
  ℕ, ◌≡◌, ◌≢◌, refl, ◌∙◌, subst, some_injective, inl, inr, Bool, true, ◌&&◌, Option, none, some,
  List, [], ◌∷◌, Text, arith, Option-cases, All, All-mono, All-delete_where, All-delete_knowing,
  if-both, text_eq, ◌==◌, nat_eq, nat_beq_iff, find_where, delete_where, any_where,
}
use web_bijin.People.Rows.{
  DistinctLinks, delete-DistinctLinks, insert_links-DistinctLinks, All-insert_links,
}
use web_bijin.People.{
  Person, Link, People, has_person, is_named, author_ids, model_ids, replace, set_albums,
  set_album_people, is_of_role, is_linked, delete_person, delete_album_people, role_author,
  role_model,
}
use web_bijin.People.Sound.{
  DistinctPeople, Leads, IsSound, IsFresh, Grows, model_ids-IsNumbered, author_ids-IsNumbered,
}

-- The links of a table whose persons are these.
pub record AreLinks (people : List Person) (links : List Link) : Type 0 where
  pub distinct : DistinctLinks links
  pub leads : All (Leads people) links

delete-AreLinks :
    (people : List Person) (test : Link → Bool) (links : List Link)
    → AreLinks people links
    → AreLinks people (delete_where test links)
delete-AreLinks people test links a = record {
  distinct = delete-DistinctLinks test links a.distinct;
  leads = All-delete_where (Leads people) test links a.leads;
}

replace-AreLinks :
    (people : List Person) (album role : Text) (ids : List ℕ) (links : List Link)
    → All (λ id. any_where (has_person id) people ≡ true) ids
    → AreLinks people links
    → AreLinks people (replace people album role ids links)
unfolding replace
replace-AreLinks people album role ids links h a =
    let left =
      delete-AreLinks people (λ (l : Link). l.album == album && is_of_role people role l.person)
        links a in
    record {
      distinct = insert_links-DistinctLinks album 0 ids _ left.distinct;
      leads =
          All-insert_links (Leads people) album 0 ids _ (All-mono _ _ ids (λ id p j. p) h)
            left.leads;
    }

-- The ids given are of persons.
abbrev ArePresent : List Person → Option (List ℕ) → Type 0
ArePresent people none = Unit {0}
ArePresent people (some ids) = All (λ id. any_where (has_person id) people ≡ true) ids

maybe_replace-AreLinks :
    (people : List Person) (album role : Text) (ids : Option (List ℕ)) (links : List Link)
    → ArePresent people ids
    → AreLinks people links
    → AreLinks people
        (elim ids [ none ↦ links | some given ↦ replace people album role given links ])
maybe_replace-AreLinks people album role none links h a = a
maybe_replace-AreLinks people album role (some ids) links h a =
    replace-AreLinks people album role ids links h a

set_albums-AreLinks :
    (people : List Person) (albums : List Text) (authors models : Option (List ℕ))
    (links : List Link)
    → ArePresent people authors
    → ArePresent people models
    → AreLinks people links
    → AreLinks people (set_albums people albums authors models links)
unfolding set_albums
set_albums-AreLinks people [] authors models links h k a = a
set_albums-AreLinks people (album ∷ albums) authors models links h k a =
    set_albums-AreLinks people albums authors models _ h k (
      maybe_replace-AreLinks people album role_model models _ k
        (maybe_replace-AreLinks people album role_author authors links h a))

links-grow :
    {people more : List Person} {links : List Link}
    → Grows people more
    → AreLinks people links
    → AreLinks more links
links-grow {links} g a = record {
  distinct = a.distinct;
  leads = All-mono _ _ links (λ (l : Link) h. g l.person h) a.leads;
}

given-ArePresent {ℓ} :
    {A : Type ℓ} (people : List Person) (o : Option A) (ids : List ℕ)
    → All (λ id. any_where (has_person id) people ≡ true) ids
    → ArePresent people (elim o [ none ↦ none | some _ ↦ some ids ])
given-ArePresent people none ids h = tt
given-ArePresent people (some a) ids h = h

pub set_album_people-IsSound :
    (fresh : List Person → ℕ) (albums : List Text) (author : Option Text)
    (models : Option (List Text)) (t : People)
    → IsFresh fresh
    → IsSound t
    → IsSound (set_album_people fresh albums author models t)
unfolding set_album_people
set_album_people-IsSound fresh albums author models t f s =
    let (da, pa, ga) = author_ids-IsNumbered fresh f author t.people s.people in
    let named : List Text = elim models [ none ↦ [] | some names ↦ names ] in
    let (dm, pm, gm) = model_ids-IsNumbered fresh f named (author_ids fresh author t.people).1 da in
    let later = (model_ids fresh named (author_ids fresh author t.people).1).1 in
    let before : AreLinks t.people t.links = record { distinct = s.links; leads = s.leads } in
    let all =
      set_albums-AreLinks later albums _ _ t.links
        (given-ArePresent later author _ (All-mono _ _ _ gm pa))
        (given-ArePresent later models _ pm) (links-grow gm (links-grow ga before)) in
    record { people = dm; links = all.distinct; leads = all.leads }

absent-delete :
    (test drop_it : Person → Bool) (people : List Person)
    → find_where test people ≡ none
    → find_where test (delete_where drop_it people) ≡ none
absent-delete test drop_it [] h = refl
absent-delete test drop_it (p ∷ people) h = ground (arith, absent-delete test drop_it people)

pub delete-DistinctPeople :
    (drop_it : Person → Bool) (people : List Person)
    → DistinctPeople people
    → DistinctPeople (delete_where drop_it people)
delete-DistinctPeople drop_it [] d = tt
delete-DistinctPeople drop_it (p ∷ people) d =
    let by_id = absent-delete (has_person p.id) drop_it people d.0 in
    let by_name = absent-delete (is_named p.role p.name) drop_it people d.1 in
    let rest = delete-DistinctPeople drop_it people d.2 in
    if-both DistinctPeople (drop_it p) rest (by_id, by_name, rest)

any-delete :
    (id other : ℕ) (people : List Person)
    → other ≢ id
    → any_where (has_person other) people ≡ true
    → any_where (has_person other) (delete_where (has_person id) people) ≡ true
any-delete id other [] ne h = h
any-delete id other (p ∷ people) ne h = ground (arith, any-delete id other people ne)

-- A person and the links to that person removed.
pub removed-IsSound :
    (id : ℕ) (t : People)
    → IsSound t
    → IsSound (record {
      people = delete_where (has_person id) t.people;
      links = delete_where (is_linked id) t.links;
    })
removed-IsSound id t s = record {
  people = delete-DistinctPeople (has_person id) t.people s.people;
  links = delete-DistinctLinks (is_linked id) t.links s.links;
  leads =
      All-delete_knowing (Leads t.people) (Leads (delete_where (has_person id) t.people))
        (is_linked id) t.links
        (λ l h a.
          any-delete id l.person t.people
            (λ (e : l.person ≡ id). absurd (ground (arith, nat_beq_iff l.person id))) a)
        s.leads;
}

pub delete_person-IsSound :
    (id : ℕ) (t : People) {after : People}
    → delete_person id t ≡ some after
    → IsSound t
    → IsSound after
unfolding delete_person
delete_person-IsSound id t e s = elim (Option-cases (find_where (has_person id) t.people)) [
  | inl h ↦ absurd (ground (arith, h, e))
  | inr (p, h) ↦ subst IsSound (some_injective (found_after h ∙ e)) (removed-IsSound id t s)
]
  where
    found_after :
        {p : Person}
        → find_where (has_person id) t.people ≡ some p
        → some (record {
          people = delete_where (has_person id) t.people;
          links = delete_where (is_linked id) t.links;
        })
          ≡ delete_person id t
    found_after h = rw (delete_person, h) refl

pub delete_album_people-IsSound :
    (albums : List Text) (t : People) → IsSound t → IsSound (delete_album_people albums t)
unfolding delete_album_people
delete_album_people-IsSound [] t s = s
delete_album_people-IsSound (album ∷ albums) t s =
    let left =
      delete-AreLinks t.people (λ (l : Link). l.album == album) t.links
        (record { distinct = s.links; leads = s.leads }) in
    delete_album_people-IsSound albums _
      (record { people = s.people; links = left.distinct; leads = left.leads })
