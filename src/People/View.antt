-- ===== src/People/View.antt =====
-- What the organize page shows: the reading queries of organize.go, and `peopleViewOf`.
use web_bijin.Prelude.{
  ℕ, ◌+◌, Bool, true, false, not, ◌&&◌, ◌||◌, Option, none, some, List, [], ◌∷◌, ◌++◌, Text,
  if◌then◌else◌, text_eq, ◌==◌, nat_eq, text_beq, ltb, nat_beq, find_where, any_where, count_where,
}
use web_bijin.People.{Person, Link, People, PersonRef, name_key, has_person, same_name, role_author}

-- `albumPeople`
pub record AlbumPeople : Type 0 where
  pub author : Option PersonRef
  pub models : List PersonRef

-- A row of the join of `loadAlbumPeopleFrom`.
pub record Joined : Type 0 where
  pub album : Text
  pub position : ℕ
  pub person : Person

abbrev join_links : List Person → List Link → List Joined
join_links people [] = []
join_links people (l ∷ links) = elim (find_where (has_person l.person) people) [
  | none ↦ join_links people links
  | some p ↦ record { album = l.album; position = l.position; person = p } ∷ join_links people links
]

-- The order of strings by bytes.
unfoldable pub text_less : Text → Text → Bool
text_less [] [] = false
text_less [] (b ∷ t) = true
text_less (a ∷ s) [] = false
text_less (a ∷ s) (b ∷ t) = ltb a b || (nat_beq a b && text_less s t)

-- `ORDER BY ap.album, ap.position, p.id`
unfoldable pub joined_before : Joined → Joined → Bool
unfolding text_less text_beq
joined_before r q =
    text_less r.album q.album
    || (r.album == q.album
        && (ltb r.position q.position || (r.position == q.position && ltb r.person.id q.person.id)))

unfoldable pub insert_joined : Joined → List Joined → List Joined
unfolding joined_before
insert_joined r [] = r ∷ []
insert_joined r (q ∷ rows) =
    let later = insert_joined r rows in if joined_before r q then r ∷ q ∷ rows else q ∷ later

unfoldable pub order_joined : List Joined → List Joined
unfolding insert_joined
order_joined [] = []
order_joined (r ∷ rows) = insert_joined r (order_joined rows)

abbrev pub ref_of : Person → PersonRef
ref_of p = record { id = p.id; name = p.name }

-- The body of the loop of `loadAlbumPeopleFrom`.
unfoldable pub add_joined : Person → AlbumPeople → AlbumPeople
unfolding text_beq
add_joined p a =
    if p.role == role_author
    then record a { author = some (ref_of p) }
    else record a { models = a.models ++ (ref_of p ∷ []) }

unfoldable pub collect : Text → List Joined → AlbumPeople → AlbumPeople
unfolding add_joined text_beq
collect album [] a = a
collect album (r ∷ rows) a =
    collect album rows (if r.album == album then add_joined r.person a else a)

-- `loadAlbumPeopleFrom`: the keys of its map, and its value at a key; nobody at any other key.
unfoldable pub linked_albums : List Joined → List Text
unfolding text_beq
linked_albums [] = []
linked_albums (r ∷ rows) =
    let albums = linked_albums rows in
    if any_where (λ album. album == r.album) albums then albums else r.album ∷ albums

unfoldable pub load_rows : People → List Joined
unfolding order_joined
load_rows t = order_joined (join_links t.people t.links)

unfoldable pub load_album_people : People → Text → AlbumPeople
unfolding load_rows collect
load_album_people t album = collect album (load_rows t) (record { author = none; models = [] })

-- `listPeopleFrom`: by name, as NOCASE orders names, then by id.
unfoldable pub person_before : Person → Person → Bool
unfolding text_less same_name
person_before p q =
    text_less (name_key p.name) (name_key q.name) || (same_name p.name q.name && ltb p.id q.id)

unfoldable pub insert_person : Person → List Person → List Person
unfolding person_before
insert_person p [] = p ∷ []
insert_person p (q ∷ people) =
    let later = insert_person p people in if person_before p q then p ∷ q ∷ people else q ∷ later

unfoldable pub list_people : List Person → List Person
unfolding insert_person
list_people [] = []
list_people (p ∷ people) = insert_person p (list_people people)

pub record PersonView : Type 0 where
  pub person : PersonRef
  pub albums : ℕ

pub record PeopleView : Type 0 where
  pub authors : List PersonView
  pub models : List PersonView
  pub stale : ℕ

-- What an album adds to `uses[id]`.
abbrev pub uses_in : ℕ → AlbumPeople → ℕ
uses_in id a =
    (elim a.author [ none ↦ 0 | some r ↦ if r.id == id then 1 else 0 ])
    + count_where (λ (r : PersonRef). r.id == id) a.models

unfoldable pub is_current : List Text → Text → Bool
unfolding text_beq
is_current current album = any_where (λ id. id == album) current

-- The first loop of `peopleViewOf`: the uses of an id, and `Stale`.
unfoldable pub uses_of : (Text → AlbumPeople) → List Text → List Text → ℕ → ℕ
unfolding is_current
uses_of links current [] id = 0
uses_of links current (album ∷ albums) id =
    (if is_current current album then uses_in id (links album) else 0)
    + uses_of links current albums id

-- The second loop of `peopleViewOf`.
unfoldable pub view_from : (ℕ → ℕ) → ℕ → List Person → PeopleView
unfolding text_beq
view_from uses stale [] = record { authors = []; models = []; stale = stale }
view_from uses stale (p ∷ people) =
    let view = view_from uses stale people in
    let shown : PersonView = record { person = ref_of p; albums = uses p.id } in
    if p.role == role_author
    then record view { authors = shown ∷ view.authors }
    else record view { models = shown ∷ view.models }

-- `peopleViewOf`, on the keys and the values of `links`.
unfoldable pub people_view_of :
    List Person → List Text → (Text → AlbumPeople) → List Text → PeopleView
unfolding view_from uses_of is_current
people_view_of people albums links current =
    view_from (uses_of links current albums)
      (count_where (λ album. not (is_current current album)) albums) people
