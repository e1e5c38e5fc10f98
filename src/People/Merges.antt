-- ===== src/People/Merges.antt =====
-- Merging two persons of organize.go keeps its tables sound.
use web_bijin.Prelude.{
  ℕ, ◌≡◌, ◌≢◌, refl, ap, sym, ◌∙◌, subst, some_injective, inl, inr, Bool, true, false, not, ◌&&◌,
  Option, none, some, List, [], ◌∷◌, Text, arith, Bool-cases, Option-cases, All, All-mono,
  All-update_where, All-delete_where, All-delete_knowing, text_eq, ◌==◌, nat_eq, nat_beq_iff,
  nat_beq, text_beq, text_beq_iff, find_where, find_where-holds, find_where-none-All, update_where,
  delete_where, any_where,
}
use web_bijin.People.Renames.{IsFree, named-both, respelled-DistinctPeople}
use web_bijin.People.Rows.{move_links-DistinctLinks}
use web_bijin.People.Writes.{removed-IsSound}
use web_bijin.People.Sound.{DistinctPeople, Leads, IsSound, found-any}
use web_bijin.People.{
  Person, Link, People, Renamed, has_person, has_link, is_named, move_links, merge, respell,
  rename_person,
}

-- The role of a row is the role of every row with its id.
one_role :
    (id : ℕ) (people : List Person) {p : Person}
    → DistinctPeople people
    → find_where (has_person id) people ≡ some p
    → All (λ (q : Person). q.id ≡ id → q.role ≡ p.role) people
one_role id [] d e = tt
one_role id (q ∷ people) {p} d e = elim (Bool-cases (nat_beq q.id id)) [
  | inl t ↦
      let same : q ≡ p = ground arith in
      let at_id = (nat_beq_iff q.id id).0 t in
      (
        λ _. ap (λ (x : Person). x.role) same,
        All-mono (λ (x : Person). nat_beq x.id id ≡ false) _ people
            (λ x no e. absurd (ground (arith, nat_beq_iff x.id id)))
            (find_where-none-All (has_person id) people
              (subst (λ i. find_where (has_person i) people ≡ none) at_id d.0)),
      )
  | inr t ↦ (
    λ (h : q.id ≡ id). absurd (ground (arith, nat_beq_iff q.id id)),
    one_role id people {p = p} d.2 (ground arith),
  )
]

-- `WHERE role = ? AND name = ? AND id != ?`
abbrev is_another : ℕ → Text → Text → Person → Bool
is_another id role name q = is_named role name q && not (nat_beq q.id id)

-- Of the rows of a role and name, all but one have the id.
one_named :
    (id : ℕ) (role name : Text) (people : List Person) {q : Person}
    → DistinctPeople people
    → find_where (is_another id role name) people ≡ some q
    → All (λ (p : Person). is_named role name p ≡ true → p.id ≢ id → p.id ≡ q.id) people
one_named id role name [] d e = tt
one_named id role name (p ∷ people) {q} d e = elim (Bool-cases (is_another id role name p)) [
  | inl t ↦
      let same : p ≡ q = ground arith in
      let named : is_named role name p ≡ true = ground arith in
      (
        λ _ _. ap (λ (x : Person). x.id) same,
        All-mono (λ (x : Person). is_named p.role p.name x ≡ false) _ people
            (λ x no also _. absurd (ground (arith, no, named-both role name p x named also)))
            (find_where-none-All (is_named p.role p.name) people d.1),
      )
  | inr t ↦ (
    λ named ne. absurd (ground (arith, nat_beq_iff p.id id)),
    one_named id role name people {q = q} d.2 (ground arith),
  )
]

any-respelled :
    (id other : ℕ) (name : Text) (people : List Person)
    → any_where (has_person other) people ≡ true
    → any_where
        (has_person other)
        (update_where (has_person id) (λ p. record p { name = name }) people)
      ≡ true
any-respelled id other name [] h = h
any-respelled id other name (p ∷ people) h = ground (arith, any-respelled id other name people)

respell-IsSound :
    (id : ℕ) (role name : Text) (t : People)
    → IsFree id role name t.people
    → IsSound t
    → IsSound (respell id name t)
respell-IsSound id role name t f s = record {
  people = respelled-DistinctPeople id role name t.people f s.people;
  links = s.links;
  leads =
      All-mono (Leads t.people) (Leads (respell id name t).people) t.links
        (λ (l : Link) a. any-respelled id l.person name t.people a) s.leads;
}

merge-IsSound :
    (id target : ℕ) (t : People)
    → any_where (has_person target) t.people ≡ true
    → IsSound t
    → IsSound (merge id target t)
unfolding merge move_links
merge-IsSound id target t present s =
    removed-IsSound id (record { people = t.people; links = move_links id target t.links })
      (record {
        people = s.people;
        links = move_links-DistinctLinks id target t.links s.links;
        leads =
            All-update_where (Leads t.people)
              (λ (l : Link). l.person == id && not (has_link l.album target t.links))
              (λ l. record l { person = target }) t.links (λ l h a. present) s.leads;
      })

find_by_id :
    (test : Person → Bool) (people : List Person) {q : Person}
    → DistinctPeople people
    → find_where test people ≡ some q
    → find_where (has_person q.id) people ≡ some q
find_by_id test [] d e = cc
find_by_id test (p ∷ people) {q} d e = elim (Bool-cases (test p)) [
  | inl t ↦
      let same : p ≡ q = ground arith in
      subst (λ (x : Person). find_where (has_person x.id) (p ∷ people) ≡ some x) same (ground arith)
  | inr t ↦
      let later : find_where (has_person q.id) people ≡ some q =
        find_by_id test people {q = q} d.2 (ground arith) in
      elim (Bool-cases (nat_beq p.id q.id)) [
        | inl at ↦ absurd (
            clash
              (subst (λ i. find_where (has_person i) people ≡ none) ((nat_beq_iff p.id q.id).0 at)
                d.0)
              later)
        | inr at ↦ rw at later
      ]
]
  where
    clash : {o : Option Person} {x : Person} → o ≡ none → o ≡ some x → ⊥
    clash a b = cc

-- A name that nobody else of the role has is free for the id.
unmerged-IsFree :
    (id : ℕ) (name : Text) (people : List Person) (p : Person)
    → DistinctPeople people
    → find_where (has_person id) people ≡ some p
    → find_where (is_another id p.role name) people ≡ none
    → IsFree id p.role name people
unmerged-IsFree id name people p d h k = record {
  roles = one_role id people {p = p} d h;
  named =
      All-mono (λ (x : Person). is_another id p.role name x ≡ false) _ people
        (λ x no named. ground (arith, nat_beq_iff x.id id))
        (find_where-none-All (is_another id p.role name) people k);
}

-- Once the row with the id is gone, the name is free for the row that has it.
merged-IsFree :
    (id : ℕ) (role name : Text) (people : List Person) (q : Person)
    → DistinctPeople people
    → find_where (is_another id role name) people ≡ some q
    → IsFree q.id role name (delete_where (has_person id) people)
unfolding is_named text_beq
merged-IsFree id role name people q d k =
    let other = find_where-holds (is_another id role name) people k in
    let has_role : q.role ≡ role = (text_beq_iff q.role role).0 (ground arith) in
    record {
      roles = All-delete_where _ (has_person id) people (
          subst (λ r. All (λ (x : Person). x.id ≡ q.id → x.role ≡ r) people) has_role
            (one_role q.id people {p = q} d (find_by_id (is_another id role name) people d k)));
      named =
          All-delete_knowing (λ (x : Person). is_named role name x ≡ true → x.id ≢ id → x.id ≡ q.id)
            _ (has_person id) people
            (λ x gone known named. known named (λ e. absurd (ground (arith, nat_beq_iff x.id id))))
            (one_named id role name people {q = q} d k);
    }

pub rename_person-IsSound :
    (id : ℕ) (name : Text) (t : People) {r : Renamed}
    → rename_person id name t ≡ some r
    → IsSound t
    → IsSound r.after
unfolding rename_person merge
rename_person-IsSound id name t {r} e s =
    elim (Option-cases (find_where (has_person id) t.people)) [
      | inl h ↦ absurd (clash (rw (rename_person, h) refl) e)
      | inr (p, h) ↦ elim (Option-cases (find_where (is_another id p.role name) t.people)) [
        | inl k ↦
            let plain : rename_person id name t
                ≡ some (record {
                  person = record { id = id; name = name };
                  merged = false;
                  after = respell id name t;
                }) =
              rw (rename_person, h, k) refl in
            let same = some_injective (sym e ∙ plain) in
            subst IsSound (ap (λ (x : Renamed). x.after) (sym same))
              (respell-IsSound id p.role name t (unmerged-IsFree id name t.people p s.people h k) s)
        | inr (q, k) ↦
            let plain : rename_person id name t
                ≡ some (record {
                  person = record { id = q.id; name = name };
                  merged = true;
                  after = respell q.id name (merge id q.id t);
                }) =
              rw (rename_person, h, k) refl in
            let same = some_injective (sym e ∙ plain) in
            subst IsSound (ap (λ (x : Renamed). x.after) (sym same)) (
              respell-IsSound q.id p.role name (merge id q.id t)
                (merged-IsFree id p.role name t.people q s.people k)
                (merge-IsSound id q.id t (found-any (is_another id p.role name) t.people k) s))
      ]
    ]
  where
    clash : {o : Option Renamed} → o ≡ none → o ≡ some r → ⊥
    clash a b = cc
