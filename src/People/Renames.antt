-- ===== src/People/Renames.antt =====
-- A new spelling keeps the names of organize.go unique.
use web_bijin.Prelude.{
  ℕ, ◌≡◌, ◌≢◌, refl, sym, ◌∙◌, subst, inl, inr, true, false, none, List, [], ◌∷◌, Text, arith,
  Bool-cases, All, All-mono, All-both, All-update_where, All-update_knowing, text_eq, nat_eq,
  nat_beq_iff, nat_beq, text_beq, text_beq_iff, find_where, find_where-none-All,
  All-find_where-none, update_where,
}
use web_bijin.People.Sound.{DistinctPeople}
use web_bijin.People.{Person, has_person, is_named, same_name, name_key}

-- Where a name may be given to this id: its rows have the role, and no other has role and name.
pub record IsFree (id : ℕ) (role name : Text) (people : List Person) : Type 0 where
  pub roles : All (λ (p : Person). p.id ≡ id → p.role ≡ role) people
  pub named : All (λ (p : Person). is_named role name p ≡ true → p.id ≡ id) people

same_name_sym : (a b : Text) → same_name a b ≡ true → same_name b a ≡ true
unfolding same_name text_beq
same_name_sym a b h =
    (text_beq_iff (name_key b) (name_key a)).1 (sym ((text_beq_iff (name_key a) (name_key b)).0 h))

same_name_trans :
    (a b c : Text) → same_name a b ≡ true → same_name b c ≡ true → same_name a c ≡ true
unfolding same_name text_beq
same_name_trans a b c h k =
    (text_beq_iff (name_key a) (name_key c)).1
      ((text_beq_iff (name_key a) (name_key b)).0 h ∙ (text_beq_iff (name_key b) (name_key c)).0 k)

-- Two rows that have the role and name have each other's.
pub named-both :
    (role name : Text) (p q : Person)
    → is_named role name p ≡ true
    → is_named role name q ≡ true
    → is_named p.role p.name q ≡ true
unfolding is_named text_beq
named-both role name p q h k =
    let p_role = (text_beq_iff p.role role).0 (ground arith) in
    let q_role = (text_beq_iff q.role role).0 (ground arith) in
    let roles : text_beq q.role p.role ≡ true =
      (text_beq_iff q.role p.role).1 (q_role ∙ sym p_role) in
    let back = same_name_sym p.name name (ground (arith, h)) in
    let names : same_name q.name p.name ≡ true =
      same_name_trans q.name name p.name (ground (arith, k)) back in
    rw (is_named, roles, names) refl

-- A row that was respelled conflicts with no other one.
respelled-apart :
    (id : ℕ) (role name : Text) (p q : Person)
    → (is_named role name p ≡ true → p.id ≡ id)
    → p.id ≢ id
    → q.role ≡ role
    → is_named p.role p.name (record q { name = name }) ≡ false
unfolding is_named text_beq
respelled-apart id role name p q only ne r =
    elim (Bool-cases (is_named p.role p.name (record q { name = name }))) [
      | inl t ↦
          let roles : p.role ≡ role = sym ((text_beq_iff q.role p.role).0 (ground arith)) ∙ r in
          let names = same_name_sym name p.name (ground arith) in
          absurd (ne (only (rw (is_named, (text_beq_iff p.role role).1 roles, names) refl)))
      | inr t ↦ t
    ]

module _ (id : ℕ) (role name : Text) where
  abbrev pub respelled : List Person → List Person
  respelled = update_where (has_person id) (λ p. record p { name = name })

  absent_id-respelled :
      (other : ℕ) (people : List Person)
      → find_where (has_person other) people ≡ none
      → find_where (has_person other) (respelled people) ≡ none
  absent_id-respelled other people h = All-find_where-none (has_person other) (respelled people) (
      All-update_where (λ p. has_person other p ≡ false) (has_person id)
        (λ p. record p { name = name }) people (λ p t f. f)
        (find_where-none-All (has_person other) people h))

  -- Names under the row that is respelled.
  named-at :
      (people : List Person)
      → find_where (has_person id) people ≡ none
      → IsFree id role name people
      → find_where (is_named role name) (respelled people) ≡ none
  named-at people h f = All-find_where-none (is_named role name) (respelled people) (
      All-update_knowing (λ p. is_named role name p ≡ false) (λ p. has_person id p ≡ false)
        (has_person id) (λ p. record p { name = name }) people (λ p t no k. absurd (ground arith))
        absent
        (All-mono
          (λ (p : Person). (is_named role name p ≡ true → p.id ≡ id) × (has_person id p ≡ false)) _
          people
          (λ p h. elim (Bool-cases (is_named role name p)) [
            | inl t ↦ absurd (ground (arith, h.0 t, h.1, nat_beq_iff p.id id))
            | inr t ↦ t
          ])
          (All-both _ _ people f.named absent)))
    where
      absent : All (λ p. has_person id p ≡ false) people
      absent = find_where-none-All (has_person id) people h

  -- Names under any other row.
  named-apart :
      (p : Person) (people : List Person)
      → (is_named role name p ≡ true → p.id ≡ id)
      → p.id ≢ id
      → find_where (is_named p.role p.name) people ≡ none
      → All (λ (q : Person). q.id ≡ id → q.role ≡ role) people
      → find_where (is_named p.role p.name) (respelled people) ≡ none
  named-apart p people only ne h roles =
      All-find_where-none (is_named p.role p.name) (respelled people) (
        All-update_knowing (λ q. is_named p.role p.name q ≡ false)
          (λ (q : Person). q.id ≡ id → q.role ≡ role) (has_person id)
          (λ q. record q { name = name }) people
          (λ q t known k.
            respelled-apart id role name p q only ne (known ((nat_beq_iff q.id id).0 t)))
          roles (find_where-none-All (is_named p.role p.name) people h))

  pub respelled-DistinctPeople :
      (people : List Person)
      → IsFree id role name people
      → DistinctPeople people
      → DistinctPeople (respelled people)
  respelled-DistinctPeople [] f d = tt
  respelled-DistinctPeople (p ∷ people) f d =
      let free : IsFree id role name people = record { roles = f.roles.1; named = f.named.1 } in
      let rest = respelled-DistinctPeople people free d.2 in
      elim (Bool-cases (nat_beq p.id id)) [
        | inl t ↦
            let at_id = (nat_beq_iff p.id id).0 t in
            let names =
              named-at people (subst (λ i. find_where (has_person i) people ≡ none) at_id d.0)
                free in
            rw t (
              absent_id-respelled p.id people d.0,
              subst (λ r. find_where (is_named r name) (respelled people) ≡ none)
                  (sym (f.roles.0 at_id)) names,
              rest,
            )
        | inr t ↦ rw t (
          absent_id-respelled p.id people d.0,
          named-apart p people f.named.0 (ground (arith, nat_beq_iff p.id id)) d.1 f.roles.1,
          rest,
        )
      ]
