-- ===== src/Auth/Lockout.antt =====
-- The lockout of auth.go: what one attempt does to the counts, and how often one can guess.
use web_bijin.Prelude.{
  ℕ, ◌+◌, ◌≤◌, ◌<◌, ◌≡◌, refl, inl, inr, Bool, true, false, none, List, [], ◌∷◌, Text, arith,
  nat_eq, text_eq, text_beq_iff, text_beq_refl, Bool-cases, leb, find_where, delete_where, subst,
  find_where-delete_self, find_where-delete_ne, ◌∙◌,
}
use web_bijin.Auth.{
  LoginFails, LoginResult, login_ok, login_wrong, login_locked, Gate, Settings, has_ip, fails_of,
  no_fails, is_stale, current_fails, drop_fails, note_miss, judge, attempt, login_lockout,
  max_login_fails,
}

-- The misses in a row that count against an address.
abbrev pub misses : Text → ℕ → Gate → ℕ
misses ip now g = (current_fails now (fails_of ip g.fails)).n

no_misses : (ip : Text) (now : ℕ) → (current_fails now (no_fails ip)).n ≡ 0
no_misses ip now = ground arith

same-ip : (ip : Text) (f : LoginFails) → has_ip ip f ≡ true → f.ip ≡ ip
unfolding has_ip
same-ip ip f e = (text_beq_iff f.ip ip).0 e

-- A map has one entry per key.
abbrev pub DistinctFails : List LoginFails → Type 0
DistinctFails [] = Unit {0}
DistinctFails (f ∷ fails) = (find_where (has_ip f.ip) fails ≡ none) × DistinctFails fails

delete-absent :
    (ip : Text) (p : LoginFails → Bool) (fails : List LoginFails)
    → find_where (has_ip ip) fails ≡ none
    → find_where (has_ip ip) (delete_where p fails) ≡ none
delete-absent ip p [] e = refl
delete-absent ip p (f ∷ fails) e = ground (arith, delete-absent ip p fails)

DistinctFails-delete :
    (p : LoginFails → Bool) (fails : List LoginFails)
    → DistinctFails fails
    → DistinctFails (delete_where p fails)
DistinctFails-delete p [] d = tt
DistinctFails-delete p (f ∷ fails) d =
    ground (arith, delete-absent f.ip p fails d.0, DistinctFails-delete p fails d.1)

-- Forgetting entries that are old changes no count, now and later.
forget-misses :
    (ip : Text) (now later : ℕ) (fails : List LoginFails)
    → now ≤ later
    → DistinctFails fails
    → (current_fails later (fails_of ip (delete_where (is_stale now) fails))).n
      ≡ (current_fails later (fails_of ip fails)).n
unfolding fails_of
forget-misses ip now later [] h d = refl
forget-misses ip now later (f ∷ fails) h d = elim (Bool-cases (has_ip ip f)) [
  | inr other ↦ ground (arith, forget-misses ip now later fails h d.1)
  | inl same ↦ elim (Bool-cases (is_stale now f)) [
    | inr fresh ↦ rw (fresh, same, fails_of)
    | inl stale ↦
        let at : find_where (has_ip ip) fails ≡ none =
          subst (λ i. find_where (has_ip i) fails ≡ none) (same-ip ip f same) d.0 in
        let gone = delete-absent ip (is_stale now) fails at in
        rw (stale, same, gone, fails_of) (ground arith)
  ]
]

drop_fails-own :
    (ip : Text) (fails : List LoginFails) → find_where (has_ip ip) (drop_fails ip fails) ≡ none
unfolding drop_fails
drop_fails-own ip fails = find_where-delete_self (has_ip ip) fails

drop_fails-other :
    (ip other : Text) (fails : List LoginFails)
    → has_ip other (no_fails ip) ≡ false
    → find_where (has_ip other) (drop_fails ip fails) ≡ find_where (has_ip other) fails
unfolding drop_fails has_ip
drop_fails-other ip other fails ne =
    find_where-delete_ne (has_ip other) (has_ip ip) fails
      (λ f h. ground (arith, text_beq_iff f.ip ip, text_beq_iff f.ip other, text_beq_iff ip other))

-- The map after a miss.
abbrev missed : Text → ℕ → ℕ → LoginFails
missed ip n now = record { ip = ip; n = n + 1; last = now }

missed-Distinct :
    (ip : Text) (n now : ℕ) (fails : List LoginFails)
    → DistinctFails fails
    → DistinctFails (missed ip n now ∷ drop_fails ip fails)
unfolding drop_fails
missed-Distinct ip n now fails d =
    (find_where-delete_self (has_ip ip) fails, DistinctFails-delete (has_ip ip) fails d)

note_miss-Distinct :
    (ip : Text) (n now : ℕ) (fails : List LoginFails)
    → DistinctFails fails
    → DistinctFails (note_miss ip n now fails)
unfolding note_miss
note_miss-Distinct ip n now fails d =
    DistinctFails-delete (is_stale now) (missed ip n now ∷ drop_fails ip fails)
      (missed-Distinct ip n now fails d)

-- The count of the address that missed, while the miss is not old.
note_miss-own :
    (ip : Text) (n now later : ℕ) (fails : List LoginFails)
    → DistinctFails fails
    → now ≤ later
    → (current_fails later (fails_of ip (note_miss ip n now fails))).n
      ≡ (current_fails later (missed ip n now)).n
unfolding note_miss fails_of has_ip
note_miss-own ip n now later fails d h =
    forget-misses ip now later (missed ip n now ∷ drop_fails ip fails) h
      (missed-Distinct ip n now fails d)
    ∙ own
  where
    own :
        (current_fails later (fails_of ip (missed ip n now ∷ drop_fails ip fails))).n
        ≡ (current_fails later (missed ip n now)).n
    own = rw (text_beq_refl ip, fails_of)

note_miss-other :
    (ip other : Text) (n now later : ℕ) (fails : List LoginFails)
    → DistinctFails fails
    → now ≤ later
    → has_ip other (no_fails ip) ≡ false
    → (current_fails later (fails_of other (note_miss ip n now fails))).n
      ≡ (current_fails later (fails_of other fails)).n
unfolding note_miss fails_of has_ip
note_miss-other ip other n now later fails d h ne =
    forget-misses other now later (missed ip n now ∷ drop_fails ip fails) h
      (missed-Distinct ip n now fails d)
    ∙ spared
  where
    spared :
        (current_fails later (fails_of other (missed ip n now ∷ drop_fails ip fails))).n
        ≡ (current_fails later (fails_of other fails)).n
    spared = ground (arith, ne, drop_fails-other ip other fails ne)

module _ (sha : Text → Text) (step_code : ℕ → Text) (set : Settings) where
  pub attempt-Distinct :
      (ip user pass code : Text) (now : ℕ) (g : Gate)
      → DistinctFails g.fails
      → DistinctFails (attempt sha step_code set ip user pass code now g).1.fails
  unfolding attempt drop_fails
  attempt-Distinct ip user pass code now g d = ground (
    arith,
    note_miss-Distinct ip (misses ip now g) now g.fails d,
    DistinctFails-delete (has_ip ip) g.fails d,
  )

  -- What an answer means for the count of its address.
  abbrev pub Outcome : LoginResult → Text → ℕ → Gate → Gate → Type 0
  Outcome login_locked ip now g after = (after ≡ g) × (max_login_fails ≤ misses ip now g)
  Outcome login_wrong ip now g after =
      (misses ip now after ≡ misses ip now g + 1) × (misses ip now after ≤ max_login_fails)
  Outcome login_ok ip now g after = (misses ip now after ≡ 0) × (misses ip now g < max_login_fails)

  -- Each answer of the login gate counts as it should: a locked address has at least five misses
  -- and leaves the gate as it was, a wrong login adds one miss to its address, five at most, and a
  -- right login, which a locked address cannot have, clears the count.
  pub attempt-Outcome :
      (ip user pass code : Text) (now : ℕ) (g : Gate)
      → DistinctFails g.fails
      → let (answer, after) = attempt sha step_code set ip user pass code now g in
        Outcome answer ip now g after
  unfolding attempt fails_of
  attempt-Outcome ip user pass code now g d =
      let own = note_miss-own ip (misses ip now g) now now g.fails d (omega arith) in
      let clear = drop_fails-own ip g.fails in
      elim (Bool-cases (leb max_login_fails (misses ip now g))) [
        | inl e ↦ rw (e, attempt) (refl, ground arith)
        | inr e ↦ elim (Bool-cases (judge sha step_code set user pass code now g.last_step).1) [
          | inr f ↦ rw (e, f, attempt) (ground (arith, own), ground (arith, own))
          | inl f ↦ rw (e, f, attempt) (ground (arith, clear), ground arith)
        ]
      ]

  -- A wrong login counts for a quarter of an hour.
  pub wrong-lasts :
      (ip user pass code : Text) (now later : ℕ) (g : Gate)
      → DistinctFails g.fails
      → (attempt sha step_code set ip user pass code now g).0 ≡ login_wrong
      → now ≤ later
      → later < now + login_lockout
      → misses ip later (attempt sha step_code set ip user pass code now g).1 ≡ misses ip now g + 1
  unfolding attempt
  wrong-lasts ip user pass code now later g d wrong h k =
      let own = note_miss-own ip (misses ip now g) now later g.fails d h in
      elim (Bool-cases (leb max_login_fails (misses ip now g))) [
        | inl e ↦ absurd (ground (arith, e, wrong))
        | inr e ↦ elim (Bool-cases (judge sha step_code set user pass code now g.last_step).1) [
          | inr f ↦ rw (e, f, attempt) (own ∙ ground arith)
          | inl f ↦ absurd (ground (arith, e, f, wrong))
        ]
      ]

  -- An attempt from one address, whatever its answer, changes the count of no other address, now or
  -- later: nobody can lock another visitor out or clear another's misses.
  pub attempt-others :
      (ip other user pass code : Text) (now later : ℕ) (g : Gate)
      → DistinctFails g.fails
      → has_ip other (no_fails ip) ≡ false
      → now ≤ later
      → misses other later (attempt sha step_code set ip user pass code now g).1
        ≡ misses other later g
  unfolding attempt fails_of
  attempt-others ip other user pass code now later g d ne h = ground (
    arith,
    note_miss-other ip other (misses ip now g) now later g.fails d h ne,
    drop_fails-other ip other g.fails ne,
  )
