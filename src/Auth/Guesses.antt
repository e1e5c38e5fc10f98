-- ===== src/Auth/Guesses.antt =====
-- How many logins one address can get wrong in a quarter of an hour.
use web_bijin.Prelude.{
  inl, inr, Bool-cases, not, ◌==◌, if◌then◌else◌, text_eq, text_beq, text_beq_iff, ap, ℕ, ◌+◌, ◌≤◌,
  ◌<◌, ◌≡◌, refl, List, [], ◌∷◌, Text, arith, subst, sym,
}
use web_bijin.Auth.{
  LoginResult, login_ok, login_wrong, login_locked, Gate, Settings, has_ip, attempt, login_lockout,
  max_login_fails,
}
use web_bijin.Auth.Lockout.{
  misses, DistinctFails, Outcome, attempt-others, attempt-Distinct, attempt-Outcome, wrong-lasts,
}

-- An attempt from an address.
pub record Login : Type 0 where
  pub from_ip : Text
  pub user : Text
  pub pass : Text
  pub code : Text
  pub at : ℕ

module _ (sha : Text → Text) (step_code : ℕ → Text) (set : Settings) (ip : Text) where
  -- The answers to this address that looked at the password and found the login wrong, up to its first
  -- right one. The attempts of the other addresses go through the same gate.
  unfoldable pub wrong_logins : List Login → Gate → ℕ
  unfolding attempt text_beq
  wrong_logins [] g = 0
  wrong_logins (l ∷ logins) g =
      let (answer, after) = attempt sha step_code set l.from_ip l.user l.pass l.code l.at g in
      let rest = wrong_logins logins after in
      if not (l.from_ip == ip)
      then rest
      else elim answer [ login_ok ↦ 0 | login_wrong ↦ rest + 1 | login_locked ↦ rest ]

  -- Logins in the order of the clock, from one time and before another.
  abbrev pub Within : ℕ → ℕ → List Login → Type 0
  Within from until [] = Unit {0}
  Within from until (l ∷ logins) = (from ≤ l.at) × (l.at < until) × Within l.at until logins

  abbrev Kept : ℕ → ℕ → ℕ → Gate → Type 0
  Kept from until n g = (t : ℕ) → from ≤ t → t < until → n ≤ misses ip t g

  -- The bound on what is still to come.
  abbrev Remaining : List Login → ℕ → ℕ → Gate → Type 0
  Remaining logins from until g =
      (m : ℕ)
      → m ≤ max_login_fails
      → Kept from until m g
      → wrong_logins logins g + m ≤ max_login_fails

  -- The count from an attempt of the address on.
  abbrev counted_from : List Login → LoginResult × Gate → ℕ
  counted_from logins y = elim y.0 [
    | login_ok ↦ 0
    | login_wrong ↦ wrong_logins logins y.1 + 1
    | login_locked ↦ wrong_logins logins y.1
  ]

  own_attempt :
      (l : Login) (logins : List Login) (until n : ℕ) (g : Gate)
      → l.at < until
      → until ≤ l.at + login_lockout
      → DistinctFails g.fails
      → n ≤ max_login_fails
      → Kept l.at until n g
      → Remaining logins l.at until (attempt sha step_code set ip l.user l.pass l.code l.at g).1
      → counted_from logins (attempt sha step_code set ip l.user l.pass l.code l.at g) + n
        ≤ max_login_fails
  own_attempt l logins until n g early h d small kept left =
      go (attempt sha step_code set ip l.user l.pass l.code l.at g) refl left
        (attempt-Outcome sha step_code set ip l.user l.pass l.code l.at g d)
    where
      counted : n ≤ misses ip l.at g
      counted = kept l.at (omega arith) early

      go :
          (y : LoginResult × Gate)
          → attempt sha step_code set ip l.user l.pass l.code l.at g ≡ y
          → Remaining logins l.at until y.1
          → Outcome sha step_code set y.0 ip l.at g y.1
          → counted_from logins y + n ≤ max_login_fails
      go (login_ok, after) e left o = omega (arith, small)
      go (login_locked, after) e left o =
          left n small (λ t a b. subst (λ k. n ≤ misses ip t k) (sym o.0) (kept t a b))
      go (login_wrong, after) e left o = omega (
        arith,
        left (n + 1) (omega (arith, counted, o.0, o.1)) (λ t a b. omega (
          arith,
          subst (λ (y : LoginResult × Gate). misses ip t y.1 ≡ misses ip l.at g + 1) e
              (wrong-lasts sha step_code set ip l.user l.pass l.code l.at t g d
                (ap (λ (y : LoginResult × Gate). y.0) e) a (omega (arith, h, b))),
          counted,
        )),
      )

  -- The misses of the window that were counted before, and those to come.
  wrong_logins-left :
      (logins : List Login) (from until n : ℕ) (g : Gate)
      → Within from until logins
      → until ≤ from + login_lockout
      → DistinctFails g.fails
      → n ≤ max_login_fails
      → Kept from until n g
      → wrong_logins logins g + n ≤ max_login_fails
  unfolding wrong_logins has_ip
  wrong_logins-left [] from until n g w h d small kept = omega (arith, small)
  wrong_logins-left (l ∷ logins) from until n g w h d small kept =
      let later : Remaining logins l.at until
          (attempt sha step_code set l.from_ip l.user l.pass l.code l.at g).1 =
        λ m.
          wrong_logins-left logins l.at until m
            (attempt sha step_code set l.from_ip l.user l.pass l.code l.at g).1 w.2
            (omega (arith, w.0, h))
            (attempt-Distinct sha step_code set l.from_ip l.user l.pass l.code l.at g d) in
      elim (Bool-cases (text_beq l.from_ip ip)) [
        | inr other ↦ rw other (
            later n small (λ t a b.
              subst (λ k. n ≤ k)
                (sym (
                  attempt-others sha step_code set l.from_ip ip l.user l.pass l.code l.at t g d
                    other a))
                (kept t (omega (arith, w.0, a)) b)))
        | inl own ↦ rw own (
            subst
              (λ i.
                Remaining logins l.at until
                  (attempt sha step_code set i l.user l.pass l.code l.at g).1
                → counted_from logins (attempt sha step_code set i l.user l.pass l.code l.at g) + n
                  ≤ max_login_fails)
              (sym ((text_beq_iff l.from_ip ip).0 own))
              (own_attempt l logins until n g w.1 (omega (arith, w.0, h)) d small
                (λ t a b. kept t (omega (arith, w.0, a)) b))
              later)
      ]

  -- In any quarter of an hour one address has at most five logins looked at and found wrong
  -- before a right one, whatever the gate held before, whatever is tried, and whatever other
  -- addresses try in between.
  pub wrong_logins-bound :
      (logins : List Login) (from until : ℕ) (g : Gate)
      → Within from until logins
      → until ≤ from + login_lockout
      → DistinctFails g.fails
      → wrong_logins logins g ≤ max_login_fails
  wrong_logins-bound logins from until g w h d =
      omega
        (arith, wrong_logins-left logins from until 0 g w h d (omega arith) (λ t a b. omega arith))
