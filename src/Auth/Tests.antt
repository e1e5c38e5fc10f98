-- ===== src/Auth/Tests.antt =====
-- The login gate with a hash that keeps the text, and codes that are the step's last digit.
use web_bijin.Prelude.{
  ℕ, ◌+◌, ◌*◌, ◌%◌, ◌≤◌, ◌≡◌, ◌≢◌, refl, true, false, List, [], ◌∷◌, Text, codes, arith, text_beq,
  remove_byte,
}
use web_bijin.Auth.{
  LoginResult, login_ok, login_wrong, login_locked, Gate, Settings, attempt, check, judge,
  code_step_at, fails_of, has_ip, drop_fails, note_miss, second, login_lockout, safe_next,
  leaves_site,
}
use web_bijin.Auth.Lockout.{misses, Outcome, attempt-Outcome, attempt-others}
use web_bijin.Auth.Guesses.{Login, wrong_logins, wrong_logins-bound}
use web_bijin.Auth.Codes.{here, replayed_code_refused}
use web_bijin.Auth.Addresses.{IsLocal, safe_next-IsLocal}

program : Unit {0}
unfolding attempt check judge code_step_at fails_of has_ip drop_fails note_miss safe_next
    leaves_site text_beq remove_byte wrong_logins
program = tt

abbrev keep_text : Text → Text
keep_text s = s

abbrev digit_code : ℕ → Text
digit_code step = (48 + step % 10) ∷ []

abbrev site : Settings
site = record { user = codes "u"; pass = codes "p"; two_step = true }

abbrev fresh_gate : Gate
fresh_gate = record { last_step = 0; fails = [] }

abbrev home : Text
home = codes "1.2.3.4"

-- Ten steps after 1970 and the zero time before it.
abbrev noon : ℕ
noon = (62135596800 + 300) * second

abbrev try_with : Text → Text → ℕ → Gate → LoginResult × Gate
try_with pass code = attempt keep_text digit_code site home (codes "u") pass code

abbrev attacks : List Login
attacks =
    record { from_ip = home; user = codes "u"; pass = codes "x"; code = codes "0"; at = noon }
    ∷ record {
      from_ip = codes "5.6.7.8";
      user = codes "u";
      pass = codes "x";
      code = codes "0";
      at = noon;
    }
    ∷ record { from_ip = home; user = codes "u"; pass = codes "y"; code = codes "0"; at = noon + 1 }
    ∷ []

attempt_tests :
    ((try_with (codes "p") (codes "0") noon fresh_gate).0 ≡ login_ok)
    × ((try_with (codes "x") (codes "0") noon fresh_gate).0 ≡ login_wrong)
    × ((try_with (codes "p") (codes "0") noon fresh_gate).1.last_step ≡ 10)
    × ((try_with
          (codes "p")
          (codes "0")
          noon
          (record { last_step = 0; fails = record { ip = home; n = 5; last = noon } ∷ [] })).0
        ≡ login_locked)
    × (wrong_logins keep_text digit_code site home attacks fresh_gate ≡ 2)
unfolding program
attempt_tests = (refl, refl, refl, refl, refl)

attempt-Outcome_example :
    Outcome keep_text digit_code site
      (try_with (codes "x") (codes "0") noon fresh_gate).0
      home
      noon
      fresh_gate
      (try_with (codes "x") (codes "0") noon fresh_gate).1
attempt-Outcome_example =
    attempt-Outcome keep_text digit_code site home (codes "u") (codes "x") (codes "0") noon
      fresh_gate tt

attempt-others_example :
    misses (codes "5.6.7.8") (noon + 3) (try_with (codes "x") (codes "0") noon fresh_gate).1
    ≡ misses (codes "5.6.7.8") (noon + 3) fresh_gate
unfolding program
attempt-others_example =
    attempt-others keep_text digit_code site home (codes "5.6.7.8") (codes "u") (codes "x")
      (codes "0") noon (noon + 3) fresh_gate tt refl (omega arith)

wrong_logins-bound_example : wrong_logins keep_text digit_code site home attacks fresh_gate ≤ 5
wrong_logins-bound_example =
    wrong_logins-bound keep_text digit_code site home attacks noon (noon + login_lockout) fresh_gate
      (omega arith, omega arith, (omega arith, omega arith, (omega arith, omega arith, tt)))
      (omega arith) tt

replayed_code_refused_example :
    (try_with
      (codes "p")
      (codes "0")
      (noon + 5)
      (try_with (codes "p") (codes "0") noon fresh_gate).1).0
    ≢ login_ok
unfolding program
replayed_code_refused_example =
    replayed_code_refused keep_text digit_code site home (codes "u") (codes "p") (codes "0") noon
      fresh_gate refl refl here home (codes "u") (codes "p") (codes "0") (noon + 5) (omega arith)

safe_next-IsLocal_example :
    IsLocal (safe_next (codes "//evil"))
    × (leaves_site (codes "//evil") ≡ false → safe_next (codes "//evil") ≡ codes "//evil")
safe_next-IsLocal_example = safe_next-IsLocal (codes "//evil")
