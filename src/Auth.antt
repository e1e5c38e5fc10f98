-- ===== src/Auth.antt =====
-- auth.go and the code check of totp.go: the login gate with its lockout, and the return address.
-- SHA-256 and the code of a step are arguments. Times are nanoseconds since Go's zero time; the
-- clock is past 1970.
pub mod Lockout
pub mod Codes
pub mod Guesses
pub mod Addresses
mod Tests
use web_bijin.Prelude.{
  ℕ, ◌+◌, ◌-◌, ◌*◌, ◌/◌, Bool, true, false, not, ◌&&◌, ◌||◌, Option, none, some, List, [], ◌∷◌,
  Text, ltb, leb, if◌then◌else◌, text_eq, ◌==◌, nat_eq, text_beq, codes, find_where, delete_where,
  has_prefix, contains_byte, remove_byte,
}

abbrev pub second : ℕ
second = 1000000000

abbrev pub max_login_fails : ℕ
max_login_fails = 5

abbrev pub login_lockout : ℕ
login_lockout = 900 * second

abbrev pub code_step : ℕ
code_step = 30

-- `loginFails` under its address.
pub record LoginFails : Type 0 where
  pub ip : Text
  pub n : ℕ
  pub last : ℕ

pub data LoginResult : Type 0 where
  login_ok login_wrong login_locked : LoginResult

-- What of `authGate` changes; `fails` is the map.
pub record Gate : Type 0 where
  pub last_step : ℕ
  pub fails : List LoginFails

-- `authGate`'s settings; `two_step` tells that there is a secret.
pub record Settings : Type 0 where
  pub user : Text
  pub pass : Text
  pub two_step : Bool

unfoldable pub has_ip : Text → LoginFails → Bool
unfolding text_beq
has_ip ip f = f.ip == ip

abbrev pub no_fails : Text → LoginFails
no_fails ip = record { ip = ip; n = 0; last = 0 }

-- `g.fails[ip]`, with the zero value of a missing key.
unfoldable pub fails_of : Text → List LoginFails → LoginFails
unfolding has_ip
fails_of ip fails = elim (find_where (has_ip ip) fails) [ none ↦ no_fails ip | some f ↦ f ]

-- `now.Sub(f.last) >= loginLockout`.
abbrev pub is_stale : ℕ → LoginFails → Bool
is_stale now f = leb login_lockout (now - f.last)

abbrev pub current_fails : ℕ → LoginFails → LoginFails
current_fails now f = if is_stale now f then no_fails f.ip else f

unfoldable pub drop_fails : Text → List LoginFails → List LoginFails
unfolding has_ip
drop_fails ip = delete_where (has_ip ip)

-- A miss: the count of the address, and the loop that forgets old ones.
unfoldable pub note_miss : Text → ℕ → ℕ → List LoginFails → List LoginFails
unfolding drop_fails
note_miss ip n now fails =
    delete_where (is_stale now) (record { ip = ip; n = n + 1; last = now } ∷ drop_fails ip fails)

-- `now.Unix()`
abbrev pub unix : ℕ → ℕ
unix now = now / second - 62135596800

-- `sha` is SHA-256; `step_code` is `stepCode` with the secret.
module _ (sha : Text → Text) (step_code : ℕ → Text) (set : Settings) where
  -- `check`.
  unfoldable pub check : Text → Text → Bool
  unfolding text_beq
  check user pass = sha user == sha set.user && sha pass == sha set.pass

  -- `codeStepAt`: the loop keeps the last step that matches.
  unfoldable pub code_step_at : Text → ℕ → ℕ × Bool
  unfolding text_beq remove_byte
  code_step_at code now =
      let given = remove_byte b' ' code in
      let t = unix now / code_step in
      if step_code (t + 1) == given
      then (t + 1, true)
      else if step_code t == given
      then (t, true)
      else if step_code (t - 1) == given
      then (t - 1, true)
      else (0, false)

  -- `step` and `ok` of one attempt.
  unfoldable pub judge : Text → Text → Text → ℕ → ℕ → ℕ × Bool
  unfolding check code_step_at
  judge user pass code now last_step =
      if set.two_step
      then (
        (code_step_at code now).0,
        check user pass && ((code_step_at code now).1 && ltb last_step (code_step_at code now).0),
      )
      else (0, check user pass)

  -- `attempt`.
  unfoldable pub attempt : Text → Text → Text → Text → ℕ → Gate → LoginResult × Gate
  unfolding fails_of drop_fails note_miss judge
  attempt ip user pass code now g =
      let f = current_fails now (fails_of ip g.fails) in
      let (step, ok) = judge user pass code now g.last_step in
      if leb max_login_fails f.n
      then (login_locked, g)
      else if not ok
      then (login_wrong, record g { fails = note_miss ip f.n now g.fails })
      else (
        login_ok,
        record {
          last_step = if ltb 0 step then step else g.last_step;
          fails = drop_fails ip g.fails;
        },
      )

-- `lockedFor`.
unfoldable pub locked_for : Text → ℕ → Gate → ℕ
unfolding fails_of
locked_for ip now g = login_lockout + (fails_of ip g.fails).last - now

-- A control character in UTF-8: below 32, 127, or U+0080 to U+009F in two bytes.
unfoldable pub has_control : Text → Bool
has_control [] = false
has_control (c ∷ []) = ltb c 32 || c == 127
has_control (c ∷ d ∷ s) =
    ltb c 32 || c == 127 || (c == 194 && leb 128 d && leb d 159) || has_control (d ∷ s)

-- `safeNext`.
unfoldable pub leaves_site : Text → Bool
unfolding has_control has_prefix
leaves_site v =
    not (has_prefix v (codes "/"))
    || has_prefix v (codes "//")
    || has_prefix v (codes "/login")
    || contains_byte b'\\' v
    || has_control v

unfoldable pub safe_next : Text → Text
unfolding leaves_site
safe_next v = if leaves_site v then codes "/" else v
