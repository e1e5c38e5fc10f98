-- ===== src/Auth/Codes.antt =====
-- The one-time codes of auth.go and totp.go over any sequence of attempts.
use web_bijin.Prelude.{ℕ, ◌≤◌, ◌<◌, ◌≡◌, ◌≢◌, true, Text, arith}
use web_bijin.Auth.{login_ok, Gate, Settings, code_step_at, judge, attempt}

module _ (sha : Text → Text) (step_code : ℕ → Text) (set : Settings) where
  -- One more attempt of anyone.
  pub data Reach (g : Gate) : Gate → Type 0 where
    here : Reach g g
    next :
        {h : Gate} (ip user pass code : Text) (now : ℕ)
        → Reach g h
        → Reach g (attempt sha step_code set ip user pass code now h).1

  -- The accepted step never falls.
  attempt-last_step :
      (ip user pass code : Text) (now : ℕ) (g : Gate)
      → set.two_step ≡ true
      → g.last_step ≤ (attempt sha step_code set ip user pass code now g).1.last_step
  unfolding attempt judge
  attempt-last_step ip user pass code now g on = ground (arith, on)

  Reach-last_step : {g h : Gate} → set.two_step ≡ true → Reach g h → g.last_step ≤ h.last_step
  Reach-last_step on here = omega arith
  Reach-last_step on (next {h} ip user pass code now r) =
      omega (arith, Reach-last_step on r, attempt-last_step ip user pass code now h on)

  -- A login that is right used a step that is newer than every one before.
  accepted-step :
      (ip user pass code : Text) (now : ℕ) (g : Gate)
      → set.two_step ≡ true
      → (attempt sha step_code set ip user pass code now g).0 ≡ login_ok
      → (g.last_step < (code_step_at sha step_code set code now).0)
        × ((attempt sha step_code set ip user pass code now g).1.last_step
            ≡ (code_step_at sha step_code set code now).0)
  unfolding attempt judge
  accepted-step ip user pass code now g on ok = ground (arith, on, ok)

  -- Let a code be accepted with two-step on. However many attempts of anyone follow, no login that
  -- uses a step up to the accepted one is right again: each code works once.
  pub replayed_code_refused :
      (ip user pass code : Text) (now : ℕ) (g : Gate) {h : Gate}
      → set.two_step ≡ true
      → (attempt sha step_code set ip user pass code now g).0 ≡ login_ok
      → Reach (attempt sha step_code set ip user pass code now g).1 h
      → (ip' user' pass' code' : Text) (now' : ℕ)
      → (code_step_at sha step_code set code' now').0 ≤ (code_step_at sha step_code set code now).0
      → (attempt sha step_code set ip' user' pass' code' now' h).0 ≢ login_ok
  replayed_code_refused ip user pass code now g {h} on ok r ip' user' pass' code' now' old again =
      omega (
        arith,
        (accepted-step ip user pass code now g on ok).1,
        Reach-last_step on r,
        (accepted-step ip' user' pass' code' now' h on again).0,
      )
