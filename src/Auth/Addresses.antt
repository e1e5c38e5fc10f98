-- ===== src/Auth/Addresses.antt =====
-- `safeNext` of auth.go: the address after a login is on this site.
use web_bijin.Prelude.{
  ℕ, ◌<◌, ◌≤◌, [], ◌∷◌, ◌≡◌, refl, inl, inr, true, false, Text, arith, Bool-cases, codes,
  has_prefix, contains_byte,
}
use web_bijin.Auth.{has_control, leaves_site, safe_next}

-- No two bytes in a row are U+0080 to U+009F in UTF-8.
abbrev pub NoC1 : Text → Type 0
NoC1 [] = Unit {0}
NoC1 (c ∷ []) = Unit {0}
NoC1 (c ∷ d ∷ s) = ((c ≡ 194) → 128 ≤ d → 159 < d) × NoC1 (d ∷ s)

control-low : (v : Text) → has_control v ≡ false → (c : ℕ) → c < 32 → contains_byte c v ≡ false
unfolding has_control
control-low [] h c l = refl
control-low (a ∷ []) h c l = ground arith
control-low (a ∷ b ∷ s) h c l =
    let later = control-low (b ∷ s) (ground arith) c l in ground (arith, later)

control-delete : (v : Text) → has_control v ≡ false → contains_byte 127 v ≡ false
unfolding has_control
control-delete [] h = refl
control-delete (a ∷ []) h = ground arith
control-delete (a ∷ b ∷ s) h = ground (arith, control-delete (b ∷ s))

control-NoC1 : (v : Text) → has_control v ≡ false → NoC1 v
unfolding has_control
control-NoC1 [] h = tt
control-NoC1 (a ∷ []) h = tt
control-NoC1 (a ∷ b ∷ s) h = (λ e l. ground arith, control-NoC1 (b ∷ s) (ground arith))

-- An address of this site: a path from its root that no browser reads as another host's, with no
-- backslash and no control character, and not the login page.
pub record IsLocal (v : Text) : Type 0 where
  pub rooted : has_prefix v (codes "/") ≡ true
  pub no_host : has_prefix v (codes "//") ≡ false
  pub no_login : has_prefix v (codes "/login") ≡ false
  pub no_backslash : contains_byte b'\\' v ≡ false
  pub no_low : (c : ℕ) → c < 32 → contains_byte c v ≡ false
  pub no_delete : contains_byte 127 v ≡ false
  pub no_c1 : NoC1 v

-- Whatever address a visitor brings, the login sends the browser to a path from this site's root that
-- does not start with two slashes or with the login page's path and has no backslash and no control
-- character; and an address that passes is kept as it is.
pub safe_next-IsLocal :
    (v : Text) → IsLocal (safe_next v) × (leaves_site v ≡ false → safe_next v ≡ v)
unfolding safe_next leaves_site has_prefix
safe_next-IsLocal v = elim (Bool-cases (leaves_site v)) [
  | inl e ↦ (
    rw (e, safe_next)
        (record {
          rooted = refl;
          no_host = refl;
          no_login = refl;
          no_backslash = refl;
          no_low = λ c l. ground arith;
          no_delete = refl;
          no_c1 = tt;
        }),
    λ h. absurd (ground (arith, e, h)),
  )
  | inr e ↦ (
    rw (e, safe_next)
        (record {
          rooted = ground arith;
          no_host = ground arith;
          no_login = ground arith;
          no_backslash = ground arith;
          no_low = control-low v (ground arith);
          no_delete = control-delete v (ground arith);
          no_c1 = control-NoC1 v (ground arith);
        }),
    λ h. rw (e, safe_next),
  )
]
