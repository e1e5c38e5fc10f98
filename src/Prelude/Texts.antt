-- ===== src/Prelude/Texts.antt =====
-- What the program uses of Go's `strings` package, on the bytes of a string.
use Prim.Native.Nat.{ℕ, ◌+◌}
use Prim.Native.Char.{code}
use Prim.Native.String.{String}
use mathlib.Core.Path.{◌≡◌, refl}
use mathlib.Core.Logic.{inl, inr}
use mathlib.Core.Bool.{Bool, true, false, ◌&&◌}
use mathlib.Core.List.{List, [], ◌∷◌, ◌++◌}
use native.Mathlib.Omega.{arith}
use web_bijin.Prelude.Tests.{Text, nat_beq, leb, if◌then◌else◌, Bool-cases}
use web_bijin.Prelude.Lists.{any_where}

-- The bytes of an ASCII literal.
abbrev pub codes : String → Text
codes String.[] = []
codes (String.◌∷◌ c s) = code c ∷ codes s

-- `strings.HasPrefix`, the text first.
unfoldable pub has_prefix : Text → Text → Bool
has_prefix s [] = true
has_prefix [] (p ∷ ps) = false
has_prefix (c ∷ s) (p ∷ ps) = nat_beq c p && has_prefix s ps

-- `strings.ContainsRune` for an ASCII rune.
abbrev pub contains_byte : ℕ → Text → Bool
contains_byte b = any_where (nat_beq b)

-- Puts a byte in front of the first part.
abbrev pub extend_head : ℕ → List Text → List Text
extend_head c [] = (c ∷ []) ∷ []
extend_head c (part ∷ parts) = (c ∷ part) ∷ parts

-- `strings.Split` by one byte: always at least one part.
unfoldable pub split_on : ℕ → Text → List Text
split_on b [] = [] ∷ []
split_on b (c ∷ s) =
    let rest = split_on b s in if nat_beq c b then [] ∷ rest else extend_head c rest

-- `strings.Join` by one byte.
unfoldable pub join_with : ℕ → List Text → Text
join_with b [] = []
join_with b (part ∷ []) = part
join_with b (part ∷ next ∷ parts) = part ++ (b ∷ join_with b (next ∷ parts))

abbrev pub lower_byte : ℕ → ℕ
lower_byte c = if leb b'A' c && leb c b'Z' then c + 32 else c

abbrev pub is_dotted_i : ℕ → ℕ → Bool
is_dotted_i c d = nat_beq c 0xc4 && nat_beq d 0xb0

abbrev pub is_kelvin : ℕ → ℕ → ℕ → Bool
is_kelvin c d e = nat_beq c 0xe2 && nat_beq d 0x84 && nat_beq e 0xaa

-- `strings.ToLower` as far as a comparison with ASCII text sees it: besides the ASCII capitals,
-- İ (two bytes) and the Kelvin sign (three) have ASCII lower cases.
unfoldable pub to_lower : Text → Text
to_lower [] = []
to_lower (c ∷ []) = lower_byte c ∷ []
to_lower (c ∷ d ∷ []) = if is_dotted_i c d then b'i' ∷ [] else lower_byte c ∷ to_lower (d ∷ [])
to_lower (c ∷ d ∷ e ∷ s) =
    let after_one = to_lower (d ∷ e ∷ s) in
    let after_two = to_lower (e ∷ s) in
    let after_three = to_lower s in
    if is_dotted_i c d
    then b'i' ∷ after_two
    else if is_kelvin c d e
    then b'k' ∷ after_three
    else lower_byte c ∷ after_one

-- `strings.ReplaceAll(s, b, "")` for one byte.
unfoldable pub remove_byte : ℕ → Text → Text
remove_byte b [] = []
remove_byte b (c ∷ s) = let rest = remove_byte b s in if nat_beq c b then rest else c ∷ rest

lower_jpg : to_lower (codes "a.JPG") ≡ codes "a.jpg"
unfolding to_lower
lower_jpg = refl

split_path : split_on b'/' (codes "a/b//") ≡ codes "a" ∷ codes "b" ∷ [] ∷ [] ∷ []
unfolding split_on
split_path = refl

join_with-extend_head :
    (b c : ℕ) (parts : List Text) → join_with b (extend_head c parts) ≡ c ∷ join_with b parts
unfolding join_with
join_with-extend_head b c [] = refl
join_with-extend_head b c (part ∷ []) = refl
join_with-extend_head b c (part ∷ next ∷ parts) = refl

extend_head-cons :
    (c : ℕ) (parts : List Text) → (h : Text) × (t : List Text) × (extend_head c parts ≡ h ∷ t)
extend_head-cons c [] = (c ∷ [], [], refl)
extend_head-cons c (part ∷ parts) = (c ∷ part, parts, refl)

-- There is always a first part.
pub split_on-cons : (b : ℕ) (s : Text) → (h : Text) × (t : List Text) × (split_on b s ≡ h ∷ t)
unfolding split_on
split_on-cons b [] = ([], [], refl)
split_on-cons b (c ∷ s) = elim (Bool-cases (nat_beq c b)) [
  | inl e ↦ ([], split_on b s, rw e)
  | inr e ↦ rw e (extend_head-cons c (split_on b s))
]

join_with-break :
    (b : ℕ) (parts : List Text) {h : Text} {t : List Text}
    → parts ≡ h ∷ t
    → join_with b ([] ∷ parts) ≡ b ∷ join_with b parts
unfolding join_with
join_with-break b [] e = absurd (cc)
join_with-break b (part ∷ parts) e = refl

-- A split is undone by the join.
pub join_with-split_on : (b : ℕ) (s : Text) → join_with b (split_on b s) ≡ s
unfolding split_on
join_with-split_on b [] = unfold join_with in refl
join_with-split_on b (c ∷ s) =
    let (h, t, e) = split_on-cons b s in
    ground (
      arith,
      join_with-break b (split_on b s) {h = h} {t = t} e,
      join_with-extend_head b c (split_on b s),
      join_with-split_on b s,
    )

pub has_prefix-append : (p s : Text) → has_prefix (p ++ s) p ≡ true
unfolding has_prefix
has_prefix-append [] s = refl
has_prefix-append (c ∷ p) s = ground (arith, has_prefix-append p s)
