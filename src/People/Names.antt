-- ===== src/People/Names.antt =====
-- The names of persons: `cleanPersonName` of organize.go. A name is the list of its runes: the
-- decoder of JSON makes every string valid UTF-8. Unicode's normal form NFC is an argument.
use web_bijin.Prelude.{
  ℕ, ◌∷◌, Bool, ◌&&◌, ◌||◌, List, [], Text, if◌then◌else◌, text_eq, ◌==◌, text_beq, leb, ltb,
  nat_beq, length, any_where, join_with, ◌++◌, not, true, false,
}

abbrev pub max_person_name : ℕ
max_person_name = 40

-- `unicode.IsSpace`
abbrev pub is_space : ℕ → Bool
is_space r =
    (leb 9 r && leb r 13)
    || nat_beq r 0x20
    || nat_beq r 0x85
    || nat_beq r 0xa0
    || nat_beq r 0x1680
    || (leb 0x2000 r && leb r 0x200a)
    || nat_beq r 0x2028
    || nat_beq r 0x2029
    || nat_beq r 0x202f
    || nat_beq r 0x205f
    || nat_beq r 0x3000

-- `unicode.IsControl`
abbrev pub is_control : ℕ → Bool
is_control r = ltb r 0x20 || (leb 0x7f r && leb r 0x9f)

-- The fields of a text, where this one has begun already.
abbrev pub fields_from : Text → Text → List Text
fields_from field [] = if field == [] then [] else field ∷ []
fields_from field (r ∷ text) =
    let apart = fields_from [] text in
    let on = fields_from (field ++ (r ∷ [])) text in
    if is_space r then (if field == [] then apart else field ∷ apart) else on

-- `strings.Fields`
unfoldable pub fields : Text → List Text
unfolding text_beq
fields text = fields_from [] text

-- The errors that the page shows, and `errPersonNotFound` and `errOrganizeReceiptExpired`.
pub data Refusal : Type 0 where
  bad_operation_id bad_clock changed_content receipt_expired : Refusal
  nothing_to_change bad_album_count unknown_album too_many_models : Refusal
  name_empty name_too_long name_control : Refusal
  unknown_kind person_not_found : Refusal

pub data Result {ℓ} (A : Type ℓ) : Type ℓ where
  ok : A → Result A
  refused : Refusal → Result A

infixl 5 ◌>>=◌ ◌>>◌
abbrev pub ◌>>=◌ {ℓ κ} : {A : Type ℓ} {B : Type κ} → Result A → (A → Result B) → Result B
ok a >>= f = f a
refused e >>= f = refused e

abbrev pub ◌>>◌ {ℓ} : {B : Type ℓ} → Result (Unit {0}) → Result B → Result B
m >> k = m >>= λ _. k

-- `if b { return …, err }`
abbrev pub refuse_if : Bool → Refusal → Result (Unit {0})
refuse_if true e = refused e
refuse_if false e = ok tt

-- `cleanPersonName`
unfoldable pub clean_person_name : (Text → Text) → Text → Result Text
unfolding fields text_beq join_with
clean_person_name nfc raw =
    let name = nfc (join_with 0x20 (fields raw)) in
    do
      refuse_if (name == []) name_empty
      refuse_if (ltb max_person_name (length name)) name_too_long
      refuse_if (any_where is_control name) name_control
      ok name

-- `strings.TrimSpace(…) != ""`
abbrev pub has_text : Text → Bool
has_text = any_where (λ r. not (is_space r))
