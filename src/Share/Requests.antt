-- ===== src/Share/Requests.antt =====
-- The requests of sharing.go keep the tables sound.
use web_bijin.Prelude.{ℕ, refl, inl, inr, Text, Bool-cases, Option-cases}
use web_bijin.Store.{Photo, Share, Store}
use web_bijin.Share.{is_active, share_for_photo, share_for_token}
use web_bijin.Share.Media.{
  source_gone, other_failure, Answer, answered, wrong, ShareSnapshot, SourceCheck, source_unknown,
  source_current, source_changed, checked_share, get_share, asked_for, create_share, is_other,
  serve,
}
use web_bijin.Share.Permits.{IsSound}
use web_bijin.Share.Issued.{retire_share-IsSound, save_share-IsSound}

checked-IsSound :
    (check : SourceCheck) (token : Text) (id : ℕ) (s : Store)
    → IsSound s
    → IsSound (checked_share check token id s).1
unfolding checked_share
checked-IsSound source_unknown token id s v = v
checked-IsSound source_current token id s v = v
checked-IsSound source_changed token id s v = retire_share-IsSound token s v

get_share-IsSound :
    (check : SourceCheck) (id : ℕ) (s : Store) → IsSound s → IsSound (get_share check id s).1
unfolding get_share
get_share-IsSound check id s v = elim (Option-cases (share_for_photo id s).token) [
  | inl e ↦ rw (e, get_share) v
  | inr (token, e) ↦ rw (e, get_share) (checked-IsSound check token id s v)
]

create_share-IsSound :
    (p : Photo) (expected : ℕ) (token : Text) (a : Answer ShareSnapshot) (s : Store)
    → IsSound s
    → IsSound (create_share p expected token a s).1
unfolding create_share
create_share-IsSound p expected token (answered snap) s v =
    save_share-IsSound s p expected (asked_for p token snap) (record { key = refl; version = refl })
      v
create_share-IsSound p expected token (wrong other_failure) s v = v
create_share-IsSound p expected token (wrong source_gone) s v =
    elim (Option-cases (share_for_photo p.id s).token) [
      | inl e ↦ rw (e, create_share) v
      | inr (old, e) ↦ rw (e, create_share) (retire_share-IsSound old s v)
    ]

serve-IsSound :
    (token : Text) (sh : Share) (a : Answer ShareSnapshot) (s : Store)
    → IsSound s
    → IsSound (serve token sh a s).1
unfolding serve
serve-IsSound token sh (wrong source_gone) s v = retire_share-IsSound token s v
serve-IsSound token sh (wrong other_failure) s v = v
serve-IsSound token sh (answered snap) s v = elim (Bool-cases (is_other sh snap)) [
  | inl e ↦ rw (e, serve) (retire_share-IsSound token s v)
  | inr e ↦ elim (Bool-cases (is_active (share_for_token token s))) [
    | inl f ↦ rw (e, f, serve) v
    | inr f ↦ rw (e, f, serve) v
  ]
]

-- The owner's look at a link, the owner's copy of a link and a visitor's request, each with any
-- answer of the sources, keep a sound store sound.
pub requests-IsSound :
    (check : SourceCheck) (p : Photo) (expected : ℕ) (token : Text) (sh : Share)
    (a : Answer ShareSnapshot) (s : Store)
    → IsSound s
    → IsSound (get_share check p.id s).1
      × IsSound (create_share p expected token a s).1
      × IsSound (serve token sh a s).1
requests-IsSound check p expected token sh a s v = (
  get_share-IsSound check p.id s v,
  create_share-IsSound p expected token a s v,
  serve-IsSound token sh a s v,
)
