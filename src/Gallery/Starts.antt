-- ===== src/Gallery/Starts.antt =====
-- The cursor of query_photos.go behind the last entry of a page leads to the next page.
use web_bijin.Prelude.{
  ℕ, zero, suc, ◌^◌, ◌≡◌, ◌<◌, refl, none, some, List, [], ◌∷◌, ◌++◌, arith, All, some_injective,
  subst,
}
use web_bijin.Prelude.Decimal.{pos}
use web_bijin.Order.{photo_rank}
use web_bijin.Order.Cursor.{parse_cursor, format_cursor, parse_cursor-format_cursor}
use web_bijin.Gallery.{RankedPhoto, start_behind, behind, last_of}
use web_bijin.Gallery.Sorted.{IsSorted, behind-last}

-- What the cursors rely on: an id is positive and fits an int64, and the rank is the id's.
abbrev pub IsEntry : ℕ → RankedPhoto → Type 0
IsEntry seed e = (0 < e.id) × (e.id < 2 ^ 63) × (e.rank ≡ photo_rank seed e.id)

pub last_of-some :
    (d : RankedPhoto) (ds : List RankedPhoto) → (e : RankedPhoto) × last_of (some d) ds ≡ some e
last_of-some d [] = (d, refl)
last_of-some d (e ∷ ds) = last_of-some e ds

pub All-last_of :
    (P : RankedPhoto → Type 0) (d : RankedPhoto) (ds : List RankedPhoto) (e : RankedPhoto)
    → P d
    → All P ds
    → last_of (some d) ds ≡ some e
    → P e
All-last_of P d [] e p a h = subst P (some_injective h) p
All-last_of P d (f ∷ ds) e p a h = All-last_of P f ds e a.0 a.1 h

pub behind-part :
    (part rest : List RankedPhoto) (e : RankedPhoto)
    → IsSorted (part ++ rest)
    → last_of none part ≡ some e
    → behind e.rank e.id (part ++ rest) ≡ rest
behind-part [] rest e s h = absurd (ground arith)
behind-part (d ∷ part) rest e s h = behind-last d part rest e s h

positive_start :
    (rank id : ℕ) (order : List RankedPhoto)
    → 0 < id
    → start_behind rank (pos id) order ≡ behind rank id order
unfolding start_behind
positive_start rank zero order h = absurd (omega arith)
positive_start rank (suc id) order h = refl

pub start_behind-cursor :
    (seed : ℕ) (e : RankedPhoto) (order : List RankedPhoto)
    → seed < 2 ^ 64
    → IsEntry seed e
    → start_behind
        (parse_cursor (format_cursor seed e.id)).0
        (parse_cursor (format_cursor seed e.id)).1
        order
      ≡ behind e.rank e.id order
start_behind-cursor seed e order small entry =
    rw (parse_cursor-format_cursor seed e.id small entry.1, ← entry.2)
      (positive_start e.rank e.id order entry.0)
