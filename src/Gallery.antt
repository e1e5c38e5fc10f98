-- ===== src/Gallery.antt =====
-- query_photos.go: the index of the visible photos, their shuffled order, and the pages of it.
pub mod Sorted
pub mod Rounds
pub mod Starts
pub mod Pages
pub mod Indexed
pub mod Whole
mod Tests
use web_bijin.Prelude.{
  ℕ, zero, suc, ◌+◌, ◌-◌, Bool, true, false, not, ◌&&◌, ◌||◌, Option, none, some, List, [], ◌∷◌,
  ◌++◌, Text, ltb, leb, if◌then◌else◌, text_eq, ◌==◌, nat_eq, text_beq, find_where, keep_where,
  length, take, drop,
}
use web_bijin.Prelude.Decimal.{ℤ, pos, negsuc}
use web_bijin.Paths.{photo_album_id}
use web_bijin.Store.{Photo, Store, photo_visible}
use web_bijin.Share.{is_shared}
use web_bijin.Order.{photo_rank}
use web_bijin.Order.Cursor.{parse_cursor, format_cursor}

-- `photoIndex`; the map of albums is a function, empty for an album without photos.
pub record PhotoIndex : Type 0 where
  pub shared : Bool
  pub ids : List ℕ
  pub albums : Text → List ℕ

-- The WHERE of `photoIndex` and of `sharedPhotoIndex`.
unfoldable pub is_listed : Bool → Store → Photo → Bool
unfolding is_shared
is_listed shared s p = photo_visible p && (not shared || is_shared s p)

-- The loop over the rows, in their order.
unfoldable pub add_rows : Bool → List Photo → PhotoIndex
unfolding text_beq photo_album_id
add_rows shared [] = record { shared = shared; ids = []; albums = λ album. [] }
add_rows shared (p ∷ rows) =
    let index = add_rows shared rows in
    record {
      shared = shared;
      ids = p.id ∷ index.ids;
      albums = λ album.
          if album == photo_album_id p.rel_path
          then p.id ∷ index.albums album
          else index.albums album;
    }

-- `photoIndex` and `sharedPhotoIndex`, as they are built.
unfoldable pub load_index : Bool → Store → PhotoIndex
unfolding is_listed add_rows
load_index shared s = add_rows shared (keep_where (is_listed shared s) s.photos)

-- `rankedPhoto`.
pub record RankedPhoto : Type 0 where
  pub rank : ℕ
  pub id : ℕ

-- The order of `sort.Slice`.
abbrev pub before : RankedPhoto → RankedPhoto → Bool
before e f = ltb e.rank f.rank || (e.rank == f.rank && ltb e.id f.id)

unfoldable pub insert_ranked : RankedPhoto → List RankedPhoto → List RankedPhoto
insert_ranked e [] = e ∷ []
insert_ranked e (f ∷ order) =
    let later = insert_ranked e order in if before e f then e ∷ f ∷ order else f ∷ later

unfoldable pub ranked : ℕ → List ℕ → List RankedPhoto
unfolding insert_ranked
ranked seed [] = []
ranked seed (id ∷ ids) =
    insert_ranked (record { rank = photo_rank seed id; id = id }) (ranked seed ids)

-- `photoOrder`, without its cache. "" stands for no album.
unfoldable pub photo_order : PhotoIndex → ℕ → Text → List RankedPhoto
unfolding ranked text_beq
photo_order index seed album = ranked seed (if album == [] then index.ids else index.albums album)

-- The WHERE of `photosByIDs`, but for the id.
unfoldable pub is_wanted : Store → Text → Bool → Photo → Bool
unfolding text_beq is_shared photo_album_id
is_wanted s album shared p =
    photo_visible p
    && (album == [] || album == photo_album_id p.rel_path)
    && (not shared || is_shared s p)

-- `photosByIDs`, asked for one id.
unfoldable pub photo_by_id : Store → Text → Bool → ℕ → Option Photo
unfolding is_wanted
photo_by_id s album shared id =
    find_where (λ (p : Photo). p.id == id && is_wanted s album shared p) s.photos

abbrev pub prepend : Option Photo → List Photo → List Photo
prepend none photos = photos
prepend (some p) photos = p ∷ photos

-- The photos of a batch that are still there, in its order.
unfoldable pub gather : Store → Text → Bool → List RankedPhoto → List Photo
unfolding photo_by_id
gather s album shared [] = []
gather s album shared (e ∷ batch) =
    prepend (photo_by_id s album shared e.id) (gather s album shared batch)

abbrev pub pick_limit : ℕ → ℕ
pick_limit limit = if limit == 0 || ltb 80 limit then 40 else limit

abbrev pub is_after : ℕ → ℕ → RankedPhoto → Bool
is_after rank id e = ltb rank e.rank || (e.rank == rank && ltb id e.id)

-- `order[start:]`, where `sort.Search` finds the first entry behind the cursor.
unfoldable pub behind : ℕ → ℕ → List RankedPhoto → List RankedPhoto
behind rank id [] = []
behind rank id (e ∷ order) = if is_after rank id e then e ∷ order else behind rank id order

-- `start`, for an `afterID` that may be negative.
unfoldable pub start_behind : ℕ → ℤ → List RankedPhoto → List RankedPhoto
unfolding behind
start_behind rank (pos zero) order = order
start_behind rank (pos (suc id)) order = behind rank (suc id) order
start_behind rank (negsuc n) order = order

-- The state of the loop: `photos`, `order[consumed-1]` if the loop has consumed one, and
-- `order[consumed:]`.
pub record Round : Type 0 where
  pub photos : List Photo
  pub last : Option RankedPhoto
  pub rest : List RankedPhoto

abbrev pub last_of : Option RankedPhoto → List RankedPhoto → Option RankedPhoto
last_of o [] = o
last_of o (e ∷ batch) = last_of (some e) batch

unfoldable pub one_round : Store → Text → Bool → ℕ → Round → Round
unfolding gather
one_round s album shared limit r =
    let batch = take (limit - length r.photos) r.rest in
    record {
      photos = r.photos ++ gather s album shared batch;
      last = last_of r.last batch;
      rest = drop (limit - length r.photos) r.rest;
    }

abbrev pub is_full : ℕ → Round → Bool
is_full limit r = elim r.rest [ [] ↦ true | _ ∷ _ ↦ leb limit (length r.photos) ]

-- The loop; a round consumes an entry, so one round for each is enough.
unfoldable pub fill : ℕ → Store → Text → Bool → ℕ → Round → Round
unfolding one_round
fill zero s album shared limit r = r
fill (suc fuel) s album shared limit r =
    let more = fill fuel s album shared limit (one_round s album shared limit r) in
    if is_full limit r then r else more

pub record Page : Type 0 where
  pub photos : List Photo
  pub total : ℕ
  pub next : Option Text

unfoldable pub next_cursor : ℕ → Round → Option Text
next_cursor seed r = elim r.last [
  | none ↦ none
  | some e ↦ elim r.rest [ [] ↦ none | _ ∷ _ ↦ some (format_cursor seed e.id) ]
]

-- `photoPage` on an index.
unfoldable pub photo_page : Store → PhotoIndex → ℕ → Text → ℕ → ℤ → ℕ → Page
unfolding photo_order start_behind fill next_cursor
photo_page s index seed album after_rank after_id limit =
    let order = photo_order index seed album in
    let start = start_behind after_rank after_id order in
    let r =
      fill (length start) s album index.shared (pick_limit limit)
        (record { photos = []; last = none; rest = start }) in
    record { photos = r.photos; total = length order; next = next_cursor seed r }

-- `handleList`'s part: the cursor of the request is read, and the page is of its seed and album.
unfoldable pub list_page : Store → PhotoIndex → ℕ → Text → ℕ → Text → Page
unfolding photo_page
list_page s index seed album limit after =
    photo_page s index seed album (parse_cursor after).0 (parse_cursor after).1 limit
