-- ===== src/Share.antt =====
-- share_store.go, and the parts of sharing.go that decide about permits: one link per photo,
-- guarded by a generation that every change advances. The database itself is taken not to fail.
pub mod Writes
pub mod Media
pub mod Served
pub mod Rows
pub mod Permits
pub mod Sound
pub mod Issued
pub mod Generations
pub mod History
pub mod Requests
mod Tests
use web_bijin.Prelude.{
  ℕ, ◌+◌, Bool, true, false, not, ◌&&◌, ◌||◌, Option, none, some, List, [], ◌∷◌, ◌++◌, Text, ltb,
  if◌then◌else◌, text_eq, ◌==◌, nat_eq, text_beq, codes, find_where, update_where, count_where,
  any_where,
}
use web_bijin.Store.{
  Photo, Share, Store, Revisions, source_key, photo_visible, empty_share, has_photo, retired,
  retire_photo,
}

-- `sh.Token != ""`, in SQL `token IS NOT NULL`.
abbrev pub is_active : Share → Bool
is_active sh = elim sh.token [ none ↦ false | some _ ↦ true ]

-- `WHERE token = ?`; NULL equals nothing.
unfoldable pub has_token : Text → Share → Bool
unfolding text_beq
has_token token sh = elim sh.token [ none ↦ false | some t ↦ t == token ]

-- `scanShare`.
abbrev pub scan_share : Option Share → ℕ → Share
scan_share none id = empty_share id
scan_share (some sh) id = sh

unfoldable pub share_for_photo : ℕ → Store → Share
share_for_photo id s = scan_share (find_where (has_photo id) s.shares) id

unfoldable pub share_for_token : Text → Store → Share
unfolding has_token
share_for_token token s = scan_share (find_where (has_token token) s.shares) 0

abbrev pub advance_share : Revisions → Revisions
advance_share r = record r { share = r.share + 1 }

-- `s.cache.shareRevision.Add(1)` where a write changed something.
abbrev pub note_change : Bool → Store → Store
note_change changed s = if changed then record s { revisions = advance_share s.revisions } else s

-- `retireShare`.
unfoldable pub retire_share : Text → Store → Store
unfolding has_token
retire_share token s =
    note_change (ltb 0 (count_where (has_token token) s.shares))
      (record s { shares = update_where (has_token token) retired s.shares })

-- `sharedPhotos`: the permit's copy of key and version is the photo's.
unfoldable pub is_shared : Store → Photo → Bool
unfolding text_beq
is_shared s p =
    any_where
      (λ sh.
        sh.photo_id == p.id
        && is_active sh
        && sh.source_key == p.source_key
        && sh.source_version == p.source_version)
      s.shares

-- `path`.
unfoldable pub path : Share → Text
path sh = elim sh.token [
  | none ↦ []
  | some token ↦ codes "/i/" ++ (token ++ (codes "." ++ sh.extension))
]
