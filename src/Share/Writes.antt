-- ===== src/Share/Writes.antt =====
-- `writeShare`, `saveShare`, `writeStopShare` and `stopShare` of share_store.go.
use web_bijin.Prelude.{
  ℕ, ◌+◌, Bool, true, false, not, ◌&&◌, ◌||◌, Option, none, some, List, ◌∷◌, Text, if◌then◌else◌,
  text_eq, ◌==◌, nat_eq, text_beq, find_where, update_where, count_where, any_where,
}
use web_bijin.Store.{
  Photo, Share, Store, source_key, photo_visible, empty_share, has_photo, retired, retire_photo,
}
use web_bijin.Share.{is_active, has_token, share_for_photo, note_change}

-- `token_taken` is the error of the UNIQUE column.
pub data ShareError : Type 0 where
  source_changed share_state_changed token_taken : ShareError

-- What a write of one permit leaves and answers: `share, changed, err`.
pub record Written : Type 0 where
  pub store : Store
  pub share : Share
  pub changed : Bool
  pub error : Option ShareError

abbrev pub failed : Store → ShareError → Written
failed s e = record { store = s; share = empty_share 0; changed = false; error = some e }

-- The WHERE of the row that a permit is written for: the photo as it was checked, and visible.
unfoldable pub is_same_photo : Photo → Photo → Bool
unfolding source_key text_beq
is_same_photo p row =
    row.id == p.id
    && row.source_key == source_key p
    && row.source_version == p.source_version
    && row.size == p.size
    && row.mtime_unix == p.mtime_unix
    && photo_visible row

-- Two copies that started with the same inactive generation converge.
unfoldable pub is_current : Bool → ℕ → Share → Bool
is_current converge expected current =
    current.generation == expected
    || (converge && is_active current && current.generation == expected + 1)

unfoldable pub same_original : Share → Share → Bool
unfolding text_beq
same_original current fresh =
    current.digest == fresh.digest
    && current.scope == fresh.scope
    && current.source_key == fresh.source_key
    && current.source_version == fresh.source_version

-- `INSERT … ON CONFLICT(photo_id) DO UPDATE`.
unfoldable pub put_share : Share → List Share → List Share
put_share sh shares = elim (find_where (has_photo sh.photo_id) shares) [
  | none ↦ sh ∷ shares
  | some _ ↦ update_where (has_photo sh.photo_id) (λ _. sh) shares
]

abbrev pub is_taken : Option Text → List Share → Bool
is_taken none shares = false
is_taken (some token) shares = any_where (has_token token) shares

-- The last part of `writeShare`, where no permit is active.
unfoldable pub open_share : Store → Photo → Share → Share → Written
unfolding put_share has_token
open_share s p current fresh =
    let sh = record fresh { photo_id = p.id; generation = current.generation + 1 } in
    if is_taken sh.token s.shares then failed s token_taken else record {
      store = record s { shares = put_share sh s.shares };
      share = sh;
      changed = true;
      error = none;
    }

-- Where one is: the same original has the same link, and another one ends it.
unfoldable pub reuse_share : Store → Photo → Share → Share → Written
unfolding same_original
reuse_share s p current fresh =
    if same_original current fresh
    then record { store = s; share = current; changed = false; error = none }
    else record {
      store = record s { shares = retire_photo p.id s.shares };
      share = empty_share 0;
      changed = true;
      error = some source_changed;
    }

unfoldable pub write_share : Store → Photo → ℕ → Share → Bool → Written
unfolding is_same_photo is_current share_for_photo
write_share s p expected fresh converge =
    let current = share_for_photo p.id s in
    if not (count_where (is_same_photo p) s.photos == 1)
    then failed s source_changed
    else if not (is_current converge expected current)
    then failed s share_state_changed
    else if is_active current
    then reuse_share s p current fresh
    else open_share s p current fresh

-- A transaction that ends in an error is rolled back, unless it also changed something.
abbrev pub commits : Written → Bool
commits w = elim w.error [ none ↦ true | some _ ↦ w.changed ]

unfoldable pub save_share : Store → Photo → ℕ → Share → Written
unfolding write_share
save_share s p expected fresh =
    let w = write_share s p expected fresh true in
    if commits w
    then record w { store = note_change w.changed w.store }
    else record { store = s; share = empty_share 0; changed = false; error = w.error }

-- A stop that was already made, or a lost answer's second try.
unfoldable pub is_stopped : ℕ → Share → Bool
is_stopped expected current =
    not (is_active current)
    && (current.generation == expected || current.generation == expected + 1)

unfoldable pub write_stop_share : Store → ℕ → ℕ → Written
unfolding share_for_photo is_stopped
write_stop_share s id expected =
    let current = share_for_photo id s in
    if is_stopped expected current
    then record { store = s; share = current; changed = false; error = none }
    else if not (current.generation == expected)
    then failed s share_state_changed
    else record {
      store = record s { shares = retire_photo id s.shares };
      share = retired current;
      changed = true;
      error = none;
    }

unfoldable pub stop_share : Store → ℕ → ℕ → Written
unfolding write_stop_share
stop_share s id expected =
    let w = write_stop_share s id expected in
    elim w.error [ some e ↦ failed s e | none ↦ record w { store = note_change w.changed w.store } ]
