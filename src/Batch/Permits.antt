-- ===== src/Batch/Permits.antt =====
-- What a task does to the permits: it keeps the store sound, and a newer action on one photo wins.
use web_bijin.Prelude.{
  ℕ, ◌≡◌, ◌≢◌, refl, inl, inr, Bool, true, false, not, ◌||◌, Option, none, some, Text, arith,
  nat_beq, nat_beq_iff, Bool-cases, Option-cases, find_where, find_where-update, find_where-holds,
  subst, sym, ◌∙◌, ap,
}
use web_bijin.Store.{Share, Store, has_photo, retired}
use web_bijin.Share.{share_for_photo, note_change}
use web_bijin.Share.Writes.{Written}
use web_bijin.Share.Permits.{IsSound}
use web_bijin.Share.Rows.{DistinctIds-update, DistinctTokens-retired}
use web_bijin.Share.Permits.{retired-All}
use web_bijin.Share.Sound.{retired-keeps, note_change-IsSound}
use web_bijin.Share.Issued.{IsFor, write_share-IsSound, write_stop_share-IsSound}
use web_bijin.Batch.{Item, Db, Mode, read_batch, is_running}
use web_bijin.Batch.Commit.{
  ItemError, is_gone, is_old_permit, batch_item_current, write_item, retire_swapped, settle,
  nothing_written, commit_from, commit_batch_item,
}

write_item-IsSound :
    (mode : Mode) (s : Store) (it : Item) (fresh : Share)
    → IsFor it.photo fresh
    → IsSound s
    → IsSound (write_item mode s it fresh).store
unfolding write_item
write_item-IsSound Mode.opens s it fresh made v =
    write_share-IsSound s it.photo it.generation fresh false made v
write_item-IsSound Mode.stops s it fresh made v =
    write_stop_share-IsSound s it.photo.id it.generation v

settle-IsSound :
    (mode : Mode) (s : Store) (it : Item) (fresh : Share) (e : Option ItemError)
    → (e ≡ none → IsFor it.photo fresh)
    → IsSound s
    → IsSound (settle mode s it fresh e).0.store
unfolding settle
settle-IsSound mode s it fresh (some e) made v = v
settle-IsSound mode s it fresh none made v = elim (Option-cases (batch_item_current s it)) [
  | inl ok ↦ rw (ok, settle) (write_item-IsSound mode s it fresh (made refl) v)
  | inr (x, bad) ↦ rw (bad, settle) v
]

retire_swapped-IsSound :
    (it : Item) (w : Written) → IsSound w.store → IsSound (retire_swapped it w).store
unfolding retire_swapped
retire_swapped-IsSound it w v = record {
  permits = retired-All w.store.photos (is_old_permit it) w.store.shares v.permits;
  ids =
      DistinctIds-update (is_old_permit it) retired (retired-keeps (is_old_permit it))
        w.store.shares v.ids;
  tokens = DistinctTokens-retired (is_old_permit it) w.store.shares v.tokens;
  photos = v.photos;
}

commit_from-IsSound :
    (id : Text) (mode : Mode) (it : Item) (fresh : Share) (e : Option ItemError) (db : Db)
    → (e ≡ none → IsFor it.photo fresh)
    → IsSound db.store
    → IsSound (commit_from id mode it fresh e db).store
unfolding commit_from
commit_from-IsSound id mode it fresh e db made v =
    let sound = settle-IsSound mode db.store it fresh e made v in
    let w = (settle mode db.store it fresh e).0 in
    elim (Bool-cases (is_gone (settle mode db.store it fresh e).1)) [
      | inl g ↦
          rw (g, commit_from)
            (note_change-IsSound (retire_swapped it w).changed (retire_swapped it w).store
              (retire_swapped-IsSound it w sound))
      | inr g ↦ rw (g, commit_from) (note_change-IsSound w.changed w.store sound)
    ]

-- Committing a photo's result keeps every permit sound, whatever the result is.
pub commit_batch_item-IsSound :
    (id : Text) (revision : ℕ) (mode : Mode) (it : Item) (fresh : Share) (e : Option ItemError)
    (db : Db) {db' : Db}
    → commit_batch_item id revision mode it fresh e db ≡ some db'
    → (e ≡ none → IsFor it.photo fresh)
    → IsSound db.store
    → IsSound db'.store
unfolding commit_batch_item
commit_batch_item-IsSound id revision mode it fresh e db {db'} done made v =
    elim (Option-cases (read_batch id db)) [
      | inl miss ↦ absurd (ground arith)
      | inr (b, found) ↦
          elim (Bool-cases (not (is_running b) || not (nat_beq b.revision revision))) [
            | inl gone ↦
                let same : db ≡ db' = ground arith in subst (λ (d : Db). IsSound d.store) same v
            | inr ours ↦
                let same : commit_from id mode it fresh e db ≡ db' = ground arith in
                subst (λ (d : Db). IsSound d.store) same
                  (commit_from-IsSound id mode it fresh e db made v)
          ]
    ]

-- A photo whose permit has moved on since the range was checked.
module _ (it : Item) (s : Store)
    (newer : (share_for_photo it.photo.id s).generation ≢ it.generation) where
  settle_newer :
      (mode : Mode) (fresh : Share) (e : Option ItemError)
      → (settle mode s it fresh e).0 ≡ nothing_written s
  unfolding settle batch_item_current
  settle_newer mode fresh (some e) = refl
  settle_newer mode fresh none = ground arith

  retire_swapped_newer :
      (j : ℕ)
      → share_for_photo j (retire_swapped it (nothing_written s)).store ≡ share_for_photo j s
  unfolding retire_swapped share_for_photo
  retire_swapped_newer j = elim (Option-cases (find_where (has_photo j) s.shares)) [
    | inl e ↦
        ground
          (arith, find_where-update (has_photo j) (is_old_permit it) retired s.shares (λ x h. refl))
    | inr (x, e) ↦
        let at : x.photo_id ≡ j = (nat_beq_iff _ _).0 (find_where-holds (has_photo j) s.shares e) in
        elim (Bool-cases (nat_beq j it.photo.id)) [
          | inr other ↦ ground (
            arith,
            find_where-update (has_photo j) (is_old_permit it) retired s.shares (λ y h. refl),
          )
          | inl same ↦
              let spared : x.generation ≢ it.generation =
                subst
                  (λ i.
                    (share_for_photo i s).generation ≢ it.generation → x.generation ≢ it.generation)
                  ((nat_beq_iff _ _).0 same) (λ h. rw e at h) newer in
              ground (
                arith,
                spared,
                find_where-update (has_photo j) (is_old_permit it) retired s.shares (λ y h. refl),
              )
        ]
  ]

note_change-shares :
    (j : ℕ) (b : Bool) (s : Store) → share_for_photo j (note_change b s) ≡ share_for_photo j s
unfolding share_for_photo
note_change-shares j true s = refl
note_change-shares j false s = refl

commit_from_newer :
    (id : Text) (mode : Mode) (it : Item) (fresh : Share) (e : Option ItemError) (db : Db)
    → (share_for_photo it.photo.id db.store).generation ≢ it.generation
    → (j : ℕ)
    → share_for_photo j (commit_from id mode it fresh e db).store ≡ share_for_photo j db.store
unfolding commit_from
commit_from_newer id mode it fresh e db newer j =
    let w = (settle mode db.store it fresh e).0 in
    let still : w ≡ nothing_written db.store = settle_newer it db.store newer mode fresh e in
    elim (Bool-cases (is_gone (settle mode db.store it fresh e).1)) [
      | inl g ↦
          rw (g, commit_from)
            (note_change-shares j (retire_swapped it w).changed (retire_swapped it w).store
              ∙ rw still (retire_swapped_newer it db.store newer j))
      | inr g ↦
          rw (g, commit_from)
            (note_change-shares j w.changed w.store
              ∙ ap (λ (u : Written). share_for_photo j u.store) still)
    ]

-- Where the permit of a photo has another generation than the one that the task was checked
-- against, the task's result for that photo leaves every permit as it is, whatever the mode and
-- the result: the newer action on the single photo wins.
pub newer_action_wins :
    (id : Text) (revision : ℕ) (mode : Mode) (it : Item) (fresh : Share) (e : Option ItemError)
    (db : Db) {db' : Db}
    → commit_batch_item id revision mode it fresh e db ≡ some db'
    → (share_for_photo it.photo.id db.store).generation ≢ it.generation
    → (j : ℕ) → share_for_photo j db'.store ≡ share_for_photo j db.store
unfolding commit_batch_item
newer_action_wins id revision mode it fresh e db {db'} done newer j =
    elim (Option-cases (read_batch id db)) [
      | inl miss ↦ absurd (ground arith)
      | inr (b, found) ↦
          elim (Bool-cases (not (is_running b) || not (nat_beq b.revision revision))) [
            | inl gone ↦
                let same : db ≡ db' = ground arith in
                ap (λ (d : Db). share_for_photo j d.store) (sym same)
            | inr ours ↦
                let same : commit_from id mode it fresh e db ≡ db' = ground arith in
                subst (λ (d : Db). share_for_photo j d.store ≡ share_for_photo j db.store) same
                  (commit_from_newer id mode it fresh e db newer j)
          ]
    ]
