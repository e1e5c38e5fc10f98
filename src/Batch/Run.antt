-- ===== src/Batch/Run.antt =====
-- `prepareItem` and the loop `run` of batch_sharing.go, in a program that is not being stopped and
-- with one time for all rounds. What reads the original is an argument.
use web_bijin.Prelude.{
  ℕ, zero, suc, Bool, not, ◌&&◌, Option, none, some, Text, if◌then◌else◌, text_eq, ◌==◌, nat_eq,
  text_beq, ◌⊎◌, inl, inr,
}
use web_bijin.Store.{Photo, Share, Store, empty_share, photo_visible}
use web_bijin.Store.Photos.{get_by_id}
use web_bijin.Share.{share_for_photo}
use web_bijin.Batch.{Item, Db, Mode}
use web_bijin.Batch.Attempt.{next_batch_item, interrupt_batch, take, over, missing}
use web_bijin.Batch.Commit.{ItemError, original_gone, state_changed, commit_batch_item}

-- The verified copy of an original, or why there is none: the slot, `snapshot` and the new token.
pub data Snapshot : Type 0 where
  verified : Share → Snapshot
  unread : ItemError → Snapshot

-- `version` is `photoShareVersion`, a hash of id, key and version.
module _ (version : Photo → Text) (snapshot : Item → Snapshot) where
  is_chosen : Photo → Photo → Bool
  unfolding text_beq
  is_chosen p chosen = photo_visible p && version p == version chosen

  abbrev pub from_snapshot : Snapshot → Share × Option ItemError
  from_snapshot (verified sh) = (sh, none)
  from_snapshot (unread e) = (empty_share 0, some e)

  -- `prepareItem`.
  unfoldable pub prepare_item : Store → Mode → Item → Share × Option ItemError
  unfolding is_chosen share_for_photo
  prepare_item s mode it = elim (get_by_id it.photo.id s) [
    | none ↦ (empty_share 0, some original_gone)
    | some p ↦
        if not (is_chosen p it.photo)
        then (empty_share 0, some original_gone)
        else if not ((share_for_photo it.photo.id s).generation == it.generation)
        then (empty_share 0, some state_changed)
        else elim mode [
          | Mode.opens ↦ from_snapshot (snapshot it)
          | Mode.stops ↦ (empty_share 0, none)
        ]
  ]

  -- One round of the loop: `none` where the attempt is over.
  unfoldable pub run_round : Text → ℕ → ℕ → Db → Db ⊎ Db
  unfolding next_batch_item prepare_item commit_batch_item
  run_round id revision now db = elim (next_batch_item id revision now db) [
    | missing ↦ inl db
    | over db' ↦ inl db'
    | take mode it ↦
        let (fresh, e) = prepare_item db.store mode it in
        elim (commit_batch_item id revision mode it fresh e db) [
          | none ↦ inl db
          | some db' ↦ inr db'
        ]
  ]

  -- `run`, with the deferred `interruptBatch`; out of fuel it leaves the attempt running.
  unfoldable pub run : ℕ → Text → ℕ → ℕ → Db → Option Db
  unfolding run_round interrupt_batch
  run zero id revision now db = none
  run (suc fuel) id revision now db = elim (run_round id revision now db) [
    | inl db' ↦ some (interrupt_batch id revision now db')
    | inr db' ↦ run fuel id revision now db'
  ]
