-- ===== src/Events.antt =====
-- `schedule` and `sync` of events.go: notifications of the object storages, one worker for a key.
pub mod Passes
mod Tests
use web_bijin.Prelude.{
  ℕ, zero, suc, ◌+◌, Bool, true, false, Option, none, some, List, ◌∷◌, Text, if◌then◌else◌, text_eq,
  ◌==◌, text_beq, nat_eq, find_where, update_where, delete_where,
}

-- An entry of the map `pending`: the key being synced, and whether it was notified again.
pub record Pending : Type 0 where
  pub key : Text
  pub again : Bool

unfoldable pub has_pending : Text → Pending → Bool
unfolding text_beq
has_pending key p = p.key == key

abbrev pub noted : Bool → Pending → Pending
noted again p = record p { again = again }

-- The locked part of `schedule`: whether a worker is started, and the map.
unfoldable pub schedule : Text → List Pending → Bool × List Pending
unfolding has_pending
schedule key pending = elim (find_where (has_pending key) pending) [
  | some _ ↦ (false, update_where (has_pending key) (noted true) pending)
  | none ↦ (true, record { key = key; again = false } ∷ pending)
]

-- `again := h.pending[t.key]`
unfoldable pub is_again : Text → List Pending → Bool
unfolding has_pending
is_again key pending = elim (find_where (has_pending key) pending) [
  | none ↦ false
  | some p ↦ p.again
]

-- The end of a pass of the worker: whether it makes another one, and the map.
unfoldable pub end_pass : Text → List Pending → Bool × List Pending
unfolding is_again has_pending
end_pass key pending =
    if is_again key pending
    then (true, update_where (has_pending key) (noted false) pending)
    else (false, delete_where (has_pending key) pending)

-- What one call of `SyncKey` means to `sync`, in the order of its cases.
pub data Tried : Type 0 where
  synced cancelled permanent temporary : Tried

-- How `sync` ends; `left` is for the next scan.
pub data SyncEnd : Type 0 where
  done stopped unreadable left : SyncEnd

-- The loop of `sync` from one attempt on; `results` gives what each attempt meets, and `waits`
-- whether the wait after it ends before the program does.
unfoldable pub sync_from : ℕ → (ℕ → Tried) → (ℕ → Bool) → ℕ → Option (SyncEnd × ℕ)
sync_from zero results waits attempt = none
sync_from (suc fuel) results waits attempt =
    let rest = sync_from fuel results waits (attempt + 1) in
    elim (results attempt) [
      | synced ↦ some (done, attempt)
      | cancelled ↦ some (stopped, attempt)
      | permanent ↦ some (unreadable, attempt)
      | temporary ↦
          if attempt == 3
          then some (left, attempt)
          else if waits attempt
          then rest
          else some (stopped, attempt)
    ]

unfoldable pub sync : (ℕ → Tried) → (ℕ → Bool) → Option (SyncEnd × ℕ)
unfolding sync_from
sync results waits = sync_from 3 results waits 1
