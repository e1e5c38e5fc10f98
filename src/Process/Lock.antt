-- ===== src/Process/Lock.antt =====
-- The lock of one photo in photo_processing.go: what `photoProcessor.keys` has under one key. A
-- `photoLock` is an address; the heap holds its users and its gate.
use web_bijin.Prelude.{
  ℕ, ◌+◌, ◌-◌, ◌≡◌, Bool, true, false, Option, none, some, List, ◌∷◌, ◌++◌, if◌then◌else◌, nat_beq,
}

-- `keys[key]`, the fields of every `photoLock`, and the next address.
pub record Slot : Type 0 where
  pub lock : Option ℕ
  pub users : ℕ → ℕ
  pub gate_full : ℕ → Bool
  pub next : ℕ

abbrev pub set_at {ℓ} : {A : Type ℓ} → ℕ → A → (ℕ → A) → ℕ → A
set_at l a f k = if nat_beq k l then a else f k

abbrev pub empty_slot : Slot
empty_slot = record { lock = none; users = λ l. 0; gate_full = λ l. false; next = 0 }

-- `lock` up to its select, with the lock that the map has.
abbrev pub enter_with : Option ℕ → Slot → ℕ × Slot
enter_with (some l) s = (l, record s { lock = some l; users = set_at l (s.users l + 1) s.users })
enter_with none s = (
  s.next,
  record {
    lock = some s.next;
    users = set_at s.next 1 s.users;
    gate_full = set_at s.next false s.gate_full;
    next = s.next + 1;
  },
)

-- The caller's lock, and the slot.
unfoldable pub enter : Slot → ℕ × Slot
enter s = enter_with s.lock s

-- `l.gate <- struct{}{}`, which waits while the gate is full.
unfoldable pub pass_gate : ℕ → Slot → Option Slot
pass_gate l s =
    if s.gate_full l then none else some (record s { gate_full = set_at l true s.gate_full })

-- `releaseRef`
unfoldable pub release_ref : ℕ → Slot → Slot
release_ref l s =
    let users = s.users l - 1 in
    record s { users = set_at l users s.users; lock = if nat_beq users 0 then none else s.lock }

-- `unlock`
unfoldable pub unlock : ℕ → Slot → Slot
unfolding release_ref
unlock l s = release_ref l (record s { gate_full = set_at l false s.gate_full })

-- A call of `lock` that has entered: its lock, and whether it is behind the gate.
pub record Ticket : Type 0 where
  pub lock : ℕ
  pub holds : Bool

pub record Calls : Type 0 where
  pub slot : Slot
  pub tickets : List Ticket

-- What one goroutine may do next, whichever it is.
pub data Step : Calls → Calls → Type 0 where
  enters :
      (s : Slot) (tickets : List Ticket)
      → Step
          (record { slot = s; tickets = tickets })
          (record {
            slot = (enter s).1;
            tickets = record { lock = (enter s).0; holds = false } ∷ tickets;
          })
  passes :
      (s after : Slot) (before behind : List Ticket) (l : ℕ)
      → pass_gate l s ≡ some after
      → Step
          (record { slot = s; tickets = before ++ (record { lock = l; holds = false } ∷ behind) })
          (record {
            slot = after;
            tickets = before ++ (record { lock = l; holds = true } ∷ behind);
          })
  gives_up :
      (s : Slot) (before behind : List Ticket) (l : ℕ)
      → Step
          (record { slot = s; tickets = before ++ (record { lock = l; holds = false } ∷ behind) })
          (record { slot = release_ref l s; tickets = before ++ behind })
  unlocks :
      (s : Slot) (before behind : List Ticket) (l : ℕ)
      → Step
          (record { slot = s; tickets = before ++ (record { lock = l; holds = true } ∷ behind) })
          (record { slot = unlock l s; tickets = before ++ behind })

pub data Reach (start : Calls) : Calls → Type 0 where
  here : Reach start start
  next_step : {mid after : Calls} → Reach start mid → Step mid after → Reach start after
