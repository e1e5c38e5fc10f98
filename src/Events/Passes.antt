-- ===== src/Events/Passes.antt =====
-- No notification of events.go is lost between a key's passes.
use web_bijin.Prelude.{
  ℕ, zero, suc, ◌+◌, ◌≤◌, ◌<◌, nat_beq, nat_eq, ◌==◌, if-both, ◌≡◌, refl, inl, inr, Bool, true,
  false, not, Option, none, some, List, Text, arith, text_eq, text_beq, text_beq_iff, text_beq_refl,
  if◌then◌else◌, Bool-cases, Option-cases, find_where, find_where-update_ne, find_where-update_eq,
  find_where-delete_ne, find_where-delete_self, ap, sym, ◌∙◌,
}
use web_bijin.Events.{
  Pending, has_pending, noted, schedule, is_again, end_pass, Tried, synced, cancelled, permanent,
  temporary, SyncEnd, left, done, stopped, unreadable, sync_from, sync,
}
use mathlib.Core.Option

-- The map, with what is true of one key: a worker for it is there, and a notification came since
-- its pass began.
pub record Watch : Type 0 where
  pub pending : List Pending
  pub working : Bool
  pub late : Bool

-- A notification, or the end of a pass, of the key and of others.
pub data Step (key : Text) (w : Watch) : Watch → Type 0 where
  notifies : Step key w (record {
    pending = (schedule key w.pending).1;
    working = true;
    late = not (schedule key w.pending).0;
  })
  notifies_other :
      (other : Text)
      → text_beq other key ≡ false
      → Step key w (record w { pending = (schedule other w.pending).1 })
  passes :
      w.working ≡ true
      → Step key w (record {
        pending = (end_pass key w.pending).1;
        working = (end_pass key w.pending).0;
        late = if (end_pass key w.pending).0 then false else w.late;
      })
  passes_other :
      (other : Text)
      → text_beq other key ≡ false
      → Step key w (record w { pending = (end_pass other w.pending).1 })

pub data Reach (key : Text) (w : Watch) : Watch → Type 0 where
  here : Reach key w w
  next : {u v : Watch} → Reach key w u → Step key u v → Reach key w v

-- The entry of the key is what its worker will see.
abbrev entry : Text → List Pending → Option Bool
entry key pending = Option.map (λ (p : Pending). p.again) (find_where (has_pending key) pending)

abbrev pub IsNoted : Text → Watch → Type 0
IsNoted key w = entry key w.pending ≡ (if w.working then some w.late else none)

-- An entry of one key is none of another.
apart :
    (key other : Text) (x : Pending)
    → text_beq other key ≡ false
    → has_pending other x ≡ true
    → has_pending key x ≡ false
unfolding has_pending
apart key other x ne h =
    ground (arith, ne, text_beq_iff x.key other, text_beq_iff x.key key, text_beq_iff other key)

schedule-other :
    (key other : Text) (pending : List Pending)
    → text_beq other key ≡ false
    → find_where (has_pending key) (schedule other pending).1 ≡ find_where (has_pending key) pending
unfolding schedule has_pending
schedule-other key other pending ne = elim (Option-cases (find_where (has_pending other) pending)) [
  | inl e ↦ rw (e, schedule) (ground (arith, ne))
  | inr (p, e) ↦
      rw (e, schedule)
        (find_where-update_ne (has_pending key) (has_pending other) (noted true) pending
          (λ x h. (apart key other x ne h, apart key other (noted true x) ne h)))
]

end_pass-other :
    (key other : Text) (pending : List Pending)
    → text_beq other key ≡ false
    → find_where (has_pending key) (end_pass other pending).1 ≡ find_where (has_pending key) pending
unfolding end_pass has_pending
end_pass-other key other pending ne = elim (Bool-cases (is_again other pending)) [
  | inl e ↦
      rw (e, end_pass)
        (find_where-update_ne (has_pending key) (has_pending other) (noted false) pending
          (λ x h. (apart key other x ne h, apart key other (noted false x) ne h)))
  | inr e ↦
      rw (e, end_pass)
        (find_where-delete_ne (has_pending key) (has_pending other) pending
          (λ x h. apart key other x ne h))
]

schedule-own :
    (key : Text) (w : Watch)
    → IsNoted key w
    → entry key (schedule key w.pending).1 ≡ some (not (schedule key w.pending).0)
unfolding schedule has_pending
schedule-own key w h = elim (Option-cases (find_where (has_pending key) w.pending)) [
  | inl e ↦ rw (e, schedule) (ground (arith, text_beq_refl key))
  | inr (p, e) ↦
      rw (e, schedule)
        (ground
          (arith, e, find_where-update_eq (has_pending key) (noted true) w.pending (λ x g. g)))
]

end_pass-own :
    (key : Text) (w : Watch)
    → w.working ≡ true
    → IsNoted key w
    → ((end_pass key w.pending).0 ≡ w.late)
      × (entry key (end_pass key w.pending).1
          ≡ (if (end_pass key w.pending).0 then some false else none))
unfolding end_pass is_again
end_pass-own key w on h = elim (Option-cases (find_where (has_pending key) w.pending)) [
  | inl e ↦ absurd (ground (arith, on, h, e))
  | inr (p, e) ↦
      let was : p.again ≡ w.late = ground (arith, on, h, e) in
      elim (Bool-cases p.again) [
        | inl f ↦
            rw (e, f, end_pass, is_again)
              (
                ground (arith, was, f),
                ground (
                  arith,
                  e,
                  find_where-update_eq (has_pending key) (noted false) w.pending (λ x g. g),
                ),
              )
        | inr f ↦
            rw (e, f, end_pass, is_again)
              (
                ground (arith, was, f),
                ground (arith, find_where-delete_self (has_pending key) w.pending),
              )
      ]
]

-- The map tells of a key whether its worker is there and what came late; without a worker nothing
-- is late.
pub record IsWatched (key : Text) (w : Watch) : Type 0 where
  pub noted : IsNoted key w
  pub settled : w.working ≡ false → w.late ≡ false

Step-IsWatched : {key : Text} {w v : Watch} → Step key w v → IsWatched key w → IsWatched key v
Step-IsWatched {key} {w} notifies h = record {
  noted = schedule-own key w h.noted;
  settled = λ e. absurd (ground (arith, e));
}
Step-IsWatched {key} {w} (notifies_other other ne) h = record {
  noted =
      ap (Option.map (λ (p : Pending). p.again)) (schedule-other key other w.pending ne) ∙ h.noted;
  settled = h.settled;
}
Step-IsWatched {key} {w} (passes on) h =
    let (is, own) = end_pass-own key w on h.noted in
    record {
      noted = elim (Bool-cases (end_pass key w.pending).0) [
        | inl e ↦ rw e (rw e at own)
        | inr e ↦ rw e (rw e at own)
      ];
      settled = λ e. rw e (sym is ∙ e);
    }
Step-IsWatched {key} {w} (passes_other other ne) h = record {
  noted =
      ap (Option.map (λ (p : Pending). p.again)) (end_pass-other key other w.pending ne) ∙ h.noted;
  settled = h.settled;
}

Reach-IsWatched : {key : Text} {w v : Watch} → Reach key w v → IsWatched key w → IsWatched key v
Reach-IsWatched here h = h
Reach-IsWatched (next r st) h = Step-IsWatched st (Reach-IsWatched r h)

schedule-starts :
    (key : Text) (w : Watch) → IsNoted key w → (schedule key w.pending).0 ≡ not w.working
unfolding schedule
schedule-starts key w h = elim (Option-cases (find_where (has_pending key) w.pending)) [
  | inl e ↦
      rw (e, schedule)
        (elim (Bool-cases w.working) [
          | inl on ↦ absurd (ground (arith, on, h, e))
          | inr off ↦ rw off
        ])
  | inr (p, e) ↦
      rw (e, schedule)
        (elim (Bool-cases w.working) [
          | inl on ↦ rw on
          | inr off ↦ absurd (ground (arith, off, h, e))
        ])
]

-- However notifications of a key and of others and the ends of passes interleave: a key that has
-- no worker any more has no notification later than the start of its last pass, so none is lost,
-- and a notification starts a worker exactly where there is none, so a key never has two.
pub no_notification_lost :
    {key : Text} {w v : Watch}
    → Reach key w v
    → IsWatched key w
    → (v.working ≡ false → v.late ≡ false) × ((schedule key v.pending).0 ≡ not v.working)
no_notification_lost {key} {v = v} r h =
    let watched = Reach-IsWatched r h in (watched.settled, schedule-starts key v watched.noted)

-- How a synchronisation may end.
abbrev Ends : Option (SyncEnd × ℕ) → Type 0
Ends o = (end : SyncEnd) × (n : ℕ) × (o ≡ some (end, n)) × (n ≤ 3) × (end ≡ left → n ≡ 3)

one_try :
    (t : Tried) (attempt : ℕ) (wait : Bool) (rest : Option (SyncEnd × ℕ))
    → attempt ≤ 3
    → (attempt < 3 → Ends rest)
    → Ends (elim t [
      | synced ↦ some (done, attempt)
      | cancelled ↦ some (stopped, attempt)
      | permanent ↦ some (unreadable, attempt)
      | temporary ↦
          if attempt == 3
          then some (left, attempt)
          else if wait
          then rest
          else some (stopped, attempt)
    ])
one_try synced attempt wait rest h later = (done, attempt, refl, h, λ e. absurd (ground (arith, e)))
one_try cancelled attempt wait rest h later =
    (stopped, attempt, refl, h, λ e. absurd (ground (arith, e)))
one_try permanent attempt wait rest h later =
    (unreadable, attempt, refl, h, λ e. absurd (ground (arith, e)))
one_try temporary attempt wait rest h later = elim (Bool-cases (nat_beq attempt 3)) [
  | inl e ↦ rw e (left, attempt, refl, h, λ f. ground (arith, e))
  | inr e ↦ rw e (
      if-both Ends wait (later (ground (arith, e, h)))
        (stopped, attempt, refl, h, λ f. absurd (ground (arith, f))))
]

sync_from-Ends :
    (fuel attempt : ℕ) (results : ℕ → Tried) (waits : ℕ → Bool)
    → attempt + fuel ≡ 3
    → Ends (sync_from (suc fuel) results waits attempt)
unfolding sync_from
sync_from-Ends zero attempt results waits h =
    one_try (results attempt) attempt (waits attempt) none (omega (arith, h))
      (λ k. absurd (omega (arith, h, k)))
sync_from-Ends (suc fuel) attempt results waits h =
    one_try (results attempt) attempt (waits attempt)
      (sync_from (suc fuel) results waits (attempt + 1)) (omega (arith, h))
      (λ k. sync_from-Ends fuel (attempt + 1) results waits (omega (arith, h)))

-- A synchronisation ends, whatever its attempts meet, after three attempts at most, and it is left
-- for the next scan only after the third.
pub sync-ends :
    (results : ℕ → Tried) (waits : ℕ → Bool)
    → (end : SyncEnd) × (n : ℕ) × (sync results waits ≡ some (end, n))
      × (n ≤ 3)
      × (end ≡ left → n ≡ 3)
unfolding sync
sync-ends results waits = sync_from-Ends 2 1 results waits refl
