-- ===== src/Process/Mutex.antt =====
-- However the callers of `photoProcessor.lock` take turns, they exclude each other.
use web_bijin.Prelude.{
  ℕ, ◌+◌, ◌-◌, ◌≡◌, ◌≤◌, ◌<◌, refl, ap, sym, subst, inl, inr, Bool, true, false, Option, none, some,
  List, [], ◌∷◌, ◌++◌, arith, Bool-cases, All, length, length-append, count_where, if◌then◌else◌,
  nat_beq, nat_beq_iff, some_injective,
}
use web_bijin.Process.Lock.{
  Slot, Ticket, Calls, Step, enters, passes, gives_up, unlocks, Reach, here, next_step, set_at,
  enter, enter_with, pass_gate, release_ref, unlock, empty_slot,
}

abbrev pub is_holder : Ticket → Bool
is_holder t = t.holds

abbrev gate_count : Bool → ℕ
gate_count full = if full then 1 else 0

-- The tickets are of the lock in the map, which counts them, and its gate is full where one holds.
abbrev Fits : Option ℕ → Slot → List Ticket → Type 0
Fits none s tickets = tickets ≡ []
Fits (some l) s tickets =
    All (λ (t : Ticket). t.lock ≡ l) tickets
    × (s.users l ≡ length tickets)
    × (0 < length tickets)
    × (count_where is_holder tickets ≡ gate_count (s.gate_full l))

abbrev pub IsOrdered : Calls → Type 0
IsOrdered c = Fits c.slot.lock c.slot c.tickets

count_where-append :
    (xs ys : List Ticket)
    → count_where is_holder (xs ++ ys) ≡ count_where is_holder xs + count_where is_holder ys
count_where-append [] ys = omega arith
count_where-append (t ∷ xs) ys = ground (arith, count_where-append xs ys)

All-part :
    (P : Ticket → Type 0) (before behind : List Ticket) (t : Ticket)
    → All P (before ++ (t ∷ behind))
    → P t × All P (before ++ behind)
All-part P [] behind t a = a
All-part P (b ∷ before) behind t a =
    let (h, rest) = All-part P before behind t a.1 in (h, (a.0, rest))

All-put :
    (P : Ticket → Type 0) (before behind : List Ticket) (t : Ticket)
    → P t
    → All P (before ++ behind)
    → All P (before ++ (t ∷ behind))
All-put P [] behind t h a = (h, a)
All-put P (b ∷ before) behind t h a = (a.0, All-put P before behind t h a.1)

nonempty : (before behind : List Ticket) (t : Ticket) → before ++ (t ∷ behind) ≡ [] → ⊥
nonempty [] behind t e = cc
nonempty (b ∷ before) behind t e = cc

set_at-same {ℓ} : {A : Type ℓ} (l : ℕ) (a : A) (f : ℕ → A) → set_at l a f l ≡ a
set_at-same l a f = rw ((nat_beq_iff l l).1 refl) refl

enter_with-IsOrdered :
    (o : Option ℕ) (s : Slot) (tickets : List Ticket)
    → Fits o s tickets
    → IsOrdered (record {
      slot = (enter_with o s).1;
      tickets = record { lock = (enter_with o s).0; holds = false } ∷ tickets;
    })
enter_with-IsOrdered none s tickets e =
    rw (e, set_at-same s.next 1 s.users, set_at-same s.next false s.gate_full)
      ((refl, tt), refl, omega arith, refl)
enter_with-IsOrdered (some l) s tickets f =
    rw (set_at-same l (s.users l + 1) s.users)
      ((refl, f.0), omega (arith, f.1), omega arith, omega (arith, f.3))

-- The ticket's lock is the one in the map.
its_lock :
    (o : Option ℕ) (s : Slot) (before behind : List Ticket) (t : Ticket)
    → Fits o s (before ++ (t ∷ behind))
    → o ≡ some t.lock
its_lock none s before behind t f = absurd (nonempty before behind t f)
its_lock (some l) s before behind t f =
    ap some (sym (All-part (λ (x : Ticket). x.lock ≡ l) before behind t f.0).0)

-- Counting without a ticket.
length-part :
    (before behind : List Ticket) (t : Ticket)
    → length (before ++ (t ∷ behind)) ≡ length (before ++ behind) + 1
length-part before behind t =
    omega (arith, length-append before (t ∷ behind), length-append before behind)

holders-part :
    (before behind : List Ticket) (t : Ticket)
    → count_where is_holder (before ++ (t ∷ behind))
      ≡ count_where is_holder (before ++ behind) + gate_count t.holds
holders-part before behind t =
    ground (arith, count_where-append before (t ∷ behind), count_where-append before behind)

-- Where a reference is released that the lock counted besides these tickets.
release_ref-IsOrdered :
    (l : ℕ) (s : Slot) (rest : List Ticket)
    → s.lock ≡ some l
    → All (λ (t : Ticket). t.lock ≡ l) rest
    → s.users l ≡ length rest + 1
    → count_where is_holder rest ≡ gate_count (s.gate_full l)
    → IsOrdered (record { slot = release_ref l s; tickets = rest })
unfolding release_ref
release_ref-IsOrdered l s [] e a u h =
    let gone : nat_beq (s.users l - 1) 0 ≡ true = ground arith in rw gone refl
release_ref-IsOrdered l s (t ∷ rest) e a u h =
    let stays : nat_beq (s.users l - 1) 0 ≡ false = ground arith in
    let counted = set_at-same l (s.users l - 1) s.users in
    rw stays (
      subst
        (λ o.
          Fits o (record s { users = set_at l (s.users l - 1) s.users; lock = s.lock }) (t ∷ rest))
        (sym e) (a, omega (arith, counted, u), omega arith, h))

pass_gate-IsOrdered :
    (s : Slot) {after : Slot} (before behind : List Ticket) (l : ℕ)
    → pass_gate l s ≡ some after
    → IsOrdered
        (record { slot = s; tickets = before ++ (record { lock = l; holds = false } ∷ behind) })
    → IsOrdered
        (record { slot = after; tickets = before ++ (record { lock = l; holds = true } ∷ behind) })
unfolding pass_gate
pass_gate-IsOrdered s before behind l e f =
    let t : Ticket = record { lock = l; holds = false } in
    let in_map = its_lock s.lock s before behind t f in
    let (at, u, pos, h) = subst (λ o. Fits o s (before ++ (t ∷ behind))) in_map f in
    elim (Bool-cases (s.gate_full l)) [
      | inl full ↦ absurd (clash (rw full at e))
      | inr free ↦
          let same = some_injective (rw free at e) in
          subst
            (λ (x : Slot). IsOrdered (record {
              slot = x;
              tickets = before ++ (record { lock = l; holds = true } ∷ behind);
            }))
            same (passed in_map at u h free)
    ]
  where
    clash : {x : Slot} → none ≡ some x → ⊥
    clash e = cc

    passed :
        s.lock ≡ some l
        → All (λ (t : Ticket). t.lock ≡ l) (before ++ (record { lock = l; holds = false } ∷ behind))
        → s.users l ≡ length (before ++ (record { lock = l; holds = false } ∷ behind))
        → count_where is_holder (before ++ (record { lock = l; holds = false } ∷ behind))
          ≡ gate_count (s.gate_full l)
        → s.gate_full l ≡ false
        → IsOrdered (record {
          slot = record s { gate_full = set_at l true s.gate_full };
          tickets = before ++ (record { lock = l; holds = true } ∷ behind);
        })
    passed in_map at u h free =
        let t : Ticket = record { lock = l; holds = true } in
        let counted = set_at-same l true s.gate_full in
        subst
          (λ o.
            Fits o (record s { gate_full = set_at l true s.gate_full }) (before ++ (t ∷ behind)))
          (sym in_map)
          (
            All-put (λ (x : Ticket). x.lock ≡ l) before behind t refl
                (All-part (λ (x : Ticket). x.lock ≡ l) before behind _ at).1,
            omega (
              arith,
              u,
              length-part before behind t,
              length-part before behind (record { lock = l; holds = false }),
            ),
            omega (arith, length-part before behind t),
            omega (
              arith,
              ap gate_count counted,
              ap gate_count free,
              h,
              holders-part before behind t,
              holders-part before behind (record { lock = l; holds = false }),
            ),
          )

-- Without one of its tickets, a slot in order has one user less.
release-IsOrdered :
    (s : Slot) (before behind : List Ticket) (t : Ticket) (gate : ℕ → Bool)
    → IsOrdered (record { slot = s; tickets = before ++ (t ∷ behind) })
    → (count_where is_holder (before ++ behind) + gate_count t.holds
          ≡ gate_count (s.gate_full t.lock)
        → count_where is_holder (before ++ behind) ≡ gate_count (gate t.lock))
    → IsOrdered (record {
      slot = release_ref t.lock (record s { gate_full = gate });
      tickets = before ++ behind;
    })
release-IsOrdered s before behind t gate f h =
    let in_map = its_lock s.lock s before behind t f in
    let (at, u, pos, holders) = subst (λ o. Fits o s (before ++ (t ∷ behind))) in_map f in
    release_ref-IsOrdered t.lock (record s { gate_full = gate }) (before ++ behind) in_map
      (All-part (λ (x : Ticket). x.lock ≡ t.lock) before behind t at).1
      (omega (arith, u, length-part before behind t))
      (h (omega (arith, holders, holders-part before behind t)))

gate_count_le : (b : Bool) → gate_count b ≤ 1
gate_count_le b = ground arith

Step-IsOrdered : {c after : Calls} → Step c after → IsOrdered c → IsOrdered after
unfolding enter unlock
Step-IsOrdered (enters s tickets) f = enter_with-IsOrdered s.lock s tickets f
Step-IsOrdered (passes s after before behind l e) f = pass_gate-IsOrdered s before behind l e f
Step-IsOrdered (gives_up s before behind l) f =
    release-IsOrdered s before behind (record { lock = l; holds = false }) s.gate_full f
      (λ h. omega (arith, h))
Step-IsOrdered (unlocks s before behind l) f =
    release-IsOrdered s before behind (record { lock = l; holds = true })
      (set_at l false s.gate_full) f
      (λ h.
        omega (
          arith,
          h,
          gate_count_le (s.gate_full l),
          ap gate_count (set_at-same l false s.gate_full),
        ))

pub Reach-IsOrdered : {c after : Calls} → Reach c after → IsOrdered c → IsOrdered after
Reach-IsOrdered here f = f
Reach-IsOrdered (next_step r step) f = Step-IsOrdered step (Reach-IsOrdered r f)

-- Over any order of callers that enter, pass the gate, give up and unlock, from no callers at all: at
-- most one of them is behind the gate, all wait for one lock, which the map has, and the map has no
-- lock once there is no caller.
pub one_holder :
    {c : Calls}
    → Reach (record { slot = empty_slot; tickets = [] }) c
    → (count_where is_holder c.tickets ≤ 1)
      × ((l : ℕ) → c.slot.lock ≡ some l → All (λ (t : Ticket). t.lock ≡ l) c.tickets)
      × (c.tickets ≡ [] → c.slot.lock ≡ none)
one_holder {c} r = held c.slot.lock (Reach-IsOrdered r refl)
  where
    held :
        (o : Option ℕ)
        → Fits o c.slot c.tickets
        → (count_where is_holder c.tickets ≤ 1)
          × ((l : ℕ) → o ≡ some l → All (λ (t : Ticket). t.lock ≡ l) c.tickets)
          × (c.tickets ≡ [] → o ≡ none)
    held none e = (rw e (omega arith), λ l h. cc, λ _. refl)
    held (some l) f = (
      ground (arith, f.3),
      λ k h. subst (λ n. All (λ (t : Ticket). t.lock ≡ n) c.tickets) (some_injective h) f.0,
      λ e. absurd (omega (arith, f.2, ap (λ (ts : List Ticket). length ts) e)),
    )
