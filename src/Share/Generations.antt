-- ===== src/Share/Generations.antt =====
-- The generation of a permit: every change of the permit advances it, so a write that was checked
-- against an older one is refused.
use web_bijin.Prelude.{
  ℕ, ◌+◌, ◌<◌, ◌≡◌, refl, inl, inr, ◌⊎◌, Bool, true, false, List, Text, arith, nat_eq, nat_beq,
  nat_beq_iff, Bool-cases, Option-cases, find_where, update_where, find_where-update,
  find_where-update_ne, find_where-update_eq, sym, ◌∙◌, ap, subst,
}
use web_bijin.Store.{Photo, Share, Store, has_photo, retired, retire_photo, insert_share}
use web_bijin.Store.Photos.{
  update_photo, insert_photo, upsert, upsert_key, get_by_source_key, delete_by_id,
}
use web_bijin.Share.{has_token, scan_share, share_for_photo, note_change, retire_share}
use web_bijin.Share.Writes.{
  open_share, reuse_share, write_share, save_share, write_stop_share, stop_share, put_share,
  commits,
}

-- Nothing happened, or the generation moved on.
abbrev pub Advance : Share → Share → Type 0
Advance old new = (old ≡ new) ⊎ (old.generation < new.generation)

pub Advance-trans : (a b c : Share) → Advance a b → Advance b c → Advance a c
Advance-trans a b c h k = ground arith

-- Every permit of a store against the permits of a later one.
abbrev pub Advances : Store → Store → Type 0
Advances s t = (id : ℕ) → Advance (share_for_photo id s) (share_for_photo id t)

unfoldable pub share_at : ℕ → List Share → Share
share_at id xs = scan_share (find_where (has_photo id) xs) id

retire-Advance :
    (p : Share → Bool) (id : ℕ) (xs : List Share)
    → Advance (share_at id xs) (share_at id (update_where p retired xs))
unfolding share_at
retire-Advance p id xs = ground (arith, find_where-update (has_photo id) p retired xs (λ x h. refl))

insert_share-Advance :
    (new_id id : ℕ) (xs : List Share) → share_at id (insert_share new_id xs) ≡ share_at id xs
unfolding share_at insert_share
insert_share-Advance new_id id xs = ground arith

has_photo-same :
    (sh x : Share) (id : ℕ) → has_photo sh.photo_id x ≡ true → has_photo id sh ≡ has_photo id x
has_photo-same sh x id e = ap (λ j. nat_beq j id) (sym ((nat_beq_iff _ _).0 e))

pub put_share_self : (sh : Share) (xs : List Share) → share_at sh.photo_id (put_share sh xs) ≡ sh
unfolding share_at put_share
put_share_self sh xs = ground (
  arith,
  find_where-update_eq (has_photo sh.photo_id) (λ _. sh) xs
      (λ x e. has_photo-same sh x sh.photo_id e ∙ e),
)

put_share-other :
    (sh : Share) (id : ℕ) (xs : List Share)
    → has_photo id sh ≡ false
    → share_at id (put_share sh xs) ≡ share_at id xs
unfolding share_at put_share
put_share-other sh id xs h = ground (
  arith,
  find_where-update_ne (has_photo id) (has_photo sh.photo_id) (λ _. sh) xs
      (λ x e. (sym (has_photo-same sh x id e) ∙ h, h)),
)

put_share-Advance :
    (sh : Share) (id : ℕ) (xs : List Share)
    → (share_at sh.photo_id xs).generation < sh.generation
    → Advance (share_at id xs) (share_at id (put_share sh xs))
put_share-Advance sh id xs h = elim (Bool-cases (has_photo id sh)) [
  | inl e ↦
      let at : sh.photo_id ≡ id = (nat_beq_iff _ _).0 e in
      subst (λ j. Advance (share_at j xs) (share_at j (put_share sh xs))) at
        (inr (rw (put_share_self sh xs) h))
  | inr e ↦ inl (sym (put_share-other sh id xs e))
]

-- The operations, one after the other.
retire_photo-Advances :
    (s : Store) (id : ℕ) → Advances s (record s { shares = retire_photo id s.shares })
unfolding share_at share_for_photo
retire_photo-Advances s id j = retire-Advance (has_photo id) j s.shares

note_change-Advances : (b : Bool) (s t : Store) → Advances s t → Advances s (note_change b t)
unfolding share_for_photo
note_change-Advances true s t h id = h id
note_change-Advances false s t h id = h id

update_photo-Advances : (existing p : Photo) (s : Store) → Advances s (update_photo existing p s)
unfolding update_photo share_at share_for_photo
update_photo-Advances existing p s id =
    ground (arith, retire-Advance (has_photo existing.id) id s.shares)

insert_photo-Advances :
    (new_id : ℕ) (key : Text) (p : Photo) (s : Store) → Advances s (insert_photo new_id key p s)
unfolding insert_photo share_for_photo share_at
insert_photo-Advances new_id key p s id = inl (sym (insert_share-Advance new_id id s.shares))

pub upsert-Advances : (new_id : ℕ) (p : Photo) (s : Store) → Advances s (upsert new_id p s).1
unfolding upsert
upsert-Advances new_id p s id = elim (Option-cases (get_by_source_key (upsert_key p) s)) [
  | inl e ↦ rw (e, upsert) (insert_photo-Advances new_id (upsert_key p) p s id)
  | inr (existing, e) ↦ rw (e, upsert) (update_photo-Advances existing p s id)
]

pub delete_by_id-Advances : (id : ℕ) (s : Store) → Advances s (delete_by_id id s)
unfolding delete_by_id share_at share_for_photo
delete_by_id-Advances id s j = ground (arith, retire-Advance (has_photo id) j s.shares)

pub retire_share-Advances : (token : Text) (s : Store) → Advances s (retire_share token s)
unfolding retire_share share_at share_for_photo
retire_share-Advances token s id =
    note_change-Advances _ s _ (λ j. retire-Advance (has_token token) j s.shares) id

pub write_share-Advances :
    (s : Store) (p : Photo) (expected : ℕ) (fresh : Share) (converge : Bool)
    → Advances s (write_share s p expected fresh converge).store
unfolding write_share reuse_share open_share share_at share_for_photo
write_share-Advances s p expected fresh converge id =
    let current = share_for_photo p.id s in
    let sh : Share = record fresh { photo_id = p.id; generation = current.generation + 1 } in
    ground (
      arith,
      put_share-Advance sh id s.shares (omega arith),
      retire-Advance (has_photo p.id) id s.shares,
    )

pub save_share-Advances :
    (s : Store) (p : Photo) (expected : ℕ) (fresh : Share)
    → Advances s (save_share s p expected fresh).store
unfolding save_share
save_share-Advances s p expected fresh id =
    let w = write_share s p expected fresh true in
    let moved = write_share-Advances s p expected fresh true in
    elim (Bool-cases (commits w)) [
      | inl e ↦ rw (e, save_share) (note_change-Advances w.changed s w.store moved id)
      | inr e ↦ rw (e, save_share) (inl refl)
    ]

pub write_stop_share-Advances :
    (s : Store) (id expected : ℕ) → Advances s (write_stop_share s id expected).store
unfolding write_stop_share
write_stop_share-Advances s id expected j = ground (arith, retire_photo-Advances s id j)

pub stop_share-Advances :
    (s : Store) (id expected : ℕ) → Advances s (stop_share s id expected).store
unfolding stop_share
stop_share-Advances s id expected j =
    let w = write_stop_share s id expected in
    elim (Option-cases w.error) [
      | inl e ↦
          rw (e, stop_share)
            (note_change-Advances w.changed s w.store (write_stop_share-Advances s id expected) j)
      | inr (x, e) ↦ rw (e, stop_share) (inl refl)
    ]
