-- ===== src/Organize/Persons.antt =====
-- The persons and their links, whatever requests come to the organize page.
use web_bijin.Prelude.{
  ℕ, ◌≡◌, refl, subst, Option, none, some, List, [], ◌∷◌, Text, if-both, text_eq, ◌==◌, text_beq,
  codes,
}
use web_bijin.People.{People, Renamed, set_album_people, rename_person, delete_person}
use web_bijin.People.Names.{Result, ok, refused, ◌>>=◌, clean_person_name}
use web_bijin.People.Sound.{IsSound, IsFresh}
use web_bijin.People.Writes.{
  set_album_people-IsSound, delete_person-IsSound, delete_album_people-IsSound,
}
use web_bijin.People.Merges.{rename_person-IsSound}
use web_bijin.Organize.{
  Outside, OrganizeDb, Changed, apply_organize, or_not_found, only, assign_people, rename_case,
  remove_case, clean_stale, stale_albums, change_tables, commit_change,
}
use web_bijin.Organize.Normal.{OrganizeChange, Assignment, normalize_album_assignment}
use web_bijin.Organize.Outcomes.{Outcome, refusal, replayed, executed, apply_organize-Outcome}
use web_bijin.Organize.Settled.{Request, run}

-- Where the change goes through, the tables are sound.
abbrev LeavesSound : Result Changed → Type 0
LeavesSound (refused e) = Unit {0}
LeavesSound (ok done) = IsSound done.tables

assign_people-LeavesSound :
    (o : Outside) (c : OrganizeChange) (current : List Text) (t : People)
    → IsFresh o.fresh
    → IsSound t
    → LeavesSound (assign_people o c current t)
unfolding assign_people
assign_people-LeavesSound o c current t f s = checked (normalize_album_assignment o.nfc c current)
  where
    checked :
        (r : Result Assignment)
        → LeavesSound (do a ← r; ok (only (set_album_people o.fresh a.albums a.author a.models t)))
    checked (refused e) = tt
    checked (ok a) = set_album_people-IsSound o.fresh a.albums a.author a.models t f s

rename_case-LeavesSound :
    (o : Outside) (c : OrganizeChange) (t : People) → IsSound t → LeavesSound (rename_case o c t)
unfolding rename_case
rename_case-LeavesSound o c t s = cleaned (clean_person_name o.nfc c.name)
  where
    renamed :
        (name : Text) (r : Option Renamed)
        → rename_person c.person name t ≡ r
        → LeavesSound (do
          r ← or_not_found r
          ok (record { tables = r.after; person = some r.person; merged = r.merged; removed = 0 }))
    renamed name none e = tt
    renamed name (some r) e = rename_person-IsSound c.person name t e s

    cleaned :
        (n : Result Text)
        → LeavesSound (do
          name ← n
          r ← or_not_found (rename_person c.person name t)
          ok (record { tables = r.after; person = some r.person; merged = r.merged; removed = 0 }))
    cleaned (refused e) = tt
    cleaned (ok name) = renamed name (rename_person c.person name t) refl

remove_case-LeavesSound :
    (c : OrganizeChange) (t : People) → IsSound t → LeavesSound (remove_case c t)
unfolding remove_case
remove_case-LeavesSound c t s = removed (delete_person c.person t) refl
  where
    removed :
        (r : Option People)
        → delete_person c.person t ≡ r
        → LeavesSound (do after ← or_not_found r; ok (only after))
    removed none e = tt
    removed (some after) e = delete_person-IsSound c.person t e s

change_tables-LeavesSound :
    (o : Outside) (c : OrganizeChange) (current : List Text) (t : People)
    → IsFresh o.fresh
    → IsSound t
    → LeavesSound (change_tables o c current t)
unfolding change_tables text_beq clean_stale
change_tables-LeavesSound o c current t f s =
    if-both LeavesSound (c.kind == codes "assign") (assign_people-LeavesSound o c current t f s) (
      if-both LeavesSound (c.kind == codes "rename") (rename_case-LeavesSound o c t s) (
        if-both LeavesSound (c.kind == codes "remove") (remove_case-LeavesSound c t s) (
          if-both LeavesSound (c.kind == codes "cleanStale")
            (delete_album_people-IsSound (stale_albums current t) t s) tt)))

Outcome-IsSound :
    (o : Outside) (c : OrganizeChange) (current : List Text) (now : ℕ) (db : OrganizeDb)
    {x : Result Text × OrganizeDb}
    → IsFresh o.fresh
    → Outcome o c current now db x
    → IsSound db.tables
    → IsSound x.1.tables
unfolding commit_change
Outcome-IsSound o c current now db f (refusal e) s = s
Outcome-IsSound o c current now db f (replayed issued r d e same) s = s
Outcome-IsSound o c current now db f (executed issued done d absent later change) s =
    subst LeavesSound change (change_tables-LeavesSound o c current db.tables f s)

-- Where SQLite gives a new row an id that no row has: whatever requests come to the organize page,
-- ids stay unique, and names within a role but for the case of ASCII letters, an album links a person
-- once, and every link leads to a person.
pub run-IsSound :
    (o : Outside) (requests : List Request) (db : OrganizeDb)
    → IsFresh o.fresh
    → IsSound db.tables
    → IsSound (run o requests db).tables
unfolding run
run-IsSound o [] db f s = s
run-IsSound o (r ∷ requests) db f s =
    run-IsSound o requests (apply_organize o r.change r.current r.now db).1 f (
      Outcome-IsSound o r.change r.current r.now db f
        (apply_organize-Outcome o r.change r.current r.now db) s)
