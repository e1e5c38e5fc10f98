-- ===== src/Organize/Tests.antt =====
-- A change of an album's author, repeated, and a change with the same id and other content.
use web_bijin.Prelude.{
  ℕ, suc, All, All-mono, All-find_where-none, ◌<◌, ◌≡◌, refl, false, none, some, List, [], ◌∷◌,
  ◌++◌, Text, arith, codes, find_where, if◌then◌else◌, ltb, text_eq, text_beq,
}
use web_bijin.Paths.{valid_album_id}
use web_bijin.People.{has_person, Person}
use web_bijin.People.Names.{ok, refused, changed_content}
use web_bijin.Organize.{
  Outside, OrganizeDb, apply_organize, commit_organize, is_receipt, receipt, committed,
}
use web_bijin.Organize.Normal.{OrganizeChange}
use web_bijin.Organize.Receipts.{Receipt, organize_issued}
use web_bijin.Organize.Settled.{Request, run}
use web_bijin.Organize.Once.{executed_once}
use web_bijin.Organize.Persons.{run-IsSound}
use web_bijin.People.Sound.{IsSound, IsFresh}
use web_bijin.Organize.Room.{IsKept, run-IsKept}
use web_bijin.Organize.Repeats.{lost_answer_found}

abbrev pub next_id : List Person → ℕ
next_id [] = 1
next_id (p ∷ people) = let rest = next_id people in if ltb p.id rest then rest else suc p.id

abbrev outside : Outside
outside = record {
  nfc = λ name. name;
  fresh = next_id;
  fingerprint = λ c. c.kind ++ c.name;
  encode = λ r. r.operation_id;
}

abbrev operation : Text
operation = codes "1700000000000-01234567-89ab-cdef-0123-456789abcdef"

abbrev assigned : OrganizeChange
assigned = record {
  operation_id = operation;
  kind = codes "assign";
  albums = codes "a" ∷ [];
  author = some (codes "Ann");
  models = none;
  person = 0;
  name = [];
}

abbrev renamed : OrganizeChange
renamed = record assigned { kind = codes "rename"; name = codes "Bea"; person = 1 }

abbrev empty_db : OrganizeDb
empty_db = record {
  tables = record { people = []; links = [] };
  kept = record { receipts = []; floor = 0 };
  revision = 0;
}

abbrev albums : List Text
albums = codes "a" ∷ []

abbrev later_request : Request
later_request = record { change = renamed; current = albums; now = 1700000000001 }

program : Unit {0}
unfolding apply_organize commit_organize run organize_issued text_beq valid_album_id receipt
program = tt

first_answer : (apply_organize outside assigned albums 1700000000000 empty_db).0 ≡ ok operation
unfolding program
first_answer = refl

abbrev after : OrganizeDb
after = (apply_organize outside assigned albums 1700000000000 empty_db).1

abbrev row : Receipt
row = record {
  operation_id = operation;
  issued = 1700000000000;
  fingerprint = codes "assign";
  result = operation;
}

other_content :
    (apply_organize outside renamed albums 1700000000001 after).0 ≡ refused changed_content
unfolding program
other_content = refl

still_kept :
    find_where (is_receipt operation) (run outside (later_request ∷ []) after).kept.receipts
    ≡ some row
unfolding program
still_kept = refl

dated : organize_issued operation ≡ ok 1700000000000
unfolding program
dated = refl

empty-IsKept : IsKept empty_db.kept
empty-IsKept = record { distinct = tt; dated = tt; few = omega arith; small = omega arith }

executed_once_example :
    ((apply_organize outside renamed albums 1700000000002
        (run outside (later_request ∷ []) after)).1
      ≡ run outside (later_request ∷ []) after)
    × ((answered : Text)
        → (apply_organize outside renamed albums 1700000000002
            (run outside (later_request ∷ []) after)).0
          ≡ ok answered
        → (answered ≡ operation) × (outside.fingerprint renamed ≡ outside.fingerprint assigned))
executed_once_example =
    executed_once outside assigned renamed albums albums 1700000000000 1700000000002 empty_db
      operation (later_request ∷ []) tt tt first_answer refl

lost_answer_found_example :
    (apply_organize outside assigned albums 1700000000002 (run outside (later_request ∷ []) after)
      ≡ (ok operation, run outside (later_request ∷ []) after))
    × (receipt operation 1700000000002 (run outside (later_request ∷ []) after)
        ≡ ok (committed operation))
lost_answer_found_example =
    lost_answer_found outside assigned albums albums 1700000000000 1700000000002 1700000000000
      empty_db operation (later_request ∷ []) row tt tt first_answer still_kept dated (omega arith)

run-IsKept_example : IsKept (run outside (later_request ∷ []) after).kept
unfolding program
run-IsKept_example =
    run-IsKept outside
      (record { change = assigned; current = albums; now = 1700000000000 } ∷ later_request ∷ [])
      empty_db empty-IsKept

next_id-above :
    (people : List Person) → All (λ (p : Person). has_person (next_id people) p ≡ false) people
next_id-above people =
    All-mono (λ (p : Person). p.id < next_id people) _ people (λ p h. ground arith) (above people)
  where
    above : (people : List Person) → All (λ (p : Person). p.id < next_id people) people
    above [] = tt
    above (p ∷ people) = (
      ground arith,
      All-mono (λ (q : Person). q.id < next_id people) _ people (λ q h. ground arith)
          (above people),
    )

next_id-IsFresh : IsFresh next_id
next_id-IsFresh people =
    All-find_where-none (has_person (next_id people)) people (next_id-above people)

run-IsSound_example : IsSound (run outside (later_request ∷ []) after).tables
unfolding program
run-IsSound_example =
    run-IsSound outside
      (record { change = assigned; current = albums; now = 1700000000000 } ∷ later_request ∷ [])
      empty_db next_id-IsFresh (record { people = tt; links = tt; leads = tt })
