-- ===== src/Process/Tests.antt =====
-- Two callers at a lock, a new photo processed, and a removal.
use web_bijin.Prelude.{
  ℕ, ◌≡◌, ◌≢◌, ◌≤◌, refl, true, false, none, some, [], ◌∷◌, arith, codes, All, count_where, nat_beq,
  if◌then◌else◌, text_eq, text_beq,
}
use web_bijin.Store.{Photo, no_photo}
use web_bijin.Store.Photos.{upsert}
use web_bijin.Upload.Files.{image_budget}
use web_bijin.Process.Lock.{
  Ticket, Calls, Reach, here, next_step, enters, passes, empty_slot, enter, pass_gate, Slot,
}
use web_bijin.Process.Mutex.{is_holder, one_holder}
use web_bijin.Process.Photo.{
  not_found, SourceObject, seen, Attempt, header, decoded, Library, Fixed, validate, inspect,
}
use web_bijin.Process.Publish.{process, target_of, remove_if_unchanged}
use web_bijin.Process.Removal.{IsRemoval, remove_if_unchanged-IsRemoval}
use web_bijin.Process.Obsolete.{obsolete_bytes_ignored}
use web_bijin.Process.Usable.{HasSides, IsServed, process-IsServed}

program : Unit {0}
unfolding enter pass_gate process inspect validate text_beq image_budget upsert
program = tt

abbrev entered : Slot
entered = (enter (enter empty_slot).1).1

abbrev passed : Slot
passed = record entered { gate_full = λ k. if nat_beq k 0 then true else entered.gate_full k }

-- Two callers have entered, and the second one is behind the gate.
abbrev two_callers : Calls
two_callers = record {
  slot = passed;
  tickets = record { lock = 0; holds = true } ∷ record { lock = 0; holds = false } ∷ [];
}

whole_run : Reach (record { slot = empty_slot; tickets = [] }) two_callers
unfolding program
whole_run =
    next_step
      (next_step (next_step here (enters empty_slot []))
        (enters (enter empty_slot).1 (record { lock = 0; holds = false } ∷ [])))
      (passes entered passed [] (record { lock = 0; holds = false } ∷ []) 0 refl)

one_holder_example :
    (count_where is_holder two_callers.tickets ≤ 1)
    × ((l : ℕ)
        → two_callers.slot.lock ≡ some l
        → All (λ (t : Ticket). t.lock ≡ l) two_callers.tickets)
    × (two_callers.tickets ≡ [] → two_callers.slot.lock ≡ none)
one_holder_example = one_holder whole_run

abbrev object : SourceObject
object = record {
  key = codes "a/x.jpg";
  rel_path = codes "a/x.jpg";
  size = 9;
  mtime = 5;
  version = codes "v";
}

abbrev good_attempt : Attempt
good_attempt = record {
  walls_before = none;
  spool = true;
  stat_first = seen object;
  read = true;
  image = header 4 3 (codes "jpeg");
  slots = true;
  stat_reading = seen object;
  decoding = decoded 4 3;
  stat_publishing = seen object;
  new_id = 1;
  saved = true;
  stat_saved = seen object;
  walls_after = some true;
  walls_saved = true;
}

abbrev fixed : Fixed
fixed = record { digest = λ s. s; pixel_message = λ m n. []; max_pixels = 0 }

abbrev empty_library : Library
empty_library = record {
  store = record {
    photos = [];
    shares = [];
    revisions = record { index = 0; source = 0; album = 0; wall = 0; people = 0; share = 0 };
  };
  thumbs = [];
}

key_named : object.key ≢ []
key_named e = cc

sides : HasSides (inspect fixed object good_attempt)
unfolding program
sides = (omega arith, omega arith)

usable : (process fixed object true false good_attempt empty_library).0.album_usable ≡ true
unfolding program
usable = refl

process-IsServed_example :
    IsServed fixed object (process fixed object true false good_attempt empty_library).1
process-IsServed_example =
    process-IsServed fixed object true good_attempt empty_library key_named sides usable

-- The source was replaced while the original was read.
abbrev late_attempt : Attempt
late_attempt = record good_attempt {
  stat_publishing = seen (record object { version = codes "w" });
}

replaced : validate object late_attempt.stat_publishing ≡ false
unfolding program
replaced = refl

obsolete_bytes_ignored_example :
    (process fixed object true false late_attempt empty_library).1 ≡ empty_library
obsolete_bytes_ignored_example =
    obsolete_bytes_ignored fixed object true false late_attempt empty_library replaced

abbrev indexed : Library
indexed = (process fixed object true false good_attempt empty_library).1

abbrev expected : Photo
expected = record (target_of object no_photo) { id = 1 }

remove_if_unchanged-IsRemoval_example :
    IsRemoval expected not_found indexed (remove_if_unchanged expected not_found indexed)
remove_if_unchanged-IsRemoval_example = remove_if_unchanged-IsRemoval expected not_found indexed
