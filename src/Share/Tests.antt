-- ===== src/Share/Tests.antt =====
-- One photo that is indexed, shared and no longer shared.
use web_bijin.Prelude.{
  ℕ, List, ◌∷◌, Text, length, ◌≡◌, ◌≢◌, refl, true, false, none, some, [], codes, arith, text_beq,
  ap,
}
use web_bijin.Store.{Photo, Share, Store, share_broken, photo_changed, insert_share, source_key}
use web_bijin.Store.Photos.{upsert, update_photo, insert_photo, get_by_source_key}
use web_bijin.Share.{share_for_photo, share_for_token, has_token, is_active}
use web_bijin.Share.Writes.{
  is_same_photo, is_current, same_original, put_share, open_share, reuse_share, write_share,
  save_share, is_stopped, write_stop_share, stop_share,
}
use web_bijin.Share.Media.{
  answered, ShareSnapshot, Reading, extension_of, snapshot_of, check_copy, snapshot, reads, look_up,
  is_other, sent, serve, source_changed, get_share, create_share,
}
use web_bijin.Share.Served.{Right, serve-Right}
use web_bijin.Share.Requests.{requests-IsSound}
use web_bijin.Share.Permits.{IsSound}
use web_bijin.Share.Generations.{Advance}
use web_bijin.Share.History.{
  Reach, here, next, indexes, saves, stops, Reach-IsSound, Reach-Advances, delayed_save_refused,
  save_share_converges,
}

program : Unit {0}
unfolding extension_of snapshot_of check_copy snapshot look_up is_other serve share_for_token
    share_broken photo_changed insert_share source_key upsert update_photo insert_photo
    get_by_source_key share_for_photo has_token is_same_photo is_current same_original put_share
    open_share reuse_share write_share save_share is_stopped write_stop_share stop_share text_beq
program = tt

abbrev pub photo_one : Photo
photo_one = record {
  id = 1;
  source_key = codes "a/x.jpg";
  rel_path = codes "a/x.jpg";
  size = 9;
  mtime_unix = 5;
  width = 4;
  height = 3;
  broken = false;
  invalid_reason = [];
  source_version = codes "v";
}

abbrev pub link_one : Share
link_one = record {
  photo_id = 1;
  token = some (codes "t");
  generation = 0;
  source_key = codes "a/x.jpg";
  source_version = codes "v";
  scope = [];
  digest = codes "d";
  mime = codes "image/jpeg";
  extension = codes "jpg";
  size = 9;
}

abbrev pub empty_store : Store
empty_store = record {
  photos = [];
  shares = [];
  revisions = record { index = 0; source = 0; album = 0; wall = 0; people = 0; share = 0 };
}

abbrev indexed : Store
indexed = (upsert 1 photo_one empty_store).1

abbrev shared : Store
shared = (save_share indexed photo_one 0 link_one).store

abbrev stopped : Store
stopped = (stop_share shared 1 1).store

empty-IsSound : IsSound empty_store
empty-IsSound = record { permits = tt; ids = tt; tokens = tt; photos = tt }

whole_history : Reach empty_store stopped
unfolding program
whole_history =
    next
      (next (next here (indexes 1 photo_one refl))
        (saves photo_one 0 link_one (record { key = refl; version = refl })))
      (stops 1 1)

later_history : Reach indexed stopped
unfolding program
later_history =
    next (next here (saves photo_one 0 link_one (record { key = refl; version = refl })))
      (stops 1 1)

generations :
    ((share_for_photo 1 indexed).generation ≡ 0)
    × ((share_for_photo 1 stopped).generation ≡ 2)
    × (is_active (share_for_photo 1 shared) ≡ true)
unfolding program
generations = (refl, refl, refl)

Reach-IsSound_example : IsSound stopped
Reach-IsSound_example = Reach-IsSound whole_history empty-IsSound

Reach-Advances_example : Advance (share_for_photo 1 indexed) (share_for_photo 1 stopped)
Reach-Advances_example = Reach-Advances later_history 1

changed_since : share_for_photo 1 indexed ≢ share_for_photo 1 stopped
unfolding program
changed_since e = absurd (omega (arith, ap (λ (sh : Share). sh.generation) e))

off_now : is_active (share_for_photo 1 stopped) ≡ false
unfolding program
off_now = refl

delayed_save_refused_example :
    ((save_share stopped photo_one (share_for_photo 1 indexed).generation link_one).store ≡ stopped)
    × ((save_share stopped photo_one (share_for_photo 1 indexed).generation link_one).error ≢ none)
delayed_save_refused_example =
    delayed_save_refused photo_one link_one later_history changed_since off_now

abbrev link_two : Share
link_two = record link_one { token = some (codes "u") }

converge_facts :
    (is_active (share_for_photo 1 indexed) ≡ false)
    × (same_original link_one link_two ≡ true)
    × ((save_share indexed photo_one (share_for_photo 1 indexed).generation link_one).error ≡ none)
unfolding program
converge_facts = (refl, refl, refl)

save_share_converges_example :
    let g = (share_for_photo 1 indexed).generation in
    let made = save_share indexed photo_one g link_one in
    let again = save_share made.store photo_one g link_two in
    (again.share ≡ made.share)
    × (again.store ≡ made.store)
    × (again.error ≡ none)
    × (made.share.token ≡ some (codes "t"))
save_share_converges_example =
    save_share_converges indexed photo_one link_one link_two (codes "t") refl converge_facts.0
      converge_facts.1 converge_facts.2

abbrev good_reading : Reading
good_reading = record {
  scope = answered (codes "s");
  object = answered (record { version = codes "v"; size = 2 });
  opened = answered (7 ∷ 8 ∷ []);
  object_after = answered (record { version = codes "v"; size = 2 });
  scope_after = answered (codes "s");
  rewound = true;
  format = some (codes "jpeg");
  in_time = true;
}

-- The hash is the first byte here.
abbrev first_byte : List ℕ → Text
first_byte bytes = elim bytes [ [] ↦ [] | b ∷ bytes ↦ b ∷ [] ]

abbrev small_photo : Photo
small_photo = record photo_one { size = 2 }

abbrev small_link : Share
small_link = record link_one { digest = 7 ∷ []; scope = codes "s"; size = 2; generation = 1 }

abbrev serving : Store
serving = record empty_store { photos = small_photo ∷ []; shares = small_link ∷ [] }

abbrev copied : ShareSnapshot
copied = record {
  bytes = 7 ∷ 8 ∷ [];
  digest = 7 ∷ [];
  scope = codes "s";
  mime = codes "image/jpeg";
  extension = codes "jpg";
  size = 2;
}

serve_tests :
    (snapshot first_byte length small_photo good_reading ≡ answered copied)
    × (look_up (codes "t") (codes "jpg") serving ≡ reads small_link small_photo)
    × (serve (codes "t") small_link (answered copied) serving ≡ (sent small_link copied, serving))
unfolding program
serve_tests = (refl, refl, refl)

serve-Right_example :
    Right first_byte length
      (codes "t")
      small_link
      serving
      (serve (codes "t") small_link (snapshot first_byte length small_photo good_reading) serving)
serve-Right_example =
    serve-Right first_byte length (codes "t") small_link small_photo good_reading serving

stopped-IsSound : IsSound stopped
stopped-IsSound = Reach-IsSound whole_history empty-IsSound

requests-IsSound_example :
    IsSound (get_share source_changed 1 stopped).1
    × IsSound (create_share photo_one 2 (codes "n") (answered copied) stopped).1
    × IsSound (serve (codes "n") link_one (answered copied) stopped).1
requests-IsSound_example =
    requests-IsSound source_changed photo_one 2 (codes "n") link_one (answered copied) stopped
      stopped-IsSound
