-- ===== src/Cache/Tests.antt =====
-- A cache of two entries under three keys.
use web_bijin.Prelude.{ℕ, ◌≤◌, ◌≡◌, refl, none, some, [], ◌∷◌, arith, nat_beq, nat_beq_iff}
use web_bijin.Cache.{Cache, CacheLimits, get, put, evict, lookup, hit, publish}
use web_bijin.Cache.Bounds.{IsGood, get-IsGood}
use web_bijin.Cache.Revision.{
  Race, idle, Reach, here, next, commits_one, advances, begins, reads, publishes, IsFresh,
  hit_shows_announced,
}

program : Unit {0}
unfolding get put evict lookup hit publish
program = tt

abbrev limits : CacheLimits
limits = record { entries = 2; bytes = 100; idle = 50 }

abbrev two_entries : Cache ℕ ℕ
two_entries = record {
  entries =
      record { key = 1; value = 11; bytes = 30; used = 5 }
      ∷ record { key = 2; value = 22; bytes = 40; used = 3 }
      ∷ [];
  bytes = 70;
}

two-IsGood : IsGood nat_beq nat_beq_iff limits two_entries
two-IsGood = (refl, record { bytes = refl; keys = (refl, (refl, tt)) })

get_tests :
    ((get nat_beq 3 limits 6 (some 33) (λ v. 20) two_entries).0 ≡ some 33)
    × ((get nat_beq 3 limits 6 (some 33) (λ v. 20) two_entries).1.bytes ≡ 50)
    × ((get nat_beq 1 limits 6 none (λ v. 20) two_entries).0 ≡ some 11)
unfolding program
get_tests = (refl, refl, refl)

get-IsGood_example :
    IsGood nat_beq nat_beq_iff limits (get nat_beq 3 limits 6 (some 33) (λ v. 20) two_entries).1
get-IsGood_example =
    get-IsGood nat_beq nat_beq_iff 3 limits 6 (some 33) (λ v. 20) two_entries two-IsGood

abbrev start_race : Race
start_race = record {
  commits = 0;
  revision = 0;
  build = idle;
  cache = record { revision = 0; value = none };
}

start-IsFresh : IsFresh start_race
start-IsFresh = record {
  announced = omega arith;
  build = tt;
  cached = λ v e. absurd (ground (arith, e));
}

abbrev end_race : Race
end_race = record {
  commits = 1;
  revision = 1;
  build = idle;
  cache = record { revision = 1; value = some 1 };
}

one_build : Reach start_race end_race
unfolding program
one_build =
    next
      (next (next (next (next here commits_one) (advances (omega arith))) (begins refl))
        (reads {began = 1} refl))
      (publishes {began = 1} {seen = 1} refl)

hit_shows_announced_example : end_race.revision ≤ 1
unfolding program
hit_shows_announced_example = hit_shows_announced one_build start-IsFresh 1 refl
