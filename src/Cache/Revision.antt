-- ===== src/Cache/Revision.antt =====
-- `revisionCache` of query_cache.go under interleaving: writers commit and then advance the
-- revision, one build runs at a time and holds no lock while it reads.
use web_bijin.Prelude.{
  ℕ, ◌+◌, ◌≤◌, ◌<◌, ◌≡◌, inl, inr, some, arith, nat_beq, nat_beq_iff, Bool-cases, subst,
}
use web_bijin.Cache.{RevisionCache, hit, publish}

-- The build that is on its way: nothing, a revision noted, or also the value read.
pub data Build : Type 0 where
  idle : Build
  noted : ℕ → Build
  loaded : ℕ → ℕ → Build

-- A value is the number of commits that it shows.
pub record Race : Type 0 where
  pub commits : ℕ
  pub revision : ℕ
  pub build : Build
  pub cache : RevisionCache ℕ

-- One step of a writer or of the build.
pub data Step (r : Race) : Race → Type 0 where
  commits_one : Step r (record r { commits = r.commits + 1 })
  advances : r.revision < r.commits → Step r (record r { revision = r.revision + 1 })
  begins : r.build ≡ idle → Step r (record r { build = noted r.revision })
  reads : {began : ℕ} → r.build ≡ noted began → Step r (record r { build = loaded began r.commits })
  publishes :
      {began seen : ℕ}
      → r.build ≡ loaded began seen
      → Step r (record r { build = idle; cache = publish began r.revision seen r.cache })
  gives_up : Step r (record r { build = idle })

pub data Reach (r : Race) : Race → Type 0 where
  here : Reach r r
  next : {s t : Race} → Reach r s → Step s t → Reach r t

-- What a build has noted and seen so far.
abbrev pub BuildFacts : ℕ → ℕ → Build → Type 0
BuildFacts revision commits idle = Unit {0}
BuildFacts revision commits (noted began) = began ≤ revision
BuildFacts revision commits (loaded began seen) = (began ≤ revision) × (began ≤ seen)

pub record IsFresh (r : Race) : Type 0 where
  pub announced : r.revision ≤ r.commits
  pub build : BuildFacts r.revision r.commits r.build
  pub cached : (v : ℕ) → r.cache.value ≡ some v → r.cache.revision ≤ v

BuildFacts-later :
    (revision commits revision' commits' : ℕ) (b : Build)
    → revision ≤ revision'
    → BuildFacts revision commits b
    → BuildFacts revision' commits' b
BuildFacts-later revision commits revision' commits' idle h f = tt
BuildFacts-later revision commits revision' commits' (noted began) h f = omega (arith, h, f)
BuildFacts-later revision commits revision' commits' (loaded began seen) h f =
    (omega (arith, h, f.0), f.1)

published-fresh :
    (began current seen : ℕ) (c : RevisionCache ℕ)
    → began ≤ seen
    → ((v : ℕ) → c.value ≡ some v → c.revision ≤ v)
    → (v : ℕ) → (publish began current seen c).value ≡ some v
    → (publish began current seen c).revision ≤ v
unfolding publish
published-fresh began current seen c h old v e = elim (Bool-cases (nat_beq current began)) [
  | inl now ↦ let is : seen ≡ v = ground (arith, now, e) in rw (now, publish) (omega (arith, h, is))
  | inr late ↦ rw (late, publish) (old v (rw (late, publish) at e))
]

Step-IsFresh : {r s : Race} → Step r s → IsFresh r → IsFresh s
Step-IsFresh {r = r} commits_one f = record {
  announced = omega (arith, f.announced);
  build =
      BuildFacts-later r.revision r.commits r.revision (r.commits + 1) r.build (omega arith)
        f.build;
  cached = f.cached;
}
Step-IsFresh {r = r} (advances h) f = record {
  announced = omega (arith, h);
  build =
      BuildFacts-later r.revision r.commits (r.revision + 1) r.commits r.build (omega arith)
        f.build;
  cached = f.cached;
}
Step-IsFresh {r = r} (begins e) f = record {
  announced = f.announced;
  build = omega arith;
  cached = f.cached;
}
Step-IsFresh {r = r} (reads {began} e) f =
    let old : began ≤ r.revision = subst (BuildFacts r.revision r.commits) e f.build in
    record {
      announced = f.announced;
      build = (old, omega (arith, old, f.announced));
      cached = f.cached;
    }
Step-IsFresh {r = r} (publishes {began} {seen} e) f =
    let facts : BuildFacts r.revision r.commits (loaded began seen) =
      subst (BuildFacts r.revision r.commits) e f.build in
    record {
      announced = f.announced;
      build = tt;
      cached = published-fresh began r.revision seen r.cache facts.1 f.cached;
    }
Step-IsFresh {r = r} gives_up f = record { announced = f.announced; build = tt; cached = f.cached }

Reach-IsFresh : {r s : Race} → Reach r s → IsFresh r → IsFresh s
Reach-IsFresh here f = f
Reach-IsFresh (next r st) f = Step-IsFresh st (Reach-IsFresh r f)

-- However writers and builds interleave, a value that the cache answers for the current revision
-- shows every commit that has advanced the revision: a build that a writer overtook is never taken
-- for a current one.
pub hit_shows_announced :
    {r s : Race}
    → Reach r s
    → IsFresh r
    → (v : ℕ) → hit s.revision s.cache ≡ some v
    → s.revision ≤ v
unfolding hit
hit_shows_announced {s = s} r f v e = elim (Bool-cases (nat_beq s.cache.revision s.revision)) [
  | inr old ↦ absurd (ground (arith, old, e))
  | inl same ↦
      let at : s.cache.revision ≡ s.revision = (nat_beq_iff _ _).0 same in
      let is : s.cache.value ≡ some v = ground (arith, same, e) in
      omega (arith, at, (Reach-IsFresh r f).cached v is)
]
