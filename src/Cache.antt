-- ===== src/Cache.antt =====
-- query_cache.go: `boundedCache`, with its limits on entries and bytes, and `revisionCache`. A map
-- is the list of its entries, with one for each key; times are nanoseconds.
pub mod Limits
pub mod Bounds
pub mod Revision
mod Tests
use web_bijin.Prelude.{
  ℕ, zero, suc, ◌+◌, ◌-◌, ◌≡◌, ◌↔◌, Bool, true, false, not, ◌&&◌, ◌||◌, Option, none, some, List,
  [], ◌∷◌, ltb, leb, if◌then◌else◌, ◌==◌, nat_eq, find_where, update_where, delete_where, length,
}
use mathlib.Core.Option

-- `cacheLimits`.
pub record CacheLimits : Type 0 where
  pub entries : ℕ
  pub bytes : ℕ
  pub idle : ℕ

-- `cacheEntry` under its key.
pub record Entry (K V : Type 0) : Type 0 where
  pub key : K
  pub value : V
  pub bytes : ℕ
  pub used : ℕ

-- `boundedCache`.
pub record Cache (K V : Type 0) : Type 0 where
  pub entries : List (Entry K V)
  pub bytes : ℕ

-- `same` is `==` on keys.
module _ {K V : Type 0} (same : K → K → Bool) where
  abbrev pub has_key : K → Entry K V → Bool
  has_key key e = same e.key key

  abbrev pub is_idle : CacheLimits → ℕ → Entry K V → Bool
  is_idle limits now e = leb limits.idle (now - e.used)

  -- The loop of `lookup`: what is idle is deleted, and its bytes are taken off.
  unfoldable pub drop_idle : CacheLimits → ℕ → List (Entry K V) → ℕ → Cache K V
  drop_idle limits now [] bytes = record { entries = []; bytes = bytes }
  drop_idle limits now (e ∷ entries) bytes =
      if is_idle limits now e
      then drop_idle limits now entries (bytes - e.bytes)
      else record (drop_idle limits now entries bytes) {
        entries = e ∷ (drop_idle limits now entries bytes).entries;
      }

  abbrev pub touched : ℕ → Entry K V → Entry K V
  touched now e = record e { used = now }

  -- `lookup`.
  unfoldable pub lookup : K → CacheLimits → ℕ → Cache K V → Option V × Cache K V
  unfolding drop_idle
  lookup key limits now c =
      let kept = drop_idle limits now c.entries c.bytes in
      (
        Option.map (λ (e : Entry K V). e.value) (find_where (has_key key) kept.entries),
        record kept { entries = update_where (has_key key) (touched now) kept.entries },
      )

  -- The entry with the earliest use; the map's order decides between equals.
  unfoldable pub oldest : List (Entry K V) → Option (Entry K V)
  oldest [] = none
  oldest (e ∷ entries) = elim (oldest entries) [
    | none ↦ some e
    | some f ↦ if ltb f.used e.used then some f else some e
  ]

  abbrev pub is_over : CacheLimits → Cache K V → Bool
  is_over limits c = ltb limits.entries (length c.entries) || ltb limits.bytes c.bytes

  unfoldable pub evict_one : Cache K V → Cache K V
  unfolding oldest
  evict_one c = elim (oldest c.entries) [
    | none ↦ c
    | some e ↦ record {
      entries = delete_where (has_key e.key) c.entries;
      bytes = c.bytes - e.bytes;
    }
  ]

  -- The loop at the end of `get`; one round for each entry is enough.
  unfoldable pub evict : ℕ → CacheLimits → Cache K V → Cache K V
  unfolding evict_one
  evict zero limits c = c
  evict (suc fuel) limits c =
      let rest = evict fuel limits (evict_one c) in if is_over limits c then rest else c

  -- The entry is stored; an old one of the key gives its bytes back.
  unfoldable pub put : K → V → ℕ → ℕ → Cache K V → Cache K V
  put key value cost now c =
      let before : ℕ = elim (find_where (has_key key) c.entries) [
        | none ↦ c.bytes
        | some old ↦ c.bytes - old.bytes
      ] in
      record {
        entries =
            record { key = key; value = value; bytes = cost; used = now }
            ∷ delete_where (has_key key) c.entries;
        bytes = before + cost;
      }

  -- `get` behind the build lock, with the value that `load` gave; `none` is its error. The first
  -- of its two lookups is a `lookup` of its own.
  unfoldable pub get : K → CacheLimits → ℕ → Option V → (V → ℕ) → Cache K V → Option V × Cache K V
  unfolding lookup put evict
  get key limits now loaded size c =
      let (hit, kept) = lookup key limits now c in
      elim hit [
        | some v ↦ (some v, kept)
        | none ↦ elim loaded [
          | none ↦ (none, kept)
          | some v ↦
              let stored = put key v (size v) now kept in
              if ltb limits.bytes (size v)
              then (some v, kept)
              else (some v, evict (length stored.entries) limits stored)
        ]
      ]

-- `revisionCache`; `ready` and `value` are one option here.
pub record RevisionCache (V : Type 0) : Type 0 where
  pub revision : ℕ
  pub value : Option V

module _ {V : Type 0} where
  -- The test of `get`: a value of the current revision.
  unfoldable pub hit : ℕ → RevisionCache V → Option V
  hit current c = if c.revision == current then c.value else none

  -- The end of `get`, with the revision that the build began with and the one that it finds.
  unfoldable pub publish : ℕ → ℕ → V → RevisionCache V → RevisionCache V
  publish began current value c =
      if current == began then record { revision = began; value = some value } else c
