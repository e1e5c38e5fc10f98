-- ===== src/Cache/Bounds.antt =====
-- `get` of `boundedCache` in query_cache.go: the limits and the account after any call.
use web_bijin.Prelude.{
  ℕ, ◌+◌, ◌-◌, ◌≤◌, ◌≡◌, ◌↔◌, refl, inl, inr, Bool, true, false, Option, none, List, [], ◌∷◌, arith,
  ltb, Bool-cases, Option-cases, find_where, update_where, delete_where, length, subst,
  find_where-delete_self, length-update_where, length-delete_where, sym,
}
use web_bijin.Cache.{
  CacheLimits, Entry, Cache, has_key, is_idle, drop_idle, touched, lookup, is_over, put, get,
}
use web_bijin.Cache.Limits.{
  total, DistinctKeys, IsAccounted, DistinctKeys-delete, delete-counts, delete-none,
  evict-IsAccounted,
}

module _ {K V : Type 0} (same : K → K → Bool)
    (same_iff : (a b : K) → (same a b ≡ true) ↔ (a ≡ b)) where
  drop_idle-entries :
      (limits : CacheLimits) (now : ℕ) (entries : List (Entry K V)) (bytes : ℕ)
      → (drop_idle same limits now entries bytes).entries
        ≡ delete_where (is_idle same limits now) entries
  unfolding drop_idle
  drop_idle-entries limits now [] bytes = refl
  drop_idle-entries limits now (e ∷ entries) bytes = ground (
    arith,
    drop_idle-entries limits now entries bytes,
    drop_idle-entries limits now entries (bytes - e.bytes),
  )

  drop_idle-bytes :
      (limits : CacheLimits) (now : ℕ) (entries : List (Entry K V)) (bytes other : ℕ)
      → bytes ≡ other + total same same_iff entries
      → (drop_idle same limits now entries bytes).bytes
        ≡ other + total same same_iff (drop_idle same limits now entries bytes).entries
  unfolding drop_idle
  drop_idle-bytes limits now [] bytes other h = h
  drop_idle-bytes limits now (e ∷ entries) bytes other h = ground (
    arith,
    drop_idle-bytes limits now entries (bytes - e.bytes) other (omega (arith, h)),
    drop_idle-bytes limits now entries bytes (other + e.bytes) (omega (arith, h)),
  )

  touched-absent :
      (key other : K) (now : ℕ) (entries : List (Entry K V))
      → find_where (has_key same other) entries ≡ none
      → find_where (has_key same other) (update_where (has_key same key) (touched same now) entries)
        ≡ none
  touched-absent key other now [] h = refl
  touched-absent key other now (e ∷ entries) h =
      ground (arith, touched-absent key other now entries)

  touched-keys :
      (key : K) (now : ℕ) (entries : List (Entry K V))
      → DistinctKeys same same_iff entries
      → DistinctKeys same same_iff (update_where (has_key same key) (touched same now) entries)
  touched-keys key now [] d = tt
  touched-keys key now (e ∷ entries) d =
      ground (arith, touched-absent key e.key now entries d.0, touched-keys key now entries d.1)

  touched-total :
      (key : K) (now : ℕ) (entries : List (Entry K V))
      → total same same_iff (update_where (has_key same key) (touched same now) entries)
        ≡ total same same_iff entries
  touched-total key now [] = refl
  touched-total key now (e ∷ entries) = ground (arith, touched-total key now entries)

  total-delete :
      (p : Entry K V → Bool) (entries : List (Entry K V))
      → total same same_iff (delete_where p entries) ≤ total same same_iff entries
  total-delete p [] = omega arith
  total-delete p (e ∷ entries) = ground (arith, total-delete p entries)

  abbrev pub IsGood : CacheLimits → Cache K V → Type 0
  IsGood limits c = (is_over same limits c ≡ false) × IsAccounted same same_iff c

  lookup-IsGood :
      (key : K) (limits : CacheLimits) (now : ℕ) (c : Cache K V)
      → IsGood limits c
      → IsGood limits (lookup same key limits now c).1
  unfolding lookup
  lookup-IsGood key limits now c (fits, v) =
      let kept = drop_idle same limits now c.entries c.bytes in
      let entries = drop_idle-entries limits now c.entries c.bytes in
      let bytes = drop_idle-bytes limits now c.entries c.bytes 0 (omega (arith, v.bytes)) in
      let fewer : length kept.entries ≤ length c.entries =
        rw entries (length-delete_where (is_idle same limits now) c.entries) in
      let less : total same same_iff kept.entries ≤ total same same_iff c.entries =
        rw entries (total-delete (is_idle same limits now) c.entries) in
      let touch = touched-total key now kept.entries in
      let same_length = length-update_where (has_key same key) (touched same now) kept.entries in
      (
        ground (arith, fits, fewer, less, v.bytes, bytes, same_length),
        record {
          bytes = omega (arith, touch, bytes);
          keys = touched-keys key now kept.entries (
              subst (DistinctKeys same same_iff) (sym entries)
                (DistinctKeys-delete same same_iff (is_idle same limits now) c.entries v.keys));
        },
      )

  put-IsAccounted :
      (key : K) (value : V) (cost now : ℕ) (c : Cache K V)
      → IsAccounted same same_iff c
      → IsAccounted same same_iff (put same key value cost now c)
  unfolding put
  put-IsAccounted key value cost now c v =
      elim (Option-cases (find_where (has_key same key) c.entries)) [
        | inl absent ↦
            rw (absent, put)
              (record {
                bytes =
                    rw (delete-none same same_iff key c.entries absent) (omega (arith, v.bytes));
                keys = (
                  find_where-delete_self (has_key same key) c.entries,
                  DistinctKeys-delete same same_iff (has_key same key) c.entries v.keys,
                );
              })
        | inr (old, found) ↦
            rw (found, put)
              (record {
                bytes =
                    omega
                      (arith, v.bytes, (delete-counts same same_iff key c.entries v.keys found).0);
                keys = (
                  find_where-delete_self (has_key same key) c.entries,
                  DistinctKeys-delete same same_iff (has_key same key) c.entries v.keys,
                );
              })
      ]

  -- Every call of the cache, whether it hits, builds, fails to build or builds what is too large,
  -- leaves no more entries and no more bytes than the limits allow, its count of bytes is exactly
  -- the sum of its entries', and a key has one entry.
  pub get-IsGood :
      (key : K) (limits : CacheLimits) (now : ℕ) (loaded : Option V) (size : V → ℕ) (c : Cache K V)
      → IsGood limits c
      → IsGood limits (get same key limits now loaded size c).1
  unfolding get
  get-IsGood key limits now loaded size c good =
      let kept = (lookup same key limits now c).1 in
      let w = lookup-IsGood key limits now c good in
      elim (Option-cases (lookup same key limits now c).0) [
        | inr (v, e) ↦ rw (e, get) w
        | inl e ↦ elim (Option-cases loaded) [
          | inl f ↦ rw (e, f, get) w
          | inr (v, f) ↦
              let stored = put same key v (size v) now kept in
              let evicted =
                evict-IsAccounted same same_iff (length stored.entries) limits stored (omega arith)
                  (put-IsAccounted key v (size v) now kept w.1) in
              elim (Bool-cases (ltb limits.bytes (size v))) [
                | inl large ↦ rw (e, f, large, get) w
                | inr small ↦ rw (e, f, small, get) evicted
              ]
        ]
      ]
