-- ===== src/Cache/Limits.antt =====
-- The accounting of `boundedCache` in query_cache.go.
use web_bijin.Prelude.{
  ℕ, zero, suc, ◌+◌, ◌≤◌, ◌≡◌, ◌↔◌, refl, inl, inr, Bool, true, false, ◌||◌, none, some, List, [],
  ◌∷◌, arith, ltb, leb, if◌then◌else◌, Bool-cases, Option-cases, find_where, delete_where, length,
  subst,
}
use web_bijin.Cache.{CacheLimits, Entry, Cache, has_key, oldest, is_over, evict_one, evict}

module _ {K V : Type 0} (same : K → K → Bool)
    (same_iff : (a b : K) → (same a b ≡ true) ↔ (a ≡ b)) where
  -- The bytes of all entries.
  abbrev pub total : List (Entry K V) → ℕ
  total [] = 0
  total (e ∷ entries) = e.bytes + total entries

  abbrev pub DistinctKeys : List (Entry K V) → Type 0
  DistinctKeys [] = Unit {0}
  DistinctKeys (e ∷ entries) =
      (find_where (has_key same e.key) entries ≡ none) × DistinctKeys entries

  -- The count of bytes is the sum of the entries', and a key has one entry.
  pub record IsAccounted (c : Cache K V) : Type 0 where
    pub bytes : c.bytes ≡ total c.entries
    pub keys : DistinctKeys c.entries

  delete-absent :
      (key : K) (p : Entry K V → Bool) (entries : List (Entry K V))
      → find_where (has_key same key) entries ≡ none
      → find_where (has_key same key) (delete_where p entries) ≡ none
  delete-absent key p [] h = refl
  delete-absent key p (e ∷ entries) h = ground (arith, delete-absent key p entries)

  pub DistinctKeys-delete :
      (p : Entry K V → Bool) (entries : List (Entry K V))
      → DistinctKeys entries
      → DistinctKeys (delete_where p entries)
  DistinctKeys-delete p [] d = tt
  DistinctKeys-delete p (e ∷ entries) d =
      ground (arith, delete-absent e.key p entries d.0, DistinctKeys-delete p entries d.1)

  pub delete-none :
      (key : K) (entries : List (Entry K V))
      → find_where (has_key same key) entries ≡ none
      → delete_where (has_key same key) entries ≡ entries
  delete-none key [] h = refl
  delete-none key (e ∷ entries) h = ground (arith, delete-none key entries)

  -- Deleting a key takes one entry and its bytes.
  pub delete-counts :
      (key : K) (entries : List (Entry K V)) {e : Entry K V}
      → DistinctKeys entries
      → find_where (has_key same key) entries ≡ some e
      → (total entries ≡ e.bytes + total (delete_where (has_key same key) entries))
        × (length entries ≡ 1 + length (delete_where (has_key same key) entries))
  delete-counts key [] {e} d h = absurd (ground arith)
  delete-counts key (x ∷ entries) {e} d h = elim (Bool-cases (same x.key key)) [
    | inr other ↦
        let later : find_where (has_key same key) entries ≡ some e = ground arith in
        let (a, b) = delete-counts key entries d.1 later in
        rw other (omega (arith, a), omega (arith, b))
    | inl this ↦
        let at : x.key ≡ key = (same_iff x.key key).0 this in
        let alone =
          delete-none key entries
            (subst (λ k. find_where (has_key same k) entries ≡ none) at d.0) in
        let is : x ≡ e = ground arith in
        rw (this, alone)
          (
            subst (λ (y : Entry K V). x.bytes + total entries ≡ y.bytes + total entries) is refl,
            omega arith,
          )
  ]

  self-found :
      (x : Entry K V) (entries : List (Entry K V))
      → find_where (has_key same x.key) (x ∷ entries) ≡ some x
  self-found x entries = rw ((same_iff x.key x.key).1 refl)

  later-found :
      (x f : Entry K V) (entries : List (Entry K V))
      → find_where (has_key same x.key) entries ≡ none
      → find_where (has_key same f.key) entries ≡ some f
      → find_where (has_key same f.key) (x ∷ entries) ≡ some f
  later-found x f entries absent found = elim (Bool-cases (same x.key f.key)) [
    | inr other ↦ rw other found
    | inl this ↦
        let at : x.key ≡ f.key = (same_iff x.key f.key).0 this in
        let gone = subst (λ k. find_where (has_key same k) entries ≡ none) at absent in
        absurd (ground (arith, gone, found))
  ]

  empty-fits :
      (limits : CacheLimits) (c : Cache K V)
      → length c.entries ≤ 0
      → IsAccounted c
      → is_over same limits c ≡ false
  empty-fits limits c h v = empty-total c.entries limits c h v.bytes
    where
      empty-total :
          (entries : List (Entry K V)) (limits : CacheLimits) (c : Cache K V)
          → length entries ≤ 0
          → c.bytes ≡ total entries
          → (ltb limits.entries (length entries) || ltb limits.bytes c.bytes) ≡ false
      empty-total [] limits c h e = ground arith
      empty-total (x ∷ entries) limits c h e = absurd (ground (arith, h))

  -- The oldest entry is the one of its key.
  oldest-found :
      (entries : List (Entry K V)) {e : Entry K V}
      → DistinctKeys entries
      → oldest same entries ≡ some e
      → find_where (has_key same e.key) entries ≡ some e
  unfolding oldest
  oldest-found [] {e} d h = absurd (ground arith)
  oldest-found (x ∷ entries) {e} d h = elim (Option-cases (oldest same entries)) [
    | inl idle ↦
        let is : x ≡ e = ground arith in
        subst (λ (y : Entry K V). find_where (has_key same y.key) (x ∷ entries) ≡ some y) is
          (self-found x entries)
    | inr (f, more) ↦ elim (Bool-cases (ltb f.used x.used)) [
      | inr young ↦
          let is : x ≡ e = ground arith in
          subst (λ (y : Entry K V). find_where (has_key same y.key) (x ∷ entries) ≡ some y) is
            (self-found x entries)
      | inl old ↦
          let is : f ≡ e = ground arith in
          let found = oldest-found entries d.1 more in
          subst (λ (y : Entry K V). find_where (has_key same y.key) (x ∷ entries) ≡ some y) is
            (later-found x f entries d.0 found)
    ]
  ]

  oldest-none : (entries : List (Entry K V)) → oldest same entries ≡ none → entries ≡ []
  unfolding oldest
  oldest-none [] h = refl
  oldest-none (x ∷ entries) h = elim (Option-cases (oldest same entries)) [
    | inl idle ↦ absurd (ground arith)
    | inr (f, more) ↦ elim (Bool-cases (ltb f.used x.used)) [
      | inl old ↦ absurd (ground arith)
      | inr young ↦ absurd (ground arith)
    ]
  ]

  -- One round of the loop keeps the account and takes one entry.
  evict_one-IsAccounted :
      (c : Cache K V)
      → IsAccounted c
      → IsAccounted (evict_one same c)
        × (length (evict_one same c).entries + 1
            ≤ length c.entries + (if leb 1 (length c.entries) then 0 else 1))
  unfolding evict_one
  evict_one-IsAccounted c v = elim (Option-cases (oldest same c.entries)) [
    | inl none_left ↦
        rw (none_left, evict_one) (v, rw (oldest-none c.entries none_left) (omega arith))
    | inr (e, more) ↦
        let (bytes, size) =
          delete-counts e.key c.entries v.keys (oldest-found c.entries v.keys more) in
        rw (more, evict_one)
          (
            record {
              bytes = omega (arith, v.bytes, bytes);
              keys = DistinctKeys-delete (has_key same e.key) c.entries v.keys;
            },
            omega (arith, size),
          )
  ]

  pub evict-IsAccounted :
      (fuel : ℕ) (limits : CacheLimits) (c : Cache K V)
      → length c.entries ≤ fuel
      → IsAccounted c
      → (is_over same limits (evict same fuel limits c) ≡ false)
        × IsAccounted (evict same fuel limits c)
  unfolding evict
  evict-IsAccounted zero limits c h v = (empty-fits limits c (omega (arith, h)) v, v)
  evict-IsAccounted (suc fuel) limits c h v = elim (Bool-cases (is_over same limits c)) [
    | inr fits ↦ rw (fits, evict) (fits, v)
    | inl over ↦
        let (w, fewer) = evict_one-IsAccounted c v in
        rw (over, evict)
          (evict-IsAccounted fuel limits (evict_one same c) (ground (arith, fewer, h)) w)
  ]
