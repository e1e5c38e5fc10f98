-- ===== src/Share/Served.antt =====
-- What a visitor of a link gets, by `snapshot` and `media` of sharing.go.
use web_bijin.Prelude.{
  ℕ, ◌≡◌, refl, inl, inr, true, not, ◌||◌, Option, none, some, List, Text, arith, nat_eq, text_eq,
  ◌==◌, text_beq, text_beq_iff, Bool-cases, if◌then◌else◌, ltb, sym, ◌∙◌, ◌⊎◌, if-both, codes, ◌++◌,
}
use web_bijin.Store.{Photo, Share, Store}
use web_bijin.Share.{is_active, share_for_token, retire_share}
use web_bijin.Share.Media.{
  ReadError, source_gone, other_failure, Answer, answered, wrong, Object, ShareSnapshot, Reading,
  extension_of, snapshot_of, check_copy, snapshot, Served, sent, not_found, unavailable, is_other,
  serve,
}

Answer-cases :
    {A : Type 0} (a : Answer A) → ((e : ReadError) × (a ≡ wrong e)) ⊎ ((x : A) × (a ≡ answered x))
Answer-cases (answered x) = inr (x, refl)
Answer-cases (wrong e) = inl (e, refl)

-- The bytes of a copy have its digest, whichever way `snapshot` came to an answer.
abbrev HasDigest : (List ℕ → Text) → Answer ShareSnapshot → Type 0
HasDigest sha (answered snap) = snap.digest ≡ sha snap.bytes
HasDigest sha (wrong e) = Unit {0}

module _ (sha : List ℕ → Text) (count : List ℕ → ℕ) where
  snapshot_of-HasDigest :
      (scope : Text) (bytes : List ℕ) (r : Reading)
      → HasDigest sha (snapshot_of sha count scope bytes r)
  unfolding snapshot_of
  snapshot_of-HasDigest scope bytes r =
      if-both (HasDigest sha) (not r.rewound) tt (formatted r.format)
    where
      known :
          (format : Text) (o : Option Text)
          → HasDigest sha (elim o [
            | none ↦ wrong source_gone
            | some extension ↦
                if not r.in_time
                then wrong other_failure
                else answered (record {
                  bytes = bytes;
                  digest = sha bytes;
                  scope = scope;
                  mime = codes "image/" ++ format;
                  extension = extension;
                  size = count bytes;
                })
          ])
      known format none = tt
      known format (some extension) = if-both (HasDigest sha) (not r.in_time) tt refl

      formatted :
          (o : Option Text)
          → HasDigest sha (elim o [
            | none ↦ wrong source_gone
            | some format ↦ elim (extension_of format) [
              | none ↦ wrong source_gone
              | some extension ↦
                  if not r.in_time
                  then wrong other_failure
                  else answered (record {
                    bytes = bytes;
                    digest = sha bytes;
                    scope = scope;
                    mime = codes "image/" ++ format;
                    extension = extension;
                    size = count bytes;
                  })
            ]
          ])
      formatted none = tt
      formatted (some format) = known format (extension_of format)

  check_copy-HasDigest :
      (scope : Text) (object : Object) (bytes : List ℕ) (r : Reading)
      → HasDigest sha (check_copy sha count scope object bytes r)
  unfolding check_copy text_beq
  check_copy-HasDigest scope object bytes r = elim (Answer-cases r.object_after) [
    | inl (e, h) ↦
        rw (h, check_copy) (if-both (HasDigest sha) (not (count bytes == object.size)) tt tt)
    | inr (current, h) ↦ elim (Answer-cases r.scope_after) [
      | inl (e, k) ↦
          rw (h, k, check_copy)
            (if-both (HasDigest sha) (not (count bytes == object.size)) tt (
              if-both (HasDigest sha)
                (not (current.version == object.version) || not (current.size == object.size)) tt
                tt))
      | inr (after, k) ↦
          rw (h, k, check_copy)
            (if-both (HasDigest sha) (not (count bytes == object.size)) tt (
              if-both (HasDigest sha)
                (not (current.version == object.version) || not (current.size == object.size)) tt
                (if-both (HasDigest sha) (not (after == scope)) tt
                  (snapshot_of-HasDigest scope bytes r))))
    ]
  ]

  snapshot-HasDigest : (p : Photo) (r : Reading) → HasDigest sha (snapshot sha count p r)
  unfolding snapshot text_beq
  snapshot-HasDigest p r = elim (Answer-cases r.scope) [
    | inl (e, h) ↦ rw (h, snapshot) tt
    | inr (scope, h) ↦ elim (Answer-cases r.object) [
      | inl (e, k) ↦ rw (h, k, snapshot) tt
      | inr (object, k) ↦ elim (Answer-cases r.opened) [
        | inl (e, l) ↦
            rw (h, k, l, snapshot)
              (if-both (HasDigest sha)
                (not (object.version == p.source_version)
                  || not (object.size == p.size)
                  || not (ltb 0 object.size))
                tt tt)
        | inr (bytes, l) ↦
            rw (h, k, l, snapshot)
              (if-both (HasDigest sha)
                (not (object.version == p.source_version)
                  || not (object.size == p.size)
                  || not (ltb 0 object.size))
                tt (check_copy-HasDigest scope object bytes r))
      ]
    ]
  ]

  -- What an answer to a visitor may be.
  abbrev pub Right : Text → Share → Store → Served × Store → Type 0
  Right token sh s (sent permit snap, after) =
      (permit ≡ sh)
      × (sha snap.bytes ≡ sh.digest)
      × (is_active (share_for_token token s) ≡ true)
      × (after ≡ s)
  Right token sh s (not_found, after) = (after ≡ s) ⊎ (after ≡ retire_share token s)
  Right token sh s (unavailable, after) = after ≡ s

  answer-Right :
      (token : Text) (sh : Share) (a : Answer ShareSnapshot) (s : Store)
      → HasDigest sha a
      → Right token sh s (serve token sh a s)
  unfolding serve is_other
  answer-Right token sh (wrong source_gone) s d = inr refl
  answer-Right token sh (wrong other_failure) s d = refl
  answer-Right token sh (answered snap) s d = elim (Bool-cases (is_other sh snap)) [
    | inl e ↦ rw (e, serve) (inr refl)
    | inr e ↦
        let same : snap.digest ≡ sh.digest =
          ground (arith, text_beq_iff snap.digest sh.digest, e) in
        elim (Bool-cases (is_active (share_for_token token s))) [
          | inl f ↦ rw (e, f, serve) (refl, sym d ∙ same, f, refl)
          | inr f ↦ rw (e, f, serve) (inl refl)
        ]
  ]

  -- However the store has changed while the original was read, bytes are sent only while the link
  -- is active, only if they hash to the digest of the permit that was looked up, and then the store
  -- is as it was; any other answer sends nothing, and the only thing it may change is to end the
  -- link.
  pub serve-Right :
      (token : Text) (sh : Share) (p : Photo) (r : Reading) (s : Store)
      → Right token sh s (serve token sh (snapshot sha count p r) s)
  serve-Right token sh p r s =
      answer-Right token sh (snapshot sha count p r) s (snapshot-HasDigest p r)
