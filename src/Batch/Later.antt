-- ===== src/Batch/Later.antt =====
-- What of a task's record stays as it was checked, whatever happens to the task.
use web_bijin.Prelude.{
  ℕ, ◌≤◌, ◌≡◌, refl, inl, inr, Bool, true, false, not, List, [], ◌∷◌, arith, Bool-cases,
  update_where, sym, ◌∙◌, subst,
}
use web_bijin.Batch.{Batch, Item, BatchStatus, is_running, is_pending, is_success, stopped_as}
use web_bijin.Batch.Attempt.{begun, to_pending}
use web_bijin.Batch.Commit.{is_item, put_result}

-- The photo and the permit that were checked are the same, and a photo that has succeeded is left
-- with its link.
pub record IsLaterItem (x y : Item) : Type 0 where
  pub ordinal : y.ordinal ≡ x.ordinal
  pub photo : y.photo ≡ x.photo
  pub generation : y.generation ≡ x.generation
  pub kept : is_success x ≡ true → y ≡ x

abbrev pub Later : List Item → List Item → Type 0
Later [] [] = Unit {0}
Later [] (y ∷ ys) = ⊥
Later (x ∷ xs) [] = ⊥
Later (x ∷ xs) (y ∷ ys) = IsLaterItem x y × Later xs ys

-- What was checked is the same, the revision does not fall, and a task that does not run changes
-- only by a new attempt.
pub record IsLaterTask (b b' : Batch) : Type 0 where
  pub mode : b'.mode ≡ b.mode
  pub albums : b'.albums ≡ b.albums
  pub created : b'.created ≡ b.created
  pub total : b'.total ≡ b.total
  pub shared : b'.shared ≡ b.shared
  pub items : Later b.items b'.items
  pub revision : b.revision ≤ b'.revision
  pub idle : is_running b ≡ false → b'.revision ≡ b.revision → b' ≡ b

same-Item : (x : Item) → IsLaterItem x x
same-Item x = record { ordinal = refl; photo = refl; generation = refl; kept = λ h. refl }

pub same-Later : (items : List Item) → Later items items
same-Later [] = tt
same-Later (x ∷ items) = (same-Item x, same-Later items)

Later-trans : (xs ys zs : List Item) → Later xs ys → Later ys zs → Later xs zs
Later-trans [] [] [] h k = tt
Later-trans (x ∷ xs) (y ∷ ys) (z ∷ zs) h k = (
  record {
    ordinal = k.0.ordinal ∙ h.0.ordinal;
    photo = k.0.photo ∙ h.0.photo;
    generation = k.0.generation ∙ h.0.generation;
    kept = λ s.
        let one = h.0.kept s in
        k.0.kept (subst (λ (i : Item). is_success i ≡ true) (sym one) s) ∙ one;
  },
  Later-trans xs ys zs h.1 k.1,
)
Later-trans [] [] (z ∷ zs) h k = absurd k
Later-trans [] (y ∷ ys) zs h k = absurd h
Later-trans (x ∷ xs) [] zs h k = absurd h
Later-trans (x ∷ xs) (y ∷ ys) [] h k = absurd k

-- An update of items that have not succeeded.
pub Later-update :
    (p : Item → Bool) (f : Item → Item) (items : List Item)
    → ((x : Item) → p x ≡ true → IsLaterItem x (f x))
    → Later items (update_where p f items)
Later-update p f [] h = tt
Later-update p f (x ∷ items) h = elim (Bool-cases (p x)) [
  | inl t ↦ rw t (h x t, Later-update p f items h)
  | inr t ↦ rw t (same-Item x, Later-update p f items h)
]

pub same-Task : (b : Batch) → IsLaterTask b b
same-Task b = record {
  mode = refl;
  albums = refl;
  created = refl;
  total = refl;
  shared = refl;
  items = same-Later b.items;
  revision = omega arith;
  idle = λ h k. refl;
}

pub Task-trans : (a b c : Batch) → IsLaterTask a b → IsLaterTask b c → IsLaterTask a c
Task-trans a b c h k = record {
  mode = k.mode ∙ h.mode;
  albums = k.albums ∙ h.albums;
  created = k.created ∙ h.created;
  total = k.total ∙ h.total;
  shared = k.shared ∙ h.shared;
  items = Later-trans a.items b.items c.items h.items k.items;
  revision = omega (arith, h.revision, k.revision);
  idle = λ stopped e.
      let one = h.idle stopped (omega (arith, e, h.revision, k.revision)) in
      k.idle (subst (λ (x : Batch). is_running x ≡ false) (sym one) stopped)
        (omega (arith, e, h.revision, k.revision))
      ∙ one;
}

pub reset-Later :
    (items : List Item) → Later items (update_where (λ it. not (is_success it)) to_pending items)
reset-Later items =
    Later-update (λ it. not (is_success it)) to_pending items
      (λ x h. record {
        ordinal = refl;
        photo = refl;
        generation = refl;
        kept = λ s. absurd (ground (arith, h, s));
      })

begun-items : (retry : Bool) (b : Batch) → Later b.items (begun retry b).items
begun-items true b = reset-Later b.items
begun-items false b = same-Later b.items

pub begun-Later : (retry : Bool) (b : Batch) → IsLaterTask b (begun retry b)
begun-Later retry b = record {
  mode = refl;
  albums = refl;
  created = refl;
  total = refl;
  shared = refl;
  items = begun-items retry b;
  revision = omega arith;
  idle = λ h e. absurd (omega (arith, e));
}

pub stopped-Later :
    (status : BatchStatus) (now : ℕ) (b : Batch)
    → is_running b ≡ true
    → IsLaterTask b (stopped_as status now b)
stopped-Later status now b active = record {
  mode = refl;
  albums = refl;
  created = refl;
  total = refl;
  shared = refl;
  items = same-Later b.items;
  revision = omega arith;
  idle = λ h e. absurd (ground (arith, active, h));
}

pending-unlike-success : (x : Item) → is_pending x ≡ true → is_success x ≡ true → ⊥
pending-unlike-success x h s = ground (arith, h, s)

-- A result keeps what was checked.
abbrev pub KeepsChecked : (Item → Item) → Type 0
KeepsChecked f =
    (x : Item)
    → ((f x).ordinal ≡ x.ordinal) × ((f x).photo ≡ x.photo) × ((f x).generation ≡ x.generation)

pub put_result-Later :
    (it : Item) (f : Item → Item) (b : Batch)
    → is_running b ≡ true
    → KeepsChecked f
    → IsLaterTask b (put_result it f b)
put_result-Later it f b active keeps = record {
  mode = refl;
  albums = refl;
  created = refl;
  total = refl;
  shared = refl;
  items = Later-update (is_item it) f b.items (λ x h. record {
    ordinal = (keeps x).0;
    photo = (keeps x).1;
    generation = (keeps x).2;
    kept = λ s. absurd (pending-unlike-success x (ground (arith, h)) s);
  });
  revision = omega arith;
  idle = λ h e. absurd (ground (arith, active, h));
}
