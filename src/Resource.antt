-- ===== src/Resource.antt =====
-- The decoder's objects and the memory that pagecraft_djvu.cpp holds, and the traces of taking and
-- releasing them that its destructors and `std::unique_ptr`s leave: `~Document`, `~Page`, `~Expression`.
-- An expression is taken by the decoder, which protects it before the guard exists.
use readflex.Prelude.{
  ◌≡◌, refl, arith, inl, inr, ℕ, Option, none, some, List, [], ◌∷◌, ◌++◌, ◌==◌, if◌then◌else◌,
}
use readflex.Failure.{Error, Result, ok, err, Named, Result-cases}

pub data Resource : Type 0 where
  context document page format pixels expression_1 expression_2 : Resource

pub data Event : Type 0 where
  acquire : Resource → Event
  release : Resource → Event
  -- `ddjvu_miniexp_release`, which changes nothing if the expression is not protected.
  unprotect : Resource → Event

-- A part of the code that may throw, with what it takes and releases on the way.
pub record Run {ℓ} (A : Type ℓ) : Type ℓ where
  pub result : Result A
  pub events : List Event

module _ {ℓ} {A : Type ℓ} where
  abbrev pub throws : Error → Run A
  throws e = record { result = err e; events = [] }

  -- An object whose destructor runs at the end of the scope, whether the scope throws or not.
  unfoldable pub scoped : Resource → Run A → Run A
  scoped r body = record {
    result = body.result;
    events = acquire r ∷ (body.events ++ release r ∷ []);
  }

  -- `~Expression`, at the end of the scope of an expression that the decoder has handed over.
  unfoldable pub adopted : Resource → Run A → Run A
  adopted r body = record { result = body.result; events = body.events ++ unprotect r ∷ [] }

  -- An object that its owner keeps if the scope returns, and that is released if it throws.
  unfoldable pub owned : Resource → Run A → Run A
  owned r body = record {
    result = body.result;
    events = acquire r ∷ (body.events ++ elim body.result [ ok _ ↦ [] | err _ ↦ release r ∷ [] ]);
  }

  -- Memory that is freed unless the scope ends by handing it to the caller.
  unfoldable pub handed_over : Resource → Result A → Run A
  handed_over r (ok a) = record { result = ok a; events = acquire r ∷ [] }
  handed_over r (err e) = record { result = err e; events = acquire r ∷ release r ∷ [] }

-- A step that takes nothing, and what follows it.
unfoldable pub after {ℓ κ} : {A : Type ℓ} {B : Type κ} → Result A → (A → Run B) → Run B
after (ok a) f = f a
after (err e) f = throws e

-- A step that may have taken something before it throws, and what follows it.
unfoldable pub after_run {ℓ κ} : {A : Type ℓ} {B : Type κ} → Run A → (A → Run B) → Run B
unfolding after
after_run m f = record {
  result = (after m.result f).result;
  events = m.events ++ (after m.result f).events;
}

-- The resources held after a trace. `none` is a release of something that is not held.
abbrev pub code : Resource → ℕ
code context = 0
code document = 1
code page = 2
code format = 3
code pixels = 4
code expression_1 = 5
code expression_2 = 6

unfoldable pub give_back : Resource → List Resource → Option (List Resource)
give_back r [] = none
give_back r (s ∷ held) =
    let rest = give_back r held in
    if code r == code s then some held else elim rest [ none ↦ none | some kept ↦ some (s ∷ kept) ]

unfoldable pub replay : List Event → List Resource → Option (List Resource)
unfolding give_back
replay [] held = some held
replay (acquire r ∷ events) held = replay events (r ∷ held)
replay (release r ∷ events) held = elim (give_back r held) [
  | none ↦ none
  | some kept ↦ replay events kept
]
replay (unprotect r ∷ events) held = elim (give_back r held) [
  | none ↦ replay events held
  | some kept ↦ replay events kept
]

-- A run that gives back all that it takes.
abbrev pub IsReleased {ℓ} : {A : Type ℓ} → Run A → Type 0
IsReleased run = replay run.events [] ≡ some []

module _ {ℓ κ} {A : Type ℓ} {B : Type κ} (m : Result A) (f : A → Run B) where
  pub after-ok : {b : B} → (after m f).result ≡ ok b → (a : A) × (m ≡ ok a) × ((f a).result ≡ ok b)
  unfolding after
  after-ok h = elim (Result-cases m) [
    | inl (a, e) ↦ (a, e, ground arith)
    | inr (x, e) ↦ absurd (ground arith)
  ]

  pub after-Named : Named m → ((a : A) → Named (f a).result) → Named (after m f).result
  unfolding after
  after-Named h k = elim (Result-cases m) [
    | inl (a, e) ↦ rw (e, after) (k a)
    | inr (x, e) ↦ rw (e, after) (rw e at h)
  ]

  pub after-IsReleased : ((a : A) → IsReleased (f a)) → IsReleased (after m f)
  unfolding after replay
  after-IsReleased k = elim (Result-cases m) [
    | inl (a, e) ↦ rw (e, after) (k a)
    | inr (x, e) ↦ rw (e, after) refl
  ]
