-- ===== src/Prelude/Order.antt =====
-- `ORDER BY`: rows in the order of a test, by insertion.
use Prim.Native.Nat.{suc}
use mathlib.Core.Path.{◌≡◌, refl}
use mathlib.Core.Logic.{inl, inr}
use mathlib.Core.Bool.{Bool, true, false}
use mathlib.Core.List.{List, [], ◌∷◌}
use native.Mathlib.Omega.{arith}
use evidencedesk.Prelude.Tests.{if◌then◌else◌, Bool-cases}
use evidencedesk.Prelude.Lists.{length, select, All, All-mono}

module _ {ℓ} {A : Type ℓ} (before : A → A → Bool) where
  unfoldable pub insert : A → List A → List A
  insert x [] = x ∷ []
  insert x (y ∷ ys) = let rest = insert x ys in if before x y then x ∷ y ∷ ys else y ∷ rest

  unfoldable pub sort : List A → List A
  unfolding insert
  sort [] = []
  sort (x ∷ xs) = insert x (sort xs)

  select-insert :
      (test : A → Bool) (x : A) (xs : List A)
      → length (select test (insert x xs)) ≡ length (select test (x ∷ xs))
  unfolding insert
  select-insert test x [] = refl
  select-insert test x (y ∷ ys) = ground (arith, select-insert test x ys)

  -- Sorting drops and adds nothing: as many rows pass any test as before.
  pub select-sort :
      (test : A → Bool) (xs : List A) → length (select test (sort xs)) ≡ length (select test xs)
  unfolding sort
  select-sort test [] = refl
  select-sort test (x ∷ xs) = ground (arith, select-insert test x (sort xs), select-sort test xs)

  length-insert : (x : A) (xs : List A) → length (insert x xs) ≡ suc (length xs)
  unfolding insert
  length-insert x [] = refl
  length-insert x (y ∷ ys) = ground (arith, length-insert x ys)

  pub length-sort : (xs : List A) → length (sort xs) ≡ length xs
  unfolding sort
  length-sort [] = refl
  length-sort (x ∷ xs) = ground (arith, length-insert x (sort xs), length-sort xs)

  abbrev pub IsSorted : List A → Type 0
  IsSorted [] = Unit
  IsSorted (x ∷ xs) = All (λ y. before x y ≡ true) xs × IsSorted xs

  insert-All : (P : A → Type 0) (x : A) (xs : List A) → P x → All P xs → All P (insert x xs)
  unfolding insert
  insert-All P x [] px h = (px, tt)
  insert-All P x (y ∷ ys) px h = elim (Bool-cases (before x y)) [
    | inl e ↦ rw e (px, h)
    | inr e ↦ rw e (h.0, insert-All P x ys px h.1)
  ]

  pub sort-All : (P : A → Type 0) (xs : List A) → All P xs → All P (sort xs)
  unfolding sort
  sort-All P [] h = tt
  sort-All P (x ∷ xs) h = insert-All P x (sort xs) h.0 (sort-All P xs h.1)

  module _ (total : (x y : A) → before x y ≡ false → before y x ≡ true)
      (transitive : (x y z : A) → before x y ≡ true → before y z ≡ true → before x z ≡ true) where
    insert-IsSorted : (x : A) (xs : List A) → IsSorted xs → IsSorted (insert x xs)
    unfolding insert
    insert-IsSorted x [] h = (tt, tt)
    insert-IsSorted x (y ∷ ys) h = elim (Bool-cases (before x y)) [
      | inl e ↦ rw e ((e, All-mono _ _ ys (λ z q. transitive x y z e q) h.0), h)
      | inr e ↦
          rw e
            (insert-All (λ z. before y z ≡ true) x ys (total x y e) h.0, insert-IsSorted x ys h.1)
    ]

    pub sort-IsSorted : (xs : List A) → IsSorted (sort xs)
    unfolding sort
    sort-IsSorted [] = tt
    sort-IsSorted (x ∷ xs) = insert-IsSorted x (sort xs) (sort-IsSorted xs)
