-- ===== src/Base/Sort.antt =====
-- Python's `sorted` with a numeric key: stable, here by insertion.
use jean_fourche.Base.Lists.{any, count, last?, All, In}
use mathlib.Core.Logic.{◌⊎◌}
use mathlib.Core.Option.{some}
use jean_fourche.Base.Tests.{leb, if◌then◌else◌}
use Prim.Native.Nat.{ℕ, ◌≤◌}
use mathlib.Core.Path.{◌≡◌, refl}
use mathlib.Core.Bool.{Bool, ◌||◌}
use mathlib.Core.List.{List, [], ◌∷◌}
use native.Mathlib.Omega.{arith}

module _ {ℓ} {A : Type ℓ} where
  abbrev pub insert_by : (A → ℕ) → A → List A → List A
  insert_by key x [] = x ∷ []
  insert_by key x (y ∷ ys) = if leb (key x) (key y) then x ∷ y ∷ ys else y ∷ insert_by key x ys

  -- sorted(xs, key=key)
  unfoldable pub sort_by : (A → ℕ) → List A → List A
  sort_by key [] = []
  sort_by key (x ∷ xs) = insert_by key x (sort_by key xs)

  -- Neighbours are in order, and so every element is below all that follow.
  abbrev pub Sorted : (A → ℕ) → List A → Type 0
  Sorted key [] = Unit
  Sorted key (x ∷ []) = Unit
  Sorted key (x ∷ y ∷ ys) = (key x ≤ key y) × Sorted key (y ∷ ys)

  any-insert_by :
      (p : A → Bool) (key : A → ℕ) (x : A) (xs : List A)
      → any p (insert_by key x xs) ≡ (p x || any p xs)
  any-insert_by p key x [] = refl
  any-insert_by p key x (y ∷ ys) = ground (arith, any-insert_by p key x ys)

  pub any-sort_by : (p : A → Bool) (key : A → ℕ) (xs : List A) → any p (sort_by key xs) ≡ any p xs
  unfolding sort_by
  any-sort_by p key [] = refl
  any-sort_by p key (x ∷ xs) =
      ground (arith, any-insert_by p key x (sort_by key xs), any-sort_by p key xs)

  insert_by-Sorted :
      (key : A → ℕ) (x : A) (xs : List A) → Sorted key xs → Sorted key (insert_by key x xs)
  insert_by-Sorted key x [] h = tt
  insert_by-Sorted key x (y ∷ []) h = ground arith
  insert_by-Sorted key x (y ∷ z ∷ zs) h = ground (arith, insert_by-Sorted key x (z ∷ zs) h.1)

  pub sort_by-Sorted : (key : A → ℕ) (xs : List A) → Sorted key (sort_by key xs)
  unfolding sort_by
  sort_by-Sorted key [] = tt
  sort_by-Sorted key (x ∷ xs) = insert_by-Sorted key x (sort_by key xs) (sort_by-Sorted key xs)

  count-insert_by :
      (p : A → Bool) (key : A → ℕ) (x : A) (xs : List A)
      → count p (insert_by key x xs) ≡ count p (x ∷ xs)
  count-insert_by p key x [] = refl
  count-insert_by p key x (y ∷ ys) = ground (arith, count-insert_by p key x ys)

  pub count-sort_by :
      (p : A → Bool) (key : A → ℕ) (xs : List A) → count p (sort_by key xs) ≡ count p xs
  unfolding sort_by
  count-sort_by p key [] = refl
  count-sort_by p key (x ∷ xs) =
      ground (arith, count-insert_by p key x (sort_by key xs), count-sort_by p key xs)

  -- The last of a sorted list has the greatest key.
  pub Sorted-last :
      (key : A → ℕ) (x : A) (xs : List A) {l : A}
      → Sorted key (x ∷ xs)
      → last? (x ∷ xs) ≡ some l
      → All (λ y. key y ≤ key l) (x ∷ xs)
  Sorted-last key x [] h e = ground arith
  Sorted-last key x (y ∷ ys) h e = ground (arith, Sorted-last key y ys h.1 e)

  All-insert_by :
      (P : A → Type 0) (key : A → ℕ) (x : A) (xs : List A)
      → All P (insert_by key x xs)
      → P x × All P xs
  All-insert_by P key x [] h = h
  All-insert_by P key x (y ∷ ys) h = ground (arith, All-insert_by P key x ys)

  pub All-sort_by : (P : A → Type 0) (key : A → ℕ) (xs : List A) → All P (sort_by key xs) → All P xs
  unfolding sort_by
  All-sort_by P key [] h = tt
  All-sort_by P key (x ∷ xs) h =
      let parts : P x × All P (sort_by key xs) = All-insert_by P key x (sort_by key xs) h in
      (parts.0, All-sort_by P key xs parts.1)

module _ {A : Type 0} where
  In-insert_by :
      (key : A → ℕ) (a x : A) (xs : List A) → In a (insert_by key x xs) → (x ≡ a) ⊎ In a xs
  In-insert_by key a x [] m = m
  In-insert_by key a x (y ∷ ys) m = ground (arith, In-insert_by key a x ys)

  pub In-sort_by : (key : A → ℕ) (a : A) (xs : List A) → In a (sort_by key xs) → In a xs
  unfolding sort_by
  In-sort_by key a [] m = m
  In-sort_by key a (x ∷ xs) m =
      ground (arith, In-insert_by key a x (sort_by key xs) m, In-sort_by key a xs)
