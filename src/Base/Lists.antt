-- ===== src/Base/Lists.antt =====
-- Python lists: comprehensions by Boolean tests, membership of numbers, and their laws.
use Prim.Native.Nat.{ℕ, suc, ◌+◌, ◌≤◌}
use mathlib.Core.Path.{◌≡◌, refl, ap, subst}
use mathlib.Core.Logic.{◌⊎◌, inl, inr}
use mathlib.Core.Bool.{Bool, true, false, not, ◌&&◌, ◌||◌}
use mathlib.Core.Option.{Option, none, some}
use mathlib.Core.List.{List, [], ◌∷◌, ◌++◌, map, reverse, reverse-append}
use native.Mathlib.Omega.{arith}
use jean_fourche.Base.Tests.{◌==◌, if◌then◌else◌, Bool-cases}

module _ {ℓ} {A : Type ℓ} where
  -- [x for x in xs if p(x)]
  abbrev pub filter : (A → Bool) → List A → List A
  filter p [] = []
  filter p (x ∷ xs) = let rest = filter p xs in if p x then x ∷ rest else rest

  -- any(p(x) for x in xs)
  abbrev pub any : (A → Bool) → List A → Bool
  any p [] = false
  any p (x ∷ xs) = p x || any p xs

  -- all(p(x) for x in xs)
  abbrev pub all : (A → Bool) → List A → Bool
  all p [] = true
  all p (x ∷ xs) = p x && all p xs

  abbrev pub length : List A → ℕ
  length [] = 0
  length (x ∷ xs) = suc (length xs)

  -- xs[-1], which raises on an empty list
  abbrev pub last? : List A → Option A
  last? [] = none
  last? (x ∷ []) = some x
  last? (x ∷ y ∷ xs) = last? (y ∷ xs)

  -- next(filter(p, xs), False)
  abbrev pub find? : (A → Bool) → List A → Option A
  find? p [] = none
  find? p (x ∷ xs) = if p x then some x else find? p xs

  -- A predicate at every element.
  abbrev pub All {κ} : (A → Type κ) → List A → Type κ
  All P [] = Unit
  All P (x ∷ xs) = P x × All P xs

  pub any-append : (p : A → Bool) (xs ys : List A) → any p (xs ++ ys) ≡ (any p xs || any p ys)
  any-append p [] ys = refl
  any-append p (x ∷ xs) ys = ground (arith, any-append p xs ys)

  pub any-reverse : (p : A → Bool) (xs : List A) → any p (reverse xs) ≡ any p xs
  any-reverse p [] = refl
  any-reverse p (x ∷ xs) = ground (
    arith,
    ap (any p) (reverse-append (x ∷ []) xs),
    any-append p (reverse xs) (x ∷ []),
    any-reverse p xs,
  )

  pub any-filter : (p q : A → Bool) (xs : List A) → any p (filter q xs) ≡ any (λ x. q x && p x) xs
  any-filter p q [] = refl
  any-filter p q (x ∷ xs) = ground (arith, any-filter p q xs)

  -- A test that implies another holds less often.
  pub any_mono :
      (p q : A → Bool) (xs : List A)
      → ((x : A) → p x ≡ true → q x ≡ true)
      → any p xs ≡ true
      → any q xs ≡ true
  any_mono p q [] h e = e
  any_mono p q (x ∷ xs) h e = ground (arith, h x, any_mono p q xs h)

  pub length-filter-le : (p : A → Bool) (xs : List A) → length (filter p xs) ≤ length xs
  length-filter-le p [] = omega arith
  length-filter-le p (x ∷ xs) = ground (arith, length-filter-le p xs)

module _ {ℓ κ} {A : Type ℓ} {B : Type κ} where
  pub any-map : (f : A → B) (p : B → Bool) (xs : List A) → any p (map f xs) ≡ any (λ x. p (f x)) xs
  any-map f p [] = refl
  any-map f p (x ∷ xs) = ground (arith, any-map f p xs)

  -- [y for x in xs for y in f(x)]
  abbrev pub flat_map : (A → List B) → List A → List B
  flat_map f [] = []
  flat_map f (x ∷ xs) = f x ++ flat_map f xs

  pub any-flat_map :
      (p : B → Bool) (f : A → List B) (xs : List A)
      → any p (flat_map f xs) ≡ any (λ x. any p (f x)) xs
  any-flat_map p f [] = refl
  any-flat_map p f (x ∷ xs) =
      ground (arith, any-append p (f x) (flat_map f xs), any-flat_map p f xs)

-- x in xs
abbrev pub elem : ℕ → List ℕ → Bool
elem x = any (λ y. y == x)

module _ {ℓ} {A : Type ℓ} where
  -- len([x for x in xs if p(x)])
  abbrev pub count : (A → Bool) → List A → ℕ
  count p [] = 0
  count p (x ∷ xs) = (if p x then 1 else 0) + count p xs

  pub count-append : (p : A → Bool) (xs ys : List A) → count p (xs ++ ys) ≡ count p xs + count p ys
  count-append p [] ys = omega arith
  count-append p (x ∷ xs) ys = omega (arith, count-append p xs ys)

  pub count-reverse : (p : A → Bool) (xs : List A) → count p (reverse xs) ≡ count p xs
  count-reverse p [] = refl
  count-reverse p (x ∷ xs) = omega (
    arith,
    ap (count p) (reverse-append (x ∷ []) xs),
    count-append p (reverse xs) (x ∷ []),
    count-reverse p xs,
  )

  -- A split by a test loses nothing.
  pub count-filter :
      (p q : A → Bool) (xs : List A)
      → count p (filter q xs) + count p (filter (λ x. not (q x)) xs) ≡ count p xs
  count-filter p q [] = omega arith
  count-filter p q (x ∷ xs) = ground (arith, count-filter p q xs)

module _ {A : Type 0} where
  -- Membership, with the place kept.
  abbrev pub In : A → List A → Type 0
  In a [] = ⊥
  In a (x ∷ xs) = (x ≡ a) ⊎ In a xs

  pub All-In : (P : A → Type 0) (a : A) (xs : List A) → All P xs → In a xs → P a
  All-In P a [] h m = absurd m
  All-In P a (x ∷ xs) h (inl e) = subst P e h.0
  All-In P a (x ∷ xs) h (inr m) = All-In P a xs h.1 m

-- No number stands twice.
abbrev pub Distinct : List ℕ → Type 0
Distinct [] = Unit
Distinct (x ∷ xs) = (elem x xs ≡ false) × Distinct xs

module _ {A : Type 0} where
  In-filter_head :
      (p : A → Bool) (a x : A) (xs : List A)
      → (In a (filter p xs) → In a xs × (p a ≡ true))
      → p x ≡ true
      → (x ≡ a) ⊎ In a (filter p xs)
      → In a (x ∷ xs) × (p a ≡ true)
  In-filter_head p a x xs ih e (inl here) = (inl here, subst (λ y. p y ≡ true) here e)
  In-filter_head p a x xs ih e (inr there) = (inr (ih there).0, (ih there).1)

  pub In-filter : (p : A → Bool) (a : A) (xs : List A) → In a (filter p xs) → In a xs × (p a ≡ true)
  In-filter p a [] m = absurd m
  In-filter p a (x ∷ xs) m = elim (Bool-cases (p x)) [
    | inl e ↦ In-filter_head p a x xs (In-filter p a xs) e (rw e at m)
    | inr e ↦ let h : In a xs × (p a ≡ true) = In-filter p a xs (rw e at m) in (inr h.0, h.1)
  ]

  pub All-filter :
      (P : A → Type 0) (p : A → Bool) (xs : List A)
      → All P (filter p xs)
      → All (λ x. p x ≡ true → P x) xs
  All-filter P p [] h = tt
  All-filter P p (x ∷ xs) h = elim (Bool-cases (p x)) [
    | inl e ↦
        let both : P x × All P (filter p xs) = rw e at h in (λ _. both.0, All-filter P p xs both.1)
    | inr e ↦ (λ e'. absurd (ground arith), All-filter P p xs (rw e at h))
  ]

module _ {A : Type 0} where
  -- A relation between the elements of two lists, place by place.
  abbrev pub Pairwise : (A → A → Type 0) → List A → List A → Type 0
  Pairwise R [] [] = Unit
  Pairwise R [] (y ∷ ys) = ⊥
  Pairwise R (x ∷ xs) [] = ⊥
  Pairwise R (x ∷ xs) (y ∷ ys) = R x y × Pairwise R xs ys

  pub Pairwise-refl : (R : A → A → Type 0) → ((a : A) → R a a) → (xs : List A) → Pairwise R xs xs
  Pairwise-refl R h [] = tt
  Pairwise-refl R h (x ∷ xs) = (h x, Pairwise-refl R h xs)

  pub Pairwise-map :
      (R : A → A → Type 0) (f : A → A)
      → ((a : A) → R a (f a))
      → (xs : List A) → Pairwise R xs (map f xs)
  Pairwise-map R f h [] = tt
  Pairwise-map R f h (x ∷ xs) = (h x, Pairwise-map R f h xs)

  pub In-find : (p : A → Bool) (a : A) (xs : List A) → find? p xs ≡ some a → In a xs × (p a ≡ true)
  In-find p a [] e = absurd (ground arith)
  In-find p a (x ∷ xs) e = elim (Bool-cases (p x)) [
    | inl found ↦ let same : x ≡ a = ground arith in (inl same, subst (λ y. p y ≡ true) same found)
    | inr missed ↦
        let h : In a xs × (p a ≡ true) = In-find p a xs (rw missed at e) in (inr h.0, h.1)
  ]
