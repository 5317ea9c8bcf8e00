-- ===== src/Base/Dict.antt =====
-- A `defaultdict(list)`: the values that are appended under a key, keys in order of insertion;
-- and `itertools.groupby`, which collects neighbours alone.
use jean_fourche.Base.Eq.{Eq, beq_refl, beq_apart, beq_join}
use jean_fourche.Base.Lists.{filter, length, any}
use jean_fourche.Base.Tests.{leb, if◌then◌else◌, Bool-cases}
use Prim.Native.Nat.{ℕ}
use mathlib.Core.Path.{◌≡◌, refl, sym, ap, ◌∙◌}
use mathlib.Core.Logic.{inl, inr}
use mathlib.Core.Bool.{Bool, true, false, ◌||◌}
use mathlib.Core.List.{List, [], ◌∷◌, ◌++◌, append_assoc, append-nil}
use native.Mathlib.Omega.{arith}

module _ {K A : Type 0} ⦃e : Eq K⦄ where
  abbrev pub get : K → List (K × List A) → List A
  get k [] = []
  get k ((j, xs) ∷ d) = if e.beq j k then xs else get k d

  -- dict_[key].append(x)
  abbrev pub dict_append : K → A → List (K × List A) → List (K × List A)
  dict_append k x [] = (k, x ∷ []) ∷ []
  dict_append k x ((j, xs) ∷ d) =
      if e.beq j k then (j, xs ++ x ∷ []) ∷ d else (j, xs) ∷ dict_append k x d

  abbrev pub dict_extend : K → List A → List (K × List A) → List (K × List A)
  dict_extend k [] d = d
  dict_extend k (x ∷ xs) d = dict_extend k xs (dict_append k x d)

  abbrev pub join_run : (A → K) → A → List (K × List A) → List (K × List A)
  join_run key x [] = (key x, x ∷ []) ∷ []
  join_run key x ((k, run) ∷ rest) =
      if e.beq (key x) k then (key x, x ∷ run) ∷ rest else (key x, x ∷ []) ∷ (k, run) ∷ rest

  -- itertools.groupby(xs, key=key)
  abbrev pub groupby : (A → K) → List A → List (K × List A)
  groupby key [] = []
  groupby key (x ∷ xs) = join_run key x (groupby key xs)

  abbrev pub extend_all : List (K × List A) → List (K × List A) → List (K × List A)
  extend_all [] d = d
  extend_all ((k, run) ∷ runs) d = extend_all runs (dict_extend k run d)

  abbrev pub at_least : ℕ → List (K × List A) → List (K × List A)
  at_least level d = filter (λ g. leb level (length g.1)) d

  abbrev pub has_key : K → List (K × List A) → Bool
  has_key k = any (λ g. e.beq g.0 k)

  -- A dict has a key once.
  abbrev pub DistinctKeys : List (K × List A) → Type 0
  DistinctKeys [] = Unit
  DistinctKeys (g ∷ d) = (has_key g.0 d ≡ false) × DistinctKeys d

  pub get-dict_append :
      (j k : K) (x : A) (d : List (K × List A))
      → get j (dict_append k x d) ≡ (if e.beq k j then get j d ++ x ∷ [] else get j d)
  get-dict_append j k x [] = ground arith
  get-dict_append j k x ((i, xs) ∷ d) = elim (Bool-cases (e.beq i k)) [
    | inl same ↦ ground (arith, beq_apart i k j same)
    | inr apart ↦ ground (arith, get-dict_append j k x d, beq_join i k j)
  ]

  get-dict_extend :
      (j k : K) (xs : List A) (d : List (K × List A))
      → get j (dict_extend k xs d) ≡ (if e.beq k j then get j d ++ xs else get j d)
  get-dict_extend j k [] d = ground (arith, append-nil (get j d))
  get-dict_extend j k (x ∷ xs) d = ground (
    arith,
    get-dict_extend j k xs (dict_append k x d),
    get-dict_append j k x d,
    append_assoc (get j d) (x ∷ []) xs,
  )

  -- What stands under a key in a list of runs, from first to last.
  abbrev gathered : K → List (K × List A) → List A
  gathered j [] = []
  gathered j ((k, run) ∷ runs) = (if e.beq k j then run else []) ++ gathered j runs

  get-extend_all :
      (j : K) (runs d : List (K × List A)) → get j (extend_all runs d) ≡ get j d ++ gathered j runs
  get-extend_all j [] d = sym (append-nil (get j d))
  get-extend_all j ((k, run) ∷ runs) d = ground (
    arith,
    get-extend_all j runs (dict_extend k run d),
    get-dict_extend j k run d,
    append_assoc (get j d) run (gathered j runs),
  )

  gathered-join_run :
      (j : K) (key : A → K) (x : A) (runs : List (K × List A))
      → gathered j (join_run key x runs)
        ≡ (if e.beq (key x) j then x ∷ gathered j runs else gathered j runs)
  gathered-join_run j key x [] = ground arith
  gathered-join_run j key x ((k, run) ∷ runs) = elim (Bool-cases (e.beq (key x) k)) [
    | inl same ↦ ground (arith, beq_apart (key x) k j same)
    | inr apart ↦ ground arith
  ]

  gathered-groupby :
      (j : K) (key : A → K) (xs : List A)
      → gathered j (groupby key xs) ≡ filter (λ x. e.beq (key x) j) xs
  gathered-groupby j key [] = refl
  gathered-groupby j key (x ∷ xs) =
      ground (arith, gathered-join_run j key x (groupby key xs), gathered-groupby j key xs)

  -- Runs of neighbours, gathered in a dict, are the groups of the whole list.
  pub get-extend_all-groupby :
      (j : K) (key : A → K) (xs : List A)
      → get j (extend_all (groupby key xs) []) ≡ filter (λ x. e.beq (key x) j) xs
  get-extend_all-groupby j key xs = get-extend_all j (groupby key xs) [] ∙ gathered-groupby j key xs

  has_key-dict_append :
      (j k : K) (x : A) (d : List (K × List A))
      → has_key j (dict_append k x d) ≡ (e.beq k j || has_key j d)
  has_key-dict_append j k x [] = ground arith
  has_key-dict_append j k x ((i, xs) ∷ d) = elim (Bool-cases (e.beq i k)) [
    | inl same ↦ ground (arith, beq_apart i k j same)
    | inr apart ↦ ground (arith, has_key-dict_append j k x d)
  ]

  pub dict_append-DistinctKeys :
      (k : K) (x : A) (d : List (K × List A)) → DistinctKeys d → DistinctKeys (dict_append k x d)
  dict_append-DistinctKeys k x [] h = (refl, tt)
  dict_append-DistinctKeys k x ((i, xs) ∷ d) h = elim (Bool-cases (e.beq i k)) [
    | inl same ↦ ground arith
    | inr apart ↦ ground (
      arith,
      has_key-dict_append i k x d,
      dict_append-DistinctKeys k x d h.1,
      beq_join i k i,
      beq_refl i,
    )
  ]

  extend-DistinctKeys :
      (k : K) (xs : List A) (d : List (K × List A))
      → DistinctKeys d
      → DistinctKeys (dict_extend k xs d)
  extend-DistinctKeys k [] d h = h
  extend-DistinctKeys k (x ∷ xs) d h =
      extend-DistinctKeys k xs (dict_append k x d) (dict_append-DistinctKeys k x d h)

  pub extend_all-DistinctKeys :
      (runs d : List (K × List A)) → DistinctKeys d → DistinctKeys (extend_all runs d)
  extend_all-DistinctKeys [] d h = h
  extend_all-DistinctKeys ((k, run) ∷ runs) d h =
      extend_all-DistinctKeys runs (dict_extend k run d) (extend-DistinctKeys k run d h)

  get-missing : (k : K) (d : List (K × List A)) → has_key k d ≡ false → get k d ≡ []
  get-missing k [] h = refl
  get-missing k (g ∷ d) h = ground (arith, get-missing k d)

  pub get-at_least :
      (k : K) (level : ℕ) (d : List (K × List A))
      → DistinctKeys d
      → get k (at_least level d) ≡ (if leb level (length (get k d)) then get k d else [])
  get-at_least k level [] h = ground arith
  get-at_least k level ((j, xs) ∷ d) h = elim (Bool-cases (e.beq j k)) [
    | inl same ↦ ground (arith, get-at_least k level d h.1, at_key same)
    | inr apart ↦ ground (arith, get-at_least k level d h.1)
  ]
    where
      at_key : e.beq j k ≡ true → get k d ≡ []
      at_key same = get-missing k d (ap (λ z. has_key z d) (sym ((e.beq_iff j k).0 same)) ∙ h.0)
