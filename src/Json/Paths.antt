-- ===== src/Json/Paths.antt =====
-- A path in two parts.
use jean_fourche.Base.{
  ℕ, zero, suc, String, ◌≡◌, refl, ap, ◌∙◌, sym, Option, none, some, List, [], ◌∷◌, ◌++◌, All,
  arith,
}
use jean_fourche.Json.Values.{
  Json, null, flag, number, string, list, dict, Items, nil, cons, Fields, end, field, index_of,
}
use jean_fourche.Json.Extract.{
  extract, extract_nth, extract_each, extract_field, cons_found, at_index,
}

abbrev pub then_extract : List String → Option Json → Option Json
then_extract keys none = none
then_extract keys (some x) = extract x keys

abbrev pub IsName : String → Type 0
IsName key = index_of key ≡ none

each-cons_found :
    (keys : List String) (o : Option Json) (xs : Items)
    → extract_each (cons_found o xs) keys ≡ cons_found (then_extract keys o) (extract_each xs keys)
unfolding extract
each-cons_found keys none xs = refl
each-cons_found keys (some x) xs = refl

each_nil : (xs : Items) → extract_each xs [] ≡ xs
unfolding extract
each_nil nil = refl
each_nil (cons x xs) = ap (cons x) (each_nil xs)

list_names :
    (keys : List String) (xs : Items)
    → All IsName keys
    → extract (list xs) keys ≡ some (list (extract_each xs keys))
unfolding extract
list_names [] xs h = ap (λ l. some (list l)) (sym (each_nil xs))
list_names (key ∷ keys) xs h =
    ap (λ i. at_index i (λ i. extract_nth xs i keys) (some (list (extract_each xs (key ∷ keys)))))
      h.0

at_index-then :
    (names : List String) (o : Option ℕ) (f g : ℕ → Option Json) (x y : Option Json)
    → ((i : ℕ) → f i ≡ then_extract names (g i))
    → x ≡ then_extract names y
    → at_index o f x ≡ then_extract names (at_index o g y)
at_index-then names none f g x y h e = e
at_index-then names (some i) f g x y h e = h i

mutual
  unfolding extract

  extract_append :
      (x : Json) (keys names : List String)
      → All IsName names
      → extract x (keys ++ names) ≡ then_extract names (extract x keys)
  extract_append x [] names h = refl
  extract_append (list xs) (key ∷ keys) names h =
      at_index-then names (index_of key) (λ i. extract_nth xs i (keys ++ names))
        (λ i. extract_nth xs i keys) (some (list (extract_each xs (key ∷ keys ++ names))))
        (some (list (extract_each xs (key ∷ keys)))) (λ i. nth_append xs i keys names h)
        (ap (λ l. some (list l)) (each_append xs (key ∷ keys) names h)
          ∙ sym (list_names names (extract_each xs (key ∷ keys)) h))
  extract_append (dict fs) (key ∷ keys) names h = field_append fs key keys names h
  extract_append null (key ∷ keys) names h = refl
  extract_append (flag b) (key ∷ keys) names h = refl
  extract_append (number n) (key ∷ keys) names h = refl
  extract_append (string t) (key ∷ keys) names h = refl

  nth_append :
      (xs : Items) (i : ℕ) (keys names : List String)
      → All IsName names
      → extract_nth xs i (keys ++ names) ≡ then_extract names (extract_nth xs i keys)
  nth_append nil i keys names h = refl
  nth_append (cons x xs) zero keys names h = extract_append x keys names h
  nth_append (cons x xs) (suc i) keys names h = nth_append xs i keys names h

  each_append :
      (xs : Items) (keys names : List String)
      → All IsName names
      → extract_each xs (keys ++ names) ≡ extract_each (extract_each xs keys) names
  each_append nil keys names h = refl
  each_append (cons x xs) keys names h =
      ap (λ o. cons_found o (extract_each xs (keys ++ names))) (extract_append x keys names h)
      ∙ ap (cons_found (then_extract names (extract x keys))) (each_append xs keys names h)
      ∙ sym (each-cons_found names (extract x keys) (extract_each xs keys))

  field_append :
      (fs : Fields) (key : String) (keys names : List String)
      → All IsName names
      → extract_field fs key (keys ++ names) ≡ then_extract names (extract_field fs key keys)
  field_append end key keys names h = refl
  field_append (field k x fs) key keys names h =
      ground (arith, extract_append x keys names h, field_append fs key keys names h)

-- An extraction along a path is one along its first part and then, of what that gave, along the rest,
-- through lists and dicts of any depth, where no key of the rest is an index.
pub extract-append :
    (x : Json) (keys names : List String)
    → All IsName names
    → extract x (keys ++ names) ≡ then_extract names (extract x keys)
extract-append x keys names h = extract_append x keys names h
