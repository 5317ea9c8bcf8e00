-- ===== src/Json/Flat.antt =====
-- `flatten_recursive`, `make_list_if_not`, `is_translated_value` and `parse_translated_value` of
-- integration/tools.py.
use text.Mathlib.Text.{◌==◌ as str_eq}
use jean_fourche.Base.{
  String, Bool, true, false, not, ◌≡◌, refl, ap, ◌∙◌, sym, Option, none, some, if◌then◌else◌, arith,
}
use jean_fourche.Base.Result.{Result, ok, err}
use jean_fourche.Json.Values.{
  Json, null, flag, number, string, list, dict, Items, nil, cons, Fields, end, field, append_items,
}

-- The generator's own list: the items of a list in its place, any other item as it is.
unfoldable mutual
  pub flatten_item : Json → Items
  flatten_item (list xs) = flatten_recursive xs
  flatten_item (dict fs) = cons (dict fs) nil
  flatten_item null = cons null nil
  flatten_item (flag b) = cons (flag b) nil
  flatten_item (number n) = cons (number n) nil
  flatten_item (string s) = cons (string s) nil

  pub flatten_recursive : Items → Items
  flatten_recursive nil = nil
  flatten_recursive (cons x xs) = append_items (flatten_item x) (flatten_recursive xs)

abbrev pub make_list_if_not : Json → Items
make_list_if_not (list xs) = xs
make_list_if_not x = cons x nil

abbrev pub lookup : String → Fields → Option Json
lookup key end = none
lookup key (field k x fs) = if str_eq k key then some x else lookup key fs

-- Python's truth of a value; a number is false where its text is that of a zero.
abbrev pub truthy : Json → Bool
truthy null = false
truthy (flag b) = b
truthy (number n) = not (str_eq n "0")
truthy (string s) = not (str_eq s "")
truthy (list nil) = false
truthy (list (cons x xs)) = true
truthy (dict end) = false
truthy (dict (field k x fs)) = true

abbrev pub is_translated_value : Json → Bool
is_translated_value (dict fs) = elim (lookup "language" fs) [ none ↦ false | some x ↦ truthy x ]
is_translated_value x = false

pub data Error : Type 0 where
  attribute_error : Error

-- value['language'].get(lang)
abbrev pub get_lang : String → Option Json → Result Error Json
get_lang lang (some (dict fs)) = elim (lookup lang fs) [ none ↦ ok null | some x ↦ ok x ]
get_lang lang _ = err attribute_error

abbrev pub language_of : Json → Option Json
language_of (dict fs) = lookup "language" fs
language_of x = none

unfoldable pub parse_translated_value : Json → String → Result Error Json
parse_translated_value value lang =
    if is_translated_value value then get_lang lang (language_of value) else ok value

abbrev is_list : Json → Bool
is_list (list xs) = true
is_list x = false

abbrev pub IsFlat : Items → Type 0
IsFlat nil = Unit
IsFlat (cons x xs) = (is_list x ≡ false) × IsFlat xs

append_items-IsFlat : (xs ys : Items) → IsFlat xs → IsFlat ys → IsFlat (append_items xs ys)
append_items-IsFlat nil ys h k = k
append_items-IsFlat (cons x xs) ys h k = (h.0, append_items-IsFlat xs ys h.1 k)

mutual
  unfolding flatten_item flatten_recursive

  flatten_item-IsFlat : (x : Json) → IsFlat (flatten_item x)
  flatten_item-IsFlat (list xs) = flatten-IsFlat xs
  flatten_item-IsFlat (dict fs) = (refl, tt)
  flatten_item-IsFlat null = (refl, tt)
  flatten_item-IsFlat (flag b) = (refl, tt)
  flatten_item-IsFlat (number n) = (refl, tt)
  flatten_item-IsFlat (string s) = (refl, tt)

  flatten-IsFlat : (xs : Items) → IsFlat (flatten_recursive xs)
  flatten-IsFlat nil = tt
  flatten-IsFlat (cons x xs) =
      append_items-IsFlat (flatten_item x) (flatten_recursive xs) (flatten_item-IsFlat x)
        (flatten-IsFlat xs)

-- A list without lists is left alone.
flatten_recursive_lem : (xs : Items) → IsFlat xs → flatten_recursive xs ≡ xs
unfolding flatten_recursive flatten_item
flatten_recursive_lem nil h = refl
flatten_recursive_lem (cons (list ys) xs) h = ground arith
flatten_recursive_lem (cons (dict fs) xs) h = ap (cons (dict fs)) (flatten_recursive_lem xs h.1)
flatten_recursive_lem (cons null xs) h = ap (cons null) (flatten_recursive_lem xs h.1)
flatten_recursive_lem (cons (flag b) xs) h = ap (cons (flag b)) (flatten_recursive_lem xs h.1)
flatten_recursive_lem (cons (number n) xs) h = ap (cons (number n)) (flatten_recursive_lem xs h.1)
flatten_recursive_lem (cons (string s) xs) h = ap (cons (string s)) (flatten_recursive_lem xs h.1)

append_assoc :
    (xs ys zs : Items) → append_items (append_items xs ys) zs ≡ append_items xs (append_items ys zs)
append_assoc nil ys zs = refl
append_assoc (cons x xs) ys zs = ap (cons x) (append_assoc xs ys zs)

flatten_recursive-append :
    (xs ys : Items)
    → flatten_recursive (append_items xs ys)
      ≡ append_items (flatten_recursive xs) (flatten_recursive ys)
unfolding flatten_recursive flatten_item
flatten_recursive-append nil ys = refl
flatten_recursive-append (cons x xs) ys =
    ap (append_items (flatten_item x)) (flatten_recursive-append xs ys)
    ∙ sym (append_assoc (flatten_item x) (flatten_recursive xs) (flatten_recursive ys))

-- The items of nested lists come out with no list among them, and those of one list before those of
-- the next; a list that has been flattened stays as it is.
pub flatten_recursive-IsFlat :
    (xs ys : Items)
    → IsFlat (flatten_recursive xs)
      × (flatten_recursive (append_items xs ys)
          ≡ append_items (flatten_recursive xs) (flatten_recursive ys))
      × (flatten_recursive (flatten_recursive xs) ≡ flatten_recursive xs)
flatten_recursive-IsFlat xs ys = (
  flatten-IsFlat xs,
  flatten_recursive-append xs ys,
  flatten_recursive_lem (flatten_recursive xs) (flatten-IsFlat xs),
)
