-- ===== src/Json/Extract.antt =====
-- `ExtractNode` of integration/tools.py.
use text.Mathlib.Text.{◌==◌ as str_eq}
use jean_fourche.Base.{
  ℕ, zero, suc, String, Bool, true, false, Option, none, some, List, [], ◌∷◌, if◌then◌else◌,
}
use jean_fourche.Base.Result.{Result, ok, err, ◌>>=◌}
use jean_fourche.Json.Values.{
  Json, null, flag, number, string, list, dict, Items, nil, cons, Fields, end, field, split_dots,
  index_of,
}

-- The results that are not missed.
abbrev pub cons_found : Option Json → Items → Items
cons_found none xs = xs
cons_found (some x) xs = cons x xs

abbrev pub at_index : Option ℕ → (ℕ → Option Json) → Option Json → Option Json
at_index none f each = each
at_index (some i) f each = f i

-- None is the MissedValue. The item of an index and the value of a key are found and extracted in one
-- pass.
unfoldable mutual
  unfolding index_of

  pub extract : Json → List String → Option Json
  extract data_ [] = some data_
  extract (list xs) (key ∷ keys) =
      at_index (index_of key) (λ i. extract_nth xs i keys)
        (some (list (extract_each xs (key ∷ keys))))
  extract (dict fs) (key ∷ keys) = extract_field fs key keys
  extract null (key ∷ keys) = none
  extract (flag b) (key ∷ keys) = none
  extract (number n) (key ∷ keys) = none
  extract (string t) (key ∷ keys) = none

  pub extract_nth : Items → ℕ → List String → Option Json
  extract_nth nil i keys = none
  extract_nth (cons x xs) zero keys = extract x keys
  extract_nth (cons x xs) (suc i) keys = extract_nth xs i keys

  pub extract_each : Items → List String → Items
  extract_each nil keys = nil
  extract_each (cons x xs) keys = cons_found (extract x keys) (extract_each xs keys)

  pub extract_field : Fields → String → List String → Option Json
  extract_field end key keys = none
  extract_field (field k x fs) key keys =
      let rest = extract_field fs key keys in if str_eq k key then extract x keys else rest

pub data Error : Type 0 where
  json_missed_key : List String → Error
  json_decode_error : Error

abbrev pub or_default : List String → Json → Bool → Option Json → Result Error Json
or_default keys default_ raise_error (some x) = ok x
or_default keys default_ true none = err (json_missed_key keys)
or_default keys default_ false none = ok default_

-- What the wrapped function returns: a text is parsed first, by `json.loads`.
abbrev pub loaded : (String → Option Json) → Json → Result Error Json
loaded loads (string t) = elim (loads t) [ none ↦ err json_decode_error | some x ↦ ok x ]
loaded loads x = ok x

-- With the default that the return type makes.
unfoldable pub extract_raw :
    (String → Option Json) → Json → String → Json → Bool → Result Error Json
unfolding extract split_dots
extract_raw loads data_ key_string default_ raise_error = loaded loads data_ >>= λ x.
    or_default (split_dots key_string) default_ raise_error (extract x (split_dots key_string))
