-- ===== src/Json/Tests.antt =====
-- Extractions from an order, and nested lists.
use jean_fourche.Base.{String, true, ◌≡◌, refl, none, [], ◌∷◌, ◌++◌}
use jean_fourche.Base.Result.{ok, err}
use jean_fourche.Json.Values.{
  Json, null, number, string, list, dict, Items, nil, cons, end, field, split_dots, index_of,
}
use jean_fourche.Json.Extract.{extract, extract_raw, json_missed_key}
use jean_fourche.Json.Paths.{extract-append, then_extract}
use jean_fourche.Json.Flat.{parse_translated_value}

abbrev line : String → Json
line name = dict (field "product" (dict (field "name" (string name) end)) end)

-- The second line has no product.
abbrev order : Json
order = dict (field "lines" (list (cons (line "a") (cons (dict end) (cons (line "b") nil)))) end)

path_split : split_dots "lines.0.product" ≡ "lines" ∷ "0" ∷ "product" ∷ []
unfolding split_dots
path_split = refl

indexed : extract_raw (λ s. none) order "lines.2.product.name" null true ≡ ok (string "b")
unfolding extract_raw extract split_dots index_of
indexed = refl

past_end :
    extract_raw (λ s. none) order "lines.3" null true ≡ err (json_missed_key ("lines" ∷ "3" ∷ []))
unfolding extract_raw extract split_dots index_of
past_end = refl

each_line :
    extract_raw (λ s. none) order "lines.product.name" null true
    ≡ ok (list (cons (string "a") (cons (string "b") nil)))
unfolding extract_raw extract split_dots index_of
each_line = refl

translated :
    parse_translated_value
      (dict (field "language" (dict (field "fr" (string "chaise") end)) end))
      "fr"
    ≡ ok (string "chaise")
unfolding parse_translated_value
translated = refl

extract-append_example :
    extract order (("lines" ∷ []) ++ "product" ∷ "name" ∷ [])
    ≡ then_extract ("product" ∷ "name" ∷ []) (extract order ("lines" ∷ []))
unfolding index_of
extract-append_example =
    extract-append order ("lines" ∷ []) ("product" ∷ "name" ∷ []) (refl, (refl, tt))

abbrev nested : Items
nested =
    cons (number "1")
      (cons (list (cons (number "2") (cons (list (cons (number "3") nil)) nil))) nil)
