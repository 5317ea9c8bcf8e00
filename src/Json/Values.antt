-- ===== src/Json/Values.antt =====
-- The values that `json.loads` gives, and what Python reads of a key of a path.
use Prim.Native.String.{[] as text_nil, ◌∷◌ as text_cons}
use Prim.Native.Char.{Char, code}
use jean_fourche.Base.{
  ℕ, ◌+◌, ◌*◌, ◌-◌, String, Bool, ◌&&◌, Option, none, some, List, [], ◌∷◌, ◌==◌, leb, if◌then◌else◌,
}

-- A number is kept as its text.
mutual
  pub data Json : Type 0 where
    null : Json
    flag : Bool → Json
    number : String → Json
    string : String → Json
    list : Items → Json
    dict : Fields → Json

  pub data Items : Type 0 where
    nil : Items
    cons : Json → Items → Items

  pub data Fields : Type 0 where
    end : Fields
    field : String → Json → Fields → Fields

abbrev pub append_items : Items → Items → Items
append_items nil ys = ys
append_items (cons x xs) ys = cons x (append_items xs ys)

abbrev cons_char : Char → List String → List String
cons_char c [] = text_cons c text_nil ∷ []
cons_char c (s ∷ ss) = text_cons c s ∷ ss

-- key_string.split('.')
unfoldable pub split_dots : String → List String
split_dots text_nil = text_nil ∷ []
split_dots (text_cons c s) =
    let rest = split_dots s in if code c == 46 then text_nil ∷ rest else cons_char c rest

abbrev is_digit : Char → Bool
is_digit c = leb 48 (code c) && leb (code c) 57

abbrev digits : ℕ → String → Option ℕ
digits n text_nil = some n
digits n (text_cons c s) =
    let rest = digits (10 * n + (code c - 48)) s in if is_digit c then rest else none

-- int(key) where key.isdigit(), for the digits of ASCII
unfoldable pub index_of : String → Option ℕ
index_of text_nil = none
index_of (text_cons c s) = digits 0 (text_cons c s)
