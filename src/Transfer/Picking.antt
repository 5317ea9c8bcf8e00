-- ===== src/Transfer/Picking.antt =====
-- `PickingSerializer` of integration/tools.py: one shipment that is exported.
use Prim.Native.String.{◌++◌ as text_append}
use text.Mathlib.Text.{◌==◌ as str_eq}
use jean_fourche.Base.{
  ℕ, String, Bool, true, not, Option, none, some, List, [], ◌∷◌, map, filter, elem, last?, All,
  Distinct, ◌==◌, ◌≡◌, if◌then◌else◌,
}
use jean_fourche.Base.Sort.{sort_by}
use jean_fourche.Transfer.Line.{PickingLine, LineData, get_qty, is_done, serialize_line}

-- The `data` dict, with its `tracking` that `_extend_tracking` overrides, and the attributes.
-- `sequence` is 0 for None; a tracking that Python counts as false is the empty text.
pub record Picking : Type 0 where
  pub erp_id : ℕ
  pub name : String
  pub carrier : String
  pub carrier_code : String
  pub tracking : String
  pub is_backorder : Bool
  pub is_dropship : Bool
  pub sequence : ℕ
  pub lines : List PickingLine
  pub approved_lines : List PickingLine

pub record PickingData : Type 0 where
  pub name : String
  pub carrier : String
  pub carrier_code : String
  pub tracking : String
  pub picking_id : ℕ
  pub lines : List LineData

-- A set of ids is a list of which only membership is read.
abbrev pub ids : List PickingLine → List ℕ
ids ls = map (λ l. l.external_id) ls

unfoldable pub approved : Picking → Bool
approved p = elim p.approved_lines [ [] ↦ Bool.false | x ∷ xs ↦ true ]

unfoldable pub kit_ids : Picking → List ℕ
kit_ids p = ids (filter (λ l. l.is_kit) p.approved_lines)

unfoldable pub done_ids : Picking → List ℕ
unfolding is_done
done_ids p = ids (filter is_done p.approved_lines)

unfoldable pub pending_ids : Picking → List ℕ
unfolding is_done
pending_ids p = ids (filter (λ l. not (is_done l)) p.approved_lines)

unfoldable pub has_components : Picking → Bool
unfolding kit_ids
has_components p = elim (kit_ids p) [ [] ↦ Bool.false | x ∷ xs ↦ true ]

unfoldable pub serialize : Picking → PickingData
unfolding serialize_line
serialize p = record {
  name = p.name;
  carrier = p.carrier;
  carrier_code = p.carrier_code;
  tracking = p.tracking;
  picking_id = p.erp_id;
  lines = map serialize_line p.approved_lines;
}

-- ', '.join(filter(None, [a, b]))
unfoldable pub join_tracking : String → String → String
join_tracking a b =
    if str_eq a "" then b else if str_eq b "" then a else text_append a (text_append ", " b)

unfoldable pub extend_tracking : String → Picking → Picking
unfolding join_tracking
extend_tracking ext_tracking p = record p { tracking = join_tracking p.tracking ext_tracking }

unfoldable pub drop_lines : List ℕ → Picking → Picking
drop_lines drop p = record p {
  approved_lines = filter (λ l. not (elem l.external_id drop)) p.approved_lines;
}

-- `odoo.tools.misc.groupby` with the key `external_id`: all elements with a key, not only
-- neighbours, are collected under it, keys in the order in which they are first met.
pub record Grouping : Type 0 where
  pub groupby : List PickingLine → List (ℕ × List PickingLine)
  pub collected :
      (ls : List PickingLine) → All (λ g. g.1 ≡ filter (λ l. l.external_id == g.0) ls) (groupby ls)
  pub keys :
      (ls : List PickingLine) (x : ℕ) → elem x (map (λ g. g.0) (groupby ls)) ≡ elem x (ids ls)
  pub keys_distinct : (ls : List PickingLine) → Distinct (map (λ g. g.0) (groupby ls))

-- The last line of a group in the order of quantities; `none` is the IndexError of an empty group.
unfoldable pub best_line : List PickingLine → Option PickingLine
unfolding sort_by get_qty
best_line ls = last? (sort_by get_qty ls)

unfoldable pub approve_groups : List (ℕ × List PickingLine) → Option (List PickingLine)
unfolding best_line
approve_groups [] = some []
approve_groups ((key, ls) ∷ rest) = elim (best_line ls) [
  | none ↦ none
  | some l ↦ elim (approve_groups rest) [ none ↦ none | some out ↦ some (l ∷ out) ]
]

-- `__init__`, with `_approve_lines`.
unfoldable pub approve_lines : Grouping → Picking → Option Picking
unfolding approve_groups
approve_lines g p = elim (approve_groups (g.groupby p.lines)) [
  | none ↦ none
  | some out ↦ some (record p { approved_lines = out })
]
