-- ===== src/Transfer/Line.antt =====
-- `PickingLine` of integration/tools.py: one stock move in a shipment that is exported.
-- An external id is only compared, so it is a number; a quantity is a count of the smallest unit.
use jean_fourche.Base.{ℕ, Bool, ◌&&◌, ◌==◌, if◌then◌else◌}

pub record PickingLine : Type 0 where
  pub external_id : ℕ
  pub qty_demand : ℕ
  pub qty_done : ℕ
  pub is_kit : Bool
  pub multi_serialization : Bool

-- The dict of a line in the payload.
pub record LineData : Type 0 where
  pub id : ℕ
  pub qty : ℕ

unfoldable pub get_qty : PickingLine → ℕ
get_qty l = if l.is_kit && l.multi_serialization then l.qty_demand else l.qty_done

unfoldable pub is_done : PickingLine → Bool
unfolding get_qty
is_done l = l.qty_demand == get_qty l

unfoldable pub serialize_line : PickingLine → LineData
unfolding get_qty
serialize_line l = record { id = l.external_id; qty = get_qty l }
