-- ===== src/Transfer/Tests.antt =====
-- Runs of the shipment export on data like that of integration/tests/test_transfer.py.
use jean_fourche.Base.{
  ℕ, String, Bool, true, false, ◌≡◌, ◌≢◌, refl, List, [], ◌∷◌, map, some, elem, arith, All,
  Distinct, count,
}
use jean_fourche.Transfer.Line.{PickingLine}
use jean_fourche.Transfer.Picking.{Picking, approve_lines, kit_ids, done_ids, ids}
use jean_fourche.Transfer.Sale.{Pickings, initial_setup, squash, dump}
use jean_fourche.Transfer.Squash.{
  Holds, exported, squash-kits_apart, squash-pending_apart, squash_keeps_ids,
}
use jean_fourche.Transfer.Approve.{IsBest, approve_lines_lem}
use jean_fourche.Transfer.Setup.{Unnumbered, range, initial_setup_lem}
use jean_fourche.Transfer.Grouped.{grouping}

abbrev line : ℕ → ℕ → ℕ → Bool → PickingLine
line id demand done kit = record {
  external_id = id;
  qty_demand = demand;
  qty_done = done;
  is_kit = kit;
  multi_serialization = true;
}

abbrev shipment : ℕ → String → Bool → Bool → List PickingLine → Picking
shipment id tracking back drop ls = record {
  erp_id = id;
  name = "Picking";
  carrier = "Carrier";
  carrier_code = "Carrier";
  tracking = tracking;
  is_backorder = back;
  is_dropship = drop;
  sequence = 0;
  lines = [];
  approved_lines = ls;
}

-- A kit 1 in both shipments; id 3 is done in the first and pending in the second; id 4 is alone.
abbrev order : Pickings
order = initial_setup (
    shipment 102 "ref2" true false (line 1 5 0 true ∷ line 3 4 1 false ∷ [])
    ∷ shipment 101 "ref1" false false (line 1 5 5 true ∷ line 3 4 4 false ∷ line 4 1 1 false ∷ [])
    ∷ [])

kits_merged :
    (map (λ p. ids p.approved_lines) (squash order) ≡ (1 ∷ 3 ∷ 4 ∷ []) ∷ [] ∷ [])
    × (map (λ p. p.tracking) (dump (squash order)) ≡ "ref1, ref2" ∷ [])
unfolding squash dump initial_setup
kits_merged = (refl, refl)

one-ne-two : ◌≢◌ {A = ℕ} 2 1
one-ne-two = omega arith

squash-kits_apart_example : ¬ Holds kit_ids 2 1 (squash order)
unfolding squash initial_setup
squash-kits_apart_example = squash-kits_apart order 1 2 1 one-ne-two refl

-- Two shipments of which neither has done anything: the id stays pending in both.
abbrev waiting : Pickings
waiting = initial_setup (
    shipment 1 "" false false (line 7 4 1 false ∷ [])
    ∷ shipment 2 "" false false (line 7 4 2 false ∷ [])
    ∷ [])

squash-pending_apart_example : ¬ Holds done_ids 2 7 (squash waiting)
unfolding squash initial_setup
squash-pending_apart_example = squash-pending_apart waiting 1 2 7 one-ne-two refl

squash_keeps_ids_example : exported 3 (squash order) ≡ exported 3 order
squash_keeps_ids_example = squash_keeps_ids order 3

abbrev kit_moves : Picking
kit_moves = record (shipment 9 "" false false []) {
  lines = line 1 5 2 false ∷ line 2 1 1 false ∷ line 1 5 4 false ∷ [];
}

approve_lines_example :
    (out : List PickingLine) × (approve_lines grouping kit_moves
      ≡ some (record kit_moves { approved_lines = out }))
    × Distinct (ids out)
    × ((x : ℕ) → elem x (ids out) ≡ elem x (ids kit_moves.lines))
    × All (IsBest kit_moves.lines) out
approve_lines_example = approve_lines_lem grouping kit_moves

initial_setup_example :
    ((test : Picking → Bool)
      → Unnumbered test
      → count test (initial_setup waiting) ≡ count test waiting)
    × (map (λ p. p.sequence) (initial_setup waiting) ≡ range 1 (count (λ p. true) waiting))
initial_setup_example = initial_setup_lem waiting
