-- ===== src/Transfer/Sale.antt =====
-- `SaleTransferSerializer` of integration/tools.py: the shipments of one order. The shipments are
-- objects that every loop shares; here a loop hands on the list, and an object is found in it by
-- its sequence number, which the set-up makes unique.
use jean_fourche.Base.{
  ℕ, suc, String, not, ◌&&◌, none, some, List, [], ◌∷◌, ◌++◌, map, reverse, filter, elem, find?,
  last?, flat_map, ◌==◌, if◌then◌else◌,
}
use jean_fourche.Base.Sort.{sort_by}
use jean_fourche.Transfer.Picking.{
  Picking, PickingData, approved, kit_ids, done_ids, pending_ids, serialize, extend_tracking,
  drop_lines,
}

abbrev pub Pickings : Type 0
Pickings = List Picking

-- `__iter__`
abbrev pub iter : Pickings → Pickings
iter ps = reverse ps

unfoldable pub transfers : Pickings → Pickings
unfolding sort_by
transfers ps =
    sort_by (λ p. p.erp_id) (filter (λ p. not p.is_dropship && not p.is_backorder) (iter ps))

unfoldable pub backorders : Pickings → Pickings
unfolding sort_by
backorders ps =
    sort_by (λ p. p.erp_id) (filter (λ p. p.is_backorder && not p.is_dropship) (iter ps))

unfoldable pub dropships : Pickings → Pickings
unfolding sort_by
dropships ps = sort_by (λ p. p.erp_id) (filter (λ p. p.is_dropship && not p.is_backorder) (iter ps))

unfoldable pub mixed : Pickings → Pickings
unfolding sort_by
mixed ps = sort_by (λ p. p.erp_id) (filter (λ p. p.is_dropship && p.is_backorder) (iter ps))

-- for index, picking in enumerate(picking_list, start=index): picking._sequence = index
unfoldable pub enumerate : ℕ → Pickings → Pickings
enumerate index [] = []
enumerate index (p ∷ ps) = record p { sequence = index } ∷ enumerate (suc index) ps

unfoldable pub initial_setup : Pickings → Pickings
unfolding enumerate transfers backorders dropships mixed
initial_setup ps = enumerate 1 (transfers ps ++ (backorders ps ++ (dropships ps ++ mixed ps)))

unfoldable pub get_rest : ℕ → Pickings → Pickings
unfolding sort_by
get_rest s ps = sort_by (λ p. p.sequence) (filter (λ p. not (p.sequence == s)) (iter ps))

-- A change of the object with sequence number `s`.
abbrev pub update : ℕ → (Picking → Picking) → Pickings → Pickings
update s f ps = map (λ p. if p.sequence == s then f p else p) ps

-- a.intersection(b)
abbrev pub intersection : List ℕ → List ℕ → List ℕ
intersection a b = filter (λ x. elem x b) a

unfoldable pub drop_duplicated_kit_lines : ℕ → Pickings → Pickings
unfolding get_rest kit_ids drop_lines
drop_duplicated_kit_lines s ps =
    let others = flat_map kit_ids (get_rest s ps) in
    update s (λ p. drop_lines (intersection (kit_ids p) others) p) ps

unfoldable pub drop_duplicated_done_lines : ℕ → Pickings → Pickings
unfolding get_rest done_ids pending_ids drop_lines
drop_duplicated_done_lines s ps =
    let others = flat_map done_ids (get_rest s ps) in
    update s (λ p. drop_lines (intersection (pending_ids p) others) p) ps

unfoldable pub reassign_tracking : String → Pickings → Pickings
unfolding approved extend_tracking
reassign_tracking tracking ps = elim (last? (filter approved (iter ps))) [
  | none ↦ ps
  | some p ↦ update p.sequence (extend_tracking tracking) ps
]

unfoldable pub reassign_if_empty : ℕ → Pickings → Pickings
unfolding reassign_tracking approved
reassign_if_empty s ps = elim (find? (λ p. p.sequence == s) ps) [
  | none ↦ ps
  | some p ↦ if approved p then ps else reassign_tracking p.tracking ps
]

-- The body of the loop of `squash`.
unfoldable pub squash_picking : ℕ → Pickings → Pickings
unfolding drop_duplicated_kit_lines drop_duplicated_done_lines reassign_if_empty
squash_picking s ps =
    reassign_if_empty s (drop_duplicated_done_lines s (drop_duplicated_kit_lines s ps))

unfoldable pub squash_loop : List ℕ → Pickings → Pickings
unfolding squash_picking
squash_loop [] ps = ps
squash_loop (s ∷ rest) ps = squash_loop rest (squash_picking s ps)

unfoldable pub squash : Pickings → Pickings
unfolding squash_loop
squash ps = squash_loop (map (λ p. p.sequence) (iter ps)) ps

unfoldable pub dump : Pickings → List PickingData
unfolding serialize approved
dump ps = reverse (map serialize (filter approved (iter ps)))
