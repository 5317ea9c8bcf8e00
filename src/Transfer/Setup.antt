-- ===== src/Transfer/Setup.antt =====
-- `_initial_setup` of integration/tools.py: the shipments in their export order, numbered.
use jean_fourche.Base.{
  ℕ, suc, zero, ◌+◌, Bool, not, ◌&&◌, ◌≡◌, refl, ap, List, [], ◌∷◌, ◌++◌, map, filter, count,
  count-append, count-reverse, arith,
}
use jean_fourche.Base.Sort.{count-sort_by}
use jean_fourche.Transfer.Picking.{Picking}
use jean_fourche.Transfer.Sale.{
  Pickings, iter, transfers, backorders, dropships, mixed, enumerate, initial_setup,
}

-- list(range(start, start + n))
abbrev pub range : ℕ → ℕ → List ℕ
range start zero = []
range start (suc n) = start ∷ range (suc start) n

-- A test that does not look at the sequence number.
abbrev pub Unnumbered : (Picking → Bool) → Type 0
Unnumbered test = (i : ℕ) (p : Picking) → test (record p { sequence = i }) ≡ test p

count-enumerate :
    (test : Picking → Bool)
    → Unnumbered test
    → (i : ℕ) (ps : Pickings) → count test (enumerate i ps) ≡ count test ps
unfolding enumerate
count-enumerate test h i [] = refl
count-enumerate test h i (p ∷ ps) = ground (arith, h i p, count-enumerate test h (suc i) ps)

-- The four kinds are a partition: filters on two flags lose no shipment and repeat none.
four_kinds :
    (test : Picking → Bool) (ps : Pickings)
    → count test (filter (λ p. not p.is_dropship && not p.is_backorder) ps)
        + (count test (filter (λ p. p.is_backorder && not p.is_dropship) ps)
            + (count test (filter (λ p. p.is_dropship && not p.is_backorder) ps)
                + count test (filter (λ p. p.is_dropship && p.is_backorder) ps)))
      ≡ count test ps
four_kinds test [] = omega arith
four_kinds test (p ∷ ps) = ground (arith, four_kinds test ps)

kinds : Pickings → Pickings
unfolding transfers backorders dropships mixed
kinds ps = transfers ps ++ (backorders ps ++ (dropships ps ++ mixed ps))

count-kinds : (test : Picking → Bool) (ps : Pickings) → count test (kinds ps) ≡ count test ps
unfolding kinds
count-kinds test ps = omega (
  arith,
  count-append test (transfers ps) (backorders ps ++ (dropships ps ++ mixed ps)),
  count-append test (backorders ps) (dropships ps ++ mixed ps),
  count-append test (dropships ps) (mixed ps),
  count-sort_by test (λ p. p.erp_id)
      (filter (λ p. not p.is_dropship && not p.is_backorder) (iter ps)),
  count-sort_by test (λ p. p.erp_id) (filter (λ p. p.is_backorder && not p.is_dropship) (iter ps)),
  count-sort_by test (λ p. p.erp_id) (filter (λ p. p.is_dropship && not p.is_backorder) (iter ps)),
  count-sort_by test (λ p. p.erp_id) (filter (λ p. p.is_dropship && p.is_backorder) (iter ps)),
  four_kinds test (iter ps),
  count-reverse test ps,
)

sequence-enumerate :
    (i : ℕ) (ps : Pickings)
    → map (λ p. p.sequence) (enumerate i ps) ≡ range i (count (λ p. Bool.true) ps)
unfolding enumerate
sequence-enumerate i [] = refl
sequence-enumerate i (p ∷ ps) = ground (arith, sequence-enumerate (suc i) ps)

-- The set-up drops, repeats and changes no shipment (a test that is blind to the number counts as
-- many before and after), and numbers them 1, 2, 3 and so on in the order that it leaves.
pub initial_setup_lem :
    (ps : Pickings)
    → ((test : Picking → Bool) → Unnumbered test → count test (initial_setup ps) ≡ count test ps)
      × (map (λ p. p.sequence) (initial_setup ps) ≡ range 1 (count (λ p. Bool.true) ps))
unfolding initial_setup kinds
initial_setup_lem ps = (
  λ test h. rw (count-enumerate test h 1 (kinds ps)) (count-kinds test ps),
  rw (sequence-enumerate 1 (kinds ps)) (ap (range 1) (count-kinds (λ p. Bool.true) ps)),
)
