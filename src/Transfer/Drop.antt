-- ===== src/Transfer/Drop.antt =====
-- One pass over a shipment: it loses the ids of one kind that another shipment holds.
use jean_fourche.Base.{
  ℕ, Bool, true, not, ◌&&◌, ◌≡◌, sym, ap, ◌∙◌, inl, inr, List, [], ◌∷◌, map, any, any-map, any_mono,
  elem, arith, ◌==◌, Bool-cases, Bool-ext, if◌then◌else◌,
}
use jean_fourche.Transfer.Line.{PickingLine}
use jean_fourche.Transfer.Picking.{Picking, drop_lines}
use jean_fourche.Transfer.Sale.{Pickings}
use jean_fourche.Transfer.Held.{id_with, id_with-drop_lines, sequence-drop_lines}

-- The shipment with sequence number `s` holds the id `x` on a line that passes `q`.
abbrev pub at : (PickingLine → Bool) → ℕ → ℕ → Pickings → Bool
at q s x ps = any (λ p. (p.sequence == s) && id_with q x p) ps

-- Some other shipment does.
abbrev pub elsewhere : (PickingLine → Bool) → ℕ → ℕ → Pickings → Bool
elsewhere q s x ps = any (λ p. not (p.sequence == s) && id_with q x p) ps

-- Some shipment does.
abbrev pub on_order : (PickingLine → Bool) → ℕ → Pickings → Bool
on_order q x ps = any (id_with q x) ps

any-false : (b : Bool) (ps : Pickings) → any (λ p. b) ps ≡ true → b ≡ true
any-false b [] h = ground arith
any-false b (p ∷ ps) h = ground (arith, any-false b ps)

-- A held id of one kind is a held id.
pub id_with_any :
    (q : PickingLine → Bool) (x : ℕ) (p : Picking)
    → id_with q x p ≡ true
    → id_with (λ _. true) x p ≡ true
id_with_any q x p =
    any_mono (λ l. q l && (l.external_id == x)) (λ l. l.external_id == x) p.approved_lines
      (λ l. ground arith)

module _ (qa : PickingLine → Bool) (s : ℕ) (others : ℕ → Bool) (drop : Picking → List ℕ)
    (dropped : (x : ℕ) (p : Picking) → elem x (drop p) ≡ (id_with qa x p && others x)) where
  abbrev pass : Picking → Picking
  pass p = if p.sequence == s then drop_lines (drop p) p else p

  at_pass :
      (q : PickingLine → Bool) (x : ℕ) (p : Picking)
      → id_with q x (drop_lines (drop p) p) ≡ (not (id_with qa x p && others x) && id_with q x p)
  at_pass q x p = id_with-drop_lines q x (drop p) p ∙ ap (λ b. not b && id_with q x p) (dropped x p)

  pub at-pass_mono :
      (q : PickingLine → Bool) (t x : ℕ) (ps : Pickings)
      → at q t x (map pass ps) ≡ true
      → at q t x ps ≡ true
  at-pass_mono q t x ps h =
      any_mono (λ p. ((pass p).sequence == t) && id_with q x (pass p)) _ ps
        (λ p. ground (arith, at_pass q x p, sequence-drop_lines (drop p) p))
        (sym (any-map pass (λ p. (p.sequence == t) && id_with q x p) ps) ∙ h)

  pub pass_clears : (x : ℕ) (ps : Pickings) → at qa s x (map pass ps) ≡ true → not (others x) ≡ true
  pass_clears x ps h = any-false (not (others x)) ps (
      any_mono (λ p. ((pass p).sequence == s) && id_with qa x (pass p)) _ ps
        (λ p. ground (arith, at_pass qa x p, sequence-drop_lines (drop p) p))
        (sym (any-map pass (λ p. (p.sequence == s) && id_with qa x p) ps) ∙ h))

  -- An id that leaves this shipment is held by another one, so the order keeps it.
  pub on_order-pass :
      (qb : PickingLine → Bool) (x : ℕ) (ps : Pickings)
      → others x ≡ elsewhere qb s x ps
      → on_order (λ _. true) x (map pass ps) ≡ on_order (λ _. true) x ps
  on_order-pass qb x ps same =
      any-map pass (id_with (λ _. true) x) ps
      ∙ Bool-ext _ _
          (any_mono (λ p. id_with (λ _. true) x (pass p)) (id_with (λ _. true) x) ps
            (λ p. ground (arith, at_pass (λ _. true) x p)))
          (elim (Bool-cases (others x)) [
            | inl e ↦ λ h.
                any_mono (λ p. not (p.sequence == s) && id_with qb x p)
                  (λ p. id_with (λ _. true) x (pass p)) ps (λ p. ground (arith, id_with_any qb x p))
                  (sym same ∙ e)
            | inr e ↦
                any_mono (id_with (λ _. true) x) (λ p. id_with (λ _. true) x (pass p)) ps
                  (λ p. ground (arith, at_pass (λ _. true) x p))
          ])
