-- ===== src/Transfer/Passes.antt =====
-- The two passes of `squash` (integration/tools.py) over one shipment.
use mathlib.Core.Path.{fun_ext}
use jean_fourche.Base.{
  ℕ, Bool, true, not, ◌&&◌, ◌≡◌, ◌≢◌, ap, ◌∙◌, List, any, any_mono, elem, flat_map, arith, ◌==◌,
}
use jean_fourche.Transfer.Line.{PickingLine, is_done}
use jean_fourche.Transfer.Picking.{Picking, kit_ids, done_ids, pending_ids}
use jean_fourche.Transfer.Sale.{
  Pickings, get_rest, intersection, drop_duplicated_kit_lines, drop_duplicated_done_lines,
}
use jean_fourche.Transfer.Held.{
  id_with, elem-kit_ids, elem-done_ids, elem-pending_ids, elem-intersection, elem-get_rest,
}
use jean_fourche.Transfer.Drop.{at, elsewhere, on_order, at-pass_mono, pass_clears, on_order-pass}

abbrev pub is_kit : PickingLine → Bool
is_kit l = l.is_kit

abbrev pub is_pending : PickingLine → Bool
is_pending l = not (is_done l)

-- Nothing is held that was not held before.
abbrev pub Shrinks : Pickings → Pickings → Type 0
Shrinks ps' ps = (q : PickingLine → Bool) (t x : ℕ) → at q t x ps' ≡ true → at q t x ps ≡ true

-- The shipment `s` shares no kit id with another one, and no pending id with what another has done.
pub record Settled (s : ℕ) (ps : Pickings) : Type 0 where
  pub kits : (t x : ℕ) → t ≢ s → at is_kit s x ps ≡ true → at is_kit t x ps ≡ true → ⊥
  pub rest : (t x : ℕ) → t ≢ s → at is_pending s x ps ≡ true → at is_done t x ps ≡ true → ⊥

pub Settled-Shrinks : {s : ℕ} {ps ps' : Pickings} → Settled s ps → Shrinks ps' ps → Settled s ps'
Settled-Shrinks h m = record {
  kits = λ t x ne a b. h.kits t x ne (m _ _ x a) (m _ t x b);
  rest = λ t x ne a b. h.rest t x ne (m _ _ x a) (m _ t x b);
}

-- What another shipment holds is held elsewhere.
at→elsewhere :
    (q : PickingLine → Bool) (s t x : ℕ) (ps : Pickings)
    → t ≢ s
    → at q t x ps ≡ true
    → elsewhere q s x ps ≡ true
at→elsewhere q s t x ps ne =
    any_mono (λ p. (p.sequence == t) && id_with q x p) (λ p. not (p.sequence == s) && id_with q x p)
      ps (λ p. ground arith)

module _ (s : ℕ) (ps : Pickings) where
  kit_others : ℕ → Bool
  kit_others x = elem x (flat_map kit_ids (get_rest s ps))

  kit_drop : Picking → List ℕ
  kit_drop p = intersection (kit_ids p) (flat_map kit_ids (get_rest s ps))

  kit_dropped : (x : ℕ) (p : Picking) → elem x (kit_drop p) ≡ (id_with is_kit x p && kit_others x)
  unfolding kit_drop kit_others
  kit_dropped x p =
      elem-intersection x (kit_ids p) (flat_map kit_ids (get_rest s ps))
      ∙ ap (λ b. b && elem x (flat_map kit_ids (get_rest s ps))) (elem-kit_ids x p)

  kit_same : (x : ℕ) → kit_others x ≡ elsewhere is_kit s x ps
  unfolding kit_others
  kit_same x =
      elem-get_rest kit_ids s x ps
      ∙ ap (λ f. any (λ p. not (p.sequence == s) && f p) ps) (fun_ext (elem-kit_ids x))

  pub kit-Shrinks : Shrinks (drop_duplicated_kit_lines s ps) ps
  unfolding drop_duplicated_kit_lines kit_drop
  kit-Shrinks q t x = at-pass_mono is_kit s kit_others kit_drop kit_dropped q t x ps

  pub kit_clears :
      (t x : ℕ)
      → t ≢ s
      → at is_kit s x (drop_duplicated_kit_lines s ps) ≡ true
      → at is_kit t x (drop_duplicated_kit_lines s ps) ≡ true
      → ⊥
  unfolding drop_duplicated_kit_lines kit_drop
  kit_clears t x ne a b = ground (
    arith,
    pass_clears is_kit s kit_others kit_drop kit_dropped x ps a,
    kit_same x,
    at→elsewhere is_kit s t x ps ne,
    at-pass_mono is_kit s kit_others kit_drop kit_dropped is_kit t x ps b,
  )

  pub on_order-kit :
      (x : ℕ) → on_order (λ _. true) x (drop_duplicated_kit_lines s ps) ≡ on_order (λ _. true) x ps
  unfolding drop_duplicated_kit_lines kit_drop
  on_order-kit x = on_order-pass is_kit s kit_others kit_drop kit_dropped is_kit x ps (kit_same x)

  done_others : ℕ → Bool
  done_others x = elem x (flat_map done_ids (get_rest s ps))

  done_drop : Picking → List ℕ
  done_drop p = intersection (pending_ids p) (flat_map done_ids (get_rest s ps))

  done_dropped :
      (x : ℕ) (p : Picking) → elem x (done_drop p) ≡ (id_with is_pending x p && done_others x)
  unfolding done_drop done_others
  done_dropped x p =
      elem-intersection x (pending_ids p) (flat_map done_ids (get_rest s ps))
      ∙ ap (λ b. b && elem x (flat_map done_ids (get_rest s ps))) (elem-pending_ids x p)

  done_same : (x : ℕ) → done_others x ≡ elsewhere is_done s x ps
  unfolding done_others
  done_same x =
      elem-get_rest done_ids s x ps
      ∙ ap (λ f. any (λ p. not (p.sequence == s) && f p) ps) (fun_ext (elem-done_ids x))

  pub done-Shrinks : Shrinks (drop_duplicated_done_lines s ps) ps
  unfolding drop_duplicated_done_lines done_drop
  done-Shrinks q t x = at-pass_mono is_pending s done_others done_drop done_dropped q t x ps

  pub done_clears :
      (t x : ℕ)
      → t ≢ s
      → at is_pending s x (drop_duplicated_done_lines s ps) ≡ true
      → at is_done t x (drop_duplicated_done_lines s ps) ≡ true
      → ⊥
  unfolding drop_duplicated_done_lines done_drop
  done_clears t x ne a b = ground (
    arith,
    pass_clears is_pending s done_others done_drop done_dropped x ps a,
    done_same x,
    at→elsewhere is_done s t x ps ne,
    at-pass_mono is_pending s done_others done_drop done_dropped is_done t x ps b,
  )

  pub on_order-done :
      (x : ℕ) → on_order (λ _. true) x (drop_duplicated_done_lines s ps) ≡ on_order (λ _. true) x ps
  unfolding drop_duplicated_done_lines done_drop
  on_order-done x =
      on_order-pass is_pending s done_others done_drop done_dropped is_done x ps (done_same x)
