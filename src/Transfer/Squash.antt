-- ===== src/Transfer/Squash.antt =====
-- `squash` of integration/tools.py over the whole order.
use mathlib.Core.Path.{fun_ext}
use jean_fourche.Base.{
  ℕ, String, Bool, true, ◌&&◌, ◌≡◌, ◌≢◌, refl, sym, ap, ◌∙◌, inl, inr, List, [], ◌∷◌, map, any,
  any-map, any_mono, any-reverse, elem, filter, find?, last?, arith, ◌==◌, Bool-cases, Option-cases,
}
use jean_fourche.Transfer.Line.{PickingLine}
use jean_fourche.Transfer.Picking.{
  Picking, ids, approved, kit_ids, done_ids, pending_ids, extend_tracking,
}
use jean_fourche.Transfer.Sale.{
  Pickings, iter, update, drop_duplicated_kit_lines, drop_duplicated_done_lines, reassign_tracking,
  reassign_if_empty, squash_picking, squash_loop, squash,
}
use jean_fourche.Transfer.Held.{id_with, elem-kit_ids, elem-done_ids, elem-pending_ids}
use jean_fourche.Transfer.Drop.{at, on_order}
use jean_fourche.Transfer.Passes.{
  is_kit, is_pending, Shrinks, Settled, Settled-Shrinks, kit-Shrinks, kit_clears, on_order-kit,
  done-Shrinks, done_clears, on_order-done,
}

-- A change that leaves number and lines of each shipment alone leaves alone what is held.
any-update :
    (test : Picking → Bool) (f : Picking → Picking) (s : ℕ) (ps : Pickings)
    → ((p : Picking) → test (f p) ≡ test p)
    → any test (update s f ps) ≡ any test ps
any-update test f s [] h = refl
any-update test f s (p ∷ ps) h = ground (arith, h p, any-update test f s ps h)

-- `reassign_tracking` changes no test that looks past the tracking.
any-reassign :
    (test : Picking → Bool)
    → ((tr : String) (p : Picking) → test (extend_tracking tr p) ≡ test p)
    → (tr : String) (ps : Pickings) → any test (reassign_tracking tr ps) ≡ any test ps
unfolding reassign_tracking
any-reassign test h tr ps = elim (Option-cases (last? (filter approved (iter ps)))) [
  | inl e ↦ ground arith
  | inr (p, e) ↦ ground (arith, any-update test (extend_tracking tr) p.sequence ps (h tr))
]

any-reassign_if_empty :
    (test : Picking → Bool)
    → ((tr : String) (p : Picking) → test (extend_tracking tr p) ≡ test p)
    → (s : ℕ) (ps : Pickings) → any test (reassign_if_empty s ps) ≡ any test ps
unfolding reassign_if_empty
any-reassign_if_empty test h s ps = elim (Option-cases (find? (λ p. p.sequence == s) ps)) [
  | inl e ↦ ground arith
  | inr (p, e) ↦ ground (arith, any-reassign test h p.tracking ps)
]

same_lines :
    (q : PickingLine → Bool) (t x : ℕ) (tr : String) (p : Picking)
    → (((extend_tracking tr p).sequence == t) && id_with q x (extend_tracking tr p))
      ≡ ((p.sequence == t) && id_with q x p)
unfolding extend_tracking
same_lines q t x tr p = refl

same_ids :
    (x : ℕ) (tr : String) (p : Picking)
    → id_with (λ _. true) x (extend_tracking tr p) ≡ id_with (λ _. true) x p
unfolding extend_tracking
same_ids x tr p = refl

step-Shrinks : (s : ℕ) (ps : Pickings) → Shrinks (squash_picking s ps) ps
unfolding squash_picking
step-Shrinks s ps q t x h =
    let ps₁ = drop_duplicated_kit_lines s ps in
    let ps₂ = drop_duplicated_done_lines s ps₁ in
    kit-Shrinks s ps q t x (
      done-Shrinks s ps₁ q t x (
        sym
          (any-reassign_if_empty (λ p. (p.sequence == t) && id_with q x p) (same_lines q t x) s ps₂)
        ∙ h))

step-Settled : (s : ℕ) (ps : Pickings) → Settled s (squash_picking s ps)
unfolding squash_picking
step-Settled s ps =
    let ps₁ = drop_duplicated_kit_lines s ps in
    let ps₂ = drop_duplicated_done_lines s ps₁ in
    Settled-Shrinks {s = s} {ps = ps₂}
      (record {
        kits = λ t x ne a b.
            kit_clears s ps t x ne (done-Shrinks s ps₁ is_kit s x a)
              (done-Shrinks s ps₁ is_kit t x b);
        rest = done_clears s ps₁;
      })
      (λ q t x h.
        sym
          (any-reassign_if_empty (λ p. (p.sequence == t) && id_with q x p) (same_lines q t x) s ps₂)
        ∙ h)

on_order-step :
    (s x : ℕ) (ps : Pickings)
    → on_order (λ _. true) x (squash_picking s ps) ≡ on_order (λ _. true) x ps
unfolding squash_picking
on_order-step s x ps =
    let ps₁ = drop_duplicated_kit_lines s ps in
    any-reassign_if_empty (id_with (λ _. true) x) (same_ids x) s (drop_duplicated_done_lines s ps₁)
    ∙ on_order-done s ps₁ x
    ∙ on_order-kit s ps x

loop-Shrinks : (ss : List ℕ) (ps : Pickings) → Shrinks (squash_loop ss ps) ps
unfolding squash_loop
loop-Shrinks [] ps q t x h = h
loop-Shrinks (s ∷ ss) ps q t x h =
    step-Shrinks s ps q t x (loop-Shrinks ss (squash_picking s ps) q t x h)

loop-Settled :
    (s : ℕ) (ss : List ℕ) (ps : Pickings) → elem s ss ≡ true → Settled s (squash_loop ss ps)
unfolding squash_loop
loop-Settled s [] ps h = absurd (cc)
loop-Settled s (r ∷ ss) ps h = elim (Bool-cases (r == s)) [
  | inl e ↦
      Settled-Shrinks (ground (arith, step-Settled r ps)) (loop-Shrinks ss (squash_picking r ps))
  | inr e ↦ loop-Settled s ss (squash_picking r ps) (ground arith)
]

on_order-loop :
    (x : ℕ) (ss : List ℕ) (ps : Pickings)
    → on_order (λ _. true) x (squash_loop ss ps) ≡ on_order (λ _. true) x ps
unfolding squash_loop
on_order-loop x [] ps = refl
on_order-loop x (s ∷ ss) ps = on_order-loop x ss (squash_picking s ps) ∙ on_order-step s x ps

-- A number that holds anything is the number of a shipment.
at-sequence :
    (q : PickingLine → Bool) (s x : ℕ) (ps : Pickings)
    → at q s x ps ≡ true
    → elem s (map (λ p. p.sequence) (iter ps)) ≡ true
at-sequence q s x ps h =
    any-map (λ p. p.sequence) (λ y. y == s) (iter ps)
    ∙ any-reverse (λ p. p.sequence == s) ps
    ∙ any_mono (λ p. (p.sequence == s) && id_with q x p) (λ p. p.sequence == s) ps
        (λ p. ground arith) h

squash-Settled :
    (q : PickingLine → Bool) (s x : ℕ) (ps : Pickings)
    → at q s x (squash ps) ≡ true
    → Settled s (squash ps)
unfolding squash
squash-Settled q s x ps h =
    loop-Settled s (map (λ p. p.sequence) (iter ps)) ps
      (at-sequence q s x ps (loop-Shrinks (map (λ p. p.sequence) (iter ps)) ps q s x h))

-- The shipment with sequence number `s` has `x` among its ids of the kind `kind`.
abbrev pub Holds : (Picking → List ℕ) → ℕ → ℕ → Pickings → Type 0
Holds kind s x ps = any (λ p. (p.sequence == s) && elem x (kind p)) ps ≡ true

-- A kit id held by one shipment after `squash` is held by no other shipment.
pub squash-kits_apart :
    (ps : Pickings) (s t x : ℕ)
    → t ≢ s
    → Holds kit_ids s x (squash ps)
    → ¬ Holds kit_ids t x (squash ps)
squash-kits_apart ps s t x ne a b =
    (squash-Settled is_kit s x ps (held s a)).kits t x ne (held s a) (held t b)
  where
    held : (r : ℕ) → Holds kit_ids r x (squash ps) → at is_kit r x (squash ps) ≡ true
    held r h =
        sym (ap (λ f. any (λ p. (p.sequence == r) && f p) (squash ps)) (fun_ext (elem-kit_ids x)))
        ∙ h

-- An id pending in one shipment after `squash` is done in no other shipment.
pub squash-pending_apart :
    (ps : Pickings) (s t x : ℕ)
    → t ≢ s
    → Holds pending_ids s x (squash ps)
    → ¬ Holds done_ids t x (squash ps)
squash-pending_apart ps s t x ne a b =
    (squash-Settled is_pending s x ps pending).rest t x ne pending (
      sym (ap (λ f. any (λ p. (p.sequence == t) && f p) (squash ps)) (fun_ext (elem-done_ids x)))
      ∙ b)
  where
    pending : at is_pending s x (squash ps) ≡ true
    pending =
        sym
          (ap (λ f. any (λ p. (p.sequence == s) && f p) (squash ps)) (fun_ext (elem-pending_ids x)))
        ∙ a

-- Whether any approved line of the order has the id `x`.
abbrev pub exported : ℕ → Pickings → Bool
exported x ps = any (λ p. elem x (ids p.approved_lines)) ps

exported_lem : (x : ℕ) (ps : Pickings) → exported x ps ≡ on_order (λ _. true) x ps
exported_lem x ps =
    ap (λ f. any f ps) (fun_ext (λ p. any-map (λ l. l.external_id) (λ y. y == x) p.approved_lines))

-- `squash` neither loses nor invents an id: those on approved lines of the order stay the same.
pub squash_keeps_ids : (ps : Pickings) (x : ℕ) → exported x (squash ps) ≡ exported x ps
unfolding squash
squash_keeps_ids ps x =
    exported_lem x (squash ps)
    ∙ on_order-loop x (map (λ p. p.sequence) (iter ps)) ps
    ∙ sym (exported_lem x ps)
