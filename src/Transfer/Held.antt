-- ===== src/Transfer/Held.antt =====
-- Which external ids the approved lines of a shipment hold, and how dropping lines changes that.
use jean_fourche.Base.{
  ℕ, Bool, not, ◌&&◌, ◌≡◌, refl, ap, ◌∙◌, inl, inr, List, [], ◌∷◌, filter, any, any-map, any-filter,
  any-reverse, any-flat_map, elem, flat_map, arith, ◌==◌, ==_iff, Bool-cases,
}
use jean_fourche.Base.Sort.{any-sort_by}
use jean_fourche.Transfer.Line.{PickingLine, is_done}
use jean_fourche.Transfer.Picking.{Picking, ids, kit_ids, done_ids, pending_ids, drop_lines}
use jean_fourche.Transfer.Sale.{Pickings, get_rest, intersection}

-- The shipment has an approved line with id `x` that passes `q`.
abbrev pub id_with : (PickingLine → Bool) → ℕ → Picking → Bool
id_with q x p = any (λ l. q l && (l.external_id == x)) p.approved_lines

elem-ids :
    (q : PickingLine → Bool) (x : ℕ) (ls : List PickingLine)
    → elem x (ids (filter q ls)) ≡ any (λ l. q l && (l.external_id == x)) ls
elem-ids q x ls =
    any-map (λ l. l.external_id) (λ y. y == x) (filter q ls)
    ∙ any-filter (λ l. l.external_id == x) q ls

pub elem-kit_ids : (x : ℕ) (p : Picking) → elem x (kit_ids p) ≡ id_with (λ l. l.is_kit) x p
unfolding kit_ids
elem-kit_ids x p = elem-ids (λ l. l.is_kit) x p.approved_lines

pub elem-done_ids : (x : ℕ) (p : Picking) → elem x (done_ids p) ≡ id_with is_done x p
unfolding done_ids
elem-done_ids x p = elem-ids is_done x p.approved_lines

pub elem-pending_ids :
    (x : ℕ) (p : Picking) → elem x (pending_ids p) ≡ id_with (λ l. not (is_done l)) x p
unfolding pending_ids
elem-pending_ids x p = elem-ids (λ l. not (is_done l)) x p.approved_lines

pub elem-intersection : (x : ℕ) (a b : List ℕ) → elem x (intersection a b) ≡ (elem x a && elem x b)
elem-intersection x [] b = refl
elem-intersection x (y ∷ a) b = elim (Bool-cases (y == x)) [
  | inl e ↦ ground (arith, elem-intersection x a b, ap (λ z. elem z b) ((==_iff y x).0 e))
  | inr e ↦ ground (arith, elem-intersection x a b)
]

kept_lines :
    (q : PickingLine → Bool) (x : ℕ) (drop : List ℕ) (ls : List PickingLine)
    → any (λ l. not (elem l.external_id drop) && (q l && (l.external_id == x))) ls
      ≡ (not (elem x drop) && any (λ l. q l && (l.external_id == x)) ls)
kept_lines q x drop [] = ground arith
kept_lines q x drop (l ∷ ls) = elim (Bool-cases (l.external_id == x)) [
  | inl e ↦
      ground (arith, kept_lines q x drop ls, ap (λ z. elem z drop) ((==_iff l.external_id x).0 e))
  | inr e ↦ ground (arith, kept_lines q x drop ls)
]

-- After `drop_lines` an id is held exactly if it was held and is not dropped.
pub id_with-drop_lines :
    (q : PickingLine → Bool) (x : ℕ) (drop : List ℕ) (p : Picking)
    → id_with q x (drop_lines drop p) ≡ (not (elem x drop) && id_with q x p)
unfolding drop_lines
id_with-drop_lines q x drop p =
    any-filter (λ l. q l && (l.external_id == x)) (λ l. not (elem l.external_id drop))
      p.approved_lines
    ∙ kept_lines q x drop p.approved_lines

pub sequence-drop_lines : (drop : List ℕ) (p : Picking) → (drop_lines drop p).sequence ≡ p.sequence
unfolding drop_lines
sequence-drop_lines drop p = refl

-- The ids of the other shipments, in whatever order they are collected.
pub elem-get_rest :
    (f : Picking → List ℕ) (s x : ℕ) (ps : Pickings)
    → elem x (flat_map f (get_rest s ps)) ≡ any (λ p. not (p.sequence == s) && elem x (f p)) ps
unfolding get_rest
elem-get_rest f s x ps =
    any-flat_map (λ y. y == x) f (get_rest s ps)
    ∙ any-sort_by (λ p. elem x (f p)) (λ p. p.sequence) _
    ∙ any-filter (λ p. elem x (f p)) (λ p. not (p.sequence == s)) _
    ∙ any-reverse (λ p. not (p.sequence == s) && elem x (f p)) ps
