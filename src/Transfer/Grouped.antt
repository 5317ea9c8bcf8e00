-- ===== src/Transfer/Grouped.antt =====
-- A grouping that behaves as `odoo.tools.misc.groupby` documents, to run the shipments with.
use jean_fourche.Base.{
  ℕ, not, ◌&&◌, ◌≡◌, refl, ap, ◌∙◌, List, [], ◌∷◌, map, filter, elem, All, Distinct, arith, ◌==◌,
}
use jean_fourche.Transfer.Line.{PickingLine}
use jean_fourche.Transfer.Picking.{Grouping, ids}

abbrev pub keys_of : List PickingLine → List ℕ
keys_of [] = []
keys_of (l ∷ ls) = l.external_id ∷ filter (λ k. not (k == l.external_id)) (keys_of ls)

abbrev pub group_lines : List PickingLine → List (ℕ × List PickingLine)
group_lines ls = map (λ k. (k, filter (λ l. l.external_id == k) ls)) (keys_of ls)

pub collected_lem :
    (ls : List PickingLine) (ks : List ℕ)
    → All
        (λ (g : ℕ × List PickingLine). g.1 ≡ filter (λ l. l.external_id == g.0) ls)
        (map (λ k. (k, filter (λ l. l.external_id == k) ls)) ks)
collected_lem ls [] = tt
collected_lem ls (k ∷ ks) = (refl, collected_lem ls ks)

pub keys_lem :
    (ls : List PickingLine) (ks : List ℕ)
    → map
        (λ (g : ℕ × List PickingLine). g.0)
        (map (λ k. (k, filter (λ l. l.external_id == k) ls)) ks)
      ≡ ks
keys_lem ls [] = refl
keys_lem ls (k ∷ ks) = ap (λ r. k ∷ r) (keys_lem ls ks)

elem-without :
    (x k : ℕ) (ks : List ℕ) → elem x (filter (λ j. not (j == k)) ks) ≡ (not (x == k) && elem x ks)
elem-without x k [] = ground arith
elem-without x k (j ∷ ks) = ground (arith, elem-without x k ks)

pub elem-keys_of : (x : ℕ) (ls : List PickingLine) → elem x (keys_of ls) ≡ elem x (ids ls)
elem-keys_of x [] = refl
elem-keys_of x (l ∷ ls) =
    ground (arith, elem-without x l.external_id (keys_of ls), elem-keys_of x ls)

Distinct-without : (k : ℕ) (ks : List ℕ) → Distinct ks → Distinct (filter (λ j. not (j == k)) ks)
Distinct-without k [] h = tt
Distinct-without k (j ∷ ks) h = ground (arith, elem-without j k ks, Distinct-without k ks h.1)

Distinct-keys_of : (ls : List PickingLine) → Distinct (keys_of ls)
Distinct-keys_of [] = tt
Distinct-keys_of (l ∷ ls) = (
  elem-without l.external_id l.external_id (keys_of ls) ∙ ground arith,
  Distinct-without l.external_id (keys_of ls) (Distinct-keys_of ls),
)

pub distinct_lem : (ls : List PickingLine) → Distinct (map (λ g. g.0) (group_lines ls))
distinct_lem ls = rw (keys_lem ls (keys_of ls)) (Distinct-keys_of ls)

abbrev pub grouping : Grouping
grouping = record {
  groupby = group_lines;
  collected = λ ls. collected_lem ls (keys_of ls);
  keys = λ ls x. ap (elem x) (keys_lem ls (keys_of ls)) ∙ elem-keys_of x ls;
  keys_distinct = distinct_lem;
}
