-- ===== src/Transfer/Approve.antt =====
-- `_approve_lines` of integration/tools.py: one line for each external id, with the most done.
use mathlib.Core.Path.{subst, fun_ext}
use jean_fourche.Base.{
  ℕ, ◌≤◌, Bool, true, ◌&&◌, ◌≡◌, refl, sym, ap, ◌∙◌, inl, inr, List, [], ◌∷◌, map, any, filter,
  elem, last?, arith, ◌==◌, ==_iff, some, All, In, Distinct, any-filter, any-map, In-filter,
  All-filter, ||_left, ||_right, ==_refl,
}
use jean_fourche.Base.Sort.{
  sort_by, sort_by-Sorted, Sorted-last, All-sort_by, In-sort_by, any-sort_by,
}
use jean_fourche.Transfer.Line.{PickingLine, get_qty}
use jean_fourche.Transfer.Picking.{Picking, Grouping, ids, best_line, approve_groups, approve_lines}

last?-nonempty :
    (l : PickingLine) (ls : List PickingLine)
    → (m : PickingLine) × (last? (l ∷ ls) ≡ some m) × In m (l ∷ ls)
last?-nonempty l [] = (l, refl, inl refl)
last?-nonempty l (k ∷ ls) = let (m, e, i) = last?-nonempty k ls in (m, e, inr i)

-- `l` stands among `ls`, and no line of `ls` has done more.
abbrev IsMost : PickingLine → List PickingLine → Type 0
IsMost l ls = In l ls × All (λ m. get_qty m ≤ get_qty l) ls

sorted_best :
    (ls sorted : List PickingLine)
    → sort_by get_qty ls ≡ sorted
    → any (λ l. true) ls ≡ true
    → (l : PickingLine) × (best_line ls ≡ some l) × IsMost l ls
unfolding best_line
sorted_best ls [] e h =
    absurd (ground (arith, any-sort_by (λ l. true) get_qty ls, ap (any (λ l. true)) e))
sorted_best ls (k ∷ ks) e h =
    let (m, last, i) = last?-nonempty k ks in
    (
      m,
      rw e last,
      (
        In-sort_by get_qty m ls (subst (In m) (sym e) i),
        All-sort_by (λ x. get_qty x ≤ get_qty m) get_qty ls
            (subst (All (λ x. get_qty x ≤ get_qty m)) (sym e)
              (Sorted-last get_qty k ks (rw e at (sort_by-Sorted get_qty ls)) last)),
      ),
    )

-- `l` is a line of `ls`, and no line of `ls` with its external id has done more.
abbrev pub IsBest : List PickingLine → PickingLine → Type 0
IsBest ls l =
    In l ls × All (λ m. (m.external_id == l.external_id) ≡ true → get_qty m ≤ get_qty l) ls

-- The group of one key yields the best line of that key.
group_choice :
    (ls : List PickingLine) (key : ℕ) (group : List PickingLine)
    → group ≡ filter (λ l. l.external_id == key) ls
    → elem key (ids ls) ≡ true
    → (l : PickingLine) × (best_line group ≡ some l) × (l.external_id ≡ key) × IsBest ls l
group_choice ls key group e known =
    let nonempty : any (λ l. true) group ≡ true =
      ap (any (λ l. true)) e
      ∙ any-filter (λ l. true) (λ l. l.external_id == key) ls
      ∙ some_line
      ∙ sym (any-map (λ l. l.external_id) (λ y. y == key) ls)
      ∙ known in
    let (l, best, most) = sorted_best group (sort_by get_qty group) refl nonempty in
    let found : In l ls × ((l.external_id == key) ≡ true) =
      In-filter (λ m. m.external_id == key) l ls (subst (In l) e most.0) in
    let same : l.external_id ≡ key = (==_iff l.external_id key).0 found.1 in
    (
      l,
      best,
      same,
      (
        found.0,
        subst (λ k. All (λ m. (m.external_id == k) ≡ true → get_qty m ≤ get_qty l) ls) (sym same)
            (All-filter (λ m. get_qty m ≤ get_qty l) (λ m. m.external_id == key) ls
              (subst (All (λ m. get_qty m ≤ get_qty l)) e most.1)),
      ),
    )
  where
    some_line : any (λ l. (l.external_id == key) && true) ls ≡ any (λ l. l.external_id == key) ls
    some_line = ap (λ f. any f ls) (fun_ext (λ l. ground arith))

groups_choice :
    (ls : List PickingLine) (groups : List (ℕ × List PickingLine))
    → All (λ g. g.1 ≡ filter (λ l. l.external_id == g.0) ls) groups
    → All (λ g. elem g.0 (ids ls) ≡ true) groups
    → (out : List PickingLine) × (approve_groups groups ≡ some out)
      × (ids out ≡ map (λ g. g.0) groups)
      × All (IsBest ls) out
unfolding approve_groups
groups_choice ls [] c k = ([], refl, refl, tt)
groups_choice ls ((key, group) ∷ rest) c k =
    let (l, best, same, is_best) = group_choice ls key group c.0 k.0 in
    let (out, done, keys, all_best) = groups_choice ls rest c.1 k.1 in
    (l ∷ out, ground arith, ground arith, (is_best, all_best))

known_keys :
    (groups : List (ℕ × List PickingLine)) (known : ℕ → Bool)
    → ((x : ℕ) → elem x (map (λ g. g.0) groups) ≡ true → known x ≡ true)
    → All (λ g. known g.0 ≡ true) groups
known_keys [] known h = tt
known_keys (g ∷ groups) known h = (
  h g.0 (||_left (g.0 == g.0) _ (==_refl g.0)),
  known_keys groups known (λ x e. h x (||_right (g.0 == x) _ e)),
)

-- Whatever the lines, approval does not fail and leaves the rest of the shipment alone: it keeps
-- one line for each external id of the lines and no other, and each kept line is one of the lines
-- with the greatest quantity among those of its id.
pub approve_lines_lem :
    (g : Grouping) (p : Picking)
    → (out : List PickingLine) × (approve_lines g p ≡ some (record p { approved_lines = out }))
      × Distinct (ids out)
      × ((x : ℕ) → elem x (ids out) ≡ elem x (ids p.lines))
      × All (IsBest p.lines) out
unfolding approve_lines
approve_lines_lem g p =
    let groups = g.groupby p.lines in
    let (out, done, keys, best) =
      groups_choice p.lines groups (g.collected p.lines)
        (known_keys groups (λ x. elem x (ids p.lines)) (λ x e. sym (g.keys p.lines x) ∙ e)) in
    (
      out,
      rw (done, approve_lines),
      subst Distinct (sym keys) (g.keys_distinct p.lines),
      λ x. ap (elem x) keys ∙ g.keys p.lines x,
      best,
    )
