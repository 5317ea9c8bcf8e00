-- ===== src/External/Quantities.antt =====
-- The quantities that the moves of a delivery get from a fulfillment of the store.
use text.Mathlib.Text.{◌==◌ as str_eq}
use jean_fourche.Base.{
  Pairwise, leb, ◌-◌, ℕ, zero, suc, ◌+◌, ◌≤◌, ◌<◌, Bool, true, false, not, ◌≡◌, refl, inl, inr, ◌⊎◌,
  List, [], ◌∷◌, any, map, arith, Bool-cases, All, ==_refl,
}
use jean_fourche.External.Delivery.{
  MoveLine, Move, Picking, Stock, FulfillmentLine, FulfillmentFields, fill_lines, fill_move,
  fill_moves, fill_fulfillment_line, fill_fulfillment_lines, skip_rest, is_of_line,
  get_moves_by_external_line, qty_get, qty_put, line_qty_dict, zeroed, left_of, value_of,
  prepare_external_fulfillment, set_tracking,
}

abbrev pub total : (MoveLine → ℕ) → List MoveLine → ℕ
total f [] = 0
total f (l ∷ ls) = f l + total f ls

qty_get-put : (p q : ℕ) (d : List (ℕ × ℕ)) → qty_get p (qty_put p q d) ≡ q
qty_get-put p q [] = ground (arith, ==_refl p)
qty_get-put p q ((k, v) ∷ d) = ground (arith, ==_refl p, qty_get-put p q d)

module _ (stock : Stock) where
  -- Whatever there is to hand out, no line gets more than it asks for, except that with nothing to
  -- hand out a line keeps what it has.
  abbrev pub Within : List MoveLine → List MoveLine → Type 0
  Within [] [] = Unit
  Within [] (y ∷ ys) = ⊥
  Within (x ∷ xs) [] = ⊥
  Within (l ∷ ls) (l' ∷ ls') =
      ((l' ≡ l) ⊎ (l'.quantity ≤ stock.quantity_product_uom l)) × Within ls ls'

  lines_filled :
      (ls : List MoveLine) (p fulfill : ℕ) (d : List (ℕ × ℕ))
      → Within ls (fill_lines stock p fulfill d ls).0
  unfolding fill_lines
  lines_filled [] p fulfill d = tt
  lines_filled (l ∷ ls) p zero d = (inl refl, lines_filled ls p zero d)
  lines_filled (l ∷ ls) p (suc n) d =
      (inr (ground arith), lines_filled ls p (left_of (stock.quantity_product_uom l) (suc n)) _)

  -- A line got what it asks for, or asks for nothing and was not written.
  abbrev pub IsFilled : MoveLine → MoveLine → Type 0
  IsFilled l l' =
      (l'.quantity ≡ stock.quantity_product_uom l) ⊎ ((stock.quantity_product_uom l ≡ 0) × (l' ≡ l))

  -- If the lines of a move do not ask together for more than the quantity to hand out, which
  -- `qty_dict` has for the product, then each line gets what it asks for, except that one that asks
  -- for nothing may keep what it has, and `qty_dict` keeps the rest for the next move of the
  -- product.
  pub fill_lines_enough :
      (p fulfill : ℕ) (d : List (ℕ × ℕ)) (ls : List MoveLine)
      → qty_get p d ≡ fulfill
      → total stock.quantity_product_uom ls ≤ fulfill
      → Pairwise IsFilled ls (fill_lines stock p fulfill d ls).0
        × (qty_get p (fill_lines stock p fulfill d ls).1 + total stock.quantity_product_uom ls
            ≡ fulfill)
  unfolding fill_lines
  fill_lines_enough p fulfill d [] e h = (tt, ground arith)
  fill_lines_enough p zero d (l ∷ ls) e h =
      let none_asked : stock.quantity_product_uom l ≡ 0 = omega (arith, h) in
      let rest : Pairwise IsFilled ls (fill_lines stock p 0 d ls).0
          × (qty_get p (fill_lines stock p 0 d ls).1 + total stock.quantity_product_uom ls ≡ 0) =
        fill_lines_enough p 0 d ls e (omega (arith, h)) in
      ((inr (none_asked, refl), rest.0), omega (arith, rest.1, none_asked))
  fill_lines_enough p (suc n) d (l ∷ ls) e h =
      let demand : ℕ = stock.quantity_product_uom l in
      let there : leb demand (suc n) ≡ true = ground (arith, h) in
      let given : value_of demand (suc n) ≡ demand = rw there refl in
      let is_left : left_of demand (suc n) ≡ suc n - demand = rw there refl in
      let rest : Pairwise IsFilled ls
            (fill_lines stock p (left_of demand (suc n)) (qty_put p (left_of demand (suc n)) d)
              ls).0
          × (qty_get p
                  (fill_lines stock p (left_of demand (suc n))
                    (qty_put p (left_of demand (suc n)) d) ls).1
                + total stock.quantity_product_uom ls
              ≡ left_of demand (suc n)) =
        fill_lines_enough p (left_of demand (suc n)) (qty_put p (left_of demand (suc n)) d) ls
          (qty_get-put p (left_of demand (suc n)) d) (omega (arith, is_left, h)) in
      ((inl given, rest.0), omega (arith, rest.1, is_left, h))

  -- Every line asks for more than there is.
  abbrev pub AllAbove : ℕ → List MoveLine → Type 0
  AllAbove n ls = All (λ l. n < stock.quantity_product_uom l) ls

  -- A quantity above 0 that is below what every line of a move asks for, and that `qty_dict` has
  -- for the product, is handed out to each of the lines: the move gets it as often as it has
  -- lines, and `qty_dict` still has all of it for the next move of the product.
  pub fill_lines_repeats :
      (p n : ℕ) (d : List (ℕ × ℕ)) (ls : List MoveLine)
      → qty_get p d ≡ suc n
      → AllAbove (suc n) ls
      → (total (λ l. l.quantity) (fill_lines stock p (suc n) d ls).0 ≡ total (λ l. suc n) ls)
        × (qty_get p (fill_lines stock p (suc n) d ls).1 ≡ suc n)
  unfolding fill_lines
  fill_lines_repeats p n d [] e h = (refl, e)
  fill_lines_repeats p n d (l ∷ ls) e h =
      ground (arith, fill_lines_repeats p n (qty_put p (suc n) d) ls (qty_get-put p (suc n) d) h.1)

  -- `m` is for none of the lines of the fulfillment.
  abbrev pub is_unrelated : List FulfillmentLine → Move → Bool
  is_unrelated lines m = not (any (λ l. str_eq m.integration_external_id l.external_str_id) lines)

  -- A move that is for no line of the fulfillment has nothing to deliver.
  abbrev pub IsSkipped : List FulfillmentLine → Move → Type 0
  IsSkipped lines m = is_unrelated lines m ≡ true → All (λ l. l.quantity ≡ 0) m.move_line_ids

  lines_zeroed : (ls : List MoveLine) → All (λ l. l.quantity ≡ 0) (map zeroed ls)
  lines_zeroed [] = tt
  lines_zeroed (l ∷ ls) = (refl, lines_zeroed ls)

  no_line :
      (lines : List FulfillmentLine) (m : Move)
      → is_unrelated lines m ≡ true
      → any (λ l. is_of_line stock l.external_str_id m) lines ≡ false
  no_line [] m h = refl
  no_line (l ∷ lines) m h = ground (arith, no_line lines m)

  skip_rest-IsSkipped :
      (lines : List FulfillmentLine) (ms : List Move)
      → All (IsSkipped lines) (skip_rest stock lines ms)
  unfolding skip_rest
  skip_rest-IsSkipped lines [] = tt
  skip_rest-IsSkipped lines (m ∷ ms) = (
    elim (Bool-cases (any (λ l. is_of_line stock l.external_str_id m) lines)) [
      | inl found ↦ rw found (λ e. absurd (ground (arith, no_line lines m e)))
      | inr missed ↦ rw missed (λ e. lines_zeroed m.move_line_ids)
    ],
    skip_rest-IsSkipped lines ms,
  )

  -- A line that makes its own moves related changes no other.
  abbrev Relates : List FulfillmentLine → FulfillmentLine → Type 0
  Relates lines l =
      (m : Move)
      → str_eq m.integration_external_id l.external_str_id ≡ true
      → is_unrelated lines m ≡ false

  fill_moves-IsSkipped :
      (lines : List FulfillmentLine) (l : FulfillmentLine) (ms : List Move) (d : List (ℕ × ℕ))
      → Relates lines l
      → All (IsSkipped lines) ms
      → All (IsSkipped lines) (fill_moves stock l.external_str_id d ms)
  unfolding fill_moves fill_move
  fill_moves-IsSkipped lines l [] d r h = tt
  fill_moves-IsSkipped lines l (m ∷ ms) d r h = (
    elim (Bool-cases (is_of_line stock l.external_str_id m)) [
      | inl found ↦ rw found (λ e. absurd (ground (arith, r m)))
      | inr missed ↦ rw missed h.0
    ],
    fill_moves-IsSkipped lines l ms _ r h.1,
  )

  fill_fulfillment_line-IsSkipped :
      (lines : List FulfillmentLine) (l : FulfillmentLine) (ms : List Move)
      → Relates lines l
      → All (IsSkipped lines) ms
      → All (IsSkipped lines) (fill_fulfillment_line stock l ms)
  unfolding fill_fulfillment_line
  fill_fulfillment_line-IsSkipped lines l ms r h =
      elim (get_moves_by_external_line stock l.external_str_id ms)
        as (λ found. All (IsSkipped lines) (elim found [
          | [] ↦ ms
          | m ∷ rest ↦
              fill_moves stock l.external_str_id
                (line_qty_dict stock m.sale_line_id.product_id l.quantity) ms
        ])) [ [] ↦ h | m ∷ rest ↦ fill_moves-IsSkipped lines l ms _ r h ]

  fill_fulfillment_lines-IsSkipped :
      (lines ls : List FulfillmentLine) (ms : List Move)
      → All (Relates lines) ls
      → All (IsSkipped lines) ms
      → All (IsSkipped lines) (fill_fulfillment_lines stock ls ms)
  unfolding fill_fulfillment_lines
  fill_fulfillment_lines-IsSkipped lines [] ms r h = h
  fill_fulfillment_lines-IsSkipped lines (l ∷ ls) ms r h =
      fill_fulfillment_lines-IsSkipped lines ls (fill_fulfillment_line stock l ms) r.1
        (fill_fulfillment_line-IsSkipped lines l ms r.0 h)

  lines_relate :
      (lines ls : List FulfillmentLine)
      → ((m : Move)
          → any (λ l. str_eq m.integration_external_id l.external_str_id) ls ≡ true
          → is_unrelated lines m ≡ false)
      → All (Relates lines) ls
  lines_relate lines [] h = tt
  lines_relate lines (l ∷ ls) h =
      ((λ m e. h m (ground arith)), lines_relate lines ls (λ m e. h m (ground arith)))

  -- When the button of a delivery is called for a fulfillment, every move that is for no line of
  -- the fulfillment has no quantity on any of its lines.
  pub prepare_external_fulfillment-IsSkipped :
      (f : FulfillmentFields) (p : Picking)
      → All (IsSkipped f.line_ids) (prepare_external_fulfillment stock f p).move_ids
  unfolding prepare_external_fulfillment set_tracking
  prepare_external_fulfillment-IsSkipped f p =
      fill_fulfillment_lines-IsSkipped f.line_ids f.line_ids (skip_rest stock f.line_ids p.move_ids)
        (lines_relate f.line_ids f.line_ids (λ m e. ground arith))
        (skip_rest-IsSkipped f.line_ids p.move_ids)
