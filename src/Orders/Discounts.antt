-- ===== src/Orders/Discounts.antt =====
-- How the discounts of the lines reach the order: as lines of their own or as a percentage.
-- integration/models/integration_sale_order_factory.py.
use mathlib.Core.Path.{subst}
use jean_fourche.Base.{
  String, true, false, ◌≡◌, refl, ap, sym, ◌∙◌, Option, none, some, List, [], ◌∷◌, ◌++◌, map,
  if◌then◌else◌, inl, inr, arith,
}
use jean_fourche.Base.Int.{ℤ}
use jean_fourche.Base.Result.{Result, ok, ◌>>=◌, Holds, Holds-bind}
use jean_fourche.Orders.Data.{Error, LineData, Line, Settings}
use jean_fourche.Orders.Env.{Env}
use jean_fourche.Orders.Lines.{
  sold, amount_of, tax_incl_of, percent_of, lines_of, prepare_order_line_vals,
  prepare_order_discount_line_vals, separate_lines, create_order_lines,
}
use jean_fourche.Orders.Discounted.{
  IsMain, TakesOff, Follows, percent_in_line, IsLineOf, discount_lines-Follows,
  prepare_order_line_vals-IsLineOf,
}

-- The lines of an order, one after the other: each is that of a product, and one with a discount is
-- followed by the line that takes it off.
pub data Separate : List LineData → List Line → Type 0 where
  no_lines : Separate [] []
  plain :
      {d : LineData} {ds : List LineData} {l : Line} {ls : List Line}
      → amount_of d.discount ≡ none
      → IsMain d l
      → Separate ds ls
      → Separate (d ∷ ds) (l ∷ ls)
  discounted :
      {d : LineData} {ds : List LineData} {l m : Line} {ls : List Line} {amount : ℤ}
      → amount_of d.discount ≡ some amount
      → IsMain d l
      → TakesOff amount (tax_incl_of d.discount) m
      → Separate ds ls
      → Separate (d ∷ ds) (l ∷ m ∷ ls)

-- A list in two parts, of which the images are known.
map-append :
    {B : Type 0} (f : Line → B) (xs ys : List Line) {us vs : List B}
    → map f xs ≡ us
    → map f ys ≡ vs
    → map f (xs ++ ys) ≡ us ++ vs
map-append f [] ys {us} {vs} p q = ap (λ z. z ++ map f ys) p ∙ ap (λ z. us ++ z) q
map-append f (x ∷ xs) ys {us} {vs} p q =
    ap (λ z. f x ∷ z) (map-append f xs ys refl refl)
    ∙ ap (λ z. z ++ map f ys) p
    ∙ ap (λ z. us ++ z) q

Separate-Follows :
    (d : LineData) (ds : List LineData) (l : Line) (ms ls : List Line)
    → IsMain d l
    → Follows d ms
    → Separate ds ls
    → Separate (d ∷ ds) (l ∷ (ms ++ ls))
Separate-Follows d ds l ms ls i (inl f) h =
    subst (λ x. Separate (d ∷ ds) (l ∷ (x ++ ls))) (sym f.1) (plain f.0 i h)
Separate-Follows d ds l ms ls i (inr (amount, m, a, e, t)) h =
    subst (λ x. Separate (d ∷ ds) (l ∷ (x ++ ls))) (sym e) (discounted a i t h)

module _ {C : Type 0} (env : Env C) (s : Settings) (lang : Option String) where
  abbrev Lines : List LineData → List Line × C → Type 0
  Lines ds r = Separate ds r.0

  abbrev After : LineData → List Line × C → Type 0
  After d r = Follows d r.0

  abbrev LineOf : LineData → Line × C → Type 0
  LineOf d r = IsLineOf env s lang d r.0

  lines_of-Separate :
      (d : LineData) (ds : List LineData) (c : C) (f : C → Result Error (List Line × C))
      → s.separate_discount_line ≡ true
      → ((c : C) → Holds (Lines ds) (f c))
      → Holds
          (Lines (d ∷ ds))
          (lines_of env s lang d c >>= λ l. f l.1 >>= λ rest. ok (l.0 ++ rest.0, rest.1))
  unfolding prepare_order_discount_line_vals prepare_order_line_vals
  lines_of-Separate d ds c f b h =
      Holds-bind (Lines (d ∷ ds)) First (lines_of env s lang d c)
        (λ l. f l.1 >>= λ rest. ok (l.0 ++ rest.0, rest.1))
        (Holds-bind First (LineOf d) (prepare_order_line_vals env s lang d c)
          (λ l. separate_lines env s lang d l.1 >>= λ m. ok (l.0 ∷ m.0, m.1))
          (prepare_order_line_vals-IsLineOf env s lang d c)
          (λ l i.
            Holds-bind First (After d) (separate_lines env s lang d l.1) (λ m. ok (l.0 ∷ m.0, m.1))
              (follows l.1)
              (λ m j. (l.0, m.0, refl, (i.0, i.1 ∙ ap (λ n. some n) zero_percent, i.2), j))))
        (λ l (main, ms, e, i, j).
          Holds-bind (Lines (d ∷ ds)) (Lines ds) (f l.1) (λ rest. ok (l.0 ++ rest.0, rest.1))
            (h l.1)
            (λ rest k.
              subst (λ x. Separate (d ∷ ds) (x ++ rest.0)) (sym e)
                (Separate-Follows d ds main ms rest.0 i j k)))
    where
      First : List Line × C → Type 0
      First l = (main : Line) × (ms : List Line) × (l.0 ≡ main ∷ ms) × IsMain d main × Follows d ms

      zero_percent : percent_in_line env s lang d ≡ 0
      zero_percent = ground (arith, b)

      follows : (c : C) → Holds (After d) (separate_lines env s lang d c)
      follows c =
          subst
            (λ x.
              Holds (After d)
                (if x then prepare_order_discount_line_vals env s lang (sold d) c else ok ([], c)))
            (sym b) (discount_lines-Follows env s lang d c (amount_of d.discount) refl)

  -- Where discounts are lines of their own, each line of the store gives the line of its product,
  -- without a percentage, and one with a discount is followed by a line that takes the discount off.
  pub create_order_lines-Separate :
      (ds : List LineData) (c : C)
      → s.separate_discount_line ≡ true
      → Holds (λ r. Separate ds r.0) (create_order_lines env s lang ds c)
  unfolding create_order_lines
  create_order_lines-Separate [] c b = no_lines
  create_order_lines-Separate (d ∷ ds) c b =
      lines_of-Separate d ds c (create_order_lines env s lang ds) b
        (λ c'. create_order_lines-Separate ds c' b)

  -- What an order shows of the lines of the store, where discounts are percentages.
  abbrev Shows : List LineData → List Line × C → Type 0
  Shows ds r =
      (map (λ l. l.discount) r.0 ≡ map (λ d. some (percent_of d.discount)) ds)
      × (map (λ l. l.integration_external_id) r.0 ≡ map (λ d. d.id) ds)

  lines_of-Shows :
      (d : LineData) (c : C)
      → s.separate_discount_line ≡ false
      → Holds (Shows (d ∷ [])) (lines_of env s lang d c)
  unfolding prepare_order_discount_line_vals prepare_order_line_vals
  lines_of-Shows d c b =
      Holds-bind (Shows (d ∷ [])) (LineOf d) (prepare_order_line_vals env s lang d c)
        (λ l. separate_lines env s lang d l.1 >>= λ m. ok (l.0 ∷ m.0, m.1))
        (prepare_order_line_vals-IsLineOf env s lang d c)
        (λ l i.
          subst
            (λ x. Holds (Shows (d ∷ [])) (
              (if x then prepare_order_discount_line_vals env s lang (sold d) l.1 else ok ([], l.1))
              >>= λ m. ok (l.0 ∷ m.0, m.1)))
            (sym b) (ap (λ x. x ∷ []) (i.1 ∙ ap (λ n. some n) its_percent), ap (λ x. x ∷ []) i.0))
    where
      its_percent : percent_in_line env s lang d ≡ percent_of d.discount
      its_percent = ground (arith, b)

  -- Where discounts are not lines of their own, the order has one line for each line of the store, in
  -- their order, with the percentage of its discount.
  pub create_order_lines-Shows :
      (ds : List LineData) (c : C)
      → s.separate_discount_line ≡ false
      → Holds
          (λ r.
            (map (λ l. l.discount) r.0 ≡ map (λ d. some (percent_of d.discount)) ds)
            × (map (λ l. l.integration_external_id) r.0 ≡ map (λ d. d.id) ds))
          (create_order_lines env s lang ds c)
  unfolding create_order_lines
  create_order_lines-Shows [] c b = (refl, refl)
  create_order_lines-Shows (d ∷ ds) c b =
      Holds-bind (Shows (d ∷ ds)) (Shows (d ∷ [])) (lines_of env s lang d c)
        (λ l. create_order_lines env s lang ds l.1 >>= λ rest. ok (l.0 ++ rest.0, rest.1))
        (lines_of-Shows d c b)
        (λ l i.
          Holds-bind (Shows (d ∷ ds)) (Shows ds) (create_order_lines env s lang ds l.1)
            (λ rest. ok (l.0 ++ rest.0, rest.1)) (create_order_lines-Shows ds l.1 b)
            (λ rest j. (
              map-append (λ x. x.discount) l.0 rest.0 i.0 j.0,
              map-append (λ x. x.integration_external_id) l.0 rest.0 i.1 j.1,
            )))
