-- ===== src/Shopify/Orders.antt =====
-- `FulfillmentOrder` of integration_shopify/shopify/resources/fulfillment_order.py: the quantities
-- that are sent to Shopify for a shipment. The ids of the store, its gids, are numbers.
use jean_fourche.Base.{
  ℕ, ◌≤◌, ◌<◌, Bool, true, false, not, ◌&&◌, ◌≡◌, ap, sym, inl, inr, Option, none, some, List, [],
  ◌∷◌, map, filter, all, find?, ◌==◌, ltb, if◌then◌else◌, All, In, In-find, Option-cases,
  Bool-cases, arith,
}

pub data Status : Type 0 where
  open_ in_progress cancelled incomplete closed scheduled on_hold : Status

pub record LineItem : Type 0 where
  pub gid : ℕ
  pub sale_line_item_id : ℕ
  pub total_quantity : ℕ
  pub remaining_quantity : ℕ

pub record FulfillmentOrder : Type 0 where
  pub gid : ℕ
  pub status : Status
  pub line_items : List LineItem

-- A line as it is sent.
pub record LineData : Type 0 where
  pub id : ℕ
  pub quantity : ℕ

abbrev pub is_closed_status : Status → Bool
is_closed_status Status.closed = true
is_closed_status _ = false

abbrev pub is_left : LineItem → Bool
is_left x = not (x.remaining_quantity == 0)

unfoldable pub closed_before_fulfill : FulfillmentOrder → Bool
closed_before_fulfill o =
    is_closed_status o.status && all (λ x. x.total_quantity == x.remaining_quantity) o.line_items

unfoldable pub prepare_fulfillment_lines_data : FulfillmentOrder → List LineData
prepare_fulfillment_lines_data o =
    map (λ x. record { id = x.gid; quantity = x.remaining_quantity }) (filter is_left o.line_items)

unfoldable pub get_fulfillment_line : ℕ → FulfillmentOrder → Option LineItem
get_fulfillment_line sale_line_id o =
    find? (λ x. is_left x && (x.sale_line_item_id == sale_line_id)) o.line_items

-- Both numbers are cut to what is left of the line.
abbrev pub single_line_data : ℕ → LineItem → Option LineData
single_line_data qty line =
    if line.remaining_quantity == 0
    then none
    else some (record {
      id = line.gid;
      quantity = (if ltb line.remaining_quantity qty then line.remaining_quantity else qty);
    })

-- An empty dict is none. A quantity below 0 is one of 0: both are sent away at once.
unfoldable pub prepare_fulfillment_single_line_data : ℕ → ℕ → FulfillmentOrder → Option LineData
unfolding get_fulfillment_line
prepare_fulfillment_single_line_data sale_line_id qty o =
    if qty == 0 then none else elim (get_fulfillment_line sale_line_id o) [
      | none ↦ none
      | some line ↦ single_line_data qty line
    ]

-- `d` is for a line of the order that belongs to this line of the sale: it asks for at least one
-- unit, for no more than what was shipped, and for no more than the line has left.
abbrev pub Sendable : ℕ → ℕ → FulfillmentOrder → LineData → Type 0
Sendable sale_line_id qty o d =
    (line : LineItem) × In line o.line_items
    × (line.sale_line_item_id ≡ sale_line_id)
    × (d.id ≡ line.gid)
    × (0 < d.quantity)
    × (d.quantity ≤ qty)
    × (d.quantity ≤ line.remaining_quantity)

single_line_data_lem :
    (qty : ℕ) (line : LineItem) (d : LineData)
    → 0 < qty
    → single_line_data qty line ≡ some d
    → (d.id ≡ line.gid)
      × (0 < d.quantity)
      × (d.quantity ≤ qty)
      × (d.quantity ≤ line.remaining_quantity)
single_line_data_lem qty line d h e = elim (Bool-cases (line.remaining_quantity == 0)) [
  | inl nothing ↦ absurd (ground arith)
  | inr rest ↦
      let same : record {
        id = line.gid;
        quantity = (if ltb line.remaining_quantity qty then line.remaining_quantity else qty);
      }
          ≡ d =
        ground arith in
      (
        sym (ap (λ (x : LineData). x.id) same),
        ground (arith, ap (λ (x : LineData). x.quantity) same),
        ground (arith, ap (λ (x : LineData). x.quantity) same),
        ground (arith, ap (λ (x : LineData). x.quantity) same),
      )
]

-- What is sent to Shopify for one line of a sale is for a fulfillment line of that sale line, and
-- its quantity is at least one, at most what was shipped, and at most what the line has left.
pub prepare_fulfillment_single_line_data-Sendable :
    (sale_line_id qty : ℕ) (o : FulfillmentOrder) (d : LineData)
    → prepare_fulfillment_single_line_data sale_line_id qty o ≡ some d
    → Sendable sale_line_id qty o d
unfolding prepare_fulfillment_single_line_data get_fulfillment_line
prepare_fulfillment_single_line_data-Sendable sale_line_id qty o d e =
    elim (Bool-cases (qty == 0)) [
      | inl nothing ↦ absurd (ground arith)
      | inr some_qty ↦
          elim (Option-cases
            (find? (λ x. is_left x && (x.sale_line_item_id == sale_line_id)) o.line_items)) [
              | inl missing ↦ absurd (ground arith)
              | inr (line, found) ↦
                  let m : In line o.line_items
                      × ((is_left line && (line.sale_line_item_id == sale_line_id)) ≡ true) =
                    In-find (λ x. is_left x && (x.sale_line_item_id == sale_line_id)) line
                      o.line_items found in
                  let positive : 0 < qty = ground arith in
                  let sent : single_line_data qty line ≡ some d = rw (some_qty, found) at e in
                  let s : (d.id ≡ line.gid)
                      × (0 < d.quantity)
                      × (d.quantity ≤ qty)
                      × (d.quantity ≤ line.remaining_quantity) =
                    single_line_data_lem qty line d positive sent in
                  (line, m.0, ground (arith, m.1), s.0, s.1, s.2, s.3)
            ]
    ]

-- Shopify is never sent a line without a quantity when an order is fulfilled as a whole.
pub prepare_fulfillment_lines_data_lem :
    (o : FulfillmentOrder) → All (λ d. 0 < d.quantity) (prepare_fulfillment_lines_data o)
unfolding prepare_fulfillment_lines_data
prepare_fulfillment_lines_data_lem o = lines o.line_items
  where
    lines :
        (xs : List LineItem)
        → All
            (λ (d : LineData). 0 < d.quantity)
            (map (λ x. record { id = x.gid; quantity = x.remaining_quantity }) (filter is_left xs))
    lines [] = tt
    lines (x ∷ xs) = elim (Bool-cases (is_left x)) [
      | inl left ↦ rw left (ground arith, lines xs)
      | inr over ↦ rw over (lines xs)
    ]
