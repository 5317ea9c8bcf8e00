-- ===== src/Methods.antt =====
-- The workflow's methods of a sales order: integration/models/sale_order.py, stock_picking.py and
-- account_move.py.
pub mod Data
pub mod Picking
pub mod Order
pub mod Handled
pub mod Answers
pub mod Sent
pub mod Goals
pub mod Tests
