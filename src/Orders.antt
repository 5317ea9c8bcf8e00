-- ===== src/Orders.antt =====
-- How an order of a store becomes a sales order: integration/models/integration_sale_order_factory.py
-- and the calls of it in integration/models/sale_integration.py.

pub mod Data
pub mod Env
pub mod Taxes
pub mod Lines
pub mod Delivery
pub mod Extras
pub mod Vals
pub mod Create
pub mod Tasks
pub mod Input
pub mod Known
pub mod Paid
pub mod Started
pub mod Buildable
pub mod Worked
pub mod Bound
pub mod Once
pub mod Total
pub mod Discounted
pub mod Discounts
pub mod Memory
pub mod Sample
pub mod Tests
