-- ===== src/External.antt =====
-- What a store reports of an order, and how it is applied: integration/models/external.

pub mod Resource
pub mod Payment
pub mod Delivery
pub mod Fulfill
pub mod Apply
pub mod Settled
pub mod Paid
pub mod Quantities
mod Tests
