-- ===== src/Transfer.antt =====
-- The export of shipments (integration/tools.py): lines, shipments, and the shipments of an order.
pub mod Line
pub mod Picking
pub mod Sale
mod Held
mod Drop
mod Passes
pub mod Squash
pub mod Approve
pub mod Setup
mod Grouped
mod Tests
