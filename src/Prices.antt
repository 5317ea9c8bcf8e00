-- ===== src/Prices.antt =====
-- The prices of a product after their export: `PriceList` of integration/tools.py.

pub mod Items
mod Tests
