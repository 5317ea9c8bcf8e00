-- ===== src/Shopify.antt =====
-- The resources of the Shopify adapter: integration_shopify/shopify/resources.

pub mod Orders
mod Tests
