-- ===== src/Images.antt =====
-- The images of a product on their way to the store:
-- integration/models/mixins/integration_product_external_mixin.py and integration/tools.py.
pub mod Export
pub mod Steps
pub mod Once
pub mod Tests
