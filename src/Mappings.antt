-- ===== src/Mappings.antt =====
-- What a store calls a record, and what Odoo calls it: integration/models/mixins.

pub mod Records
pub mod Mixin
pub mod Valid
pub mod RoundTrip
pub mod ToExternal
pub mod Tests
