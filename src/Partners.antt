-- ===== src/Partners.antt =====
-- The contact and the addresses of an order: integration/models/integration_res_partner_proxy.py and
-- integration_res_partner_factory.py.

pub mod Records
pub mod Domain
pub mod Odoo
pub mod Proxy
pub mod Contact
pub mod Address
pub mod Data
pub mod Kept
pub mod Factory
pub mod Keeps
pub mod Others
pub mod Company
pub mod Details
pub mod Mapped
pub mod Usable
pub mod Addressed
pub mod Contacts
pub mod Memory
pub mod Tests
