-- ===== src/Products.antt =====
-- The check of products before an import or an export: `TemplateHub` of integration/tools.py.
-- Ids are numbers, as `int(x.id)` reads them, and a missing parent, an empty text, is none.

pub mod Hub
pub mod Groups
pub mod Barcodes
mod Tests
