-- ===== src/Adapters.antt =====
-- The client of a store that a process keeps between its calls: integration/tools.py (AdapterHub) and
-- `_build_adapter_core` of integration/models/sale_integration.py.

pub mod Hub
pub mod Refine
pub mod Tests
