-- ===== src/Json.antt =====
-- Values of JSON and what is read of them: ExtractNode, flatten_recursive and the translated values of
-- integration/tools.py.

pub mod Values
pub mod Extract
pub mod Paths
pub mod Flat
pub mod Tests
