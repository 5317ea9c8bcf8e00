-- ===== src/Workflow.antt =====
-- The automatic workflow of an order: the tasks that its statuses switch on, the pipeline that
-- runs them, and the input file that it came from.
pub mod Steps
pub mod Build
pub mod File
pub mod Pipeline
pub mod Order
pub mod Chain
mod Calls
pub mod Complete
pub mod Manual
pub mod Process
mod Tests
