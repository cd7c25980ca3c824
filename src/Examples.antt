-- ===== src/Examples.antt =====
-- Runs of the definitions on small inputs, and the theorems applied to them.
pub mod Accounts
pub mod Generations
pub mod History
pub mod Queueing
pub mod Messages
pub mod Credit
pub mod Registration
pub mod Notices
pub mod Standing
pub mod Parsing
pub mod Play
pub mod Deliveries
pub mod Wakes
pub mod Requests
