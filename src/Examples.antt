-- ===== src/Examples.antt =====
-- The theorems at concrete inputs, and runs of the model.
pub mod Values
pub mod Columns
pub mod Lists
pub mod Transactions
pub mod Syncs
pub mod Memories
pub mod Planning
pub mod Scans
pub mod Statements
pub mod Triggers
