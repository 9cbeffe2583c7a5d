-- ===== src/Lifecycle.antt =====
-- The lifecycle of saved reviews, of src/etf_advisor/lifecycle.py and the memory store of
-- src/etf_advisor/checkpoint.py.
pub mod Events
pub mod Dict
pub mod Record
pub mod Store
pub mod Sweep
pub mod Session
pub mod Valid
pub mod Commit
pub mod Preview
pub mod Held
pub mod Prune
pub mod Steps
pub mod Life
mod Tests
