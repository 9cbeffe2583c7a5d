-- ===== src/Construction.antt =====
-- src/etf_advisor/domain/construction.py: the deterministic constructor of a model portfolio.
pub mod Candidate
pub mod Fill
pub mod Weights
pub mod Cash
pub mod Select
pub mod Targets
pub mod Calculated
pub mod ReadCash
pub mod Pays
mod Tests
