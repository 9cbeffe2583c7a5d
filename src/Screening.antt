-- ===== src/Screening.antt =====
-- src/etf_advisor/domain/screening.py: the deterministic screening of the retrieved candidates.
pub mod Types
pub mod Sectors
pub mod Fields
pub mod Rules
pub mod Candidate
pub mod Health
pub mod Timely
