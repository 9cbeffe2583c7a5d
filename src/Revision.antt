-- ===== src/Revision.antt =====
-- src/etf_advisor/domain/revision.py: a reviewer's decision and the plan of a revision.
pub mod Decision
pub mod Plan
