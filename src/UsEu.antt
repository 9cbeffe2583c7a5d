-- ===== src/UsEu.antt =====
-- src/etf_advisor/domain/us_eu.py: currencies, canonical ECB rates, exact conversion, ISIN check
-- digits and the freshness of a reference rate.
pub mod Rate
pub mod Conversion
pub mod Fx
mod Tests
