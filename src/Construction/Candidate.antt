-- ===== src/Construction/Candidate.antt =====
-- The data of src/etf_advisor/domain/construction.py: sleeves, construction policy, reasons and the
-- candidates that classification has found eligible.
use agentic_etf_advisor.Prelude.{ℕ, ◌+◌, String, Bool, true, false, Option, List}

-- `PortfolioSleeve`; a loop over the enumeration visits growth first.
pub data Sleeve : Type 0 where
  growth defensive : Sleeve

infix 50 ◌==ₛ◌
abbrev pub ◌==ₛ◌ : Sleeve → Sleeve → Bool
growth ==ₛ growth = true
growth ==ₛ defensive = false
defensive ==ₛ growth = false
defensive ==ₛ defensive = true

-- `dict[PortfolioSleeve, int]` with both keys present
pub record BySleeve : Type 0 where
  pub growth : ℕ
  pub defensive : ℕ

-- `targets[sleeve]`
abbrev pub at : BySleeve → Sleeve → ℕ
at t growth = t.growth
at t defensive = t.defensive

-- `sum(by_sleeve.values())`
abbrev pub total_of : BySleeve → ℕ
total_of t = t.growth + t.defensive

-- `TOTAL_WEIGHT_BPS`
abbrev pub total_weight_bps : ℕ
total_weight_bps = 10000

-- `_EligibleCandidate`, with the fields of its candidate that construction reads. `category` is the
-- normalized source category.
pub record EligibleCandidate : Type 0 where
  pub document_id : String
  pub symbol : String
  pub trading_currency : String
  pub sleeve : Sleeve
  pub category : String
  pub share_class_id : Option String
  pub economic_group_id : Option String

-- `ConstructionReason`
pub data ConstructionReason : Type 0 where
  candidate_screening_failed candidate_screening_unknown category_missing category_unsupported :
      ConstructionReason
  category_provenance_conflict upstream_contract_mismatch evidence_not_ready : ConstructionReason
  screening_recomputation_mismatch missing_sleeve_coverage : ConstructionReason
  insufficient_eligible_candidates position_constraints_infeasible : ConstructionReason
  category_limit_infeasible allocation_band_mismatch allocation_precision_unsupported :
      ConstructionReason
  weight_reconciliation_failed cash_reconciliation_failed : ConstructionReason
  persisted_construction_mismatch candidate_pool_limit_exceeded : ConstructionReason
  advisory_contract_mismatch economic_identity_unknown economic_identity_conflict :
      ConstructionReason
  duplicate_economic_exposure fx_missing fx_stale fx_future : ConstructionReason

-- The numeric fields of `PortfolioConstructionPolicy`, and its categories by sleeve.
pub record PortfolioConstructionPolicy : Type 0 where
  pub max_candidate_pool_size : ℕ
  pub min_positions : ℕ
  pub max_positions : ℕ
  pub min_position_weight_bps : ℕ
  pub max_position_weight_bps : ℕ
  pub max_category_weight_bps : ℕ
  pub weight_precision_bps : ℕ
  pub growth_categories : List String
  pub defensive_categories : List String
