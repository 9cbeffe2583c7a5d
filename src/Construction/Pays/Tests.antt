-- ===== src/Construction/Pays/Tests.antt =====
-- The targets, the cash and the allocation of the sample profile over two funds.
use agentic_etf_advisor.Prelude.{
  ℕ, String, ◌≡◌, refl, inl, none, some, List, [], ◌∷◌, sum, exact_hundredths,
}
use agentic_etf_advisor.Profile.Sample.{profile}
use agentic_etf_advisor.Policy.{get_band, policy_bands}
use agentic_etf_advisor.Policy.Sample.{calculation, calculated}
use agentic_etf_advisor.Construction.Candidate.{
  Sleeve, growth, defensive, EligibleCandidate, BySleeve, total_of, PortfolioConstructionPolicy,
  weight_reconciliation_failed,
}
use agentic_etf_advisor.Construction.Weights.{equal_sleeve_weights, covers}
use agentic_etf_advisor.Construction.Cash.{allocate_all_cash}
use agentic_etf_advisor.Construction.Select.{
  select_subset, scan, judge, subsets, combinations, down_to, distinct, groups, covered, weights_ok,
  category_totals, add_total, within,
}
use agentic_etf_advisor.Construction.Targets.{
  in_band, checked_targets, basis_points, target_basis_points, initial_investment, reconciled_cents,
  policy_cash_cents,
}
use agentic_etf_advisor.Construction.Calculated.{IsWhole, target_basis_points-IsWhole}
use agentic_etf_advisor.Construction.ReadCash.{policy_cash_cents_total}
use agentic_etf_advisor.Construction.Pays.{allocate_all_cash-calculated}

abbrev fund : String → Sleeve → String → EligibleCandidate
fund symbol sleeve category = record {
  document_id = symbol;
  symbol = symbol;
  trading_currency = "EUR";
  sleeve = sleeve;
  category = category;
  share_class_id = none;
  economic_group_id = none;
}

abbrev pool : List EligibleCandidate
pool = fund "VTI" growth "large blend" ∷ fund "BND" defensive "intermediate core bond" ∷ []

abbrev policy : PortfolioConstructionPolicy
policy = record {
  max_candidate_pool_size = 10;
  min_positions = 2;
  max_positions = 5;
  min_position_weight_bps = 500;
  max_position_weight_bps = 8000;
  max_category_weight_bps = 8000;
  weight_precision_bps = 1;
  growth_categories = "large blend" ∷ [];
  defensive_categories = "intermediate core bond" ∷ [];
}

abbrev targets : BySleeve
targets = record { growth = 5750; defensive = 4250 }

targets_run : target_basis_points calculation policy ≡ inl targets
unfolding target_basis_points basis_points checked_targets in_band get_band policy_bands
    exact_hundredths
targets_run = refl

select_run :
    select_subset pool targets policy
    ≡ (some (pool, equal_sleeve_weights pool targets), weight_reconciliation_failed)
unfolding select_subset scan judge subsets combinations down_to distinct groups covered weights_ok
    category_totals add_total within equal_sleeve_weights covers
select_run = refl

cash_run :
    policy_cash_cents calculation initial_investment
    ≡ some (record { growth = 575001; defensive = 425000 }, 1000001)
unfolding policy_cash_cents reconciled_cents
cash_run = refl

target_basis_points-IsWhole_example :
    (found : BySleeve) × (target_basis_points calculation policy ≡ inl found)
    × IsWhole calculation.target_allocation found
target_basis_points-IsWhole_example = target_basis_points-IsWhole profile policy calculated refl

policy_cash_cents_total_example :
    (by_sleeve : BySleeve) × (total : ℕ) × (policy_cash_cents calculation initial_investment
      ≡ some (by_sleeve, total))
    × (total_of by_sleeve ≡ total)
policy_cash_cents_total_example = policy_cash_cents_total profile initial_investment calculated

allocate_all_cash-calculated_example :
    (amounts : List ℕ) × (allocate_all_cash pool
        (equal_sleeve_weights pool targets)
        (record { growth = 575001; defensive = 425000 })
      ≡ some amounts)
    × (sum amounts ≡ 1000001)
allocate_all_cash-calculated_example =
    allocate_all_cash-calculated profile policy pool initial_investment calculated targets_run
      select_run cash_run
