-- ===== src/Policy/Tests.antt =====
-- Runs of the calculation, and its theorems at a profile of each contract.
use agentic_etf_advisor.Prelude.{
  ◌+◌, ◌*◌, ◌^◌, ◌≡◌, refl, ◌⊎◌, ◌↔◌, inl, true, false, none, some, [], half_up, pos, whole,
  leb_dec,
}
use agentic_etf_advisor.Profile.{
  moderate, balanced, us_eu_v1, eur, absent, null, given, ProfileInput, InvestorProfile,
  validate_money, model_validate, reject_mixed_money, horizon_of, risk_of, objective_of,
  drawdown_of, advisory_of, identity_of, currency_of, cash_of, minor_of,
}
use agentic_etf_advisor.Policy.{
  get_band, policy_bands, MinorCashAllocation, PolicyCalculation, target_ok, minor_cash_ok,
  currency_eqb, inside, money_ok, validate_target_within_bands, growth_target, complement,
  growth_part, split_minor_cash, new_cash, legacy_cash, calculate_policy,
}
use agentic_etf_advisor.Policy.Laws.{calculate_policy_total}
use agentic_etf_advisor.Policy.Exact.{
  calculate_policy_target, calculate_policy_minor_exact, IsExactSplit,
}

-- a legacy request whose recurring amount is None
abbrev legacy_null : ProfileInput
legacy_null = record {
  horizon_years = pos 20;
  risk_tolerance = "moderate";
  objective = "balanced";
  max_drawdown_pct = record { negative = false; magnitude = whole 25 };
  advisory_contract = absent;
  identity_contract = absent;
  base_currency = absent;
  initial_investment_usd = given (record { negative = false; magnitude = whole 5000 });
  recurring_monthly_usd = null;
  initial_investment_minor = absent;
  recurring_monthly_minor = absent;
  excluded_sectors = [];
  catalogue_request = absent;
}

abbrev legacy_profile : InvestorProfile
legacy_profile = record {
  horizon_years = 20;
  risk_tolerance = moderate;
  objective = balanced;
  max_drawdown_pct = whole 25;
  advisory_contract = none;
  identity_contract = none;
  base_currency = none;
  initial_investment_usd = some (whole 5000);
  recurring_monthly_usd = none;
  initial_investment_minor = none;
  recurring_monthly_minor = none;
  excluded_sectors = [];
  catalogue_request = none;
}

legacy_null_validates : model_validate legacy_null ≡ some legacy_profile
unfolding model_validate reject_mixed_money horizon_of risk_of objective_of drawdown_of advisory_of
    identity_of currency_of cash_of minor_of validate_money leb_dec
legacy_null_validates = refl

legacy_null_raises : calculate_policy legacy_profile ≡ none
unfolding calculate_policy target_ok growth_target complement policy_bands get_band legacy_cash
    leb_dec
legacy_null_raises = refl

calculate_policy_total_example :
    ((calculate_policy legacy_profile ≡ none)
      ↔ ((legacy_profile.advisory_contract ≡ none) × (legacy_profile.recurring_monthly_usd ≡ none)))
    × (((c : PolicyCalculation) × (calculate_policy legacy_profile ≡ some c))
        ⊎ (calculate_policy legacy_profile ≡ none))
calculate_policy_total_example =
    calculate_policy_total legacy_null legacy_profile legacy_null_validates

abbrev new_profile : InvestorProfile
new_profile = record legacy_profile {
  advisory_contract = some us_eu_v1;
  base_currency = some eur;
  initial_investment_usd = none;
  recurring_monthly_usd = some (whole 0);
  initial_investment_minor = some 1000001;
  recurring_monthly_minor = some 333;
}

abbrev initial_split : MinorCashAllocation
initial_split = record {
  currency = eur;
  total_minor = 1000001;
  growth_minor = 575001;
  defensive_minor = 425000;
}

abbrev calculation : PolicyCalculation
calculation = record {
  risk_tolerance = moderate;
  objective = balanced;
  horizon_years = 20;
  max_drawdown_pct = whole 25;
  excluded_sectors = [];
  allocation_bands = policy_bands moderate;
  target_allocation = record {
    growth_assets_pct = record { coefficient = 575; scale = 1 };
    defensive_assets_pct = record { coefficient = 425; scale = 1 };
  };
  advisory_contract = some us_eu_v1;
  identity_contract = none;
  base_currency = some eur;
  initial_investment_usd = none;
  recurring_monthly_usd = none;
  initial_investment = some initial_split;
  recurring_monthly =
      some
        (record { currency = eur; total_minor = 333; growth_minor = 191; defensive_minor = 142 });
}

calculated : calculate_policy new_profile ≡ some calculation
unfolding calculate_policy target_ok growth_target complement policy_bands get_band new_cash
    minor_cash_ok split_minor_cash growth_part half_up validate_target_within_bands money_ok inside
    currency_eqb leb_dec
calculated = refl

calculate_policy_target_example :
    let g = calculation.target_allocation.growth_assets_pct in
    let d = calculation.target_allocation.defensive_assets_pct in
    (g.coefficient * 10 ^ d.scale + d.coefficient * 10 ^ g.scale
      ≡ 100 * (10 ^ g.scale * 10 ^ d.scale))
    × (inside (get_band "growth_assets_pct" (policy_bands moderate)) g ≡ true)
    × (inside (get_band "defensive_assets_pct" (policy_bands moderate)) d ≡ true)
calculate_policy_target_example = calculate_policy_target new_profile calculated

calculate_policy_minor_exact_example :
    IsExactSplit calculation.target_allocation.growth_assets_pct initial_split
calculate_policy_minor_exact_example =
    calculate_policy_minor_exact new_profile initial_split calculated (inl refl)
