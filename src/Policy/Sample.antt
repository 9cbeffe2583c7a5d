-- ===== src/Policy/Sample.antt =====
-- The calculation of the sample profile.
use agentic_etf_advisor.Prelude.{◌≡◌, refl, none, some, [], ◌∷◌, half_up, whole, leb_dec}
use agentic_etf_advisor.Profile.{moderate, balanced, us_eu_v1, identity_of, eur}
use agentic_etf_advisor.Profile.Sample.{profile}
use agentic_etf_advisor.Policy.{
  get_band, policy_bands, PolicyCalculation, target_ok, minor_cash_ok, currency_eqb, inside,
  money_ok, validate_target_within_bands, growth_target, complement, growth_part, split_minor_cash,
  new_cash, calculate_policy,
}

abbrev pub calculation : PolicyCalculation
calculation = record {
  risk_tolerance = moderate;
  objective = balanced;
  horizon_years = 20;
  max_drawdown_pct = whole 25;
  excluded_sectors = "energy" ∷ [];
  allocation_bands = policy_bands moderate;
  target_allocation = record {
    growth_assets_pct = record { coefficient = 575; scale = 1 };
    defensive_assets_pct = record { coefficient = 425; scale = 1 };
  };
  advisory_contract = some us_eu_v1;
  identity_contract = identity_of "curator-fund-v1";
  base_currency = some eur;
  initial_investment_usd = none;
  recurring_monthly_usd = none;
  initial_investment = some (record {
    currency = eur;
    total_minor = 1000001;
    growth_minor = 575001;
    defensive_minor = 425000;
  });
  recurring_monthly =
      some (record { currency = eur; total_minor = 0; growth_minor = 0; defensive_minor = 0 });
}

pub calculated : calculate_policy profile ≡ some calculation
unfolding calculate_policy target_ok growth_target complement policy_bands get_band new_cash
    minor_cash_ok split_minor_cash growth_part half_up validate_target_within_bands money_ok inside
    currency_eqb leb_dec
calculated = refl
