-- ===== src/Profile/Sample.antt =====
-- One request of the new contract and the profile that it validates to.
use agentic_etf_advisor.Prelude.{◌≡◌, refl, false, none, some, [], ◌∷◌, pos, whole, leb_dec}
use agentic_etf_advisor.Profile.{
  moderate, balanced, us_eu_v1, eur, absent, given, ProfileInput, InvestorProfile, validate_money,
  model_validate, reject_mixed_money, horizon_of, risk_of, objective_of, drawdown_of, advisory_of,
  identity_of, currency_of, cash_of, minor_of,
}

abbrev pub request : ProfileInput
request = record {
  horizon_years = pos 20;
  risk_tolerance = "moderate";
  objective = "balanced";
  max_drawdown_pct = record { negative = false; magnitude = whole 25 };
  advisory_contract = given "us-eu-v1";
  identity_contract = given "curator-fund-v1";
  base_currency = given "EUR";
  initial_investment_usd = absent;
  recurring_monthly_usd = absent;
  initial_investment_minor = given (pos 1000001);
  recurring_monthly_minor = given (pos 0);
  excluded_sectors = "energy" ∷ [];
  catalogue_request = absent;
}

abbrev pub profile : InvestorProfile
profile = record {
  horizon_years = 20;
  risk_tolerance = moderate;
  objective = balanced;
  max_drawdown_pct = whole 25;
  advisory_contract = some us_eu_v1;
  identity_contract = identity_of "curator-fund-v1";
  base_currency = some eur;
  initial_investment_usd = none;
  recurring_monthly_usd = some (whole 0);
  initial_investment_minor = some 1000001;
  recurring_monthly_minor = some 0;
  excluded_sectors = "energy" ∷ [];
  catalogue_request = none;
}

pub validated : model_validate request ≡ some profile
unfolding model_validate reject_mixed_money horizon_of risk_of objective_of drawdown_of advisory_of
    identity_of currency_of cash_of minor_of validate_money leb_dec
validated = refl
