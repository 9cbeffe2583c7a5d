-- ===== src/Screening/Candidate/Tests.antt =====
-- The screening of one legacy fund, and its theorems at that fund.
use agentic_etf_advisor.Prelude.{
  ℕ, ◌+◌, ◌-◌, lstrip, rstrip, ap, ◌∙◌, List, pos, String, ◌≡◌, refl, ◌↔◌, true, false, ◌&&◌,
  Option, none, some, [], ◌∷◌, map, leb, if◌then◌else◌, All, In, Decimal, whole, leb_dec, eqb_dec,
  is_space, same_codes,
}
use agentic_etf_advisor.Screening.Types.{
  pass, fail, unknown, ScreeningCriterion, us_listing, instrument_type, freshness, expense_ratio,
  liquidity, concentration, sector_exclusions, ScreeningReason, us_listing_confirmed,
  etf_type_confirmed, source_current, expense_ratio_within_limit, volume_meets_minimum,
  concentration_within_limit, sector_exclusions_clear, CandidateScreeningPolicy, WeightedExposure,
  Value, text, number, items, ResearchField, get_field, CandidateEvidence, current,
  ScreeningCitation, ScreeningRuleResult, ok, Builtins,
}
use agentic_etf_advisor.Screening.Sectors.{
  normalize_words, normalize_requested_sectors, get_alias, get_weight, sector_weights, same_weights,
  weighted_exposures,
}
use agentic_etf_advisor.Screening.Fields.{
  any, finite_number, is_text, same_option, Window, issuer_pair_ok,
  validate_consumed_field_contracts, ensure_current,
}
use agentic_etf_advisor.Screening.Rules.{
  field_citation, candidate_citation, confirmed_rule, freshness_rule, judged_number, numeric_rule,
  exceeds, judged_sectors, sector_rule,
}
use agentic_etf_advisor.Screening.Candidate.{
  holds, overall_verdict, CandidateScreeningResult, freshness_fields, common_rules, legacy_rules,
  screen_candidate,
}
use agentic_etf_advisor.Screening.Sectors.{
  end_word, split_words, join_words, put_weight, distinct_names, validated_items, checked_exposures,
  canonical_sector,
}
use agentic_etf_advisor.Screening.Fields.{
  is_issuer_field, field_max_age, identity_ok, price_unit_ok, has_unit, bounded_number,
  numeric_contract, sector_contract, current_field, ensure_available_field_current,
}
use agentic_etf_advisor.Screening.Candidate.Verdict.{overall_verdict_lem}
use agentic_etf_advisor.Screening.Candidate.Passing.{IsPassing, screen_candidate-IsPassing}
use agentic_etf_advisor.Screening.Candidate.Summary.{
  validate_rule_summary, validate_rule_summary-screen_candidate,
}
use agentic_etf_advisor.Screening.Candidate.{find_health}
use agentic_etf_advisor.Screening.Health.{
  TimestampedSource, MarketDataHealthReport, assess_observations, health_report, observation_health,
  freshness_status, is_healthy, all_current, is_current,
}
use agentic_etf_advisor.Screening.Timely.{IsTimely, screen_candidate-IsTimely}

-- `casefold` and `upper` on ASCII letters, and no numbers in texts
abbrev python : Builtins
python = record {
  casefold = map (λ c. if leb 65 c && leb c 90 then c + 32 else c);
  upper = map (λ c. if leb 97 c && leb c 122 then c - 32 else c);
  canonical_float = λ s. none;
}

abbrev policy : CandidateScreeningPolicy
policy = record {
  max_expense_ratio_pct = whole 1;
  min_average_daily_volume = whole 100_000;
  max_top_10_concentration_pct = whole 60;
  excluded_sector_weight_tolerance_pct = whole 0;
}

abbrev window : Window
window = record { checked_at = 500_000; max_age = 432_000; future_tolerance = 300 }

abbrev fact : Value → String → ResearchField
fact value unit = record {
  value = some value;
  unit = unit;
  provider = "yahoo";
  source_url = "https://finance.yahoo.com";
  observed_at = 400_000;
  ingested_at = 400_100;
  snapshot_version = "v1";
  missing_reason = none;
}

abbrev decimal : ℕ → ℕ → Value
decimal coefficient scale =
    number
      (record { negative = false; magnitude = record { coefficient = coefficient; scale = scale } })

abbrev exposure : String → ℕ → WeightedExposure
exposure name pct = record { name = name; weight_pct = whole pct }

abbrev fund : CandidateEvidence
fund = record {
  document_id = "research:vti";
  symbol = "VTI";
  source = "yahoo";
  source_url = "https://finance.yahoo.com";
  observed_at = 400_000;
  advisory_contract = none;
  quote_type = some "ETF";
  market = some "us_market";
  listing_exchange = none;
  trading_currency = none;
  schema = 1;
  provenance =
      ("market", fact (text "us_market") "label")
      ∷ ("quote_type", fact (text "ETF") "label")
      ∷ ("expense_ratio_pct", fact (decimal 3 2) "percent")
      ∷ ("average_daily_volume", fact (decimal 3_500_000 0) "shares_per_day")
      ∷ ("top_10_concentration_pct", fact (decimal 31 0) "percent")
      ∷ ("sector_exposures", fact (items (some (exposure "Technology" 30) ∷ [])) "percent_of_fund")
      ∷ [];
  graph_context = some (record {
    sector_exposures_status = some "available";
    sector_exposures = exposure "technology" 30 ∷ [];
  });
}

abbrev cited : String → Option ScreeningCitation
cited name = some (record {
  document_id = "research:vti";
  symbol = "VTI";
  field_name = name;
  source = "yahoo";
  source_url = "https://finance.yahoo.com";
  observed_at = 400_000;
})

abbrev passed : ScreeningCriterion → ScreeningReason → Option Decimal → String → ScreeningRuleResult
passed criterion reason observed name = record {
  criterion = criterion;
  verdict = pass;
  reason_code = reason;
  observed_value = observed;
  citation = cited name;
  unresolved_exclusions = [];
}

abbrev screened : CandidateScreeningResult
screened = record {
  document_id = "research:vti";
  symbol = "VTI";
  new_contract = false;
  verdict = pass;
  rules =
      passed us_listing us_listing_confirmed none "market"
      ∷ passed instrument_type etf_type_confirmed none "quote_type"
      ∷ passed freshness source_current none "observed_at"
      ∷ passed expense_ratio expense_ratio_within_limit
          (some (record { coefficient = 3; scale = 2 })) "expense_ratio_pct"
      ∷ passed liquidity volume_meets_minimum (some (whole 3_500_000)) "average_daily_volume"
      ∷ passed concentration concentration_within_limit (some (whole 31)) "top_10_concentration_pct"
      ∷ passed sector_exclusions sector_exclusions_clear none "sector_exposures"
      ∷ [];
}

screen_run :
    screen_candidate python policy window ("Energy" ∷ []) fund (some current) false ≡ ok screened
unfolding screen_candidate legacy_rules common_rules issuer_pair_ok any
    validate_consumed_field_contracts identity_ok price_unit_ok has_unit numeric_contract
    sector_contract finite_number bounded_number get_field is_text same_option ensure_current
    freshness_fields ensure_available_field_current current_field field_max_age is_issuer_field
    confirmed_rule field_citation candidate_citation freshness_rule numeric_rule judged_number
    sector_rule weighted_exposures validated_items checked_exposures distinct_names sector_weights
    put_weight same_weights get_weight canonical_sector normalize_words split_words end_word
    join_words get_alias judged_sectors exceeds normalize_requested_sectors overall_verdict holds
    leb_dec eqb_dec is_space same_codes
screen_run = refl

overall_verdict_run : overall_verdict (pass ∷ unknown ∷ fail ∷ []) ≡ fail
unfolding overall_verdict holds
overall_verdict_run = refl

screen_candidate-IsPassing_example : IsPassing python policy ("Energy" ∷ []) fund (some current)
screen_candidate-IsPassing_example =
    screen_candidate-IsPassing python policy window ("Energy" ∷ []) fund (some current) false
      screen_run refl

validate_rule_summary-screen_candidate_example : validate_rule_summary screened ≡ true
validate_rule_summary-screen_candidate_example =
    validate_rule_summary-screen_candidate python policy window ("Energy" ∷ []) fund (some current)
      false screen_run

overall_verdict_lem_example :
    ((overall_verdict (pass ∷ unknown ∷ []) ≡ fail) ↔ In fail (pass ∷ unknown ∷ []))
    × ((overall_verdict (pass ∷ unknown ∷ []) ≡ unknown)
        ↔ ((¬ (In fail (pass ∷ unknown ∷ []))) × In unknown (pass ∷ unknown ∷ [])))
    × ((overall_verdict (pass ∷ unknown ∷ []) ≡ pass) ↔ All (λ v. v ≡ pass) (pass ∷ unknown ∷ []))
overall_verdict_lem_example = overall_verdict_lem (pass ∷ unknown ∷ [])

abbrev observations : List TimestampedSource
observations =
    record {
      symbol = "QQQ";
      source = "yahoo";
      source_url = "https://finance.yahoo.com";
      observed_at = 1;
    }
    ∷ record {
      symbol = " vti";
      source = "yahoo";
      source_url = "https://finance.yahoo.com";
      observed_at = 400_000;
    }
    ∷ []

abbrev report : MarketDataHealthReport
report = health_report 500_000 432_000 300 observations

report_unhealthy : report.healthy ≡ false
unfolding health_report observation_health freshness_status is_healthy all_current is_current
report_unhealthy = refl

fund_health_run : find_health python fund report.observations ≡ some current
unfolding health_report observation_health freshness_status find_health lstrip rstrip is_space
    same_codes
fund_health_run = refl

assess_observations_run :
    assess_observations (some 500_000) (pos 432_000) (pos 300) observations ≡ some report
unfolding assess_observations
assess_observations_run = refl

screen_candidate-IsTimely_example : IsTimely python 500_000 432_000 300 observations fund
unfolding health_report
screen_candidate-IsTimely_example =
    screen_candidate-IsTimely python policy window ("Energy" ∷ []) fund false screened 500_000
      (pos 432_000) (pos 300) observations report assess_observations_run
      (ap (λ health. screen_candidate python policy window ("Energy" ∷ []) fund health false)
          fund_health_run
        ∙ screen_run)
      refl
