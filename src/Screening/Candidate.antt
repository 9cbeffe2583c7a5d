-- ===== src/Screening/Candidate.antt =====
-- `_screen_candidate`, `screen_candidate_evidence` and the checks of a result of
-- src/etf_advisor/domain/screening.py.
pub mod Verdict
pub mod Passing
pub mod Summary
mod Tests
use agentic_etf_advisor.Prelude.{
  ℕ, zero, suc, ◌+◌, ◌-◌, ◌*◌, ◌/◌, ◌%◌, ◌^◌, ◌≤◌, ◌<◌, min, String, ◌≡◌, refl, sym, ap, ◌∙◌, ◌≢◌,
  ◌↔◌, ◌⊎◌, inl, inr, Bool, true, false, not, ◌&&◌, ◌||◌, Option, none, some, List, [], ◌∷◌, ◌++◌,
  map, arith, str_eq, str_eq_iff, ltb, leb, ◌==◌, if◌then◌else◌, is_some, is_none, Bool-cases,
  Option-cases, leb→le, le→leb, ltb→lt, sum, length, get_or, set, take, replicate, all, All, In,
  half_up, half_up_bounds, half_up_unique, half_up_round_trip, half_up_mono, ℤ, pos, negsuc,
  Decimal, whole, leb_dec, eqb_dec, exact_hundredths, rounded_hundredths, hundredths, codes,
  is_space, same_codes, strip,
}
use agentic_etf_advisor.Screening.Types.{
  ScreeningVerdict, pass, fail, unknown, ScreeningCriterion, listing, trading_currency, us_listing,
  instrument_type, freshness, expense_ratio, liquidity, concentration, sector_exclusions,
  ScreeningReason, us_listing_confirmed, us_listing_unknown, listing_confirmed, listing_unknown,
  listing_unsupported, trading_currency_confirmed, trading_currency_unknown,
  trading_currency_unsupported, etf_type_confirmed, etf_type_unknown, etf_type_unsupported,
  source_current, source_health_unknown, expense_ratio_within_limit, expense_ratio_above_limit,
  expense_ratio_unknown, volume_meets_minimum, volume_below_minimum, volume_unknown,
  concentration_within_limit, concentration_above_limit, concentration_unknown,
  no_sector_exclusions, sector_exclusions_clear, excluded_sector_detected, sector_exposure_unknown,
  unsupported_sector_exclusion, CandidateScreeningPolicy, WeightedExposure, Value, text, flag,
  number, infinite, items, ResearchField, Provenance, get_field, GraphContext, CandidateEvidence,
  FreshnessStatus, current, stale, future, ScreeningCitation, ScreeningRuleResult, ScreeningError,
  contract, field_stale, field_future, research_integrity, key_error, Screened, ok, raise, ◌>>=◌,
  ◌>>◌, raise_if, >>=-eq-ok, Builtins,
}
use agentic_etf_advisor.Screening.Fields.{
  Window, issuer_pair_ok, validate_consumed_field_contracts, ensure_current,
}
use agentic_etf_advisor.Screening.Rules.{
  confirmed_rule, new_listing_rule, new_currency_rule, new_type_rule, freshness_rule, NumericRule,
  numeric_rule, sector_rule,
}

abbrev pub is_fail : ScreeningVerdict → Bool
is_fail pass = false
is_fail fail = true
is_fail unknown = false

abbrev pub is_unknown : ScreeningVerdict → Bool
is_unknown pass = false
is_unknown fail = false
is_unknown unknown = true

-- `verdict in verdicts`
unfoldable pub holds : (ScreeningVerdict → Bool) → List ScreeningVerdict → Bool
holds test [] = false
holds test (v ∷ vs) = test v || holds test vs

-- `_overall_verdict`
unfoldable pub overall_verdict : List ScreeningVerdict → ScreeningVerdict
overall_verdict verdicts =
    if holds is_fail verdicts then fail else if holds is_unknown verdicts then unknown else pass

pub record CandidateScreeningResult : Type 0 where
  pub document_id : String
  pub symbol : String
  pub new_contract : Bool
  pub verdict : ScreeningVerdict
  pub rules : List ScreeningRuleResult

abbrev pub expense_rule : CandidateScreeningPolicy → NumericRule
expense_rule policy = record {
  field_name = "expense_ratio_pct";
  criterion = expense_ratio;
  pass_when = λ value. leb_dec value policy.max_expense_ratio_pct;
  pass_reason = expense_ratio_within_limit;
  fail_reason = expense_ratio_above_limit;
  unknown_reason = expense_ratio_unknown;
  expected_unit = "percent";
  maximum_value = some (whole 100);
}

abbrev pub volume_rule : CandidateScreeningPolicy → NumericRule
volume_rule policy = record {
  field_name = "average_daily_volume";
  criterion = liquidity;
  pass_when = λ value. leb_dec policy.min_average_daily_volume value;
  pass_reason = volume_meets_minimum;
  fail_reason = volume_below_minimum;
  unknown_reason = volume_unknown;
  expected_unit = "shares_per_day";
  maximum_value = none;
}

abbrev pub concentration_rule : CandidateScreeningPolicy → NumericRule
concentration_rule policy = record {
  field_name = "top_10_concentration_pct";
  criterion = concentration;
  pass_when = λ value. leb_dec value policy.max_top_10_concentration_pct;
  pass_reason = concentration_within_limit;
  fail_reason = concentration_above_limit;
  unknown_reason = concentration_unknown;
  expected_unit = "percent";
  maximum_value = some (whole 100);
}

-- `freshness_fields`
unfoldable pub freshness_fields : Bool → List String → List String
freshness_fields new_contract excluded =
    (if new_contract then "listing_exchange" else "market")
      ∷ "quote_type"
      ∷ "expense_ratio_pct"
      ∷ "average_daily_volume"
      ∷ "top_10_concentration_pct"
      ∷ (if new_contract then "market" ∷ "trading_currency" ∷ "price_unit" ∷ [] else [])
    ++ elim excluded [ [] ↦ [] | s ∷ rest ↦ "sector_exposures" ∷ [] ]

module _ (python : Builtins) (policy : CandidateScreeningPolicy) (window : Window)
    (excluded : List String) (candidate : CandidateEvidence) (health : Option FreshnessStatus) where
  -- the rules that both contracts share
  unfoldable pub common_rules : ScreeningRuleResult → Screened (List ScreeningRuleResult)
  common_rules type = do
    health_result ← freshness_rule candidate health
    expense ← numeric_rule candidate python (expense_rule policy)
    volume ← numeric_rule candidate python (volume_rule policy)
    top_10 ← numeric_rule candidate python (concentration_rule policy)
    sectors ← sector_rule candidate python excluded policy.excluded_sector_weight_tolerance_pct
    ok (type ∷ health_result ∷ expense ∷ volume ∷ top_10 ∷ sectors ∷ [])

  -- `rules`, of the new contract and of a legacy candidate
  unfoldable pub new_rules : Screened (List ScreeningRuleResult)
  new_rules = do
    listed ← new_listing_rule candidate
    currency ← new_currency_rule candidate
    common ← common_rules (new_type_rule candidate)
    ok (listed ∷ currency ∷ common)

  unfoldable pub legacy_rules : Screened (List ScreeningRuleResult)
  legacy_rules = do
    listed ←
        confirmed_rule candidate us_listing us_listing_confirmed us_listing_unknown candidate.market
          "market"
    type ←
        confirmed_rule candidate instrument_type etf_type_confirmed etf_type_unknown
          candidate.quote_type "quote_type"
    common ← common_rules type
    ok (listed ∷ common)

  -- `_screen_candidate`
  unfoldable pub screen_candidate : Bool → Screened CandidateScreeningResult
  screen_candidate new_contract = do
    raise_if (not (issuer_pair_ok candidate.symbol candidate.provenance)) contract
    validate_consumed_field_contracts candidate python excluded
    ensure_current candidate window (freshness_fields new_contract excluded)
    rules ← (if new_contract then new_rules else legacy_rules)
    ok (record {
      document_id = candidate.document_id;
      symbol = candidate.symbol;
      new_contract = new_contract;
      verdict = overall_verdict (map (λ r. r.verdict) rules);
      rules = rules;
    })

pub record ObservationHealth : Type 0 where
  pub symbol : String
  pub source : String
  pub source_url : String
  pub observed_at : ℕ
  pub status : FreshnessStatus

-- `item.symbol.strip().upper()`
abbrev pub upper_symbol : Builtins → String → List ℕ
upper_symbol python symbol = python.upper (strip (codes symbol))

abbrev pub is_of : Builtins → CandidateEvidence → ObservationHealth → Bool
is_of python candidate h =
    same_codes (upper_symbol python h.symbol) (codes candidate.symbol)
    && str_eq h.source candidate.source
    && str_eq h.source_url candidate.source_url
    && h.observed_at == candidate.observed_at

-- `health_by_identity.get(...)`: of two observations with one identity the later one stands.
unfoldable pub find_health :
    Builtins → CandidateEvidence → List ObservationHealth → Option FreshnessStatus
find_health python candidate [] = none
find_health python candidate (h ∷ hs) =
    let later = find_health python candidate hs in
    if is_some later then later else if is_of python candidate h then some h.status else none

-- What screening reads of `CandidateEvidenceBundle`.
pub record CandidateEvidenceBundle : Type 0 where
  pub ready : Bool
  pub new_contract : Bool
  pub excluded_sectors : List String
  pub window : Window
  pub observations : List ObservationHealth
  pub candidates : List CandidateEvidence

module _ (python : Builtins) (policy : CandidateScreeningPolicy)
    (evidence : CandidateEvidenceBundle) where
  unfoldable pub screen_all : List CandidateEvidence → Screened (List CandidateScreeningResult)
  screen_all [] = ok []
  screen_all (candidate ∷ candidates) = do
    result ←
        screen_candidate python policy evidence.window evidence.excluded_sectors candidate
          (find_health python candidate evidence.observations) evidence.new_contract
    results ← screen_all candidates
    ok (result ∷ results)

  -- `screen_candidate_evidence`: the results of its bundle
  unfoldable pub screen_candidate_evidence : Screened (List CandidateScreeningResult)
  screen_candidate_evidence =
      raise_if (not evidence.ready) contract >> screen_all evidence.candidates
