-- ===== src/Screening/Candidate/Passing.antt =====
-- What a passing verdict establishes of a candidate.
pub mod Numbers
pub mod Excluded
use Prim.{tt}
use mathlib.Core.Path.{subst}
use agentic_etf_advisor.Prelude.{
  ℕ, String, ◌≡◌, refl, sym, ap, ◌∙◌, ◌⊎◌, inl, inr, Bool, true, false, not, Option, none, some,
  List, [], ◌∷◌, ◌*◌, ◌^◌, ◌≤◌, map, arith, str_eq, str_eq_iff, leb→le, leb_dec, whole,
  if◌then◌else◌, Bool-cases, Option-cases, All, Decimal, ◌==◌,
}
use agentic_etf_advisor.Profile.{Signed}
use agentic_etf_advisor.Screening.Types.{
  pass, us_listing, instrument_type, us_listing_confirmed, us_listing_unknown, etf_type_confirmed,
  etf_type_unknown, CandidateScreeningPolicy, ResearchField, get_field, GraphContext,
  CandidateEvidence, FreshnessStatus, current, stale, future, ScreeningCitation,
  ScreeningRuleResult, ScreeningError, contract, research_integrity, Value, text, flag, number,
  infinite, items, Screened, ok, raise, ◌>>=◌, raise_if, >>=-eq-ok, Builtins,
}
use agentic_etf_advisor.Screening.Sectors.{
  RequestedSectors, normalize_words, normalize_requested_sectors, sector_aliases, get_alias,
  get_weight, sector_weights, same_weights, weighted_exposures, Weights,
}
use agentic_etf_advisor.Screening.Fields.{
  any, finite_number, binary_value, bounded_number, within, same_option, Window, issuer_pair_ok,
  validate_consumed_field_contracts, ensure_current,
}
use agentic_etf_advisor.Screening.Rules.{
  confirmed_rule, new_listing_rule, new_currency_rule, new_type_rule, freshness_rule, NumericRule,
  judged_number, numeric_rule, exceeds, judged_sectors, sector_rule,
}
use agentic_etf_advisor.Screening.Candidate.{
  overall_verdict, CandidateScreeningResult, expense_rule, volume_rule, concentration_rule,
  freshness_fields, common_rules, new_rules, legacy_rules, screen_candidate,
}
use agentic_etf_advisor.Screening.Candidate.Verdict.{overall_verdict-pass}
use agentic_etf_advisor.Screening.Candidate.Passing.Numbers.{
  AtMost, leb_dec-AtMost, ok_injective, HasNumber, numeric_rule-HasNumber, HasNumber-accepted,
}
use agentic_etf_advisor.Screening.Candidate.Passing.Excluded.{Clears, sector_rule-Clears}

module _ (python : Builtins) (candidate : CandidateEvidence) where
  freshness_rule-current :
      (health : Option FreshnessStatus) {result : ScreeningRuleResult}
      → freshness_rule candidate health ≡ ok result
      → result.verdict ≡ pass
      → health ≡ some current
  unfolding freshness_rule
  freshness_rule-current none h p = absurd (ground (arith, h, p))
  freshness_rule-current (some current) h p = refl
  freshness_rule-current (some stale) h p = absurd (cc)
  freshness_rule-current (some future) h p = absurd (cc)

pub record IsPassing (python : Builtins) (policy : CandidateScreeningPolicy)
    (excluded : List String) (candidate : CandidateEvidence) (health : Option FreshnessStatus)
    : Type 0 where
  pub expense :
      HasNumber python candidate "expense_ratio_pct" "percent"
        (some (whole 100))
        (λ value. AtMost value policy.max_expense_ratio_pct)
  pub volume :
      HasNumber python candidate "average_daily_volume" "shares_per_day" none
        (λ value. AtMost policy.min_average_daily_volume value)
  pub top_10 :
      HasNumber python candidate "top_10_concentration_pct" "percent"
        (some (whole 100))
        (λ value. AtMost value policy.max_top_10_concentration_pct)
  pub healthy : health ≡ some current
  pub sectors : Clears python candidate policy.excluded_sector_weight_tolerance_pct excluded

module _ (python : Builtins) (policy : CandidateScreeningPolicy) (window : Window)
    (excluded : List String) (candidate : CandidateEvidence) (health : Option FreshnessStatus) where
  common_rules-IsPassing :
      (type : ScreeningRuleResult) {rules : List ScreeningRuleResult}
      → common_rules python policy window excluded candidate health type ≡ ok rules
      → All (λ v. v ≡ pass) (map (λ r. r.verdict) rules)
      → IsPassing python policy excluded candidate health
  unfolding common_rules
  common_rules-IsPassing type h a =
      let (r1, e1, h1) = >>=-eq-ok (freshness_rule candidate health) _ h in
      let (r2, e2, h2) = >>=-eq-ok (numeric_rule candidate python (expense_rule policy)) _ h1 in
      let (r3, e3, h3) = >>=-eq-ok (numeric_rule candidate python (volume_rule policy)) _ h2 in
      let (r4, e4, h4) =
        >>=-eq-ok (numeric_rule candidate python (concentration_rule policy)) _ h3 in
      let (r5, e5, h5) =
        >>=-eq-ok
          (sector_rule candidate python excluded policy.excluded_sector_weight_tolerance_pct) _
          h4 in
      let (p0, (p1, (p2, (p3, (p4, (p5, end)))))) =
        subst (λ rs. All (λ v. v ≡ pass) (map (λ r. r.verdict) rs)) (sym (ok_injective h5)) a in
      record {
        expense =
            HasNumber-accepted python candidate
              (λ value. leb_dec-AtMost value policy.max_expense_ratio_pct)
              (numeric_rule-HasNumber python candidate (expense_rule policy) e2 p2);
        volume =
            HasNumber-accepted python candidate (leb_dec-AtMost policy.min_average_daily_volume)
              (numeric_rule-HasNumber python candidate (volume_rule policy) e3 p3);
        top_10 =
            HasNumber-accepted python candidate
              (λ value. leb_dec-AtMost value policy.max_top_10_concentration_pct)
              (numeric_rule-HasNumber python candidate (concentration_rule policy) e4 p4);
        healthy = freshness_rule-current python candidate health e1 p1;
        sectors =
            sector_rule-Clears python candidate excluded policy.excluded_sector_weight_tolerance_pct
              e5 p5;
      }

  new_rules-IsPassing :
      {rules : List ScreeningRuleResult}
      → new_rules python policy window excluded candidate health ≡ ok rules
      → All (λ v. v ≡ pass) (map (λ r. r.verdict) rules)
      → IsPassing python policy excluded candidate health
  unfolding new_rules
  new_rules-IsPassing h a =
      let (r1, e1, h1) = >>=-eq-ok (new_listing_rule candidate) _ h in
      let (r2, e2, h2) = >>=-eq-ok (new_currency_rule candidate) _ h1 in
      let (common, e3, h3) =
        >>=-eq-ok
          (common_rules python policy window excluded candidate health (new_type_rule candidate)) _
          h2 in
      let (p1, (p2, rest)) =
        subst (λ rs. All (λ v. v ≡ pass) (map (λ r. r.verdict) rs)) (sym (ok_injective h3)) a in
      common_rules-IsPassing (new_type_rule candidate) e3 rest

  legacy_rules-IsPassing :
      {rules : List ScreeningRuleResult}
      → legacy_rules python policy window excluded candidate health ≡ ok rules
      → All (λ v. v ≡ pass) (map (λ r. r.verdict) rules)
      → IsPassing python policy excluded candidate health
  unfolding legacy_rules
  legacy_rules-IsPassing h a =
      let (r1, e1, h1) =
        >>=-eq-ok
          (confirmed_rule candidate us_listing us_listing_confirmed us_listing_unknown
            candidate.market "market")
          _ h in
      let (r2, e2, h2) =
        >>=-eq-ok
          (confirmed_rule candidate instrument_type etf_type_confirmed etf_type_unknown
            candidate.quote_type "quote_type")
          _ h1 in
      let (common, e3, h3) =
        >>=-eq-ok (common_rules python policy window excluded candidate health r2) _ h2 in
      let (p1, rest) =
        subst (λ rs. All (λ v. v ≡ pass) (map (λ r. r.verdict) rs)) (sym (ok_injective h3)) a in
      common_rules-IsPassing r2 e3 rest

  unfoldable pub rules_of : Bool → Screened (List ScreeningRuleResult)
  rules_of new_contract =
      if new_contract
      then new_rules python policy window excluded candidate health
      else legacy_rules python policy window excluded candidate health

  rules_of-IsPassing :
      (new_contract : Bool) {rules : List ScreeningRuleResult}
      → rules_of new_contract ≡ ok rules
      → All (λ v. v ≡ pass) (map (λ r. r.verdict) rules)
      → IsPassing python policy excluded candidate health
  unfolding rules_of
  rules_of-IsPassing true h a = new_rules-IsPassing h a
  rules_of-IsPassing false h a = legacy_rules-IsPassing h a

  -- what a result is built from
  pub screen_candidate-inv :
      (new_contract : Bool) {result : CandidateScreeningResult}
      → screen_candidate python policy window excluded candidate health new_contract ≡ ok result
      → (rules : List ScreeningRuleResult) × (rules_of new_contract ≡ ok rules)
        × (result ≡ record {
          document_id = candidate.document_id;
          symbol = candidate.symbol;
          new_contract = new_contract;
          verdict = overall_verdict (map (λ r. r.verdict) rules);
          rules = rules;
        })
  unfolding screen_candidate rules_of
  screen_candidate-inv new_contract h =
      let (a, e1, h1) =
        >>=-eq-ok (raise_if (not (issuer_pair_ok candidate.symbol candidate.provenance)) contract) _
          h in
      let (b, e2, h2) =
        >>=-eq-ok (validate_consumed_field_contracts candidate python excluded) _ h1 in
      let (c, e3, h3) =
        >>=-eq-ok (ensure_current candidate window (freshness_fields new_contract excluded)) _ h2 in
      let (rules, e4, h4) =
        >>=-eq-ok
          (if new_contract
            then new_rules python policy window excluded candidate health
            else legacy_rules python policy window excluded candidate health)
          _ h3 in
      (rules, e4, sym (ok_injective h4))

  -- A candidate with the verdict pass has in its provenance an expense ratio and a top ten
  -- concentration in percent, at most the policy's limits and one hundred, and an average daily
  -- volume of at least the policy's minimum, none of them negative. Its source health is current, and each excluded sector is one of the
  -- taxonomy with no weight in the graph or a weight of at most the tolerance.
  pub screen_candidate-IsPassing :
      (new_contract : Bool) {result : CandidateScreeningResult}
      → screen_candidate python policy window excluded candidate health new_contract ≡ ok result
      → result.verdict ≡ pass
      → IsPassing python policy excluded candidate health
  screen_candidate-IsPassing new_contract h p =
      let (rules, e, same) = screen_candidate-inv new_contract h in
      rules_of-IsPassing new_contract e
        (overall_verdict-pass (map (λ r. r.verdict) rules) (sym (ap (λ r. r.verdict) same) ∙ p))
