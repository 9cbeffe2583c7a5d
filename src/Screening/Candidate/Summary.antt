-- ===== src/Screening/Candidate/Summary.antt =====
-- The summary of the rules of a candidate: `validate_rule_summary` of
-- src/etf_advisor/domain/screening.py accepts every result that screening builds.
use Prim.{tt}
use mathlib.Core.Path.{subst}
use agentic_etf_advisor.Prelude.{
  ℕ, String, ◌≡◌, refl, ap, Bool, true, false, ◌&&◌, Option, none, some, List, [], ◌∷◌, ◌++◌, map,
  arith, str_eq, str_eq_iff, ◌==◌, if◌then◌else◌, all, Decimal, same_codes,
}
use agentic_etf_advisor.Screening.Types.{
  ScreeningVerdict, pass, fail, unknown, ScreeningCriterion, listing, trading_currency, us_listing,
  instrument_type, freshness, expense_ratio, liquidity, concentration, sector_exclusions,
  ScreeningReason, us_listing_confirmed, us_listing_unknown, etf_type_confirmed, etf_type_unknown,
  CandidateScreeningPolicy, ResearchField, CandidateEvidence, FreshnessStatus, ScreeningRuleResult,
  ok, >>=-eq-ok, Builtins,
}
use agentic_etf_advisor.Screening.Fields.{Window}
use agentic_etf_advisor.Screening.Rules.{
  field_citation, candidate_citation, confirmed_rule, new_listing_rule, new_currency_rule,
  new_type_rule, freshness_rule, NumericRule, judged_number, numeric_rule, judged_sectors,
  sector_rule,
}
use agentic_etf_advisor.Screening.Candidate.{
  overall_verdict, CandidateScreeningResult, expense_rule, volume_rule, concentration_rule,
  common_rules, new_rules, legacy_rules, screen_candidate,
}
use agentic_etf_advisor.Screening.Candidate.Passing.{rules_of, screen_candidate-inv}
use agentic_etf_advisor.Screening.Candidate.Passing.Numbers.{ok_injective}

-- `actual != expected` on criteria, by their place in the source
abbrev criterion_number : ScreeningCriterion → ℕ
criterion_number listing = 0
criterion_number trading_currency = 1
criterion_number us_listing = 2
criterion_number instrument_type = 3
criterion_number freshness = 4
criterion_number expense_ratio = 5
criterion_number liquidity = 6
criterion_number concentration = 7
criterion_number sector_exclusions = 8

abbrev verdict_number : ScreeningVerdict → ℕ
verdict_number pass = 0
verdict_number fail = 1
verdict_number unknown = 2

-- `expected`
unfoldable pub expected_criteria : Bool → List ScreeningCriterion
expected_criteria new_contract =
    (if new_contract then listing ∷ trading_currency ∷ [] else us_listing ∷ [])
    ++ instrument_type ∷ freshness ∷ expense_ratio ∷ liquidity ∷ concentration ∷ sector_exclusions
      ∷ []

unfoldable pub citation_ok : String → String → ScreeningRuleResult → Bool
citation_ok document_id symbol rule = elim rule.citation [
  | none ↦ true
  | some citation ↦ str_eq citation.document_id document_id && str_eq citation.symbol symbol
]

-- `CandidateScreeningResult.validate_rule_summary`: false where it raises.
unfoldable pub validate_rule_summary : CandidateScreeningResult → Bool
validate_rule_summary result =
    same_codes (map (λ r. criterion_number r.criterion) result.rules)
      (map criterion_number (expected_criteria result.new_contract))
    && verdict_number result.verdict
      == verdict_number (overall_verdict (map (λ r. r.verdict) result.rules))
    && all (citation_ok result.document_id result.symbol) result.rules

-- A rule result of one criterion that cites its own candidate.
record IsRule (criterion : ScreeningCriterion) (candidate : CandidateEvidence)
    (r : ScreeningRuleResult) : Type 0 where
  of_criterion : r.criterion ≡ criterion
  cited : citation_ok candidate.document_id candidate.symbol r ≡ true

str_eq_refl : (s : String) → str_eq s s ≡ true
str_eq_refl s = (str_eq_iff s s).1 refl

module _ (candidate : CandidateEvidence) where
  field_cited :
      (name : String) (field : ResearchField)
      → (str_eq (field_citation candidate name field).document_id candidate.document_id
          && str_eq (field_citation candidate name field).symbol candidate.symbol)
        ≡ true
  unfolding field_citation
  field_cited name field =
      ground (arith, str_eq_refl candidate.document_id, str_eq_refl candidate.symbol)

  candidate_cited :
      (name : String)
      → (str_eq (candidate_citation candidate name).document_id candidate.document_id
          && str_eq (candidate_citation candidate name).symbol candidate.symbol)
        ≡ true
  unfolding candidate_citation
  candidate_cited name =
      ground (arith, str_eq_refl candidate.document_id, str_eq_refl candidate.symbol)

  new_listing_rule-IsRule :
      {r : ScreeningRuleResult} → new_listing_rule candidate ≡ ok r → IsRule listing candidate r
  unfolding new_listing_rule citation_ok field_citation
  new_listing_rule-IsRule h = record {
    of_criterion = ground arith;
    cited = ground (arith, str_eq_refl candidate.document_id, str_eq_refl candidate.symbol);
  }

  new_currency_rule-IsRule :
      {r : ScreeningRuleResult}
      → new_currency_rule candidate ≡ ok r
      → IsRule trading_currency candidate r
  unfolding new_currency_rule citation_ok field_citation
  new_currency_rule-IsRule h = record {
    of_criterion = ground arith;
    cited = ground (arith, str_eq_refl candidate.document_id, str_eq_refl candidate.symbol);
  }

  new_type_rule-IsRule : IsRule instrument_type candidate (new_type_rule candidate)
  unfolding new_type_rule citation_ok field_citation
  new_type_rule-IsRule = record {
    of_criterion = ground arith;
    cited = ground (arith, str_eq_refl candidate.document_id, str_eq_refl candidate.symbol);
  }

  confirmed_rule-IsRule :
      (criterion : ScreeningCriterion) (reason unknown_reason : ScreeningReason)
      (observed : Option String) (name : String) {r : ScreeningRuleResult}
      → confirmed_rule candidate criterion reason unknown_reason observed name ≡ ok r
      → IsRule criterion candidate r
  unfolding confirmed_rule citation_ok field_citation
  confirmed_rule-IsRule criterion reason unknown_reason observed name h = record {
    of_criterion = ground arith;
    cited = ground (arith, str_eq_refl candidate.document_id, str_eq_refl candidate.symbol);
  }

  freshness_rule-IsRule :
      (health : Option FreshnessStatus) {r : ScreeningRuleResult}
      → freshness_rule candidate health ≡ ok r
      → IsRule freshness candidate r
  unfolding freshness_rule citation_ok candidate_citation
  freshness_rule-IsRule health h = record {
    of_criterion = ground arith;
    cited = ground (arith, str_eq_refl candidate.document_id, str_eq_refl candidate.symbol);
  }

  numeric_rule-IsRule :
      (python : Builtins) (n : NumericRule) {r : ScreeningRuleResult}
      → numeric_rule candidate python n ≡ ok r
      → IsRule n.criterion candidate r
  unfolding numeric_rule judged_number citation_ok candidate_citation field_citation
  numeric_rule-IsRule python n h = record {
    of_criterion = ground arith;
    cited = ground (arith, str_eq_refl candidate.document_id, str_eq_refl candidate.symbol);
  }

  sector_rule-IsRule :
      (python : Builtins) (excluded : List String) (tolerance : Decimal) {r : ScreeningRuleResult}
      → sector_rule candidate python excluded tolerance ≡ ok r
      → IsRule sector_exclusions candidate r
  unfolding sector_rule judged_sectors citation_ok candidate_citation field_citation
  sector_rule-IsRule python [] tolerance h = record {
    of_criterion = ground arith;
    cited = ground arith;
  }
  sector_rule-IsRule python (s ∷ ss) tolerance h = record {
    of_criterion = ground arith;
    cited = ground (arith, str_eq_refl candidate.document_id, str_eq_refl candidate.symbol);
  }

-- The rules of a candidate, each of its criterion, in the stable order.
abbrev AreRules : List ScreeningCriterion → CandidateEvidence → List ScreeningRuleResult → Type 0
AreRules [] candidate [] = Unit
AreRules [] candidate (r ∷ rs) = ⊥
AreRules (c ∷ cs) candidate [] = ⊥
AreRules (c ∷ cs) candidate (r ∷ rs) = IsRule c candidate r × AreRules cs candidate rs

AreRules-order :
    (cs : List ScreeningCriterion) (candidate : CandidateEvidence) (rs : List ScreeningRuleResult)
    → AreRules cs candidate rs
    → same_codes (map (λ r. criterion_number r.criterion) rs) (map criterion_number cs) ≡ true
unfolding same_codes
AreRules-order [] candidate [] a = refl
AreRules-order [] candidate (r ∷ rs) a = absurd a
AreRules-order (c ∷ cs) candidate [] a = absurd a
AreRules-order (c ∷ cs) candidate (r ∷ rs) (i, a) =
    let same = ap criterion_number i.of_criterion in
    let ih = AreRules-order cs candidate rs a in ground (arith, same, ih)

AreRules-cited :
    (cs : List ScreeningCriterion) (candidate : CandidateEvidence) (rs : List ScreeningRuleResult)
    → AreRules cs candidate rs
    → all (citation_ok candidate.document_id candidate.symbol) rs ≡ true
AreRules-cited [] candidate [] a = refl
AreRules-cited [] candidate (r ∷ rs) a = absurd a
AreRules-cited (c ∷ cs) candidate [] a = absurd a
AreRules-cited (c ∷ cs) candidate (r ∷ rs) (i, a) =
    let ih = AreRules-cited cs candidate rs a in ground (arith, i.cited, ih)

module _ (python : Builtins) (policy : CandidateScreeningPolicy) (window : Window)
    (excluded : List String) (candidate : CandidateEvidence) (health : Option FreshnessStatus) where
  abbrev common_criteria : List ScreeningCriterion
  common_criteria =
      instrument_type ∷ freshness ∷ expense_ratio ∷ liquidity ∷ concentration ∷ sector_exclusions
      ∷ []

  common_rules-AreRules :
      (type : ScreeningRuleResult) {rules : List ScreeningRuleResult}
      → IsRule instrument_type candidate type
      → common_rules python policy window excluded candidate health type ≡ ok rules
      → AreRules common_criteria candidate rules
  unfolding common_rules
  common_rules-AreRules type i h =
      let (r1, e1, h1) = >>=-eq-ok (freshness_rule candidate health) _ h in
      let (r2, e2, h2) = >>=-eq-ok (numeric_rule candidate python (expense_rule policy)) _ h1 in
      let (r3, e3, h3) = >>=-eq-ok (numeric_rule candidate python (volume_rule policy)) _ h2 in
      let (r4, e4, h4) =
        >>=-eq-ok (numeric_rule candidate python (concentration_rule policy)) _ h3 in
      let (r5, e5, h5) =
        >>=-eq-ok
          (sector_rule candidate python excluded policy.excluded_sector_weight_tolerance_pct) _
          h4 in
      subst (AreRules common_criteria candidate) (ok_injective h5) (
        i,
        (
          freshness_rule-IsRule candidate health e1,
          (
            numeric_rule-IsRule candidate python (expense_rule policy) e2,
            (
              numeric_rule-IsRule candidate python (volume_rule policy) e3,
              (
                numeric_rule-IsRule candidate python (concentration_rule policy) e4,
                (sector_rule-IsRule candidate python excluded _ e5, tt),
              ),
            ),
          ),
        ),
      )

  rules_of-AreRules :
      (new_contract : Bool) {rules : List ScreeningRuleResult}
      → rules_of python policy window excluded candidate health new_contract ≡ ok rules
      → AreRules (expected_criteria new_contract) candidate rules
  unfolding rules_of new_rules legacy_rules expected_criteria
  rules_of-AreRules true h =
      let (r1, e1, h1) = >>=-eq-ok (new_listing_rule candidate) _ h in
      let (r2, e2, h2) = >>=-eq-ok (new_currency_rule candidate) _ h1 in
      let (common, e3, h3) =
        >>=-eq-ok
          (common_rules python policy window excluded candidate health (new_type_rule candidate)) _
          h2 in
      subst (AreRules (listing ∷ trading_currency ∷ common_criteria) candidate) (ok_injective h3) (
        new_listing_rule-IsRule candidate e1,
        (
          new_currency_rule-IsRule candidate e2,
          common_rules-AreRules _ (new_type_rule-IsRule candidate) e3,
        ),
      )
  rules_of-AreRules false h =
      let (r1, e1, h1) =
        >>=-eq-ok
          (confirmed_rule candidate us_listing us_listing_confirmed us_listing_unknown
            candidate.market "market")
          _ h in
      let (r2, e2, h2) =
        >>=-eq-ok
          (confirmed_rule candidate instrument_type etf_type_confirmed etf_type_unknown
            candidate.quote_type "quote_type")
          _ h1 in
      let (common, e3, h3) =
        >>=-eq-ok (common_rules python policy window excluded candidate health r2) _ h2 in
      subst (AreRules (us_listing ∷ common_criteria) candidate) (ok_injective h3) (
        confirmed_rule-IsRule candidate _ _ _ _ _ e1,
        common_rules-AreRules r2 (confirmed_rule-IsRule candidate _ _ _ _ _ e2) e3,
      )

  -- Every result that screening builds has its rules in the stable order, the verdict that its rules
  -- give and no citation of another candidate, so that its own validator accepts it.
  pub validate_rule_summary-screen_candidate :
      (new_contract : Bool) {result : CandidateScreeningResult}
      → screen_candidate python policy window excluded candidate health new_contract ≡ ok result
      → validate_rule_summary result ≡ true
  unfolding validate_rule_summary
  validate_rule_summary-screen_candidate new_contract h =
      let (rules, e, same) =
        screen_candidate-inv python policy window excluded candidate health new_contract h in
      let a = rules_of-AreRules new_contract e in
      rw same
        (ground (arith, AreRules-order _ candidate rules a, AreRules-cited _ candidate rules a))
