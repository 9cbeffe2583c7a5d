-- ===== src/Screening/Rules.antt =====
-- The rules of src/etf_advisor/domain/screening.py, each a function of one candidate.
use agentic_etf_advisor.Prelude.{
  ℕ, String, Bool, true, false, not, ◌&&◌, ◌||◌, Option, none, some, List, [], ◌∷◌, str_eq,
  if◌then◌else◌, is_some, is_none, Decimal, leb_dec,
}
use agentic_etf_advisor.Screening.Types.{
  ScreeningVerdict, pass, fail, unknown, ScreeningCriterion, listing, trading_currency,
  instrument_type, freshness, sector_exclusions, ScreeningReason, listing_confirmed,
  listing_unknown, listing_unsupported, trading_currency_confirmed, trading_currency_unknown,
  trading_currency_unsupported, etf_type_confirmed, etf_type_unknown, etf_type_unsupported,
  source_current, source_health_unknown, no_sector_exclusions, sector_exclusions_clear,
  excluded_sector_detected, sector_exposure_unknown, unsupported_sector_exclusion, ResearchField,
  get_field, GraphContext, CandidateEvidence, FreshnessStatus, current, stale, future,
  ScreeningCitation, ScreeningRuleResult, contract, key_error, Screened, ok, raise, ◌>>=◌, Builtins,
}
use agentic_etf_advisor.Screening.Sectors.{
  RequestedSectors, normalize_requested_sectors, get_weight, sector_weights, same_weights,
  weighted_exposures, Weights,
}
use agentic_etf_advisor.Screening.Fields.{any, finite_number, is_text, same_option}

-- the codes of `EXCHANGE_MAP` in src/etf_advisor/catalogue/mapping.py, by region
abbrev eu_codes : List String
eu_codes =
    "VIE" ∷ "BRU" ∷ "PRA" ∷ "CPH" ∷ "TAL" ∷ "HEL" ∷ "ENX" ∷ "PAR" ∷ "BER" ∷ "DUS" ∷ "EUX" ∷ "FRA"
    ∷ "GER" ∷ "HAM" ∷ "HAN" ∷ "MUN" ∷ "STU" ∷ "ATH" ∷ "BUD" ∷ "ISE" ∷ "MDD" ∷ "MIL" ∷ "TLO" ∷ "RIS"
    ∷ "LIT" ∷ "AMS" ∷ "DXE" ∷ "WSE" ∷ "LIS" ∷ "BVB" ∷ "MAD" ∷ "MCE" ∷ "STO" ∷ []

abbrev us_codes : List String
us_codes = "ASE" ∷ "BTS" ∷ "CXI" ∷ "NAE" ∷ "NCM" ∷ "NGM" ∷ "NMS" ∷ "NYQ" ∷ "PCX" ∷ []

pub data Region : Type 0 where
  us eu : Region

-- `listing_region`
unfoldable pub listing_region : String → Option Region
listing_region exchange =
    if any (λ c. str_eq exchange c) us_codes
    then some us
    else if any (λ c. str_eq exchange c) eu_codes
    then some eu
    else none

-- a rule result without an observed number and unresolved exclusions
abbrev rule :
    ScreeningCriterion
    → ScreeningVerdict
    → ScreeningReason
    → Option ScreeningCitation
    → ScreeningRuleResult
rule criterion verdict reason citation = record {
  criterion = criterion;
  verdict = verdict;
  reason_code = reason;
  observed_value = none;
  citation = citation;
  unresolved_exclusions = [];
}

-- The arguments of `_numeric_rule` that differ between the three numeric rules.
pub record NumericRule : Type 0 where
  pub field_name : String
  pub criterion : ScreeningCriterion
  pub pass_when : Decimal → Bool
  pub pass_reason : ScreeningReason
  pub fail_reason : ScreeningReason
  pub unknown_reason : ScreeningReason
  pub expected_unit : String
  pub maximum_value : Option Decimal

module _ (candidate : CandidateEvidence) where
  -- `_field_citation`
  unfoldable pub field_citation : String → ResearchField → ScreeningCitation
  field_citation name field = record {
    document_id = candidate.document_id;
    symbol = candidate.symbol;
    field_name = name;
    source = field.provider;
    source_url = field.source_url;
    observed_at = field.observed_at;
  }

  -- `_candidate_citation`
  unfoldable pub candidate_citation : String → ScreeningCitation
  candidate_citation name = record {
    document_id = candidate.document_id;
    symbol = candidate.symbol;
    field_name = name;
    source = candidate.source;
    source_url = candidate.source_url;
    observed_at = candidate.observed_at;
  }

  -- `candidate.market or ""`
  abbrev or_empty : Option String → String
  or_empty none = ""
  or_empty (some s) = s

  -- `_confirmed_rule`
  unfoldable pub confirmed_rule :
      ScreeningCriterion
      → ScreeningReason
      → ScreeningReason
      → Option String
      → String
      → Screened ScreeningRuleResult
  confirmed_rule criterion reason unknown_reason observed name =
      elim (get_field name candidate.provenance) [
        | none ↦ ok (rule criterion unknown unknown_reason none)
        | some field ↦
            if is_some field.missing_reason || not (is_text field.value (some (or_empty observed)))
            then raise contract
            else ok (rule criterion pass reason (some (field_citation name field)))
      ]

  abbrev region_rule : Option Region → ScreeningCitation → ScreeningRuleResult
  region_rule none citation = rule listing fail listing_unsupported (some citation)
  region_rule (some region) citation = rule listing pass listing_confirmed (some citation)

  -- `_new_listing_rule`
  unfoldable pub new_listing_rule : Screened ScreeningRuleResult
  new_listing_rule = elim (get_field "listing_exchange" candidate.provenance) [
    | none ↦ raise key_error
    | some field ↦ elim candidate.listing_exchange [
      | none ↦
          ok (rule listing unknown listing_unknown (some (field_citation "listing_exchange" field)))
      | some exchange ↦ ok (
          if is_none field.value
          then rule listing unknown listing_unknown (some (field_citation "listing_exchange" field))
          else region_rule (listing_region exchange) (field_citation "listing_exchange" field))
    ]
  ]

  abbrev currency_rule : Bool → ScreeningCitation → ScreeningRuleResult
  currency_rule true citation =
      rule trading_currency pass trading_currency_confirmed (some citation)
  currency_rule false citation =
      rule trading_currency fail trading_currency_unsupported (some citation)

  -- `_new_currency_rule`
  unfoldable pub new_currency_rule : Screened ScreeningRuleResult
  new_currency_rule = elim (get_field "trading_currency" candidate.provenance) [
    | none ↦ raise key_error
    | some field ↦
        let citation = field_citation "trading_currency" field in
        let missing = rule trading_currency unknown trading_currency_unknown (some citation) in
        elim candidate.trading_currency [
          | none ↦ ok missing
          | some currency ↦
              if is_none field.value
              then ok missing
              else elim (get_field "price_unit" candidate.provenance) [
                | none ↦ raise key_error
                | some unit ↦ ok (
                    if is_none unit.value
                    then missing
                    else currency_rule
                        ((str_eq currency "USD" || str_eq currency "EUR")
                          && is_text unit.value (some currency))
                        citation)
              ]
        ]
  ]

  abbrev type_rule : Bool → ScreeningCitation → ScreeningRuleResult
  type_rule true citation = rule instrument_type pass etf_type_confirmed (some citation)
  type_rule false citation = rule instrument_type fail etf_type_unsupported (some citation)

  -- `_new_type_rule`
  unfoldable pub new_type_rule : ScreeningRuleResult
  new_type_rule = elim (get_field "quote_type" candidate.provenance) [
    | none ↦ rule instrument_type unknown etf_type_unknown none
    | some field ↦
        let citation = field_citation "quote_type" field in
        if is_none field.value || is_none candidate.quote_type
        then rule instrument_type unknown etf_type_unknown (some citation)
        else type_rule
            (is_text field.value (some "ETF") && same_option candidate.quote_type (some "ETF"))
            citation
  ]

  -- `_freshness_rule`
  unfoldable pub freshness_rule : Option FreshnessStatus → Screened ScreeningRuleResult
  freshness_rule none =
      ok (rule freshness unknown source_health_unknown (some (candidate_citation "observed_at")))
  freshness_rule (some current) =
      ok (rule freshness pass source_current (some (candidate_citation "observed_at")))
  freshness_rule (some stale) = raise contract
  freshness_rule (some future) = raise contract

  -- the result of a numeric rule on an available number
  unfoldable pub judged_number : NumericRule → ScreeningCitation → Decimal → ScreeningRuleResult
  judged_number r citation value =
      let passed = r.pass_when value in
      record {
        criterion = r.criterion;
        verdict = if passed then pass else fail;
        reason_code = if passed then r.pass_reason else r.fail_reason;
        observed_value = some value;
        citation = some citation;
        unresolved_exclusions = [];
      }

  module _ (python : Builtins) where
    -- `_numeric_rule`
    unfoldable pub numeric_rule : NumericRule → Screened ScreeningRuleResult
    numeric_rule r = elim (get_field r.field_name candidate.provenance) [
      | none ↦
          ok (rule r.criterion unknown r.unknown_reason (some (candidate_citation r.field_name)))
      | some field ↦
          if not (str_eq field.unit r.expected_unit)
          then raise contract
          else if is_some field.missing_reason
          then ok
              (rule r.criterion unknown r.unknown_reason (some (field_citation r.field_name field)))
          else (finite_number candidate python field.value r.maximum_value >>= λ value.
              ok (judged_number r (field_citation r.field_name field) value))
    ]

    abbrev unresolved :
        ScreeningVerdict → ScreeningReason → ScreeningCitation → List String → ScreeningRuleResult
    unresolved verdict reason citation exclusions =
        record (rule sector_exclusions verdict reason (some citation)) {
          unresolved_exclusions = exclusions;
        }

    -- a requested sector with a weight above the tolerance
    unfoldable pub exceeds : Weights → Decimal → List ℕ → Bool
    exceeds weights tolerance sector = elim (get_weight sector weights) [
      | none ↦ false
      | some w ↦ not (leb_dec w tolerance)
    ]

    -- the end of `_sector_rule`, on the weights of the graph
    unfoldable pub judged_sectors :
        Weights → Decimal → RequestedSectors → ScreeningCitation → ScreeningRuleResult
    judged_sectors weights tolerance r citation =
        if any (exceeds weights tolerance) r.requested
        then unresolved fail excluded_sector_detected citation r.unsupported
        else elim r.unsupported [
          | [] ↦ rule sector_exclusions pass sector_exclusions_clear (some citation)
          | s ∷ rest ↦ unresolved unknown unsupported_sector_exclusion citation (s ∷ rest)
        ]

    -- the graph context where its sector exposures are available
    abbrev available_context : Option GraphContext → Option GraphContext
    available_context none = none
    available_context (some context) =
        if same_option context.sector_exposures_status (some "available")
        then some context
        else none

    -- `_sector_rule`
    unfoldable pub sector_rule : List String → Decimal → Screened ScreeningRuleResult
    sector_rule [] tolerance = ok (rule sector_exclusions pass no_sector_exclusions none)
    sector_rule (e ∷ es) tolerance =
        let name : String = "sector_exposures" in
        elim (get_field name candidate.provenance) [
          | none ↦
              ok (unresolved unknown sector_exposure_unknown (candidate_citation name) (e ∷ es))
          | some field ↦
              let citation = field_citation name field in
              let missing = unresolved unknown sector_exposure_unknown citation (e ∷ es) in
              elim (available_context candidate.graph_context) [
                | none ↦ ok missing
                | some context ↦
                    if is_some field.missing_reason
                    then ok missing
                    else (weighted_exposures python field.value >>= λ source.
                        let graph = sector_weights python context.sector_exposures [] in
                        if not (same_weights graph (sector_weights python source []))
                        then raise contract
                        else ok (
                            judged_sectors graph tolerance
                              (normalize_requested_sectors python (e ∷ es)) citation))
              ]
        ]
