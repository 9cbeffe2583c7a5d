-- ===== src/Screening/Types.antt =====
-- The data of src/etf_advisor/domain/screening.py, and the parts of the evidence that it reads.
use agentic_etf_advisor.Prelude.{
  ℕ, String, ◌≡◌, refl, Bool, Option, none, some, List, [], ◌∷◌, str_eq, if◌then◌else◌, Decimal,
}
use agentic_etf_advisor.Profile.{AdvisoryContract, Signed}

pub data ScreeningVerdict : Type 0 where
  pass fail unknown : ScreeningVerdict

-- `ScreeningCriterion`, with the two literals of the new contract first
pub data ScreeningCriterion : Type 0 where
  listing trading_currency us_listing instrument_type freshness expense_ratio : ScreeningCriterion
  liquidity concentration sector_exclusions : ScreeningCriterion

pub data ScreeningReason : Type 0 where
  us_listing_confirmed us_listing_unknown listing_confirmed listing_unknown : ScreeningReason
  listing_unsupported trading_currency_confirmed trading_currency_unknown : ScreeningReason
  trading_currency_unsupported etf_type_confirmed etf_type_unknown : ScreeningReason
  etf_type_unsupported source_current source_health_unknown : ScreeningReason
  expense_ratio_within_limit expense_ratio_above_limit expense_ratio_unknown : ScreeningReason
  volume_meets_minimum volume_below_minimum volume_unknown : ScreeningReason
  concentration_within_limit concentration_above_limit concentration_unknown : ScreeningReason
  no_sector_exclusions sector_exclusions_clear excluded_sector_detected : ScreeningReason
  sector_exposure_unknown unsupported_sector_exclusion : ScreeningReason

pub record CandidateScreeningPolicy : Type 0 where
  pub max_expense_ratio_pct : Decimal
  pub min_average_daily_volume : Decimal
  pub max_top_10_concentration_pct : Decimal
  pub excluded_sector_weight_tolerance_pct : Decimal

-- `WeightedExposure`
pub record WeightedExposure : Type 0 where
  pub name : String
  pub weight_pct : Decimal

-- A value of a research field. An item of a list is none where it does not validate as an exposure.
pub data Value : Type 0 where
  text : String → Value
  flag : Bool → Value
  number : Signed → Value
  infinite : Value
  items : List (Option WeightedExposure) → Value

-- `ResearchField`; times are seconds in UTC from a midnight.
pub record ResearchField : Type 0 where
  pub value : Option Value
  pub unit : String
  pub provider : String
  pub source_url : String
  pub observed_at : ℕ
  pub ingested_at : ℕ
  pub snapshot_version : String
  pub missing_reason : Option String

-- the parsed field provenance of a candidate, by field name
abbrev pub Provenance : Type 0
Provenance = List (String × ResearchField)

-- `provenance.get(name)`
unfoldable pub get_field : String → Provenance → Option ResearchField
get_field name [] = none
get_field name ((key, field) ∷ fields) =
    if str_eq name key then some field else get_field name fields

pub record GraphContext : Type 0 where
  pub sector_exposures_status : Option String
  pub sector_exposures : List WeightedExposure

-- What screening reads of `CandidateEvidence`; `schema` is the encoding of its document.
pub record CandidateEvidence : Type 0 where
  pub document_id : String
  pub symbol : String
  pub source : String
  pub source_url : String
  pub observed_at : ℕ
  pub advisory_contract : Option AdvisoryContract
  pub quote_type : Option String
  pub market : Option String
  pub listing_exchange : Option String
  pub trading_currency : Option String
  pub schema : ℕ
  pub provenance : Provenance
  pub graph_context : Option GraphContext

-- `FreshnessStatus` and `ObservationHealth` of src/etf_advisor/data/quality.py
pub data FreshnessStatus : Type 0 where
  current stale future : FreshnessStatus

pub record ScreeningCitation : Type 0 where
  pub document_id : String
  pub symbol : String
  pub field_name : String
  pub source : String
  pub source_url : String
  pub observed_at : ℕ

-- One rule result; the observed value where it is a number. Messages and other texts for display are
-- left out.
pub record ScreeningRuleResult : Type 0 where
  pub criterion : ScreeningCriterion
  pub verdict : ScreeningVerdict
  pub reason_code : ScreeningReason
  pub observed_value : Option Decimal
  pub citation : Option ScreeningCitation
  pub unresolved_exclusions : List String

-- `ScreeningContractError`, the two codes of `ScreeningFieldFreshnessError`, the error of the numeric
-- encoding, and the KeyError of a missing field.
pub data ScreeningError : Type 0 where
  contract field_stale field_future research_integrity key_error : ScreeningError

pub data Screened {ℓ} (A : Type ℓ) : Type ℓ where
  ok : A → Screened A
  raise : ScreeningError → Screened A

module _ {ℓ κ} {A : Type ℓ} {B : Type κ} where
  infixl 5 ◌>>=◌
  -- The rest of a function runs where nothing was raised before.
  abbrev pub ◌>>=◌ : Screened A → (A → Screened B) → Screened B
  raise error >>= rest = raise error
  ok value >>= rest = rest value

  pub >>=-eq-ok :
      (first : Screened A) (rest : A → Screened B) {b : B}
      → first >>= rest ≡ ok b
      → (value : A) × (first ≡ ok value) × (rest value ≡ ok b)
  >>=-eq-ok (raise error) rest e = absurd (cc)
  >>=-eq-ok (ok value) rest e = (value, refl, e)

infixl 5 ◌>>◌
abbrev pub ◌>>◌ {κ} : {B : Type κ} → Screened (Unit {0}) → Screened B → Screened B
checks >> rest = checks >>= λ done. rest

-- `if test: raise ...`
abbrev pub raise_if : Bool → ScreeningError → Screened (Unit {0})
raise_if test error = if test then raise error else ok tt

-- What Python computes of a text: `casefold` on code points, and the number whose `repr` the text is,
-- where that is a finite float.
pub record Builtins : Type 0 where
  pub casefold : List ℕ → List ℕ
  pub upper : List ℕ → List ℕ
  pub canonical_float : String → Option Signed
