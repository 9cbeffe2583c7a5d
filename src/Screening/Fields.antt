-- ===== src/Screening/Fields.antt =====
-- The checks of `_validate_consumed_field_contracts`, `_ensure_available_field_current` and
-- `_finite_number` of src/etf_advisor/domain/screening.py, and the issuer window of
-- src/etf_advisor/data/research_quality.py.
use agentic_etf_advisor.Prelude.{
  ℕ, ◌+◌, ◌*◌, ◌%◌, String, Bool, true, false, not, ◌&&◌, ◌||◌, Option, none, some, List, [], ◌∷◌,
  str_eq, ltb, ◌==◌, if◌then◌else◌, is_some, is_none, length, all, Decimal, whole, leb_dec,
}
use agentic_etf_advisor.Screening.Types.{
  Value, text, flag, number, infinite, items, ResearchField, Provenance, get_field,
  CandidateEvidence, ScreeningError, contract, field_stale, field_future, research_integrity,
  Screened, ok, raise, ◌>>=◌, ◌>>◌, raise_if, Builtins,
}
use agentic_etf_advisor.Profile.{Signed}
use agentic_etf_advisor.Screening.Sectors.{sector_weights, same_weights, weighted_exposures}

-- `PROVIDER` and `BND_URL` of src/etf_advisor/data/vanguard.py
abbrev pub issuer_provider : String
issuer_provider = "vanguard_advisors"

abbrev pub bnd_url : String
bnd_url = "https://advisors.vanguard.com/investments/products/api/funds/0928/holdings/latest"

abbrev pub hours : ℕ → ℕ
hours n = n * 3600

-- `is_issuer_field`; a time is a midnight where whole days have passed.
unfoldable pub is_issuer_field : String → String → ResearchField → Bool
is_issuer_field symbol name field =
    str_eq symbol "BND"
    && (str_eq name "top_holdings" || str_eq name "top_10_concentration_pct")
    && str_eq field.provider issuer_provider
    && str_eq field.source_url bnd_url
    && field.observed_at % 86_400 == 0

-- `field_max_age`, in seconds
unfoldable pub field_max_age : String → String → ResearchField → ℕ → ℕ
field_max_age symbol name field default =
    if is_issuer_field symbol name field then hours 1080 else default

abbrev is_issuer : String × ResearchField → Bool
is_issuer (name, field) = str_eq field.provider issuer_provider

-- a field of the issuer under another name than the two of the issuer
abbrev is_stray : String × ResearchField → Bool
is_stray (name, field) =
    str_eq field.provider issuer_provider
    && not (str_eq name "top_holdings" || str_eq name "top_10_concentration_pct")

unfoldable pub any {ℓ} : {A : Type ℓ} → (A → Bool) → List A → Bool
any p [] = false
any p (x ∷ xs) = p x || any p xs

abbrev from_issuer : ResearchField → Bool
from_issuer field =
    str_eq field.provider issuer_provider
    && str_eq field.source_url bnd_url
    && is_none field.missing_reason

abbrev ten_items : Option Value → Bool
ten_items (some (items values)) = length values == 10
ten_items _ = false

-- `validate_issuer_pair`: false where it raises.
unfoldable pub issuer_pair_ok : String → Provenance → Bool
issuer_pair_ok symbol fields =
    if not (any is_issuer fields)
    then true
    else if not (str_eq symbol "BND")
    then false
    else elim (get_field "top_10_concentration_pct" fields) [
      | none ↦ false
      | some first ↦ elim (get_field "top_holdings" fields) [
        | none ↦ false
        | some second ↦
            from_issuer first
            && from_issuer second
            && ten_items second.value
            && first.observed_at == second.observed_at
            && first.ingested_at == second.ingested_at
            && str_eq first.snapshot_version second.snapshot_version
            && field_max_age symbol "top_holdings" first (hours 120) == hours 1080
            && not (any is_stray fields)
      ]
    ]

-- `field.value == observed_value`, where the observed value is a text or None
unfoldable pub is_text : Option Value → Option String → Bool
is_text none none = true
is_text (some (text s)) (some t) = str_eq s t
is_text _ _ = false

unfoldable pub same_option : Option String → Option String → Bool
same_option none none = true
same_option none (some b) = false
same_option (some a) none = false
same_option (some a) (some b) = str_eq a b

-- The times of a check, in seconds.
pub record Window : Type 0 where
  pub checked_at : ℕ
  pub max_age : ℕ
  pub future_tolerance : ℕ

module _ (candidate : CandidateEvidence) where
  -- the test of one identity field
  unfoldable pub identity_ok : String × Option String → Bool
  identity_ok (name, observed) = elim (get_field name candidate.provenance) [
    | none ↦ true
    | some field ↦
        is_text field.value observed && not (is_some field.missing_reason && is_some observed)
  ]

  abbrev identity_fields : Bool → List (String × Option String)
  identity_fields new_contract =
      ("market", candidate.market)
      ∷ ("quote_type", candidate.quote_type)
      ∷ (if new_contract
          then ("listing_exchange", candidate.listing_exchange)
            ∷ ("trading_currency", candidate.trading_currency)
            ∷ []
          else [])

  unfoldable pub has_unit : String → String → Bool
  has_unit name unit = elim (get_field name candidate.provenance) [
    | none ↦ false
    | some field ↦ str_eq field.unit unit
  ]

  -- the quote unit of a candidate of the new contract
  unfoldable pub price_unit_ok : Bool
  price_unit_ok = elim (get_field "price_unit" candidate.provenance) [
    | none ↦ false
    | some unit ↦
        str_eq unit.unit "quote_unit"
        && (is_text unit.value candidate.trading_currency
            || is_none unit.value
            || is_none candidate.trading_currency)
  ]

  abbrev pub within : Option Decimal → Decimal → Bool
  within none magnitude = true
  within (some maximum) magnitude = leb_dec magnitude maximum

  -- a number that is not negative and not above the maximum
  unfoldable pub bounded_number : ScreeningError → Option Decimal → Signed → Screened Decimal
  bounded_number error maximum n =
      if n.negative && not (n.magnitude.coefficient == 0)
      then raise error
      else if within maximum n.magnitude
      then ok n.magnitude
      else raise error

  module _ (python : Builtins) where
    -- `binary_value`
    unfoldable pub binary_value : String → Option Decimal → Screened Decimal
    binary_value s maximum = elim (python.canonical_float s) [
      | none ↦ raise research_integrity
      | some n ↦ bounded_number research_integrity maximum n
    ]

    -- `_finite_number`
    unfoldable pub finite_number : Option Value → Option Decimal → Screened Decimal
    finite_number (some (text s)) maximum =
        if candidate.schema == 2 then binary_value s maximum else raise contract
    finite_number (some (number n)) maximum = bounded_number contract maximum n
    finite_number (some (flag b)) maximum = raise contract
    finite_number (some infinite) maximum = raise contract
    finite_number (some (items values)) maximum = raise contract
    finite_number none maximum = raise contract

    -- the check of one numeric field
    unfoldable pub numeric_contract : String → String → Option Decimal → Screened (Unit {0})
    numeric_contract name unit maximum = elim (get_field name candidate.provenance) [
      | none ↦ ok tt
      | some field ↦
          raise_if (not (str_eq field.unit unit)) contract
          >> (if is_none field.missing_reason
              then (finite_number field.value maximum >>= λ n. ok tt)
              else ok tt)
    ]

    -- the sector weights of the graph against those of the source
    unfoldable pub sector_contract : List String → Screened (Unit {0})
    sector_contract [] = ok tt
    sector_contract (s ∷ excluded) = elim (get_field "sector_exposures" candidate.provenance) [
      | none ↦ ok tt
      | some field ↦
          if is_some field.missing_reason
          then ok tt
          else (weighted_exposures python field.value >>= λ source. elim candidate.graph_context [
            | none ↦ ok tt
            | some context ↦
                raise_if
                  (same_option context.sector_exposures_status (some "available")
                    && not (
                        same_weights (sector_weights python context.sector_exposures [])
                          (sector_weights python source [])))
                  contract
          ])
    ]

    -- `_validate_consumed_field_contracts`
    unfoldable pub validate_consumed_field_contracts : List String → Screened (Unit {0})
    validate_consumed_field_contracts excluded =
        let new_contract = is_some candidate.advisory_contract in
        raise_if (not (all identity_ok (identity_fields new_contract))) contract
        >> raise_if
            (new_contract
              && not (
                  price_unit_ok
                  && has_unit "listing_exchange" "yahoo_exchange_code"
                  && has_unit "trading_currency" "iso4217"))
            contract
        >> numeric_contract "expense_ratio_pct" "percent" (some (whole 100))
        >> numeric_contract "average_daily_volume" "shares_per_day" none
        >> numeric_contract "top_10_concentration_pct" "percent" (some (whole 100))
        >> sector_contract excluded

  -- the tests of `_ensure_available_field_current` on an available field
  unfoldable pub current_field : Window → String → ResearchField → Screened (Unit {0})
  current_field window name field =
      let future_tolerance : ℕ =
        (if is_issuer_field candidate.symbol name field then 0 else window.future_tolerance) in
      raise_if (ltb (window.checked_at + future_tolerance) field.observed_at) field_future
      >> raise_if
          (ltb (field.observed_at + field_max_age candidate.symbol name field window.max_age)
            window.checked_at)
          field_stale

  -- `_ensure_available_field_current`
  unfoldable pub ensure_available_field_current : Window → String → Screened (Unit {0})
  ensure_available_field_current window name = elim (get_field name candidate.provenance) [
    | none ↦ ok tt
    | some field ↦ if is_some field.missing_reason then ok tt else current_field window name field
  ]

  -- `for field_name in freshness_fields`
  unfoldable pub ensure_current : Window → List String → Screened (Unit {0})
  ensure_current window [] = ok tt
  ensure_current window (name ∷ names) =
      ensure_available_field_current window name >> ensure_current window names
