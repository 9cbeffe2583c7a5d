-- ===== src/Profile.antt =====
-- src/etf_advisor/domain/profile.py: the investor profile, its validation from an untrusted mapping
-- and its serialization back to one.
pub mod Read
pub mod RoundTrip
pub mod Sample
mod Tests
use agentic_etf_advisor.Prelude.{
  ℕ, zero, suc, ◌+◌, ◌-◌, ◌*◌, ◌/◌, ◌%◌, ◌^◌, ◌≤◌, ◌<◌, min, String, ◌≡◌, refl, sym, ap, ◌∙◌, ◌≢◌,
  ◌↔◌, ◌⊎◌, inl, inr, Bool, true, false, not, ◌&&◌, ◌||◌, Option, none, some, List, [], ◌∷◌, ◌++◌,
  map, arith, str_eq, str_eq_iff, ltb, leb, ◌==◌, if◌then◌else◌, is_some, is_none, Bool-cases,
  Option-cases, leb→le, le→leb, ltb→lt, sum, length, ◌>>=◌, >>=-eq-some, get_or, set, take,
  replicate, all, All, In, half_up, half_up_bounds, half_up_unique, half_up_round_trip,
  half_up_mono, ℤ, pos, negsuc, Decimal, whole, leb_dec, eqb_dec, exact_hundredths,
  rounded_hundredths, hundredths,
}

pub data RiskTolerance : Type 0 where
  conservative moderate aggressive : RiskTolerance

pub data InvestmentObjective : Type 0 where
  income balanced growth : InvestmentObjective

-- `Literal["us-eu-v1"]`, `Literal["curator-fund-v1"]` and `Literal["USD", "EUR"]`
pub data AdvisoryContract : Type 0 where
  us_eu_v1 : AdvisoryContract

pub data IdentityContract : Type 0 where
  curator_fund_v1 : IdentityContract

pub data Currency : Type 0 where
  usd eur : Currency

-- The parts of `CatalogueRequestV1` that construction reads.
pub record ScopeMember : Type 0 where
  pub listing_id : String
  pub symbol : String

pub record CatalogueRequest : Type 0 where
  pub scope_digest : String
  pub members : List ScopeMember
  pub snapshot_version : String
  pub snapshot_digest : String

-- What a mapping holds at a key: nothing, None, or a value.
pub data Entry (A : Type 0) : Type 0 where
  absent null : Entry A
  given : A → Entry A

-- An untrusted number with its sign.
pub record Signed : Type 0 where
  pub negative : Bool
  pub magnitude : Decimal

pub record ProfileInput : Type 0 where
  pub horizon_years : ℤ
  pub risk_tolerance : String
  pub objective : String
  pub max_drawdown_pct : Signed
  pub advisory_contract : Entry String
  pub identity_contract : Entry String
  pub base_currency : Entry String
  pub initial_investment_usd : Entry Signed
  pub recurring_monthly_usd : Entry Signed
  pub initial_investment_minor : Entry ℤ
  pub recurring_monthly_minor : Entry ℤ
  pub excluded_sectors : List String
  pub catalogue_request : Entry CatalogueRequest

pub record InvestorProfile : Type 0 where
  pub horizon_years : ℕ
  pub risk_tolerance : RiskTolerance
  pub objective : InvestmentObjective
  pub max_drawdown_pct : Decimal
  pub advisory_contract : Option AdvisoryContract
  pub identity_contract : Option IdentityContract
  pub base_currency : Option Currency
  pub initial_investment_usd : Option Decimal
  pub recurring_monthly_usd : Option Decimal
  pub initial_investment_minor : Option ℕ
  pub recurring_monthly_minor : Option ℕ
  pub excluded_sectors : List String
  pub catalogue_request : Option CatalogueRequest

abbrev pub max_cash_flow_usd : ℕ
max_cash_flow_usd = 1_000_000_000_000

abbrev pub max_minor : ℕ
max_minor = 100_000_000_000_000

-- `key in value`
abbrev pub present : {A : Type 0} → Entry A → Bool
present absent = false
present null = true
present (given a) = true

abbrev pub is_given : {A : Type 0} → (A → Bool) → Entry A → Bool
is_given test absent = false
is_given test null = false
is_given test (given a) = test a

abbrev pub us_eu_marker : ProfileInput → Bool
us_eu_marker value = is_given (λ m. str_eq m "us-eu-v1") value.advisory_contract

-- `reject_mixed_money`: false where it raises.
unfoldable pub reject_mixed_money : ProfileInput → Bool
reject_mixed_money value =
    let curator = is_given (λ i. str_eq i "curator-fund-v1") value.identity_contract in
    let marker = us_eu_marker value in
    not (present value.identity_contract && not curator)
    && not (curator && not marker)
    && not (
        present value.catalogue_request
        && (not (is_given (λ r. true) value.catalogue_request) || not marker))
    && (if marker
        then not (present value.initial_investment_usd || present value.recurring_monthly_usd)
        else not (
            present value.base_currency
            || present value.initial_investment_minor
            || present value.recurring_monthly_minor
            || present value.advisory_contract))

unfoldable pub risk_of : String → Option RiskTolerance
risk_of s =
    if str_eq s "conservative"
    then some conservative
    else if str_eq s "moderate"
    then some moderate
    else if str_eq s "aggressive"
    then some aggressive
    else none

unfoldable pub objective_of : String → Option InvestmentObjective
objective_of s =
    if str_eq s "income"
    then some income
    else if str_eq s "balanced"
    then some balanced
    else if str_eq s "growth"
    then some growth
    else none

-- An optional literal field: missing and None both give None.
abbrev pub optional : {A B : Type 0} → (A → Option B) → Entry A → Option (Option B)
optional read absent = some none
optional read null = some none
optional read (given a) = read a >>= λ b. some (some b)

unfoldable pub advisory_of : String → Option AdvisoryContract
advisory_of s = if str_eq s "us-eu-v1" then some us_eu_v1 else none

unfoldable pub identity_of : String → Option IdentityContract
identity_of s = if str_eq s "curator-fund-v1" then some curator_fund_v1 else none

unfoldable pub currency_of : String → Option Currency
currency_of s = if str_eq s "USD" then some usd else if str_eq s "EUR" then some eur else none

-- `Field(ge=0, le=...)` on a number, on an integer, and `Field(gt=0, le=100)`
unfoldable pub cash_of : Signed → Option Decimal
cash_of n =
    if n.negative && not (n.magnitude.coefficient == 0)
    then none
    else if leb_dec n.magnitude (whole max_cash_flow_usd)
    then some n.magnitude
    else none

unfoldable pub minor_of : ℤ → Option ℕ
minor_of (negsuc n) = none
minor_of (pos n) = if leb n max_minor then some n else none

unfoldable pub drawdown_of : Signed → Option Decimal
drawdown_of n =
    if n.negative || n.magnitude.coefficient == 0
    then none
    else if leb_dec n.magnitude (whole 100)
    then some n.magnitude
    else none

unfoldable pub horizon_of : ℤ → Option ℕ
horizon_of (negsuc n) = none
horizon_of (pos n) = if leb 1 n && leb n 60 then some n else none

-- the default of `recurring_monthly_usd` is 0, of the other fields None
abbrev pub recurring_of : Entry Signed → Option (Option Decimal)
recurring_of absent = some (some (whole 0))
recurring_of null = some none
recurring_of (given n) = cash_of n >>= λ d. some (some d)

abbrev pub sectors_of : List String → Option (List String)
sectors_of sectors = if leb (length sectors) 25 then some sectors else none

-- `validate_money`: the profile, or none where it raises.
unfoldable pub validate_money : InvestorProfile → Option InvestorProfile
validate_money p =
    if is_some p.advisory_contract
    then (if is_none p.base_currency
          || is_none p.initial_investment_minor
          || is_none p.recurring_monthly_minor
          || is_some p.initial_investment_usd
          || not (elim p.recurring_monthly_usd [ none ↦ false | some d ↦ d.coefficient == 0 ])
        then none
        else some p)
    else if is_none p.initial_investment_usd
    then none
    else if is_some p.catalogue_request
    then none
    else some p

-- `InvestorProfile.model_validate`: the check of the raw mapping, the fields, the check of the whole.
unfoldable pub model_validate : ProfileInput → Option InvestorProfile
model_validate value = if not (reject_mixed_money value) then none else do
  horizon ← horizon_of value.horizon_years
  risk ← risk_of value.risk_tolerance
  objective ← objective_of value.objective
  drawdown ← drawdown_of value.max_drawdown_pct
  advisory ← optional advisory_of value.advisory_contract
  identity ← optional identity_of value.identity_contract
  currency ← optional currency_of value.base_currency
  initial ← optional cash_of value.initial_investment_usd
  recurring ← recurring_of value.recurring_monthly_usd
  initial_minor ← optional minor_of value.initial_investment_minor
  recurring_minor ← optional minor_of value.recurring_monthly_minor
  sectors ← sectors_of value.excluded_sectors
  request ← optional some value.catalogue_request
  validate_money (record {
    horizon_years = horizon;
    risk_tolerance = risk;
    objective = objective;
    max_drawdown_pct = drawdown;
    advisory_contract = advisory;
    identity_contract = identity;
    base_currency = currency;
    initial_investment_usd = initial;
    recurring_monthly_usd = recurring;
    initial_investment_minor = initial_minor;
    recurring_monthly_minor = recurring_minor;
    excluded_sectors = sectors;
    catalogue_request = request;
  })

unfoldable pub risk_text : RiskTolerance → String
risk_text conservative = "conservative"
risk_text moderate = "moderate"
risk_text aggressive = "aggressive"

unfoldable pub objective_text : InvestmentObjective → String
objective_text income = "income"
objective_text balanced = "balanced"
objective_text growth = "growth"

unfoldable pub currency_text : Currency → String
currency_text usd = "USD"
currency_text eur = "EUR"

abbrev plain : Decimal → Signed
plain d = record { negative = false; magnitude = d }

-- a field that stays in the mapping, with None written out
abbrev kept : {A B : Type 0} → (A → B) → Option A → Entry B
kept write none = null
kept write (some a) = given (write a)

-- `result.pop(name)` where the value is None
abbrev popped_none : {A B : Type 0} → (A → B) → Option A → Entry B
popped_none write none = absent
popped_none write (some a) = given (write a)

-- `model_dump` with `serialize_profile`
unfoldable pub model_dump : InvestorProfile → ProfileInput
unfolding risk_text objective_text currency_text
model_dump p =
    let new = is_some p.advisory_contract in
    record {
      horizon_years = pos p.horizon_years;
      risk_tolerance = risk_text p.risk_tolerance;
      objective = objective_text p.objective;
      max_drawdown_pct = plain p.max_drawdown_pct;
      advisory_contract = if new then given "us-eu-v1" else absent;
      identity_contract = popped_none (λ i. "curator-fund-v1") p.identity_contract;
      base_currency = if new then kept currency_text p.base_currency else absent;
      initial_investment_usd = if new then absent else kept plain p.initial_investment_usd;
      recurring_monthly_usd = if new then absent else kept plain p.recurring_monthly_usd;
      initial_investment_minor = if new then kept pos p.initial_investment_minor else absent;
      recurring_monthly_minor = if new then kept pos p.recurring_monthly_minor else absent;
      excluded_sectors = p.excluded_sectors;
      catalogue_request = if new then popped_none (λ r. r) p.catalogue_request else absent;
    }
