-- ===== src/Policy.antt =====
-- src/etf_advisor/domain/policy.py: the target split inside the configured policy band, and the split
-- of the two cash flows.
pub mod Target
pub mod Laws
pub mod Exact
pub mod Sample
mod Tests
use agentic_etf_advisor.Prelude.{
  ℕ, zero, suc, ◌+◌, ◌-◌, ◌*◌, ◌/◌, ◌%◌, ◌^◌, ◌≤◌, ◌<◌, min, String, ◌≡◌, refl, sym, ap, ◌∙◌, ◌≢◌,
  ◌↔◌, ◌⊎◌, inl, inr, Bool, true, false, not, ◌&&◌, ◌||◌, Option, none, some, List, [], ◌∷◌, ◌++◌,
  map, arith, str_eq, str_eq_iff, ltb, leb, ◌==◌, if◌then◌else◌, is_some, is_none, Bool-cases,
  Option-cases, leb→le, le→leb, ltb→lt, sum, length, ◌>>=◌, >>=-eq-some, get_or, set, take,
  replicate, all, All, In, half_up, half_up_bounds, half_up_unique, half_up_round_trip,
  half_up_mono, ℤ, pos, negsuc, Decimal, whole, leb_dec, eqb_dec, exact_hundredths,
  rounded_hundredths, hundredths,
}
use agentic_etf_advisor.Profile.{
  RiskTolerance, conservative, moderate, aggressive, InvestmentObjective, income, balanced, growth,
  AdvisoryContract, us_eu_v1, IdentityContract, Currency, usd, eur, InvestorProfile,
}

-- `AllocationBands`: the lists of bounds, in whole percent, by name
abbrev pub AllocationBands : Type 0
AllocationBands = List (String × List ℕ)

-- `bands.get(name)`
unfoldable pub get_band : String → AllocationBands → Option (List ℕ)
get_band name [] = none
get_band name ((key, bounds) ∷ bands) = if str_eq name key then some bounds else get_band name bands

abbrev bands_of : ℕ → ℕ → ℕ → ℕ → AllocationBands
bands_of growth_min growth_max defensive_min defensive_max =
    ("growth_assets_pct", growth_min ∷ growth_max ∷ [])
    ∷ ("defensive_assets_pct", defensive_min ∷ defensive_max ∷ [])
    ∷ []

-- `POLICY_BANDS`
unfoldable pub policy_bands : RiskTolerance → AllocationBands
policy_bands conservative = bands_of 20 45 55 80
policy_bands moderate = bands_of 45 70 30 55
policy_bands aggressive = bands_of 70 95 5 30

pub record TargetAllocation : Type 0 where
  pub growth_assets_pct : Decimal
  pub defensive_assets_pct : Decimal

-- the amounts of a legacy cash flow, in cents
pub record CashFlowAllocation : Type 0 where
  pub total_usd : ℕ
  pub growth_assets_usd : ℕ
  pub defensive_assets_usd : ℕ

pub record MinorCashAllocation : Type 0 where
  pub currency : Currency
  pub total_minor : ℕ
  pub growth_minor : ℕ
  pub defensive_minor : ℕ

pub record PolicyCalculation : Type 0 where
  pub risk_tolerance : RiskTolerance
  pub objective : InvestmentObjective
  pub horizon_years : ℕ
  pub max_drawdown_pct : Decimal
  pub excluded_sectors : List String
  pub allocation_bands : AllocationBands
  pub target_allocation : TargetAllocation
  pub advisory_contract : Option AdvisoryContract
  pub identity_contract : Option IdentityContract
  pub base_currency : Option Currency
  pub initial_investment_usd : Option CashFlowAllocation
  pub recurring_monthly_usd : Option CashFlowAllocation
  pub initial_investment : Option MinorCashAllocation
  pub recurring_monthly : Option MinorCashAllocation

-- `abs(growth + defensive - 100.0) > 1e-6`, negated: within one millionth of 100
unfoldable pub target_ok : TargetAllocation → Bool
target_ok t =
    let g = t.growth_assets_pct in
    let d = t.defensive_assets_pct in
    let one : ℕ = 10 ^ g.scale * 10 ^ d.scale in
    let total : ℕ = g.coefficient * 10 ^ d.scale + d.coefficient * 10 ^ g.scale in
    leb_dec g (whole 100)
    && leb_dec d (whole 100)
    && leb (total * 1_000_000) (100_000_001 * one)
    && leb (99_999_999 * one) (total * 1_000_000)

-- `abs(growth + defensive - total) > 0.005`, negated, on amounts in cents
unfoldable pub cash_flow_ok : CashFlowAllocation → Bool
cash_flow_ok c = c.growth_assets_usd + c.defensive_assets_usd == c.total_usd

-- `MinorCashAllocation.reconcile`
unfoldable pub minor_cash_ok : MinorCashAllocation → Bool
minor_cash_ok c = c.growth_minor + c.defensive_minor == c.total_minor

unfoldable pub currency_eqb : Currency → Currency → Bool
currency_eqb usd usd = true
currency_eqb usd eur = false
currency_eqb eur usd = false
currency_eqb eur eur = true

-- `low <= target <= high` on a list of two bounds; false where it raises
unfoldable pub inside : Option (List ℕ) → Decimal → Bool
inside (some (low ∷ high ∷ [])) target = leb_dec (whole low) target && leb_dec target (whole high)
inside _ target = false

unfoldable pub money_ok : PolicyCalculation → Bool
unfolding currency_eqb
money_ok c = elim c.advisory_contract [
  | some contract ↦ elim c.base_currency [
    | none ↦ false
    | some currency ↦ elim c.initial_investment [
      | none ↦ false
      | some initial ↦ elim c.recurring_monthly [
        | none ↦ false
        | some recurring ↦
            is_none c.initial_investment_usd
            && is_none c.recurring_monthly_usd
            && currency_eqb initial.currency currency
            && currency_eqb recurring.currency currency
      ]
    ]
  ]
  | none ↦
      is_none c.base_currency
      && is_none c.initial_investment
      && is_none c.recurring_monthly
      && is_some c.initial_investment_usd
      && is_some c.recurring_monthly_usd
]

-- `validate_target_within_bands`: false where it raises.
unfoldable pub validate_target_within_bands : PolicyCalculation → Bool
validate_target_within_bands c =
    inside (get_band "growth_assets_pct" c.allocation_bands) c.target_allocation.growth_assets_pct
    && inside (get_band "defensive_assets_pct" c.allocation_bands)
        c.target_allocation.defensive_assets_pct
    && money_ok c

-- `float(growth_min)`, `float(growth_max)` and `(growth_min + growth_max) / 2`
unfoldable pub growth_target : InvestmentObjective → ℕ → ℕ → Decimal
growth_target income low high = whole low
growth_target growth low high = whole high
growth_target balanced low high = record { coefficient = (low + high) * 5; scale = 1 }

-- `100 - growth_target`; a target above 100, which no band has, would give zero here and raise there.
unfoldable pub complement : Decimal → Decimal
complement d = record { coefficient = 100 * 10 ^ d.scale - d.coefficient; scale = d.scale }

-- `total * Decimal(str(growth_pct)) / 100`, rounded half up to one unit
unfoldable pub growth_part : ℕ → Decimal → ℕ
growth_part total pct = half_up (total * pct.coefficient) (100 * 10 ^ pct.scale)

-- `_split_cash_flow`: the amount is rounded to cents first.
unfoldable pub split_cash_flow : Decimal → Decimal → CashFlowAllocation
split_cash_flow total_usd growth_pct =
    let total : ℕ = rounded_hundredths total_usd in
    record {
      total_usd = total;
      growth_assets_usd = growth_part total growth_pct;
      defensive_assets_usd = total - growth_part total growth_pct;
    }

unfoldable pub split_minor_cash : ℕ → Currency → Decimal → MinorCashAllocation
split_minor_cash total currency growth_pct = record {
  currency = currency;
  total_minor = total;
  growth_minor = growth_part total growth_pct;
  defensive_minor = total - growth_part total growth_pct;
}

-- an object, or none where its validator raises
abbrev pub checked : {A : Type 0} → (A → Bool) → A → Option A
checked ok a = if ok a then some a else none

-- `growth_min, growth_max = bands["growth_assets_pct"]`
abbrev pub pair_of : Option (List ℕ) → Option (ℕ × ℕ)
pair_of (some (low ∷ high ∷ [])) = some (low, high)
pair_of _ = none

-- The cash fields of the calculation, by contract; none where an assertion or a validator fails.
pub record PolicyCash : Type 0 where
  pub initial_usd : Option CashFlowAllocation
  pub recurring_usd : Option CashFlowAllocation
  pub initial_minor : Option MinorCashAllocation
  pub recurring_minor : Option MinorCashAllocation

unfoldable pub new_cash : InvestorProfile → Decimal → Option PolicyCash
new_cash profile pct = do
  currency ← profile.base_currency
  initial ← profile.initial_investment_minor
  recurring ← profile.recurring_monthly_minor
  initial_split ← checked minor_cash_ok (split_minor_cash initial currency pct)
  recurring_split ← checked minor_cash_ok (split_minor_cash recurring currency pct)
  some (record {
    initial_usd = none;
    recurring_usd = none;
    initial_minor = some initial_split;
    recurring_minor = some recurring_split;
  })

unfoldable pub legacy_cash : InvestorProfile → Decimal → Option PolicyCash
legacy_cash profile pct = do
  initial ← profile.initial_investment_usd
  recurring ← profile.recurring_monthly_usd
  initial_split ← checked cash_flow_ok (split_cash_flow initial pct)
  recurring_split ← checked cash_flow_ok (split_cash_flow recurring pct)
  some (record {
    initial_usd = some initial_split;
    recurring_usd = some recurring_split;
    initial_minor = none;
    recurring_minor = none;
  })

-- `calculate_policy`; none where it raises.
unfoldable pub calculate_policy : InvestorProfile → Option PolicyCalculation
calculate_policy profile =
    let bands : AllocationBands = policy_bands profile.risk_tolerance in
    do
      (growth_min, growth_max) ← pair_of (get_band "growth_assets_pct" bands)
      target ← checked target_ok (record {
        growth_assets_pct = growth_target profile.objective growth_min growth_max;
        defensive_assets_pct = complement (growth_target profile.objective growth_min growth_max);
      })
      cash ←
          (if is_some profile.advisory_contract
            then new_cash profile target.growth_assets_pct
            else legacy_cash profile target.growth_assets_pct)
      checked validate_target_within_bands (record {
        risk_tolerance = profile.risk_tolerance;
        objective = profile.objective;
        horizon_years = profile.horizon_years;
        max_drawdown_pct = profile.max_drawdown_pct;
        excluded_sectors = profile.excluded_sectors;
        allocation_bands = bands;
        target_allocation = target;
        advisory_contract = profile.advisory_contract;
        identity_contract = profile.identity_contract;
        base_currency = (if is_some profile.advisory_contract then profile.base_currency else none);
        initial_investment_usd = cash.initial_usd;
        recurring_monthly_usd = cash.recurring_usd;
        initial_investment = cash.initial_minor;
        recurring_monthly = cash.recurring_minor;
      })
