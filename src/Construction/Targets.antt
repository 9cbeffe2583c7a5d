-- ===== src/Construction/Targets.antt =====
-- `_target_basis_points`, `_policy_cash_cents` and `_exact_cents` of
-- src/etf_advisor/domain/construction.py: what construction reads from the policy.
use agentic_etf_advisor.Prelude.{
  ℕ, ◌*◌, ◌⊎◌, inl, inr, Bool, false, not, ◌&&◌, ◌||◌, Option, none, some, List, [], ◌∷◌, leb, ◌==◌,
  if◌then◌else◌, is_some, ◌>>=◌, exact_hundredths, hundredths,
}
use agentic_etf_advisor.Construction.Candidate.{
  BySleeve, total_of, total_weight_bps, ConstructionReason, PortfolioConstructionPolicy,
  allocation_precision_unsupported, weight_reconciliation_failed, allocation_band_mismatch,
}
use agentic_etf_advisor.Policy.{
  get_band, PolicyCalculation, AllocationBands, CashFlowAllocation, MinorCashAllocation,
}

-- `low * 100 <= target <= high * 100`; a band that is missing or has not two bounds is refused.
unfoldable pub in_band : Option (List ℕ) → ℕ → Bool
in_band (some (low ∷ high ∷ [])) target = leb (low * 100) target && leb target (high * 100)
in_band _ target = false

-- The tests on the two targets in basis points.
unfoldable pub checked_targets : AllocationBands → BySleeve → BySleeve ⊎ ConstructionReason
checked_targets bands targets =
    if not (total_of targets == total_weight_bps)
    then inr weight_reconciliation_failed
    else if not (in_band (get_band "growth_assets_pct" bands) targets.growth)
        || not (in_band (get_band "defensive_assets_pct" bands) targets.defensive)
    then inr allocation_band_mismatch
    else inl targets

-- A percentage times 100, where that is a whole number.
unfoldable pub basis_points : AllocationBands → Option ℕ → Option ℕ → BySleeve ⊎ ConstructionReason
basis_points bands (some g) (some d) = checked_targets bands (record { growth = g; defensive = d })
basis_points bands (some g) none = inr allocation_precision_unsupported
basis_points bands none _ = inr allocation_precision_unsupported

-- `_target_basis_points`
unfoldable pub target_basis_points :
    PolicyCalculation → PortfolioConstructionPolicy → BySleeve ⊎ ConstructionReason
target_basis_points calculation policy =
    if not (policy.weight_precision_bps == 1)
    then inr allocation_precision_unsupported
    else basis_points calculation.allocation_bands
        (exact_hundredths calculation.target_allocation.growth_assets_pct)
        (exact_hundredths calculation.target_allocation.defensive_assets_pct)

-- The two cash flows; the caller names the field of the contract of the calculation.
pub data CashField : Type 0 where
  initial_investment recurring_monthly : CashField

abbrev pub minor_field : CashField → PolicyCalculation → Option MinorCashAllocation
minor_field initial_investment c = c.initial_investment
minor_field recurring_monthly c = c.recurring_monthly

abbrev pub usd_field : CashField → PolicyCalculation → Option CashFlowAllocation
usd_field initial_investment c = c.initial_investment_usd
usd_field recurring_monthly c = c.recurring_monthly_usd

-- the closing test of `_policy_cash_cents`
unfoldable pub reconciled_cents : ℕ → BySleeve → Option (BySleeve × ℕ)
reconciled_cents total by_sleeve =
    if not (total_of by_sleeve == total) then none else some (by_sleeve, total)

-- `_policy_cash_cents`; none where it raises, also for a field that is None.
unfoldable pub policy_cash_cents : PolicyCalculation → CashField → Option (BySleeve × ℕ)
policy_cash_cents calculation field =
    if is_some calculation.advisory_contract
    then (minor_field field calculation >>= λ cash.
        reconciled_cents cash.total_minor
          (record { growth = cash.growth_minor; defensive = cash.defensive_minor }))
    else do
      cash ← usd_field field calculation
      total ← exact_hundredths (hundredths cash.total_usd)
      growth ← exact_hundredths (hundredths cash.growth_assets_usd)
      defensive ← exact_hundredths (hundredths cash.defensive_assets_usd)
      reconciled_cents total (record { growth = growth; defensive = defensive })
