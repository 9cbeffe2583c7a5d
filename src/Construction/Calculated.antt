-- ===== src/Construction/Calculated.antt =====
-- What construction reads from a calculated policy: its targets in basis points always add up to the
-- whole, and its cash always reconciles.
use agentic_etf_advisor.Prelude.{
  ◌*◌, ◌^◌, ◌<◌, ◌≡◌, refl, ◌∙◌, ◌⊎◌, inl, inr, Bool, true, false, ◌&&◌, some, arith, ltb, ◌==◌,
  whole, exact_hundredths,
}
use agentic_etf_advisor.Construction.Candidate.{
  BySleeve, total_of, total_weight_bps, ConstructionReason, PortfolioConstructionPolicy,
}
use agentic_etf_advisor.Profile.{InvestorProfile, RiskTolerance, InvestmentObjective}
use agentic_etf_advisor.Policy.{
  get_band, policy_bands, PolicyCalculation, TargetAllocation, PolicyCash, calculate_policy,
  growth_target, complement,
}
use agentic_etf_advisor.Policy.Target.{target_of, by_cases}
use agentic_etf_advisor.Policy.Laws.{built}
use agentic_etf_advisor.Policy.Exact.{calculate_policy-built}
use agentic_etf_advisor.Construction.Targets.{
  in_band, checked_targets, basis_points, target_basis_points,
}

-- The basis points of a target, with both sleeves in use.
pub record IsWhole (t : TargetAllocation) (targets : BySleeve) : Type 0 where
  pub total : total_of targets ≡ total_weight_bps
  pub growth :
      targets.growth * 10 ^ t.growth_assets_pct.scale ≡ t.growth_assets_pct.coefficient * 100
  pub growth_used : 0 < targets.growth
  pub defensive_used : 0 < targets.defensive

abbrev is_whole : TargetAllocation → BySleeve ⊎ ConstructionReason → Bool
is_whole t (inr reason) = false
is_whole t (inl targets) =
    (total_of targets == total_weight_bps)
    && (targets.growth * 10 ^ t.growth_assets_pct.scale == t.growth_assets_pct.coefficient * 100)
    && ltb 0 targets.growth
    && ltb 0 targets.defensive

is_whole-inv :
    (t : TargetAllocation) (result : BySleeve ⊎ ConstructionReason)
    → is_whole t result ≡ true
    → (targets : BySleeve) × (result ≡ inl targets) × IsWhole t targets
is_whole-inv t (inr reason) h = absurd (cc)
is_whole-inv t (inl targets) h = (
  targets,
  refl,
  record {
    total = ground arith;
    growth = ground arith;
    growth_used = ground arith;
    defensive_used = ground arith;
  },
)

abbrev points_of : RiskTolerance → InvestmentObjective → BySleeve ⊎ ConstructionReason
points_of r o =
    basis_points (policy_bands r) (exact_hundredths (target_of r o).growth_assets_pct)
      (exact_hundredths (target_of r o).defensive_assets_pct)

points_of-IsWhole :
    (r : RiskTolerance) (o : InvestmentObjective) → is_whole (target_of r o) (points_of r o) ≡ true
unfolding basis_points checked_targets in_band get_band policy_bands exact_hundredths growth_target
    complement
points_of-IsWhole = by_cases (λ r o. is_whole (target_of r o) (points_of r o)) refl

target_basis_points-built :
    (p : InvestorProfile) (cash : PolicyCash) (policy : PortfolioConstructionPolicy)
    → policy.weight_precision_bps ≡ 1
    → target_basis_points (built p cash) policy ≡ points_of p.risk_tolerance p.objective
unfolding target_basis_points
target_basis_points-built p cash policy one = rw one refl

-- For a calculated policy and a weight precision of one basis point, the targets of the sleeves are
-- always found: they add up to ten thousand, both are positive, and the growth target is exactly the
-- growth percentage.
pub target_basis_points-IsWhole :
    (p : InvestorProfile) {c : PolicyCalculation} (policy : PortfolioConstructionPolicy)
    → calculate_policy p ≡ some c
    → policy.weight_precision_bps ≡ 1
    → (targets : BySleeve) × (target_basis_points c policy ≡ inl targets)
      × IsWhole c.target_allocation targets
target_basis_points-IsWhole p policy h one =
    let (cash, e, same) = calculate_policy-built p h in
    let (targets, found, whole) =
      is_whole-inv (target_of p.risk_tolerance p.objective) (points_of p.risk_tolerance p.objective)
        (points_of-IsWhole p.risk_tolerance p.objective) in
    rw same (targets, target_basis_points-built p cash policy one ∙ found, whole)
