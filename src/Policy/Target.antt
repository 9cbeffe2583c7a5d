-- ===== src/Policy/Target.antt =====
-- The selected target of each risk tolerance and objective, against the bands and the validators of
-- src/etf_advisor/domain/policy.py.
use native.Mathlib.Nat.{mul-le-mul_left}
use agentic_etf_advisor.Prelude.{
  ℕ, ◌*◌, ◌^◌, ◌≤◌, ◌<◌, ◌≡◌, refl, Bool, true, ◌&&◌, some, [], ◌∷◌, arith, ltb, leb, leb→le,
  ltb→lt, half_up, half_up_unique, half_up_mono, Decimal, leb_dec, rounded_hundredths,
}
use agentic_etf_advisor.Profile.{
  RiskTolerance, conservative, moderate, aggressive, InvestmentObjective, income, balanced, growth,
  Currency,
}
use agentic_etf_advisor.Policy.{
  get_band, policy_bands, TargetAllocation, target_ok, cash_flow_ok, minor_cash_ok, inside,
  growth_target, complement, growth_part, split_cash_flow, split_minor_cash,
}

-- the two bounds on growth assets
abbrev pub growth_low : RiskTolerance → ℕ
growth_low conservative = 20
growth_low moderate = 45
growth_low aggressive = 70

abbrev pub growth_high : RiskTolerance → ℕ
growth_high conservative = 45
growth_high moderate = 70
growth_high aggressive = 95

-- the selected target of a profile's risk tolerance and objective
abbrev pub target_pct : RiskTolerance → InvestmentObjective → Decimal
target_pct r o = growth_target o (growth_low r) (growth_high r)

abbrev pub target_of : RiskTolerance → InvestmentObjective → TargetAllocation
target_of r o = record {
  growth_assets_pct = target_pct r o;
  defensive_assets_pct = complement (target_pct r o);
}

pub growth_band :
    (r : RiskTolerance)
    → get_band "growth_assets_pct" (policy_bands r) ≡ some (growth_low r ∷ growth_high r ∷ [])
unfolding get_band policy_bands
growth_band conservative = refl
growth_band moderate = refl
growth_band aggressive = refl

-- a closed check for each of the nine combinations
abbrev pub all_cases : (RiskTolerance → InvestmentObjective → Bool) → Bool
all_cases test =
    (test conservative income && test conservative balanced && test conservative growth)
    && (test moderate income && test moderate balanced && test moderate growth)
    && (test aggressive income && test aggressive balanced && test aggressive growth)

pub by_cases :
    (test : RiskTolerance → InvestmentObjective → Bool)
    → all_cases test ≡ true
    → (r : RiskTolerance) (o : InvestmentObjective) → test r o ≡ true
by_cases test h conservative income = ground arith
by_cases test h conservative balanced = ground arith
by_cases test h conservative growth = ground arith
by_cases test h moderate income = ground arith
by_cases test h moderate balanced = ground arith
by_cases test h moderate growth = ground arith
by_cases test h aggressive income = ground arith
by_cases test h aggressive balanced = ground arith
by_cases test h aggressive growth = ground arith

pub target_ok-target_of :
    (r : RiskTolerance) (o : InvestmentObjective) → target_ok (target_of r o) ≡ true
unfolding target_ok complement growth_target leb_dec
target_ok-target_of = by_cases (λ r o. target_ok (target_of r o)) refl

pub inside_growth :
    (r : RiskTolerance) (o : InvestmentObjective)
    → inside (get_band "growth_assets_pct" (policy_bands r)) (target_pct r o) ≡ true
unfolding inside growth_target leb_dec get_band policy_bands
inside_growth =
    by_cases (λ r o. inside (get_band "growth_assets_pct" (policy_bands r)) (target_pct r o)) refl

pub inside_defensive :
    (r : RiskTolerance) (o : InvestmentObjective)
    → inside (get_band "defensive_assets_pct" (policy_bands r)) (complement (target_pct r o)) ≡ true
unfolding inside growth_target complement leb_dec get_band policy_bands
inside_defensive =
    by_cases
      (λ r o.
        inside (get_band "defensive_assets_pct" (policy_bands r)) (complement (target_pct r o)))
      refl

-- no target is above 100 percent
pub target_le :
    (r : RiskTolerance) (o : InvestmentObjective)
    → leb (target_pct r o).coefficient (100 * 10 ^ (target_pct r o).scale) ≡ true
unfolding growth_target
target_le =
    by_cases (λ r o. leb (target_pct r o).coefficient (100 * 10 ^ (target_pct r o).scale)) refl

pub grid_pos :
    (r : RiskTolerance) (o : InvestmentObjective) → ltb 0 (100 * 10 ^ (target_pct r o).scale) ≡ true
unfolding growth_target
grid_pos = by_cases (λ r o. ltb 0 (100 * 10 ^ (target_pct r o).scale)) refl

-- the growth part of an amount is not larger than the amount
part_le : (total c d : ℕ) → 0 < d → c ≤ d → half_up (total * c) d ≤ total
part_le total c d pd h =
    let m = mul-le-mul_left total h in
    let mono : half_up (total * c) d ≤ half_up (total * d) d = half_up_mono _ _ d pd m in
    let e : half_up (total * d) d ≡ total =
      half_up_unique (total * d) d total pd (omega arith) (omega arith) in
    omega arith

module _ (r : RiskTolerance) (o : InvestmentObjective) where
  pub growth_part-le : (total : ℕ) → growth_part total (target_pct r o) ≤ total
  unfolding growth_part
  growth_part-le total = part_le total _ _ (ltb→lt _ _ (grid_pos r o)) (leb→le _ _ (target_le r o))

  pub minor_cash_ok-split :
      (total : ℕ) (c : Currency) → minor_cash_ok (split_minor_cash total c (target_pct r o)) ≡ true
  unfolding minor_cash_ok split_minor_cash
  minor_cash_ok-split total c = ground (arith, growth_part-le total)

  pub cash_flow_ok-split :
      (total : Decimal) → cash_flow_ok (split_cash_flow total (target_pct r o)) ≡ true
  unfolding cash_flow_ok split_cash_flow
  cash_flow_ok-split total = ground (arith, growth_part-le (rounded_hundredths total))
