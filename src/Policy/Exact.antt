-- ===== src/Policy/Exact.antt =====
-- What a calculated policy guarantees about its target and its cash.
use mathlib.Core.Option.{some-injective}
use agentic_etf_advisor.Prelude.{
  ℕ, ◌+◌, ◌*◌, ◌^◌, ◌≤◌, ◌<◌, ◌≡◌, refl, sym, ap, ◌∙◌, ◌⊎◌, inl, inr, Bool, true, none, some, arith,
  ◌==◌, ltb→lt, >>=-eq-some, half_up_bounds, Decimal,
}
use agentic_etf_advisor.Profile.{
  RiskTolerance, InvestmentObjective, us_eu_v1, Currency, InvestorProfile,
}
use agentic_etf_advisor.Profile.RoundTrip.{AdvisoryContract-cases}
use agentic_etf_advisor.Policy.{
  get_band, policy_bands, TargetAllocation, MinorCashAllocation, PolicyCalculation, cash_flow_ok,
  inside, growth_target, complement, growth_part, split_cash_flow, split_minor_cash, checked,
  PolicyCash, new_cash, legacy_cash, calculate_policy,
}
use agentic_etf_advisor.Policy.Target.{
  target_pct, target_of, inside_growth, inside_defensive, growth_part-le, by_cases, grid_pos,
}
use agentic_etf_advisor.Policy.Laws.{
  built, cash_of_profile, calculate_policy-eq, IsNewPolicy, new_flows, new_cash-eq,
}

pub calculate_policy-built :
    (p : InvestorProfile) {c : PolicyCalculation}
    → calculate_policy p ≡ some c
    → (cash : PolicyCash) × (cash_of_profile p ≡ some cash) × (c ≡ built p cash)
calculate_policy-built p h =
    let (cash, e, h') = >>=-eq-some (cash_of_profile p) _ (sym (calculate_policy-eq p) ∙ h) in
    (cash, e, ground arith)

-- the exact value of growth and defensive percent together, as a test
abbrev sums_to_hundred : TargetAllocation → Bool
sums_to_hundred t =
    let g = t.growth_assets_pct in
    let d = t.defensive_assets_pct in
    g.coefficient * 10 ^ d.scale + d.coefficient * 10 ^ g.scale
    == 100 * (10 ^ g.scale * 10 ^ d.scale)

target_sums : (r : RiskTolerance) (o : InvestmentObjective) → sums_to_hundred (target_of r o) ≡ true
unfolding growth_target complement
target_sums = by_cases (λ r o. sums_to_hundred (target_of r o)) refl

-- Every calculated target takes exactly one hundred percent, and both of its percentages lie inside
-- the configured bands of the profile's risk tolerance.
pub calculate_policy_target :
    (p : InvestorProfile) {c : PolicyCalculation}
    → calculate_policy p ≡ some c
    → let g = c.target_allocation.growth_assets_pct in
      let d = c.target_allocation.defensive_assets_pct in
      (g.coefficient * 10 ^ d.scale + d.coefficient * 10 ^ g.scale
        ≡ 100 * (10 ^ g.scale * 10 ^ d.scale))
      × (inside (get_band "growth_assets_pct" (policy_bands p.risk_tolerance)) g ≡ true)
      × (inside (get_band "defensive_assets_pct" (policy_bands p.risk_tolerance)) d ≡ true)
calculate_policy_target p h =
    let (cash, e, same) = calculate_policy-built p h in
    rw same (
      ground (arith, target_sums p.risk_tolerance p.objective),
      inside_growth p.risk_tolerance p.objective,
      inside_defensive p.risk_tolerance p.objective,
    )

legacy_cash_has_no_minor :
    (p : InvestorProfile) (pct : Decimal) {cash : PolicyCash}
    → legacy_cash p pct ≡ some cash
    → (cash.initial_minor ≡ none) × (cash.recurring_minor ≡ none)
unfolding legacy_cash
legacy_cash_has_no_minor p pct h =
    let (initial, a, h1) = >>=-eq-some p.initial_investment_usd _ h in
    let (recurring, b, h2) = >>=-eq-some p.recurring_monthly_usd _ h1 in
    let (s, c, h3) = >>=-eq-some (checked cash_flow_ok (split_cash_flow initial pct)) _ h2 in
    let (t, d, h4) = >>=-eq-some (checked cash_flow_ok (split_cash_flow recurring pct)) _ h3 in
    (ground arith, ground arith)

new_cash_amounts :
    (p : InvestorProfile) (pct : Decimal) {cash : PolicyCash}
    → new_cash p pct ≡ some cash
    → IsNewPolicy p
unfolding new_cash
new_cash_amounts p pct h =
    let (currency, a, h1) = >>=-eq-some p.base_currency _ h in
    let (initial, b, h2) = >>=-eq-some p.initial_investment_minor _ h1 in
    let (recurring, c, h3) = >>=-eq-some p.recurring_monthly_minor _ h2 in
    record {
      currency = currency;
      initial = initial;
      recurring = recurring;
      has_currency = a;
      has_initial = b;
      has_recurring = c;
    }

pub legacy_is_cash :
    (p : InvestorProfile)
    → p.advisory_contract ≡ none
    → cash_of_profile p ≡ legacy_cash p (target_pct p.risk_tolerance p.objective)
legacy_is_cash p e = rw e refl

pub new_is_cash :
    (p : InvestorProfile)
    → p.advisory_contract ≡ some us_eu_v1
    → cash_of_profile p ≡ new_cash p (target_pct p.risk_tolerance p.objective)
new_is_cash p e = rw e refl

minor_flows_new :
    (p : InvestorProfile) (cash : PolicyCash) (s : MinorCashAllocation)
    → new_cash p (target_pct p.risk_tolerance p.objective) ≡ some cash
    → (cash.initial_minor ≡ some s) ⊎ (cash.recurring_minor ≡ some s)
    → (total : ℕ) × (currency : Currency) × (s
        ≡ split_minor_cash total currency (target_pct p.risk_tolerance p.objective))
minor_flows_new p cash s h k =
    let n = new_cash_amounts p _ h in
    let same : cash ≡ new_flows p n = some-injective _ _ (sym h ∙ new_cash-eq p n) in
    elim k [
      | inl i ↦ (n.initial, n.currency, some-injective _ _ (sym i ∙ ap (λ c. c.initial_minor) same))
      | inr i ↦
          (n.recurring, n.currency, some-injective _ _ (sym i ∙ ap (λ c. c.recurring_minor) same))
    ]

-- the minor-unit flows of a calculation are splits at the target percent
minor_flows :
    (p : InvestorProfile) (cash : PolicyCash) (s : MinorCashAllocation)
    → cash_of_profile p ≡ some cash
    → (cash.initial_minor ≡ some s) ⊎ (cash.recurring_minor ≡ some s)
    → (total : ℕ) × (currency : Currency) × (s
        ≡ split_minor_cash total currency (target_pct p.risk_tolerance p.objective))
minor_flows p cash s h k =
    let pct : Decimal = target_pct p.risk_tolerance p.objective in
    elim (AdvisoryContract-cases p.advisory_contract) [
      | inl legacy ↦ absurd (
          let (a, b) = legacy_cash_has_no_minor p pct (sym (legacy_is_cash p legacy) ∙ h) in
          elim k [ inl i ↦ ground arith | inr i ↦ ground arith ])
      | inr new ↦ minor_flows_new p cash s (sym (new_is_cash p new) ∙ h) k
    ]

minor_fields :
    (p : InvestorProfile) {c : PolicyCalculation} {cash : PolicyCash} {s : MinorCashAllocation}
    → c ≡ built p cash
    → (c.initial_investment ≡ some s) ⊎ (c.recurring_monthly ≡ some s)
    → (cash.initial_minor ≡ some s) ⊎ (cash.recurring_minor ≡ some s)
minor_fields p same k = elim k [
  | inl i ↦ inl (sym (ap (λ c. c.initial_investment) same) ∙ i)
  | inr i ↦ inr (sym (ap (λ c. c.recurring_monthly) same) ∙ i)
]

abbrev pub IsExactSplit : Decimal → MinorCashAllocation → Type 0
IsExactSplit g s =
    let one : ℕ = 100 * 10 ^ g.scale in
    (s.growth_minor + s.defensive_minor ≡ s.total_minor)
    × (s.growth_minor * (2 * one) ≤ 2 * (s.total_minor * g.coefficient) + one)
    × (2 * (s.total_minor * g.coefficient) + one < s.growth_minor * (2 * one) + 2 * one)

growth_part_bounds :
    (total : ℕ) (r : RiskTolerance) (o : InvestmentObjective)
    → let g = target_pct r o in
      let one : ℕ = 100 * 10 ^ g.scale in
      (growth_part total g * (2 * one) ≤ 2 * (total * g.coefficient) + one)
      × (2 * (total * g.coefficient) + one < growth_part total g * (2 * one) + 2 * one)
unfolding growth_part
growth_part_bounds total r o = half_up_bounds _ _ (ltb→lt _ _ (grid_pos r o))

split_exact :
    (r : RiskTolerance) (o : InvestmentObjective) (total : ℕ) (currency : Currency)
    → IsExactSplit (target_pct r o) (split_minor_cash total currency (target_pct r o))
unfolding split_minor_cash
split_exact r o total currency =
    let le = growth_part-le r o total in
    let b = growth_part_bounds total r o in (omega (arith, le), b.0, b.1)

-- In a calculated policy, both minor-unit cash flows reconcile exactly, and the growth amount is the
-- target percent of the total rounded to the nearest unit, halves up.
pub calculate_policy_minor_exact :
    (p : InvestorProfile) {c : PolicyCalculation} (s : MinorCashAllocation)
    → calculate_policy p ≡ some c
    → (c.initial_investment ≡ some s) ⊎ (c.recurring_monthly ≡ some s)
    → IsExactSplit c.target_allocation.growth_assets_pct s
calculate_policy_minor_exact p s h k =
    let (cash, e, same) = calculate_policy-built p h in
    rw same (
      let (total, currency, split) = minor_flows p cash s e (minor_fields p same k) in
      rw split (split_exact p.risk_tolerance p.objective total currency))
