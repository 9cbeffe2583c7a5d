-- ===== src/Construction/ReadCash.antt =====
-- The cash that construction reads from a calculated policy always reconciles.
use mathlib.Core.Option.{some-injective}
use agentic_etf_advisor.Prelude.{
  ℕ, ◌*◌, ◌/◌, ◌%◌, ◌≡◌, refl, sym, ap, ◌∙◌, inl, inr, Bool, true, none, some, arith, if◌then◌else◌,
  Bool-cases, ◌>>=◌, >>=-eq-some, Decimal, exact_hundredths, hundredths,
}
use agentic_etf_advisor.Construction.Candidate.{BySleeve, total_of}
use agentic_etf_advisor.Profile.{InvestorProfile, us_eu_v1}
use agentic_etf_advisor.Profile.RoundTrip.{AdvisoryContract-cases}
use agentic_etf_advisor.Policy.{
  PolicyCalculation, CashFlowAllocation, MinorCashAllocation, PolicyCash, calculate_policy, checked,
  cash_flow_ok, minor_cash_ok, split_cash_flow, split_minor_cash, new_cash, legacy_cash,
}
use agentic_etf_advisor.Policy.Laws.{built}
use agentic_etf_advisor.Policy.Exact.{calculate_policy-built, legacy_is_cash, new_is_cash}
use agentic_etf_advisor.Construction.Targets.{
  CashField, initial_investment, recurring_monthly, reconciled_cents, policy_cash_cents,
}

checked-eq : {A : Type 0} (ok : A → Bool) (a : A) {b : A} → checked ok a ≡ some b → ok b ≡ true
checked-eq ok a {b} h = elim (Bool-cases (ok a)) [
  | inl e ↦
      (let same : a ≡ b = some-injective _ _ (sym (ap (λ t. if t then some a else none) e) ∙ h) in
        sym (ap ok same) ∙ e)
  | inr e ↦ absurd (ground (arith, h, e))
]

-- the flows of either contract, each accepted by its validator
record HasMinor (cash : PolicyCash) : Type 0 where
  initial : MinorCashAllocation
  recurring : MinorCashAllocation
  is_initial : cash.initial_minor ≡ some initial
  is_recurring : cash.recurring_minor ≡ some recurring
  initial_ok : minor_cash_ok initial ≡ true
  recurring_ok : minor_cash_ok recurring ≡ true

record HasUsd (cash : PolicyCash) : Type 0 where
  initial : CashFlowAllocation
  recurring : CashFlowAllocation
  is_initial : cash.initial_usd ≡ some initial
  is_recurring : cash.recurring_usd ≡ some recurring
  initial_ok : cash_flow_ok initial ≡ true
  recurring_ok : cash_flow_ok recurring ≡ true

new_cash-HasMinor :
    (p : InvestorProfile) (pct : Decimal) {cash : PolicyCash}
    → new_cash p pct ≡ some cash
    → HasMinor cash
unfolding new_cash
new_cash-HasMinor p pct h =
    let (currency, a, h1) = >>=-eq-some p.base_currency _ h in
    let (initial, b, h2) = >>=-eq-some p.initial_investment_minor _ h1 in
    let (recurring, c, h3) = >>=-eq-some p.recurring_monthly_minor _ h2 in
    let (s, d, h4) =
      >>=-eq-some (checked minor_cash_ok (split_minor_cash initial currency pct)) _ h3 in
    let (t, e, h5) =
      >>=-eq-some (checked minor_cash_ok (split_minor_cash recurring currency pct)) _ h4 in
    let same = sym (some-injective _ _ h5) in
    record {
      initial = s;
      recurring = t;
      is_initial = ap (λ c. c.initial_minor) same;
      is_recurring = ap (λ c. c.recurring_minor) same;
      initial_ok = checked-eq minor_cash_ok _ d;
      recurring_ok = checked-eq minor_cash_ok _ e;
    }

legacy_cash-HasUsd :
    (p : InvestorProfile) (pct : Decimal) {cash : PolicyCash}
    → legacy_cash p pct ≡ some cash
    → HasUsd cash
unfolding legacy_cash
legacy_cash-HasUsd p pct h =
    let (initial, b, h2) = >>=-eq-some p.initial_investment_usd _ h in
    let (recurring, c, h3) = >>=-eq-some p.recurring_monthly_usd _ h2 in
    let (s, d, h4) = >>=-eq-some (checked cash_flow_ok (split_cash_flow initial pct)) _ h3 in
    let (t, e, h5) = >>=-eq-some (checked cash_flow_ok (split_cash_flow recurring pct)) _ h4 in
    let same = sym (some-injective _ _ h5) in
    record {
      initial = s;
      recurring = t;
      is_initial = ap (λ c. c.initial_usd) same;
      is_recurring = ap (λ c. c.recurring_usd) same;
      initial_ok = checked-eq cash_flow_ok _ d;
      recurring_ok = checked-eq cash_flow_ok _ e;
    }

exact_hundredths-hundredths : (n : ℕ) → exact_hundredths (hundredths n) ≡ some n
unfolding exact_hundredths
exact_hundredths-hundredths n =
    let none_left : n * 100 % 100 ≡ 0 = grind arith in
    let back : n * 100 / 100 ≡ n = grind arith in ground (arith, none_left, back)

-- What is read of a flow that its validator accepted.
module _ (p : InvestorProfile) (cash : PolicyCash) where
  abbrev Reads : CashField → Type 0
  Reads field =
      (by_sleeve : BySleeve) × (total : ℕ) × (policy_cash_cents (built p cash) field
        ≡ some (by_sleeve, total))
      × (total_of by_sleeve ≡ total)

  Reads-minor :
      (m : MinorCashAllocation) (field : CashField)
      → minor_cash_ok m ≡ true
      → policy_cash_cents (built p cash) field
        ≡ reconciled_cents m.total_minor
            (record { growth = m.growth_minor; defensive = m.defensive_minor })
      → Reads field
  unfolding minor_cash_ok reconciled_cents
  Reads-minor m field ok h = (
    record { growth = m.growth_minor; defensive = m.defensive_minor },
    m.total_minor,
    h ∙ ground (arith, ok),
    ground (arith, ok),
  )

  Reads-usd :
      (m : CashFlowAllocation) (field : CashField)
      → cash_flow_ok m ≡ true
      → policy_cash_cents (built p cash) field
        ≡ reconciled_cents m.total_usd
            (record { growth = m.growth_assets_usd; defensive = m.defensive_assets_usd })
      → Reads field
  unfolding cash_flow_ok reconciled_cents
  Reads-usd m field ok h = (
    record { growth = m.growth_assets_usd; defensive = m.defensive_assets_usd },
    m.total_usd,
    h ∙ ground (arith, ok),
    ground (arith, ok),
  )

  Reads-new :
      p.advisory_contract ≡ some us_eu_v1 → HasMinor cash → (field : CashField) → Reads field
  unfolding policy_cash_cents
  Reads-new new m initial_investment =
      Reads-minor m.initial initial_investment m.initial_ok (rw (new, m.is_initial) refl)
  Reads-new new m recurring_monthly =
      Reads-minor m.recurring recurring_monthly m.recurring_ok (rw (new, m.is_recurring) refl)

  usd_cents :
      (m : CashFlowAllocation)
      → (do
        total ← exact_hundredths (hundredths m.total_usd)
        growth ← exact_hundredths (hundredths m.growth_assets_usd)
        defensive ← exact_hundredths (hundredths m.defensive_assets_usd)
        reconciled_cents total (record { growth = growth; defensive = defensive }))
        ≡ reconciled_cents m.total_usd
            (record { growth = m.growth_assets_usd; defensive = m.defensive_assets_usd })
  usd_cents m =
      rw
        (
          exact_hundredths-hundredths m.total_usd,
          exact_hundredths-hundredths m.growth_assets_usd,
          exact_hundredths-hundredths m.defensive_assets_usd,
        )
        refl

  Reads-legacy : p.advisory_contract ≡ none → HasUsd cash → (field : CashField) → Reads field
  unfolding policy_cash_cents
  Reads-legacy legacy m initial_investment =
      Reads-usd m.initial initial_investment m.initial_ok
        (rw (legacy, m.is_initial) (usd_cents m.initial))
  Reads-legacy legacy m recurring_monthly =
      Reads-usd m.recurring recurring_monthly m.recurring_ok
        (rw (legacy, m.is_recurring) (usd_cents m.recurring))

-- Of a calculated policy, both cash flows are read without an error, and the cash of the two sleeves
-- is the total.
pub policy_cash_cents_total :
    (p : InvestorProfile) {c : PolicyCalculation} (field : CashField)
    → calculate_policy p ≡ some c
    → (by_sleeve : BySleeve) × (total : ℕ) × (policy_cash_cents c field ≡ some (by_sleeve, total))
      × (total_of by_sleeve ≡ total)
policy_cash_cents_total p field h =
    let (cash, e, same) = calculate_policy-built p h in
    rw same (elim (AdvisoryContract-cases p.advisory_contract) [
      | inl legacy ↦
          Reads-legacy p cash legacy (legacy_cash-HasUsd p _ (sym (legacy_is_cash p legacy) ∙ e))
            field
      | inr new ↦ Reads-new p cash new (new_cash-HasMinor p _ (sym (new_is_cash p new) ∙ e)) field
    ])
