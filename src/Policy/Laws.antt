-- ===== src/Policy/Laws.antt =====
-- The calculated policy: when there is one, and what it guarantees.
use agentic_etf_advisor.Prelude.{
  ℕ, ◌≡◌, refl, ◌∙◌, ◌⊎◌, ◌↔◌, inl, inr, true, Option, none, some, arith, if◌then◌else◌, is_some,
  Option-cases, ◌>>=◌, Decimal,
}
use agentic_etf_advisor.Profile.{
  us_eu_v1, Currency, usd, eur, ProfileInput, InvestorProfile, validate_money, model_validate,
}
use agentic_etf_advisor.Profile.Read.{model_validate-IsRead}
use agentic_etf_advisor.Profile.RoundTrip.{AdvisoryContract-cases}
use agentic_etf_advisor.Policy.{
  policy_bands, PolicyCalculation, currency_eqb, money_ok, validate_target_within_bands,
  split_cash_flow, split_minor_cash, checked, PolicyCash, new_cash, legacy_cash, calculate_policy,
}
use agentic_etf_advisor.Policy.Target.{
  target_pct, target_of, growth_band, target_ok-target_of, inside_growth, inside_defensive,
  minor_cash_ok-split, cash_flow_ok-split,
}

-- What `calculate_policy` builds from the two cash flows.
abbrev pub built : InvestorProfile → PolicyCash → PolicyCalculation
built p cash = record {
  risk_tolerance = p.risk_tolerance;
  objective = p.objective;
  horizon_years = p.horizon_years;
  max_drawdown_pct = p.max_drawdown_pct;
  excluded_sectors = p.excluded_sectors;
  allocation_bands = policy_bands p.risk_tolerance;
  target_allocation = target_of p.risk_tolerance p.objective;
  advisory_contract = p.advisory_contract;
  identity_contract = p.identity_contract;
  base_currency = (if is_some p.advisory_contract then p.base_currency else none);
  initial_investment_usd = cash.initial_usd;
  recurring_monthly_usd = cash.recurring_usd;
  initial_investment = cash.initial_minor;
  recurring_monthly = cash.recurring_minor;
}

abbrev pub cash_of_profile : InvestorProfile → Option PolicyCash
cash_of_profile p =
    if is_some p.advisory_contract
    then new_cash p (target_pct p.risk_tolerance p.objective)
    else legacy_cash p (target_pct p.risk_tolerance p.objective)

pub calculate_policy-eq :
    (p : InvestorProfile)
    → calculate_policy p
      ≡ (cash_of_profile p >>= λ cash. checked validate_target_within_bands (built p cash))
unfolding calculate_policy
calculate_policy-eq p =
    rw (growth_band p.risk_tolerance, target_ok-target_of p.risk_tolerance p.objective)

-- The calculated policy of a profile of the new contract, and of a legacy profile.
pub record IsNewPolicy (p : InvestorProfile) : Type 0 where
  pub currency : Currency
  pub initial : ℕ
  pub recurring : ℕ
  pub has_currency : p.base_currency ≡ some currency
  pub has_initial : p.initial_investment_minor ≡ some initial
  pub has_recurring : p.recurring_monthly_minor ≡ some recurring

record IsLegacyPolicy (p : InvestorProfile) : Type 0 where
  initial : Decimal
  recurring : Decimal
  has_initial : p.initial_investment_usd ≡ some initial
  has_recurring : p.recurring_monthly_usd ≡ some recurring

abbrev pub new_flows : (p : InvestorProfile) → IsNewPolicy p → PolicyCash
new_flows p n =
    let pct : Decimal = target_pct p.risk_tolerance p.objective in
    record {
      initial_usd = none;
      recurring_usd = none;
      initial_minor = some (split_minor_cash n.initial n.currency pct);
      recurring_minor = some (split_minor_cash n.recurring n.currency pct);
    }

abbrev legacy_flows : (p : InvestorProfile) → IsLegacyPolicy p → PolicyCash
legacy_flows p l =
    let pct : Decimal = target_pct p.risk_tolerance p.objective in
    record {
      initial_usd = some (split_cash_flow l.initial pct);
      recurring_usd = some (split_cash_flow l.recurring pct);
      initial_minor = none;
      recurring_minor = none;
    }

pub new_cash-eq :
    (p : InvestorProfile) (n : IsNewPolicy p)
    → new_cash p (target_pct p.risk_tolerance p.objective) ≡ some (new_flows p n)
unfolding new_cash
new_cash-eq p n =
    let r = p.risk_tolerance in
    let o = p.objective in
    ground (
      arith,
      n.has_currency,
      n.has_initial,
      n.has_recurring,
      minor_cash_ok-split r o n.initial n.currency,
      minor_cash_ok-split r o n.recurring n.currency,
    )

legacy_cash-eq :
    (p : InvestorProfile) (l : IsLegacyPolicy p)
    → legacy_cash p (target_pct p.risk_tolerance p.objective) ≡ some (legacy_flows p l)
unfolding legacy_cash
legacy_cash-eq p l =
    let r = p.risk_tolerance in
    let o = p.objective in
    ground (
      arith,
      l.has_initial,
      l.has_recurring,
      cash_flow_ok-split r o l.initial,
      cash_flow_ok-split r o l.recurring,
    )

currency_eqb_refl : (c : Currency) → currency_eqb c c ≡ true
unfolding currency_eqb
currency_eqb_refl usd = refl
currency_eqb_refl eur = refl

money_new :
    (p : InvestorProfile) (n : IsNewPolicy p)
    → p.advisory_contract ≡ some us_eu_v1
    → money_ok (built p (new_flows p n)) ≡ true
unfolding money_ok split_minor_cash
money_new p n e = ground (arith, e, n.has_currency, currency_eqb_refl n.currency)

money_legacy :
    (p : InvestorProfile) (l : IsLegacyPolicy p)
    → p.advisory_contract ≡ none
    → money_ok (built p (legacy_flows p l)) ≡ true
unfolding money_ok
money_legacy p l e = ground (arith, e)

valid_new :
    (p : InvestorProfile) (n : IsNewPolicy p)
    → p.advisory_contract ≡ some us_eu_v1
    → validate_target_within_bands (built p (new_flows p n)) ≡ true
unfolding validate_target_within_bands
valid_new p n e =
    rw (inside_growth p.risk_tolerance p.objective, inside_defensive p.risk_tolerance p.objective)
      (money_new p n e)

valid_legacy :
    (p : InvestorProfile) (l : IsLegacyPolicy p)
    → p.advisory_contract ≡ none
    → validate_target_within_bands (built p (legacy_flows p l)) ≡ true
unfolding validate_target_within_bands
valid_legacy p l e =
    rw (inside_growth p.risk_tolerance p.objective, inside_defensive p.risk_tolerance p.objective)
      (money_legacy p l e)

calculated_new :
    (p : InvestorProfile) (n : IsNewPolicy p)
    → p.advisory_contract ≡ some us_eu_v1
    → calculate_policy p ≡ some (built p (new_flows p n))
calculated_new p n e = calculate_policy-eq p ∙ ground (arith, e, new_cash-eq p n, valid_new p n e)

calculated_legacy :
    (p : InvestorProfile) (l : IsLegacyPolicy p)
    → p.advisory_contract ≡ none
    → calculate_policy p ≡ some (built p (legacy_flows p l))
calculated_legacy p l e =
    calculate_policy-eq p ∙ ground (arith, e, legacy_cash-eq p l, valid_legacy p l e)

new_amounts :
    (p : InvestorProfile)
    → validate_money p ≡ some p
    → p.advisory_contract ≡ some us_eu_v1
    → IsNewPolicy p
unfolding validate_money
new_amounts p h e = elim (Option-cases p.base_currency) [
  | inl missing ↦ absurd (ground arith)
  | inr (currency, c) ↦ elim (Option-cases p.initial_investment_minor) [
    | inl missing ↦ absurd (ground arith)
    | inr (initial, i) ↦ elim (Option-cases p.recurring_monthly_minor) [
      | inl missing ↦ absurd (ground arith)
      | inr (recurring, r) ↦ record {
        currency = currency;
        initial = initial;
        recurring = recurring;
        has_currency = c;
        has_initial = i;
        has_recurring = r;
      }
    ]
  ]
]

legacy_amounts :
    (p : InvestorProfile)
    → validate_money p ≡ some p
    → p.advisory_contract ≡ none
    → ((p.advisory_contract ≡ none) × IsLegacyPolicy p)
      ⊎ ((p.advisory_contract ≡ none) × (p.recurring_monthly_usd ≡ none))
unfolding validate_money
legacy_amounts p h e = elim (Option-cases p.initial_investment_usd) [
  | inl missing ↦ absurd (ground arith)
  | inr (initial, i) ↦ elim (Option-cases p.recurring_monthly_usd) [
    | inl missing ↦ inr (e, missing)
    | inr (recurring, r) ↦
        inl (
          e,
          record { initial = initial; recurring = recurring; has_initial = i; has_recurring = r },
        )
  ]
]

-- A validated profile of either contract has the amounts that its policy needs, but for a legacy
-- profile whose recurring amount is None.
profile_flows :
    (p : InvestorProfile)
    → validate_money p ≡ some p
    → ((p.advisory_contract ≡ some us_eu_v1) × IsNewPolicy p)
      ⊎ ((p.advisory_contract ≡ none) × IsLegacyPolicy p)
      ⊎ ((p.advisory_contract ≡ none) × (p.recurring_monthly_usd ≡ none))
profile_flows p h = elim (AdvisoryContract-cases p.advisory_contract) [
  | inl legacy ↦ inr (legacy_amounts p h legacy)
  | inr new ↦ inl (new, new_amounts p h new)
]

calculated_missing :
    (p : InvestorProfile)
    → p.advisory_contract ≡ none
    → p.recurring_monthly_usd ≡ none
    → calculate_policy p ≡ none
unfolding legacy_cash
calculated_missing p e m = calculate_policy-eq p ∙ elim (Option-cases p.initial_investment_usd) [
  | inl i ↦ ground (arith, e, i)
  | inr (initial, i) ↦ ground (arith, e, i, m)
]

-- The calculation raises for a validated profile exactly where it is a legacy profile whose recurring
-- amount is None; every other validated profile has a policy.
pub calculate_policy_total :
    (value : ProfileInput) (p : InvestorProfile)
    → model_validate value ≡ some p
    → ((calculate_policy p ≡ none)
        ↔ ((p.advisory_contract ≡ none) × (p.recurring_monthly_usd ≡ none)))
      × (((c : PolicyCalculation) × (calculate_policy p ≡ some c)) ⊎ (calculate_policy p ≡ none))
calculate_policy_total value p h =
    let missing : (p.advisory_contract ≡ none) × (p.recurring_monthly_usd ≡ none)
        → calculate_policy p ≡ none =
      λ (legacy, none_given). calculated_missing p legacy none_given in
    elim (profile_flows p (model_validate-IsRead value h).money) [
      | inl (new, n) ↦
          (let made = calculated_new p n new in
            ((λ e. absurd (ground (arith, e, made)), missing), inl (built p (new_flows p n), made)))
      | inr (inl (legacy, l)) ↦
          (let made = calculated_legacy p l legacy in
            (
              (λ e. absurd (ground (arith, e, made)), missing),
              inl (built p (legacy_flows p l), made),
            ))
      | inr (inr (legacy, none_given)) ↦
          ((λ e. (legacy, none_given), missing), inr (calculated_missing p legacy none_given))
    ]
