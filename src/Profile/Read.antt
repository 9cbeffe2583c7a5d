-- ===== src/Profile/Read.antt =====
-- A validated profile, field by field: each step of `InvestorProfile.model_validate` has succeeded.
use mathlib.Core.Path.{subst}
use agentic_etf_advisor.Prelude.{
  ◌≡◌, refl, sym, ap, ◌∙◌, Bool, true, false, not, Option, none, some, arith, if◌then◌else◌,
  >>=-eq-some,
}
use agentic_etf_advisor.Profile.{
  ProfileInput, InvestorProfile, reject_mixed_money, risk_of, objective_of, optional, advisory_of,
  identity_of, currency_of, cash_of, minor_of, drawdown_of, horizon_of, recurring_of, sectors_of,
  validate_money, model_validate,
}

pub record IsRead (value : ProfileInput) (p : InvestorProfile) : Type 0 where
  pub mixed : reject_mixed_money value ≡ true
  pub horizon : horizon_of value.horizon_years ≡ some p.horizon_years
  pub risk : risk_of value.risk_tolerance ≡ some p.risk_tolerance
  pub goal : objective_of value.objective ≡ some p.objective
  pub drawdown : drawdown_of value.max_drawdown_pct ≡ some p.max_drawdown_pct
  pub advisory : optional advisory_of value.advisory_contract ≡ some p.advisory_contract
  pub identity : optional identity_of value.identity_contract ≡ some p.identity_contract
  pub currency : optional currency_of value.base_currency ≡ some p.base_currency
  pub initial : optional cash_of value.initial_investment_usd ≡ some p.initial_investment_usd
  pub recurring : recurring_of value.recurring_monthly_usd ≡ some p.recurring_monthly_usd
  pub initial_minor :
      optional minor_of value.initial_investment_minor ≡ some p.initial_investment_minor
  pub recurring_minor :
      optional minor_of value.recurring_monthly_minor ≡ some p.recurring_monthly_minor
  pub sectors : sectors_of value.excluded_sectors ≡ some p.excluded_sectors
  pub request : optional some value.catalogue_request ≡ some p.catalogue_request
  pub money : validate_money p ≡ some p

validate_money-eq : (q : InvestorProfile) {p : InvestorProfile} → validate_money q ≡ some p → q ≡ p
unfolding validate_money
validate_money-eq q h = ground arith

if-true {ℓ} :
    {A : Type ℓ} (b : Bool) (m : Option A) {a : A}
    → (if not b then none else m) ≡ some a
    → (b ≡ true) × (m ≡ some a)
if-true true m h = (refl, h)
if-true false m h = absurd (cc)

pub model_validate-IsRead :
    (value : ProfileInput) {p : InvestorProfile} → model_validate value ≡ some p → IsRead value p
unfolding model_validate
model_validate-IsRead value {p} h0 =
    let (mixed, h1) = if-true (reject_mixed_money value) _ h0 in
    let (horizon, e1, h2) = >>=-eq-some (horizon_of value.horizon_years) _ h1 in
    let (risk, e2, h3) = >>=-eq-some (risk_of value.risk_tolerance) _ h2 in
    let (goal, e3, h4) = >>=-eq-some (objective_of value.objective) _ h3 in
    let (drawdown, e4, h5) = >>=-eq-some (drawdown_of value.max_drawdown_pct) _ h4 in
    let (advisory, e5, h6) = >>=-eq-some (optional advisory_of value.advisory_contract) _ h5 in
    let (identity, e6, h7) = >>=-eq-some (optional identity_of value.identity_contract) _ h6 in
    let (currency, e7, h8) = >>=-eq-some (optional currency_of value.base_currency) _ h7 in
    let (initial, e8, h9) = >>=-eq-some (optional cash_of value.initial_investment_usd) _ h8 in
    let (recurring, e9, h10) = >>=-eq-some (recurring_of value.recurring_monthly_usd) _ h9 in
    let (initial_minor, e10, h11) =
      >>=-eq-some (optional minor_of value.initial_investment_minor) _ h10 in
    let (recurring_minor, e11, h12) =
      >>=-eq-some (optional minor_of value.recurring_monthly_minor) _ h11 in
    let (sectors, e12, h13) = >>=-eq-some (sectors_of value.excluded_sectors) _ h12 in
    let (request, e13, h14) = >>=-eq-some (optional some value.catalogue_request) _ h13 in
    let e = validate_money-eq _ h14 in
    subst (IsRead value) e (record {
      mixed = mixed;
      horizon = e1;
      risk = e2;
      goal = e3;
      drawdown = e4;
      advisory = e5;
      identity = e6;
      currency = e7;
      initial = e8;
      recurring = e9;
      initial_minor = e10;
      recurring_minor = e11;
      sectors = e12;
      request = e13;
      money = h14 ∙ ap some (sym e);
    })

pub IsRead-model_validate :
    (value : ProfileInput) {p : InvestorProfile} → IsRead value p → model_validate value ≡ some p
unfolding model_validate
IsRead-model_validate value r = rw (
  r.mixed, r.horizon, r.risk, r.goal, r.drawdown, r.advisory, r.identity, r.currency, r.initial,
  r.recurring, r.initial_minor, r.recurring_minor, r.sectors, r.request, r.money,
)
