-- ===== src/Profile/RoundTrip.antt =====
-- Reading back what was serialized.
use mathlib.Core.Option.{some-injective}
use agentic_etf_advisor.Prelude.{
  ℕ, String, ◌≡◌, refl, ap, ◌∙◌, ◌⊎◌, inl, inr, true, false, Option, none, some, List, arith,
  if◌then◌else◌, is_some, ℤ, pos, negsuc, Decimal, whole, leb_dec,
}
use agentic_etf_advisor.Profile.{
  RiskTolerance, conservative, moderate, aggressive, InvestmentObjective, income, balanced, growth,
  AdvisoryContract, us_eu_v1, IdentityContract, curator_fund_v1, Currency, usd, eur, Entry, absent,
  null, given, Signed, ProfileInput, InvestorProfile, reject_mixed_money, risk_of, objective_of,
  optional, advisory_of, identity_of, currency_of, cash_of, minor_of, drawdown_of, horizon_of,
  recurring_of, sectors_of, validate_money, model_validate, risk_text, objective_text,
  currency_text, model_dump, kept, popped_none,
}
use agentic_etf_advisor.Profile.Read.{IsRead, model_validate-IsRead, IsRead-model_validate}

horizon_of_again : (v : ℤ) (h : ℕ) → horizon_of v ≡ some h → horizon_of (pos h) ≡ some h
unfolding horizon_of
horizon_of_again (pos n) h e = ground arith
horizon_of_again (negsuc n) h e = cc

minor_of_again : (v : ℤ) (h : ℕ) → minor_of v ≡ some h → minor_of (pos h) ≡ some h
unfolding minor_of
minor_of_again (pos n) h e = ground arith
minor_of_again (negsuc n) h e = cc

abbrev unsigned : Decimal → Signed
unsigned d = record { negative = false; magnitude = d }

cash_of_again : (v : Signed) (d : Decimal) → cash_of v ≡ some d → cash_of (unsigned d) ≡ some d
unfolding cash_of
cash_of_again v d e = ground arith

drawdown_of_again :
    (v : Signed) (d : Decimal) → drawdown_of v ≡ some d → drawdown_of (unsigned d) ≡ some d
unfolding drawdown_of
drawdown_of_again v d e = ground arith

risk_of_again : (r : RiskTolerance) → risk_of (risk_text r) ≡ some r
unfolding risk_of risk_text
risk_of_again conservative = refl
risk_of_again moderate = refl
risk_of_again aggressive = refl

objective_of_again : (o : InvestmentObjective) → objective_of (objective_text o) ≡ some o
unfolding objective_of objective_text
objective_of_again income = refl
objective_of_again balanced = refl
objective_of_again growth = refl

currency_of_again : (c : Currency) → currency_of (currency_text c) ≡ some c
unfolding currency_of currency_text
currency_of_again usd = refl
currency_of_again eur = refl

-- What the fields of a validated profile have to do with each other.
pub record IsCoherent (p : InvestorProfile) : Type 0 where
  pub curator_is_new : p.advisory_contract ≡ none → p.identity_contract ≡ none
  pub legacy_currency : p.advisory_contract ≡ none → p.base_currency ≡ none
  pub legacy_initial : p.advisory_contract ≡ none → p.initial_investment_minor ≡ none
  pub legacy_recurring : p.advisory_contract ≡ none → p.recurring_monthly_minor ≡ none
  pub legacy_request : p.advisory_contract ≡ none → p.catalogue_request ≡ none
  pub new_initial : p.advisory_contract ≡ some us_eu_v1 → p.initial_investment_usd ≡ none
  pub new_recurring : p.advisory_contract ≡ some us_eu_v1 → p.recurring_monthly_usd ≡ some (whole 0)

IsRead-IsCoherent : (value : ProfileInput) (p : InvestorProfile) → IsRead value p → IsCoherent p
unfolding reject_mixed_money advisory_of identity_of validate_money
IsRead-IsCoherent value p r = record {
  curator_is_new = λ e. ground (arith, r.mixed, r.advisory, r.identity);
  legacy_currency = λ e. ground (arith, r.mixed, r.advisory, r.currency);
  legacy_initial = λ e. ground (arith, r.mixed, r.advisory, r.initial_minor);
  legacy_recurring = λ e. ground (arith, r.mixed, r.advisory, r.recurring_minor);
  legacy_request = λ e. ground (arith, r.money);
  new_initial = λ e. ground (arith, r.money);
  new_recurring = λ e. ground (arith, r.mixed, r.advisory, r.recurring);
}

pub AdvisoryContract-cases : (o : Option AdvisoryContract) → (o ≡ none) ⊎ (o ≡ some us_eu_v1)
AdvisoryContract-cases none = inl refl
AdvisoryContract-cases (some us_eu_v1) = inr refl

cash_again :
    (e : Entry Signed) (o : Option Decimal) (d : Decimal)
    → optional cash_of e ≡ some o
    → o ≡ some d
    → cash_of (unsigned d) ≡ some d
cash_again absent o d h k = cc
cash_again null o d h k = cc
cash_again (given v) o d h k = cash_of_again v d (ground arith)

recurring_again :
    (e : Entry Signed) (o : Option Decimal) (d : Decimal)
    → recurring_of e ≡ some o
    → o ≡ some d
    → cash_of (unsigned d) ≡ some d
unfolding cash_of leb_dec
recurring_again absent o d h k =
    let e : whole 0 ≡ d = some-injective _ _ (some-injective _ _ (h ∙ ap some k)) in rw (← e) refl
recurring_again null o d h k = cc
recurring_again (given v) o d h k = cash_of_again v d (ground arith)

minor_again :
    (e : Entry ℤ) (o : Option ℕ) (n : ℕ)
    → optional minor_of e ≡ some o
    → o ≡ some n
    → minor_of (pos n) ≡ some n
minor_again absent o d h k = cc
minor_again null o d h k = cc
minor_again (given v) o n h k = minor_of_again v n (ground arith)

sectors_of_again : (xs ys : List String) → sectors_of xs ≡ some ys → sectors_of ys ≡ some ys
sectors_of_again xs ys h = ground arith

-- A field of the new contract: serialized under the marker, and absent without it.
new_field :
    {A B : Type 0} (read : B → Option A) (write : A → B) (a : Option AdvisoryContract)
    (o : Option A)
    → (a ≡ none → o ≡ none)
    → ((x : A) → o ≡ some x → read (write x) ≡ some x)
    → optional read (if is_some a then kept write o else absent) ≡ some o
new_field read write none o e h = cc (e refl)
new_field read write (some a) none e h = refl
new_field read write (some a) (some x) e h = rw (h x refl)

-- The same for a field whose None is left out.
popped_field :
    {A B : Type 0} (read : B → Option A) (write : A → B) (o : Option A)
    → ((x : A) → read (write x) ≡ some x)
    → optional read (popped_none write o) ≡ some o
popped_field read write none h = refl
popped_field read write (some x) h = rw h

new_popped_field :
    {A B : Type 0} (read : B → Option A) (write : A → B) (a : Option AdvisoryContract)
    (o : Option A)
    → (a ≡ none → o ≡ none)
    → ((x : A) → read (write x) ≡ some x)
    → optional read (if is_some a then popped_none write o else absent) ≡ some o
new_popped_field read write none o e h = cc (e refl)
new_popped_field read write (some a) o e h = popped_field read write o h

-- A field of the legacy contract, and `recurring_monthly_usd` with its default.
legacy_field :
    {A B : Type 0} (read : B → Option A) (write : A → B) (a : Option AdvisoryContract)
    (o : Option A)
    → (a ≡ some us_eu_v1 → o ≡ none)
    → ((x : A) → o ≡ some x → read (write x) ≡ some x)
    → optional read (if is_some a then absent else kept write o) ≡ some o
legacy_field read write none none e h = refl
legacy_field read write none (some x) e h = rw (h x refl)
legacy_field read write (some us_eu_v1) o e h = cc (e refl)

recurring_field :
    (a : Option AdvisoryContract) (o : Option Decimal)
    → (a ≡ some us_eu_v1 → o ≡ some (whole 0))
    → ((x : Decimal) → o ≡ some x → cash_of (unsigned x) ≡ some x)
    → recurring_of (if is_some a then absent else kept unsigned o) ≡ some o
recurring_field none none e h = refl
recurring_field none (some x) e h = rw (h x refl)
recurring_field (some us_eu_v1) o e h = cc (e refl)

advisory_field :
    (a : Option AdvisoryContract)
    → optional advisory_of (if is_some a then given "us-eu-v1" else absent) ≡ some a
unfolding advisory_of
advisory_field none = refl
advisory_field (some us_eu_v1) = refl

identity_of_again : (i : IdentityContract) → identity_of "curator-fund-v1" ≡ some i
unfolding identity_of
identity_of_again curator_fund_v1 = refl

-- `reject_mixed_money` on what `serialize_profile` writes.
dump_mixed : (p : InvestorProfile) → IsCoherent p → reject_mixed_money (model_dump p) ≡ true
unfolding reject_mixed_money model_dump
dump_mixed p c = elim (AdvisoryContract-cases p.advisory_contract) [
  | inl legacy ↦
      (let e = c.curator_is_new legacy in let e' = c.legacy_request legacy in ground arith)
  | inr new ↦ ground arith
]

module _ (value : ProfileInput) (p : InvestorProfile) (r : IsRead value p) where
  dump_IsRead : IsRead (model_dump p) p
  unfolding model_dump
  dump_IsRead =
      let c = IsRead-IsCoherent value p r in
      record {
        mixed = dump_mixed p c;
        horizon = horizon_of_again _ _ r.horizon;
        risk = risk_of_again _;
        goal = objective_of_again _;
        drawdown = drawdown_of_again _ _ r.drawdown;
        advisory = advisory_field _;
        identity = popped_field identity_of _ _ identity_of_again;
        currency =
            new_field currency_of currency_text _ _ c.legacy_currency (λ x e. currency_of_again x);
        initial =
            legacy_field cash_of unsigned _ _ c.new_initial
              (λ x e. cash_again value.initial_investment_usd _ x r.initial e);
        recurring =
            recurring_field _ _ c.new_recurring
              (λ x e. recurring_again value.recurring_monthly_usd _ x r.recurring e);
        initial_minor =
            new_field minor_of pos _ _ c.legacy_initial
              (λ x e. minor_again value.initial_investment_minor _ x r.initial_minor e);
        recurring_minor =
            new_field minor_of pos _ _ c.legacy_recurring
              (λ x e. minor_again value.recurring_monthly_minor _ x r.recurring_minor e);
        sectors = sectors_of_again _ _ r.sectors;
        request = new_popped_field some (λ x. x) _ _ c.legacy_request (λ x. refl);
        money = r.money;
      }

-- A validated profile that is serialized and validated again is the same profile.
pub model_validate-model_dump :
    (value : ProfileInput) {p : InvestorProfile}
    → model_validate value ≡ some p
    → model_validate (model_dump p) ≡ some p
model_validate-model_dump value {p} h =
    IsRead-model_validate (model_dump p) (dump_IsRead value p (model_validate-IsRead value h))
