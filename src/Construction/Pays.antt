-- ===== src/Construction/Pays.antt =====
-- The cash of a calculated policy over a selected subset: the allocation never raises.
mod Tests
use agentic_etf_advisor.Prelude.{
  ℕ, zero, suc, ◌+◌, ◌-◌, ◌*◌, ◌/◌, ◌%◌, ◌^◌, ◌≤◌, ◌<◌, min, String, ◌≡◌, refl, sym, ap, ◌∙◌, ◌≢◌,
  ◌↔◌, ◌⊎◌, inl, inr, Bool, true, false, not, ◌&&◌, ◌||◌, Option, none, some, List, [], ◌∷◌, ◌++◌,
  map, arith, str_eq, str_eq_iff, ltb, leb, ◌==◌, if◌then◌else◌, is_some, is_none, Bool-cases,
  Option-cases, leb→le, le→leb, ltb→lt, sum, length, ◌>>=◌, >>=-eq-some, get_or, set, take,
  replicate, all, All, In, half_up, half_up_bounds, half_up_unique, half_up_round_trip,
  half_up_mono, ℤ, pos, negsuc, Decimal, whole, leb_dec, eqb_dec, exact_hundredths,
  rounded_hundredths, hundredths,
}
use mathlib.Core.Option.{some-injective}
use agentic_etf_advisor.Construction.Candidate.{
  Sleeve, growth, defensive, ◌==ₛ◌, EligibleCandidate, BySleeve, at, total_of, ConstructionReason,
  PortfolioConstructionPolicy,
}
use agentic_etf_advisor.Construction.Fill.{indexes, sleeve_sum, snoc, length-snoc}
use agentic_etf_advisor.Construction.Weights.{
  equal_sleeve_weights, covers, length-equal_sleeve_weights, sleeve_sum-equal_sleeve_weights,
}
use agentic_etf_advisor.Construction.Cash.{weight_at, in_range, allocate_all_cash}
use agentic_etf_advisor.Construction.Cash.Laws.{
  IsPayable, allocate_all_cash_exact, allocate_all_cash_total,
}
use agentic_etf_advisor.Construction.Select.{select_subset}
use agentic_etf_advisor.Construction.Select.Laws.{IsFeasible, IsCandidate, select_subset_sound}
use agentic_etf_advisor.Profile.{InvestorProfile}
use agentic_etf_advisor.Policy.{PolicyCalculation, calculate_policy}
use agentic_etf_advisor.Construction.Targets.{CashField, target_basis_points, policy_cash_cents}
use agentic_etf_advisor.Construction.Calculated.{IsWhole, target_basis_points-IsWhole}
use agentic_etf_advisor.Construction.ReadCash.{policy_cash_cents_total}

get_or-append : (pre ws : List ℕ) (w : ℕ) → get_or (pre ++ w ∷ ws) (length pre) 0 ≡ w
get_or-append [] ws w = refl
get_or-append (p ∷ pre) ws w = get_or-append pre ws w

-- The weights read through the indexes of a sleeve add up to the sum of the sleeve.
weight_at-indexes :
    (s : Sleeve) (items : List EligibleCandidate) (pre ws : List ℕ)
    → length ws ≡ length items
    → weight_at (pre ++ ws) (indexes s (length pre) items) ≡ sleeve_sum s items ws
unfolding weight_at indexes sleeve_sum
weight_at-indexes s [] pre ws h = refl
weight_at-indexes s (item ∷ items) pre [] h = absurd (omega arith)
weight_at-indexes s (item ∷ items) pre (w ∷ ws) h =
    let ih : weight_at (pre ++ w ∷ ws) (indexes s (suc (length pre)) items)
        ≡ sleeve_sum s items ws =
      rw (← snoc pre w ws, ← length-snoc pre w)
        (weight_at-indexes s items (pre ++ w ∷ []) ws (omega arith)) in
    elim (Bool-cases (item.sleeve ==ₛ s)) [
      | inl e ↦ rw (e, get_or-append pre ws w) (ap (λ n. w + n) ih)
      | inr e ↦ rw e (ih ∙ omega arith)
    ]

IsPayable-of :
    (total : ℕ) (is ws : List ℕ)
    → in_range ws is ≡ true
    → 0 < weight_at ws is
    → IsPayable total is ws
unfolding weight_at
IsPayable-of total [] ws r h = absurd (omega arith)
IsPayable-of total (i ∷ is) ws r h = (r, h)

-- The indexes of a sleeve are in range of as many weights as there are positions.
in_range-indexes :
    (s : Sleeve) (k : ℕ) (items : List EligibleCandidate) (ws : List ℕ)
    → k + length items ≤ length ws
    → in_range ws (indexes s k items) ≡ true
unfolding in_range indexes
in_range-indexes s k [] ws h = refl
in_range-indexes s k (item ∷ items) ws h =
    let rest = in_range-indexes s (suc k) items ws (omega arith) in
    elim (Bool-cases (item.sleeve ==ₛ s)) [
      | inl e ↦ rw e (ground (arith, rest, h))
      | inr e ↦ rw e rest
    ]

module _ (subset : List EligibleCandidate) (targets : BySleeve) where
  sleeve-IsPayable :
      (s : Sleeve) (total : ℕ)
      → 0 < at targets s
      → covers s subset ≡ true
      → IsPayable total (indexes s 0 subset) (equal_sleeve_weights subset targets)
  sleeve-IsPayable s total used c =
      let ws = equal_sleeve_weights subset targets in
      let a = weight_at-indexes s subset [] ws (length-equal_sleeve_weights subset targets) in
      let b = sleeve_sum-equal_sleeve_weights subset targets s c in
      IsPayable-of total (indexes s 0 subset) ws
        (in_range-indexes s 0 subset ws (omega (arith, length-equal_sleeve_weights subset targets)))
        (omega (arith, a, b, used))

found_precision :
    (c : PolicyCalculation) (policy : PortfolioConstructionPolicy) {targets : BySleeve}
    → target_basis_points c policy ≡ inl targets
    → policy.weight_precision_bps ≡ 1
unfolding target_basis_points
found_precision c policy h = ground arith

-- For a calculated policy, its targets in basis points, a subset selected for these targets and either
-- cash flow of the policy, the allocation of the cash does not raise, and it gives out the total.
pub allocate_all_cash-calculated :
    (p : InvestorProfile) {c : PolicyCalculation} (policy : PortfolioConstructionPolicy)
    (eligible : List EligibleCandidate) {subset : List EligibleCandidate} {weights : List ℕ}
    {reason : ConstructionReason} {targets cash : BySleeve} {total : ℕ} (field : CashField)
    → calculate_policy p ≡ some c
    → target_basis_points c policy ≡ inl targets
    → select_subset eligible targets policy ≡ (some (subset, weights), reason)
    → policy_cash_cents c field ≡ some (cash, total)
    → (amounts : List ℕ) × (allocate_all_cash subset weights cash ≡ some amounts)
      × (sum amounts ≡ total)
allocate_all_cash-calculated p {c} policy eligible {subset} {weights} {targets = targets}
      {cash = cash} {total = total} field h t s r =
    let (whole_targets, found, whole) =
      target_basis_points-IsWhole p policy h (found_precision c policy t) in
    let same : whole_targets ≡ targets = ground (arith, t, found) in
    let (chosen, even, best) = select_subset_sound eligible targets policy s in
    let covers_of = chosen.feasible.covers_targets in
    let g : 0 < targets.growth = omega (arith, whole.growth_used, ap (λ b. b.growth) same) in
    let d : 0 < targets.defensive =
      omega (arith, whole.defensive_used, ap (λ b. b.defensive) same) in
    let ws : List ℕ = equal_sleeve_weights subset targets in
    let pay : IsPayable cash.growth (indexes growth 0 subset) ws
        × IsPayable cash.defensive (indexes defensive 0 subset) ws =
      (
        sleeve-IsPayable subset targets growth cash.growth g (covers_of growth g),
        sleeve-IsPayable subset targets defensive cash.defensive d (covers_of defensive d),
      ) in
    let (amounts, paid) = (allocate_all_cash_total subset ws cash).1 pay in
    let (n, a, b, all_paid) = allocate_all_cash_exact subset ws cash paid in
    let (cash', total', read, reconciles) = policy_cash_cents_total p field h in
    let pair : (cash', total') ≡ (cash, total) = some-injective _ _ (sym read ∙ r) in
    (
      amounts,
      rw even paid,
      all_paid ∙ sym (ap (λ x. total_of x.0) pair) ∙ reconciles ∙ ap (λ x. x.1) pair,
    )
