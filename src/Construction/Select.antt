-- ===== src/Construction/Select.antt =====
-- `_select_subset` of src/etf_advisor/domain/construction.py: the search for the first admissible
-- subset, the largest sizes first.
pub mod Categories
pub mod Subsets
pub mod Search
pub mod Laws
use agentic_etf_advisor.Prelude.{
  ℕ, zero, suc, ◌+◌, ◌-◌, ◌*◌, ◌/◌, ◌%◌, ◌^◌, ◌≤◌, ◌<◌, min, String, ◌≡◌, refl, sym, ap, ◌∙◌, ◌≢◌,
  ◌↔◌, ◌⊎◌, inl, inr, Bool, true, false, not, ◌&&◌, ◌||◌, Option, none, some, List, [], ◌∷◌, ◌++◌,
  map, arith, str_eq, str_eq_iff, ltb, leb, ◌==◌, if◌then◌else◌, is_some, is_none, Bool-cases,
  Option-cases, leb→le, le→leb, ltb→lt, sum, length, ◌>>=◌, >>=-eq-some, get_or, set, take,
  replicate, all, All, In, half_up, half_up_bounds, half_up_unique, half_up_round_trip,
  half_up_mono, ℤ, pos, negsuc,
}
use agentic_etf_advisor.Construction.Candidate.{
  Sleeve, growth, defensive, ◌==ₛ◌, EligibleCandidate, BySleeve, at, total_of, ConstructionReason,
  PortfolioConstructionPolicy, missing_sleeve_coverage, position_constraints_infeasible,
  category_limit_infeasible, weight_reconciliation_failed,
}
use agentic_etf_advisor.Construction.Weights.{covers, equal_sleeve_weights}

-- `len(groups) == len(set(groups))`
unfoldable pub distinct : List String → Bool
distinct [] = true
distinct (g ∷ gs) = all (λ h. not (str_eq g h)) gs && distinct gs

-- `[item.economic_group_id for item in subset if item.economic_group_id is not None]`
unfoldable pub groups : List EligibleCandidate → List String
groups [] = []
groups (item ∷ items) =
    let rest = groups items in elim item.economic_group_id [ none ↦ rest | some g ↦ g ∷ rest ]

-- `required_sleeves <= {item.sleeve for item in subset}`
unfoldable pub covered : BySleeve → List EligibleCandidate → Bool
covered targets subset =
    (targets.growth == 0 || covers growth subset)
    && (targets.defensive == 0 || covers defensive subset)

-- every weight within the bounds of the policy
unfoldable pub weights_ok : PortfolioConstructionPolicy → List ℕ → Bool
weights_ok policy =
    all (λ w. leb policy.min_position_weight_bps w && leb w policy.max_position_weight_bps)

-- `category_totals[key] += weight` on a defaultdict
unfoldable pub add_total : String → ℕ → List (String × ℕ) → List (String × ℕ)
add_total key weight [] = (key, weight) ∷ []
add_total key weight ((k, total) ∷ totals) =
    if str_eq key k then (k, total + weight) ∷ totals else (k, total) ∷ add_total key weight totals

-- the loop over `zip(subset, weights, strict=True)`
unfoldable pub category_totals :
    List EligibleCandidate → List ℕ → List (String × ℕ) → List (String × ℕ)
category_totals [] weights totals = totals
category_totals (item ∷ items) [] totals = totals
category_totals (item ∷ items) (w ∷ weights) totals =
    category_totals items weights (add_total item.category w totals)

unfoldable pub within : ℕ → String × ℕ → Bool
within limit (key, total) = leb total limit

-- How far a subset gets through the tests of the inner loop.
pub data Judgement : Type 0 where
  rejected covered_only position_feasible : Judgement
  accepted : List ℕ → Judgement

unfoldable pub judge : BySleeve → PortfolioConstructionPolicy → List EligibleCandidate → Judgement
judge targets policy subset =
    let weights : List ℕ = equal_sleeve_weights subset targets in
    if not (distinct (groups subset))
    then rejected
    else if not (covered targets subset)
    then rejected
    else if not (weights_ok policy weights)
    then covered_only
    else if not (all (within policy.max_category_weight_bps) (category_totals subset weights []))
    then position_feasible
    else accepted weights

-- `saw_covered` and `saw_position_feasible`
pub record Flags : Type 0 where
  pub saw_covered : Bool
  pub saw_position_feasible : Bool

pub data Outcome : Type 0 where
  chosen : List EligibleCandidate → List ℕ → Outcome
  exhausted : Flags → Outcome

unfoldable pub scan :
    BySleeve → PortfolioConstructionPolicy → List (List EligibleCandidate) → Flags → Outcome
scan targets policy [] flags = exhausted flags
scan targets policy (subset ∷ rest) flags = elim (judge targets policy subset) [
  | rejected ↦ scan targets policy rest flags
  | covered_only ↦ scan targets policy rest (record flags { saw_covered = true })
  | position_feasible ↦
      scan targets policy rest (record { saw_covered = true; saw_position_feasible = true })
  | accepted weights ↦ chosen subset weights
]

-- `itertools.combinations`, in its order
unfoldable pub combinations {ℓ} : {A : Type ℓ} → ℕ → List A → List (List A)
combinations zero xs = [] ∷ []
combinations (suc k) [] = []
combinations (suc k) (x ∷ xs) = map (λ c. x ∷ c) (combinations k xs) ++ combinations (suc k) xs

-- `range(hi, lo - 1, -1)`
unfoldable pub down_to : ℕ → ℕ → List ℕ
down_to lo zero = if leb lo 0 then 0 ∷ [] else []
down_to lo (suc hi) = let rest = down_to lo hi in if leb lo (suc hi) then suc hi ∷ rest else []

-- what the two nested loops visit, in order
unfoldable pub subsets {ℓ} : {A : Type ℓ} → List ℕ → List A → List (List A)
subsets [] xs = []
subsets (size ∷ sizes) xs = combinations size xs ++ subsets sizes xs

failure : Flags → ConstructionReason
failure flags =
    if not flags.saw_covered
    then missing_sleeve_coverage
    else if not flags.saw_position_feasible
    then position_constraints_infeasible
    else category_limit_infeasible

selection : Outcome → Option (List EligibleCandidate × List ℕ) × ConstructionReason
selection (chosen subset weights) = (some (subset, weights), weight_reconciliation_failed)
selection (exhausted flags) = (none, failure flags)

unfoldable pub select_subset :
    List EligibleCandidate
    → BySleeve
    → PortfolioConstructionPolicy
    → Option (List EligibleCandidate × List ℕ) × ConstructionReason
unfolding failure selection
select_subset eligible targets policy =
    let maximum : ℕ = min policy.max_positions (length eligible) in
    if not (covered targets eligible)
    then (none, missing_sleeve_coverage)
    else selection (
        scan targets policy (subsets (down_to policy.min_positions maximum) eligible)
          (record { saw_covered = false; saw_position_feasible = false }))
