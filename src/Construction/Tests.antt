-- ===== src/Construction/Tests.antt =====
-- Runs of the construction, and its theorems at one pool of candidates.
use agentic_etf_advisor.Prelude.{
  ℕ, ◌/◌, ◌≤◌, String, ◌≡◌, refl, ◌↔◌, none, some, List, [], ◌∷◌, sum, length,
}
use agentic_etf_advisor.Construction.Candidate.{
  Sleeve, growth, defensive, EligibleCandidate, BySleeve, PortfolioConstructionPolicy,
  weight_reconciliation_failed, missing_sleeve_coverage,
}
use agentic_etf_advisor.Construction.Fill.{indexes, sleeve_sum, AtSleeve}
use agentic_etf_advisor.Construction.Weights.{
  equal_sleeve_weights, covers, IsEven, sleeve_sum-equal_sleeve_weights,
  equal_sleeve_weights-IsEven,
}
use agentic_etf_advisor.Construction.Cash.{
  allocate_all_cash, allocate_sleeve, share_sleeve, share_out, weight_at, in_range, add_cents,
  sort_remainders, insert_sorted, precedes,
}
use agentic_etf_advisor.Construction.Cash.Laws.{
  IsPayable, allocate_all_cash_exact, allocate_all_cash_total,
}
use agentic_etf_advisor.Construction.Select.{
  select_subset, scan, judge, subsets, combinations, down_to, distinct, groups, covered, weights_ok,
  category_totals, add_total, within,
}
use agentic_etf_advisor.Construction.Select.Laws.{
  IsCandidate, select_subset_sound, select_subset_complete,
}

abbrev fund : String → Sleeve → String → String → EligibleCandidate
fund symbol sleeve category group = record {
  document_id = symbol;
  symbol = symbol;
  trading_currency = "USD";
  sleeve = sleeve;
  category = category;
  share_class_id = some symbol;
  economic_group_id = some group;
}

abbrev vti : EligibleCandidate
vti = fund "VTI" growth "large blend" "crsp:total"

abbrev vxus : EligibleCandidate
vxus = fund "VXUS" growth "foreign large blend" "ftse:exus"

abbrev bnd : EligibleCandidate
bnd = fund "BND" defensive "intermediate core bond" "bloomberg:agg"

-- a second listing of the same fund
abbrev bnd_eu : EligibleCandidate
bnd_eu = fund "VAGF" defensive "intermediate core bond" "bloomberg:agg"

abbrev pool : List EligibleCandidate
pool = vti ∷ bnd ∷ bnd_eu ∷ vxus ∷ []

abbrev picked : List EligibleCandidate
picked = vti ∷ bnd ∷ vxus ∷ []

-- a moderate, balanced target
abbrev targets : BySleeve
targets = record { growth = 5751; defensive = 4249 }

abbrev policy : PortfolioConstructionPolicy
policy = record {
  max_candidate_pool_size = 10;
  min_positions = 3;
  max_positions = 5;
  min_position_weight_bps = 500;
  max_position_weight_bps = 8000;
  max_category_weight_bps = 8000;
  weight_precision_bps = 1;
  growth_categories = "large blend" ∷ "foreign large blend" ∷ [];
  defensive_categories = "intermediate core bond" ∷ [];
}

weights_run : equal_sleeve_weights picked targets ≡ 2876 ∷ 4249 ∷ 2875 ∷ []
unfolding equal_sleeve_weights
weights_run = refl

sleeve_sum-equal_sleeve_weights_example :
    sleeve_sum growth picked (equal_sleeve_weights picked targets) ≡ 5751
unfolding covers
sleeve_sum-equal_sleeve_weights_example = sleeve_sum-equal_sleeve_weights picked targets growth refl

equal_sleeve_weights-IsEven_example :
    AtSleeve
      (IsEven (5751 / length (indexes growth 0 picked)))
      growth
      picked
      (equal_sleeve_weights picked targets)
equal_sleeve_weights-IsEven_example = equal_sleeve_weights-IsEven picked targets growth

abbrev cash : BySleeve
cash = record { growth = 100001; defensive = 77 }

abbrev weights : List ℕ
weights = 2876 ∷ 4249 ∷ 2875 ∷ []

abbrev amounts : List ℕ
amounts = 50009 ∷ 77 ∷ 49992 ∷ []

-- 100001 * 2876 / 5751 leaves 50009.19.., 100001 * 2875 / 5751 leaves 49991.8: the cent goes there.
cash_run : allocate_all_cash picked weights cash ≡ some amounts
unfolding allocate_all_cash allocate_sleeve share_sleeve share_out weight_at in_range add_cents
    sort_remainders insert_sorted precedes indexes
cash_run = refl

allocate_all_cash_exact_example :
    (length amounts ≡ 3)
    × (sleeve_sum growth picked amounts ≡ 100001)
    × (sleeve_sum defensive picked amounts ≡ 77)
    × (sum amounts ≡ 100078)
allocate_all_cash_exact_example = allocate_all_cash_exact picked weights cash cash_run

allocate_all_cash_total_example :
    ((b : List ℕ) × (allocate_all_cash picked weights cash ≡ some b)) ↔ (
      IsPayable cash.growth (indexes growth 0 picked) weights
      × IsPayable cash.defensive (indexes defensive 0 picked) weights)
allocate_all_cash_total_example = allocate_all_cash_total picked weights cash

select_run :
    select_subset pool targets policy
    ≡ (some (picked, equal_sleeve_weights picked targets), weight_reconciliation_failed)
unfolding select_subset scan judge subsets combinations down_to distinct groups covered weights_ok
    category_totals add_total within equal_sleeve_weights covers
select_run = refl

select_subset_sound_example :
    IsCandidate pool targets policy picked
    × (equal_sleeve_weights picked targets ≡ equal_sleeve_weights picked targets)
    × ((other : List EligibleCandidate) → IsCandidate pool targets policy other → length other ≤ 3)
select_subset_sound_example = select_subset_sound pool targets policy select_run

select_none_run : select_subset (vti ∷ vxus ∷ []) targets policy ≡ (none, missing_sleeve_coverage)
unfolding select_subset covered covers
select_none_run = refl

select_subset_complete_example : ¬ (IsCandidate (vti ∷ vxus ∷ []) targets policy (vti ∷ vxus ∷ []))
select_subset_complete_example =
    select_subset_complete (vti ∷ vxus ∷ []) targets policy select_none_run (vti ∷ vxus ∷ [])
