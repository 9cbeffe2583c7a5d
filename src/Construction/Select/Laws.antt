-- ===== src/Construction/Select/Laws.antt =====
-- What `_select_subset` promises: the chosen subset meets every limit of the policy and none that
-- does is larger, and where nothing is chosen no admissible subset exists.
use agentic_etf_advisor.Prelude.{
  ℕ, ◌≤◌, ◌<◌, min, String, ◌≡◌, refl, ◌≢◌, ◌⊎◌, inl, inr, Bool, true, false, not, none, some, List,
  [], ◌∷◌, arith, str_eq, str_eq_iff, Bool-cases, length, all, All, In,
}
use agentic_etf_advisor.Construction.Candidate.{
  Sleeve, growth, defensive, ◌==ₛ◌, EligibleCandidate, BySleeve, at, ConstructionReason,
  PortfolioConstructionPolicy,
}
use agentic_etf_advisor.Construction.Weights.{covers, equal_sleeve_weights}
use agentic_etf_advisor.Construction.Select.{
  distinct, groups, covered, weights_ok, category_totals, within, accepted, judge, Flags, Outcome,
  chosen, exhausted, scan, subsets, down_to, select_subset,
}
use agentic_etf_advisor.Construction.Select.Categories.{
  category_sum, category_limit_sound, category_limit_complete,
}
use agentic_etf_advisor.Construction.Select.Subsets.{
  Sub, subsets_sound, subsets_complete, subsets-Descending,
}
use agentic_etf_advisor.Construction.Select.Search.{scan-chosen, scan-exhausted}

-- No text stands twice.
unfoldable pub Distinct : List String → Type 0
Distinct [] = Unit
Distinct (g ∷ gs) = ((h : String) → In h gs → g ≢ h) × Distinct gs

-- An admissible subset, described without the search.
pub record IsFeasible (targets : BySleeve) (policy : PortfolioConstructionPolicy)
    (subset : List EligibleCandidate) : Type 0 where
  pub one_per_group : Distinct (groups subset)
  pub covers_targets : (s : Sleeve) → 0 < at targets s → covers s subset ≡ true
  pub weight_bounds :
      All
        (λ w. (policy.min_position_weight_bps ≤ w) × (w ≤ policy.max_position_weight_bps))
        (equal_sleeve_weights subset targets)
  pub category_limit :
      (c : String)
      → category_sum c subset (equal_sleeve_weights subset targets) ≤ policy.max_category_weight_bps

absent_sound :
    (g : String) (gs : List String)
    → all (λ h. not (str_eq g h)) gs ≡ true
    → (h : String) → In h gs
    → g ≢ h
absent_sound g [] e h m = absurd m
absent_sound g (k ∷ gs) e h (inl same) = ground (arith, same, str_eq_iff g k)
absent_sound g (k ∷ gs) e h (inr m) = absent_sound g gs (ground arith) h m

absent_complete :
    (g : String) (gs : List String)
    → ((h : String) → In h gs → g ≢ h)
    → all (λ h. not (str_eq g h)) gs ≡ true
absent_complete g [] e = refl
absent_complete g (k ∷ gs) e =
    ground (arith, e k (inl refl), str_eq_iff g k, absent_complete g gs (λ h m. e h (inr m)))

distinct_sound : (gs : List String) → distinct gs ≡ true → Distinct gs
unfolding distinct Distinct
distinct_sound [] h = tt
distinct_sound (g ∷ gs) h = (absent_sound g gs (ground arith), distinct_sound gs (ground arith))

distinct_complete : (gs : List String) → Distinct gs → distinct gs ≡ true
unfolding distinct Distinct
distinct_complete [] h = refl
distinct_complete (g ∷ gs) h = ground (arith, absent_complete g gs h.0, distinct_complete gs h.1)

weights_ok_sound :
    (policy : PortfolioConstructionPolicy) (ws : List ℕ)
    → weights_ok policy ws ≡ true
    → All (λ w. (policy.min_position_weight_bps ≤ w) × (w ≤ policy.max_position_weight_bps)) ws
unfolding weights_ok
weights_ok_sound policy [] h = tt
weights_ok_sound policy (w ∷ ws) h =
    ((ground arith, ground arith), weights_ok_sound policy ws (ground arith))

weights_ok_complete :
    (policy : PortfolioConstructionPolicy) (ws : List ℕ)
    → All (λ w. (policy.min_position_weight_bps ≤ w) × (w ≤ policy.max_position_weight_bps)) ws
    → weights_ok policy ws ≡ true
unfolding weights_ok
weights_ok_complete policy [] h = refl
weights_ok_complete policy (w ∷ ws) h = ground (arith, weights_ok_complete policy ws h.1)

covered_sound :
    (targets : BySleeve) (subset : List EligibleCandidate)
    → covered targets subset ≡ true
    → (s : Sleeve) → 0 < at targets s
    → covers s subset ≡ true
unfolding covered
covered_sound targets subset h growth p = ground arith
covered_sound targets subset h defensive p = ground arith

covered_complete :
    (targets : BySleeve) (subset : List EligibleCandidate)
    → ((s : Sleeve) → 0 < at targets s → covers s subset ≡ true)
    → covered targets subset ≡ true
unfolding covered
covered_complete targets subset h = ground (arith, h growth, h defensive)

module _ (targets : BySleeve) (policy : PortfolioConstructionPolicy) where
  abbrev limits_ok : List EligibleCandidate → Bool
  limits_ok subset =
      all (within policy.max_category_weight_bps)
        (category_totals subset (equal_sleeve_weights subset targets) [])

  judge-tests :
      (subset : List EligibleCandidate) {ws : List ℕ}
      → judge targets policy subset ≡ accepted ws
      → (distinct (groups subset) ≡ true)
        × (covered targets subset ≡ true)
        × (weights_ok policy (equal_sleeve_weights subset targets) ≡ true)
        × (limits_ok subset ≡ true)
        × (ws ≡ equal_sleeve_weights subset targets)
  unfolding judge
  judge-tests subset h = ground arith

  -- The inner loop accepts exactly the admissible subsets, with their equal weights.
  pub judge_sound :
      (subset : List EligibleCandidate) {ws : List ℕ}
      → judge targets policy subset ≡ accepted ws
      → IsFeasible targets policy subset × (ws ≡ equal_sleeve_weights subset targets)
  judge_sound subset h =
      let (d, c, w, l, e) = judge-tests subset h in
      (
        record {
          one_per_group = distinct_sound (groups subset) d;
          covers_targets = covered_sound targets subset c;
          weight_bounds = weights_ok_sound policy (equal_sleeve_weights subset targets) w;
          category_limit = category_limit_sound policy.max_category_weight_bps subset _ l;
        },
        e,
      )

  pub judge_complete :
      (subset : List EligibleCandidate)
      → IsFeasible targets policy subset
      → judge targets policy subset ≡ accepted (equal_sleeve_weights subset targets)
  unfolding judge
  judge_complete subset f = rw (
    distinct_complete (groups subset) f.one_per_group,
    covered_complete targets subset f.covers_targets,
    weights_ok_complete policy (equal_sleeve_weights subset targets) f.weight_bounds,
    category_limit_complete policy.max_category_weight_bps subset _ f.category_limit,
  )

Outcome-cases :
    (o : Outcome)
    → ((c : List EligibleCandidate) × (ws : List ℕ) × (o ≡ chosen c ws))
      ⊎ ((g : Flags) × (o ≡ exhausted g))
Outcome-cases (chosen c ws) = inl (c, ws, refl)
Outcome-cases (exhausted g) = inr (g, refl)

Sub-covers :
    (s : Sleeve) (c xs : List EligibleCandidate) → Sub c xs → covers s c ≡ true → covers s xs ≡ true
unfolding covers
Sub-covers s [] xs h e = absurd (cc)
Sub-covers s (a ∷ c) [] h e = absurd h
Sub-covers s (a ∷ c) (x ∷ xs) (inl (same, h)) e = elim (Bool-cases (a.sleeve ==ₛ s)) [
  | inl here ↦ (let e' : x.sleeve ==ₛ s ≡ true = rw (← same) here in rw e')
  | inr other ↦ ground (arith, Sub-covers s c xs h)
]
Sub-covers s (a ∷ c) (x ∷ xs) (inr h) e = ground (arith, Sub-covers s (a ∷ c) xs h e)

Sub-length : (c xs : List EligibleCandidate) → Sub c xs → length c ≤ length xs
Sub-length [] xs h = omega arith
Sub-length (a ∷ c) [] h = absurd h
Sub-length (a ∷ c) (x ∷ xs) (inl (same, h)) = omega (arith, Sub-length c xs h)
Sub-length (a ∷ c) (x ∷ xs) (inr h) = omega (arith, Sub-length (a ∷ c) xs h)

module _ (eligible : List EligibleCandidate) (targets : BySleeve)
    (policy : PortfolioConstructionPolicy) where
  -- The sizes and the members that the search may choose from.
  pub record IsCandidate (subset : List EligibleCandidate) : Type 0 where
    pub chosen_from : Sub subset eligible
    pub at_least : policy.min_positions ≤ length subset
    pub at_most : length subset ≤ policy.max_positions
    pub feasible : IsFeasible targets policy subset

  abbrev visited : List (List EligibleCandidate)
  visited =
      subsets (down_to policy.min_positions (min policy.max_positions (length eligible))) eligible

  abbrev start : Flags
  start = record { saw_covered = false; saw_position_feasible = false }

  IsCandidate-visited :
      (subset : List EligibleCandidate)
      → IsCandidate subset
      → In subset visited
        × (judge targets policy subset ≡ accepted (equal_sleeve_weights subset targets))
  IsCandidate-visited subset c = (
    subsets_complete _ _ eligible subset c.chosen_from c.at_least
        (omega (arith, Sub-length subset eligible c.chosen_from, c.at_most)),
    judge_complete targets policy subset c.feasible,
  )

  IsCandidate-covered :
      (subset : List EligibleCandidate) → IsCandidate subset → covered targets eligible ≡ true
  IsCandidate-covered subset c =
      covered_complete targets eligible
        (λ s p. Sub-covers s subset eligible c.chosen_from (c.feasible.covers_targets s p))

  select_subset-chosen :
      {subset : List EligibleCandidate} {weights : List ℕ} {reason : ConstructionReason}
      → select_subset eligible targets policy ≡ (some (subset, weights), reason)
      → scan targets policy visited start ≡ chosen subset weights
  unfolding select_subset
  select_subset-chosen h = ground arith

  select_subset-none :
      {reason : ConstructionReason}
      → select_subset eligible targets policy ≡ (none, reason)
      → (covered targets eligible ≡ false)
        ⊎ ((g : Flags) × (scan targets policy visited start ≡ exhausted g))
  unfolding select_subset
  select_subset-none h = elim (Outcome-cases (scan targets policy visited start)) [
    | inl (c, ws, e) ↦ inl (ground (arith, e))
    | inr (g, e) ↦ inr (g, e)
  ]

  -- A chosen subset keeps the order of the eligible candidates, has an admitted number of positions,
  -- names no economic group twice, covers every sleeve with a target, has its equal weights inside the
  -- bounds of the policy and no category above the limit; and no other such subset is larger.
  pub select_subset_sound :
      {subset : List EligibleCandidate} {weights : List ℕ} {reason : ConstructionReason}
      → select_subset eligible targets policy ≡ (some (subset, weights), reason)
      → IsCandidate subset
        × (weights ≡ equal_sleeve_weights subset targets)
        × ((other : List EligibleCandidate) → IsCandidate other → length other ≤ length subset)
  select_subset_sound {subset} h =
      let (m, a, best) =
        scan-chosen targets policy visited start (subsets-Descending _ _ eligible)
          (select_subset-chosen h) in
      let (f, e) = judge_sound targets policy subset a in
      let (s, lo, hi) = subsets_sound _ _ eligible subset m in
      (
        record { chosen_from = s; at_least = lo; at_most = omega arith; feasible = f },
        e,
        λ other c. let (n, acc) = IsCandidate-visited other c in best other _ n acc,
      )

  -- Where nothing is chosen, no subset of the eligible candidates is admissible.
  pub select_subset_complete :
      {reason : ConstructionReason}
      → select_subset eligible targets policy ≡ (none, reason)
      → (subset : List EligibleCandidate) → ¬ (IsCandidate subset)
  select_subset_complete h subset c = elim (select_subset-none h) [
    | inl uncovered ↦ (let e = IsCandidate-covered subset c in absurd (cc))
    | inr (g, e) ↦
        (let (m, a) = IsCandidate-visited subset c in
          scan-exhausted targets policy visited start e subset _ m a)
  ]
