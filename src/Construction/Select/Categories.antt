-- ===== src/Construction/Select/Categories.antt =====
-- The category limit: the totals that the loop collects are the sums over each category.
use agentic_etf_advisor.Prelude.{
  ℕ, ◌+◌, ◌≤◌, String, ◌≡◌, refl, inl, inr, true, false, not, List, [], ◌∷◌, arith, str_eq,
  str_eq_iff, if◌then◌else◌, Bool-cases, all,
}
use agentic_etf_advisor.Construction.Candidate.{EligibleCandidate}
use agentic_etf_advisor.Construction.Select.{add_total, category_totals, within}

-- the sum of the weights of one category
unfoldable pub category_sum : String → List EligibleCandidate → List ℕ → ℕ
category_sum c [] weights = 0
category_sum c (item ∷ items) [] = 0
category_sum c (item ∷ items) (w ∷ weights) =
    (if str_eq c item.category then w else 0) + category_sum c items weights

-- the value of a key, zero where it is missing
total_at : String → List (String × ℕ) → ℕ
total_at c [] = 0
total_at c ((k, t) ∷ totals) = if str_eq c k then t else total_at c totals

total_at-add_total :
    (c key : String) (w : ℕ) (totals : List (String × ℕ))
    → total_at c (add_total key w totals) ≡ (if str_eq c key then w else 0) + total_at c totals
unfolding total_at add_total
total_at-add_total c key w [] = ground arith
total_at-add_total c key w ((k, t) ∷ totals) =
    ground
      (arith, total_at-add_total c key w totals, str_eq_iff c key, str_eq_iff key k, str_eq_iff c k)

total_at-category_totals :
    (c : String) (items : List EligibleCandidate) (weights : List ℕ) (totals : List (String × ℕ))
    → total_at c (category_totals items weights totals)
      ≡ category_sum c items weights + total_at c totals
unfolding category_totals category_sum
total_at-category_totals c [] weights totals = omega arith
total_at-category_totals c (item ∷ items) [] totals = omega arith
total_at-category_totals c (item ∷ items) (w ∷ weights) totals = omega (
  arith,
  total_at-category_totals c items weights (add_total item.category w totals),
  total_at-add_total c item.category w totals,
)

-- Each key stands once.
IsDict : List (String × ℕ) → Type 0
IsDict [] = Unit
IsDict ((k, t) ∷ totals) = (all (λ e. not (str_eq k e.0)) totals ≡ true) × IsDict totals

absent-add_total :
    (j key : String) (w : ℕ) (totals : List (String × ℕ))
    → str_eq j key ≡ false
    → all (λ e. not (str_eq j e.0)) totals ≡ true
    → all (λ e. not (str_eq j e.0)) (add_total key w totals) ≡ true
unfolding add_total
absent-add_total j key w [] ne h = ground arith
absent-add_total j key w ((k, t) ∷ totals) ne h = ground (arith, absent-add_total j key w totals ne)

IsDict-add_total :
    (key : String) (w : ℕ) (totals : List (String × ℕ))
    → IsDict totals
    → IsDict (add_total key w totals)
unfolding IsDict add_total
IsDict-add_total key w [] h = (refl, tt)
IsDict-add_total key w ((k, t) ∷ totals) h = elim (Bool-cases (str_eq key k)) [
  | inl same ↦ rw same h
  | inr other ↦ rw other (
    absent-add_total k key w totals (ground (arith, str_eq_iff key k, str_eq_iff k key)) h.0,
    IsDict-add_total key w totals h.1,
  )
]

IsDict-category_totals :
    (items : List EligibleCandidate) (weights : List ℕ) (totals : List (String × ℕ))
    → IsDict totals
    → IsDict (category_totals items weights totals)
unfolding category_totals
IsDict-category_totals [] weights totals h = h
IsDict-category_totals (item ∷ items) [] totals h = h
IsDict-category_totals (item ∷ items) (w ∷ weights) totals h =
    IsDict-category_totals items weights _ (IsDict-add_total item.category w totals h)

total_at-absent :
    (j : String) (totals : List (String × ℕ))
    → all (λ e. not (str_eq j e.0)) totals ≡ true
    → total_at j totals ≡ 0
unfolding total_at
total_at-absent j [] h = refl
total_at-absent j ((k, t) ∷ totals) h = ground (arith, total_at-absent j totals)

within-total_at :
    (limit : ℕ) (totals : List (String × ℕ))
    → all (within limit) totals ≡ true
    → (c : String) → total_at c totals ≤ limit
unfolding within total_at
within-total_at limit [] h c = omega arith
within-total_at limit ((k, t) ∷ totals) h c =
    ground (arith, within-total_at limit totals (ground arith) c)

total_at-within :
    (limit : ℕ) (totals : List (String × ℕ))
    → IsDict totals
    → ((c : String) → total_at c totals ≤ limit)
    → all (within limit) totals ≡ true
unfolding within IsDict total_at
total_at-within limit [] d h = refl
total_at-within limit ((k, t) ∷ totals) d h = ground (
  arith,
  h k,
  str_eq_iff k k,
  total_at-within limit totals d.1
      λ c. ground (arith, h c, str_eq_iff c k, total_at-absent k totals),
)

module _ (limit : ℕ) (items : List EligibleCandidate) (weights : List ℕ) where
  totals-eq :
      (c : String) → total_at c (category_totals items weights []) ≡ category_sum c items weights
  unfolding total_at
  totals-eq c = omega (arith, total_at-category_totals c items weights [])

  pub category_limit_sound :
      all (within limit) (category_totals items weights []) ≡ true
      → (c : String) → category_sum c items weights ≤ limit
  category_limit_sound h c =
      omega (arith, totals-eq c, within-total_at limit (category_totals items weights []) h c)

  pub category_limit_complete :
      ((c : String) → category_sum c items weights ≤ limit)
      → all (within limit) (category_totals items weights []) ≡ true
  unfolding IsDict
  category_limit_complete h =
      total_at-within limit (category_totals items weights [])
        (IsDict-category_totals items weights [] tt) (λ c. omega (arith, totals-eq c, h c))
