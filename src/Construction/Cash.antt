-- ===== src/Construction/Cash.antt =====
-- `_allocate_all_cash` of src/etf_advisor/domain/construction.py: the cash of each sleeve is divided
-- over its positions in proportion to their weights, the cents left over going to the largest
-- remainders.
pub mod Sums
pub mod Cents
pub mod Laws
use agentic_etf_advisor.Prelude.{
  ℕ, zero, suc, ◌+◌, ◌-◌, ◌*◌, ◌/◌, ◌%◌, ◌^◌, ◌≤◌, ◌<◌, min, String, ◌≡◌, refl, sym, ap, ◌∙◌, ◌≢◌,
  ◌↔◌, ◌⊎◌, inl, inr, Bool, true, false, not, ◌&&◌, ◌||◌, Option, none, some, List, [], ◌∷◌, ◌++◌,
  map, arith, str_eq, str_eq_iff, ltb, leb, ◌==◌, if◌then◌else◌, is_some, is_none, Bool-cases,
  Option-cases, leb→le, le→leb, ltb→lt, sum, length, ◌>>=◌, >>=-eq-some, get_or, set, take,
  replicate, all, All, In, half_up, half_up_bounds, half_up_unique, half_up_round_trip,
  half_up_mono, ℤ, pos, negsuc,
}
use agentic_etf_advisor.Construction.Candidate.{
  Sleeve, growth, defensive, EligibleCandidate, BySleeve, at, total_of,
}
use agentic_etf_advisor.Construction.Fill.{indexes}

-- The variables of the first inner loop; a remainder stands with its index.
pub record Shares : Type 0 where
  pub allocations : List ℕ
  pub allocated : ℕ
  pub remainders : List (ℕ × ℕ)

-- `for index in indexes: quotient, remainder = divmod(total_cents * weights[index], sleeve_weight)`
unfoldable pub share_out : ℕ → ℕ → List ℕ → List ℕ → Shares → Shares
share_out total_cents sleeve_weight weights [] st = st
share_out total_cents sleeve_weight weights (index ∷ rest) st =
    let product : ℕ = total_cents * get_or weights index 0 in
    share_out total_cents sleeve_weight weights rest (record {
      allocations = set st.allocations index (product / sleeve_weight);
      allocated = st.allocated + product / sleeve_weight;
      remainders = st.remainders ++ (product % sleeve_weight, index) ∷ [];
    })

-- `key=lambda item: (-item[0], item[1])`: the larger remainder first, then the lower index
unfoldable pub precedes : ℕ × ℕ → ℕ × ℕ → Bool
precedes (r, i) (s, j) = ltb s r || (r == s && leb i j)

unfoldable pub insert_sorted : ℕ × ℕ → List (ℕ × ℕ) → List (ℕ × ℕ)
insert_sorted x [] = x ∷ []
insert_sorted x (y ∷ ys) =
    let rest = insert_sorted x ys in if precedes x y then x ∷ y ∷ ys else y ∷ rest

-- `sorted(remainders, key=...)`
unfoldable pub sort_remainders : List (ℕ × ℕ) → List (ℕ × ℕ)
sort_remainders [] = []
sort_remainders (x ∷ xs) = insert_sorted x (sort_remainders xs)

-- `for _, index in ...: allocations[index] += 1`
unfoldable pub add_cents : List (ℕ × ℕ) → List ℕ → List ℕ
add_cents [] allocations = allocations
add_cents ((r, index) ∷ rest) allocations =
    add_cents rest (set allocations index (get_or allocations index 0 + 1))

-- `sum(weights[index] for index in indexes)`
unfoldable pub weight_at : List ℕ → List ℕ → ℕ
weight_at weights is = sum (map (λ i. get_or weights i 0) is)

-- `weights[index]` is in range for every index
unfoldable pub in_range : List ℕ → List ℕ → Bool
in_range weights is = all (λ i. ltb i (length weights)) is

-- The body of the loop over the sleeves for a sleeve with positions. `total_cents - allocated` is
-- never negative.
unfoldable pub share_sleeve : ℕ → List ℕ → List ℕ → List ℕ → List ℕ
share_sleeve total_cents is weights allocations =
    let shares : Shares =
      share_out total_cents (weight_at weights is) weights is
        (record { allocations = allocations; allocated = 0; remainders = [] }) in
    add_cents (take (sort_remainders shares.remainders) (total_cents - shares.allocated))
      shares.allocations

-- One round of the loop over the sleeves; `none` is the ValueError, or the IndexError of weights that
-- are too short.
unfoldable pub allocate_sleeve : ℕ → List ℕ → List ℕ → List ℕ → Option (List ℕ)
allocate_sleeve total_cents [] weights allocations =
    if total_cents == 0 then some allocations else none
allocate_sleeve total_cents (index ∷ rest) weights allocations =
    if not (in_range weights (index ∷ rest))
    then none
    else if weight_at weights (index ∷ rest) == 0
    then none
    else some (share_sleeve total_cents (index ∷ rest) weights allocations)

-- the closing test `sum(allocations) != sum(cash_by_sleeve.values())`
abbrev reconciled : BySleeve → List ℕ → Option (List ℕ)
reconciled cash allocations = if sum allocations == total_of cash then some allocations else none

unfoldable pub allocate_all_cash : List EligibleCandidate → List ℕ → BySleeve → Option (List ℕ)
allocate_all_cash subset weights cash = do
  after_growth ←
      allocate_sleeve (at cash growth) (indexes growth 0 subset) weights
        (replicate (length subset) 0)
  allocations ←
      allocate_sleeve (at cash defensive) (indexes defensive 0 subset) weights after_growth
  reconciled cash allocations
