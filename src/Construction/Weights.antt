-- ===== src/Construction/Weights.antt =====
-- `_equal_sleeve_weights` of src/etf_advisor/domain/construction.py.
use native.Mathlib.Nat.{mul_comm}
use agentic_etf_advisor.Prelude.{
  ℕ, zero, suc, ◌+◌, ◌*◌, ◌/◌, ◌%◌, ◌≤◌, ◌<◌, min, ◌≡◌, refl, ◌∙◌, Bool, true, false, ◌||◌, List,
  [], ◌∷◌, arith, ltb, if◌then◌else◌, length, replicate,
}
use agentic_etf_advisor.Construction.Candidate.{
  Sleeve, growth, defensive, ◌==ₛ◌, EligibleCandidate, BySleeve, at,
}
use agentic_etf_advisor.Construction.Fill.{
  indexes, fill, sleeve_sum, sum_values, AtSleeve, length-fill, sleeve_sum-fill_self,
  sleeve_sum-fill_ne, AtSleeve-fill_self, AtSleeve-fill_ne,
}

-- `quotient + (1 if offset < remainder else 0)`
abbrev share : ℕ → ℕ → ℕ → ℕ → ℕ
share quotient remainder offset index = quotient + (if ltb offset remainder then 1 else 0)

-- The body of the loop over the sleeves: `divmod(target, len(indexes))`, then the indexed writes.
unfoldable pub spread : ℕ → List ℕ → List ℕ → List ℕ
unfolding fill
spread target [] weights = weights
spread target (index ∷ rest) weights =
    let count = length (index ∷ rest) in
    fill (share (target / count) (target % count)) 0 (index ∷ rest) weights

unfoldable pub equal_sleeve_weights : List EligibleCandidate → BySleeve → List ℕ
unfolding spread indexes
equal_sleeve_weights subset targets =
    let weights : List ℕ = replicate (length subset) 0 in
    let weights : List ℕ = spread (at targets growth) (indexes growth 0 subset) weights in
    spread (at targets defensive) (indexes defensive 0 subset) weights

-- `{item.sleeve for item in subset}` has the sleeve
unfoldable pub covers : Sleeve → List EligibleCandidate → Bool
covers s [] = false
covers s (item ∷ items) = item.sleeve ==ₛ s || covers s items

sum_values-share :
    (q r offset : ℕ) (is : List ℕ)
    → sum_values (share q r) offset is + min r offset ≡ q * length is + min r (offset + length is)
unfolding sum_values
sum_values-share q r offset [] = omega arith
sum_values-share q r offset (i ∷ is) = ground (arith, sum_values-share q r (suc offset) is)

pub covers-indexes :
    (s : Sleeve) (k : ℕ) (items : List EligibleCandidate)
    → covers s items ≡ true
    → 0 < length (indexes s k items)
unfolding covers indexes
covers-indexes s k [] h = cc
covers-indexes s k (item ∷ items) h = ground (arith, covers-indexes s (suc k) items)

pub indexes-covers :
    (s : Sleeve) (k : ℕ) (items : List EligibleCandidate)
    → covers s items ≡ false
    → indexes s k items ≡ []
unfolding covers indexes
indexes-covers s k [] h = refl
indexes-covers s k (item ∷ items) h = ground (arith, indexes-covers s (suc k) items)

-- A sleeve without candidates has no entries.
pub sleeve_sum-covers :
    (s : Sleeve) (items : List EligibleCandidate) (array : List ℕ)
    → covers s items ≡ false
    → sleeve_sum s items array ≡ 0
unfolding covers sleeve_sum
sleeve_sum-covers s [] array h = refl
sleeve_sum-covers s (item ∷ items) [] h = refl
sleeve_sum-covers s (item ∷ items) (a ∷ array) h = ground (arith, sleeve_sum-covers s items array)

-- One value for each offset, also where no index asks for it.
abbrev sleeve_share : ℕ → List ℕ → ℕ → ℕ → ℕ
sleeve_share target is = share (target / length is) (target % length is)

spread-fill :
    (target : ℕ) (is weights : List ℕ)
    → spread target is weights ≡ fill (sleeve_share target is) 0 is weights
unfolding spread
spread-fill target [] weights = refl
spread-fill target (i ∷ is) weights = refl

-- A target is spread without remainder over the indexes of its sleeve.
sum_values-share_all :
    (target : ℕ) (is : List ℕ) → 0 < length is → sum_values (sleeve_share target is) 0 is ≡ target
sum_values-share_all target is h =
    let count : ℕ = length is in
    let s = sum_values-share (target / count) (target % count) 0 is in
    grind (arith, s, mul_comm (target / count) count)

-- Two weights of one sleeve differ by one basis point at most.
pub IsEven : ℕ → ℕ → Type 0
IsEven quotient weight = (quotient ≤ weight) × (weight ≤ quotient + 1)

module _ (target : ℕ) (s : Sleeve) (items : List EligibleCandidate) (weights : List ℕ)
    (h : length weights ≡ length items) where
  length-spread : length (spread target (indexes s 0 items) weights) ≡ length items
  length-spread = rw spread-fill (length-fill _ s items weights h)

  sleeve_sum-spread_self :
      covers s items ≡ true
      → sleeve_sum s items (spread target (indexes s 0 items) weights) ≡ target
  sleeve_sum-spread_self c = rw spread-fill (
      sleeve_sum-fill_self _ s items weights h
      ∙ sum_values-share_all target (indexes s 0 items) (covers-indexes s 0 items c))

  sleeve_sum-spread_ne :
      (t : Sleeve)
      → s ==ₛ t ≡ false
      → sleeve_sum t items (spread target (indexes s 0 items) weights) ≡ sleeve_sum t items weights
  sleeve_sum-spread_ne t ne = rw spread-fill (sleeve_sum-fill_ne _ s items weights h t ne)

  AtSleeve-spread_self :
      AtSleeve
        (IsEven (target / length (indexes s 0 items)))
        s
        items
        (spread target (indexes s 0 items) weights)
  unfolding IsEven
  AtSleeve-spread_self =
      rw spread-fill (AtSleeve-fill_self _ s items weights h _ (λ o i. ground arith))

  AtSleeve-spread_ne :
      (P : ℕ → Type 0) (t : Sleeve)
      → s ==ₛ t ≡ false
      → AtSleeve P t items weights
      → AtSleeve P t items (spread target (indexes s 0 items) weights)
  AtSleeve-spread_ne P t ne before =
      rw spread-fill (AtSleeve-fill_ne _ s items weights h P t ne before)

pub length-replicate {ℓ} : {A : Type ℓ} (n : ℕ) (a : A) → length (replicate n a) ≡ n
length-replicate zero a = refl
length-replicate (suc n) a = omega (arith, length-replicate n a)

module _ (subset : List EligibleCandidate) (targets : BySleeve) where
  abbrev after_growth : List ℕ
  after_growth = spread (at targets growth) (indexes growth 0 subset) (replicate (length subset) 0)

  length-after_growth : length after_growth ≡ length subset
  length-after_growth = length-spread _ growth subset _ (length-replicate _ 0)

  pub length-equal_sleeve_weights : length (equal_sleeve_weights subset targets) ≡ length subset
  unfolding equal_sleeve_weights
  length-equal_sleeve_weights = length-spread _ defensive subset after_growth length-after_growth

  -- In a sleeve with a candidate the weights add up to the target of the sleeve, exactly.
  pub sleeve_sum-equal_sleeve_weights :
      (s : Sleeve)
      → covers s subset ≡ true
      → sleeve_sum s subset (equal_sleeve_weights subset targets) ≡ at targets s
  unfolding equal_sleeve_weights
  sleeve_sum-equal_sleeve_weights growth c =
      sleeve_sum-spread_ne _ defensive subset after_growth length-after_growth growth refl
      ∙ sleeve_sum-spread_self _ growth subset _ (length-replicate _ 0) c
  sleeve_sum-equal_sleeve_weights defensive c =
      sleeve_sum-spread_self _ defensive subset after_growth length-after_growth c

  -- Each weight of a sleeve is the even share of the target, or one basis point more.
  pub equal_sleeve_weights-IsEven :
      (s : Sleeve)
      → AtSleeve
          (IsEven (at targets s / length (indexes s 0 subset)))
          s
          subset
          (equal_sleeve_weights subset targets)
  unfolding equal_sleeve_weights
  equal_sleeve_weights-IsEven growth =
      AtSleeve-spread_ne _ defensive subset after_growth length-after_growth _ growth refl
        (AtSleeve-spread_self _ growth subset _ (length-replicate _ 0))
  equal_sleeve_weights-IsEven defensive =
      AtSleeve-spread_self _ defensive subset after_growth length-after_growth
