-- ===== src/Construction/Fill.antt =====
-- Arrays indexed like the chosen subset: the index lists that the loops run over, the loop
-- `for offset, index in enumerate(indexes): array[index] = value`, and sums over one sleeve.
use agentic_etf_advisor.Prelude.{
  ℕ, suc, ◌+◌, ◌≡◌, refl, inl, inr, true, false, List, [], ◌∷◌, ◌++◌, arith, if◌then◌else◌,
  Bool-cases, sum, length, set,
}
use agentic_etf_advisor.Construction.Candidate.{Sleeve, growth, defensive, ◌==ₛ◌, EligibleCandidate}

-- `[index for index, item in enumerate(subset) if item.sleeve == sleeve]`, from the index `k` on
unfoldable pub indexes : Sleeve → ℕ → List EligibleCandidate → List ℕ
indexes s k [] = []
indexes s k (item ∷ items) =
    let rest = indexes s (suc k) items in if item.sleeve ==ₛ s then k ∷ rest else rest

-- `for offset, index in enumerate(indexes, start): array[index] = value(offset, index)`
unfoldable pub fill : (ℕ → ℕ → ℕ) → ℕ → List ℕ → List ℕ → List ℕ
fill value offset [] array = array
fill value offset (index ∷ rest) array =
    fill value (suc offset) rest (set array index (value offset index))

-- The same loop along the subset: what ends up where.
pub place : (ℕ → ℕ → ℕ) → Sleeve → ℕ → ℕ → List EligibleCandidate → List ℕ → List ℕ
place value s offset k [] array = array
place value s offset k (item ∷ items) [] = []
place value s offset k (item ∷ items) (a ∷ array) =
    if item.sleeve ==ₛ s
    then value offset k ∷ place value s (suc offset) (suc k) items array
    else a ∷ place value s offset (suc k) items array

-- the sum of the entries that belong to one sleeve
unfoldable pub sleeve_sum : Sleeve → List EligibleCandidate → List ℕ → ℕ
sleeve_sum s [] array = 0
sleeve_sum s (item ∷ items) [] = 0
sleeve_sum s (item ∷ items) (a ∷ array) =
    (if item.sleeve ==ₛ s then a else 0) + sleeve_sum s items array

set-append :
    (pre array : List ℕ) (a v : ℕ) → set (pre ++ a ∷ array) (length pre) v ≡ pre ++ v ∷ array
set-append [] array a v = refl
set-append (p ∷ pre) array a v = cc (set-append pre array a v)

pub snoc : (pre : List ℕ) (a : ℕ) (array : List ℕ) → (pre ++ a ∷ []) ++ array ≡ pre ++ a ∷ array
snoc [] a array = refl
snoc (p ∷ pre) a array = cc (snoc pre a array)

pub length-snoc : (pre : List ℕ) (a : ℕ) → length (pre ++ a ∷ []) ≡ suc (length pre)
length-snoc [] a = refl
length-snoc (p ∷ pre) a = cc (length-snoc pre a)

fill-place_from :
    (value : ℕ → ℕ → ℕ) (s : Sleeve) (offset : ℕ) (items : List EligibleCandidate)
    (pre array : List ℕ)
    → length array ≡ length items
    → fill value offset (indexes s (length pre) items) (pre ++ array)
      ≡ pre ++ place value s offset (length pre) items array
unfolding fill indexes place
fill-place_from value s offset [] pre array h = refl
fill-place_from value s offset (item ∷ items) pre [] h = absurd (omega arith)
fill-place_from value s offset (item ∷ items) pre (a ∷ array) h =
    elim (Bool-cases (item.sleeve ==ₛ s)) [
      | inl here ↦
          (let v : ℕ = value offset (length pre) in
            let ih =
              fill-place_from value s (suc offset) items (pre ++ v ∷ []) array (omega arith) in
            rw here (
              cc (
                ih,
                set-append pre array a v,
                snoc pre v array,
                length-snoc pre v,
                snoc pre v (place value s (suc offset) (suc (length pre)) items array),
              )))
      | inr other ↦
          (let ih = fill-place_from value s offset items (pre ++ a ∷ []) array (omega arith) in
            rw other (
              cc (
                ih,
                snoc pre a array,
                length-snoc pre a,
                snoc pre a (place value s offset (suc (length pre)) items array),
              )))
    ]

-- The indexed loop writes exactly what the walk along the subset writes.
pub fill-place :
    (value : ℕ → ℕ → ℕ) (s : Sleeve) (items : List EligibleCandidate) (array : List ℕ)
    → length array ≡ length items
    → fill value 0 (indexes s 0 items) array ≡ place value s 0 0 items array
fill-place value s items array h = fill-place_from value s 0 items [] array h

pub length-place :
    (value : ℕ → ℕ → ℕ) (s : Sleeve) (offset k : ℕ) (items : List EligibleCandidate)
    (array : List ℕ)
    → length array ≡ length items
    → length (place value s offset k items array) ≡ length items
unfolding place
length-place value s offset k [] array h = h
length-place value s offset k (item ∷ items) [] h = h
length-place value s offset k (item ∷ items) (a ∷ array) h = ground (
  arith,
  length-place value s (suc offset) (suc k) items array,
  length-place value s offset (suc k) items array,
)

-- `sum(value(offset, index) for offset, index in enumerate(indexes, start))`
unfoldable pub sum_values : (ℕ → ℕ → ℕ) → ℕ → List ℕ → ℕ
sum_values value offset [] = 0
sum_values value offset (index ∷ rest) = value offset index + sum_values value (suc offset) rest

sleeve_sum-place_self :
    (value : ℕ → ℕ → ℕ) (s : Sleeve) (offset k : ℕ) (items : List EligibleCandidate)
    (array : List ℕ)
    → length array ≡ length items
    → sleeve_sum s items (place value s offset k items array)
      ≡ sum_values value offset (indexes s k items)
unfolding place sleeve_sum sum_values indexes
sleeve_sum-place_self value s offset k [] array h = refl
sleeve_sum-place_self value s offset k (item ∷ items) [] h = absurd (omega arith)
sleeve_sum-place_self value s offset k (item ∷ items) (a ∷ array) h = ground (
  arith,
  sleeve_sum-place_self value s (suc offset) (suc k) items array,
  sleeve_sum-place_self value s offset (suc k) items array,
)

pub ==ₛ_ne : (r s t : Sleeve) → s ==ₛ t ≡ false → r ==ₛ s ≡ true → r ==ₛ t ≡ false
==ₛ_ne growth growth defensive h k = refl
==ₛ_ne defensive defensive growth h k = refl
==ₛ_ne r s t h k = ground arith

sleeve_sum-place_ne :
    (value : ℕ → ℕ → ℕ) (s t : Sleeve) (offset k : ℕ) (items : List EligibleCandidate)
    (array : List ℕ)
    → s ==ₛ t ≡ false
    → sleeve_sum t items (place value s offset k items array) ≡ sleeve_sum t items array
unfolding place sleeve_sum
sleeve_sum-place_ne value s t offset k [] array h = refl
sleeve_sum-place_ne value s t offset k (item ∷ items) [] h = refl
sleeve_sum-place_ne value s t offset k (item ∷ items) (a ∷ array) h = ground (
  arith,
  ==ₛ_ne item.sleeve s t h,
  sleeve_sum-place_ne value s t (suc offset) (suc k) items array h,
  sleeve_sum-place_ne value s t offset (suc k) items array h,
)

-- Every entry belongs to one of the two sleeves.
pub sum-sleeve_sums :
    (items : List EligibleCandidate) (array : List ℕ)
    → length array ≡ length items
    → sum array ≡ sleeve_sum growth items array + sleeve_sum defensive items array
unfolding sleeve_sum
sum-sleeve_sums [] [] h = refl
sum-sleeve_sums [] (a ∷ array) h = absurd (omega arith)
sum-sleeve_sums (item ∷ items) [] h = absurd (omega arith)
sum-sleeve_sums (item ∷ items) (a ∷ array) h = ground (arith, sum-sleeve_sums items array)

-- A predicate on the entries of one sleeve.
unfoldable pub AtSleeve : (ℕ → Type 0) → Sleeve → List EligibleCandidate → List ℕ → Type 0
AtSleeve P s [] array = Unit
AtSleeve P s (item ∷ items) [] = Unit
AtSleeve P s (item ∷ items) (a ∷ array) =
    (item.sleeve ==ₛ s ≡ true → P a) × AtSleeve P s items array

AtSleeve-place_self :
    (P : ℕ → Type 0) (value : ℕ → ℕ → ℕ) (s : Sleeve) (offset k : ℕ)
    (items : List EligibleCandidate) (array : List ℕ)
    → ((o i : ℕ) → P (value o i))
    → AtSleeve P s items (place value s offset k items array)
unfolding AtSleeve place
AtSleeve-place_self P value s offset k [] array h = tt
AtSleeve-place_self P value s offset k (item ∷ items) [] h = tt
AtSleeve-place_self P value s offset k (item ∷ items) (a ∷ array) h =
    elim (Bool-cases (item.sleeve ==ₛ s)) [
      | inl here ↦
          rw here
            (λ _. h offset k, AtSleeve-place_self P value s (suc offset) (suc k) items array h)
      | inr other ↦
          rw other (λ e. absurd (cc), AtSleeve-place_self P value s offset (suc k) items array h)
    ]

AtSleeve-place_ne :
    (P : ℕ → Type 0) (value : ℕ → ℕ → ℕ) (s t : Sleeve) (offset k : ℕ)
    (items : List EligibleCandidate) (array : List ℕ)
    → s ==ₛ t ≡ false
    → AtSleeve P t items array
    → AtSleeve P t items (place value s offset k items array)
unfolding AtSleeve place
AtSleeve-place_ne P value s t offset k [] array ne h = tt
AtSleeve-place_ne P value s t offset k (item ∷ items) [] ne h = tt
AtSleeve-place_ne P value s t offset k (item ∷ items) (a ∷ array) ne h =
    elim (Bool-cases (item.sleeve ==ₛ s)) [
      | inl here ↦
          rw (here, ==ₛ_ne item.sleeve s t ne here)
            (
              λ e. absurd (cc),
              AtSleeve-place_ne P value s t (suc offset) (suc k) items array ne h.1,
            )
      | inr other ↦ rw other (h.0, AtSleeve-place_ne P value s t offset (suc k) items array ne h.1)
    ]

-- The laws of the indexed loop over one sleeve of a subset.
module _ (value : ℕ → ℕ → ℕ) (s : Sleeve) (items : List EligibleCandidate) (array : List ℕ)
    (h : length array ≡ length items) where
  pub length-fill : length (fill value 0 (indexes s 0 items) array) ≡ length items
  length-fill = rw (fill-place value s items array h) (length-place value s 0 0 items array h)

  pub sleeve_sum-fill_self :
      sleeve_sum s items (fill value 0 (indexes s 0 items) array)
      ≡ sum_values value 0 (indexes s 0 items)
  sleeve_sum-fill_self =
      rw (fill-place value s items array h) (sleeve_sum-place_self value s 0 0 items array h)

  pub sleeve_sum-fill_ne :
      (t : Sleeve)
      → s ==ₛ t ≡ false
      → sleeve_sum t items (fill value 0 (indexes s 0 items) array) ≡ sleeve_sum t items array
  sleeve_sum-fill_ne t ne =
      rw (fill-place value s items array h) (sleeve_sum-place_ne value s t 0 0 items array ne)

  pub AtSleeve-fill_self :
      (P : ℕ → Type 0)
      → ((o i : ℕ) → P (value o i))
      → AtSleeve P s items (fill value 0 (indexes s 0 items) array)
  AtSleeve-fill_self P all_values =
      rw (fill-place value s items array h)
        (AtSleeve-place_self P value s 0 0 items array all_values)

  pub AtSleeve-fill_ne :
      (P : ℕ → Type 0) (t : Sleeve)
      → s ==ₛ t ≡ false
      → AtSleeve P t items array
      → AtSleeve P t items (fill value 0 (indexes s 0 items) array)
  AtSleeve-fill_ne P t ne before =
      rw (fill-place value s items array h)
        (AtSleeve-place_ne P value s t 0 0 items array ne before)
