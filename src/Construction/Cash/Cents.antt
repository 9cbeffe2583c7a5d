-- ===== src/Construction/Cash/Cents.antt =====
-- The cents left over: they are added at positions of their own sleeve, and one for each index taken.
use mathlib.Core.Path.{subst}
use agentic_etf_advisor.Prelude.{
  ℕ, zero, suc, ◌+◌, ◌≤◌, ◌≡◌, refl, ◌∙◌, inl, inr, true, false, List, [], ◌∷◌, ◌++◌, map, arith,
  Bool-cases, length, get_or, set, take, All,
}
use agentic_etf_advisor.Construction.Candidate.{Sleeve, ◌==ₛ◌, EligibleCandidate}
use agentic_etf_advisor.Construction.Fill.{indexes, sleeve_sum, ==ₛ_ne}
use agentic_etf_advisor.Construction.Cash.{precedes, insert_sorted, sort_remainders, add_cents}
use agentic_etf_advisor.Construction.Cash.Sums.{remainder_at}

-- The item at the index belongs to the sleeve.
abbrev pub IsIndex : Sleeve → List EligibleCandidate → ℕ → Type 0
IsIndex s [] i = ⊥
IsIndex s (item ∷ items) zero = item.sleeve ==ₛ s ≡ true
IsIndex s (item ∷ items) (suc i) = IsIndex s items i

snoc :
    (pre : List EligibleCandidate) (x : EligibleCandidate) (items : List EligibleCandidate)
    → (pre ++ x ∷ []) ++ items ≡ pre ++ x ∷ items
snoc [] x items = refl
snoc (p ∷ pre) x items = cc (snoc pre x items)

length-snoc :
    (pre : List EligibleCandidate) (x : EligibleCandidate)
    → length (pre ++ x ∷ []) ≡ suc (length pre)
length-snoc [] x = refl
length-snoc (p ∷ pre) x = cc (length-snoc pre x)

IsIndex-append :
    (s : Sleeve) (pre : List EligibleCandidate) (x : EligibleCandidate)
    (items : List EligibleCandidate)
    → x.sleeve ==ₛ s ≡ true
    → IsIndex s (pre ++ x ∷ items) (length pre)
IsIndex-append s [] x items h = h
IsIndex-append s (p ∷ pre) x items h = IsIndex-append s pre x items h

indexes-IsIndex_from :
    (s : Sleeve) (pre items : List EligibleCandidate)
    → All (IsIndex s (pre ++ items)) (indexes s (length pre) items)
unfolding indexes
indexes-IsIndex_from s pre [] = tt
indexes-IsIndex_from s pre (x ∷ items) =
    let ih : All (IsIndex s (pre ++ x ∷ items)) (indexes s (suc (length pre)) items) =
      subst (λ l. All (IsIndex s l) (indexes s (suc (length pre)) items)) (snoc pre x items)
        (subst (λ n. All (IsIndex s ((pre ++ x ∷ []) ++ items)) (indexes s n items))
          (length-snoc pre x) (indexes-IsIndex_from s (pre ++ x ∷ []) items)) in
    elim (Bool-cases (x.sleeve ==ₛ s)) [
      | inl here ↦ rw here (IsIndex-append s pre x items here, ih)
      | inr other ↦ rw other ih
    ]

pub indexes-IsIndex :
    (s : Sleeve) (items : List EligibleCandidate) → All (IsIndex s items) (indexes s 0 items)
indexes-IsIndex s items = indexes-IsIndex_from s [] items

-- A remainder whose index belongs to the sleeve.
abbrev pub AtIndex : Sleeve → List EligibleCandidate → ℕ × ℕ → Type 0
AtIndex s items (r, i) = IsIndex s items i

pub AtIndex-remainders :
    (s : Sleeve) (items : List EligibleCandidate) (total sw : ℕ) (weights is : List ℕ)
    → All (IsIndex s items) is
    → All (AtIndex s items) (map (remainder_at total sw weights) is)
AtIndex-remainders s items total sw weights [] h = tt
AtIndex-remainders s items total sw weights (i ∷ is) h =
    (h.0, AtIndex-remainders s items total sw weights is h.1)

module _ (P : ℕ × ℕ → Type 0) where
  All-insert_sorted : (x : ℕ × ℕ) (ys : List (ℕ × ℕ)) → P x → All P ys → All P (insert_sorted x ys)
  unfolding insert_sorted
  All-insert_sorted x [] p h = (p, tt)
  All-insert_sorted x (y ∷ ys) p h = elim (Bool-cases (precedes x y)) [
    | inl before ↦ rw before (p, h)
    | inr after ↦ rw after (h.0, All-insert_sorted x ys p h.1)
  ]

  pub All-sort_remainders : (xs : List (ℕ × ℕ)) → All P xs → All P (sort_remainders xs)
  unfolding sort_remainders
  All-sort_remainders [] h = tt
  All-sort_remainders (x ∷ xs) h = All-insert_sorted x _ h.0 (All-sort_remainders xs h.1)

  pub All-take : (xs : List (ℕ × ℕ)) (n : ℕ) → All P xs → All P (take xs n)
  All-take [] n h = tt
  All-take (x ∷ xs) zero h = tt
  All-take (x ∷ xs) (suc n) h = (h.0, All-take xs n h.1)

length-insert_sorted :
    (x : ℕ × ℕ) (ys : List (ℕ × ℕ)) → length (insert_sorted x ys) ≡ suc (length ys)
unfolding insert_sorted
length-insert_sorted x [] = refl
length-insert_sorted x (y ∷ ys) = ground (arith, length-insert_sorted x ys)

pub length-sort_remainders : (xs : List (ℕ × ℕ)) → length (sort_remainders xs) ≡ length xs
unfolding sort_remainders
length-sort_remainders [] = refl
length-sort_remainders (x ∷ xs) =
    omega (arith, length-insert_sorted x (sort_remainders xs), length-sort_remainders xs)

pub length-take : (xs : List (ℕ × ℕ)) (n : ℕ) → n ≤ length xs → length (take xs n) ≡ n
length-take [] n h = omega arith
length-take (x ∷ xs) zero h = refl
length-take (x ∷ xs) (suc n) h = omega (arith, length-take xs n (omega arith))

pub length-map {ℓ κ} :
    {A : Type ℓ} {B : Type κ} (f : A → B) (xs : List A) → length (map f xs) ≡ length xs
length-map f [] = refl
length-map f (x ∷ xs) = omega (arith, length-map f xs)

length-set : (array : List ℕ) (i v : ℕ) → length (set array i v) ≡ length array
length-set [] i v = refl
length-set (a ∷ array) zero v = refl
length-set (a ∷ array) (suc i) v = omega (arith, length-set array i v)

sleeve_sum-increment :
    (s : Sleeve) (items : List EligibleCandidate) (array : List ℕ) (i : ℕ)
    → length array ≡ length items
    → IsIndex s items i
    → sleeve_sum s items (set array i (get_or array i 0 + 1)) ≡ sleeve_sum s items array + 1
unfolding sleeve_sum
sleeve_sum-increment s [] array i h v = absurd v
sleeve_sum-increment s (item ∷ items) [] i h v = absurd (omega arith)
sleeve_sum-increment s (item ∷ items) (a ∷ array) zero h v = rw v (omega arith)
sleeve_sum-increment s (item ∷ items) (a ∷ array) (suc i) h v =
    omega (arith, sleeve_sum-increment s items array i (omega arith) v)

sleeve_sum-increment_ne :
    (s t : Sleeve) (items : List EligibleCandidate) (array : List ℕ) (i : ℕ)
    → s ==ₛ t ≡ false
    → IsIndex s items i
    → sleeve_sum t items (set array i (get_or array i 0 + 1)) ≡ sleeve_sum t items array
unfolding sleeve_sum
sleeve_sum-increment_ne s t [] array i ne v = absurd v
sleeve_sum-increment_ne s t (item ∷ items) [] i ne v = refl
sleeve_sum-increment_ne s t (item ∷ items) (a ∷ array) zero ne v =
    rw (==ₛ_ne item.sleeve s t ne v) refl
sleeve_sum-increment_ne s t (item ∷ items) (a ∷ array) (suc i) ne v =
    omega (arith, sleeve_sum-increment_ne s t items array i ne v)

module _ (s : Sleeve) (items : List EligibleCandidate) where
  pub length-add_cents :
      (rs : List (ℕ × ℕ)) (array : List ℕ) → length (add_cents rs array) ≡ length array
  unfolding add_cents
  length-add_cents [] array = refl
  length-add_cents ((r, i) ∷ rs) array = length-add_cents rs _ ∙ length-set array i _

  pub sleeve_sum-add_cents_self :
      (rs : List (ℕ × ℕ)) (array : List ℕ)
      → length array ≡ length items
      → All (AtIndex s items) rs
      → sleeve_sum s items (add_cents rs array) ≡ sleeve_sum s items array + length rs
  unfolding add_cents
  sleeve_sum-add_cents_self [] array h v = omega arith
  sleeve_sum-add_cents_self ((r, i) ∷ rs) array h v =
      sleeve_sum-add_cents_self rs _ (length-set array i _ ∙ h) v.1
      ∙ omega (arith, sleeve_sum-increment s items array i h v.0)

  pub sleeve_sum-add_cents_ne :
      (t : Sleeve) (rs : List (ℕ × ℕ)) (array : List ℕ)
      → s ==ₛ t ≡ false
      → All (AtIndex s items) rs
      → sleeve_sum t items (add_cents rs array) ≡ sleeve_sum t items array
  unfolding add_cents
  sleeve_sum-add_cents_ne t [] array ne v = refl
  sleeve_sum-add_cents_ne t ((r, i) ∷ rs) array ne v =
      sleeve_sum-add_cents_ne t rs _ ne v.1 ∙ sleeve_sum-increment_ne s t items array i ne v.0
