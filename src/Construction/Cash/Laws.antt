-- ===== src/Construction/Cash/Laws.antt =====
-- What `_allocate_all_cash` guarantees: when it raises, and that every sleeve gives out its cash to
-- the last cent.
use mathlib.Core.Path.{subst}
use native.Mathlib.Nat.{zero-add, le_of_mul-le-mul_right}
use agentic_etf_advisor.Prelude.{
  ℕ, ◌+◌, ◌-◌, ◌*◌, ◌≤◌, ◌<◌, ◌≡◌, refl, sym, ◌∙◌, ◌↔◌, inl, inr, true, false, some, List, [], ◌∷◌,
  map, arith, Bool-cases, sum, length, >>=-eq-some, take, replicate, All,
}
use agentic_etf_advisor.Construction.Candidate.{
  Sleeve, growth, defensive, ◌==ₛ◌, EligibleCandidate, BySleeve, total_of,
}
use agentic_etf_advisor.Construction.Fill.{
  indexes, fill, sleeve_sum, sum_values, length-fill, sleeve_sum-fill_self, sleeve_sum-fill_ne,
  sum-sleeve_sums,
}
use agentic_etf_advisor.Construction.Weights.{
  covers, covers-indexes, indexes-covers, sleeve_sum-covers, length-replicate,
}
use agentic_etf_advisor.Construction.Cash.{
  Shares, share_out, sort_remainders, add_cents, weight_at, in_range, share_sleeve, allocate_sleeve,
  allocate_all_cash,
}
use agentic_etf_advisor.Construction.Cash.Sums.{
  quotient_at, remainder_at, allocations-share_out, allocated-share_out, remainders-share_out,
  quotients_bounds,
}
use agentic_etf_advisor.Construction.Cash.Cents.{
  AtIndex, indexes-IsIndex, AtIndex-remainders, All-sort_remainders, All-take,
  length-sort_remainders, length-take, length-map, length-add_cents, sleeve_sum-add_cents_self,
  sleeve_sum-add_cents_ne,
}

-- What is left over is less than a cent for each position, and never negative.
left_over :
    (total sw allocated count : ℕ)
    → 0 < sw
    → allocated * sw ≤ total * sw
    → total * sw ≤ allocated * sw + count * sw
    → (allocated ≤ total) × (total - allocated ≤ count)
left_over total sw allocated count h lo hi =
    let a : allocated ≤ total = le_of_mul-le-mul_right lo h in
    let b : total ≤ allocated + count = le_of_mul-le-mul_right (omega (arith, hi)) h in
    (a, omega arith)

module _ (total : ℕ) (s : Sleeve) (items : List EligibleCandidate) (weights allocations : List ℕ)
    (h : length allocations ≡ length items) where
  abbrev is : List ℕ
  is = indexes s 0 items

  abbrev sw : ℕ
  sw = weight_at weights is

  abbrev quotients : ℕ
  quotients = sum_values (quotient_at total sw weights) 0 is

  abbrev filled : List ℕ
  filled = fill (quotient_at total sw weights) 0 is allocations

  abbrev tops : List (ℕ × ℕ)
  tops = take (sort_remainders (map (remainder_at total sw weights) is)) (total - quotients)

  share_sleeve-eq : share_sleeve total is weights allocations ≡ add_cents tops filled
  unfolding share_sleeve
  share_sleeve-eq =
      let st : Shares = record { allocations = allocations; allocated = 0; remainders = [] } in
      rw (
        allocations-share_out total sw weights 0 is st,
        allocated-share_out total sw weights 0 is st,
        remainders-share_out total sw weights is st,
        zero-add,
      )

  tops-AtIndex : All (AtIndex s items) tops
  tops-AtIndex = All-take _ _ _ (
      All-sort_remainders _ _
        (AtIndex-remainders s items total sw weights is (indexes-IsIndex s items)))

  length-share_sleeve : length (share_sleeve total is weights allocations) ≡ length items
  length-share_sleeve =
      rw (share_sleeve-eq, length-add_cents s items tops filled)
        (length-fill _ s items allocations h)

  sleeve_sum-share_sleeve_self :
      0 < sw → sleeve_sum s items (share_sleeve total is weights allocations) ≡ total
  sleeve_sum-share_sleeve_self pos_weight =
      let b = quotients_bounds total sw weights 0 is pos_weight in
      let lo = left_over total sw quotients (length is) pos_weight b.0 b.1 in
      let n : length tops ≡ total - quotients = length-take _ (total - quotients) (
        rw
          (
            length-sort_remainders (map (remainder_at total sw weights) is),
            length-map (remainder_at total sw weights) is,
          )
          lo.1) in
      rw
        (
          share_sleeve-eq,
          sleeve_sum-add_cents_self s items tops filled (length-fill _ s items allocations h)
              tops-AtIndex,
          sleeve_sum-fill_self (quotient_at total sw weights) s items allocations h,
          n,
        )
        (omega (arith, lo.0))

  sleeve_sum-share_sleeve_ne :
      (t : Sleeve)
      → s ==ₛ t ≡ false
      → sleeve_sum t items (share_sleeve total is weights allocations)
        ≡ sleeve_sum t items allocations
  sleeve_sum-share_sleeve_ne t ne =
      rw (share_sleeve-eq, sleeve_sum-add_cents_ne s items t tops filled ne tops-AtIndex)
        (sleeve_sum-fill_ne _ s items allocations h t ne)

-- A sleeve can give out its cash: it has no positions and no cash, or positions whose weights are all
-- there and not all zero.
abbrev pub IsPayable : ℕ → List ℕ → List ℕ → Type 0
IsPayable total [] weights = total ≡ 0
IsPayable total (i ∷ is) weights =
    (in_range weights (i ∷ is) ≡ true) × (0 < weight_at weights (i ∷ is))

allocate_sleeve_total :
    (total : ℕ) (is weights allocations : List ℕ)
    → IsPayable total is weights
    → (b : List ℕ) × (allocate_sleeve total is weights allocations ≡ some b)
unfolding allocate_sleeve
allocate_sleeve_total total [] weights allocations h = (allocations, ground arith)
allocate_sleeve_total total (i ∷ is) weights allocations h =
    (share_sleeve total (i ∷ is) weights allocations, ground arith)

payable_weight :
    (total : ℕ) (is weights : List ℕ)
    → 0 < length is
    → IsPayable total is weights
    → 0 < weight_at weights is
payable_weight total [] weights h p = absurd (omega arith)
payable_weight total (i ∷ rest) weights h p = p.1

allocate_sleeve-inv :
    (total i : ℕ) (is weights allocations : List ℕ) {b : List ℕ}
    → allocate_sleeve total (i ∷ is) weights allocations ≡ some b
    → ((in_range weights (i ∷ is) ≡ true) × (0 < weight_at weights (i ∷ is)))
      × (b ≡ share_sleeve total (i ∷ is) weights allocations)
unfolding allocate_sleeve
allocate_sleeve-inv total i is weights allocations h = ((ground arith, ground arith), ground arith)

allocate_sleeve-IsPayable :
    (total : ℕ) (is weights allocations : List ℕ) {b : List ℕ}
    → allocate_sleeve total is weights allocations ≡ some b
    → IsPayable total is weights × (b ≡ share_sleeve total is weights allocations)
unfolding allocate_sleeve share_sleeve share_out sort_remainders add_cents
allocate_sleeve-IsPayable total [] weights allocations h = (ground arith, ground arith)
allocate_sleeve-IsPayable total (i ∷ is) weights allocations h =
    allocate_sleeve-inv total i is weights allocations h

-- One round of the loop over the sleeves, in which the sleeve `s` had no cash yet.
record Round (total : ℕ) (s : Sleeve) (items : List EligibleCandidate) (before after : List ℕ)
    : Type 0 where
  same_length : length after ≡ length items
  given_out : sleeve_sum s items after ≡ total
  others : (t : Sleeve) → s ==ₛ t ≡ false → sleeve_sum t items after ≡ sleeve_sum t items before

given_out_by_covers :
    (total : ℕ) (s : Sleeve) (items : List EligibleCandidate) (weights allocations : List ℕ)
    → length allocations ≡ length items
    → IsPayable total (indexes s 0 items) weights
    → sleeve_sum s items (share_sleeve total (indexes s 0 items) weights allocations) ≡ total
given_out_by_covers total s items weights allocations h p = elim (Bool-cases (covers s items)) [
  | inl here ↦
      sleeve_sum-share_sleeve_self total s items weights allocations h
        (payable_weight total (indexes s 0 items) weights (covers-indexes s 0 items here) p)
  | inr empty ↦
      (let e : total ≡ 0 =
          subst (λ is. IsPayable total is weights) (indexes-covers s 0 items empty) p in
        sleeve_sum-covers s items _ empty ∙ sym e)
]

allocate_sleeve-Round :
    (total : ℕ) (s : Sleeve) (items : List EligibleCandidate) (weights allocations : List ℕ)
    {b : List ℕ}
    → length allocations ≡ length items
    → allocate_sleeve total (indexes s 0 items) weights allocations ≡ some b
    → Round total s items allocations b
allocate_sleeve-Round total s items weights allocations h e =
    let (payable, eq) = allocate_sleeve-IsPayable total (indexes s 0 items) weights allocations e in
    rw eq (record {
      same_length = length-share_sleeve total s items weights allocations h;
      given_out = given_out_by_covers total s items weights allocations h payable;
      others = sleeve_sum-share_sleeve_ne total s items weights allocations h;
    })

module _ (subset : List EligibleCandidate) (weights : List ℕ) (cash : BySleeve) where
  abbrev zeros : List ℕ
  zeros = replicate (length subset) 0

  allocate_all_cash-inv :
      {b : List ℕ}
      → allocate_all_cash subset weights cash ≡ some b
      → (a : List ℕ) × (allocate_sleeve cash.growth (indexes growth 0 subset) weights zeros
          ≡ some a)
        × (allocate_sleeve cash.defensive (indexes defensive 0 subset) weights a ≡ some b)
        × (sum b ≡ total_of cash)
  unfolding allocate_all_cash
  allocate_all_cash-inv h =
      let (a, e, h') = >>=-eq-some (allocate_sleeve cash.growth _ weights zeros) _ h in
      let (b', e', h'') = >>=-eq-some (allocate_sleeve cash.defensive _ weights a) _ h' in
      (a, e, ground arith, ground arith)

  abbrev IsExact : List ℕ → Type 0
  IsExact b =
      (length b ≡ length subset)
      × (sleeve_sum growth subset b ≡ cash.growth)
      × (sleeve_sum defensive subset b ≡ cash.defensive)

  rounds-IsExact :
      {a b : List ℕ}
      → allocate_sleeve cash.growth (indexes growth 0 subset) weights zeros ≡ some a
      → allocate_sleeve cash.defensive (indexes defensive 0 subset) weights a ≡ some b
      → IsExact b
  rounds-IsExact {a} {b} e e' =
      let g = allocate_sleeve-Round _ growth subset weights zeros (length-replicate _ 0) e in
      let d = allocate_sleeve-Round _ defensive subset weights a g.same_length e' in
      (d.same_length, d.others growth refl ∙ g.given_out, d.given_out)

  IsExact-sum : (b : List ℕ) → IsExact b → sum b ≡ total_of cash
  IsExact-sum b (same, g, d) = omega (arith, sum-sleeve_sums subset b same, g, d)

  -- Whenever the allocation does not raise, every sleeve has given out exactly its cash, and the
  -- amounts together are the whole cash.
  pub allocate_all_cash_exact :
      {b : List ℕ}
      → allocate_all_cash subset weights cash ≡ some b
      → (length b ≡ length subset)
        × (sleeve_sum growth subset b ≡ cash.growth)
        × (sleeve_sum defensive subset b ≡ cash.defensive)
        × (sum b ≡ total_of cash)
  allocate_all_cash_exact {b} h =
      let (a, e, e', s) = allocate_all_cash-inv h in
      let (same, g, d) = rounds-IsExact e e' in (same, g, d, s)

  -- The allocation raises exactly where a sleeve has cash and no positions, or a position beyond the
  -- weights, or positions of no weight: the closing test on the totals never fails.
  pub allocate_all_cash_total :
      ((b : List ℕ) × (allocate_all_cash subset weights cash ≡ some b)) ↔ (
        IsPayable cash.growth (indexes growth 0 subset) weights
        × IsPayable cash.defensive (indexes defensive 0 subset) weights)
  unfolding allocate_all_cash
  allocate_all_cash_total = (raises, succeeds)
    where
      raises :
          (b : List ℕ) × (allocate_all_cash subset weights cash ≡ some b)
          → IsPayable cash.growth (indexes growth 0 subset) weights
            × IsPayable cash.defensive (indexes defensive 0 subset) weights
      raises (b, h) =
          let (a, e, e', s) = allocate_all_cash-inv h in
          (
            (allocate_sleeve-IsPayable _ _ weights zeros e).0,
            (allocate_sleeve-IsPayable _ _ weights a e').0,
          )

      succeeds :
          IsPayable cash.growth (indexes growth 0 subset) weights
            × IsPayable cash.defensive (indexes defensive 0 subset) weights
          → (b : List ℕ) × (allocate_all_cash subset weights cash ≡ some b)
      succeeds (pg, pd) =
          let (a, e) = allocate_sleeve_total cash.growth _ weights zeros pg in
          let (b, e') = allocate_sleeve_total cash.defensive _ weights a pd in
          let s = IsExact-sum b (rounds-IsExact e e') in (b, rw (e, e') (ground (arith, s)))
