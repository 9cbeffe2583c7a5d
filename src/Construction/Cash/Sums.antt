-- ===== src/Construction/Cash/Sums.antt =====
-- The first inner loop of `_allocate_all_cash`, and the size of what it leaves over.
use agentic_etf_advisor.Prelude.{
  ℕ, suc, ◌+◌, ◌*◌, ◌/◌, ◌%◌, ◌≤◌, ◌<◌, ◌≡◌, refl, sym, ◌∙◌, List, [], ◌∷◌, ◌++◌, map, arith,
  length, get_or,
}
use mathlib.Core.List.{append-nil, append_assoc}
use agentic_etf_advisor.Construction.Fill.{fill, sum_values}
use agentic_etf_advisor.Construction.Cash.{Shares, share_out, weight_at}

-- `total_cents * weights[index] // sleeve_weight`, and the remainder
abbrev pub quotient_at : ℕ → ℕ → List ℕ → ℕ → ℕ → ℕ
quotient_at total sw weights offset index = total * get_or weights index 0 / sw

abbrev pub remainder_at : ℕ → ℕ → List ℕ → ℕ → ℕ × ℕ
remainder_at total sw weights index = (total * get_or weights index 0 % sw, index)

module _ (total sw : ℕ) (weights : List ℕ) where
  pub allocations-share_out :
      (offset : ℕ) (is : List ℕ) (st : Shares)
      → (share_out total sw weights is st).allocations
        ≡ fill (quotient_at total sw weights) offset is st.allocations
  unfolding share_out fill
  allocations-share_out offset [] st = refl
  allocations-share_out offset (i ∷ is) st = allocations-share_out (suc offset) is _

  pub allocated-share_out :
      (offset : ℕ) (is : List ℕ) (st : Shares)
      → (share_out total sw weights is st).allocated
        ≡ st.allocated + sum_values (quotient_at total sw weights) offset is
  unfolding share_out sum_values
  allocated-share_out offset [] st = omega arith
  allocated-share_out offset (i ∷ is) st = allocated-share_out (suc offset) is _ ∙ omega arith

  pub remainders-share_out :
      (is : List ℕ) (st : Shares)
      → (share_out total sw weights is st).remainders
        ≡ st.remainders ++ map (remainder_at total sw weights) is
  unfolding share_out
  remainders-share_out [] st = sym (append-nil _)
  remainders-share_out (i ∷ is) st =
      remainders-share_out is _
      ∙ append_assoc st.remainders _ (map (remainder_at total sw weights) is)

  -- the quotients take at most the total, and miss it by less than one cent for each index
  pub quotients_bounds :
      (offset : ℕ) (is : List ℕ)
      → 0 < sw
      → (sum_values (quotient_at total sw weights) offset is * sw ≤ total * weight_at weights is)
        × (total * weight_at weights is
            ≤ sum_values (quotient_at total sw weights) offset is * sw + length is * sw)
  unfolding sum_values weight_at
  quotients_bounds offset [] h = (omega arith, omega arith)
  quotients_bounds offset (i ∷ is) h = grind (arith, quotients_bounds (suc offset) is h)
