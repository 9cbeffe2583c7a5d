-- ===== src/Construction/Select/Search.antt =====
-- The scan of `_select_subset` over a list of subsets.
use agentic_etf_advisor.Prelude.{
  ℕ, ◌≤◌, ◌≡◌, refl, sym, ◌∙◌, ◌≢◌, ◌⊎◌, inl, inr, true, List, [], ◌∷◌, arith, length, In,
}
use agentic_etf_advisor.Construction.Candidate.{
  EligibleCandidate, BySleeve, PortfolioConstructionPolicy,
}
use agentic_etf_advisor.Construction.Select.{
  Judgement, rejected, covered_only, position_feasible, accepted, judge, Flags, chosen, exhausted,
  scan,
}
use agentic_etf_advisor.Construction.Select.Subsets.{Descending}

Judgement-cases :
    (j : Judgement)
    → (j ≡ rejected)
      ⊎ (j ≡ covered_only)
      ⊎ (j ≡ position_feasible)
      ⊎ ((ws : List ℕ) × (j ≡ accepted ws))
Judgement-cases rejected = inl refl
Judgement-cases covered_only = inr (inl refl)
Judgement-cases position_feasible = inr (inr (inl refl))
Judgement-cases (accepted ws) = inr (inr (inr (ws, refl)))

module _ (targets : BySleeve) (policy : PortfolioConstructionPolicy) where
  -- One round either ends the scan or goes on to the rest.
  scan-cases :
      (x : List EligibleCandidate) (cs : List (List EligibleCandidate)) (flags : Flags)
      → ((ws : List ℕ) × (judge targets policy x ≡ accepted ws)
          × (scan targets policy (x ∷ cs) flags ≡ chosen x ws))
        ⊎ ((f : Flags) × (scan targets policy (x ∷ cs) flags ≡ scan targets policy cs f)
            × ((vs : List ℕ) → judge targets policy x ≢ accepted vs))
  unfolding scan
  scan-cases x cs flags = elim (Judgement-cases (judge targets policy x)) [
    | inl e ↦ inr (flags, rw (e, scan), λ vs a. cc)
    | inr (inl e) ↦ inr (record flags { saw_covered = true }, rw (e, scan), λ vs a. cc)
    | inr (inr (inl e)) ↦
        inr (record { saw_covered = true; saw_position_feasible = true }, rw (e, scan), λ vs a. cc)
    | inr (inr (inr (ws, e))) ↦ inl (ws, e, rw (e, scan))
  ]

  -- Where a subset is chosen, it was accepted, and nothing accepted later is larger.
  pub scan-chosen :
      (cs : List (List EligibleCandidate)) (flags : Flags) {c : List EligibleCandidate}
      {ws : List ℕ}
      → Descending cs
      → scan targets policy cs flags ≡ chosen c ws
      → In c cs
        × (judge targets policy c ≡ accepted ws)
        × ((d : List EligibleCandidate) (vs : List ℕ)
            → In d cs
            → judge targets policy d ≡ accepted vs
            → length d ≤ length c)
  unfolding scan Descending
  scan-chosen [] flags des h = absurd (cc)
  scan-chosen (x ∷ cs) flags {c} {ws} des h = elim (scan-cases x cs flags) [
    | inl (us, a, e) ↦
        (let x≡c : x ≡ c = cc in
          let us≡ws : us ≡ ws = cc in
          (
            inl (sym x≡c),
            rw (← x≡c, ← us≡ws) a,
            λ d vs m acc. elim m [
              | inl first ↦ rw (first, x≡c) (omega arith)
              | inr later ↦ rw (← x≡c) (des.0 d later)
            ],
          ))
    | inr (f, e, none_here) ↦
        (let (m, a, best) = scan-chosen cs f des.1 (sym e ∙ h) in
          (
            inr m,
            a,
            λ d vs n acc. elim n [
              | inl first ↦ absurd (none_here vs (rw first at acc))
              | inr later ↦ best d vs later acc
            ],
          ))
  ]

  -- Where the scan is exhausted, nothing was accepted.
  pub scan-exhausted :
      (cs : List (List EligibleCandidate)) (flags : Flags) {g : Flags}
      → scan targets policy cs flags ≡ exhausted g
      → (d : List EligibleCandidate) (vs : List ℕ) → In d cs
      → judge targets policy d ≢ accepted vs
  unfolding scan
  scan-exhausted [] flags h d vs m = absurd m
  scan-exhausted (x ∷ cs) flags h d vs m = elim (scan-cases x cs flags) [
    | inl (us, a, e) ↦ absurd (cc)
    | inr (f, e, none_here) ↦ elim m [
      | inl first ↦ rw first (none_here vs)
      | inr later ↦ scan-exhausted cs f (sym e ∙ h) d vs later
    ]
  ]
