-- ===== src/Screening/Candidate/Passing/Excluded.antt =====
-- The excluded sectors of a passing candidate.
use Prim.{tt}
use agentic_etf_advisor.Prelude.{
  ℕ, String, ◌≡◌, refl, ap, ◌∙◌, ◌⊎◌, inl, inr, Bool, true, false, not, none, some, List, [], ◌∷◌,
  arith, if◌then◌else◌, Bool-cases, Option-cases, All, Decimal,
}
use agentic_etf_advisor.Screening.Types.{
  pass, ResearchField, get_field, GraphContext, CandidateEvidence, ScreeningCitation,
  ScreeningRuleResult, ScreeningError, contract, Screened, ok, raise, ◌>>=◌, >>=-eq-ok, Builtins,
}
use agentic_etf_advisor.Screening.Sectors.{
  RequestedSectors, normalize_words, normalize_requested_sectors, sector_aliases, get_alias,
  get_weight, sector_weights, same_weights, weighted_exposures, Weights,
}
use agentic_etf_advisor.Screening.Fields.{any, same_option}
use agentic_etf_advisor.Screening.Rules.{exceeds, judged_sectors, sector_rule}
use agentic_etf_advisor.Screening.Candidate.Passing.Numbers.{AtMost, leb_dec-AtMost, ok_injective}

if-not-raise {ℓ} :
    {A : Type ℓ} (b : Bool) (m : Screened A) (e : ScreeningError) {a : A}
    → (if not b then raise e else m) ≡ ok a
    → m ≡ ok a
if-not-raise true m e h = h
if-not-raise false m e h = absurd (cc)

module _ (python : Builtins) (candidate : CandidateEvidence) where
  -- An excluded sector is one of the taxonomy, and the graph gives it no weight or a weight of at most
  -- the tolerance.
  pub record IsClear (context : GraphContext) (tolerance : Decimal) (sector : String) : Type 0 where
    pub key : List ℕ
    pub supported : get_alias (normalize_words python sector) sector_aliases ≡ some key
    pub below :
        (get_weight key (sector_weights python context.sector_exposures []) ≡ none)
        ⊎ ((w : Decimal) × (get_weight key (sector_weights python context.sector_exposures [])
              ≡ some w)
            × AtMost w tolerance)

  exceeds-AtMost :
      (weights : Weights) (tolerance : Decimal) (key : List ℕ)
      → exceeds candidate python weights tolerance key ≡ false
      → (get_weight key weights ≡ none)
        ⊎ ((w : Decimal) × (get_weight key weights ≡ some w) × AtMost w tolerance)
  unfolding exceeds
  exceeds-AtMost weights tolerance key h = elim (Option-cases (get_weight key weights)) [
    | inl e ↦ inl e
    | inr (w, e) ↦ inr (w, e, leb_dec-AtMost w tolerance (ground (arith, h, e)))
  ]

  requested-IsClear :
      (context : GraphContext) (tolerance : Decimal) (sectors : List String)
      → any
          (exceeds candidate python (sector_weights python context.sector_exposures []) tolerance)
          (normalize_requested_sectors python sectors).requested
        ≡ false
      → (normalize_requested_sectors python sectors).unsupported ≡ []
      → All (IsClear context tolerance) sectors
  unfolding any normalize_requested_sectors
  requested-IsClear context tolerance [] a u = tt
  requested-IsClear context tolerance (s ∷ ss) a u =
      elim (Option-cases (get_alias (normalize_words python s) sector_aliases)) [
        | inl e ↦ absurd (ground (arith, u, e))
        | inr (key, e) ↦ (
          record {
            key = key;
            supported = e;
            below =
                exceeds-AtMost (sector_weights python context.sector_exposures []) tolerance key
                  (ground (arith, a, e));
          },
          requested-IsClear context tolerance ss (ground (arith, a, e)) (ground (arith, u, e)),
        )
      ]

  judged_sectors-pass :
      (weights : Weights) (tolerance : Decimal) (r : RequestedSectors)
      (citation : ScreeningCitation)
      → (judged_sectors candidate python weights tolerance r citation).verdict ≡ pass
      → (any (exceeds candidate python weights tolerance) r.requested ≡ false)
        × (r.unsupported ≡ [])
  unfolding judged_sectors
  judged_sectors-pass weights tolerance r citation h = (ground arith, ground arith)

  -- The excluded sectors of a candidate are all clear, or there are none.
  abbrev pub Clears : Decimal → List String → Type 0
  Clears tolerance excluded =
      (excluded ≡ [])
      ⊎ ((context : GraphContext) × (candidate.graph_context ≡ some context)
          × All (IsClear context tolerance) excluded)

  checked_sectors-Clears :
      (context : GraphContext) (field : ResearchField) (citation : ScreeningCitation)
      (tolerance : Decimal) (excluded : List String) {result : ScreeningRuleResult}
      → candidate.graph_context ≡ some context
      → (weighted_exposures python field.value >>= λ source.
          let graph = sector_weights python context.sector_exposures [] in
          if not (same_weights graph (sector_weights python source []))
          then raise contract
          else ok (
              judged_sectors candidate python graph tolerance
                (normalize_requested_sectors python excluded)
                citation))
        ≡ ok result
      → result.verdict ≡ pass
      → Clears tolerance excluded
  checked_sectors-Clears context field citation tolerance excluded c h p =
      let (source, e, h1) = >>=-eq-ok (weighted_exposures python field.value) _ h in
      let graph : Weights = sector_weights python context.sector_exposures [] in
      let (none_above, supported) =
        judged_sectors-pass graph tolerance (normalize_requested_sectors python excluded) _
          (ap (λ x. x.verdict) (ok_injective (if-not-raise _ _ _ h1)) ∙ p) in
      inr (context, c, requested-IsClear context tolerance excluded none_above supported)

  pub sector_rule-Clears :
      (excluded : List String) (tolerance : Decimal) {result : ScreeningRuleResult}
      → sector_rule candidate python excluded tolerance ≡ ok result
      → result.verdict ≡ pass
      → Clears tolerance excluded
  unfolding sector_rule
  sector_rule-Clears [] tolerance h p = inl refl
  sector_rule-Clears (s ∷ ss) tolerance {result} h p =
      elim (Option-cases (get_field "sector_exposures" candidate.provenance)) [
        | inl e ↦ absurd (ground (arith, h, e, p))
        | inr (field, e) ↦ elim (Option-cases candidate.graph_context) [
          | inl c ↦ absurd (ground (arith, h, e, c, p))
          | inr (context, c) ↦
              elim (Bool-cases (same_option context.sector_exposures_status (some "available"))) [
                | inr a ↦ absurd (ground (arith, h, e, c, a, p))
                | inl a ↦ elim (Option-cases field.missing_reason) [
                  | inr (reason, m) ↦ absurd (ground (arith, h, e, c, a, m, p))
                  | inl m ↦
                      checked_sectors-Clears context field _ tolerance (s ∷ ss) c
                        (rw (e, c, a, m, sector_rule) at h) p
                ]
              ]
        ]
      ]
