-- ===== src/Screening/Timely.antt =====
-- The age of a passing candidate, through the freshness of the observations.
use mathlib.Core.Path.{subst}
use agentic_etf_advisor.Prelude.{
  ℕ, zero, suc, ◌+◌, ◌≤◌, String, ◌≡◌, refl, sym, ap, ◌∙◌, inl, inr, Bool, some, List, [], ◌∷◌, map,
  ℤ, pos, negsuc, In, arith, Bool-cases, Option-cases, str_eq_iff, codes, same_codes→eq,
}
use agentic_etf_advisor.Screening.Types.{
  current, pass, CandidateScreeningPolicy, CandidateEvidence, ok, Builtins,
}
use agentic_etf_advisor.Screening.Fields.{Window}
use agentic_etf_advisor.Screening.Candidate.{
  upper_symbol, is_of, find_health, CandidateScreeningResult, screen_candidate,
}
use agentic_etf_advisor.Screening.Candidate.Passing.{screen_candidate-IsPassing}
use agentic_etf_advisor.Screening.Health.{
  TimestampedSource, MarketDataHealthReport, freshness_status, observation_health, health_report,
  assess_observations,
}

-- The candidate is one of the observations, by its symbol without outer white space and in upper case,
-- its source, its URL and its time. It is no later than the tolerance after the check, and no older
-- than the greatest age before it.
pub record IsTimely (python : Builtins) (checked_at max_age tolerance : ℕ)
    (observations : List TimestampedSource) (candidate : CandidateEvidence) : Type 0 where
  pub observation : TimestampedSource
  pub observed : In observation observations
  pub symbol : upper_symbol python observation.symbol ≡ codes candidate.symbol
  pub source : observation.source ≡ candidate.source
  pub source_url : observation.source_url ≡ candidate.source_url
  pub observed_at : observation.observed_at ≡ candidate.observed_at
  pub not_future : candidate.observed_at ≤ checked_at + tolerance
  pub not_stale : checked_at ≤ candidate.observed_at + max_age

IsTimely-later :
    {python : Builtins} {checked_at max_age tolerance : ℕ} {o : TimestampedSource}
    {os : List TimestampedSource} {candidate : CandidateEvidence}
    → IsTimely python checked_at max_age tolerance os candidate
    → IsTimely python checked_at max_age tolerance (o ∷ os) candidate
IsTimely-later t = record {
  observation = t.observation;
  observed = inr t.observed;
  symbol = t.symbol;
  source = t.source;
  source_url = t.source_url;
  observed_at = t.observed_at;
  not_future = t.not_future;
  not_stale = t.not_stale;
}

freshness_status-current :
    (checked_at max_age tolerance observed_at : ℕ)
    → freshness_status checked_at max_age tolerance observed_at ≡ current
    → (observed_at ≤ checked_at + tolerance) × (checked_at ≤ observed_at + max_age)
unfolding freshness_status
freshness_status-current checked_at max_age tolerance observed_at h = ground (arith, h)

find_health-IsTimely :
    (python : Builtins) (checked_at max_age tolerance : ℕ) (observations : List TimestampedSource)
    (candidate : CandidateEvidence)
    → find_health python candidate
        (map (observation_health checked_at max_age tolerance) observations)
      ≡ some current
    → IsTimely python checked_at max_age tolerance observations candidate
unfolding find_health observation_health
find_health-IsTimely python checked_at max_age tolerance [] candidate h = absurd (cc)
find_health-IsTimely python checked_at max_age tolerance (o ∷ os) candidate h =
    elim (Option-cases
      (find_health python candidate (map (observation_health checked_at max_age tolerance) os))) [
        | inr (status, e) ↦ IsTimely-later (
            find_health-IsTimely python checked_at max_age tolerance os candidate
              (ground (arith, h, e)))
        | inl e ↦
            elim (Bool-cases
              (is_of python candidate (observation_health checked_at max_age tolerance o))) [
                | inr apart ↦ absurd (ground (arith, h, e, apart))
                | inl same ↦
                    (let fresh : freshness_status checked_at max_age tolerance o.observed_at
                          ≡ current =
                        ground (arith, h, e, same) in
                      let (early, late) =
                        freshness_status-current checked_at max_age tolerance o.observed_at fresh in
                      let at : o.observed_at ≡ candidate.observed_at = ground (arith, same) in
                      record {
                        observation = o;
                        observed = inl refl;
                        symbol =
                            same_codes→eq (upper_symbol python o.symbol) (codes candidate.symbol)
                              (ground (arith, same));
                        source = ground (arith, same, str_eq_iff o.source candidate.source);
                        source_url =
                            ground (arith, same, str_eq_iff o.source_url candidate.source_url);
                        observed_at = at;
                        not_future = omega arith;
                        not_stale = omega arith;
                      })
              ]
      ]

assess_observations-eq :
    (checked_at : ℕ) (max_age tolerance : ℤ) (observations : List TimestampedSource)
    {report : MarketDataHealthReport}
    → assess_observations (some checked_at) max_age tolerance observations ≡ some report
    → report ≡ health_report checked_at report.max_age report.future_tolerance observations
unfolding assess_observations health_report
assess_observations-eq checked_at (negsuc n) tolerance observations h = absurd (cc)
assess_observations-eq checked_at (pos zero) tolerance observations h = absurd (cc)
assess_observations-eq checked_at (pos (suc n)) (negsuc m) observations h = absurd (cc)
assess_observations-eq checked_at (pos (suc n)) (pos m) observations {report} h =
    let made : health_report checked_at (suc n) m observations ≡ report = ground (arith, h) in
    subst (λ r. r ≡ health_report checked_at r.max_age r.future_tolerance observations) made refl

-- A candidate that passes with the health of an assessment is one of the assessed observations, the
-- symbol of that one stripped and in upper case, and its age at the check is within the limits of the
-- assessment.
pub screen_candidate-IsTimely :
    (python : Builtins) (policy : CandidateScreeningPolicy) (window : Window)
    (excluded : List String) (candidate : CandidateEvidence) (new_contract : Bool)
    (result : CandidateScreeningResult) (checked_at : ℕ) (max_age tolerance : ℤ)
    (observations : List TimestampedSource) (report : MarketDataHealthReport)
    → assess_observations (some checked_at) max_age tolerance observations ≡ some report
    → screen_candidate python policy window excluded candidate
        (find_health python candidate report.observations)
        new_contract
      ≡ ok result
    → result.verdict ≡ pass
    → IsTimely python checked_at report.max_age report.future_tolerance observations candidate
unfolding health_report
screen_candidate-IsTimely python policy window excluded candidate new_contract result checked_at
      max_age tolerance observations report a s p =
    let health =
      (screen_candidate-IsPassing python policy window excluded candidate
        (find_health python candidate report.observations) new_contract s p).healthy in
    let same = assess_observations-eq checked_at max_age tolerance observations a in
    find_health-IsTimely python checked_at report.max_age report.future_tolerance observations
      candidate (ap (λ r. find_health python candidate r.observations) (sym same) ∙ health)
