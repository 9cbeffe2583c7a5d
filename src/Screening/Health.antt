-- ===== src/Screening/Health.antt =====
-- The freshness of observations, of src/etf_advisor/data/quality.py, in seconds.
use agentic_etf_advisor.Prelude.{
  ℕ, zero, suc, ◌+◌, String, Bool, true, false, ◌&&◌, Option, none, some, List, [], ◌∷◌, map, ltb,
  if◌then◌else◌, ℤ, pos, negsuc,
}
use agentic_etf_advisor.Screening.Types.{FreshnessStatus, current, stale, future}
use agentic_etf_advisor.Screening.Candidate.{ObservationHealth}

-- `TimestampedSource`
pub record TimestampedSource : Type 0 where
  pub symbol : String
  pub source : String
  pub source_url : String
  pub observed_at : ℕ

-- `MarketDataHealthReport`
pub record MarketDataHealthReport : Type 0 where
  pub checked_at : ℕ
  pub max_age : ℕ
  pub future_tolerance : ℕ
  pub healthy : Bool
  pub observations : List ObservationHealth

unfoldable pub is_current : FreshnessStatus → Bool
is_current current = true
is_current stale = false
is_current future = false

unfoldable pub freshness_status : ℕ → ℕ → ℕ → ℕ → FreshnessStatus
freshness_status checked_at max_age tolerance observed_at =
    if ltb (checked_at + tolerance) observed_at
    then future
    else if ltb (observed_at + max_age) checked_at
    then stale
    else current

unfoldable pub observation_health : ℕ → ℕ → ℕ → TimestampedSource → ObservationHealth
observation_health checked_at max_age tolerance o = record {
  symbol = o.symbol;
  source = o.source;
  source_url = o.source_url;
  observed_at = o.observed_at;
  status = freshness_status checked_at max_age tolerance o.observed_at;
}

unfoldable pub all_current : List ObservationHealth → Bool
all_current [] = true
all_current (h ∷ hs) = is_current h.status && all_current hs

-- `bool(results) and all(...)`
unfoldable pub is_healthy : List ObservationHealth → Bool
is_healthy [] = false
is_healthy (h ∷ hs) = all_current (h ∷ hs)

unfoldable pub health_report : ℕ → ℕ → ℕ → List TimestampedSource → MarketDataHealthReport
health_report checked_at max_age tolerance observations =
    let results = map (observation_health checked_at max_age tolerance) observations in
    record {
      checked_at = checked_at;
      max_age = max_age;
      future_tolerance = tolerance;
      healthy = is_healthy results;
      observations = results;
    }

-- `assess_observations`: a naive clock value is none, and none is the ValueError.
unfoldable pub assess_observations :
    Option ℕ → ℤ → ℤ → List TimestampedSource → Option MarketDataHealthReport
assess_observations none max_age tolerance observations = none
assess_observations (some checked_at) (negsuc n) tolerance observations = none
assess_observations (some checked_at) (pos zero) tolerance observations = none
assess_observations (some checked_at) (pos (suc n)) (negsuc m) observations = none
assess_observations (some checked_at) (pos (suc n)) (pos tolerance) observations =
    some (health_report checked_at (suc n) tolerance observations)
