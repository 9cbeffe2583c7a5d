-- ===== src/UsEu/Fx/Tests.antt =====
-- One observation, at times before and after its limit.
use agentic_etf_advisor.Prelude.{ℕ, ◌+◌, ◌*◌, String, ◌≡◌, refl, true, none, some, arith, pos}
use agentic_etf_advisor.UsEu.Rate.{canonical_rate}
use agentic_etf_advisor.UsEu.Conversion.{convert_minor}
use agentic_etf_advisor.UsEu.Fx.{
  FxReferenceObservation, available, available_ok, complete_status, fx_stale, fx_future,
  validate_date, validate_at, validate_at-later, validate_at-converts,
}

-- the rate of day 10, seen in the afternoon
abbrev observation : FxReferenceObservation
observation = record {
  status = available;
  effective_date = some 10;
  observed_at = 10 * 86_400 + 60_000;
  rate_decimal = some "1.0823";
  missing_reason = none;
}

complete_run : complete_status observation ≡ true
unfolding complete_status available_ok canonical_rate
complete_run = refl

fresh_run : validate_at observation (11 * 86_400) ≡ none
unfolding validate_at validate_date
fresh_run = refl

stale_run : validate_at observation (15 * 86_400 + 1) ≡ some fx_stale
unfolding validate_at validate_date
stale_run = refl

future_run : validate_at observation (10 * 86_400 + 59_000) ≡ some fx_future
unfolding validate_at validate_date
future_run = refl

validate_at-later_example : validate_at observation (15 * 86_400) ≡ none
validate_at-later_example =
    validate_at-later observation 10 (11 * 86_400) (15 * 86_400) refl fresh_run (omega arith)
      (omega arith)

validate_at-converts_example :
    (rate_text : String) × (x : ℕ) × (observation.rate_decimal ≡ some rate_text)
    × (convert_minor (pos 10001) "EUR" "USD" rate_text ≡ some x)
validate_at-converts_example =
    validate_at-converts observation (11 * 86_400) 10001 complete_run fresh_run
