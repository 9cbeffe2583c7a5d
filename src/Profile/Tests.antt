-- ===== src/Profile/Tests.antt =====
-- Runs of the validation and the serialization, and the round trip of one profile.
use agentic_etf_advisor.Prelude.{◌≡◌, refl, false, none, some, whole}
use agentic_etf_advisor.Profile.{
  given, ProfileInput, model_validate, model_dump, reject_mixed_money,
}
use agentic_etf_advisor.Profile.RoundTrip.{model_validate-model_dump}
use agentic_etf_advisor.Profile.Sample.{request, profile, validated}

-- the same request, with an amount in dollars as well
abbrev mixed : ProfileInput
mixed = record request {
  initial_investment_usd = given (record { negative = false; magnitude = whole 5 });
}

mixed_raises : model_validate mixed ≡ none
unfolding model_validate reject_mixed_money
mixed_raises = refl

model_validate-model_dump_example : model_validate (model_dump profile) ≡ some profile
model_validate-model_dump_example = model_validate-model_dump request validated
