-- ===== src/UsEu/Tests.antt =====
-- Runs of the conversion, and the conversion theorems at one amount and rate.
use agentic_etf_advisor.Prelude.{
  ◌+◌, ◌*◌, ◌≤◌, ◌<◌, ◌≡◌, refl, none, some, arith, half_up, pos, negsuc,
}
use agentic_etf_advisor.UsEu.Rate.{Rate, canonical_rate}
use agentic_etf_advisor.UsEu.Conversion.{
  convert_minor, exact_numerator, exact_denominator, convert_minor_nearest,
  convert_minor_round_trip, convert_minor_round_trip_inverse,
}

abbrev rate : Rate
rate = record { coefficient = 10823; scale = 4 }

canonical_rate_text : canonical_rate "1.0823" ≡ some rate
unfolding canonical_rate
canonical_rate_text = refl

-- A trailing zero, a leading zero and seven decimal places below a millionth are refused.
canonical_rate_refused :
    (canonical_rate "1.0820" ≡ none)
    × (canonical_rate "01.08" ≡ none)
    × (canonical_rate "0.0000009" ≡ none)
unfolding canonical_rate
canonical_rate_refused = (refl, refl, refl)

to_usd : convert_minor (pos 10001) "EUR" "USD" "1.0823" ≡ some 10824
unfolding convert_minor canonical_rate half_up
to_usd = refl

to_eur : convert_minor (pos 10001) "USD" "EUR" "1.0823" ≡ some 9241
unfolding convert_minor canonical_rate half_up
to_eur = refl

same_currency_raises : convert_minor (pos 1) "EUR" "EUR" "1.0823" ≡ none
unfolding convert_minor
same_currency_raises = refl

negative_raises : convert_minor (negsuc 0) "EUR" "USD" "1.0823" ≡ none
unfolding convert_minor
negative_raises = refl

convert_minor_nearest_example :
    (10824 * (2 * exact_denominator "EUR" rate)
      ≤ 2 * exact_numerator 10001 "EUR" rate + exact_denominator "EUR" rate)
    × (2 * exact_numerator 10001 "EUR" rate + exact_denominator "EUR" rate
        < 10824 * (2 * exact_denominator "EUR" rate) + 2 * exact_denominator "EUR" rate)
convert_minor_nearest_example =
    convert_minor_nearest 10001 "EUR" "USD" "1.0823" canonical_rate_text to_usd

convert_minor_round_trip_example : convert_minor (pos 10824) "USD" "EUR" "1.0823" ≡ some 10001
convert_minor_round_trip_example =
    convert_minor_round_trip 10001 "1.0823" canonical_rate_text (omega arith) to_usd

abbrev low_rate : Rate
low_rate = record { coefficient = 8; scale = 1 }

low_rate_text : canonical_rate "0.8" ≡ some low_rate
unfolding canonical_rate
low_rate_text = refl

dollars_to_euros : convert_minor (pos 101) "USD" "EUR" "0.8" ≡ some 126
unfolding convert_minor canonical_rate half_up
dollars_to_euros = refl

convert_minor_round_trip_inverse_example : convert_minor (pos 126) "EUR" "USD" "0.8" ≡ some 101
convert_minor_round_trip_inverse_example =
    convert_minor_round_trip_inverse 101 "0.8" low_rate_text (omega arith) dollars_to_euros
