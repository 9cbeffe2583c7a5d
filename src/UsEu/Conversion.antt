-- ===== src/UsEu/Conversion.antt =====
-- `convert_minor` of src/etf_advisor/domain/us_eu.py: integer minor units from one currency to the
-- other at an exact rational rate, rounded half up.
use mathlib.Core.Option.{some-injective}
use agentic_etf_advisor.Prelude.{
  ℕ, ◌+◌, ◌*◌, ◌^◌, ◌≤◌, ◌<◌, String, ◌≡◌, ap, ◌⊎◌, inl, inr, Bool, true, ◌&&◌, ◌||◌, Option, none,
  some, arith, str_eq, str_eq_iff, if◌then◌else◌, Option-cases, half_up, half_up_bounds,
  half_up_round_trip, ℤ, pos, negsuc,
}
use agentic_etf_advisor.UsEu.Rate.{Rate, IsRate, canonical_rate, canonical_rate-IsRate}

-- `{source, target} != {"USD", "EUR"}`, negated
pub is_cross : String → String → Bool
is_cross source target =
    (str_eq source "USD" && str_eq target "EUR") || (str_eq source "EUR" && str_eq target "USD")

-- amount * rate or amount / rate, rounded half up
pub convert_at : ℕ → String → String → Rate → ℕ
convert_at amount source target rate =
    if str_eq source "EUR" && str_eq target "USD"
    then half_up (amount * rate.coefficient) (10 ^ rate.scale)
    else half_up (amount * 10 ^ rate.scale) rate.coefficient

-- `none` is the ValueError, of this function or of `canonical_rate`.
unfoldable pub convert_minor : ℤ → String → String → String → Option ℕ
unfolding is_cross convert_at
convert_minor (negsuc n) source target rate_text = none
convert_minor (pos amount) source target rate_text =
    if is_cross source target
    then elim (canonical_rate rate_text) [
      | none ↦ none
      | some rate ↦ some (convert_at amount source target rate)
    ]
    else none

-- What the source's fraction is: numerator and denominator of the exact amount.
abbrev pub exact_numerator : ℕ → String → Rate → ℕ
exact_numerator amount source rate =
    if str_eq source "EUR" then amount * rate.coefficient else amount * 10 ^ rate.scale

abbrev pub exact_denominator : String → Rate → ℕ
exact_denominator source rate = if str_eq source "EUR" then 10 ^ rate.scale else rate.coefficient

abbrev IsNearest : ℕ → ℕ → ℕ → Type 0
IsNearest x n d = (x * (2 * d) ≤ 2 * n + d) × (2 * n + d < x * (2 * d) + 2 * d)

abbrev Directions : String → String → Type 0
Directions source target =
    ((source ≡ "USD") × (target ≡ "EUR")) ⊎ ((source ≡ "EUR") × (target ≡ "USD"))

is_cross-cases : (source target : String) → is_cross source target ≡ true → Directions source target
unfolding is_cross
is_cross-cases source target h = ground (
  arith,
  str_eq_iff source "USD",
  str_eq_iff source "EUR",
  str_eq_iff target "EUR",
  str_eq_iff target "USD",
)

convert_at_bounds :
    (amount : ℕ) (source target : String) (rate : Rate)
    → IsRate rate
    → Directions source target
    → IsNearest
        (convert_at amount source target rate)
        (exact_numerator amount source rate)
        (exact_denominator source rate)
unfolding convert_at
convert_at_bounds amount source target rate v (inl (s, t)) =
    rw s (half_up_bounds (amount * 10 ^ rate.scale) rate.coefficient v.positive)
convert_at_bounds amount source target rate v (inr (s, t)) =
    rw (s, t) (half_up_bounds (amount * rate.coefficient) (10 ^ rate.scale) v.grid)

-- A result exists only between the two currencies at an accepted rate, and is then `convert_at`.
convert_minor-inv :
    (amount : ℤ) (source target rate_text : String) {x : ℕ}
    → convert_minor amount source target rate_text ≡ some x
    → (a : ℕ) × (rate : Rate) × (amount ≡ pos a)
      × (is_cross source target ≡ true)
      × (canonical_rate rate_text ≡ some rate)
      × (x ≡ convert_at a source target rate)
unfolding convert_minor
convert_minor-inv (negsuc n) source target rate_text h = cc
convert_minor-inv (pos a) source target rate_text h =
    elim (Option-cases (canonical_rate rate_text)) [
      | inl bad ↦ ground (arith, bad)
      | inr (rate, good) ↦ (a, rate, ground arith, ground arith, good, ground arith)
    ]

-- Every converted amount is the exact rational amount rounded half up: with n / d the amount times
-- the rate (EUR to USD) or divided by it (USD to EUR), the result x has
-- x - 1/2 <= n / d < x + 1/2, whatever the accepted rate.
pub convert_minor_nearest :
    (amount : ℕ) (source target rate_text : String) {rate : Rate} {x : ℕ}
    → canonical_rate rate_text ≡ some rate
    → convert_minor (pos amount) source target rate_text ≡ some x
    → (x * (2 * exact_denominator source rate)
        ≤ 2 * exact_numerator amount source rate + exact_denominator source rate)
      × (2 * exact_numerator amount source rate + exact_denominator source rate
          < x * (2 * exact_denominator source rate) + 2 * exact_denominator source rate)
convert_minor_nearest amount source target rate_text {rate} {x} r h =
    let (a, rate', ea, c, r', ex) = convert_minor-inv (pos amount) source target rate_text h in
    let e : rate' ≡ rate = cc in
    let e' : a ≡ amount = cc in
    rw (ex, e, e')
      (convert_at_bounds amount source target rate (canonical_rate-IsRate _ rate r)
        (is_cross-cases source target c))

-- At a rate of one dollar or more for a euro, euros converted to dollars and back are the same
-- amount.
pub convert_minor_round_trip :
    (amount : ℕ) (rate_text : String) {rate : Rate} {x : ℕ}
    → canonical_rate rate_text ≡ some rate
    → 10 ^ rate.scale ≤ rate.coefficient
    → convert_minor (pos amount) "EUR" "USD" rate_text ≡ some x
    → convert_minor (pos x) "USD" "EUR" rate_text ≡ some amount
unfolding convert_minor
convert_minor_round_trip amount rate_text {rate} {x} r h hx =
    let v = canonical_rate-IsRate _ rate r in
    let ex : half_up (amount * rate.coefficient) (10 ^ rate.scale) ≡ x =
      some-injective _ _ (rw r at hx) in
    rw (r, ← ex) (ap some (half_up_round_trip amount rate.coefficient (10 ^ rate.scale) v.grid h))

-- At a rate of one dollar or less for a euro, dollars converted to euros and back are the same
-- amount.
pub convert_minor_round_trip_inverse :
    (amount : ℕ) (rate_text : String) {rate : Rate} {y : ℕ}
    → canonical_rate rate_text ≡ some rate
    → rate.coefficient ≤ 10 ^ rate.scale
    → convert_minor (pos amount) "USD" "EUR" rate_text ≡ some y
    → convert_minor (pos y) "EUR" "USD" rate_text ≡ some amount
unfolding convert_minor
convert_minor_round_trip_inverse amount rate_text {rate} {y} r h hy =
    let v = canonical_rate-IsRate _ rate r in
    let ey : half_up (amount * 10 ^ rate.scale) rate.coefficient ≡ y =
      some-injective _ _ (rw r at hy) in
    rw (r, ← ey)
      (ap some (half_up_round_trip amount (10 ^ rate.scale) rate.coefficient v.positive h))
