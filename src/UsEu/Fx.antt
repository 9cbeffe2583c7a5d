-- ===== src/UsEu/Fx.antt =====
-- `FxReferenceObservation` of src/etf_advisor/domain/us_eu.py: when a reference rate may be used.
mod Tests
use agentic_etf_advisor.Prelude.{
  ℕ, zero, suc, ◌+◌, ◌-◌, ◌*◌, ◌/◌, ◌%◌, ◌^◌, ◌≤◌, ◌<◌, min, String, ◌≡◌, refl, sym, ap, ◌∙◌, ◌≢◌,
  ◌↔◌, ◌⊎◌, inl, inr, Bool, true, false, not, ◌&&◌, ◌||◌, Option, none, some, List, [], ◌∷◌, ◌++◌,
  map, arith, str_eq, str_eq_iff, ltb, leb, ◌==◌, if◌then◌else◌, is_some, is_none, Bool-cases,
  Option-cases, leb→le, le→leb, ltb→lt, sum, length, ◌>>=◌, >>=-eq-some, get_or, set, take,
  replicate, all, All, In, half_up, half_up_bounds, half_up_unique, half_up_round_trip,
  half_up_mono, ℤ, pos, negsuc, Decimal, whole, leb_dec, eqb_dec, exact_hundredths,
  rounded_hundredths, hundredths,
}
use agentic_etf_advisor.UsEu.Rate.{Rate, canonical_rate}
use agentic_etf_advisor.UsEu.Conversion.{convert_minor, is_cross}

pub data FxStatus : Type 0 where
  available missing : FxStatus

pub data MissingReason : Type 0 where
  not_requested source_unavailable : MissingReason

-- An instant is a number of seconds in UTC and a date a number of days, both from one origin.
pub record FxReferenceObservation : Type 0 where
  pub status : FxStatus
  pub effective_date : Option ℕ
  pub observed_at : ℕ
  pub rate_decimal : Option String
  pub missing_reason : Option MissingReason

abbrev pub day : ℕ
day = 86_400

-- `datetime.date()`
abbrev pub date_of : ℕ → ℕ
date_of instant = instant / day

unfoldable pub available_ok : FxReferenceObservation → Bool
available_ok fx = elim fx.effective_date [
  | none ↦ false
  | some effective ↦ elim fx.rate_decimal [
    | none ↦ false
    | some rate ↦
        is_none fx.missing_reason
        && is_some (canonical_rate rate)
        && leb effective (date_of fx.observed_at)
  ]
]

-- `complete_status`: false where it raises.
unfoldable pub complete_status : FxReferenceObservation → Bool
complete_status fx = elim fx.status [
  | available ↦ available_ok fx
  | missing ↦ is_none fx.effective_date && is_none fx.rate_decimal && is_some fx.missing_reason
]

pub data FxRefusal : Type 0 where
  fx_missing fx_future fx_stale assertion_error : FxRefusal

abbrev pub five_minutes : ℕ
five_minutes = 300

abbrev pub hours_120 : ℕ
hours_120 = 432_000

-- the tests of `validate_at` on a rate of the given date
unfoldable pub validate_date : ℕ → ℕ → ℕ → Option FxRefusal
validate_date effective observed_at checked_at =
    if ltb (date_of checked_at) effective
    then some fx_future
    else if ltb (checked_at + five_minutes) observed_at
    then some fx_future
    else if ltb (effective * day + hours_120) checked_at
    then some fx_stale
    else none

-- `validate_at`: none where the rate may be used. The assertion fails on no complete
-- observation.
unfoldable pub validate_at : FxReferenceObservation → ℕ → Option FxRefusal
validate_at fx checked_at = elim fx.status [
  | missing ↦ some fx_missing
  | available ↦ elim fx.effective_date [
    | none ↦ some assertion_error
    | some effective ↦ validate_date effective fx.observed_at checked_at
  ]
]

FxStatus-cases : (s : FxStatus) → (s ≡ available) ⊎ (s ≡ missing)
FxStatus-cases available = inl refl
FxStatus-cases missing = inr refl

date_mono : (a b e : ℕ) → a ≤ b → e ≤ date_of a → e ≤ date_of b
date_mono a b e h d = grind arith

validate_date-later :
    (effective observed_at checked_at later : ℕ)
    → validate_date effective observed_at checked_at ≡ none
    → checked_at ≤ later
    → later ≤ effective * day + hours_120
    → validate_date effective observed_at later ≡ none
unfolding validate_date
validate_date-later effective observed_at checked_at later h le fresh =
    let d = date_mono checked_at later effective le (ground (arith, h)) in ground (arith, h, d)

-- A rate that may be used at one time may be used at every later time until 120 hours after the
-- start of its date.
pub validate_at-later :
    (fx : FxReferenceObservation) (effective checked_at later : ℕ)
    → fx.effective_date ≡ some effective
    → validate_at fx checked_at ≡ none
    → checked_at ≤ later
    → later ≤ effective * day + hours_120
    → validate_at fx later ≡ none
unfolding validate_at
validate_at-later fx effective checked_at later e h le fresh = elim (FxStatus-cases fx.status) [
  | inl on ↦
      rw (on, e)
        (validate_date-later effective fx.observed_at checked_at later (rw (on, e) at h) le fresh)
  | inr off ↦ absurd (ground (arith, h, off))
]

convert_minor-some :
    (amount : ℕ) (rate_text : String) {rate : Rate}
    → canonical_rate rate_text ≡ some rate
    → (x : ℕ) × (convert_minor (pos amount) "EUR" "USD" rate_text ≡ some x)
unfolding convert_minor
convert_minor-some amount rate_text r = rw r (_, refl)

available_rate :
    (fx : FxReferenceObservation)
    → available_ok fx ≡ true
    → (rate_text : String) × (rate : Rate) × (fx.rate_decimal ≡ some rate_text)
      × (canonical_rate rate_text ≡ some rate)
unfolding available_ok
available_rate fx h = elim (Option-cases fx.effective_date) [
  | inl e ↦ absurd (ground (arith, h, e))
  | inr (effective, e) ↦ elim (Option-cases fx.rate_decimal) [
    | inl d ↦ absurd (ground (arith, h, e, d))
    | inr (rate_text, d) ↦ elim (Option-cases (canonical_rate rate_text)) [
      | inl r ↦ absurd (ground (arith, h, e, d, r))
      | inr (rate, r) ↦ (rate_text, rate, d, r)
    ]
  ]
]

-- A complete observation that may be used has a rate, with which every amount of euros is converted.
pub validate_at-converts :
    (fx : FxReferenceObservation) (checked_at amount : ℕ)
    → complete_status fx ≡ true
    → validate_at fx checked_at ≡ none
    → (rate_text : String) × (x : ℕ) × (fx.rate_decimal ≡ some rate_text)
      × (convert_minor (pos amount) "EUR" "USD" rate_text ≡ some x)
unfolding complete_status available_ok validate_at
validate_at-converts fx checked_at amount c h =
    let on : fx.status ≡ available = elim (FxStatus-cases fx.status) [
      | inl e ↦ e
      | inr off ↦ absurd (ground (arith, h, off))
    ] in
    let (rate_text, rate, e, r) = available_rate fx (rw on at c) in
    let (x, converted) = convert_minor-some amount rate_text r in (rate_text, x, e, converted)
