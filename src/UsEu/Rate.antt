-- ===== src/UsEu/Rate.antt =====
-- `canonical_rate` of src/etf_advisor/domain/us_eu.py: the text of an ECB rate as an exact decimal.
use native.Mathlib.Nat.{pow-suc}
use agentic_etf_advisor.Prelude.{
  ℕ, zero, suc, ◌+◌, ◌-◌, ◌*◌, ◌^◌, ◌≤◌, ◌<◌, String, ◌≡◌, Bool, true, false, ◌&&◌, ◌||◌, Option,
  none, some, List, [], ◌∷◌, ◌++◌, arith, leb, ◌==◌, if◌then◌else◌, length, all, codes,
}

-- coefficient / 10 ^ scale
pub record Rate : Type 0 where
  pub coefficient : ℕ
  pub scale : ℕ

pub is_digit : ℕ → Bool
is_digit c = leb b'0' c && leb c b'9'

pub is_nonzero_digit : ℕ → Bool
is_nonzero_digit c = leb b'1' c && leb c b'9'

-- the value of a row of digits, the most significant first
pub digits_value : ℕ → List ℕ → ℕ
digits_value n [] = n
digits_value n (c ∷ cs) = digits_value (n * 10 + (c - b'0')) cs

-- `[0-9]*[1-9]`: the part behind the point
pub is_fraction : List ℕ → Bool
unfolding is_digit is_nonzero_digit
is_fraction [] = false
is_fraction (c ∷ []) = is_nonzero_digit c
is_fraction (c ∷ d ∷ cs) = is_digit c && is_fraction (d ∷ cs)

-- `[1-9][0-9]*`: the part before the point of a rate of one or more
pub is_whole : List ℕ → Bool
unfolding is_digit is_nonzero_digit
is_whole [] = false
is_whole (c ∷ cs) = is_nonzero_digit c && all is_digit cs

-- The text before the first point, and the text behind it where there is a point.
pub split_point : List ℕ → List ℕ × Option (List ℕ)
split_point [] = ([], none)
split_point (c ∷ cs) =
    let (whole, fraction) = split_point cs in
    if c == b'.' then ([], some cs) else (c ∷ whole, fraction)

-- the row of digits with its leading zeros taken off, as `Decimal` keeps its digits
pub significant : List ℕ → List ℕ
significant [] = []
significant (c ∷ cs) = if c == b'0' then significant cs else c ∷ cs

-- `_RATE.fullmatch`
pub matches_rate : List ℕ × Option (List ℕ) → Bool
unfolding is_fraction is_whole
matches_rate (whole, none) = is_whole whole
matches_rate ([], some fraction) = false
matches_rate (c ∷ [], some fraction) = (c == b'0' || is_whole (c ∷ [])) && is_fraction fraction
matches_rate (c ∷ d ∷ cs, some fraction) = is_whole (c ∷ d ∷ cs) && is_fraction fraction

abbrev fraction_of : Option (List ℕ) → List ℕ
fraction_of none = []
fraction_of (some fraction) = fraction

-- the bounds on the value and on the precision
pub in_bounds : Rate → List ℕ → Bool
unfolding significant
in_bounds r digits =
    leb (10 ^ r.scale) (r.coefficient * 10 ^ 6)
    && leb r.coefficient (10 ^ 6 * 10 ^ r.scale)
    && leb (length (significant digits)) 18
    && leb r.scale 10

-- The checks and the value; `none` is the ValueError.
rate_of : List ℕ × Option (List ℕ) → Option Rate
rate_of (whole, point) =
    let digits : List ℕ = whole ++ fraction_of point in
    let rate : Rate = record {
      coefficient = digits_value 0 digits;
      scale = length (fraction_of point);
    } in
    if matches_rate (whole, point)
    then (if in_bounds rate digits then some rate else none)
    else none

unfoldable pub canonical_rate : String → Option Rate
unfolding split_point matches_rate digits_value in_bounds rate_of
canonical_rate value = rate_of (split_point (codes value))

ten_pow-pos : (n : ℕ) → 0 < 10 ^ n
ten_pow-pos zero = omega arith
ten_pow-pos (suc n) = rw pow-suc (omega (arith, ten_pow-pos n))

in_bounds_lem :
    (r : Rate) (digits : List ℕ)
    → in_bounds r digits ≡ true
    → (10 ^ r.scale ≤ r.coefficient * 10 ^ 6)
      × (r.coefficient ≤ 10 ^ 6 * 10 ^ r.scale)
      × (r.scale ≤ 10)
unfolding in_bounds
in_bounds_lem r digits h = ground arith

-- What an accepted rate promises to exact arithmetic: it lies between 0.000001 and 1000000, it is
-- not zero, and it has at most ten places.
pub record IsRate (r : Rate) : Type 0 where
  pub low : 10 ^ r.scale ≤ r.coefficient * 10 ^ 6
  pub high : r.coefficient ≤ 10 ^ 6 * 10 ^ r.scale
  pub places : r.scale ≤ 10
  pub grid : 0 < 10 ^ r.scale
  pub positive : 0 < r.coefficient

in_bounds-IsRate : (r : Rate) (digits : List ℕ) → in_bounds r digits ≡ true → IsRate r
in_bounds-IsRate r digits h =
    let b = in_bounds_lem r digits h in
    record {
      low = b.0;
      high = b.1;
      places = b.2;
      grid = ten_pow-pos r.scale;
      positive = grind (arith, ten_pow-pos r.scale, b.0);
    }

rate_of-IsRate : (parts : List ℕ × Option (List ℕ)) (r : Rate) → rate_of parts ≡ some r → IsRate r
unfolding rate_of
rate_of-IsRate (whole, point) r h = ground (
  arith,
  in_bounds-IsRate
      (record {
        coefficient = digits_value 0 (whole ++ fraction_of point);
        scale = length (fraction_of point);
      })
      (whole ++ fraction_of point),
)

-- Every accepted rate is a positive number inside the supported bounds.
pub canonical_rate-IsRate : (value : String) (r : Rate) → canonical_rate value ≡ some r → IsRate r
unfolding canonical_rate
canonical_rate-IsRate value r h = rate_of-IsRate (split_point (codes value)) r h
