-- ===== src/Prelude/Rounding.antt =====
-- Exact rational arithmetic rounded half up to an integer.
use Prim.Native.Nat.{ℕ, suc, ◌+◌, ◌*◌, ◌/◌, ◌≤◌, ◌<◌}
use mathlib.Core.Path.{◌≡◌}
use native.Mathlib.Omega.{arith}
use native.Mathlib.Nat.{mul-le-mul_left}
use native.Mathlib.Decide.{dec_lt}

-- n / d rounded half up: (2 n + d) // (2 d)
unfoldable pub half_up : ℕ → ℕ → ℕ
half_up n d = (2 * n + d) / (2 * d)

pub half_up_bounds :
    (n d : ℕ)
    → 0 < d
    → (half_up n d * (2 * d) ≤ 2 * n + d) × (2 * n + d < half_up n d * (2 * d) + 2 * d)
unfolding half_up
half_up_bounds n d h = grind arith

-- the integer nearest to n / d is found from its bounds
pub half_up_unique :
    (n d q : ℕ)
    → 0 < d
    → q * (2 * d) ≤ 2 * n + d
    → 2 * n + d < q * (2 * d) + 2 * d
    → half_up n d ≡ q
unfolding half_up
half_up_unique n d q h lo hi = grind arith

scale_le : (k q n d e : ℕ) → q * (2 * d) ≤ 2 * n + e → q * (2 * (k * d)) ≤ 2 * (k * n) + k * e
scale_le k q n d e h =
    let s : k * (q * (2 * d)) ≤ k * (2 * n + e) = mul-le-mul_left k h in omega arith

scale_lt :
    (k q n d e : ℕ)
    → 0 < k
    → 2 * n + e < q * (2 * d) + 2 * d
    → 2 * (k * n) + k * e < q * (2 * (k * d)) + 2 * (k * d)
scale_lt k q n d e pk h =
    let s : k * (suc (2 * n + e)) ≤ k * (q * (2 * d) + 2 * d) = mul-le-mul_left k h in omega arith

-- A common factor of numerator and denominator changes nothing, so a fraction need not be reduced.
pub half_up-scale : (k n d : ℕ) → 0 < k → 0 < d → half_up (k * n) (k * d) ≡ half_up n d
half_up-scale k n d pk pd =
    let b = half_up_bounds n d pd in
    half_up_unique (k * n) (k * d) (half_up n d) (grind arith) (scale_le k _ n d d b.0)
      (scale_lt k _ n d d pk b.1)

-- Rounding to a finer grid and back to the coarser one loses nothing.
same_grid : (a c x : ℕ) → 0 < c → x * (2 * c) ≤ 2 * (a * c) + c → x ≤ a
same_grid a c x pc h = elim (dec_lt a x) [
  | yes more ↦ (let s : c * (suc a) ≤ c * x = mul-le-mul_left c more in absurd (omega arith))
  | no less ↦ omega arith
]

round_trip_bounds :
    (a c d x : ℕ)
    → 0 < d
    → d ≤ c
    → x * (2 * d) ≤ 2 * (a * c) + d
    → 2 * (a * c) + d < x * (2 * d) + 2 * d
    → (a * (2 * c) ≤ 2 * (x * d) + c) × (2 * (x * d) + c < a * (2 * c) + 2 * c)
round_trip_bounds a c d x pd h lo hi = (
  omega arith,
  elim (dec_lt d c) [
    | yes finer ↦ omega arith
    | no same ↦
        (let e : d ≡ c = omega arith in
          let s : c * x ≤ c * a = mul-le-mul_left c (same_grid a c x (omega arith) (rw e at lo)) in
          rw e (omega arith))
  ],
)

pub half_up_round_trip : (a c d : ℕ) → 0 < d → d ≤ c → half_up (half_up (a * c) d * d) c ≡ a
half_up_round_trip a c d pd h =
    let b = half_up_bounds (a * c) d pd in
    let r = round_trip_bounds a c d (half_up (a * c) d) pd h b.0 b.1 in
    half_up_unique (half_up (a * c) d * d) c a (omega arith) r.0 r.1

pub half_up_mono : (m n d : ℕ) → 0 < d → m ≤ n → half_up m d ≤ half_up n d
half_up_mono m n d pd h = grind (arith, half_up_bounds m d pd, half_up_bounds n d pd)
