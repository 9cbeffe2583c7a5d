-- ===== src/Screening/Candidate/Passing/Numbers.antt =====
-- The numbers of a passing candidate.
use Prim.{tt}
use mathlib.Core.Path.{subst}
use agentic_etf_advisor.Prelude.{
  String, ◌≡◌, refl, ap, ◌∙◌, ◌⊎◌, inl, inr, Bool, true, false, Option, none, some, ◌*◌, ◌^◌, ◌≤◌,
  arith, str_eq, str_eq_iff, leb→le, leb_dec, Bool-cases, Option-cases, Decimal, ◌==◌,
}
use agentic_etf_advisor.Profile.{Signed}
use agentic_etf_advisor.Screening.Types.{
  pass, ResearchField, get_field, CandidateEvidence, ScreeningCitation, ScreeningRuleResult,
  ScreeningError, contract, research_integrity, Value, text, flag, number, infinite, items, ok,
  >>=-eq-ok, Builtins,
}
use agentic_etf_advisor.Screening.Fields.{finite_number, binary_value, bounded_number, within}
use agentic_etf_advisor.Screening.Rules.{NumericRule, judged_number, numeric_rule}

pub ok_injective : {A : Type 0} {a b : A} → ok a ≡ ok b → a ≡ b
ok_injective h = ground arith

-- `a <= b` on decimals, each scaled to the places of both
abbrev pub AtMost : Decimal → Decimal → Type 0
AtMost a b = a.coefficient * 10 ^ b.scale ≤ b.coefficient * 10 ^ a.scale

pub leb_dec-AtMost : (a b : Decimal) → leb_dec a b ≡ true → AtMost a b
unfolding leb_dec
leb_dec-AtMost a b h = leb→le (a.coefficient * 10 ^ b.scale) (b.coefficient * 10 ^ a.scale) h

abbrev pub IsWithin : Option Decimal → Decimal → Type 0
IsWithin none value = Unit
IsWithin (some maximum) value = AtMost value maximum

-- A number that is not negative, and at most the maximum where there is one.
pub record IsBounded (maximum : Option Decimal) (value : Decimal) (n : Signed) : Type 0 where
  pub magnitude : n.magnitude ≡ value
  pub sign : (n.negative ≡ false) ⊎ (value.coefficient ≡ 0)
  pub bounded : IsWithin maximum value

module _ (python : Builtins) (candidate : CandidateEvidence) where
  within-IsWithin :
      (maximum : Option Decimal) (value : Decimal)
      → within candidate maximum value ≡ true
      → IsWithin maximum value
  within-IsWithin none value h = tt
  within-IsWithin (some maximum) value h = leb_dec-AtMost value maximum h

  bounded_number-IsBounded :
      (error : ScreeningError) (maximum : Option Decimal) (n : Signed) {value : Decimal}
      → bounded_number candidate error maximum n ≡ ok value
      → IsBounded maximum value n
  unfolding bounded_number
  bounded_number-IsBounded error maximum n {value} h =
      elim (Bool-cases (within candidate maximum n.magnitude)) [
        | inr e ↦ absurd (ground (arith, h, e))
        | inl e ↦
            (let same : n.magnitude ≡ value = ground (arith, h, e) in
              record {
                magnitude = same;
                sign = elim (Bool-cases n.negative) [
                  | inr plus ↦ inl plus
                  | inl minus ↦ inr (ground (arith, h, e, minus))
                ];
                bounded = subst (IsWithin maximum) same (within-IsWithin maximum n.magnitude e);
              })
      ]

  -- The value of a field is a number, or under schema 2 a text that is the canonical form of one.
  abbrev pub IsRead : Option Decimal → Decimal → Option Value → Type 0
  IsRead maximum value v =
      ((n : Signed) × (v ≡ some (number n)) × IsBounded maximum value n)
      ⊎ ((s : String) × (n : Signed) × (v ≡ some (text s))
          × (candidate.schema ≡ 2)
          × (python.canonical_float s ≡ some n)
          × IsBounded maximum value n)

  finite_number-IsRead :
      (maximum : Option Decimal) (v : Option Value) {value : Decimal}
      → finite_number candidate python v maximum ≡ ok value
      → IsRead maximum value v
  unfolding finite_number binary_value
  finite_number-IsRead maximum none h = absurd (cc)
  finite_number-IsRead maximum (some (flag b)) h = absurd (cc)
  finite_number-IsRead maximum (some infinite) h = absurd (cc)
  finite_number-IsRead maximum (some (items values)) h = absurd (cc)
  finite_number-IsRead maximum (some (number n)) h =
      inl (n, refl, bounded_number-IsBounded contract maximum n h)
  finite_number-IsRead maximum (some (text s)) h = elim (Bool-cases (candidate.schema == 2)) [
    | inr e ↦ absurd (ground (arith, h, e))
    | inl e ↦ elim (Option-cases (python.canonical_float s)) [
      | inl c ↦ absurd (ground (arith, h, e, c))
      | inr (n, c) ↦ inr (
        s,
        n,
        refl,
        ground (arith, e),
        c,
        bounded_number-IsBounded research_integrity maximum n (rw (e, c, binary_value) at h),
      )
    ]
  ]

  -- The candidate has a field of this name with a number of this unit, and the number is acceptable.
  pub record HasNumber (name unit_name : String) (maximum : Option Decimal)
      (Accepted : Decimal → Type 0) : Type 0 where
    pub field : ResearchField
    pub value : Decimal
    pub found : get_field name candidate.provenance ≡ some field
    pub unit : field.unit ≡ unit_name
    pub available : field.missing_reason ≡ none
    pub read : IsRead maximum value field.value
    pub accepted : Accepted value

  judged_number-pass :
      (r : NumericRule) (citation : ScreeningCitation) (value : Decimal)
      → (judged_number candidate r citation value).verdict ≡ pass
      → r.pass_when value ≡ true
  unfolding judged_number
  judged_number-pass r citation value h = ground arith

  pub numeric_rule-HasNumber :
      (r : NumericRule) {result : ScreeningRuleResult}
      → numeric_rule candidate python r ≡ ok result
      → result.verdict ≡ pass
      → HasNumber r.field_name r.expected_unit r.maximum_value (λ value. r.pass_when value ≡ true)
  unfolding numeric_rule
  numeric_rule-HasNumber r {result} h p =
      elim (Option-cases (get_field r.field_name candidate.provenance)) [
        | inl e ↦ absurd (ground (arith, h, e, p))
        | inr (field, e) ↦ elim (Bool-cases (str_eq field.unit r.expected_unit)) [
          | inr u ↦ absurd (ground (arith, h, e, u))
          | inl u ↦ elim (Option-cases field.missing_reason) [
            | inr (reason, m) ↦ absurd (ground (arith, h, e, u, m, p))
            | inl m ↦
                (let h1 = rw (e, u, m, numeric_rule) at h in
                  let (value, read, same) =
                    >>=-eq-ok (finite_number candidate python field.value r.maximum_value) _ h1 in
                  record {
                    field = field;
                    value = value;
                    found = e;
                    unit = (str_eq_iff field.unit r.expected_unit).0 u;
                    available = m;
                    read = finite_number-IsRead r.maximum_value field.value read;
                    accepted =
                        judged_number-pass r _ value (ap (λ x. x.verdict) (ok_injective same) ∙ p);
                  })
          ]
        ]
      ]

  -- What the test of a rule says of its number.
  pub HasNumber-accepted :
      {name unit_name : String} {maximum : Option Decimal} {test : Decimal → Bool}
      {Accepted : Decimal → Type 0}
      → ((value : Decimal) → test value ≡ true → Accepted value)
      → HasNumber name unit_name maximum (λ value. test value ≡ true)
      → HasNumber name unit_name maximum Accepted
  HasNumber-accepted says n = record {
    field = n.field;
    value = n.value;
    found = n.found;
    unit = n.unit;
    available = n.available;
    read = n.read;
    accepted = says n.value n.accepted;
  }
