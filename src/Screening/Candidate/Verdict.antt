-- ===== src/Screening/Candidate/Verdict.antt =====
-- The verdict of a candidate, described by the verdicts of its rules.
use Prim.{tt}
use agentic_etf_advisor.Prelude.{
  ◌≡◌, refl, ◌↔◌, inl, inr, true, false, List, [], ◌∷◌, arith, Bool-cases, All, In,
}
use agentic_etf_advisor.Screening.Types.{ScreeningVerdict, pass, fail, unknown}
use agentic_etf_advisor.Screening.Candidate.{is_fail, is_unknown, holds, overall_verdict}

holds_fail_sound : (vs : List ScreeningVerdict) → holds is_fail vs ≡ true → In fail vs
unfolding holds
holds_fail_sound [] h = absurd (cc)
holds_fail_sound (pass ∷ vs) h = inr (holds_fail_sound vs h)
holds_fail_sound (fail ∷ vs) h = inl refl
holds_fail_sound (unknown ∷ vs) h = inr (holds_fail_sound vs h)

holds_fail_complete : (vs : List ScreeningVerdict) → In fail vs → holds is_fail vs ≡ true
unfolding holds
holds_fail_complete [] m = absurd m
holds_fail_complete (v ∷ vs) (inl same) = ground (arith, same)
holds_fail_complete (v ∷ vs) (inr m) = ground (arith, holds_fail_complete vs m)

holds_unknown_sound : (vs : List ScreeningVerdict) → holds is_unknown vs ≡ true → In unknown vs
unfolding holds
holds_unknown_sound [] h = absurd (cc)
holds_unknown_sound (pass ∷ vs) h = inr (holds_unknown_sound vs h)
holds_unknown_sound (fail ∷ vs) h = inr (holds_unknown_sound vs h)
holds_unknown_sound (unknown ∷ vs) h = inl refl

holds_unknown_complete : (vs : List ScreeningVerdict) → In unknown vs → holds is_unknown vs ≡ true
unfolding holds
holds_unknown_complete [] m = absurd m
holds_unknown_complete (v ∷ vs) (inl same) = ground (arith, same)
holds_unknown_complete (v ∷ vs) (inr m) = ground (arith, holds_unknown_complete vs m)

pub All-pass :
    (vs : List ScreeningVerdict)
    → holds is_fail vs ≡ false
    → holds is_unknown vs ≡ false
    → All (λ v. v ≡ pass) vs
unfolding holds
All-pass [] f u = tt
All-pass (pass ∷ vs) f u = (refl, All-pass vs f u)
All-pass (fail ∷ vs) f u = absurd (cc)
All-pass (unknown ∷ vs) f u = absurd (cc)

none_fails : (vs : List ScreeningVerdict) → All (λ v. v ≡ pass) vs → overall_verdict vs ≡ pass
unfolding overall_verdict holds
none_fails [] a = refl
none_fails (v ∷ vs) a = ground (arith, a.0, none_fails vs a.1)

pub overall_verdict-pass :
    (vs : List ScreeningVerdict) → overall_verdict vs ≡ pass → All (λ v. v ≡ pass) vs
unfolding overall_verdict
overall_verdict-pass vs h = All-pass vs (ground arith) (ground arith)

verdict_fail : (vs : List ScreeningVerdict) → overall_verdict vs ≡ fail → In fail vs
unfolding overall_verdict
verdict_fail vs h = holds_fail_sound vs (ground arith)

verdict_unknown :
    (vs : List ScreeningVerdict) → overall_verdict vs ≡ unknown → (¬ (In fail vs)) × In unknown vs
unfolding overall_verdict
verdict_unknown vs h = (
  λ m. let t = holds_fail_complete vs m in absurd (ground arith),
  holds_unknown_sound vs (ground arith),
)

unknown_verdict :
    (vs : List ScreeningVerdict) → ¬ (In fail vs) → In unknown vs → overall_verdict vs ≡ unknown
unfolding overall_verdict
unknown_verdict vs n m = elim (Bool-cases (holds is_fail vs)) [
  | inl f ↦ absurd (n (holds_fail_sound vs f))
  | inr f ↦ (let u = holds_unknown_complete vs m in ground (arith, f, u))
]

fail_verdict : (vs : List ScreeningVerdict) → In fail vs → overall_verdict vs ≡ fail
unfolding overall_verdict
fail_verdict vs m = let f = holds_fail_complete vs m in ground (arith, f)

-- The verdict of a candidate is fail exactly where a rule fails, unknown exactly where none fails and
-- one is unknown, and pass exactly where every rule passes.
pub overall_verdict_lem :
    (vs : List ScreeningVerdict)
    → ((overall_verdict vs ≡ fail) ↔ In fail vs)
      × ((overall_verdict vs ≡ unknown) ↔ ((¬ (In fail vs)) × In unknown vs))
      × ((overall_verdict vs ≡ pass) ↔ All (λ v. v ≡ pass) vs)
overall_verdict_lem vs = (
  (verdict_fail vs, fail_verdict vs),
  (verdict_unknown vs, λ h. unknown_verdict vs h.0 h.1),
  (overall_verdict-pass vs, none_fails vs),
)
