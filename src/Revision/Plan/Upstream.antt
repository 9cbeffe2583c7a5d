-- ===== src/Revision/Plan/Upstream.antt =====
-- The stage at which a revision restarts: what the stages before it were computed from stays as it is.
use mathlib.Core.Option.{some-injective}
use mathlib.Core.Path.{subst}
use Prim.{tt}
use agentic_etf_advisor.Prelude.{
  ℕ, zero, suc, ◌≤◌, ◌<◌, String, ◌≡◌, refl, sym, ap, ◌∙◌, inl, inr, Bool, true, false, Option,
  none, some, List, [], ◌∷◌, map, arith, if◌then◌else◌, Bool-cases, >>=-eq-some, get_or, All,
}
use agentic_etf_advisor.Revision.Decision.{
  Feedback, profile_feedback, evidence_feedback, screening_feedback, construction_feedback,
  explanation_feedback, ReviewDecision, class_index,
}
use agentic_etf_advisor.Profile.{model_dump}
use agentic_etf_advisor.Revision.Plan.{
  RevisionInputs, PolicyPatches, Stage, validate_profile, retrieve_candidate_evidence,
  screen_candidates, construct_portfolio, draft_explanation, human_review, stages, PlanContent,
  RevisionPlan, sort_classes, dependencies, plan_content, apply_feedback, apply_all, plan_revision,
  patch_profile,
}
use agentic_etf_advisor.Revision.Plan.Earliest.{IsEarliest, plan_content-inv}

-- What the stages before a restart were computed from, in the order of the stages: the profile, the
-- limit of the retrieval, the screening policy, the construction policy, the instruction.
unfoldable pub SameUpstream :
    {S C : Type 0} → Stage → RevisionInputs S C → RevisionInputs S C → Type 0
SameUpstream validate_profile a b = Unit
SameUpstream retrieve_candidate_evidence a b = a.profile ≡ b.profile
SameUpstream screen_candidates a b =
    (a.profile ≡ b.profile) × (a.candidate_limit ≡ b.candidate_limit)
SameUpstream construct_portfolio a b =
    (a.profile ≡ b.profile)
    × (a.candidate_limit ≡ b.candidate_limit)
    × (a.screening_policy ≡ b.screening_policy)
SameUpstream draft_explanation a b =
    (a.profile ≡ b.profile)
    × (a.candidate_limit ≡ b.candidate_limit)
    × (a.screening_policy ≡ b.screening_policy)
    × (a.construction_policy ≡ b.construction_policy)
SameUpstream human_review a b =
    (a.profile ≡ b.profile)
    × (a.candidate_limit ≡ b.candidate_limit)
    × (a.screening_policy ≡ b.screening_policy)
    × (a.construction_policy ≡ b.construction_policy)
    × (a.explanation_instruction ≡ b.explanation_instruction)

-- Two inputs that differ at the class `k` and later classes only.
pub record IsFrom {S C : Type 0} (k : ℕ) (a b : RevisionInputs S C) : Type 0 where
  pub profile : 0 < k → a.profile ≡ b.profile
  pub limit : 1 < k → a.candidate_limit ≡ b.candidate_limit
  pub screening : 2 < k → a.screening_policy ≡ b.screening_policy
  pub construction : 3 < k → a.construction_policy ≡ b.construction_policy
  pub instruction : 4 < k → a.explanation_instruction ≡ b.explanation_instruction
  pub evidence : a.with_evidence ≡ b.with_evidence
  pub explanation : a.with_explanation ≡ b.with_explanation

IsFrom-refl : {S C : Type 0} (k : ℕ) (a : RevisionInputs S C) → IsFrom k a a
IsFrom-refl k a = record {
  profile = λ h. refl;
  limit = λ h. refl;
  screening = λ h. refl;
  construction = λ h. refl;
  instruction = λ h. refl;
  evidence = refl;
  explanation = refl;
}

IsFrom-trans :
    {S C : Type 0} (k : ℕ) {a b c : RevisionInputs S C} → IsFrom k a b → IsFrom k b c → IsFrom k a c
IsFrom-trans k x y = record {
  profile = λ h. x.profile h ∙ y.profile h;
  limit = λ h. x.limit h ∙ y.limit h;
  screening = λ h. x.screening h ∙ y.screening h;
  construction = λ h. x.construction h ∙ y.construction h;
  instruction = λ h. x.instruction h ∙ y.instruction h;
  evidence = x.evidence ∙ y.evidence;
  explanation = x.explanation ∙ y.explanation;
}

if-some {ℓ} :
    {A : Type ℓ} (b : Bool) (m : Option A) {a : A} → (if b then none else m) ≡ some a → m ≡ some a
if-some true m h = absurd (cc)
if-some false m h = h

module _ {S C SP CP : Type 0} (patches : PolicyPatches S C SP CP)
    (inputs : RevisionInputs S C) where
  -- One feedback changes the input of its own class only.
  apply_feedback-IsFrom :
      (k : ℕ) (f : Feedback SP CP) (u : RevisionInputs S C) {v : RevisionInputs S C}
      → k ≤ class_index f
      → apply_feedback patches inputs f u ≡ some v
      → IsFrom k u v
  unfolding apply_feedback class_index
  apply_feedback-IsFrom k (profile_feedback patch) u le h =
      let (p, e, same) =
        >>=-eq-some (patch_profile (model_dump inputs.profile) patch) _ (if-some _ _ h) in
      let r = IsFrom-refl k (record u { profile = p }) in
      subst (IsFrom k u) (some-injective _ _ same) (record {
        profile = λ lt. absurd (omega arith);
        limit = r.limit;
        screening = r.screening;
        construction = r.construction;
        instruction = r.instruction;
        evidence = r.evidence;
        explanation = r.explanation;
      })
  apply_feedback-IsFrom k (evidence_feedback limit) u le h =
      subst (IsFrom k u) (some-injective _ _ (if-some _ _ h)) (record {
        profile = λ lt. refl;
        limit = λ lt. absurd (omega arith);
        screening = λ lt. refl;
        construction = λ lt. refl;
        instruction = λ lt. refl;
        evidence = refl;
        explanation = refl;
      })
  apply_feedback-IsFrom k (screening_feedback patch) u le h =
      let (p, e, same) =
        >>=-eq-some (patches.patch_screening inputs.screening_policy patch) _ (if-some _ _ h) in
      subst (IsFrom k u) (some-injective _ _ same) (record {
        profile = λ lt. refl;
        limit = λ lt. refl;
        screening = λ lt. absurd (omega arith);
        construction = λ lt. refl;
        instruction = λ lt. refl;
        evidence = refl;
        explanation = refl;
      })
  apply_feedback-IsFrom k (construction_feedback patch) u le h =
      let (p, e, same) =
        >>=-eq-some (patches.patch_construction inputs.construction_policy patch) _
          (if-some _ _ h) in
      subst (IsFrom k u) (some-injective _ _ same) (record {
        profile = λ lt. refl;
        limit = λ lt. refl;
        screening = λ lt. refl;
        construction = λ lt. absurd (omega arith);
        instruction = λ lt. refl;
        evidence = refl;
        explanation = refl;
      })
  apply_feedback-IsFrom k (explanation_feedback instruction) u le h =
      subst (IsFrom k u) (some-injective _ _ (if-some _ _ h)) (record {
        profile = λ lt. refl;
        limit = λ lt. refl;
        screening = λ lt. refl;
        construction = λ lt. refl;
        instruction = λ lt. absurd (omega arith);
        evidence = refl;
        explanation = refl;
      })

  apply_all-IsFrom :
      (k : ℕ) (fs : List (Feedback SP CP)) (u : RevisionInputs S C) {v : RevisionInputs S C}
      → All (λ j. k ≤ j) (map class_index fs)
      → apply_all patches inputs fs u ≡ some v
      → IsFrom k u v
  unfolding apply_all
  apply_all-IsFrom k [] u le h = subst (IsFrom k u) (some-injective _ _ h) (IsFrom-refl k u)
  apply_all-IsFrom k (f ∷ fs) u le h =
      let (w, e, h') = >>=-eq-some (apply_feedback patches inputs f u) _ h in
      IsFrom-trans k (apply_feedback-IsFrom k f u le.0 e) (apply_all-IsFrom k fs w le.1 h')

past_stages : (k : ℕ) → get_or stages (suc (suc (suc (suc (suc k))))) human_review ≡ human_review
past_stages zero = refl
past_stages (suc k) = refl

SameUpstream-of :
    {S C : Type 0} (k : ℕ) (a b : RevisionInputs S C)
    → IsFrom k a b
    → SameUpstream (get_or stages k human_review) a b
unfolding SameUpstream
SameUpstream-of zero a b r = tt
SameUpstream-of (suc zero) a b r = r.profile (omega arith)
SameUpstream-of (suc (suc zero)) a b r = (r.profile (omega arith), r.limit (omega arith))
SameUpstream-of (suc (suc (suc zero))) a b r =
    (r.profile (omega arith), r.limit (omega arith), r.screening (omega arith))
SameUpstream-of (suc (suc (suc (suc zero)))) a b r = (
  r.profile (omega arith),
  r.limit (omega arith),
  r.screening (omega arith),
  r.construction (omega arith),
)
SameUpstream-of (suc (suc (suc (suc (suc k))))) a b r =
    subst (λ s. SameUpstream s a b) (sym (past_stages k))
      (
        r.profile (omega arith),
        r.limit (omega arith),
        r.screening (omega arith),
        r.construction (omega arith),
        r.instruction (omega arith),
      )

module _ {S C SP CP : Type 0} (patches : PolicyPatches S C SP CP)
    (digest : PlanContent S C → String) (decision : ReviewDecision SP CP)
    (inputs : RevisionInputs S C) where
  pub plan_revision-valid :
      {plan : RevisionPlan S C}
      → plan_revision patches digest decision inputs ≡ some plan
      → dependencies inputs ≡ true
  unfolding plan_revision
  plan_revision-valid h = elim (Bool-cases (dependencies inputs)) [
    | inl e ↦ e
    | inr e ↦ absurd (ground (arith, h, e))
  ]

  pub plan_revision-inv :
      {plan : RevisionPlan S C}
      → plan_revision patches digest decision inputs ≡ some plan
      → (apply_all patches inputs decision.feedback inputs ≡ some plan.content.inputs)
        × ((k : ℕ) × IsEarliest k (map class_index decision.feedback) plan.content)
  unfolding plan_revision
  plan_revision-inv h =
      let (updated, e, h1) =
        >>=-eq-some (apply_all patches inputs decision.feedback inputs) _ (if-some _ _ h) in
      let (content, e', same) =
        >>=-eq-some (plan_content (sort_classes (map class_index decision.feedback)) updated) _
          h1 in
      let q = ap (λ p. p.content) (some-injective _ _ same) in
      let (k, earliest, kept) = plan_content-inv (map class_index decision.feedback) updated e' in
      (
        e ∙ ap some (sym kept ∙ ap (λ c. c.inputs) q),
        (k, subst (IsEarliest k (map class_index decision.feedback)) q earliest),
      )

  -- A revision restarts at the stage of the earliest class that the feedback names, and invalidates
  -- the artifacts and errors of that stage and of every later one, and the review.
  pub plan_revision-IsEarliest :
      {plan : RevisionPlan S C}
      → plan_revision patches digest decision inputs ≡ some plan
      → (k : ℕ) × IsEarliest k (map class_index decision.feedback) plan.content
  plan_revision-IsEarliest h = (plan_revision-inv h).1

  -- A revision changes nothing that the stages before its restart were computed from, and turns
  -- neither the evidence nor the explanation on or off.
  pub plan_revision-SameUpstream :
      {plan : RevisionPlan S C}
      → plan_revision patches digest decision inputs ≡ some plan
      → SameUpstream plan.content.restart_stage inputs plan.content.inputs
        × (inputs.with_evidence ≡ plan.content.inputs.with_evidence)
        × (inputs.with_explanation ≡ plan.content.inputs.with_explanation)
  plan_revision-SameUpstream {plan} h =
      let (e, (k, earliest)) = plan_revision-inv h in
      let r = apply_all-IsFrom patches inputs k decision.feedback inputs earliest.first e in
      (
        subst (λ s. SameUpstream s inputs plan.content.inputs) (sym earliest.restart)
            (SameUpstream-of k inputs plan.content.inputs r),
        r.evidence,
        r.explanation,
      )
