-- ===== src/Workflow/Routes.antt =====
-- The orders in which the nodes can run.
use agentic_etf_advisor.Prelude.{
  ℕ, zero, suc, ◌≤◌, ◌<◌, String, ◌≡◌, refl, ap, ◌∙◌, ◌⊎◌, inl, inr, true, false, some, List, [],
  ◌∷◌, map, arith, get_or, In,
}
use agentic_etf_advisor.Workflow.{
  Node, begin_revision, validate_profile, draft_policy, prepare_retrieve_candidate_evidence,
  retrieve_candidate_evidence, screen_candidates, construct_portfolio, prepare_draft_explanation,
  draft_explanation, human_review, finalize_review, AdvisorState, node, end, status_is, routes,
  next_revision, if_awaiting, unless_blocked, route,
}
use agentic_etf_advisor.Revision.Decision.{
  Feedback, profile_feedback, evidence_feedback, screening_feedback, construction_feedback,
  explanation_feedback, ReviewDecision, class_index,
}
use agentic_etf_advisor.Revision.Plan.{
  Stage, stages, RevisionInputs, PolicyPatches, PlanContent, RevisionPlan, plan_revision,
}
use agentic_etf_advisor.Revision.Plan.Upstream.{plan_revision-IsEarliest}

-- the place of a node in one pass through the graph
abbrev pub rank : Node → ℕ
rank begin_revision = 0
rank validate_profile = 1
rank draft_policy = 2
rank prepare_retrieve_candidate_evidence = 3
rank retrieve_candidate_evidence = 4
rank screen_candidates = 5
rank construct_portfolio = 6
rank prepare_draft_explanation = 7
rank draft_explanation = 8
rank human_review = 9
rank finalize_review = 10

-- A node before the decision leads to a later node only.
pub route-rank :
    (n m : Node) (state : AdvisorState) → rank n < 10 → route n state ≡ node m → rank n < rank m
unfolding route next_revision routes if_awaiting unless_blocked
route-rank begin_revision m state lt h = ground arith
route-rank validate_profile m state lt h = ground arith
route-rank draft_policy m state lt h = ground arith
route-rank prepare_retrieve_candidate_evidence m state lt h = ground arith
route-rank retrieve_candidate_evidence m state lt h = ground arith
route-rank screen_candidates m state lt h = ground arith
route-rank construct_portfolio m state lt h = ground arith
route-rank prepare_draft_explanation m state lt h = ground arith
route-rank draft_explanation m state lt h = ground arith
route-rank human_review m state lt h = ground arith
route-rank finalize_review m state lt h = absurd (omega arith)

-- A blocked revision ends the run, whichever node blocked it.
pub route-blocked :
    (n : Node) (state : AdvisorState) → state.status ≡ "revision_blocked" → route n state ≡ end
unfolding route next_revision if_awaiting unless_blocked
route-blocked begin_revision state h = rw h refl
route-blocked validate_profile state h = rw h refl
route-blocked draft_policy state h = rw h refl
route-blocked prepare_retrieve_candidate_evidence state h = rw h refl
route-blocked retrieve_candidate_evidence state h = rw h refl
route-blocked screen_candidates state h = rw h refl
route-blocked construct_portfolio state h = rw h refl
route-blocked prepare_draft_explanation state h = rw h refl
route-blocked draft_explanation state h = rw h refl
route-blocked human_review state h = rw h refl
route-blocked finalize_review state h = rw h refl

-- The review is entered from a drafted policy in a revision without evidence, from a constructed
-- portfolio that awaits review in a revision without explanation, or from an explanation that awaits
-- review.
pub route-human_review :
    (n : Node) (state : AdvisorState)
    → route n state ≡ node human_review
    → ((n ≡ draft_policy) × (state.with_evidence ≡ false))
      ⊎ ((n ≡ construct_portfolio)
          × (status_is "awaiting_human_review" state ≡ true)
          × (state.with_explanation ≡ false))
      ⊎ ((n ≡ draft_explanation) × (status_is "awaiting_human_review" state ≡ true))
unfolding route next_revision routes if_awaiting unless_blocked
route-human_review begin_revision state h = ground arith
route-human_review validate_profile state h = ground arith
route-human_review draft_policy state h = ground arith
route-human_review prepare_retrieve_candidate_evidence state h = ground arith
route-human_review retrieve_candidate_evidence state h = ground arith
route-human_review screen_candidates state h = ground arith
route-human_review construct_portfolio state h = ground arith
route-human_review prepare_draft_explanation state h = ground arith
route-human_review draft_explanation state h = ground arith
route-human_review human_review state h = ground arith
route-human_review finalize_review state h = ground arith

-- The retrieval is entered from its preparation only, and only where that has not blocked the revision.
pub route-retrieve_candidate_evidence :
    (n : Node) (state : AdvisorState)
    → route n state ≡ node retrieve_candidate_evidence
    → (n ≡ prepare_retrieve_candidate_evidence) × (status_is "revision_blocked" state ≡ false)
unfolding route next_revision routes if_awaiting unless_blocked
route-retrieve_candidate_evidence begin_revision state h = ground arith
route-retrieve_candidate_evidence validate_profile state h = ground arith
route-retrieve_candidate_evidence draft_policy state h = ground arith
route-retrieve_candidate_evidence prepare_retrieve_candidate_evidence state h = ground arith
route-retrieve_candidate_evidence retrieve_candidate_evidence state h = ground arith
route-retrieve_candidate_evidence screen_candidates state h = ground arith
route-retrieve_candidate_evidence construct_portfolio state h = ground arith
route-retrieve_candidate_evidence prepare_draft_explanation state h = ground arith
route-retrieve_candidate_evidence draft_explanation state h = ground arith
route-retrieve_candidate_evidence human_review state h = ground arith
route-retrieve_candidate_evidence finalize_review state h = ground arith

-- The decision is entered from the review only, and only where that has not blocked the revision.
pub route-finalize_review :
    (n : Node) (state : AdvisorState)
    → route n state ≡ node finalize_review
    → (n ≡ human_review) × (status_is "revision_blocked" state ≡ false)
unfolding route next_revision routes if_awaiting unless_blocked
route-finalize_review begin_revision state h = ground arith
route-finalize_review validate_profile state h = ground arith
route-finalize_review draft_policy state h = ground arith
route-finalize_review prepare_retrieve_candidate_evidence state h = ground arith
route-finalize_review retrieve_candidate_evidence state h = ground arith
route-finalize_review screen_candidates state h = ground arith
route-finalize_review construct_portfolio state h = ground arith
route-finalize_review prepare_draft_explanation state h = ground arith
route-finalize_review draft_explanation state h = ground arith
route-finalize_review human_review state h = ground arith
route-finalize_review finalize_review state h = ground arith

-- the value of a stage, as `next_stage` holds it
unfoldable pub stage_text : Stage → String
stage_text Stage.validate_profile = "validate_profile"
stage_text Stage.retrieve_candidate_evidence = "retrieve_candidate_evidence"
stage_text Stage.screen_candidates = "screen_candidates"
stage_text Stage.construct_portfolio = "construct_portfolio"
stage_text Stage.draft_explanation = "draft_explanation"
stage_text Stage.human_review = "human_review"

class_index-le : {SP CP : Type 0} (f : Feedback SP CP) → class_index f ≤ 4
unfolding class_index
class_index-le (profile_feedback p) = omega arith
class_index-le (evidence_feedback n) = omega arith
class_index-le (screening_feedback p) = omega arith
class_index-le (construction_feedback p) = omega arith
class_index-le (explanation_feedback s) = omega arith

In-class_index-le :
    {SP CP : Type 0} (fs : List (Feedback SP CP)) (k : ℕ) → In k (map class_index fs) → k ≤ 4
In-class_index-le [] k m = absurd m
In-class_index-le (f ∷ fs) k (inl same) = omega (arith, same, class_index-le f)
In-class_index-le (f ∷ fs) k (inr m) = In-class_index-le fs k m

stage_routes :
    (k : ℕ)
    → k ≤ 4
    → (n : Node) × (routes (stage_text (get_or stages k Stage.human_review)) ≡ node n)
unfolding routes stage_text
stage_routes zero le = (validate_profile, refl)
stage_routes (suc zero) le = (prepare_retrieve_candidate_evidence, refl)
stage_routes (suc (suc zero)) le = (screen_candidates, refl)
stage_routes (suc (suc (suc zero))) le = (construct_portfolio, refl)
stage_routes (suc (suc (suc (suc zero)))) le = (prepare_draft_explanation, refl)
stage_routes (suc (suc (suc (suc (suc k))))) le = absurd (omega arith)

-- The restart stage of every planned revision is one that the graph has a route for.
pub plan_revision-routes :
    {S C SP CP : Type 0} (patches : PolicyPatches S C SP CP) (digest : PlanContent S C → String)
    (decision : ReviewDecision SP CP) (inputs : RevisionInputs S C) {plan : RevisionPlan S C}
    → plan_revision patches digest decision inputs ≡ some plan
    → (n : Node) × (routes (stage_text plan.content.restart_stage) ≡ node n)
plan_revision-routes patches digest decision inputs h =
    let (k, earliest) = plan_revision-IsEarliest patches digest decision inputs h in
    let (n, e) = stage_routes k (In-class_index-le decision.feedback k earliest.named) in
    (n, ap (λ s. routes (stage_text s)) earliest.restart ∙ e)
