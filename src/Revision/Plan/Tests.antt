-- ===== src/Revision/Plan/Tests.antt =====
-- Plans of a revision that changes the construction policy and the limit of the retrieval.
use agentic_etf_advisor.Prelude.{
  ℕ, String, ◌≡◌, refl, true, false, Option, none, some, [], ◌∷◌, leb, if◌then◌else◌, is_space,
}
use agentic_etf_advisor.Profile.Sample.{request, profile, validated}
use agentic_etf_advisor.Revision.Decision.{
  evidence_feedback, construction_feedback, ReviewDecision, edit, revise, class_index, is_revise,
  coherent, is_identifier, action_ok, distinct_kinds, is_blank, is_close,
}
use agentic_etf_advisor.Revision.Plan.{
  RevisionInputs, PolicyPatches, PlanContent, RevisionPlan, retrieve_candidate_evidence,
  dependencies, apply_feedback, apply_all, plan_content, plan_revision, insert_class, sort_classes,
}
use agentic_etf_advisor.Revision.Plan.Earliest.{IsEarliest}
use agentic_etf_advisor.Revision.Plan.Upstream.{
  SameUpstream, plan_revision-IsEarliest, plan_revision-SameUpstream,
}
use agentic_etf_advisor.Revision.Plan.Pinned.{IsPinned, IsValidated, plan_revision-IsPinned}
use agentic_etf_advisor.Workflow.{Node, node, routes}
use agentic_etf_advisor.Workflow.Routes.{stage_text, plan_revision-routes}

-- policies that are one number, of at most one hundred
abbrev bounded : ℕ → ℕ → Option ℕ
bounded policy patch = if leb patch 100 then some patch else none

abbrev patches : PolicyPatches ℕ ℕ ℕ ℕ
patches = record { patch_screening = bounded; patch_construction = bounded }

abbrev inputs : RevisionInputs ℕ ℕ
inputs = record {
  profile = profile;
  screening_policy = 1;
  construction_policy = 2;
  candidate_limit = 10;
  with_evidence = true;
  with_explanation = false;
  explanation_instruction = "";
}

abbrev decision : ReviewDecision ℕ ℕ
decision = record {
  decision_id = "d-1";
  revision_id = "r-1";
  action = edit;
  disposition = some revise;
  note = "fewer positions";
  feedback = construction_feedback 7 ∷ evidence_feedback 20 ∷ [];
  submitted_at = 5;
}

abbrev digest : PlanContent ℕ ℕ → String
digest content = "digest"

abbrev plan : RevisionPlan ℕ ℕ
plan = record {
  content = record {
    restart_stage = retrieve_candidate_evidence;
    invalidated =
        "candidate_evidence" ∷ "candidate_screening" ∷ "portfolio_construction"
        ∷ "draft_explanation" ∷ "evidence_errors" ∷ "screening_errors" ∷ "construction_errors"
        ∷ "explanation_errors" ∷ "review_decision" ∷ "final_message" ∷ [];
    feedback_classes = 1 ∷ 3 ∷ [];
    inputs = record inputs { construction_policy = 7; candidate_limit = 20 };
  };
  planning_digest = "digest";
}

planned : plan_revision patches digest decision inputs ≡ some plan
unfolding plan_revision coherent is_identifier action_ok distinct_kinds is_blank is_space is_revise
    is_close class_index dependencies apply_all apply_feedback plan_content sort_classes
    insert_class
planned = refl

-- A blank note, or a class that stands twice, makes a decision incoherent.
blank_note_raises : plan_revision patches digest (record decision { note = "  " }) inputs ≡ none
unfolding plan_revision coherent is_identifier action_ok distinct_kinds is_blank is_space is_revise
    is_close class_index
blank_note_raises = refl

twice_raises :
    plan_revision patches digest
      (record decision { feedback = evidence_feedback 20 ∷ evidence_feedback 30 ∷ [] })
      inputs
    ≡ none
unfolding plan_revision coherent is_identifier action_ok distinct_kinds is_blank is_space is_revise
    is_close class_index
twice_raises = refl

plan_revision-IsEarliest_example : (k : ℕ) × IsEarliest k (3 ∷ 1 ∷ []) plan.content
unfolding class_index
plan_revision-IsEarliest_example = plan_revision-IsEarliest patches digest decision inputs planned

plan_revision-SameUpstream_example :
    SameUpstream retrieve_candidate_evidence inputs plan.content.inputs
    × (true ≡ true)
    × (false ≡ false)
plan_revision-SameUpstream_example =
    plan_revision-SameUpstream patches digest decision inputs planned

plan_revision-IsPinned_example :
    IsPinned profile profile × (dependencies plan.content.inputs ≡ true) × IsValidated profile
plan_revision-IsPinned_example =
    plan_revision-IsPinned patches inputs request validated digest decision planned

plan_revision-routes_example :
    (n : Node) × (routes (stage_text plan.content.restart_stage) ≡ node n)
plan_revision-routes_example = plan_revision-routes patches digest decision inputs planned
