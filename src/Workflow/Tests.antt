-- ===== src/Workflow/Tests.antt =====
-- Routes from single states.
use agentic_etf_advisor.Prelude.{◌<◌, String, ◌≡◌, refl, ◌⊎◌, true, false, arith}
use agentic_etf_advisor.Workflow.{
  Node, draft_policy, prepare_retrieve_candidate_evidence, retrieve_candidate_evidence,
  construct_portfolio, draft_explanation, human_review, finalize_review, AdvisorState, node, end,
  no_route, status_is, routes, next_revision, if_awaiting, unless_blocked, route,
}
use agentic_etf_advisor.Workflow.Routes.{
  route-rank, route-blocked, route-human_review, route-retrieve_candidate_evidence,
  route-finalize_review,
}

abbrev at_status : String → AdvisorState
at_status status = record {
  status = status;
  next_stage = "draft_explanation";
  with_evidence = true;
  with_explanation = false;
}

to_review : route construct_portfolio (at_status "awaiting_human_review") ≡ node human_review
unfolding route if_awaiting
to_review = refl

-- The saved stage of an explanation leads to its preparation, the review to no node at all.
stage_runs :
    (next_revision (at_status "revision_planned") ≡ node Node.prepare_draft_explanation)
    × (routes "human_review" ≡ no_route)
unfolding next_revision routes
stage_runs = (refl, refl)

to_retrieval :
    route prepare_retrieve_candidate_evidence (at_status "operation_prepared")
    ≡ node retrieve_candidate_evidence
unfolding route unless_blocked
to_retrieval = refl

to_decision : route human_review (at_status "awaiting_human_review") ≡ node finalize_review
unfolding route unless_blocked
to_decision = refl

route-rank_example : 6 < 9
route-rank_example =
    route-rank construct_portfolio human_review (at_status "awaiting_human_review") (omega arith)
      to_review

route-blocked_example : route retrieve_candidate_evidence (at_status "revision_blocked") ≡ end
route-blocked_example =
    route-blocked retrieve_candidate_evidence (at_status "revision_blocked") refl

route-human_review_example :
    ((construct_portfolio ≡ draft_policy) × (true ≡ false))
    ⊎ ((construct_portfolio ≡ construct_portfolio)
        × (status_is "awaiting_human_review" (at_status "awaiting_human_review") ≡ true)
        × (false ≡ false))
    ⊎ ((construct_portfolio ≡ draft_explanation)
        × (status_is "awaiting_human_review" (at_status "awaiting_human_review") ≡ true))
route-human_review_example =
    route-human_review construct_portfolio (at_status "awaiting_human_review") to_review

route-retrieve_candidate_evidence_example :
    (prepare_retrieve_candidate_evidence ≡ prepare_retrieve_candidate_evidence)
    × (status_is "revision_blocked" (at_status "operation_prepared") ≡ false)
route-retrieve_candidate_evidence_example =
    route-retrieve_candidate_evidence prepare_retrieve_candidate_evidence
      (at_status "operation_prepared") to_retrieval

route-finalize_review_example :
    (human_review ≡ human_review)
    × (status_is "revision_blocked" (at_status "awaiting_human_review") ≡ false)
route-finalize_review_example =
    route-finalize_review human_review (at_status "awaiting_human_review") to_decision
