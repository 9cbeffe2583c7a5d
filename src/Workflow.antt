-- ===== src/Workflow.antt =====
-- src/etf_advisor/graph/workflow.py: the nodes of the workflow and the edges between them.
pub mod Routes
mod Tests
use agentic_etf_advisor.Prelude.{
  ℕ, zero, suc, ◌+◌, ◌-◌, ◌*◌, ◌/◌, ◌%◌, ◌^◌, ◌≤◌, ◌<◌, min, String, ◌≡◌, refl, sym, ap, ◌∙◌, ◌≢◌,
  ◌↔◌, ◌⊎◌, inl, inr, Bool, true, false, not, ◌&&◌, ◌||◌, Option, none, some, List, [], ◌∷◌, ◌++◌,
  map, arith, str_eq, str_eq_iff, ltb, leb, ◌==◌, if◌then◌else◌, is_some, is_none, Bool-cases,
  Option-cases, leb→le, le→leb, ltb→lt, sum, length, ◌>>=◌, >>=-eq-some, get_or, set, take,
  replicate, all, All, In, half_up, half_up_bounds, half_up_unique, half_up_round_trip,
  half_up_mono, ℤ, pos, negsuc, Decimal, whole, leb_dec, eqb_dec, exact_hundredths,
  rounded_hundredths, hundredths,
}

-- the nodes that `build_graph` adds
pub data Node : Type 0 where
  begin_revision validate_profile draft_policy : Node
  prepare_retrieve_candidate_evidence retrieve_candidate_evidence : Node
  screen_candidates construct_portfolio : Node
  prepare_draft_explanation draft_explanation : Node
  human_review finalize_review : Node

-- What the edges read of the state that a node leaves: its status and next stage, and the switches of
-- the inputs of the current revision.
pub record AdvisorState : Type 0 where
  pub status : String
  pub next_stage : String
  pub with_evidence : Bool
  pub with_explanation : Bool

-- The next node, the end, or an error for a route that the graph does not have.
pub data Next : Type 0 where
  node : Node → Next
  end no_route : Next

abbrev pub status_is : String → AdvisorState → Bool
status_is s state = str_eq state.status s

-- `routes`
unfoldable pub routes : String → Next
routes stage =
    if str_eq stage "validate_profile"
    then node validate_profile
    else if str_eq stage "screen_candidates"
    then node screen_candidates
    else if str_eq stage "construct_portfolio"
    then node construct_portfolio
    else if str_eq stage "prepare_retrieve_candidate_evidence"
        || str_eq stage "retrieve_candidate_evidence"
    then node prepare_retrieve_candidate_evidence
    else if str_eq stage "prepare_draft_explanation" || str_eq stage "draft_explanation"
    then node prepare_draft_explanation
    else if str_eq stage "end"
    then end
    else no_route

-- `next_revision`
unfoldable pub next_revision : AdvisorState → Next
next_revision state =
    if status_is "revision_blocked" state || status_is "invalid_profile" state
    then end
    else routes state.next_stage

-- an edge that a status of `awaiting_human_review` opens
unfoldable pub if_awaiting : Next → AdvisorState → Next
if_awaiting next state = if status_is "awaiting_human_review" state then next else end

-- an edge that only a blocked revision closes
unfoldable pub unless_blocked : Next → AdvisorState → Next
unless_blocked next state = if status_is "revision_blocked" state then end else next

-- The conditional edges of `build_graph`.
unfoldable pub route : Node → AdvisorState → Next
route begin_revision state = next_revision state
route validate_profile state =
    if status_is "profile_validated" state then node draft_policy else end
route draft_policy state =
    unless_blocked
      (if state.with_evidence then node prepare_retrieve_candidate_evidence else node human_review)
      state
route prepare_retrieve_candidate_evidence state =
    unless_blocked (node retrieve_candidate_evidence) state
route retrieve_candidate_evidence state = if_awaiting (node screen_candidates) state
route screen_candidates state = if_awaiting (node construct_portfolio) state
route construct_portfolio state =
    if_awaiting
      (if state.with_explanation then node prepare_draft_explanation else node human_review) state
route prepare_draft_explanation state = unless_blocked (node draft_explanation) state
route draft_explanation state = if_awaiting (node human_review) state
route human_review state = unless_blocked (node finalize_review) state
route finalize_review state = next_revision state
