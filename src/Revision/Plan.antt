-- ===== src/Revision/Plan.antt =====
-- `RevisionInputs` and `plan_revision` of src/etf_advisor/domain/revision.py.
pub mod Earliest
pub mod Upstream
pub mod Pinned
mod Tests
use agentic_etf_advisor.Prelude.{
  ℕ, zero, suc, ◌+◌, ◌-◌, ◌*◌, ◌/◌, ◌%◌, ◌^◌, ◌≤◌, ◌<◌, min, String, ◌≡◌, refl, sym, ap, ◌∙◌, ◌≢◌,
  ◌↔◌, ◌⊎◌, inl, inr, Bool, true, false, not, ◌&&◌, ◌||◌, Option, none, some, List, [], ◌∷◌, ◌++◌,
  map, arith, str_eq, str_eq_iff, ltb, leb, ◌==◌, if◌then◌else◌, is_some, is_none, Bool-cases,
  Option-cases, leb→le, le→leb, ltb→lt, sum, length, ◌>>=◌, >>=-eq-some, get_or, set, take,
  replicate, all, All, In, half_up, half_up_bounds, half_up_unique, half_up_round_trip,
  half_up_mono, ℤ, pos, negsuc, Decimal, whole, leb_dec, eqb_dec, exact_hundredths,
  rounded_hundredths, hundredths, codes,
}
use agentic_etf_advisor.Profile.{
  Currency, InvestorProfile, ProfileInput, CatalogueRequest, Entry, absent, null, given, Signed,
  present, is_given, model_validate, model_dump,
}
use agentic_etf_advisor.Revision.Decision.{
  ProfilePatch, Feedback, profile_feedback, evidence_feedback, screening_feedback,
  construction_feedback, explanation_feedback, ReviewDecision, class_index, is_revise, coherent,
  max_note, is_note,
}

pub record RevisionInputs (S C : Type 0) : Type 0 where
  pub profile : InvestorProfile
  pub screening_policy : S
  pub construction_policy : C
  pub candidate_limit : ℕ
  pub with_evidence : Bool
  pub with_explanation : Bool
  pub explanation_instruction : String

-- The two policies as the plan sees them: a patch over a policy, validated, or none where that raises.
pub record PolicyPatches (S C SP CP : Type 0) : Type 0 where
  pub patch_screening : S → SP → Option S
  pub patch_construction : C → CP → Option C

abbrev pub max_candidate_limit : ℕ
max_candidate_limit = 50

-- `STAGES`
pub data Stage : Type 0 where
  validate_profile retrieve_candidate_evidence screen_candidates construct_portfolio : Stage
  draft_explanation human_review : Stage

abbrev pub stages : List Stage
stages =
    validate_profile ∷ retrieve_candidate_evidence ∷ screen_candidates ∷ construct_portfolio
    ∷ draft_explanation ∷ human_review ∷ []

abbrev pub artifacts : List String
artifacts =
    "draft_policy" ∷ "candidate_evidence" ∷ "candidate_screening" ∷ "portfolio_construction"
    ∷ "draft_explanation" ∷ []

abbrev pub errors : List String
errors =
    "validation_errors" ∷ "evidence_errors" ∷ "screening_errors" ∷ "construction_errors"
    ∷ "explanation_errors" ∷ []

-- `xs[n:]`
abbrev pub drop {ℓ} : {A : Type ℓ} → List A → ℕ → List A
drop [] n = []
drop (x ∷ xs) zero = x ∷ xs
drop (x ∷ xs) (suc n) = drop xs n

-- `{**profile, **patch}` at a field that may be missing, and at one that may not be: there None does
-- not validate.
abbrev pub over : {A : Type 0} → Entry A → Entry A → Entry A
over absent old = old
over null old = null
over (given a) old = given a

abbrev pub over_required : {A : Type 0} → Entry A → A → Option A
over_required absent old = some old
over_required null old = none
over_required (given a) old = some a

-- `InvestorProfile.model_validate({**profile, **patch})`
unfoldable pub patch_profile : ProfileInput → ProfilePatch → Option InvestorProfile
patch_profile old patch = do
  horizon ← over_required patch.horizon_years old.horizon_years
  risk ← over_required patch.risk_tolerance old.risk_tolerance
  objective ← over_required patch.objective old.objective
  drawdown ← over_required patch.max_drawdown_pct old.max_drawdown_pct
  sectors ← over_required patch.excluded_sectors old.excluded_sectors
  merged ←
      (if patch.unknown_keys
        then none
        else some (record {
          horizon_years = horizon;
          risk_tolerance = risk;
          objective = objective;
          max_drawdown_pct = drawdown;
          advisory_contract = over patch.advisory_contract old.advisory_contract;
          identity_contract = over patch.identity_contract old.identity_contract;
          base_currency = over patch.base_currency old.base_currency;
          initial_investment_usd = over patch.initial_investment_usd old.initial_investment_usd;
          recurring_monthly_usd = over patch.recurring_monthly_usd old.recurring_monthly_usd;
          initial_investment_minor =
              over patch.initial_investment_minor old.initial_investment_minor;
          recurring_monthly_minor = over patch.recurring_monthly_minor old.recurring_monthly_minor;
          excluded_sectors = sectors;
          catalogue_request = over patch.catalogue_request old.catalogue_request;
        }))
  model_validate merged

-- `a == b` where a missing key reads as None
abbrev pub same_text : Entry String → Entry String → Bool
same_text (given a) (given b) = str_eq a b
same_text (given a) absent = false
same_text (given a) null = false
same_text absent (given b) = false
same_text absent absent = true
same_text absent null = true
same_text null (given b) = false
same_text null absent = true
same_text null null = true

-- `name in patch and patch[name] != profile.get(name)`
abbrev pub changes_text : Entry String → Entry String → Bool
changes_text patch old = present patch && not (same_text patch old)

-- What a patch of the profile may not do.
unfoldable pub patch_refused : ProfileInput → ProfilePatch → Bool
patch_refused old patch =
    present patch.catalogue_request
    || changes_text patch.advisory_contract old.advisory_contract
    || changes_text patch.identity_contract old.identity_contract
    || (is_given (λ m. str_eq m "us-eu-v1") old.advisory_contract
        && changes_text patch.base_currency old.base_currency
        && not (present patch.initial_investment_minor && present patch.recurring_monthly_minor))

pub record PlanContent (S C : Type 0) : Type 0 where
  pub restart_stage : Stage
  pub invalidated : List String
  pub feedback_classes : List ℕ
  pub inputs : RevisionInputs S C

pub record RevisionPlan (S C : Type 0) : Type 0 where
  pub content : PlanContent S C
  pub planning_digest : String

-- `sorted(kinds, key=CLASSES.index)`, the kinds by their index
unfoldable pub insert_class : ℕ → List ℕ → List ℕ
insert_class k [] = k ∷ []
insert_class k (j ∷ js) = let rest = insert_class k js in if leb k j then k ∷ j ∷ js else j ∷ rest

unfoldable pub sort_classes : List ℕ → List ℕ
sort_classes [] = []
sort_classes (k ∷ ks) = insert_class k (sort_classes ks)

module _ {S C : Type 0} where
  -- `RevisionInputs.dependencies` with the bounds of the limit and of the instruction: false where it
  -- raises.
  unfoldable pub dependencies : RevisionInputs S C → Bool
  dependencies inputs =
      leb 1 inputs.candidate_limit
      && leb inputs.candidate_limit max_candidate_limit
      && leb (length (codes inputs.explanation_instruction)) max_note
      && not (inputs.with_explanation && not inputs.with_evidence)
      && not (is_some inputs.profile.catalogue_request && not inputs.with_evidence)
      && not (not (str_eq inputs.explanation_instruction "") && not inputs.with_explanation)

  -- What is planned once the inputs are updated; no feedback at all is an IndexError.
  unfoldable pub plan_content : List ℕ → RevisionInputs S C → Option (PlanContent S C)
  plan_content [] updated = none
  plan_content (index ∷ kinds) updated = some (record {
    restart_stage = get_or stages index human_review;
    invalidated =
        drop artifacts index ++ drop errors index ++ "review_decision" ∷ "final_message" ∷ [];
    feedback_classes = index ∷ kinds;
    inputs = updated;
  })

module _ {S C SP CP : Type 0} (patches : PolicyPatches S C SP CP) where
  -- the branch of the loop for the kind of the feedback
  unfoldable pub apply_feedback :
      RevisionInputs S C → Feedback SP CP → RevisionInputs S C → Option (RevisionInputs S C)
  apply_feedback inputs (profile_feedback patch) updated =
      if patch_refused (model_dump inputs.profile) patch
      then none
      else (patch_profile (model_dump inputs.profile) patch >>= λ p.
          some (record updated { profile = p }))
  apply_feedback inputs (evidence_feedback limit) updated =
      if not (leb 1 limit && leb limit max_candidate_limit) || not inputs.with_evidence
      then none
      else some (record updated { candidate_limit = limit })
  apply_feedback inputs (screening_feedback patch) updated =
      if not inputs.with_evidence
      then none
      else (patches.patch_screening inputs.screening_policy patch >>= λ p.
          some (record updated { screening_policy = p }))
  apply_feedback inputs (construction_feedback patch) updated =
      if not inputs.with_evidence
      then none
      else (patches.patch_construction inputs.construction_policy patch >>= λ p.
          some (record updated { construction_policy = p }))
  apply_feedback inputs (explanation_feedback instruction) updated =
      if not (is_note instruction) || not inputs.with_evidence || not inputs.with_explanation
      then none
      else some (record updated { explanation_instruction = instruction })

  -- `for item in decision.feedback`
  unfoldable pub apply_all :
      RevisionInputs S C → List (Feedback SP CP) → RevisionInputs S C → Option (RevisionInputs S C)
  apply_all inputs [] updated = some updated
  apply_all inputs (f ∷ fs) updated = apply_feedback inputs f updated >>= apply_all inputs fs

  -- `plan_revision`, over the digest of a plan; none where it raises.
  unfoldable pub plan_revision :
      (PlanContent S C → String)
      → ReviewDecision SP CP
      → RevisionInputs S C
      → Option (RevisionPlan S C)
  plan_revision digest decision inputs =
      if not (coherent decision)
        || not (dependencies inputs)
        || not (is_revise decision.disposition)
      then none
      else do
        updated ← apply_all inputs decision.feedback inputs
        content ← plan_content (sort_classes (map class_index decision.feedback)) updated
        some (record { content = content; planning_digest = digest content })
