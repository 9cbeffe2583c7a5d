-- ===== src/Revision/Plan/Pinned.antt =====
-- What a revision may not change in the profile.
use mathlib.Core.Option.{some-injective}
use mathlib.Core.Path.{subst}
use agentic_etf_advisor.Prelude.{
  ℕ, String, ◌≡◌, refl, sym, ap, ◌∙◌, Bool, true, false, ◌&&◌, Option, none, some, List, [], ◌∷◌,
  arith, length, codes, str_eq_iff, leb, if◌then◌else◌, >>=-eq-some,
}
use agentic_etf_advisor.Revision.Decision.{
  ProfilePatch, Feedback, profile_feedback, evidence_feedback, screening_feedback,
  construction_feedback, explanation_feedback, ReviewDecision, max_note, is_note,
}
use agentic_etf_advisor.Profile.{
  InvestorProfile, ProfileInput, model_dump, model_validate, Entry, absent, null, given, present,
  optional, advisory_of, identity_of,
}
use agentic_etf_advisor.Profile.Read.{model_validate-IsRead}
use agentic_etf_advisor.Profile.RoundTrip.{model_validate-model_dump}
use agentic_etf_advisor.Revision.Plan.Upstream.{plan_revision-inv, plan_revision-valid}
use agentic_etf_advisor.Revision.Plan.{
  RevisionInputs, PolicyPatches, PlanContent, RevisionPlan, dependencies, apply_feedback, apply_all,
  plan_revision, max_candidate_limit, patch_profile, patch_refused, over, over_required,
  changes_text,
}

-- An entry that the patch does not change reads as before.
over_same :
    {B : Type 0} (read : String → Option B) (patch old : Entry String)
    → changes_text patch old ≡ false
    → optional read (over patch old) ≡ optional read old
over_same read absent old h = refl
over_same read null absent h = refl
over_same read null null h = refl
over_same read null (given b) h = absurd (cc)
over_same read (given a) absent h = absurd (cc)
over_same read (given a) null h = absurd (cc)
over_same read (given a) (given b) h =
    let same : a ≡ b = ground (arith, h, str_eq_iff a b) in ap (λ s. optional read (given s)) same

over_absent : {A : Type 0} (patch old : Entry A) → present patch ≡ false → over patch old ≡ old
over_absent absent old h = refl
over_absent null old h = absurd (cc)
over_absent (given a) old h = absurd (cc)

-- The mapping that a patched profile is validated from, at the fields that may not change.
record IsMerged (old : ProfileInput) (patch : ProfilePatch) (q : InvestorProfile) : Type 0 where
  advisory :
      optional advisory_of (over patch.advisory_contract old.advisory_contract)
      ≡ some q.advisory_contract
  identity :
      optional identity_of (over patch.identity_contract old.identity_contract)
      ≡ some q.identity_contract
  request :
      optional some (over patch.catalogue_request old.catalogue_request) ≡ some q.catalogue_request

if-both {ℓ} :
    {A : Type ℓ} (b : Bool) (m : Option A) {a : A}
    → (if b then none else m) ≡ some a
    → (b ≡ false) × (m ≡ some a)
if-both true m h = absurd (cc)
if-both false m h = (refl, h)

patch_profile-IsMerged :
    (old : ProfileInput) (patch : ProfilePatch) {q : InvestorProfile}
    → patch_profile old patch ≡ some q
    → IsMerged old patch q
unfolding patch_profile
patch_profile-IsMerged old patch h =
    let (a, e1, h1) = >>=-eq-some (over_required patch.horizon_years old.horizon_years) _ h in
    let (b, e2, h2) = >>=-eq-some (over_required patch.risk_tolerance old.risk_tolerance) _ h1 in
    let (c, e3, h3) = >>=-eq-some (over_required patch.objective old.objective) _ h2 in
    let (d, e4, h4) =
      >>=-eq-some (over_required patch.max_drawdown_pct old.max_drawdown_pct) _ h3 in
    let (e, e5, h5) =
      >>=-eq-some (over_required patch.excluded_sectors old.excluded_sectors) _ h4 in
    let (m, e6, h6) = >>=-eq-some (if patch.unknown_keys then none else some _) _ h5 in
    let same = some-injective _ _ (if-both patch.unknown_keys _ e6).1 in
    let r = model_validate-IsRead m h6 in
    record {
      advisory = ap (λ v. optional advisory_of v.advisory_contract) same ∙ r.advisory;
      identity = ap (λ v. optional identity_of v.identity_contract) same ∙ r.identity;
      request = ap (λ v. optional some v.catalogue_request) same ∙ r.request;
    }

-- Two profiles of one contract, one identity contract and one catalogue request.
pub record IsPinned (p q : InvestorProfile) : Type 0 where
  pub advisory : q.advisory_contract ≡ p.advisory_contract
  pub identity : q.identity_contract ≡ p.identity_contract
  pub request : q.catalogue_request ≡ p.catalogue_request

patch_profile-IsPinned :
    (value : ProfileInput) (p : InvestorProfile) (patch : ProfilePatch) {q : InvestorProfile}
    → model_validate value ≡ some p
    → patch_refused (model_dump p) patch ≡ false
    → patch_profile (model_dump p) patch ≡ some q
    → IsPinned p q
unfolding patch_refused
patch_profile-IsPinned value p patch v ok h =
    let old = model_dump p in
    let r = model_validate-IsRead old (model_validate-model_dump value v) in
    let m = patch_profile-IsMerged old patch h in
    let same_advisory =
      over_same advisory_of patch.advisory_contract old.advisory_contract (ground arith) in
    let same_identity =
      over_same identity_of patch.identity_contract old.identity_contract (ground arith) in
    let same_request = over_absent patch.catalogue_request old.catalogue_request (ground arith) in
    record {
      advisory = some-injective _ _ (sym m.advisory ∙ same_advisory ∙ r.advisory);
      identity = some-injective _ _ (sym m.identity ∙ same_identity ∙ r.identity);
      request = some-injective _ _ (sym m.request ∙ ap (optional some) same_request ∙ r.request);
    }

is_note-short : (s : String) → is_note s ≡ true → leb (length (codes s)) max_note ≡ true
unfolding is_note
is_note-short s h = ground (arith, h)

-- A profile that some mapping is read as.
abbrev pub IsValidated : InvestorProfile → Type 0
IsValidated p = (value : ProfileInput) × (model_validate value ≡ some p)

patch_profile-IsValidated :
    (old : ProfileInput) (patch : ProfilePatch) {q : InvestorProfile}
    → patch_profile old patch ≡ some q
    → IsValidated q
unfolding patch_profile
patch_profile-IsValidated old patch h =
    let (a, e1, h1) = >>=-eq-some (over_required patch.horizon_years old.horizon_years) _ h in
    let (b, e2, h2) = >>=-eq-some (over_required patch.risk_tolerance old.risk_tolerance) _ h1 in
    let (c, e3, h3) = >>=-eq-some (over_required patch.objective old.objective) _ h2 in
    let (d, e4, h4) =
      >>=-eq-some (over_required patch.max_drawdown_pct old.max_drawdown_pct) _ h3 in
    let (e, e5, h5) =
      >>=-eq-some (over_required patch.excluded_sectors old.excluded_sectors) _ h4 in
    let (m, e6, h6) = >>=-eq-some (if patch.unknown_keys then none else some _) _ h5 in (m, h6)

module _ {S C : Type 0} (u : RevisionInputs S C) (valid : dependencies u ≡ true) where
  dependencies_profile :
      (q : InvestorProfile)
      → q.catalogue_request ≡ u.profile.catalogue_request
      → dependencies (record u { profile = q }) ≡ true
  unfolding dependencies
  dependencies_profile q same = rw same valid

  dependencies_limit :
      (limit : ℕ)
      → leb 1 limit && leb limit max_candidate_limit ≡ true
      → dependencies (record u { candidate_limit = limit }) ≡ true
  unfolding dependencies
  dependencies_limit limit ok = ground (arith, valid)

  dependencies_instruction :
      (instruction : String)
      → leb (length (codes instruction)) max_note ≡ true
      → u.with_explanation ≡ true
      → dependencies (record u { explanation_instruction = instruction }) ≡ true
  unfolding dependencies
  dependencies_instruction instruction short on = ground (arith, valid)

  dependencies_screening : (p : S) → dependencies (record u { screening_policy = p }) ≡ true
  unfolding dependencies
  dependencies_screening p = valid

  dependencies_construction : (p : C) → dependencies (record u { construction_policy = p }) ≡ true
  unfolding dependencies
  dependencies_construction p = valid

-- What holds of the inputs at each round of the loop over the feedback.
record IsKept {S C : Type 0} (inputs u : RevisionInputs S C) : Type 0 where
  pinned : IsPinned inputs.profile u.profile
  evidence : u.with_evidence ≡ inputs.with_evidence
  explanation : u.with_explanation ≡ inputs.with_explanation
  valid : dependencies u ≡ true
  validated : IsValidated u.profile

module _ {S C SP CP : Type 0} (patches : PolicyPatches S C SP CP) (inputs : RevisionInputs S C)
    (value : ProfileInput) (v : model_validate value ≡ some inputs.profile) where
  apply_feedback-IsKept :
      (f : Feedback SP CP) (u : RevisionInputs S C) {w : RevisionInputs S C}
      → IsKept inputs u
      → apply_feedback patches inputs f u ≡ some w
      → IsKept inputs w
  unfolding apply_feedback
  apply_feedback-IsKept (profile_feedback patch) u k h =
      let (ok, h1) = if-both _ _ h in
      let (q, e, same) = >>=-eq-some (patch_profile (model_dump inputs.profile) patch) _ h1 in
      let pin = patch_profile-IsPinned value inputs.profile patch v ok e in
      subst (IsKept inputs) (some-injective _ _ same) (record {
        pinned = pin;
        evidence = k.evidence;
        explanation = k.explanation;
        valid = dependencies_profile u k.valid q (pin.request ∙ sym k.pinned.request);
        validated = patch_profile-IsValidated (model_dump inputs.profile) patch e;
      })
  apply_feedback-IsKept (evidence_feedback limit) u k h =
      let (ok, h1) = if-both _ _ h in
      subst (IsKept inputs) (some-injective _ _ h1) (record {
        pinned = k.pinned;
        evidence = k.evidence;
        explanation = k.explanation;
        valid = dependencies_limit u k.valid limit (ground arith);
        validated = k.validated;
      })
  apply_feedback-IsKept (screening_feedback patch) u k h =
      let (ok, h1) = if-both _ _ h in
      let (q, e, same) = >>=-eq-some (patches.patch_screening inputs.screening_policy patch) _ h1 in
      subst (IsKept inputs) (some-injective _ _ same) (record {
        pinned = k.pinned;
        evidence = k.evidence;
        explanation = k.explanation;
        valid = dependencies_screening u k.valid q;
        validated = k.validated;
      })
  apply_feedback-IsKept (construction_feedback patch) u k h =
      let (ok, h1) = if-both _ _ h in
      let (q, e, same) =
        >>=-eq-some (patches.patch_construction inputs.construction_policy patch) _ h1 in
      subst (IsKept inputs) (some-injective _ _ same) (record {
        pinned = k.pinned;
        evidence = k.evidence;
        explanation = k.explanation;
        valid = dependencies_construction u k.valid q;
        validated = k.validated;
      })
  apply_feedback-IsKept (explanation_feedback instruction) u k h =
      let (ok, h1) = if-both _ _ h in
      subst (IsKept inputs) (some-injective _ _ h1) (record {
        pinned = k.pinned;
        evidence = k.evidence;
        explanation = k.explanation;
        valid =
            dependencies_instruction u k.valid instruction
              (is_note-short instruction (ground arith)) (ground (arith, k.explanation));
        validated = k.validated;
      })

  apply_all-IsKept :
      (fs : List (Feedback SP CP)) (u : RevisionInputs S C) {w : RevisionInputs S C}
      → IsKept inputs u
      → apply_all patches inputs fs u ≡ some w
      → IsKept inputs w
  unfolding apply_all
  apply_all-IsKept [] u k h = subst (IsKept inputs) (some-injective _ _ h) k
  apply_all-IsKept (f ∷ fs) u k h =
      let (x, e, h') = >>=-eq-some (apply_feedback patches inputs f u) _ h in
      apply_all-IsKept fs x (apply_feedback-IsKept f u k e) h'

  -- A plan made of inputs with a validated profile has inputs that keep the bounds and dependencies
  -- of `RevisionInputs`, with a validated profile again. That profile has the advisory contract, the
  -- identity contract and the catalogue request of the old one.
  pub plan_revision-IsPinned :
      (digest : PlanContent S C → String) (decision : ReviewDecision SP CP)
      {plan : RevisionPlan S C}
      → plan_revision patches digest decision inputs ≡ some plan
      → IsPinned inputs.profile plan.content.inputs.profile
        × (dependencies plan.content.inputs ≡ true)
        × IsValidated plan.content.inputs.profile
  plan_revision-IsPinned digest decision h =
      let k =
        apply_all-IsKept decision.feedback inputs
          (record {
            pinned = record { advisory = refl; identity = refl; request = refl };
            evidence = refl;
            explanation = refl;
            valid = plan_revision-valid patches digest decision inputs h;
            validated = (value, v);
          })
          (plan_revision-inv patches digest decision inputs h).0 in
      (k.pinned, k.valid, k.validated)
