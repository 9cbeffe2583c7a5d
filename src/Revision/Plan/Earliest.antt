-- ===== src/Revision/Plan/Earliest.antt =====
-- The earliest class of a feedback, at whose stage a revision restarts.
use mathlib.Core.Option.{some-injective}
use mathlib.Core.Path.{subst}
use Prim.{tt}
use agentic_etf_advisor.Prelude.{
  ℕ, ◌≤◌, ◌≡◌, refl, sym, ap, ◌∙◌, ◌≢◌, ◌⊎◌, inl, inr, some, List, [], ◌∷◌, ◌++◌, arith, leb,
  Bool-cases, get_or, All, In,
}
use agentic_etf_advisor.Revision.Plan.{
  RevisionInputs, human_review, stages, PlanContent, insert_class, sort_classes, plan_content, drop,
  artifacts, errors,
}

All-weaken : (j k : ℕ) (ks : List ℕ) → j ≤ k → All (λ i. k ≤ i) ks → All (λ i. j ≤ i) ks
All-weaken j k [] le a = tt
All-weaken j k (i ∷ ks) le a = (omega (arith, a.0), All-weaken j k ks le a.1)

insert_class-not_empty : (x : ℕ) (ys : List ℕ) → insert_class x ys ≢ []
unfolding insert_class
insert_class-not_empty x [] h = cc
insert_class-not_empty x (y ∷ ys) h = ground arith

sort_classes-empty : (ks : List ℕ) → sort_classes ks ≡ [] → ks ≡ []
unfolding sort_classes
sort_classes-empty [] h = refl
sort_classes-empty (x ∷ xs) h = absurd (insert_class-not_empty x (sort_classes xs) h)

list_cases : (ks : List ℕ) → (ks ≡ []) ⊎ ((y : ℕ) × (ys : List ℕ) × (ks ≡ y ∷ ys))
list_cases [] = inl refl
list_cases (y ∷ ys) = inr (y, ys, refl)

sort_classes-head :
    (ks : List ℕ) {k : ℕ} {js : List ℕ} → sort_classes ks ≡ k ∷ js → All (λ i. k ≤ i) ks
unfolding sort_classes insert_class
sort_classes-head [] h = tt
sort_classes-head (x ∷ xs) {k} h = elim (list_cases (sort_classes xs)) [
  | inl e ↦ (ground (arith, e, sort_classes-empty xs e))
  | inr (y, ys, e) ↦
      (let ih = sort_classes-head xs e in
        elim (Bool-cases (leb x y)) [
          | inl le ↦
              (let same : k ≡ x = ground (arith, h, e, le) in
                (omega (arith, same), All-weaken k y xs (ground (arith, same, le)) ih))
          | inr gt ↦
              (let same : k ≡ y = ground (arith, h, e, gt) in
                (ground (arith, same, gt), All-weaken k y xs (omega (arith, same)) ih))
        ])
]

sort_classes-In : (ks : List ℕ) {k : ℕ} {js : List ℕ} → sort_classes ks ≡ k ∷ js → In k ks
unfolding sort_classes insert_class
sort_classes-In [] h = absurd (cc)
sort_classes-In (x ∷ xs) {k} h = elim (list_cases (sort_classes xs)) [
  | inl e ↦ inl (ground (arith, h, e))
  | inr (y, ys, e) ↦ (elim (Bool-cases (leb x y)) [
    | inl le ↦ inl (ground (arith, h, e, le))
    | inr gt ↦
        (let same : y ≡ k = ground (arith, h, e, gt) in
          inr (subst (λ j. In j xs) same (sort_classes-In xs e)))
  ])
]

-- The plan for the earliest class of the feedback: its stage is where the revision restarts, and it
-- invalidates the artifacts and errors of that stage and of every later one, and the review.
pub record IsEarliest {S C : Type 0} (k : ℕ) (classes : List ℕ) (content : PlanContent S C)
    : Type 0 where
  pub named : In k classes
  pub first : All (λ j. k ≤ j) classes
  pub restart : content.restart_stage ≡ get_or stages k human_review
  pub invalidated :
      content.invalidated
      ≡ drop artifacts k ++ drop errors k ++ "review_decision" ∷ "final_message" ∷ []

pub plan_content-inv :
    {S C : Type 0} (classes : List ℕ) (updated : RevisionInputs S C) {content : PlanContent S C}
    → plan_content (sort_classes classes) updated ≡ some content
    → (k : ℕ) × IsEarliest k classes content × (content.inputs ≡ updated)
unfolding plan_content
plan_content-inv classes updated {content} h = elim (list_cases (sort_classes classes)) [
  | inl e ↦ absurd (ground (arith, h, e))
  | inr (k, js, e) ↦
      (let p = some-injective _ _ (sym h ∙ ap (λ ks. plan_content ks updated) e) in
        (
          k,
          record {
            named = sort_classes-In classes e;
            first = sort_classes-head classes e;
            restart = ap (λ c. c.restart_stage) p;
            invalidated = ap (λ c. c.invalidated) p;
          },
          ap (λ c. c.inputs) p,
        ))
]
