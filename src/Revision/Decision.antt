-- ===== src/Revision/Decision.antt =====
-- `ReviewDecision` and the feedback classes of src/etf_advisor/domain/revision.py.
use agentic_etf_advisor.Prelude.{
  ℕ, String, Bool, true, false, not, ◌&&◌, ◌||◌, Option, none, some, List, [], ◌∷◌, leb, ◌==◌,
  is_some, is_none, length, all, codes, is_space, ℤ,
}
use agentic_etf_advisor.Profile.{CatalogueRequest, Entry, Signed}

-- The patch of a profile: what it holds at each field, and whether it holds any other key.
pub record ProfilePatch : Type 0 where
  pub horizon_years : Entry ℤ
  pub risk_tolerance : Entry String
  pub objective : Entry String
  pub max_drawdown_pct : Entry Signed
  pub advisory_contract : Entry String
  pub identity_contract : Entry String
  pub base_currency : Entry String
  pub initial_investment_usd : Entry Signed
  pub recurring_monthly_usd : Entry Signed
  pub initial_investment_minor : Entry ℤ
  pub recurring_monthly_minor : Entry ℤ
  pub excluded_sectors : Entry (List String)
  pub catalogue_request : Entry CatalogueRequest
  pub unknown_keys : Bool

-- `Feedback`, over the patches of the two policies. The bounds of a limit and of an
-- instruction are tested where the plan applies the feedback; a patch without a key, which the field does
-- not admit, is not excluded.
pub data Feedback (SP CP : Type 0) : Type 0 where
  profile_feedback : ProfilePatch → Feedback SP CP
  evidence_feedback : ℕ → Feedback SP CP
  screening_feedback : SP → Feedback SP CP
  construction_feedback : CP → Feedback SP CP
  explanation_feedback : String → Feedback SP CP

pub data Action : Type 0 where
  approve edit reject : Action

pub data Disposition : Type 0 where
  revise close : Disposition

-- Times are instants in UTC.
pub record ReviewDecision (SP CP : Type 0) : Type 0 where
  pub decision_id : String
  pub revision_id : String
  pub action : Action
  pub disposition : Option Disposition
  pub note : String
  pub feedback : List (Feedback SP CP)
  pub submitted_at : ℕ

-- the longest note and instruction
abbrev pub max_note : ℕ
max_note = 2000

-- `\S` on one character
unfoldable pub is_black : ℕ → Bool
is_black c = not (is_space c) || (leb 28 c && leb c 31)

-- `Note`
unfoldable pub is_note : String → Bool
is_note s =
    leb 1 (length (codes s))
    && leb (length (codes s)) max_note
    && not (all (λ c. not (is_black c)) (codes s))

-- `Identifier`
unfoldable pub is_identifier : String → Bool
is_identifier s = leb 1 (length (codes s)) && leb (length (codes s)) 128

-- `not self.note.strip()`
unfoldable pub is_blank : String → Bool
is_blank note = all is_space (codes note)

unfoldable pub is_revise : Option Disposition → Bool
is_revise (some revise) = true
is_revise (some close) = false
is_revise none = false

unfoldable pub is_close : Option Disposition → Bool
is_close (some revise) = false
is_close (some close) = true
is_close none = false

module _ {SP CP : Type 0} where
  -- `CLASSES.index(item.kind)`
  unfoldable pub class_index : Feedback SP CP → ℕ
  class_index (profile_feedback p) = 0
  class_index (evidence_feedback n) = 1
  class_index (screening_feedback p) = 2
  class_index (construction_feedback p) = 3
  class_index (explanation_feedback s) = 4

  -- no kind stands twice
  unfoldable pub distinct_kinds : List (Feedback SP CP) → Bool
  distinct_kinds [] = true
  distinct_kinds (f ∷ fs) = all (λ g. not (class_index f == class_index g)) fs && distinct_kinds fs

  abbrev pub no_feedback : List (Feedback SP CP) → Bool
  no_feedback [] = true
  no_feedback (f ∷ fs) = false

  -- the tests that depend on the action
  unfoldable pub action_ok : ReviewDecision SP CP → Bool
  action_ok d = elim d.action [
    | approve ↦ is_none d.disposition && no_feedback d.feedback
    | edit ↦ not (is_blank d.note) && is_revise d.disposition
    | reject ↦ not (is_blank d.note) && is_some d.disposition
  ]

  -- `coherent` with the bounds of the fields: false where it raises. There are five feedbacks at most,
  -- and the note has 2000 characters at most.
  unfoldable pub coherent : ReviewDecision SP CP → Bool
  coherent d =
      is_identifier d.decision_id
      && is_identifier d.revision_id
      && leb (length d.feedback) 5
      && leb (length (codes d.note)) max_note
      && action_ok d
      && not (is_revise d.disposition && no_feedback d.feedback)
      && not (is_close d.disposition && not (no_feedback d.feedback))
      && distinct_kinds d.feedback
