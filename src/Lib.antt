-- ===== src/Lib.antt =====
-- A verification library for agentic-etf-advisor, which drafts an ETF portfolio for an investor and
-- puts it before a human reviewer.
--
-- The program validates an investor profile, calculates a policy from it (a target split into growth
-- and defensive assets, and the split of two cash flows), retrieves and screens candidate funds,
-- constructs a model portfolio from the eligible ones and explains it. What is modelled is the part
-- that computes: the amounts of money and the weights that a reviewer sees, and what a revision that
-- the reviewer asks for starts from.
--
--   * UsEu: src/etf_advisor/domain/us_eu.py. UsEu/Rate is `canonical_rate`, the reading of a decimal
--     rate, UsEu/Conversion is `convert_minor`, and UsEu/Fx is `FxReferenceObservation`. A time is a
--     number of seconds, a date a number of days.
--   * Profile: src/etf_advisor/domain/profile.py. `model_validate` is the validation of an untrusted
--     mapping (`reject_mixed_money`, the fields, `validate_money`), and `model_dump` the serialization
--     (`serialize_profile`). A key of the mapping is absent, None, or holds a value.
--   * Policy: src/etf_advisor/domain/policy.py. `calculate_policy` with the validators of the objects
--     that it builds; none stands for an exception.
--   * Construction: src/etf_advisor/domain/construction.py. Construction/Weights is
--     `_equal_sleeve_weights`, Construction/Cash `_allocate_all_cash`, Construction/Select
--     `_select_subset`, Construction/Targets what is read from the policy (`_target_basis_points`,
--     `_policy_cash_cents`). Construction/Calculated, ReadCash and Pays join them to the calculated
--     policy. The tables that the code indexes by sleeve are records with a field for each
--     sleeve; `weights[index] = ...` in a loop stays an indexed write to a list.
--   * Revision: src/etf_advisor/domain/revision.py. Revision/Decision is `ReviewDecision` with its
--     feedback, and Revision/Plan `RevisionInputs` and `plan_revision`. A patch over one of the two
--     policies, which another component validates, is an operation that the plan takes
--     (`PolicyPatches`), and so is the digest of the plan. The profile is one that was validated, so the
--     mapping that a patch is merged into is its serialization.
--   * Workflow: src/etf_advisor/graph/workflow.py. The nodes and the conditional edges of `build_graph`,
--     over what the edges read of the state that a node leaves, whatever the node did.
--   * Screening: src/etf_advisor/domain/screening.py. Screening/Sectors is the taxonomy of sectors,
--     Screening/Fields the checks before the rules (with src/etf_advisor/data/research_quality.py),
--     Screening/Rules the rules and Screening/Candidate `_screen_candidate` and
--     `screen_candidate_evidence`. The field provenance of a candidate is taken as parsed, texts for
--     display are left out, `casefold`, `upper` and the reading of a float from a text are operations that
--     the model takes (`Builtins`), and times are seconds. Screening/Health is
--     `assess_observations` of src/etf_advisor/data/quality.py, which gives the source health.
--   * Lifecycle: src/etf_advisor/lifecycle.py over the `MemoryCheckpointStore` of
--     src/etf_advisor/checkpoint.py. Lifecycle/Record is `LifecycleRecord` and its reading,
--     Lifecycle/Store the store with `managed` and `inspect`, Lifecycle/Session `semantic_events` and the
--     commits of a `ManagedSaver`, Lifecycle/Sweep `preview_expired`, `prune` and `delete`. A durable
--     store is the same with its flag set. SHA-256 digests and the UUID parser are operations that the
--     model takes (`Libraries`), with collision-free digests as the hypothesis `IsDigest`; the ledger of
--     a checkpoint is taken as `validate_revision_state` returns it, times are microseconds, and an
--     operation is one step, as the locks make it.
--   * YahooBudget: `YahooRequestBudget` and `BoundedSession.request` of
--     src/etf_advisor/data/yahoo_budget.py. The clock and the transport are inputs of each call: the
--     readings, the chunks that the transport delivers, and how it ends. Readings and finite timeouts are
--     whole numbers of the clock's unit; a timeout may also be infinite or NaN.
--
-- A float is modelled by the decimal that `Decimal(str(x))` makes of it, which the code computes with,
-- and the float arithmetic of the targets by exact arithmetic: the targets are halves of whole
-- numbers below one hundred, which floats hold exactly. Amounts in dollars are held in cents after
-- their rounding. Loops over lists and ranges are structural recursion, so there is no fuel.
--
-- Pydantic, LangGraph, the databases and the network are not modelled, nor are the parts that call
-- them: retrieval, the vector and graph stores, the PostgreSQL checkpoints, the providers, the dashboard
-- and the command line. The revision ledger, its operations and the node functions of the workflow are
-- outside this library, but for what the lifecycle reads of a ledger.
pub mod Prelude
pub mod UsEu
pub mod Profile
pub mod Policy
pub mod Construction
pub mod Revision
pub mod Workflow
pub mod Screening
pub mod Lifecycle
pub mod YahooBudget
