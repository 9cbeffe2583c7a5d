-- ===== src/Lifecycle/Sweep.antt =====
-- The deletion of saved reviews: `preview_expired`, `prune` and `delete` of src/etf_advisor/lifecycle.py.
use agentic_etf_advisor.Prelude.{
  ℕ, String, Bool, not, ◌&&◌, ◌||◌, none, some, List, [], ◌∷◌, str_eq, ltb, leb, if◌then◌else◌,
  is_none,
}
use agentic_etf_advisor.Lifecycle.Record.{
  contract, clock_backward, Checked, done, refused, ◌>>=◌, Datetime, utc, LifecycleRecord, Metadata,
  Libraries, model_validate,
}
use agentic_etf_advisor.Lifecycle.Store.{LifecycleStore, read_metadata, exists, erase, read}

pub record ExpiredPreview (D : Type 0) : Type 0 where
  pub cutoff : ℕ
  pub candidates : List (String × D)
  pub integrity : D

pub data Outcome : Type 0 where
  deleted skipped not_found failure : Outcome

module _ {D : Type 0} (lib : Libraries D) where
  -- one turn of the loop of `preview_expired`, before the candidates of the later items
  unfoldable pub add_candidate :
      Bool
      → ℕ
      → String
      → Checked (LifecycleRecord D)
      → Checked (List (String × D))
      → Checked (List (String × D))
  add_candidate durable cutoff key (refused error) rest = rest
  add_candidate durable cutoff key (done item) rest =
      if not (str_eq item.values.thread_id key)
      then rest
      else if ltb cutoff item.values.last_activity_at
      then refused clock_backward
      else if durable && leb item.values.expires_at cutoff
      then (rest >>= λ candidates. done ((key, item.integrity) ∷ candidates))
      else rest

  unfoldable pub expired_candidates :
      Bool → ℕ → List (String × Metadata D) → Checked (List (String × D))
  expired_candidates durable cutoff [] = done []
  expired_candidates durable cutoff ((key, raw) ∷ items) =
      add_candidate durable cutoff key (model_validate lib raw)
        (expired_candidates durable cutoff items)

  unfoldable pub preview_expired : LifecycleStore D → Datetime → Checked (ExpiredPreview D)
  preview_expired s clock = do
    cutoff ← utc clock
    candidates ← expired_candidates s.durable cutoff s.metadata
    done (record {
      cutoff = cutoff;
      candidates = candidates;
      integrity = lib.preview_digest cutoff candidates;
    })

  unfoldable pub erased : LifecycleStore D → String → Outcome × LifecycleStore D
  erased s key = (if (erase s key).0 then deleted else not_found, (erase s key).1)

  unfoldable pub prune_current :
      LifecycleStore D → ℕ → String → D → Checked (LifecycleRecord D) → Outcome × LifecycleStore D
  prune_current s cutoff key expected (refused error) = (skipped, s)
  prune_current s cutoff key expected (done current) =
      if not (lib.same current.integrity expected) || ltb cutoff current.values.expires_at
      then (skipped, s)
      else erased s key

  -- one turn of the loop of `prune`
  unfoldable pub prune_one : LifecycleStore D → ℕ → String → D → Outcome × LifecycleStore D
  prune_one s cutoff key expected =
      if s.durable && is_none (lib.uuid4 key)
      then (failure, s)
      else if is_none (read_metadata s key)
      then (if exists s key then skipped else not_found, s)
      else prune_current s cutoff key expected (read lib s key)

  unfoldable pub prune_all :
      LifecycleStore D → ℕ → List (String × D) → List (String × Outcome) × LifecycleStore D
  prune_all s cutoff [] = ([], s)
  prune_all s cutoff ((key, expected) ∷ candidates) =
      let turn = prune_one s cutoff key expected in
      let rest = prune_all turn.1 cutoff candidates in ((key, turn.0) ∷ rest.0, rest.1)

  unfoldable pub prune :
      LifecycleStore D → ExpiredPreview D → Checked (List (String × Outcome) × LifecycleStore D)
  prune s preview =
      if lib.same preview.integrity (lib.preview_digest preview.cutoff preview.candidates)
      then done (prune_all s preview.cutoff preview.candidates)
      else refused contract

  unfoldable pub delete : LifecycleStore D → String → Bool → Outcome × LifecycleStore D
  delete s name confirmed = elim (lib.uuid4 name) [
    | none ↦ (failure, s)
    | some token ↦ if not confirmed then (failure, s) else erased s token
  ]
