-- ===== src/Lifecycle/Session.antt =====
-- The writes of one managed run: `semantic_events` and `ManagedSaver` of src/etf_advisor/lifecycle.py.
use Prim.Native.String.{◌++◌ as append_text}
use agentic_etf_advisor.Prelude.{
  ℕ, zero, suc, ◌+◌, ◌-◌, ◌*◌, String, Bool, false, not, ◌&&◌, ◌||◌, Option, none, some, List, [],
  ◌∷◌, ◌++◌, map, str_eq, ltb, if◌then◌else◌, all,
}
use agentic_etf_advisor.Lifecycle.Events.{contains, sort_events}
use agentic_etf_advisor.Lifecycle.Record.{
  clock_backward, runtime_invalid, index_error, saver_failed, Checked, done, refused, ◌>>=◌,
  Datetime, utc, day, LifecycleValues, LifecycleRecord, document, Libraries, new_record,
}
use agentic_etf_advisor.Lifecycle.Store.{LifecycleStore, ManagedSaver, write_metadata, exists, read}

-- What `semantic_events` reads of an operation receipt, of a revision and of a ledger;
-- `terminal_digest` is the digest of the revision's id, status and operations.
pub record OperationReceipt : Type 0 where
  pub stage : String
  pub attempt : ℕ
  pub operation_id : String

pub record Revision : Type 0 where
  pub revision_id : String
  pub status : String
  pub terminal_digest : String
  pub receipts : List OperationReceipt

pub record RevisionLedger : Type 0 where
  pub decisions : List String
  pub revisions : List Revision

-- The channel values of a checkpoint: the ledger where `validate_revision_state` accepts them, and two
-- of their texts.
pub record ChannelValues : Type 0 where
  pub ledger : Option RevisionLedger
  pub status : Option String
  pub retry_operation_id : Option String

unfoldable pub receipts_of : String → List OperationReceipt → List OperationReceipt
receipts_of stage [] = []
receipts_of stage (r ∷ rs) =
    if str_eq r.stage stage then r ∷ receipts_of stage rs else receipts_of stage rs

-- `receipts[index].operation_id`
unfoldable pub operation_at : List OperationReceipt → ℕ → Checked String
operation_at [] index = refused index_error
operation_at (r ∷ rs) zero = done r.operation_id
operation_at (r ∷ rs) (suc index) = operation_at rs index

-- the retries of one revision; the first argument has all of its receipts
unfoldable pub retry_events : List OperationReceipt → List OperationReceipt → Checked (List String)
retry_events receipts [] = done []
retry_events receipts (r ∷ rs) =
    let rest = retry_events receipts rs in
    if ltb 1 r.attempt
    then (do
      operation ← operation_at (receipts_of r.stage receipts) (r.attempt - 2)
      events ← rest
      done (append_text "retry:" operation ∷ events))
    else rest

unfoldable pub is_terminal : String → Bool
is_terminal status =
    str_eq status "approved"
    || str_eq status "rejected"
    || str_eq status "invalid_profile"
    || str_eq status "evidence_blocked"
    || str_eq status "screening_blocked"
    || str_eq status "construction_blocked"
    || str_eq status "explanation_blocked"

unfoldable pub revision_events : List Revision → Checked (List String)
revision_events [] = done []
revision_events (revision ∷ revisions) = do
  retries ← retry_events revision.receipts revision.receipts
  rest ← revision_events revisions
  done (
      retries
      ++ (if is_terminal revision.status
          then append_text "terminal:" revision.terminal_digest ∷ rest
          else rest))

-- `revisions[1:]`
unfoldable pub children : List Revision → List Revision
children [] = []
children (root ∷ revisions) = revisions

unfoldable pub requested_retry : Option String → Option String → List String
requested_retry none operation = []
requested_retry (some status) none = []
requested_retry (some status) (some operation) =
    if str_eq status "retry_requested" && not (str_eq operation "")
    then append_text "retry:" operation ∷ []
    else []

unfoldable pub ledger_events : RevisionLedger → Checked (List String)
ledger_events ledger = do
  rest ← revision_events ledger.revisions
  done (
      map (append_text "decision:") ledger.decisions
      ++ map (λ r. append_text "child:" r.revision_id) (children ledger.revisions)
      ++ rest)

-- The set is a list here, in any order.
unfoldable pub semantic_events : ChannelValues → Checked (List String)
semantic_events values = elim values.ledger [
  | none ↦ done []
  | some ledger ↦ (do
    events ← ledger_events ledger
    done (events ++ requested_retry values.status values.retry_operation_id))
]

-- the values that are saved with pending writes
abbrev pub no_values : ChannelValues
no_values = record { ledger = none; status = none; retry_operation_id = none }

-- the time of the last activity after `events`
unfoldable pub renewed : LifecycleValues → List String → Datetime → Checked ℕ
renewed previous events clock =
    if all (λ e. contains e previous.events) events
    then done previous.last_activity_at
    else (utc clock >>= λ now.
        if ltb now previous.last_activity_at then refused clock_backward else done now)

unfoldable pub next_values : String → Bool → LifecycleValues → List String → ℕ → LifecycleValues
next_values thread_id creating previous events now = record {
  thread_id = thread_id;
  version = if creating then previous.version else previous.version + 1;
  retention_days = previous.retention_days;
  last_activity_at = now;
  expires_at = now + previous.retention_days * day;
  events = sort_events (previous.events ++ events);
}

module _ {D : Type 0} where
  -- `check`
  unfoldable pub valid_runtime : ManagedSaver D → String → Bool
  valid_runtime m thread_id = m.active && str_eq thread_id m.thread_id

  -- the saver's own write
  unfoldable pub save : LifecycleStore D → String → LifecycleStore D
  save s thread_id = record s {
    saved = if exists s thread_id then s.saved else thread_id ∷ s.saved;
  }

  unfoldable pub close : ManagedSaver D → ManagedSaver D
  close m = record m { active = false }

  module _ (lib : Libraries D) where
    -- the record that a commit starts from
    unfoldable pub previous_record : ManagedSaver D → LifecycleStore D → Checked (LifecycleRecord D)
    previous_record m s = if m.creating then done m.initial else read lib s m.thread_id

    unfoldable pub updated_record :
        ManagedSaver D → ChannelValues → Datetime → LifecycleStore D → Checked (LifecycleRecord D)
    updated_record m values clock s = do
      previous ← previous_record m s
      events ← semantic_events values
      now ← renewed previous.values events clock
      new_record lib (next_values m.thread_id m.creating previous.values events now)

    -- `commit` around one write of the saver, which is `written` or raises
    unfoldable pub commit :
        ManagedSaver D
        → String
        → ChannelValues
        → Datetime
        → Bool
        → LifecycleStore D
        → Checked (ManagedSaver D × LifecycleStore D)
    commit m thread_id values clock written s =
        if valid_runtime m thread_id
        then (updated_record m values clock s >>= λ updated.
            if written
            then done (
              record m { creating = false },
              write_metadata (save s m.thread_id) m.thread_id (document updated),
            )
            else refused saver_failed)
        else refused runtime_invalid

    unfoldable pub put :
        ManagedSaver D
        → String
        → ChannelValues
        → Datetime
        → Bool
        → LifecycleStore D
        → Checked (ManagedSaver D × LifecycleStore D)
    put m thread_id values clock written s = commit m thread_id values clock written s

    unfoldable pub put_writes :
        ManagedSaver D
        → String
        → Datetime
        → Bool
        → LifecycleStore D
        → Checked (ManagedSaver D × LifecycleStore D)
    put_writes m thread_id clock written s = commit m thread_id no_values clock written s
