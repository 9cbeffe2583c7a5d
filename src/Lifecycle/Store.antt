-- ===== src/Lifecycle/Store.antt =====
-- `LifecycleStore` of src/etf_advisor/lifecycle.py, with the operations of `MemoryCheckpointStore` of
-- src/etf_advisor/checkpoint.py. An operation runs under the lock of its thread; one that raises inside
-- `atomic` leaves the store as it was.
use agentic_etf_advisor.Prelude.{
  ℕ, ◌+◌, ◌*◌, String, Bool, true, false, ◌&&◌, ◌||◌, Option, List, [], ◌∷◌, str_eq, ltb, leb,
  if◌then◌else◌, is_none, is_some,
}
use agentic_etf_advisor.Lifecycle.Dict.{get_key, put_key, pop_key}
use agentic_etf_advisor.Lifecycle.Record.{
  already_exists, clock_backward, expired, retention_range, Checked, done, refused, ◌>>=◌, Datetime,
  utc, day, LifecycleRecord, Metadata, Libraries, review_token, new_record, read_record,
}

-- `saved` lists the threads of which the saver holds a checkpoint or a write.
pub record LifecycleStore (D : Type 0) : Type 0 where
  pub durable : Bool
  pub retention_days : ℕ
  pub metadata : List (String × Metadata D)
  pub saved : List String

-- `MemoryCheckpointStore(retention_days=...)`
unfoldable pub new_memory_store : {D : Type 0} → ℕ → Checked (LifecycleStore D)
new_memory_store retention_days =
    if leb 1 retention_days && leb retention_days 365
    then done
        (record { durable = false; retention_days = retention_days; metadata = []; saved = [] })
    else refused retention_range

unfoldable pub holds : String → List String → Bool
holds thread_id [] = false
holds thread_id (key ∷ keys) = str_eq thread_id key || holds thread_id keys

-- `saver.delete_thread`
unfoldable pub delete_thread : String → List String → List String
delete_thread thread_id [] = []
delete_thread thread_id (key ∷ keys) =
    if str_eq thread_id key
    then delete_thread thread_id keys
    else key ∷ delete_thread thread_id keys

-- `ManagedSaver`
pub record ManagedSaver (D : Type 0) : Type 0 where
  pub thread_id : String
  pub initial : LifecycleRecord D
  pub creating : Bool
  pub active : Bool

-- the answers of `inspect`
pub data Status (D : Type 0) : Type 0 where
  not_found legacy : Status D
  active_review expired_review : LifecycleRecord D → Status D

module _ {D : Type 0} where
  unfoldable pub read_metadata : LifecycleStore D → String → Option (Metadata D)
  read_metadata s thread_id = get_key thread_id s.metadata

  unfoldable pub write_metadata : LifecycleStore D → String → Metadata D → LifecycleStore D
  write_metadata s thread_id value = record s { metadata = put_key thread_id value s.metadata }

  unfoldable pub exists : LifecycleStore D → String → Bool
  exists s thread_id = holds thread_id s.saved

  unfoldable pub erase : LifecycleStore D → String → Bool × LifecycleStore D
  erase s thread_id = (
    exists s thread_id || is_some (read_metadata s thread_id),
    record s { metadata = pop_key thread_id s.metadata; saved = delete_thread thread_id s.saved },
  )

  module _ (lib : Libraries D) where
    -- the token of a durable store, and any name of a thread in memory
    unfoldable pub thread_token : LifecycleStore D → String → Checked String
    thread_token s thread_id = if s.durable then review_token lib thread_id else done thread_id

    unfoldable pub read : LifecycleStore D → String → Checked (LifecycleRecord D)
    read s thread_id = read_record lib thread_id (read_metadata s thread_id)

    -- the first record of `managed(..., create=True)`
    unfoldable pub create_record : LifecycleStore D → String → ℕ → Checked (LifecycleRecord D)
    create_record s thread_id now =
        if is_some (read_metadata s thread_id) || exists s thread_id
        then refused already_exists
        else new_record lib (record {
          thread_id = thread_id;
          version = 1;
          retention_days = s.retention_days;
          last_activity_at = now;
          expires_at = now + s.retention_days * day;
          events = "creation" ∷ [];
        })

    unfoldable pub resumable : Bool → ℕ → LifecycleRecord D → Checked (LifecycleRecord D)
    resumable durable now initial =
        if ltb now initial.values.last_activity_at
        then refused clock_backward
        else if durable && leb initial.values.expires_at now
        then refused expired
        else done initial

    -- the record of `managed(...)` without creation
    unfoldable pub resume_record : LifecycleStore D → String → ℕ → Checked (LifecycleRecord D)
    resume_record s thread_id now = read s thread_id >>= resumable s.durable now

    unfoldable pub managed : LifecycleStore D → String → Bool → Datetime → Checked (ManagedSaver D)
    managed s name create clock = do
      thread_id ← thread_token s name
      now ← utc clock
      initial ← if create then create_record s thread_id now else resume_record s thread_id now
      done (record { thread_id = thread_id; initial = initial; creating = create; active = true })

    unfoldable pub status_at : Bool → ℕ → LifecycleRecord D → Checked (Status D)
    status_at durable now item =
        if ltb now item.values.last_activity_at
        then refused clock_backward
        else done (
            if durable && leb item.values.expires_at now
            then expired_review item
            else active_review item)

    unfoldable pub inspect : LifecycleStore D → String → Datetime → Checked (Status D)
    inspect s name clock = do
      thread_id ← thread_token s name
      now ← utc clock
      let item = read s thread_id >>= status_at s.durable now
      let absent = done (if exists s thread_id then legacy else not_found)
      if is_none (read_metadata s thread_id) then absent else item
