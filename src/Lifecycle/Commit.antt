-- ===== src/Lifecycle/Commit.antt =====
-- What one commit of a managed run does to the lifecycle record.
use agentic_etf_advisor.Prelude.{
  ℕ, ◌+◌, ◌*◌, ◌≤◌, pos, String, ◌≡◌, refl, ap, ◌∙◌, inl, inr, Bool, true, false, ◌||◌, some, List,
  ◌++◌, arith, str_eq, str_eq_iff, if◌then◌else◌, Bool-cases, all,
}
use agentic_etf_advisor.Lifecycle.Dict.{get_key, put_key, get_key-put_key, get_key-put_key_other}
use agentic_etf_advisor.Lifecycle.Events.{
  contains, sort_events-IsSorted, contains-sort_events, contains-append,
}
use agentic_etf_advisor.Lifecycle.Record.{
  done, day, LifecycleValues, LifecycleRecord, document, Libraries, coherent, new_record, utc,
  aware,
}
use agentic_etf_advisor.Lifecycle.Store.{
  LifecycleStore, ManagedSaver, read_metadata, exists, holds, write_metadata, read,
}
use agentic_etf_advisor.Lifecycle.Session.{
  ChannelValues, semantic_events, renewed, next_values, valid_runtime, save, previous_record,
  updated_record, commit,
}
use agentic_etf_advisor.Lifecycle.Valid.{
  IsDigest, IsBounded, new_record-done, model_validate-done, coherent-IsBounded, coherent-creation,
  IsStored-read_record,
}

-- The record after a commit at `moment`: one version later unless the commit creates it, no event lost
-- and every new one added, and an activity time that moves to `moment` where an event is new.
pub record Extends (creating : Bool) (events : List String) (moment : ℕ)
    (previous next : LifecycleValues) : Type 0 where
  pub version : next.version ≡ (if creating then previous.version else previous.version + 1)
  pub retention : next.retention_days ≡ previous.retention_days
  pub activity :
      next.last_activity_at
      ≡ (if all (λ e. contains e previous.events) events then previous.last_activity_at else moment)
  pub later : previous.last_activity_at ≤ next.last_activity_at
  pub expiry : next.expires_at ≡ next.last_activity_at + next.retention_days * day
  pub same_set :
      (e : String) → contains e next.events ≡ contains e previous.events || contains e events

renewed-done :
    (previous : LifecycleValues) (events : List String) (moment : ℕ)
    → previous.last_activity_at ≤ moment
    → (now : ℕ) × (renewed previous events (aware moment (pos 0)) ≡ done now)
      × (now ≡ (
          if all (λ e. contains e previous.events) events
          then previous.last_activity_at
          else moment))
      × (previous.last_activity_at ≤ now)
unfolding renewed utc
renewed-done previous events moment le =
    elim (Bool-cases (all (λ e. contains e previous.events) events)) [
      | inl a ↦ rw a (previous.last_activity_at, refl, refl, omega arith)
      | inr a ↦ (moment, ground arith, ground arith, le)
    ]

next_values-Extends :
    (thread_id : String) (creating : Bool) (previous : LifecycleValues) (events : List String)
    (moment now : ℕ)
    → now
      ≡ (if all (λ e. contains e previous.events) events then previous.last_activity_at else moment)
    → previous.last_activity_at ≤ now
    → Extends creating events moment previous (next_values thread_id creating previous events now)
unfolding next_values
next_values-Extends thread_id creating previous events moment now same le = record {
  version = refl;
  retention = refl;
  activity = same;
  later = le;
  expiry = refl;
  same_set = λ e.
      contains-sort_events e (previous.events ++ events) ∙ contains-append e previous.events events;
}

next_values-IsBounded :
    (thread_id : String) (creating : Bool) (previous : LifecycleValues) (events : List String)
    (now : ℕ)
    → IsBounded previous
    → IsBounded (next_values thread_id creating previous events now)
unfolding next_values
next_values-IsBounded thread_id creating previous events now b = record {
  version = ground (arith, b.version);
  retention_min = b.retention_min;
  retention_max = b.retention_max;
  expiry = refl;
}

-- Saving adds the thread to those with a checkpoint, and takes none away.
exists-save :
    {D : Type 0} (s : LifecycleStore D) (thread_id other : String)
    → exists (save s thread_id) other ≡ (str_eq other thread_id || exists s other)
unfolding exists save holds
exists-save s thread_id other = elim (Bool-cases (exists s thread_id)) [
  | inr new ↦ rw new refl
  | inl old ↦ elim (Bool-cases (str_eq other thread_id)) [
    | inr apart ↦ rw (old, apart) refl
    | inl same ↦
        rw (old, same) (ap (λ k. holds k s.saved) ((str_eq_iff other thread_id).0 same) ∙ old)
  ]
]

module _ {D : Type 0} (lib : Libraries D) (laws : IsDigest lib) where
  pub updated_record-done :
      (m : ManagedSaver D) (values : ChannelValues) (moment : ℕ) (s : LifecycleStore D)
      (r : LifecycleRecord D) (events : List String)
      → previous_record lib m s ≡ done r
      → coherent lib r ≡ true
      → semantic_events values ≡ done events
      → r.values.last_activity_at ≤ moment
      → (u : LifecycleRecord D) × (updated_record lib m values (aware moment (pos 0)) s ≡ done u)
        × (coherent lib u ≡ true)
        × (u.values.thread_id ≡ m.thread_id)
        × Extends m.creating events moment r.values u.values
  unfolding updated_record next_values new_record
  updated_record-done m values moment s r events p c se le =
      let (now, renew, same, later) = renewed-done r.values events moment le in
      let v : LifecycleValues = next_values m.thread_id m.creating r.values events now in
      let added : Extends m.creating events moment r.values v =
        next_values-Extends m.thread_id m.creating r.values events moment now same later in
      let made : new_record lib v ≡ done (record { values = v; integrity = lib.digest v }) =
        new_record-done lib laws v
          (next_values-IsBounded m.thread_id m.creating r.values events now
            (coherent-IsBounded lib laws r c))
          (sort_events-IsSorted (r.values.events ++ events))
          (added.same_set "creation" ∙ ground (arith, coherent-creation lib laws r c)) in
      (
        record { values = v; integrity = lib.digest v },
        rw (p, se, renew) made,
        (model_validate-done lib laws _ made).1,
        refl,
        added,
      )

  -- A commit of a valid run whose clock is not before the last activity succeeds. The record is then
  -- read back and extends the one before. No other thread's record has changed, and of the other threads
  -- the same ones have a checkpoint.
  pub commit-Extends :
      (m : ManagedSaver D) (values : ChannelValues) (moment : ℕ) (s : LifecycleStore D)
      (r : LifecycleRecord D) (events : List String)
      → m.active ≡ true
      → previous_record lib m s ≡ done r
      → coherent lib r ≡ true
      → semantic_events values ≡ done events
      → r.values.last_activity_at ≤ moment
      → (t : LifecycleStore D) × (u : LifecycleRecord D) × (commit lib m m.thread_id values
            (aware moment (pos 0))
            true
            s
          ≡ done (record m { creating = false }, t))
        × (read lib t m.thread_id ≡ done u)
        × Extends m.creating events moment r.values u.values
        × (t.durable ≡ s.durable)
        × ((other : String)
            → read_metadata t other
              ≡ (if str_eq other m.thread_id then some (document u) else read_metadata s other))
        × ((other : String) → exists t other ≡ (str_eq other m.thread_id || exists s other))
  unfolding commit valid_runtime read read_metadata write_metadata save exists
  commit-Extends m values moment s r events a p c se le =
      let (u, made, valid, named, added) =
        updated_record-done m values moment s r events p c se le in
      (
        write_metadata (save s m.thread_id) m.thread_id (document u),
        u,
        rw made (ground (arith, a, str_eq_iff m.thread_id m.thread_id)),
        IsStored-read_record lib laws m.thread_id _ (record {
          stored = get_key-put_key m.thread_id (document u) s.metadata;
          valid = valid;
          named = named;
        }),
        added,
        refl,
        λ other. elim (Bool-cases (str_eq other m.thread_id)) [
          | inl e ↦ rw e (
              ap (λ k. get_key k (put_key m.thread_id (document u) s.metadata))
                ((str_eq_iff other m.thread_id).0 e)
              ∙ get_key-put_key m.thread_id (document u) s.metadata)
          | inr e ↦ rw e (get_key-put_key_other m.thread_id other (document u) s.metadata e)
        ],
        exists-save s m.thread_id,
      )
