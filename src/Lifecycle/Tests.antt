-- ===== src/Lifecycle/Tests.antt =====
-- The life of one review in a durable and in a memory store, and the lifecycle theorems at it.
use Prim.{tt}
use agentic_etf_advisor.Prelude.{
  ℕ, ◌+◌, ◌*◌, pos, String, ◌||◌, ◌≡◌, refl, ◌⊎◌, ◌↔◌, inl, Bool, true, false, ◌&&◌, none, some,
  List, [], ◌∷◌, arith, str_eq, str_eq_iff, ◌==◌, if◌then◌else◌, In, same_codes,
}
use agentic_etf_advisor.Lifecycle.Events.{contains, sort_events, same_events, add_event, before}
use agentic_etf_advisor.Lifecycle.Dict.{get_key, put_key, pop_key}
use agentic_etf_advisor.Lifecycle.Record.{
  done, day, LifecycleValues, LifecycleRecord, document, Libraries, coherent, model_validate,
  new_record, utc, aware, review_token, read_record, of_thread,
}
use agentic_etf_advisor.Lifecycle.Store.{
  LifecycleStore, ManagedSaver, inspect, active_review, new_memory_store, read_metadata,
  write_metadata, exists, holds, delete_thread, erase, read, thread_token, managed,
}
use agentic_etf_advisor.Lifecycle.Sweep.{
  ExpiredPreview, Outcome, deleted, add_candidate, expired_candidates, preview_expired, erased,
  prune_current, prune_one, prune_all, prune, delete,
}
use agentic_etf_advisor.Lifecycle.Session.{
  ChannelValues, no_values, semantic_events, ledger_events, revision_events, retry_events,
  operation_at, receipts_of, children, requested_retry, is_terminal, renewed, next_values,
  valid_runtime, save, previous_record, updated_record, commit,
}
use agentic_etf_advisor.Lifecycle.Valid.{IsStored-read_record, IsDigest, IsStored}
use agentic_etf_advisor.Lifecycle.Commit.{Extends, commit-Extends}
use agentic_etf_advisor.Lifecycle.Preview.{IsExpired, preview_expired_iff}
use agentic_etf_advisor.Lifecycle.Prune.{prune_safe, prune_live}
use agentic_etf_advisor.Lifecycle.Held.{IsKept, IsGone}
use agentic_etf_advisor.Lifecycle.Steps.{
  ◌⟶*◌, commits, deletes, here, next, IsSound, reachable-IsSound,
}
use agentic_etf_advisor.Lifecycle.Life.{review_lifetime}

-- The digest of a record is the record itself here.
abbrev same_texts : List String → List String → Bool
same_texts [] [] = true
same_texts [] (y ∷ ys) = false
same_texts (x ∷ xs) [] = false
same_texts (x ∷ xs) (y ∷ ys) = str_eq x y && same_texts xs ys

abbrev same_values : LifecycleValues → LifecycleValues → Bool
same_values v w =
    str_eq v.thread_id w.thread_id
    && v.version == w.version
    && v.retention_days == w.retention_days
    && v.last_activity_at == w.last_activity_at
    && v.expires_at == w.expires_at
    && same_texts v.events w.events

same_texts_refl : (xs : List String) → same_texts xs xs ≡ true
same_texts_refl [] = refl
same_texts_refl (x ∷ xs) = ground (arith, str_eq_iff x x, same_texts_refl xs)

same_texts→eq : (xs ys : List String) → same_texts xs ys ≡ true → xs ≡ ys
same_texts→eq [] [] h = refl
same_texts→eq [] (y ∷ ys) h = absurd (cc)
same_texts→eq (x ∷ xs) [] h = absurd (cc)
same_texts→eq (x ∷ xs) (y ∷ ys) h = ground (arith, str_eq_iff x y, same_texts→eq xs ys)

same_values→eq : (v w : LifecycleValues) → same_values v w ≡ true → v ≡ w
same_values→eq v w h =
    let thread : v.thread_id ≡ w.thread_id =
      ground (arith, h, str_eq_iff v.thread_id w.thread_id) in
    let version : v.version ≡ w.version = ground (arith, h) in
    let days : v.retention_days ≡ w.retention_days = ground (arith, h) in
    let last : v.last_activity_at ≡ w.last_activity_at = ground (arith, h) in
    let expiry : v.expires_at ≡ w.expires_at = ground (arith, h) in
    let events : v.events ≡ w.events = ground (arith, h, same_texts→eq v.events w.events) in
    λ i. record {
      thread_id = thread i;
      version = version i;
      retention_days = days i;
      last_activity_at = last i;
      expires_at = expiry i;
      events = events i;
    }

abbrev first_values : LifecycleValues
first_values = record {
  thread_id = "a";
  version = 1;
  retention_days = 30;
  last_activity_at = 1_000;
  expires_at = 1_000 + 30 * day;
  events = "creation" ∷ [];
}

abbrev lib : Libraries LifecycleValues
lib = record {
  digest = λ v. v;
  preview_digest = λ cutoff candidates. record first_values { last_activity_at = cutoff };
  same = same_values;
  uuid4 = λ token. some token;
}

lib-IsDigest : IsDigest lib
lib-IsDigest = record {
  same_refl = λ v. ground (arith, str_eq_iff v.thread_id v.thread_id, same_texts_refl v.events);
  same_eq = same_values→eq;
  injective = λ v w e. e;
}

abbrev first_record : LifecycleRecord LifecycleValues
first_record = record { values = first_values; integrity = first_values }

abbrev empty_store : LifecycleStore LifecycleValues
empty_store = record { durable = true; retention_days = 30; metadata = []; saved = [] }

abbrev one_review : LifecycleStore LifecycleValues
one_review = record empty_store { metadata = ("a", document first_record) ∷ []; saved = "a" ∷ [] }

-- A decision on a first revision that was approved after one retry.
abbrev approved : ChannelValues
approved = record {
  ledger = some (record {
    decisions = "d1" ∷ [];
    revisions =
        (record {
          revision_id = "r0";
          status = "approved";
          terminal_digest = "t0";
          receipts =
              record { stage = "evidence"; attempt = 1; operation_id = "o1" }
              ∷ record { stage = "evidence"; attempt = 2; operation_id = "o2" }
              ∷ [];
        })
        ∷ [];
  });
  status = some "approved";
  retry_operation_id = none;
}

abbrev resumed : ManagedSaver LifecycleValues
resumed = record { thread_id = "a"; initial = first_record; creating = false; active = true }

approved-events : semantic_events approved ≡ done ("decision:d1" ∷ "retry:o1" ∷ "terminal:t0" ∷ [])
unfolding semantic_events ledger_events revision_events retry_events children requested_retry
    is_terminal operation_at receipts_of
approved-events = refl

abbrev committed_events : List String
committed_events = "decision:d1" ∷ "retry:o1" ∷ "terminal:t0" ∷ []

first_record-coherent : coherent lib first_record ≡ true
unfolding coherent contains sort_events add_event same_events same_codes
first_record-coherent = refl

one_review-IsStored : IsStored lib lib-IsDigest "a" (read_metadata one_review "a") first_record
unfolding read_metadata get_key
one_review-IsStored = record { stored = refl; valid = first_record-coherent; named = refl }

commit-Extends_example :
    (t : LifecycleStore LifecycleValues) × (u : LifecycleRecord LifecycleValues) × (commit lib
        resumed "a" approved
        (aware 2_000 (pos 0))
        true
        one_review
      ≡ done (record resumed { creating = false }, t))
    × (read lib t "a" ≡ done u)
    × Extends false committed_events 2_000 first_values u.values
    × (t.durable ≡ true)
    × ((other : String)
        → read_metadata t other
          ≡ (if str_eq other "a" then some (document u) else read_metadata one_review other))
    × ((other : String) → exists t other ≡ (str_eq other "a" || exists one_review other))
unfolding previous_record read
commit-Extends_example =
    commit-Extends lib lib-IsDigest resumed approved 2_000 one_review first_record committed_events
      refl
      (IsStored-read_record lib lib-IsDigest "a" (read_metadata one_review "a") one_review-IsStored)
      first_record-coherent approved-events (omega arith)

abbrev late : ℕ
late = 1_000 + 31 * day

abbrev previewed : ExpiredPreview LifecycleValues
previewed = record {
  cutoff = late;
  candidates = ("a", first_values) ∷ [];
  integrity = record first_values { last_activity_at = late };
}

one_review-previewed : preview_expired lib one_review (aware late (pos 0)) ≡ done previewed
unfolding preview_expired expired_candidates add_candidate model_validate utc
one_review-previewed = rw first_record-coherent refl

one_review-IsExpired :
    IsExpired lib lib-IsDigest true late "a" (read_metadata one_review "a") first_record
one_review-IsExpired = record {
  stored = one_review-IsStored;
  durable_store = refl;
  past = omega arith;
}

preview_expired_iff_example : In ("a", first_values) previewed.candidates ↔ (
    (r : LifecycleRecord LifecycleValues) × IsExpired lib lib-IsDigest true late "a"
      (read_metadata one_review "a")
      r
    × (first_values ≡ r.integrity))
unfolding get_key
preview_expired_iff_example =
    preview_expired_iff lib lib-IsDigest one_review (aware late (pos 0)) previewed (refl, tt)
      one_review-previewed "a" first_values

-- The store after the deletion.
pruned-empty : prune lib one_review previewed ≡ done (("a", deleted) ∷ [], empty_store)
unfolding prune prune_all prune_one prune_current erased erase read read_record of_thread
    read_metadata get_key pop_key exists holds delete_thread model_validate
pruned-empty = rw first_record-coherent refl

prune_safe_example :
    IsKept "a" one_review empty_store
    ⊎ ((r : LifecycleRecord LifecycleValues) × IsExpired lib lib-IsDigest true late "a"
          (read_metadata one_review "a")
          r
        × (read_metadata one_review "a" ≡ some (document r))
        × IsGone "a" empty_store)
unfolding get_key
prune_safe_example =
    prune_safe lib lib-IsDigest one_review one_review (aware late (pos 0)) previewed
      (("a", deleted) ∷ []) empty_store (refl, tt) one_review-previewed pruned-empty "a"

prune_live_example :
    (outcomes : List (String × Outcome)) × (pruned : LifecycleStore LifecycleValues) × (prune lib
        one_review previewed
      ≡ done (outcomes, pruned))
    × IsGone "a" pruned
unfolding get_key
prune_live_example =
    prune_live lib lib-IsDigest one_review one_review (aware late (pos 0)) previewed "a"
      first_record (refl, tt) one_review-previewed one_review-IsExpired one_review-IsStored.stored
      refl

abbrev memory_store : LifecycleStore LifecycleValues
memory_store = record { durable = false; retention_days = 30; metadata = []; saved = [] }

-- A first save in memory, and its deletion.
memory_steps : ◌⟶*◌ lib memory_store memory_store
unfolding commit updated_record previous_record semantic_events renewed next_values valid_runtime
    new_record model_validate delete erased erase write_metadata save put_key pop_key exists holds
    delete_thread coherent contains sort_events add_event same_events same_codes before
memory_steps =
    next
      (commits
        {t = record memory_store { metadata = ("a", document first_record) ∷ []; saved = "a" ∷ [] }}
        (record resumed { creating = true }) resumed "a" no_values (aware 1_000 (pos 0)) refl)
      (next (deletes "a" true refl) here)

reachable-IsSound_example : IsSound lib lib-IsDigest memory_store
unfolding new_memory_store
reachable-IsSound_example =
    reachable-IsSound lib lib-IsDigest 30 memory_store memory_store refl memory_steps

review_lifetime_example :
    (m after resumed : ManagedSaver LifecycleValues) × (t : LifecycleStore LifecycleValues)
    × (managed lib empty_store "a" true (aware 1_000 (pos 0)) ≡ done m)
    × (commit lib m "a" approved (aware 2_000 (pos 0)) true empty_store ≡ done (after, t))
    × (managed lib t "a" false (aware day (pos 0)) ≡ done resumed)
    × (inspect lib t "a" (aware day (pos 0)) ≡ done (active_review resumed.initial))
    × (resumed.initial.values.version ≡ 1)
    × (resumed.initial.values.retention_days ≡ 30)
unfolding thread_token review_token read_metadata get_key exists holds
review_lifetime_example =
    review_lifetime lib lib-IsDigest empty_store "a" "a" approved committed_events 1_000 2_000 day
      refl refl refl (omega arith) (omega arith) approved-events (omega arith) (omega arith)
      (inl (omega arith))
