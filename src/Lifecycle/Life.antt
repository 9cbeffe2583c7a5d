-- ===== src/Lifecycle/Life.antt =====
-- The life of one saved review, from its creation to its expiry.
use Prim.{tt}
use mathlib.Core.Path.{subst}
use agentic_etf_advisor.Prelude.{
  ℕ, ◌+◌, ◌*◌, ◌≤◌, ◌<◌, pos, String, ◌≡◌, refl, sym, ap, ◌∙◌, ◌⊎◌, true, false, ◌&&◌, none, some,
  List, [], ◌∷◌, arith, leb, if◌then◌else◌, same_codes,
}
use agentic_etf_advisor.Lifecycle.Events.{contains}
use agentic_etf_advisor.Lifecycle.Record.{
  expired, done, refused, day, LifecycleValues, LifecycleRecord, document, Libraries, coherent,
  read_record, new_record, utc, aware, review_token,
}
use agentic_etf_advisor.Lifecycle.Store.{
  LifecycleStore, ManagedSaver, active_review, expired_review, read_metadata, exists, read,
  thread_token, create_record, resumable, resume_record, managed, status_at, inspect,
}
use agentic_etf_advisor.Lifecycle.Session.{ChannelValues, semantic_events, previous_record, commit}
use agentic_etf_advisor.Lifecycle.Valid.{
  IsDigest, model_validate-done, new_record-done, read_record-IsStored,
}
use agentic_etf_advisor.Lifecycle.Commit.{commit-Extends}

module _ {D : Type 0} (lib : Libraries D) (laws : IsDigest lib) where
  -- A name that no review has starts a run whose first record is coherent, of version 1, and expires
  -- after the retention.
  pub create-done :
      (s : LifecycleStore D) (name thread_id : String) (start : ℕ)
      → thread_token lib s name ≡ done thread_id
      → read_metadata s thread_id ≡ none
      → exists s thread_id ≡ false
      → 1 ≤ s.retention_days
      → s.retention_days ≤ 365
      → (m : ManagedSaver D) × (managed lib s name true (aware start (pos 0)) ≡ done m)
        × (m.thread_id ≡ thread_id)
        × (m.active ≡ true)
        × (m.creating ≡ true)
        × (coherent lib m.initial ≡ true)
        × (m.initial.values.version ≡ 1)
        × (m.initial.values.retention_days ≡ s.retention_days)
        × (m.initial.values.last_activity_at ≡ start)
  unfolding managed create_record utc new_record contains same_codes
  create-done s name thread_id start token absent unsaved low high =
      let v : LifecycleValues = record {
        thread_id = thread_id;
        version = 1;
        retention_days = s.retention_days;
        last_activity_at = start;
        expires_at = start + s.retention_days * day;
        events = "creation" ∷ [];
      } in
      let made : new_record lib v ≡ done (record { values = v; integrity = lib.digest v }) =
        new_record-done lib laws v
          (record {
            version = omega arith;
            retention_min = low;
            retention_max = high;
            expiry = refl;
          })
          (tt, tt) refl in
      (
        record {
          thread_id = thread_id;
          initial = record { values = v; integrity = lib.digest v };
          creating = true;
          active = true;
        },
        rw (token, absent, unsaved, made) refl,
        refl,
        refl,
        refl,
        (model_validate-done lib laws _ made).1,
        refl,
        refl,
        refl,
      )

  inspect-stored :
      (s : LifecycleStore D) (name thread_id : String) (at : ℕ) (r : LifecycleRecord D)
      → thread_token lib s name ≡ done thread_id
      → read lib s thread_id ≡ done r
      → r.values.last_activity_at ≤ at
      → inspect lib s name (aware at (pos 0))
        ≡ done
            (if s.durable && leb r.values.expires_at at then expired_review r else active_review r)
  unfolding inspect utc status_at read
  inspect-stored s name thread_id at r token found le =
      let stored = read_record-IsStored lib laws thread_id (read_metadata s thread_id) found in
      let back : read_record lib thread_id (some (document r)) ≡ done r =
        ap (read_record lib thread_id) (sym stored.stored) ∙ found in
      rw (token, stored.stored, back) (ground (arith, le))

  -- A stored review is resumed with the record that is read, or refused as expired: a durable store
  -- refuses it from its expiry on.
  pub resume-stored :
      (s : LifecycleStore D) (name thread_id : String) (at : ℕ) (r : LifecycleRecord D)
      → thread_token lib s name ≡ done thread_id
      → read lib s thread_id ≡ done r
      → r.values.last_activity_at ≤ at
      → managed lib s name false (aware at (pos 0)) ≡ (
          if s.durable && leb r.values.expires_at at
          then refused expired
          else done
              (record { thread_id = thread_id; initial = r; creating = false; active = true }))
  unfolding managed utc resume_record resumable
  resume-stored s name thread_id at r token found le = rw (token, found) (ground (arith, le))

  -- A new review that is created at `start` and first saved at `moment` can be resumed and is shown active, with version 1,
  -- at each later time before `start` plus the retention; a memory store never expires it.
  pub review_lifetime :
      (s : LifecycleStore D) (name thread_id : String) (values : ChannelValues)
      (events : List String) (start moment at : ℕ)
      → thread_token lib s name ≡ done thread_id
      → read_metadata s thread_id ≡ none
      → exists s thread_id ≡ false
      → 1 ≤ s.retention_days
      → s.retention_days ≤ 365
      → semantic_events values ≡ done events
      → start ≤ moment
      → moment ≤ at
      → (at < start + s.retention_days * day) ⊎ (s.durable ≡ false)
      → (m after resumed : ManagedSaver D) × (t : LifecycleStore D) × (managed lib s name true
            (aware start (pos 0))
          ≡ done m)
        × (commit lib m thread_id values (aware moment (pos 0)) true s ≡ done (after, t))
        × (managed lib t name false (aware at (pos 0)) ≡ done resumed)
        × (inspect lib t name (aware at (pos 0)) ≡ done (active_review resumed.initial))
        × (resumed.initial.values.version ≡ 1)
        × (resumed.initial.values.retention_days ≡ s.retention_days)
  unfolding previous_record thread_token
  review_lifetime s name thread_id values events start moment at token absent unsaved low high new
        le1 le2 early =
      let (m, made, named, active, creating, valid, one, days, at_start) =
        create-done s name thread_id start token absent unsaved low high in
      let (t, u, committed, found, extends, durable, others, savers) =
        commit-Extends lib laws m values moment s m.initial events active (rw creating refl) valid
          new (omega arith) in
      let same_token : thread_token lib t name ≡ done thread_id =
        ap (λ d. if d then review_token lib name else done name) durable ∙ token in
      let read_back : read lib t thread_id ≡ done u = ap (read lib t) (sym named) ∙ found in
      let last : u.values.last_activity_at ≤ at = ground (arith, extends.activity) in
      let kept : u.values.retention_days ≡ s.retention_days = extends.retention ∙ days in
      let expiry : u.values.expires_at ≡ u.values.last_activity_at + s.retention_days * day =
        extends.expiry ∙ ap (λ n. u.values.last_activity_at + n * day) kept in
      let in_time : (t.durable && leb u.values.expires_at at) ≡ false =
        ground (arith, durable, early, extends.later) in
      (
        m,
        record m { creating = false },
        record { thread_id = thread_id; initial = u; creating = false; active = true },
        t,
        made,
        subst
            (λ k.
              commit lib m k values (aware moment (pos 0)) true s
              ≡ done (record m { creating = false }, t))
            named committed,
        resume-stored t name thread_id at u same_token read_back last ∙ rw in_time refl,
        inspect-stored t name thread_id at u same_token read_back last ∙ rw in_time refl,
        ground (arith, extends.version, creating),
        kept,
      )
