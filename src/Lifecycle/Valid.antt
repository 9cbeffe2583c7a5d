-- ===== src/Lifecycle/Valid.antt =====
-- What the validation of a lifecycle record and the reading of a stored one establish.
use agentic_etf_advisor.Prelude.{
  ◌+◌, ◌*◌, ◌≤◌, String, ◌≡◌, refl, sym, ap, ◌∙◌, true, Option, none, some, arith, str_eq_iff,
}
use agentic_etf_advisor.Lifecycle.Events.{contains, IsSorted, sort_events_sorted, same_events_refl}
use agentic_etf_advisor.Lifecycle.Record.{
  done, day, LifecycleValues, LifecycleRecord, Metadata, malformed, document, Libraries, coherent,
  model_validate, new_record, of_thread, read_record,
}

-- `==` on digests is equality, and equal digests are those of equal records.
pub record IsDigest {D : Type 0} (lib : Libraries D) : Type 0 where
  pub same_refl : (d : D) → lib.same d d ≡ true
  pub same_eq : (d e : D) → lib.same d e ≡ true → d ≡ e
  pub injective : (v w : LifecycleValues) → lib.digest v ≡ lib.digest w → v ≡ w

-- The bounds and relations of the fields of a record.
pub record IsBounded (v : LifecycleValues) : Type 0 where
  pub version : 1 ≤ v.version
  pub retention_min : 1 ≤ v.retention_days
  pub retention_max : v.retention_days ≤ 365
  pub expiry : v.expires_at ≡ v.last_activity_at + v.retention_days * day

module _ {D : Type 0} (lib : Libraries D) (laws : IsDigest lib) where
  pub new_record-done :
      (v : LifecycleValues)
      → IsBounded v
      → IsSorted v.events
      → contains "creation" v.events ≡ true
      → new_record lib v ≡ done (record { values = v; integrity = lib.digest v })
  unfolding new_record model_validate coherent
  new_record-done v b s c = ground (
    arith,
    b.version,
    b.retention_min,
    b.retention_max,
    b.expiry,
    sort_events_sorted v.events s,
    same_events_refl v.events,
    c,
    laws.same_refl (lib.digest v),
  )

  pub coherent-IsBounded : (r : LifecycleRecord D) → coherent lib r ≡ true → IsBounded r.values
  unfolding coherent
  coherent-IsBounded r h = record {
    version = ground arith;
    retention_min = ground arith;
    retention_max = ground arith;
    expiry = ground arith;
  }

  pub coherent-creation :
      (r : LifecycleRecord D) → coherent lib r ≡ true → contains "creation" r.values.events ≡ true
  unfolding coherent
  coherent-creation r h = ground arith

  pub coherent-digest :
      (r : LifecycleRecord D) → coherent lib r ≡ true → r.integrity ≡ lib.digest r.values
  unfolding coherent
  coherent-digest r h = laws.same_eq r.integrity (lib.digest r.values) (ground arith)

  pub model_validate-done :
      (raw : Metadata D) {r : LifecycleRecord D}
      → model_validate lib raw ≡ done r
      → (raw ≡ document r) × (coherent lib r ≡ true)
  unfolding model_validate
  model_validate-done malformed h = absurd (cc)
  model_validate-done (document q) h = ground arith

  pub coherent-model_validate :
      (r : LifecycleRecord D) → coherent lib r ≡ true → model_validate lib (document r) ≡ done r
  unfolding model_validate
  coherent-model_validate r h = rw h refl

  -- A record is read exactly where a coherent document with its thread is stored.
  pub record IsStored (thread_id : String) (found : Option (Metadata D)) (r : LifecycleRecord D)
      : Type 0 where
    pub stored : found ≡ some (document r)
    pub valid : coherent lib r ≡ true
    pub named : r.values.thread_id ≡ thread_id

  pub read_record-IsStored :
      (thread_id : String) (found : Option (Metadata D)) {r : LifecycleRecord D}
      → read_record lib thread_id found ≡ done r
      → IsStored thread_id found r
  unfolding read_record of_thread model_validate
  read_record-IsStored thread_id none h = absurd (cc)
  read_record-IsStored thread_id (some malformed) h = absurd (cc)
  read_record-IsStored thread_id (some (document q)) {r} h =
      let e : q ≡ r = ground arith in
      record {
        stored = ap (λ x. some (document x)) e;
        valid = ground arith;
        named = ground (arith, str_eq_iff q.values.thread_id thread_id);
      }

  pub IsStored-read_record :
      (thread_id : String) (found : Option (Metadata D)) {r : LifecycleRecord D}
      → IsStored thread_id found r
      → read_record lib thread_id found ≡ done r
  unfolding read_record of_thread
  IsStored-read_record thread_id found {r} stored =
      rw (stored.stored, coherent-model_validate r stored.valid)
        (ground (arith, stored.named, str_eq_iff r.values.thread_id thread_id))

  -- Equal digests belong to equal records.
  pub same-eq :
      (r q : LifecycleRecord D)
      → coherent lib r ≡ true
      → coherent lib q ≡ true
      → lib.same r.integrity q.integrity ≡ true
      → r ≡ q
  same-eq r q cr cq h =
      let i : r.integrity ≡ q.integrity = laws.same_eq r.integrity q.integrity h in
      let v : r.values ≡ q.values =
        laws.injective r.values q.values (sym (coherent-digest r cr) ∙ i ∙ coherent-digest q cq) in
      λ k. record { values = v k; integrity = i k }
