-- ===== src/Lifecycle/Steps.antt =====
-- The stores that commits, prunings and deletions can reach.
use mathlib.Core.Path.{subst}
use Prim.{tt}
use agentic_etf_advisor.Prelude.{
  ℕ, String, ◌≡◌, refl, sym, ap, ◌∙◌, ◌⊎◌, inl, inr, Bool, true, false, not, ◌&&◌, none, some, List,
  [], ◌∷◌, arith, str_eq, str_eq_iff, leb, Bool-cases, Option-cases,
}
use agentic_etf_advisor.Lifecycle.Dict.{
  get_key, pop_key, get_key-put_key, get_key-put_key_other, get_key-pop_key, get_key-pop_key_other,
  IsDict, put_key-IsDict, pop_key-IsDict,
}
use agentic_etf_advisor.Lifecycle.Record.{
  Checked, done, ◌>>=◌, >>=-eq-done, LifecycleRecord, document, Libraries, new_record, Datetime,
}
use agentic_etf_advisor.Lifecycle.Store.{
  LifecycleStore, ManagedSaver, new_memory_store, read_metadata, write_metadata, erase, read,
}
use agentic_etf_advisor.Lifecycle.Sweep.{
  ExpiredPreview, Outcome, erased, prune_one, prune_all, prune, delete,
}
use agentic_etf_advisor.Lifecycle.Session.{
  ChannelValues, semantic_events, renewed, next_values, save, previous_record, updated_record,
  commit,
}
use agentic_etf_advisor.Lifecycle.Valid.{IsDigest, IsStored, model_validate-done}
use agentic_etf_advisor.Lifecycle.Prune.{prune_one-cases}

module _ {D : Type 0} (lib : Libraries D) where
  -- One operation that changes a store.
  infix 40 ◌⟶◌ ◌⟶*◌
  pub data ◌⟶◌ : LifecycleStore D → LifecycleStore D → Type 0 where
    commits :
        {s t : LifecycleStore D} (m after : ManagedSaver D) (thread_id : String)
        (values : ChannelValues) (clock : Datetime)
        → commit lib m thread_id values clock true s ≡ done (after, t)
        → s ⟶ t
    prunes :
        {s t : LifecycleStore D} (p : ExpiredPreview D) (outcomes : List (String × Outcome))
        → prune lib s p ≡ done (outcomes, t)
        → s ⟶ t
    deletes :
        {s t : LifecycleStore D} (name : String) (confirmed : Bool)
        → (delete lib s name confirmed).1 ≡ t
        → s ⟶ t

  pub data ◌⟶*◌ : LifecycleStore D → LifecycleStore D → Type 0 where
    here : {s : LifecycleStore D} → s ⟶* s
    next : {s t u : LifecycleStore D} → s ⟶ t → t ⟶* u → s ⟶* u

  module _ (laws : IsDigest lib) where
    -- Each thread has one stored document at most, which is coherent and names the thread.
    pub record IsSound (s : LifecycleStore D) : Type 0 where
      pub dict : IsDict s.metadata
      pub stored :
          (key : String)
          → (read_metadata s key ≡ none)
            ⊎ ((r : LifecycleRecord D) × IsStored lib laws key (read_metadata s key) r)

    updated_record-IsStored :
        (m : ManagedSaver D) (values : ChannelValues) (clock : Datetime) (s : LifecycleStore D)
        {u : LifecycleRecord D}
        → updated_record lib m values clock s ≡ done u
        → IsStored lib laws m.thread_id (some (document u)) u
    unfolding updated_record new_record next_values
    updated_record-IsStored m values clock s {u} h =
        let (previous, read, h1) = >>=-eq-done (previous_record lib m s) _ h in
        let (events, new, h2) = >>=-eq-done (semantic_events values) _ h1 in
        let (now, renew, h3) = >>=-eq-done (renewed previous.values events clock) _ h2 in
        let (same, valid) = model_validate-done lib laws _ h3 in
        record { stored = refl; valid = valid; named = ground (arith, same) }

    write-IsSound :
        (s : LifecycleStore D) (key : String) (u : LifecycleRecord D)
        → IsStored lib laws key (some (document u)) u
        → IsSound s
        → IsSound (write_metadata (save s key) key (document u))
    unfolding write_metadata save read_metadata
    write-IsSound s key u new sound = record {
      dict = put_key-IsDict key (document u) s.metadata sound.dict;
      stored = λ other. elim (Bool-cases (str_eq other key)) [
        | inl e ↦
            inr
              (u, rw ((str_eq_iff other key).0 e, get_key-put_key key (document u) s.metadata) new)
        | inr e ↦
            rw (get_key-put_key_other key other (document u) s.metadata e) (sound.stored other)
      ];
    }

    commit-IsSound :
        (m after : ManagedSaver D) (thread_id : String) (values : ChannelValues) (clock : Datetime)
        (s t : LifecycleStore D)
        → commit lib m thread_id values clock true s ≡ done (after, t)
        → IsSound s
        → IsSound t
    unfolding commit
    commit-IsSound m after thread_id values clock s t h sound =
        let write : LifecycleRecord D → Checked (ManagedSaver D × LifecycleStore D) = λ updated.
          done (
            record m { creating = false },
            write_metadata (save s m.thread_id) m.thread_id (document updated),
          ) in
        let h1 : (updated_record lib m values clock s >>= write) ≡ done (after, t) =
          ground (arith, h) in
        let (u, made, h2) = >>=-eq-done (updated_record lib m values clock s) write h1 in
        let written : write_metadata (save s m.thread_id) m.thread_id (document u) ≡ t =
          ground (arith, h2) in
        subst IsSound written
          (write-IsSound s m.thread_id u (updated_record-IsStored m values clock s made) sound)

    erase-IsSound : (s : LifecycleStore D) (key : String) → IsSound s → IsSound (erase s key).1
    unfolding erase read_metadata
    erase-IsSound s key sound = record {
      dict = pop_key-IsDict key s.metadata sound.dict;
      stored = λ other. elim (Bool-cases (str_eq other key)) [
        | inl e ↦ inl (
            ap (λ k. get_key k (pop_key key s.metadata)) ((str_eq_iff other key).0 e)
            ∙ get_key-pop_key key s.metadata)
        | inr e ↦ rw (get_key-pop_key_other key other s.metadata e) (sound.stored other)
      ];
    }

    prune_all-IsSound :
        (s : LifecycleStore D) (cutoff : ℕ) (candidates : List (String × D))
        → IsSound s
        → IsSound (prune_all lib s cutoff candidates).1
    unfolding prune_all
    prune_all-IsSound s cutoff [] sound = sound
    prune_all-IsSound s cutoff ((key, expected) ∷ candidates) sound =
        prune_all-IsSound (prune_one lib s cutoff key expected).1 cutoff candidates
          (elim (prune_one-cases lib laws s cutoff key expected) [
            | inl e ↦ subst IsSound (sym e) sound
            | inr (p, e) ↦ subst IsSound (sym e) (erase-IsSound s key sound)
          ])

    delete-IsSound :
        (s : LifecycleStore D) (name : String) (confirmed : Bool)
        → IsSound s
        → IsSound (delete lib s name confirmed).1
    unfolding delete erased
    delete-IsSound s name confirmed sound = elim (Option-cases (lib.uuid4 name)) [
      | inl e ↦ rw (e, delete) sound
      | inr (token, e) ↦ elim (Bool-cases (not confirmed)) [
        | inl c ↦ rw (e, c, delete) sound
        | inr c ↦ rw (e, c, delete) (erase-IsSound s token sound)
      ]
    ]

    step-IsSound : {s t : LifecycleStore D} → s ⟶ t → IsSound s → IsSound t
    unfolding prune delete erased
    step-IsSound {s} {t} (commits m after thread_id values clock h) sound =
        commit-IsSound m after thread_id values clock s t h sound
    step-IsSound {s} {t} (prunes p outcomes h) sound =
        let after : (prune_all lib s p.cutoff p.candidates).1 ≡ t = ground (arith, h) in
        subst IsSound after (prune_all-IsSound s p.cutoff p.candidates sound)
    step-IsSound {s} {t} (deletes name confirmed h) sound =
        subst IsSound h (delete-IsSound s name confirmed sound)

    steps-IsSound : {s t : LifecycleStore D} → s ⟶* t → IsSound s → IsSound t
    steps-IsSound here sound = sound
    steps-IsSound (next step rest) sound = steps-IsSound rest (step-IsSound step sound)

    -- Whatever is committed, pruned and deleted from a new store on, each thread has one stored record at
    -- most, which is coherent and names the thread.
    pub reachable-IsSound :
        (retention_days : ℕ) (s t : LifecycleStore D)
        → new_memory_store retention_days ≡ done s
        → s ⟶* t
        → IsSound t
    unfolding new_memory_store read_metadata get_key
    reachable-IsSound retention_days s t h steps =
        steps-IsSound steps (elim (Bool-cases (leb 1 retention_days && leb retention_days 365)) [
          | inr b ↦ absurd (ground (arith, h, b))
          | inl b ↦
              (let made : (record {
                durable = false;
                retention_days = retention_days;
                metadata = [];
                saved = [];
              })
                    ≡ s =
                  ground (arith, h, b) in
                subst IsSound made (record { dict = tt; stored = λ key. inl refl }))
        ])
