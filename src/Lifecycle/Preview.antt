-- ===== src/Lifecycle/Preview.antt =====
-- Which saved reviews a prune preview names.
use mathlib.Core.Path.{subst}
use agentic_etf_advisor.Prelude.{
  ℕ, ◌≤◌, String, ◌≡◌, refl, sym, ap, ◌∙◌, ◌⊎◌, ◌↔◌, inl, inr, Bool, true, false, ◌&&◌, Option,
  some, List, [], ◌∷◌, arith, str_eq, str_eq_iff, leb, Bool-cases, In,
}
use agentic_etf_advisor.Lifecycle.Dict.{get_key, IsDict}
use agentic_etf_advisor.Lifecycle.Record.{
  Checked, done, refused, >>=-eq-done, LifecycleRecord, Metadata, document, Libraries,
  model_validate, utc, Datetime,
}
use agentic_etf_advisor.Lifecycle.Store.{LifecycleStore, read_metadata}
use agentic_etf_advisor.Lifecycle.Sweep.{
  ExpiredPreview, add_candidate, expired_candidates, preview_expired,
}
use agentic_etf_advisor.Lifecycle.Valid.{
  IsDigest, model_validate-done, coherent-model_validate, IsStored,
}

pub In-get_key :
    {A : Type 0} (key : String) (a : A) (items : List (String × A))
    → IsDict items
    → In (key, a) items
    → get_key key items ≡ some a
unfolding get_key
In-get_key key a [] d i = absurd i
In-get_key key a ((k, b) ∷ items) d (inl e) =
    ground (arith, str_eq_iff key k, ap (λ p. p.0) e, ap (λ p. p.1) e)
In-get_key key a ((k, b) ∷ items) d (inr i) =
    ground (arith, str_eq_iff key k, d.0, In-get_key key a items d.1 i)

module _ {D : Type 0} (lib : Libraries D) (laws : IsDigest lib) where
  -- A stored record that a durable store holds past its expiry at `cutoff`.
  pub record IsExpired (durable : Bool) (cutoff : ℕ) (key : String) (found : Option (Metadata D))
      (r : LifecycleRecord D) : Type 0 where
    pub stored : IsStored lib laws key found r
    pub durable_store : durable ≡ true
    pub past : r.values.expires_at ≤ cutoff

  Added :
      Bool
      → ℕ
      → String
      → Checked (LifecycleRecord D)
      → List (String × D)
      → List (String × D)
      → Type 0
  Added durable cutoff key item rest candidates =
      ((candidates ≡ rest)
        × ((r : LifecycleRecord D)
            → item ≡ done r
            → str_eq r.values.thread_id key ≡ true
            → (durable && leb r.values.expires_at cutoff) ≡ false))
      ⊎ ((r : LifecycleRecord D) × (item ≡ done r)
          × (str_eq r.values.thread_id key ≡ true)
          × ((durable && leb r.values.expires_at cutoff) ≡ true)
          × (candidates ≡ (key, r.integrity) ∷ rest))

  add_candidate-Added :
      (durable : Bool) (cutoff : ℕ) (key : String) (item : Checked (LifecycleRecord D))
      (later : Checked (List (String × D))) {candidates : List (String × D)}
      → add_candidate lib durable cutoff key item later ≡ done candidates
      → (rest : List (String × D)) × (later ≡ done rest)
        × Added durable cutoff key item rest candidates
  unfolding add_candidate Added
  add_candidate-Added durable cutoff key (refused error) later {candidates} h =
      (candidates, h, inl (refl, λ r e. absurd (cc)))
  add_candidate-Added durable cutoff key (done r) (refused error) h = absurd (ground (arith, h))
  add_candidate-Added durable cutoff key (done r) (done rest) {candidates} h = (
    rest,
    refl,
    elim (Bool-cases (str_eq r.values.thread_id key)) [
      | inr e ↦ inl (ground (arith, h, e), λ q f g. absurd (ground (arith, e, f, g)))
      | inl e ↦ elim (Bool-cases (durable && leb r.values.expires_at cutoff)) [
        | inr x ↦ inl (ground (arith, h, e, x), λ q f g. ground (arith, x, f))
        | inl x ↦ inr (r, refl, e, x, ground (arith, h, e, x))
      ]
    ],
  )

  -- The record that a candidate stands for.
  abbrev Named : Bool → ℕ → String → D → Metadata D → Type 0
  Named durable cutoff key d raw =
      (r : LifecycleRecord D) × (model_validate lib raw ≡ done r)
      × (str_eq r.values.thread_id key ≡ true)
      × ((durable && leb r.values.expires_at cutoff) ≡ true)
      × (d ≡ r.integrity)

  expired_candidates_sound :
      (durable : Bool) (cutoff : ℕ) (items : List (String × Metadata D))
      {candidates : List (String × D)} (key : String) (d : D)
      → expired_candidates lib durable cutoff items ≡ done candidates
      → In (key, d) candidates
      → (raw : Metadata D) × In (key, raw) items × Named durable cutoff key d raw
  unfolding expired_candidates Added
  expired_candidates_sound durable cutoff [] {candidates} key d h i =
      let none_left : [] ≡ candidates = ground arith in
      absurd (subst (In (key, d)) (sym none_left) i)
  expired_candidates_sound durable cutoff ((k, raw) ∷ items) {candidates} key d h i =
      let (rest, e, added) =
        add_candidate-Added durable cutoff k (model_validate lib raw)
          (expired_candidates lib durable cutoff items) h in
      elim added [
        | inl (same, other) ↦
            (let (raw1, j, named) =
                expired_candidates_sound durable cutoff items key d e
                  (subst (In (key, d)) same i) in
              (raw1, inr j, named))
        | inr (r, v, n, x, more) ↦ elim (subst (In (key, d)) more i) [
          | inl q ↦ (
            raw,
            inl (λ j. (ap (λ p. p.0) q j, raw)),
            (r, v, ground (arith, n, ap (λ p. p.0) q), x, ap (λ p. p.1) q),
          )
          | inr j ↦
              (let (raw1, j1, named) = expired_candidates_sound durable cutoff items key d e j in
                (raw1, inr j1, named))
        ]
      ]

  expired_candidates_complete :
      (durable : Bool) (cutoff : ℕ) (items : List (String × Metadata D))
      {candidates : List (String × D)} (key : String) (r : LifecycleRecord D)
      → expired_candidates lib durable cutoff items ≡ done candidates
      → IsExpired durable cutoff key (get_key key items) r
      → In (key, r.integrity) candidates
  unfolding expired_candidates Added get_key
  expired_candidates_complete durable cutoff [] key r h x = absurd (ground (arith, x.stored.stored))
  expired_candidates_complete durable cutoff ((k, raw) ∷ items) {candidates} key r h x =
      let (rest, e, added) =
        add_candidate-Added durable cutoff k (model_validate lib raw)
          (expired_candidates lib durable cutoff items) h in
      elim (Bool-cases (str_eq key k)) [
        | inl same ↦
            (let here : raw ≡ document r = ground (arith, x.stored.stored, same) in
              let read : model_validate lib raw ≡ done r =
                ap (model_validate lib) here ∙ coherent-model_validate lib laws r x.stored.valid in
              let named : str_eq r.values.thread_id k ≡ true =
                ground (arith, x.stored.named, str_eq_iff r.values.thread_id k, str_eq_iff key k) in
              let past : (durable && leb r.values.expires_at cutoff) ≡ true =
                ground (arith, x.durable_store, x.past) in
              elim added [
                | inl (unchanged, kept) ↦ absurd (ground (arith, kept r read named, past))
                | inr (q, v, n, o, more) ↦
                    (let one : r ≡ q = ground (arith, read, v) in
                      subst (In (key, r.integrity)) (sym more)
                        (inl (λ j. ((str_eq_iff key k).0 same j, (one j).integrity))))
              ])
        | inr apart ↦
            (let later : In (key, r.integrity) rest =
                expired_candidates_complete durable cutoff items key r e (record {
                  stored = record {
                    stored = ground (arith, x.stored.stored, apart);
                    valid = x.stored.valid;
                    named = x.stored.named;
                  };
                  durable_store = x.durable_store;
                  past = x.past;
                }) in
              elim added [
                | inl (unchanged, kept) ↦ subst (In (key, r.integrity)) (sym unchanged) later
                | inr (q, v, n, o, more) ↦ subst (In (key, r.integrity)) (sym more) (inr later)
              ])
      ]

  pub preview_expired-done :
      (s : LifecycleStore D) (clock : Datetime) (p : ExpiredPreview D)
      → preview_expired lib s clock ≡ done p
      → (expired_candidates lib s.durable p.cutoff s.metadata ≡ done p.candidates)
        × (p.integrity ≡ lib.preview_digest p.cutoff p.candidates)
  unfolding preview_expired
  preview_expired-done s clock p h =
      let (cutoff, read, h1) = >>=-eq-done (utc clock) _ h in
      let (candidates, found, h2) =
        >>=-eq-done (expired_candidates lib s.durable cutoff s.metadata) _ h1 in
      (ground (arith, found, h2), ground (arith, h2))

  -- A preview of a dict of records names exactly the threads with a valid record that the durable store
  -- holds past its expiry, with the integrity of that record, and nothing of a malformed one.
  pub preview_expired_iff :
      (s : LifecycleStore D) (clock : Datetime) (p : ExpiredPreview D)
      → IsDict s.metadata
      → preview_expired lib s clock ≡ done p
      → (key : String) (d : D)
      → In (key, d) p.candidates ↔ (
          (r : LifecycleRecord D) × IsExpired s.durable p.cutoff key (read_metadata s key) r
          × (d ≡ r.integrity))
  unfolding preview_expired read_metadata
  preview_expired_iff s clock p dict h key d =
      let made = (preview_expired-done s clock p h).0 in
      (
        λ i.
            let (raw, j, (r, v, n, x, same)) =
              expired_candidates_sound s.durable p.cutoff s.metadata key d made i in
            let (whole, valid) = model_validate-done lib laws raw v in
            (
              r,
              record {
                stored = record {
                  stored = In-get_key key raw s.metadata dict j ∙ ap some whole;
                  valid = valid;
                  named = ground (arith, n, str_eq_iff r.values.thread_id key);
                };
                durable_store = ground (arith, x);
                past = ground (arith, x);
              },
              same,
            ),
        λ (r, x, same).
            subst (λ y. In (key, y) p.candidates) (sym same)
              (expired_candidates_complete s.durable p.cutoff s.metadata key r made x),
      )
