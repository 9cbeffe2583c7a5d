-- ===== src/Lifecycle/Prune.antt =====
-- What pruning keeps and what it deletes.
use mathlib.Core.Path.{subst}
use agentic_etf_advisor.Prelude.{
  ℕ, ◌≤◌, String, ◌≡◌, refl, sym, ap, ◌∙◌, ◌⊎◌, inl, inr, true, false, not, ◌&&◌, ◌||◌, some, List,
  [], ◌∷◌, arith, str_eq, str_eq_iff, ltb, Bool-cases, is_none, In,
}
use agentic_etf_advisor.Lifecycle.Dict.{IsDict}
use agentic_etf_advisor.Lifecycle.Record.{
  Checked-cases, done, read_record, LifecycleRecord, document, Libraries, Datetime,
}
use agentic_etf_advisor.Lifecycle.Store.{LifecycleStore, read_metadata, erase, read}
use agentic_etf_advisor.Lifecycle.Sweep.{
  ExpiredPreview, Outcome, preview_expired, erased, prune_current, prune_one, prune_all, prune,
}
use agentic_etf_advisor.Lifecycle.Valid.{
  IsDigest, IsStored, read_record-IsStored, IsStored-read_record, same-eq,
}
use agentic_etf_advisor.Lifecycle.Preview.{IsExpired, preview_expired-done, preview_expired_iff}
use agentic_etf_advisor.Lifecycle.Held.{
  IsKept, IsGone, IsKept-refl, IsKept-IsGone, IsKept-sym, IsKept-trans, erase-IsGone, erase-IsKept,
}

module _ {D : Type 0} (lib : Libraries D) (laws : IsDigest lib) where
  -- The record that a deletion is allowed for.
  pub record IsPruned (s : LifecycleStore D) (cutoff : ℕ) (key : String) (expected : D)
      : Type 0 where
    pub current : LifecycleRecord D
    pub stored : IsStored lib laws key (read_metadata s key) current
    pub unchanged : lib.same current.integrity expected ≡ true
    pub past : current.values.expires_at ≤ cutoff

  pub prune_one-cases :
      (s : LifecycleStore D) (cutoff : ℕ) (key : String) (expected : D)
      → ((prune_one lib s cutoff key expected).1 ≡ s)
        ⊎ (IsPruned s cutoff key expected
            × ((prune_one lib s cutoff key expected).1 ≡ (erase s key).1))
  unfolding prune_one prune_current erased read
  prune_one-cases s cutoff key expected = elim (Bool-cases (s.durable && is_none (lib.uuid4 key))) [
    | inl u ↦ inl (rw (u, prune_one) refl)
    | inr u ↦ elim (Bool-cases (is_none (read_metadata s key))) [
      | inl n ↦ inl (rw (u, n, prune_one) refl)
      | inr n ↦ elim (Checked-cases (read_record lib key (read_metadata s key))) [
        | inl (error, e) ↦ inl (rw (u, n, e, prune_one) refl)
        | inr (r, e) ↦
            elim (Bool-cases
              (not (lib.same r.integrity expected) || ltb cutoff r.values.expires_at)) [
                | inl x ↦ inl (rw (u, n, e, x, prune_one) refl)
                | inr x ↦ inr (
                  record {
                    current = r;
                    stored = read_record-IsStored lib laws key (read_metadata s key) e;
                    unchanged = ground (arith, x);
                    past = ground (arith, x);
                  },
                  rw (u, n, e, x, prune_one) refl,
                )
              ]
      ]
    ]
  ]

  prune_one-deleted :
      (s : LifecycleStore D) (cutoff : ℕ) (key : String) (expected : D)
      → is_none (lib.uuid4 key) ≡ false
      → IsPruned s cutoff key expected
      → (prune_one lib s cutoff key expected).1 ≡ (erase s key).1
  unfolding prune_one prune_current erased read
  prune_one-deleted s cutoff key expected u p =
      let known : (s.durable && is_none (lib.uuid4 key)) ≡ false = ground (arith, u) in
      rw
        (
          known,
          IsStored-read_record lib laws key (read_metadata s key) p.stored,
          p.unchanged,
          p.stored.stored,
          prune_one,
        )
        (ground (arith, p.past))

  -- One turn of the loop keeps what is held of a thread, or deletes it with leave.
  prune_one-turn :
      (s : LifecycleStore D) (cutoff : ℕ) (key : String) (expected : D) (other : String)
      → IsKept other s (prune_one lib s cutoff key expected).1
        ⊎ ((other ≡ key)
            × IsPruned s cutoff other expected
            × IsGone other (prune_one lib s cutoff key expected).1)
  prune_one-turn s cutoff key expected other = elim (prune_one-cases s cutoff key expected) [
    | inl e ↦ inl (subst (IsKept other s) (sym e) (IsKept-refl other s))
    | inr (p, e) ↦ elim (Bool-cases (str_eq other key)) [
      | inl same ↦
          (let o : other ≡ key = (str_eq_iff other key).0 same in
            inr (
              o,
              subst (λ k. IsPruned s cutoff k expected) (sym o) p,
              subst (λ k. IsGone k (prune_one lib s cutoff key expected).1) (sym o)
                  (subst (IsGone key) (sym e) (erase-IsGone s key)),
            ))
      | inr apart ↦ inl (subst (IsKept other s) (sym e) (erase-IsKept s key other apart))
    ]
  ]

  IsKept-IsPruned :
      {s t : LifecycleStore D} {cutoff : ℕ} {key : String} {expected : D}
      → IsKept key s t
      → IsPruned t cutoff key expected
      → IsPruned s cutoff key expected
  IsKept-IsPruned k p = record {
    current = p.current;
    stored = record {
      stored = sym k.metadata ∙ p.stored.stored;
      valid = p.stored.valid;
      named = p.stored.named;
    };
    unchanged = p.unchanged;
    past = p.past;
  }

  prune_all-IsGone :
      (s : LifecycleStore D) (cutoff : ℕ) (candidates : List (String × D)) (key : String)
      → IsGone key s
      → IsGone key (prune_all lib s cutoff candidates).1
  unfolding prune_all
  prune_all-IsGone s cutoff [] key g = g
  prune_all-IsGone s cutoff ((k, expected) ∷ candidates) key g =
      prune_all-IsGone (prune_one lib s cutoff k expected).1 cutoff candidates key
        (elim (prune_one-turn s cutoff k expected key) [
          | inl kept ↦ IsKept-IsGone kept g
          | inr (o, p, gone) ↦ gone
        ])

  prune_all-safe :
      (s : LifecycleStore D) (cutoff : ℕ) (candidates : List (String × D)) (key : String)
      → IsKept key s (prune_all lib s cutoff candidates).1
        ⊎ ((expected : D) × In (key, expected) candidates
            × IsPruned s cutoff key expected
            × IsGone key (prune_all lib s cutoff candidates).1)
  unfolding prune_all
  prune_all-safe s cutoff [] key = inl (IsKept-refl key s)
  prune_all-safe s cutoff ((k, expected) ∷ candidates) key =
      elim (prune_one-turn s cutoff k expected key) [
        | inr (o, p, gone) ↦ inr (
          expected,
          inl (λ i. (o i, expected)),
          p,
          prune_all-IsGone (prune_one lib s cutoff k expected).1 cutoff candidates key gone,
        )
        | inl kept ↦
            elim (prune_all-safe (prune_one lib s cutoff k expected).1 cutoff candidates key) [
              | inl later ↦ inl (IsKept-trans kept later)
              | inr (e, i, p, gone) ↦ inr (e, inr i, IsKept-IsPruned kept p, gone)
            ]
      ]

  prune_all-deleted :
      (s : LifecycleStore D) (cutoff : ℕ) (candidates : List (String × D)) (key : String)
      (expected : D)
      → is_none (lib.uuid4 key) ≡ false
      → In (key, expected) candidates
      → IsPruned s cutoff key expected
      → IsGone key (prune_all lib s cutoff candidates).1
  unfolding prune_all
  prune_all-deleted s cutoff [] key expected u i p = absurd i
  prune_all-deleted s cutoff ((k, e) ∷ candidates) key expected u (inl same) p =
      let k_same : key ≡ k = ap (λ x. x.0) same in
      let e_same : expected ≡ e = ap (λ x. x.1) same in
      prune_all-IsGone (prune_one lib s cutoff k e).1 cutoff candidates key (
        rw (sym k_same, sym e_same)
          (subst (IsGone key) (sym (prune_one-deleted s cutoff key expected u p))
            (erase-IsGone s key)))
  prune_all-deleted s cutoff ((k, e) ∷ candidates) key expected u (inr i) p =
      elim (prune_one-turn s cutoff k e key) [
        | inr (o, q, gone) ↦
            prune_all-IsGone (prune_one lib s cutoff k e).1 cutoff candidates key gone
        | inl kept ↦
            prune_all-deleted (prune_one lib s cutoff k e).1 cutoff candidates key expected u i
              (IsKept-IsPruned (IsKept-sym kept) p)
      ]

  -- Pruning a store with a preview of that store at an earlier time keeps everything of a thread, or
  -- deletes it whole; then the preview was of a durable store, the record was past its expiry, and it
  -- is the same record now.
  pub prune_safe :
      (s t : LifecycleStore D) (clock : Datetime) (p : ExpiredPreview D)
      (outcomes : List (String × Outcome)) (pruned : LifecycleStore D)
      → IsDict s.metadata
      → preview_expired lib s clock ≡ done p
      → prune lib t p ≡ done (outcomes, pruned)
      → (key : String)
      → IsKept key t pruned
        ⊎ ((r : LifecycleRecord D) × IsExpired lib laws s.durable p.cutoff key
              (read_metadata s key)
              r
            × (read_metadata t key ≡ some (document r))
            × IsGone key pruned)
  unfolding prune
  prune_safe s t clock p outcomes pruned dict made h key =
      let after : (prune_all lib t p.cutoff p.candidates).1 ≡ pruned = ground (arith, h) in
      elim (prune_all-safe t p.cutoff p.candidates key) [
        | inl kept ↦ inl (subst (IsKept key t) after kept)
        | inr (expected, i, q, gone) ↦
            (let (r, x, same) =
                (preview_expired_iff lib laws s clock p dict made key expected).0 i in
              inr (
                r,
                x,
                q.stored.stored
                    ∙ ap (λ y. some (document y))
                        (same-eq lib laws q.current r q.stored.valid x.stored.valid
                          (subst (λ y. lib.same q.current.integrity y ≡ true) same q.unchanged)),
                subst (IsGone key) after gone,
              ))
      ]

  -- Pruning with a preview succeeds, and deletes whole every thread with a token that the preview's
  -- store held past its expiry and whose record is still the same.
  pub prune_live :
      (s t : LifecycleStore D) (clock : Datetime) (p : ExpiredPreview D) (key : String)
      (r : LifecycleRecord D)
      → IsDict s.metadata
      → preview_expired lib s clock ≡ done p
      → IsExpired lib laws s.durable p.cutoff key (read_metadata s key) r
      → read_metadata t key ≡ some (document r)
      → is_none (lib.uuid4 key) ≡ false
      → (outcomes : List (String × Outcome)) × (pruned : LifecycleStore D) × (prune lib t p
          ≡ done (outcomes, pruned))
        × IsGone key pruned
  unfolding prune
  prune_live s t clock p key r dict made x still u = (
    (prune_all lib t p.cutoff p.candidates).0,
    (prune_all lib t p.cutoff p.candidates).1,
    ground (arith, (preview_expired-done lib laws s clock p made).1, laws.same_refl p.integrity),
    prune_all-deleted t p.cutoff p.candidates key r.integrity u
        ((preview_expired_iff lib laws s clock p dict made key r.integrity).1 (r, x, refl))
        (record {
          current = r;
          stored = record { stored = still; valid = x.stored.valid; named = x.stored.named };
          unchanged = laws.same_refl r.integrity;
          past = x.past;
        }),
  )
