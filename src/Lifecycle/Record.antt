-- ===== src/Lifecycle/Record.antt =====
-- `LifecycleRecord`, its validation and the reading of a stored one, of src/etf_advisor/lifecycle.py.
use agentic_etf_advisor.Prelude.{
  ℕ, zero, suc, ◌+◌, ◌*◌, String, ◌≡◌, refl, ◌⊎◌, inl, inr, Bool, ◌&&◌, Option, none, some, List,
  str_eq, leb, ◌==◌, if◌then◌else◌, ℤ, pos, negsuc,
}
use agentic_etf_advisor.Lifecycle.Events.{contains, sort_events, same_events}

-- The errors, by their messages, with the IndexError of `semantic_events` and a failure of the saver.
pub data LifecycleError : Type 0 where
  invalid_token not_utc contract no_metadata already_exists clock_backward expired : LifecycleError
  runtime_invalid retention_range index_error saver_failed : LifecycleError

pub data Checked {ℓ} (A : Type ℓ) : Type ℓ where
  done : A → Checked A
  refused : LifecycleError → Checked A

module _ {ℓ κ} {A : Type ℓ} {B : Type κ} where
  infixl 5 ◌>>=◌
  abbrev pub ◌>>=◌ : Checked A → (A → Checked B) → Checked B
  done a >>= continue = continue a
  refused error >>= continue = refused error

  pub >>=-eq-done :
      (m : Checked A) (continue : A → Checked B) {b : B}
      → m >>= continue ≡ done b
      → (a : A) × (m ≡ done a) × (continue a ≡ done b)
  >>=-eq-done (refused error) continue h = absurd (cc)
  >>=-eq-done (done a) continue h = (a, refl, h)

pub Checked-cases :
    {A : Type 0} (m : Checked A)
    → ((error : LifecycleError) × (m ≡ refused error)) ⊎ ((a : A) × (m ≡ done a))
Checked-cases (refused error) = inl (error, refl)
Checked-cases (done a) = inr (a, refl)

-- An aware reading of a clock, with its offset from UTC, or a naive one; in microseconds.
pub data Datetime : Type 0 where
  aware : ℕ → ℤ → Datetime
  naive : ℕ → Datetime

unfoldable pub utc : Datetime → Checked ℕ
utc (aware moment (pos zero)) = done moment
utc (aware moment (pos (suc n))) = refused not_utc
utc (aware moment (negsuc n)) = refused not_utc
utc (naive moment) = refused not_utc

-- `timedelta(days=1)`
abbrev pub day : ℕ
day = 86_400_000_000

-- A record without its integrity.
pub record LifecycleValues : Type 0 where
  pub thread_id : String
  pub version : ℕ
  pub retention_days : ℕ
  pub last_activity_at : ℕ
  pub expires_at : ℕ
  pub events : List String

module _ (D : Type 0) where
  pub record LifecycleRecord : Type 0 where
    pub values : LifecycleValues
    pub integrity : D

  -- A stored document; malformed is one that the types of the fields refuse.
  pub data Metadata : Type 0 where
    malformed : Metadata
    document : LifecycleRecord → Metadata

  -- The libraries: the digests of a record and of the fields of a prune preview, `==` on digests, and
  -- the canonical form of a version-4 UUID.
  pub record Libraries : Type 0 where
    pub digest : LifecycleValues → D
    pub preview_digest : ℕ → List (String × D) → D
    pub same : D → D → Bool
    pub uuid4 : String → Option String

unfoldable pub review_token : {D : Type 0} → Libraries D → String → Checked String
review_token lib value = elim (lib.uuid4 value) [
  | some token ↦ done token
  | none ↦ refused invalid_token
]

module _ {D : Type 0} (lib : Libraries D) where
  -- the bounds of the fields, and `LifecycleRecord.coherent`
  unfoldable pub coherent : LifecycleRecord D → Bool
  coherent r =
      leb 1 r.values.version
      && (leb 1 r.values.retention_days && leb r.values.retention_days 365)
      && (r.values.expires_at == r.values.last_activity_at + r.values.retention_days * day)
      && (same_events r.values.events (sort_events r.values.events)
          && contains "creation" r.values.events)
      && lib.same r.integrity (lib.digest r.values)

  -- `LifecycleRecord.model_validate`
  unfoldable pub model_validate : Metadata D → Checked (LifecycleRecord D)
  model_validate malformed = refused contract
  model_validate (document r) = if coherent r then done r else refused contract

  -- `record`
  unfoldable pub new_record : LifecycleValues → Checked (LifecycleRecord D)
  new_record values =
      model_validate (document (record { values = values; integrity = lib.digest values }))

  unfoldable pub of_thread : String → LifecycleRecord D → Checked (LifecycleRecord D)
  of_thread thread_id r = if str_eq r.values.thread_id thread_id then done r else refused contract

  -- `_read`, of what `read_metadata` found
  unfoldable pub read_record : String → Option (Metadata D) → Checked (LifecycleRecord D)
  read_record thread_id none = refused no_metadata
  read_record thread_id (some value) = model_validate value >>= of_thread thread_id
