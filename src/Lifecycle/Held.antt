-- ===== src/Lifecycle/Held.antt =====
-- What a store holds of one thread, before and after a deletion.
use agentic_etf_advisor.Prelude.{
  String, ◌≡◌, refl, sym, ◌∙◌, false, none, List, [], ◌∷◌, arith, str_eq, str_eq_iff,
}
use agentic_etf_advisor.Lifecycle.Dict.{get_key-pop_key, get_key-pop_key_other}
use agentic_etf_advisor.Lifecycle.Store.{
  LifecycleStore, read_metadata, holds, delete_thread, exists, erase,
}

holds-delete_thread :
    (key : String) (keys : List String) → holds key (delete_thread key keys) ≡ false
unfolding holds delete_thread
holds-delete_thread key [] = refl
holds-delete_thread key (k ∷ keys) = ground (arith, holds-delete_thread key keys)

holds-delete_thread_other :
    (key other : String) (keys : List String)
    → str_eq other key ≡ false
    → holds other (delete_thread key keys) ≡ holds other keys
unfolding holds delete_thread
holds-delete_thread_other key other [] h = refl
holds-delete_thread_other key other (k ∷ keys) h = ground (
  arith,
  str_eq_iff key k,
  str_eq_iff other k,
  str_eq_iff other key,
  holds-delete_thread_other key other keys h,
)

module _ {D : Type 0} where
  -- The store holds of a thread what it held before.
  pub record IsKept (key : String) (s t : LifecycleStore D) : Type 0 where
    pub metadata : read_metadata t key ≡ read_metadata s key
    pub saved : exists t key ≡ exists s key

  -- The store holds nothing of a thread.
  pub record IsGone (key : String) (s : LifecycleStore D) : Type 0 where
    pub metadata : read_metadata s key ≡ none
    pub saved : exists s key ≡ false

  pub IsKept-refl : (key : String) (s : LifecycleStore D) → IsKept key s s
  IsKept-refl key s = record { metadata = refl; saved = refl }

  pub erase-IsGone : (s : LifecycleStore D) (key : String) → IsGone key (erase s key).1
  unfolding erase read_metadata exists
  erase-IsGone s key = record {
    metadata = get_key-pop_key key s.metadata;
    saved = holds-delete_thread key s.saved;
  }

  pub erase-IsKept :
      (s : LifecycleStore D) (key other : String)
      → str_eq other key ≡ false
      → IsKept other s (erase s key).1
  unfolding erase read_metadata exists
  erase-IsKept s key other h = record {
    metadata = get_key-pop_key_other key other s.metadata h;
    saved = holds-delete_thread_other key other s.saved h;
  }

  -- A thread that is gone stays gone.
  pub IsKept-IsGone :
      {s t : LifecycleStore D} {key : String} → IsKept key s t → IsGone key s → IsGone key t
  IsKept-IsGone k g = record { metadata = k.metadata ∙ g.metadata; saved = k.saved ∙ g.saved }

  pub IsKept-sym : {s t : LifecycleStore D} {key : String} → IsKept key s t → IsKept key t s
  IsKept-sym k = record { metadata = sym k.metadata; saved = sym k.saved }

  pub IsKept-trans :
      {s t u : LifecycleStore D} {key : String} → IsKept key s t → IsKept key t u → IsKept key s u
  IsKept-trans k l = record { metadata = l.metadata ∙ k.metadata; saved = l.saved ∙ k.saved }
