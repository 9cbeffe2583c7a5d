-- ===== src/Lifecycle/Dict.antt =====
-- A Python dict with texts as keys: the list of its items in the order of insertion.
use Prim.{tt}
use agentic_etf_advisor.Prelude.{
  String, ◌≡◌, refl, false, Option, none, some, List, [], ◌∷◌, arith, str_eq, str_eq_iff,
  if◌then◌else◌, inl, inr, ◌∙◌, Bool-cases,
}

module _ {A : Type 0} where
  -- `items.get(key)`
  unfoldable pub get_key : String → List (String × A) → Option A
  get_key key [] = none
  get_key key ((k, a) ∷ items) = if str_eq key k then some a else get_key key items

  -- `items[key] = value`
  unfoldable pub put_key : String → A → List (String × A) → List (String × A)
  put_key key value [] = (key, value) ∷ []
  put_key key value ((k, a) ∷ items) =
      if str_eq key k then (k, value) ∷ items else (k, a) ∷ put_key key value items

  -- `items.pop(key, None)`
  unfoldable pub pop_key : String → List (String × A) → List (String × A)
  pop_key key [] = []
  pop_key key ((k, a) ∷ items) =
      if str_eq key k then pop_key key items else (k, a) ∷ pop_key key items

  pub get_key-put_key :
      (key : String) (value : A) (items : List (String × A))
      → get_key key (put_key key value items) ≡ some value
  unfolding get_key put_key
  get_key-put_key key value [] = ground (arith, str_eq_iff key key)
  get_key-put_key key value ((k, a) ∷ items) =
      ground (arith, str_eq_iff key k, get_key-put_key key value items)

  pub get_key-put_key_other :
      (key other : String) (value : A) (items : List (String × A))
      → str_eq other key ≡ false
      → get_key other (put_key key value items) ≡ get_key other items
  unfolding get_key put_key
  get_key-put_key_other key other value [] h = ground arith
  get_key-put_key_other key other value ((k, a) ∷ items) h = ground (
    arith,
    str_eq_iff key k,
    str_eq_iff other k,
    str_eq_iff other key,
    get_key-put_key_other key other value items h,
  )

  pub get_key-pop_key :
      (key : String) (items : List (String × A)) → get_key key (pop_key key items) ≡ none
  unfolding get_key pop_key
  get_key-pop_key key [] = refl
  get_key-pop_key key ((k, a) ∷ items) = ground (arith, get_key-pop_key key items)

  pub get_key-pop_key_other :
      (key other : String) (items : List (String × A))
      → str_eq other key ≡ false
      → get_key other (pop_key key items) ≡ get_key other items
  unfolding get_key pop_key
  get_key-pop_key_other key other [] h = refl
  get_key-pop_key_other key other ((k, a) ∷ items) h = ground (
    arith,
    str_eq_iff key k,
    str_eq_iff other k,
    str_eq_iff other key,
    get_key-pop_key_other key other items h,
  )

  -- A dict has each key once.
  abbrev pub IsDict : List (String × A) → Type 0
  IsDict [] = Unit
  IsDict ((k, a) ∷ items) = (get_key k items ≡ none) × IsDict items

  pub put_key-IsDict :
      (key : String) (value : A) (items : List (String × A))
      → IsDict items
      → IsDict (put_key key value items)
  unfolding put_key get_key
  put_key-IsDict key value [] d = (refl, tt)
  put_key-IsDict key value ((k, a) ∷ items) d = elim (Bool-cases (str_eq key k)) [
    | inl e ↦ rw e d
    | inr e ↦ rw e (
      get_key-put_key_other key k value items (ground (arith, str_eq_iff key k, str_eq_iff k key))
          ∙ d.0,
      put_key-IsDict key value items d.1,
    )
  ]

  pop_key_absent :
      (key other : String) (items : List (String × A))
      → get_key other items ≡ none
      → get_key other (pop_key key items) ≡ none
  pop_key_absent key other items h = elim (Bool-cases (str_eq other key)) [
    | inl e ↦ ground (arith, str_eq_iff other key, get_key-pop_key key items)
    | inr e ↦ get_key-pop_key_other key other items e ∙ h
  ]

  pub pop_key-IsDict :
      (key : String) (items : List (String × A)) → IsDict items → IsDict (pop_key key items)
  unfolding pop_key
  pop_key-IsDict key [] d = tt
  pop_key-IsDict key ((k, a) ∷ items) d = elim (Bool-cases (str_eq key k)) [
    | inl e ↦ rw e (pop_key-IsDict key items d.1)
    | inr e ↦ rw e (pop_key_absent key k items d.0, pop_key-IsDict key items d.1)
  ]
