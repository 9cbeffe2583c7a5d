-- ===== src/Lifecycle/Events.antt =====
-- The events of a lifecycle record in src/etf_advisor/lifecycle.py: a set of texts, kept as the sorted
-- list of its elements.
use Prim.{tt}
use agentic_etf_advisor.Prelude.{
  ℕ, String, ◌≡◌, refl, inl, inr, Bool, true, false, ◌&&◌, ◌||◌, List, [], ◌∷◌, ◌++◌, arith, ltb,
  ◌==◌, if◌then◌else◌, Bool-cases, codes, same_codes, same_codes_refl, same_codes→eq,
}

-- `<` on texts: by code points
unfoldable pub before : List ℕ → List ℕ → Bool
before [] [] = false
before [] (d ∷ ds) = true
before (c ∷ cs) [] = false
before (c ∷ cs) (d ∷ ds) = ltb c d || (c == d && before cs ds)

-- `event in events`
unfoldable pub contains : String → List String → Bool
contains e [] = false
contains e (x ∷ xs) = same_codes (codes e) (codes x) || contains e xs

-- adding to a set, in sorted order
unfoldable pub add_event : String → List String → List String
add_event e [] = e ∷ []
add_event e (x ∷ xs) =
    if before (codes e) (codes x)
    then e ∷ x ∷ xs
    else if same_codes (codes e) (codes x)
    then x ∷ xs
    else x ∷ add_event e xs

-- `sorted(set(events))`
unfoldable pub sort_events : List String → List String
sort_events [] = []
sort_events (x ∷ xs) = add_event x (sort_events xs)

-- `==` on two lists of texts
unfoldable pub same_events : List String → List String → Bool
same_events [] [] = true
same_events [] (y ∷ ys) = false
same_events (x ∷ xs) [] = false
same_events (x ∷ xs) (y ∷ ys) = same_codes (codes x) (codes y) && same_events xs ys

pub same_events_refl : (xs : List String) → same_events xs xs ≡ true
unfolding same_events
same_events_refl [] = refl
same_events_refl (x ∷ xs) = ground (arith, same_codes_refl (codes x), same_events_refl xs)

before_total :
    (cs ds : List ℕ) → before cs ds ≡ false → same_codes cs ds ≡ false → before ds cs ≡ true
unfolding before same_codes
before_total [] [] b s = absurd (cc)
before_total [] (d ∷ ds) b s = absurd (cc)
before_total (c ∷ cs) [] b s = refl
before_total (c ∷ cs) (d ∷ ds) b s = ground (arith, before_total cs ds)

-- The first event of a sorted list comes after `e`.
abbrev Above : String → List String → Type 0
Above e [] = Unit
Above e (x ∷ xs) = before (codes e) (codes x) ≡ true

abbrev pub IsSorted : List String → Type 0
IsSorted [] = Unit
IsSorted (x ∷ xs) = Above x xs × IsSorted xs

add_event-Above :
    (x e : String) (xs : List String)
    → Above x xs
    → before (codes x) (codes e) ≡ true
    → Above x (add_event e xs)
unfolding add_event
add_event-Above x e [] a b = b
add_event-Above x e (y ∷ ys) a b = elim (Bool-cases (before (codes e) (codes y))) [
  | inl p ↦ rw p b
  | inr p ↦ elim (Bool-cases (same_codes (codes e) (codes y))) [
    | inl q ↦ rw (p, q) a
    | inr q ↦ rw (p, q) a
  ]
]

add_event-IsSorted : (e : String) (xs : List String) → IsSorted xs → IsSorted (add_event e xs)
unfolding add_event
add_event-IsSorted e [] s = (tt, tt)
add_event-IsSorted e (x ∷ xs) s = elim (Bool-cases (before (codes e) (codes x))) [
  | inl p ↦ rw p (p, s)
  | inr p ↦ elim (Bool-cases (same_codes (codes e) (codes x))) [
    | inl q ↦ rw (p, q) s
    | inr q ↦
        rw (p, q)
          (
            add_event-Above x e xs s.0 (before_total (codes e) (codes x) p q),
            add_event-IsSorted e xs s.1,
          )
  ]
]

pub sort_events-IsSorted : (xs : List String) → IsSorted (sort_events xs)
unfolding sort_events
sort_events-IsSorted [] = tt
sort_events-IsSorted (x ∷ xs) = add_event-IsSorted x (sort_events xs) (sort_events-IsSorted xs)

add_event_first : (e : String) (xs : List String) → Above e xs → add_event e xs ≡ e ∷ xs
unfolding add_event
add_event_first e [] a = refl
add_event_first e (x ∷ xs) a = rw a refl

pub sort_events_sorted : (xs : List String) → IsSorted xs → sort_events xs ≡ xs
unfolding sort_events
sort_events_sorted [] s = refl
sort_events_sorted (x ∷ xs) s = rw (sort_events_sorted xs s.1) (add_event_first x xs s.0)

contains-add_event :
    (a e : String) (xs : List String)
    → contains a (add_event e xs) ≡ same_codes (codes a) (codes e) || contains a xs
unfolding contains add_event
contains-add_event a e [] = refl
contains-add_event a e (x ∷ xs) = elim (Bool-cases (before (codes e) (codes x))) [
  | inl p ↦ rw p refl
  | inr p ↦ elim (Bool-cases (same_codes (codes e) (codes x))) [
    | inl q ↦ ground (arith, p, q, same_codes→eq (codes e) (codes x) q)
    | inr q ↦ rw (p, q) (ground (arith, contains-add_event a e xs))
  ]
]

-- Sorting keeps the set.
pub contains-sort_events :
    (a : String) (xs : List String) → contains a (sort_events xs) ≡ contains a xs
unfolding contains sort_events
contains-sort_events a [] = refl
contains-sort_events a (x ∷ xs) =
    rw (contains-add_event a x (sort_events xs), contains-sort_events a xs) refl

pub contains-append :
    (a : String) (xs ys : List String) → contains a (xs ++ ys) ≡ contains a xs || contains a ys
unfolding contains
contains-append a [] ys = refl
contains-append a (x ∷ xs) ys = rw (contains-append a xs ys) (ground arith)
