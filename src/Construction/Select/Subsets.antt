-- ===== src/Construction/Select/Subsets.antt =====
-- Subsequences of a list, and that the nested loops of `_select_subset` visit exactly those of the
-- admitted sizes, the longer ones first.
use native.Mathlib.Decide.{ℕ_discrete}
use agentic_etf_advisor.Prelude.{
  ℕ, zero, suc, ◌≤◌, ◌≡◌, refl, ap, ◌⊎◌, inl, inr, List, [], ◌∷◌, ◌++◌, map, arith, leb, Bool-cases,
  leb→le, le→leb, length, In,
}
use agentic_etf_advisor.Construction.Select.{combinations, down_to, subsets}

-- `xs` is `ys` with elements left out.
abbrev pub Sub : {A : Type 0} → List A → List A → Type 0
Sub [] ys = Unit
Sub (x ∷ xs) [] = ⊥
Sub (x ∷ xs) (y ∷ ys) = ((x ≡ y) × Sub xs ys) ⊎ Sub (x ∷ xs) ys

module _ {A : Type 0} where
  pub In-append_left : (a : A) (xs ys : List A) → In a xs → In a (xs ++ ys)
  In-append_left a [] ys h = absurd h
  In-append_left a (x ∷ xs) ys (inl e) = inl e
  In-append_left a (x ∷ xs) ys (inr h) = inr (In-append_left a xs ys h)

  pub In-append_right : (a : A) (xs ys : List A) → In a ys → In a (xs ++ ys)
  In-append_right a [] ys h = h
  In-append_right a (x ∷ xs) ys h = inr (In-append_right a xs ys h)

  pub In-append-cases : (a : A) (xs ys : List A) → In a (xs ++ ys) → In a xs ⊎ In a ys
  In-append-cases a [] ys h = inr h
  In-append-cases a (x ∷ xs) ys (inl e) = inl (inl e)
  In-append-cases a (x ∷ xs) ys (inr h) = elim (In-append-cases a xs ys h) [
    | inl l ↦ inl (inr l)
    | inr r ↦ inr r
  ]

  In-map : {B : Type 0} (f : A → B) (a : A) (xs : List A) → In a xs → In (f a) (map f xs)
  In-map f a [] h = absurd h
  In-map f a (x ∷ xs) (inl e) = inl (ap f e)
  In-map f a (x ∷ xs) (inr h) = inr (In-map f a xs h)

  In-map-inv :
      {B : Type 0} (f : A → B) (b : B) (xs : List A)
      → In b (map f xs)
      → (a : A) × (b ≡ f a) × In a xs
  In-map-inv f b [] h = absurd h
  In-map-inv f b (x ∷ xs) (inl e) = (x, e, inl refl)
  In-map-inv f b (x ∷ xs) (inr h) = let (a, e, m) = In-map-inv f b xs h in (a, e, inr m)

module _ {A : Type 0} where
  Sub-skip : (x : A) (c xs : List A) → Sub c xs → Sub c (x ∷ xs)
  Sub-skip x [] xs h = tt
  Sub-skip x (a ∷ c) xs h = inr h

  pub combinations_sound :
      (k : ℕ) (xs c : List A) → In c (combinations k xs) → Sub c xs × (length c ≡ k)
  unfolding combinations
  combinations_sound zero xs c (inl e) = rw e (tt, refl)
  combinations_sound zero xs c (inr h) = absurd h
  combinations_sound (suc k) [] c h = absurd h
  combinations_sound (suc k) (x ∷ xs) c h =
      elim (In-append-cases c (map (λ d. x ∷ d) (combinations k xs)) (combinations (suc k) xs) h) [
        | inl taken ↦
            (let (d, e, m) = In-map-inv (λ d. x ∷ d) c (combinations k xs) taken in
              let (s, n) = combinations_sound k xs d m in rw e (inl (refl, s), omega (arith, n)))
        | inr left ↦ (let (s, n) = combinations_sound (suc k) xs c left in (Sub-skip x c xs s, n))
      ]

  pub combinations_complete : (c xs : List A) → Sub c xs → In c (combinations (length c) xs)
  unfolding combinations
  combinations_complete [] xs h = inl refl
  combinations_complete (a ∷ c) [] h = absurd h
  combinations_complete (a ∷ c) (x ∷ xs) (inl (e, h)) =
      let taken : List (List A) = map (λ d. x ∷ d) (combinations (length c) xs) in
      let m : In (x ∷ c) taken =
        In-map (λ d. x ∷ d) c (combinations (length c) xs) (combinations_complete c xs h) in
      In-append_left (a ∷ c) taken (combinations (suc (length c)) xs) (rw e m)
  combinations_complete (a ∷ c) (x ∷ xs) (inr h) =
      In-append_right (a ∷ c) (map (λ d. x ∷ d) (combinations (length c) xs))
        (combinations (suc (length c)) xs) (combinations_complete (a ∷ c) xs h)

down_to_sound : (lo hi n : ℕ) → In n (down_to lo hi) → (lo ≤ n) × (n ≤ hi)
unfolding down_to
down_to_sound lo zero n h = elim (Bool-cases (leb lo 0)) [
  | inl e ↦ (elim (rw e at h) [
    | inl z ↦ (omega (arith, z, leb→le lo 0 e), omega arith)
    | inr w ↦ absurd w
  ])
  | inr e ↦ absurd (rw e at h)
]
down_to_sound lo (suc hi) n h = elim (Bool-cases (leb lo (suc hi))) [
  | inl e ↦ (elim (rw e at h) [
    | inl z ↦ (omega (arith, leb→le lo (suc hi) e), omega arith)
    | inr w ↦ (let (a, b) = down_to_sound lo hi n w in (a, omega arith))
  ])
  | inr e ↦ absurd (rw e at h)
]

down_to_complete : (lo hi n : ℕ) → lo ≤ n → n ≤ hi → In n (down_to lo hi)
unfolding down_to
down_to_complete lo zero n l h = rw (le→leb lo 0 (omega arith)) (inl (omega arith))
down_to_complete lo (suc hi) n l h =
    rw (le→leb lo (suc hi) (omega arith)) (elim (ℕ_discrete n (suc hi)) [
      | yes e ↦ inl e
      | no ne ↦ inr (down_to_complete lo hi n l (omega arith))
    ])

module _ {A : Type 0} where
  subsets-sound_at :
      (sizes : List ℕ) (xs c : List A) → In c (subsets sizes xs) → Sub c xs × In (length c) sizes
  unfolding subsets
  subsets-sound_at [] xs c h = absurd h
  subsets-sound_at (n ∷ sizes) xs c h =
      elim (In-append-cases c (combinations n xs) (subsets sizes xs) h) [
        | inl now ↦ (let (s, e) = combinations_sound n xs c now in (s, inl e))
        | inr later ↦ (let (s, m) = subsets-sound_at sizes xs c later in (s, inr m))
      ]

  subsets-complete_at :
      (sizes : List ℕ) (xs c : List A) → Sub c xs → In (length c) sizes → In c (subsets sizes xs)
  unfolding subsets
  subsets-complete_at [] xs c s m = absurd m
  subsets-complete_at (n ∷ sizes) xs c s (inl e) =
      In-append_left c (combinations n xs) (subsets sizes xs)
        (rw (← e) (combinations_complete c xs s))
  subsets-complete_at (n ∷ sizes) xs c s (inr m) =
      In-append_right c (combinations n xs) (subsets sizes xs) (subsets-complete_at sizes xs c s m)

  -- Everything visited is a subsequence of an admitted size.
  pub subsets_sound :
      (lo hi : ℕ) (xs c : List A)
      → In c (subsets (down_to lo hi) xs)
      → Sub c xs × (lo ≤ length c) × (length c ≤ hi)
  subsets_sound lo hi xs c h =
      let (s, m) = subsets-sound_at (down_to lo hi) xs c h in
      let (a, b) = down_to_sound lo hi (length c) m in (s, a, b)

  -- Every subsequence of an admitted size is visited.
  pub subsets_complete :
      (lo hi : ℕ) (xs c : List A)
      → Sub c xs
      → lo ≤ length c
      → length c ≤ hi
      → In c (subsets (down_to lo hi) xs)
  subsets_complete lo hi xs c s l h =
      subsets-complete_at (down_to lo hi) xs c s (down_to_complete lo hi (length c) l h)

  -- The visited subsets, from any place on, never grow.
  unfoldable pub Descending : List (List A) → Type 0
  Descending [] = Unit
  Descending (c ∷ cs) = ((d : List A) → In d cs → length d ≤ length c) × Descending cs

  Descending-append :
      (n : ℕ) (xs ys : List (List A))
      → ((c : List A) → In c xs → length c ≡ n)
      → ((d : List A) → In d ys → length d ≤ n)
      → Descending ys
      → Descending (xs ++ ys)
  unfolding Descending
  Descending-append n [] ys hx hy h = h
  Descending-append n (x ∷ xs) ys hx hy h = (
    λ d m. elim (In-append-cases d xs ys m) [
      | inl l ↦ omega (arith, hx d (inr l), hx x (inl refl))
      | inr r ↦ omega (arith, hy d r, hx x (inl refl))
    ],
    Descending-append n xs ys (λ c m. hx c (inr m)) hy h,
  )

  pub subsets-Descending : (lo hi : ℕ) (xs : List A) → Descending (subsets (down_to lo hi) xs)
  unfolding subsets down_to
  subsets-Descending lo zero xs = elim (Bool-cases (leb lo 0)) [
    | inl e ↦ rw e (unfold Descending combinations in (λ d m. absurd m, tt))
    | inr e ↦ rw e (unfold Descending in tt)
  ]
  subsets-Descending lo (suc hi) xs = elim (Bool-cases (leb lo (suc hi))) [
    | inl e ↦ rw e (
        Descending-append (suc hi) (combinations (suc hi) xs) (subsets (down_to lo hi) xs)
          (λ c m. (combinations_sound (suc hi) xs c m).1)
          (λ d m. omega (arith, (subsets_sound lo hi xs d m).2)) (subsets-Descending lo hi xs))
    | inr e ↦ rw e (unfold Descending in tt)
  ]
