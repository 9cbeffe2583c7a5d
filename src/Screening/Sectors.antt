-- ===== src/Screening/Sectors.antt =====
-- Sector names, requested sectors and sector weights of src/etf_advisor/domain/screening.py.
use agentic_etf_advisor.Prelude.{
  ℕ, String, Bool, true, false, not, ◌&&◌, ◌||◌, Option, none, some, List, [], ◌∷◌, ◌++◌, map, ◌==◌,
  if◌then◌else◌, length, all, Decimal, eqb_dec, codes, is_space, same_codes,
}
use agentic_etf_advisor.Screening.Types.{
  WeightedExposure, Value, text, flag, number, infinite, items, contract, Screened, ok, raise,
  Builtins,
}

-- `str.split()`: the rows between white space, none of them empty. `word` is the row read so far.
unfoldable pub end_word : List ℕ → List (List ℕ) → List (List ℕ)
end_word [] words = words
end_word (c ∷ cs) words = (c ∷ cs) ∷ words

unfoldable pub split_words : List ℕ → List ℕ → List (List ℕ)
split_words word [] = end_word word []
split_words word (c ∷ cs) =
    let closed = split_words [] cs in
    let open_word = split_words (word ++ c ∷ []) cs in
    if is_space c then end_word word closed else open_word

-- `" ".join(words)`
unfoldable pub join_words : List (List ℕ) → List ℕ
join_words [] = []
join_words (w ∷ []) = w
join_words (w ∷ v ∷ ws) = w ++ 32 ∷ join_words (v ∷ ws)

-- `.replace("_", " ").replace("-", " ")` on one character
abbrev spaced : ℕ → ℕ
spaced c = if c == 95 || c == 45 then 32 else c

-- `_SECTOR_ALIASES`
abbrev pub sector_aliases : List (String × String)
sector_aliases =
    ("basic materials", "basic materials")
    ∷ ("materials", "basic materials")
    ∷ ("communication services", "communication services")
    ∷ ("consumer cyclical", "consumer cyclical")
    ∷ ("consumer discretionary", "consumer cyclical")
    ∷ ("consumer defensive", "consumer defensive")
    ∷ ("consumer staples", "consumer defensive")
    ∷ ("energy", "energy")
    ∷ ("financial services", "financial services")
    ∷ ("financials", "financial services")
    ∷ ("health care", "healthcare")
    ∷ ("healthcare", "healthcare")
    ∷ ("industrials", "industrials")
    ∷ ("real estate", "real estate")
    ∷ ("technology", "technology")
    ∷ ("information technology", "technology")
    ∷ ("utilities", "utilities")
    ∷ []

-- `_SECTOR_ALIASES.get(key)`
unfoldable pub get_alias : List ℕ → List (String × String) → Option (List ℕ)
get_alias key [] = none
get_alias key ((alias, sector) ∷ rest) =
    if same_codes key (codes alias) then some (codes sector) else get_alias key rest

-- A dictionary of weights by sector; `dictionary[key] = weight` overwrites.
abbrev pub Weights : Type 0
Weights = List (List ℕ × Decimal)

unfoldable pub put_weight : List ℕ → Decimal → Weights → Weights
put_weight key weight [] = (key, weight) ∷ []
put_weight key weight ((k, w) ∷ weights) =
    let rest = put_weight key weight weights in
    if same_codes key k then (k, weight) ∷ weights else (k, w) ∷ rest

unfoldable pub get_weight : List ℕ → Weights → Option Decimal
get_weight key [] = none
get_weight key ((k, w) ∷ weights) = if same_codes key k then some w else get_weight key weights

abbrev holds_weight : Weights → List ℕ × Decimal → Bool
holds_weight weights (key, w) = elim (get_weight key weights) [
  | none ↦ false
  | some v ↦ eqb_dec v w
]

-- `==` on two dictionaries
unfoldable pub same_weights : Weights → Weights → Bool
same_weights a b = length a == length b && all (holds_weight b) a

-- `len(names) == len(set(names))`
unfoldable pub distinct_names : List (List ℕ) → Bool
distinct_names [] = true
distinct_names (n ∷ ns) = all (λ m. not (same_codes n m)) ns && distinct_names ns

-- every item that validates, or none where one does not
unfoldable pub validated_items : List (Option WeightedExposure) → Option (List WeightedExposure)
validated_items [] = some []
validated_items (none ∷ is) = none
validated_items (some e ∷ is) = elim (validated_items is) [ none ↦ none | some es ↦ some (e ∷ es) ]

-- `_normalize_requested_sectors`: the supported sectors and the exclusions outside the taxonomy
pub record RequestedSectors : Type 0 where
  pub requested : List (List ℕ)
  pub unsupported : List String

module _ (python : Builtins) where
  -- `_normalize_words`
  unfoldable pub normalize_words : String → List ℕ
  normalize_words value = python.casefold (join_words (split_words [] (map spaced (codes value))))

  -- `_canonical_sector`
  unfoldable pub canonical_sector : String → List ℕ
  canonical_sector value =
      let key = normalize_words value in
      elim (get_alias key sector_aliases) [ none ↦ key | some sector ↦ sector ]

  unfoldable pub normalize_requested_sectors : List String → RequestedSectors
  normalize_requested_sectors [] = record { requested = []; unsupported = [] }
  normalize_requested_sectors (sector ∷ sectors) =
      let rest = normalize_requested_sectors sectors in
      elim (get_alias (normalize_words sector) sector_aliases) [
        | none ↦ record rest { unsupported = sector ∷ rest.unsupported }
        | some canonical ↦ record rest { requested = canonical ∷ rest.requested }
      ]

  -- `{_canonical_sector(item.name): item.weight_pct for item in exposures}`, onto `weights`
  unfoldable pub sector_weights : List WeightedExposure → Weights → Weights
  sector_weights [] weights = weights
  sector_weights (e ∷ es) weights =
      sector_weights es (put_weight (canonical_sector e.name) e.weight_pct weights)

  -- the tests of `_weighted_exposures` on validated items
  unfoldable pub checked_exposures : List WeightedExposure → Screened (List WeightedExposure)
  checked_exposures [] = raise contract
  checked_exposures (e ∷ es) =
      if distinct_names (map (λ x. canonical_sector x.name) (e ∷ es))
      then ok (e ∷ es)
      else raise contract

  -- `_weighted_exposures`
  unfoldable pub weighted_exposures : Option Value → Screened (List WeightedExposure)
  weighted_exposures (some (items values)) = elim (validated_items values) [
    | none ↦ raise contract
    | some exposures ↦ checked_exposures exposures
  ]
  weighted_exposures (some (text s)) = raise contract
  weighted_exposures (some (flag b)) = raise contract
  weighted_exposures (some (number n)) = raise contract
  weighted_exposures (some infinite) = raise contract
  weighted_exposures none = raise contract
