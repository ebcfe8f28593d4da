-- ===== src/Catalog/Extension/External.antt =====
-- bazaar-service/src/catalog/ingestion.ts: which texts `validateJsonSpec` takes for external references.
use stellar_facilitator.Common.{
  ◌+◌, ◌≤◌, ◌≡◌, refl, subst, inl, inr, Bool, true, false, not, leb, ◌&&◌, ◌⊎◌, ◌++◌, Bool-cases,
  Option, none, some, List, [], ◌∷◌, arith,
}
use stellar_facilitator.Catalog.Extension.{
  Json, scalar, text, array, object, Text, external_text, is_external, is_reference_key,
  to_lower_case, starts_with,
}

abbrev pub under_reference : Option Text → Bool
under_reference none = false
under_reference (some key) = is_reference_key key

-- What is asked of a value that stands under such a key.
abbrev pub IsPassed : Option Text × Json → Type 0
IsPassed (k, v) = (under_reference k && external_text v) ≡ false

-- The three keys and the five prefixes.
abbrev reference_keys : List Text
reference_keys =
    (36 ∷ 114 ∷ 101 ∷ 102 ∷ [])
    ∷ (36 ∷ 105 ∷ 100 ∷ [])
    ∷ (36 ∷ 115 ∷ 99 ∷ 104 ∷ 101 ∷ 109 ∷ 97 ∷ [])
    ∷ []

abbrev external_prefixes : List Text
external_prefixes =
    (104 ∷ 116 ∷ 116 ∷ 112 ∷ 58 ∷ 47 ∷ 47 ∷ [])
    ∷ (104 ∷ 116 ∷ 116 ∷ 112 ∷ 115 ∷ 58 ∷ 47 ∷ 47 ∷ [])
    ∷ (102 ∷ 116 ∷ 112 ∷ 58 ∷ 47 ∷ 47 ∷ [])
    ∷ (47 ∷ 47 ∷ [])
    ∷ (102 ∷ 105 ∷ 108 ∷ 101 ∷ 58 ∷ 47 ∷ 47 ∷ [])
    ∷ []

abbrev IsOneOf : Text → List Text → Type 0
IsOneOf t [] = ⊥
IsOneOf t (u ∷ us) = (t ≡ u) ⊎ IsOneOf t us

-- The same text but for letters A to Z in place of a to z.
abbrev IsSpelling : Text → Text → Type 0
IsSpelling [] [] = Unit
IsSpelling [] (d ∷ p) = ⊥
IsSpelling (c ∷ h) [] = ⊥
IsSpelling (c ∷ h) (d ∷ p) = ((c ≡ d) ⊎ ((97 ≤ d) × (d ≤ 122) × (c + 32 ≡ d))) × IsSpelling h p

-- It begins with one of the prefixes, in capitals or not.
abbrev IsExternal : Text → Type 0
IsExternal t =
    (head : Text) × (rest : Text) × (prefix : Text) × IsOneOf prefix external_prefixes
    × IsSpelling head prefix
    × (t ≡ head ++ rest)

-- A text under one of the three keys is not external.
abbrev pub IsLocal : Option Text → Json → Type 0
IsLocal (some key) (text t) = (¬ IsOneOf key reference_keys) ⊎ (¬ IsExternal t)
IsLocal (some key) scalar = Unit
IsLocal (some key) (array items) = Unit
IsLocal (some key) (object ms) = Unit
IsLocal none v = Unit

-- None of its letters is a capital.
abbrev is_lower : Text → Bool
is_lower [] = true
is_lower (d ∷ p) = not (leb 65 d && leb d 90) && is_lower p

lower-starts_with :
    (head rest p : Text)
    → IsSpelling head p
    → is_lower p ≡ true
    → starts_with (to_lower_case (head ++ rest)) p ≡ true
unfolding starts_with to_lower_case
lower-starts_with [] rest [] h small = starts_with-nil (to_lower_case rest)
  where
    starts_with-nil : (t : Text) → starts_with t [] ≡ true
    starts_with-nil [] = refl
    starts_with-nil (c ∷ t) = refl
lower-starts_with [] rest (d ∷ p) h small = absurd h
lower-starts_with (c ∷ head) rest [] h small = absurd h
lower-starts_with (c ∷ head) rest (d ∷ p) h small =
    let later = lower-starts_with head rest p h.1 (ground (arith, small)) in
    elim h.0 [
      | inl same ↦ ground (arith, same, small, later)
      | inr capital ↦ ground (arith, capital.0, capital.1, capital.2, later)
    ]

-- Each of the prefixes is looked for.
prefix_found :
    (t p : Text) → IsOneOf p external_prefixes → starts_with t p ≡ true → is_external t ≡ true
unfolding is_external
prefix_found t p (inl e) h = ground (arith, subst (λ q. starts_with t q ≡ true) e h)
prefix_found t p (inr (inl e)) h = ground (arith, subst (λ q. starts_with t q ≡ true) e h)
prefix_found t p (inr (inr (inl e))) h = ground (arith, subst (λ q. starts_with t q ≡ true) e h)
prefix_found t p (inr (inr (inr (inl e)))) h =
    ground (arith, subst (λ q. starts_with t q ≡ true) e h)
prefix_found t p (inr (inr (inr (inr (inl e))))) h =
    ground (arith, subst (λ q. starts_with t q ≡ true) e h)
prefix_found t p (inr (inr (inr (inr (inr none_left))))) h = absurd none_left

prefix-is_lower : (p : Text) → IsOneOf p external_prefixes → is_lower p ≡ true
prefix-is_lower p (inl e) = rw e refl
prefix-is_lower p (inr (inl e)) = rw e refl
prefix-is_lower p (inr (inr (inl e))) = rw e refl
prefix-is_lower p (inr (inr (inr (inl e)))) = rw e refl
prefix-is_lower p (inr (inr (inr (inr (inl e))))) = rw e refl
prefix-is_lower p (inr (inr (inr (inr (inr none_left))))) = absurd none_left

key_found : (key : Text) → IsOneOf key reference_keys → is_reference_key key ≡ true
unfolding is_reference_key starts_with
key_found key (inl e) = rw e refl
key_found key (inr (inl e)) = rw e refl
key_found key (inr (inr (inl e))) = rw e refl
key_found key (inr (inr (inr none_left))) = absurd none_left

pub passed-IsLocal : (key : Option Text) (value : Json) → IsPassed (key, value) → IsLocal key value
unfolding external_text
passed-IsLocal none v h = tt
passed-IsLocal (some key) scalar h = tt
passed-IsLocal (some key) (array items) h = tt
passed-IsLocal (some key) (object ms) h = tt
passed-IsLocal (some key) (text t) h = elim (Bool-cases (is_reference_key key)) [
  | inr other ↦
      inl λ named. let found = key_found key named in absurd (ground (arith, other, found))
  | inl named ↦ inr λ (head, rest, prefix, one, spelled, whole).
      let begins = lower-starts_with head rest prefix spelled (prefix-is_lower prefix one) in
      let found = prefix_found (to_lower_case (head ++ rest)) prefix one begins in
      let seen : is_external (to_lower_case t) ≡ true = rw whole found in
      absurd (ground (arith, named, seen, h))
]
