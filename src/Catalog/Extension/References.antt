-- ===== src/Catalog/Extension/References.antt =====
-- bazaar-service/src/catalog/ingestion.ts: what `validateJsonSpec` accepts.
use mathlib.Core.Option.{some-injective}
use stellar_facilitator.Common.{
  ℕ, zero, suc, ◌+◌, ◌≤◌, ◌≡◌, refl, subst, inl, inr, String, ◌&&◌, Option, none, some, List, [],
  ◌∷◌, arith, Option-cases, ltb, if-eq-cases, length,
}
use stellar_facilitator.Catalog.Extension.{
  Json, scalar, text, array, object, Items, no_items, item, Members, no_members, member, Text,
  external_text, is_reference_key, or_reason, validate_json_spec, validate_items, validate_members,
}
use stellar_facilitator.Catalog.Extension.External.{IsPassed, IsLocal, passed-IsLocal}

abbrev get_item : Items → ℕ → Option Json
get_item no_items i = none
get_item (item v items) zero = some v
get_item (item v items) (suc i) = get_item items i

abbrev get_member : Members → ℕ → Option (Text × Json)
get_member no_members i = none
get_member (member key v ms) zero = some (key, v)
get_member (member key v ms) (suc i) = get_member ms i

-- The value at the end of a path of positions, with the key that it stands under, if it does.
unfoldable pub value_at : List ℕ → Option Text → Json → Option (Option Text × Json)
value_at [] k v = some (k, v)
value_at (i ∷ path) k scalar = none
value_at (i ∷ path) k (text t) = none
value_at (i ∷ path) k (array items) = elim (get_item items i) [
  | none ↦ none
  | some v ↦ value_at path none v
]
value_at (i ∷ path) k (object ms) = elim (get_member ms i) [
  | none ↦ none
  | some (key, v) ↦ value_at path (some key) v
]

or_reason-none : (a b : Option String) → or_reason a b ≡ none → (a ≡ none) × (b ≡ none)
or_reason-none none b h = (refl, h)
or_reason-none (some reason) b h = absurd (ground (arith, h))

not_deep : (v : Json) (depth : ℕ) → validate_json_spec v depth ≡ none → depth ≤ 16
unfolding validate_json_spec
not_deep scalar depth h = ground (arith, h)
not_deep (text t) depth h = ground (arith, h)
not_deep (array items) depth h = ground (arith, h)
not_deep (object ms) depth h = ground (arith, h)

items_accepted :
    (items : Items) (depth i : ℕ) (v : Json)
    → validate_items items depth ≡ none
    → get_item items i ≡ some v
    → validate_json_spec v (depth + 1) ≡ none
unfolding validate_items
items_accepted no_items depth i v h at = absurd (ground (arith, at))
items_accepted (item w items) depth zero v h at =
    subst (λ x. validate_json_spec x (depth + 1) ≡ none) (some-injective w v at)
      (or_reason-none _ _ h).0
items_accepted (item w items) depth (suc i) v h at =
    items_accepted items depth i v (or_reason-none _ _ h).1 at

members_accepted :
    (ms : Members) (depth i : ℕ) (m : Text × Json)
    → validate_members ms depth ≡ none
    → get_member ms i ≡ some m
    → (validate_json_spec m.1 (depth + 1) ≡ none) × IsPassed (some m.0, m.1)
unfolding validate_members
members_accepted no_members depth i m h at = absurd (ground (arith, at))
members_accepted (member key w ms) depth zero m h at =
    elim (if-eq-cases (is_reference_key key && external_text w) _ _ h) [
      | inl (outside, bad) ↦ absurd (ground (arith, bad))
      | inr (inside, rest) ↦
          subst
            (λ (x : Text × Json).
              (validate_json_spec x.1 (depth + 1) ≡ none) × IsPassed (some x.0, x.1))
            (some-injective (key, w) m at) ((or_reason-none _ _ rest).0, inside)
    ]
members_accepted (member key w ms) depth (suc i) m h at =
    elim (if-eq-cases (is_reference_key key && external_text w) _ _ h) [
      | inl (outside, bad) ↦ absurd (ground (arith, bad))
      | inr (inside, rest) ↦ members_accepted ms depth i m (or_reason-none _ _ rest).1 at
    ]

accepted_at :
    (path : List ℕ) (b c : Option Text) (v w : Json) (depth : ℕ)
    → validate_json_spec v depth ≡ none
    → IsPassed (b, v)
    → value_at path b v ≡ some (c, w)
    → (depth + length path ≤ 16) × IsPassed (c, w)
unfolding value_at validate_json_spec
accepted_at [] b c v w depth h inside here =
    (omega (arith, not_deep v depth h), subst IsPassed (some-injective (b, v) (c, w) here) inside)
accepted_at (i ∷ path) b c scalar w depth h inside here = absurd (ground (arith, here))
accepted_at (i ∷ path) b c (text t) w depth h inside here = absurd (ground (arith, here))
accepted_at (i ∷ path) b c (array items) w depth h inside here =
    elim (if-eq-cases (ltb 16 depth) _ _ h) [
      | inl (deep, bad) ↦ absurd (ground (arith, bad))
      | inr (shallow, rest) ↦ elim (Option-cases (get_item items i)) [
        | inl gone ↦ let bad = rw (gone, value_at) at here in absurd (ground (arith, bad))
        | inr (v, found) ↦
            let later = rw (found, value_at) at here in
            let (depths, local) =
              accepted_at path none c v w (depth + 1) (items_accepted items depth i v rest found)
                refl later in
            (omega (arith, depths), local)
      ]
    ]
accepted_at (i ∷ path) b c (object ms) w depth h inside here =
    elim (if-eq-cases (ltb 16 depth) _ _ h) [
      | inl (deep, bad) ↦ absurd (ground (arith, bad))
      | inr (shallow, rest) ↦ elim (Option-cases (get_member ms i)) [
        | inl gone ↦ let bad = rw (gone, value_at) at here in absurd (ground (arith, bad))
        | inr ((key, v), found) ↦
            let later = rw (found, value_at) at here in
            let (accepted, inner) = members_accepted ms depth i (key, v) rest found in
            let (depths, local) =
              accepted_at path (some key) c v w (depth + 1) accepted inner later in
            (omega (arith, depths), local)
      ]
    ]

-- In an accepted specification every value, at the end of whatever path, lies at most 16 levels
-- deep, and no text under a key "$ref", "$id" or "$schema" begins with "http://", "https://",
-- "ftp://", "//" or "file://", in whatever mixture of small letters and capitals.
pub validate_json_spec-none :
    (spec : Json) (path : List ℕ) (key : Option Text) (value : Json)
    → validate_json_spec spec 0 ≡ none
    → value_at path none spec ≡ some (key, value)
    → (length path ≤ 16) × IsLocal key value
validate_json_spec-none spec path key value h here =
    let (depths, passed) = accepted_at path none key spec value 0 h refl here in
    (omega (arith, depths), passed-IsLocal key value passed)
