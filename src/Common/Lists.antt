-- ===== src/Common/Lists.antt =====
-- Lists measured by native numbers, JavaScript's array and `Set` operations on them, and counting.
use Prim.Native.Nat.{ℕ, zero, suc, ◌+◌, ◌-◌, ◌≤◌, min}
use mathlib.Core.Path.{◌≡◌, refl, sym, ap, subst, ◌∙◌}
use mathlib.Core.Logic.{◌⊎◌, inl, inr}
use mathlib.Core.Bool.{Bool, true, false, ◌&&◌, ◌||◌}
use mathlib.Core.List.{List, [], ◌∷◌, ◌++◌}
use mathlib.Core.Option.{Option, none, some, some-injective}
use native.Mathlib.Omega.{arith}
use stellar_facilitator.Common.Tests.{if◌then◌else◌, eqb}
use stellar_facilitator.Common.Equality.{Eq, ◌==◌, ==_iff}

module _ {ℓ} {A : Type ℓ} where
  abbrev pub length : List A → ℕ
  length [] = 0
  length (x ∷ xs) = suc (length xs)

  pub length-append : (xs ys : List A) → length (xs ++ ys) ≡ length xs + length ys
  length-append [] ys = omega arith
  length-append (x ∷ xs) ys = omega (arith, length-append xs ys)

  -- `Array.prototype.find`, `filter`, `every` and `some`.
  abbrev pub find : (A → Bool) → List A → Option A
  find p [] = none
  find p (x ∷ xs) = if p x then some x else find p xs

  abbrev pub filter : (A → Bool) → List A → List A
  filter p [] = []
  filter p (x ∷ xs) = if p x then x ∷ filter p xs else filter p xs

  abbrev pub every : (A → Bool) → List A → Bool
  every p [] = true
  every p (x ∷ xs) = p x && every p xs

  abbrev pub get_elem? : List A → ℕ → Option A
  get_elem? [] i = none
  get_elem? (x ∷ xs) zero = some x
  get_elem? (x ∷ xs) (suc i) = get_elem? xs i

  abbrev pub take : ℕ → List A → List A
  take zero xs = []
  take (suc n) [] = []
  take (suc n) (x ∷ xs) = x ∷ take n xs

  abbrev pub drop : ℕ → List A → List A
  drop zero xs = xs
  drop (suc n) [] = []
  drop (suc n) (x ∷ xs) = drop n xs

  pub length-drop : (n : ℕ) (xs : List A) → length (drop n xs) ≡ length xs - n
  length-drop zero xs = omega arith
  length-drop (suc n) [] = omega arith
  length-drop (suc n) (x ∷ xs) = omega (arith, length-drop n xs)

  pub length-take : (n : ℕ) (xs : List A) → length (take n xs) ≡ min n (length xs)
  length-take zero xs = omega arith
  length-take (suc n) [] = omega arith
  length-take (suc n) (x ∷ xs) = omega (arith, length-take n xs)

  pub take-append-drop : (n : ℕ) (xs : List A) → take n xs ++ drop (length (take n xs)) xs ≡ xs
  take-append-drop zero xs = refl
  take-append-drop (suc n) [] = refl
  take-append-drop (suc n) (x ∷ xs) = ap (λ rest. x ∷ rest) (take-append-drop n xs)

  drop-nil : (n : ℕ) → drop n [] ≡ []
  drop-nil zero = refl
  drop-nil (suc n) = refl

  pub drop-drop : (m n : ℕ) (xs : List A) → drop n (drop m xs) ≡ drop (m + n) xs
  drop-drop zero n xs = ap (λ k. drop k xs) (omega arith)
  drop-drop (suc m) n [] = drop-nil n ∙ sym (drop-nil (suc m + n))
  drop-drop (suc m) n (x ∷ xs) =
      let same : suc (m + n) ≡ suc m + n = omega arith in
      drop-drop m n xs ∙ ap (λ k. drop k (x ∷ xs)) same

  pub take_all : (n : ℕ) (xs : List A) → length xs ≤ n → take n xs ≡ xs
  take_all zero [] h = refl
  take_all (suc n) [] h = refl
  take_all zero (x ∷ xs) h = absurd (omega arith)
  take_all (suc n) (x ∷ xs) h = ap (λ rest. x ∷ rest) (take_all n xs (omega arith))

  -- A write out of bounds changes nothing.
  abbrev pub set : List A → ℕ → A → List A
  set [] i v = []
  set (x ∷ xs) zero v = v ∷ xs
  set (x ∷ xs) (suc i) v = x ∷ set xs i v

  -- The predicate of every entry.
  abbrev pub All {κ} : (A → Type κ) → List A → Type κ
  All P [] = Unit
  All P (x ∷ xs) = P x × All P xs

  pub All-mono {κ μ} :
      (P : A → Type κ) (Q : A → Type μ) (xs : List A) → ((x : A) → P x → Q x) → All P xs → All Q xs
  All-mono P Q [] f h = tt
  All-mono P Q (x ∷ xs) f h = (f x h.0, All-mono P Q xs f h.1)

  pub All-snoc {κ} :
      (P : A → Type κ) (xs : List A) (a : A) → All P xs → P a → All P (xs ++ (a ∷ []))
  All-snoc P [] a h p = (p, tt)
  All-snoc P (x ∷ xs) a h p = (h.0, All-snoc P xs a h.1 p)

  pub All-set {κ} :
      (P : A → Type κ) (xs : List A) (i : ℕ) (a : A) → All P xs → P a → All P (set xs i a)
  All-set P [] i a h p = tt
  All-set P (x ∷ xs) zero a h p = (p, h.1)
  All-set P (x ∷ xs) (suc i) a h p = (h.0, All-set P xs i a h.1 p)

  pub All_get {κ} :
      (P : A → Type κ) (xs : List A) (i : ℕ) {a : A} → All P xs → get_elem? xs i ≡ some a → P a
  All_get P [] i h e = absurd (ground (arith, e))
  All_get P (x ∷ xs) zero {a} h e = subst P (some-injective x a e) h.0
  All_get P (x ∷ xs) (suc i) h e = All_get P xs i h.1 e

  pub get_elem?-append :
      (xs ys : List A) (i : ℕ) {a : A} → get_elem? xs i ≡ some a → get_elem? (xs ++ ys) i ≡ some a
  get_elem?-append [] ys i e = absurd (ground (arith, e))
  get_elem?-append (x ∷ xs) ys zero e = e
  get_elem?-append (x ∷ xs) ys (suc i) e = get_elem?-append xs ys i e

  pub get_elem?_last : (xs : List A) (a : A) → get_elem? (xs ++ (a ∷ [])) (length xs) ≡ some a
  get_elem?_last [] a = refl
  get_elem?_last (x ∷ xs) a = get_elem?_last xs a

  pub get_elem?_snoc_cases :
      (xs : List A) (a : A) (i : ℕ) {b : A}
      → get_elem? (xs ++ (a ∷ [])) i ≡ some b
      → (get_elem? xs i ≡ some b) ⊎ ((i ≡ length xs) × (a ≡ b))
  get_elem?_snoc_cases [] a zero {b} e = inr (refl, some-injective a b e)
  get_elem?_snoc_cases [] a (suc i) e = absurd (ground (arith, e))
  get_elem?_snoc_cases (x ∷ xs) a zero e = inl e
  get_elem?_snoc_cases (x ∷ xs) a (suc i) e = elim (get_elem?_snoc_cases xs a i e) [
    | inl old ↦ inl old
    | inr (last, same) ↦ inr (omega (arith, last), same)
  ]

  pub get_elem?-set :
      (xs : List A) (i j : ℕ) (v a : A)
      → get_elem? xs i ≡ some a
      → get_elem? (set xs i v) j ≡ (if eqb i j then some v else get_elem? xs j)
  get_elem?-set [] i j v a e = absurd (ground (arith, e))
  get_elem?-set (x ∷ xs) zero zero v a e = refl
  get_elem?-set (x ∷ xs) zero (suc j) v a e = ground arith
  get_elem?-set (x ∷ xs) (suc i) zero v a e = ground arith
  get_elem?-set (x ∷ xs) (suc i) (suc j) v a e = ground (arith, get_elem?-set xs i j v a e)

  pub length-filter-le : (p : A → Bool) (xs : List A) → length (filter p xs) ≤ length xs
  length-filter-le p [] = omega arith
  length-filter-le p (x ∷ xs) = ground (arith, length-filter-le p xs)

module _ {ℓ} {A : Type ℓ} ⦃e : Eq A⦄ where
  -- `xs.includes(a)` and `set.has(a)`.
  abbrev pub includes : List A → A → Bool
  includes [] a = false
  includes (x ∷ xs) a = x == a || includes xs a

  -- `set.add(a)` and `set.delete(a)`, on the set's entries in insertion order.
  abbrev pub set_add : A → List A → List A
  set_add a xs = if includes xs a then xs else xs ++ (a ∷ [])

  abbrev pub set_delete : A → List A → List A
  set_delete a [] = []
  set_delete a (x ∷ xs) = if x == a then set_delete a xs else x ∷ set_delete a xs

  -- How often `a` occurs.
  abbrev pub count : A → List A → ℕ
  count a [] = 0
  count a (x ∷ xs) = if x == a then suc (count a xs) else count a xs

  pub count-append : (a : A) (xs ys : List A) → count a (xs ++ ys) ≡ count a xs + count a ys
  count-append a [] ys = omega arith
  count-append a (x ∷ xs) ys = ground (arith, count-append a xs ys)

  pub includes-count : (a : A) (xs : List A) → includes xs a ≡ true → 1 ≤ count a xs
  includes-count a [] h = ground arith
  includes-count a (x ∷ xs) h = ground (arith, includes-count a xs)

  pub not-includes-count : (a : A) (xs : List A) → includes xs a ≡ false → count a xs ≡ 0
  not-includes-count a [] h = refl
  not-includes-count a (x ∷ xs) h = ground (arith, not-includes-count a xs)

  pub count-set_delete_self : (a : A) (xs : List A) → count a (set_delete a xs) ≡ 0
  count-set_delete_self a [] = refl
  count-set_delete_self a (x ∷ xs) = ground (arith, count-set_delete_self a xs)

  pub count-set_delete_ne :
      (a b : A) (xs : List A) → (b == a) ≡ false → count a (set_delete b xs) ≡ count a xs
  count-set_delete_ne a b [] h = refl
  count-set_delete_ne a b (x ∷ xs) h =
      ground (arith, count-set_delete_ne a b xs h, ==_iff x a, ==_iff x b, ==_iff b a)

  pub count-set_delete :
      (a b : A) (xs : List A) → count a (set_delete b xs) ≡ (if b == a then 0 else count a xs)
  count-set_delete a b xs =
      ground (arith, count-set_delete_self a xs, count-set_delete_ne a b xs, ==_iff b a)

  pub count-set_add :
      (a b : A) (xs : List A)
      → count b xs ≡ 0
      → count a (set_add b xs) ≡ count a xs + (if b == a then 1 else 0)
  count-set_add a b xs h =
      ground (arith, includes-count b xs, count-append a xs (b ∷ []), ==_iff b a)
