-- ===== src/Rpc/Agreement.antt =====
-- rpc-coordinator.ts: what `reconcile` makes of the providers' answers.
use stellar_facilitator.Common.{
  ℕ, ◌+◌, ◌≡◌, ◌≢◌, refl, sym, ap, ◌∙◌, inl, inr, String, Bool, true, false, ◌||◌, Option, none,
  some, List, [], ◌∷◌, ◌==◌, ==_iff, string_eq, arith, ltb, opt_is, subst, Bool-cases, Option-cases,
  find, All, count, length, count-set_delete, set_delete,
}
use stellar_facilitator.Common.Int.{negsuc}
use stellar_facilitator.Rpc.{
  JsonRpcResponse, disagreement, all_failed_reconciling, status_of, is_final, is_known, finals,
  settle_status, rpc_error,
}

-- Some response has this status.
abbrev pub has : String → List JsonRpcResponse → Bool
has s [] = false
has s (r ∷ rs) = opt_is (status_of r) s || has s rs

abbrev bit : Bool → ℕ
bit true = 1
bit false = 0

finals-count :
    (s : String) (rs : List JsonRpcResponse)
    → ((s == "SUCCESS") || (s == "FAILED")) ≡ true
    → count s (finals rs) ≡ bit (has s rs)
unfolding finals
finals-count s [] h = refl
finals-count s (r ∷ rs) h = elim (Option-cases (status_of r)) [
  | inl gone ↦ ground (arith, gone, finals-count s rs h)
  | inr (status, found) ↦
      ground
        (arith, found, finals-count s rs h, count-set_delete s status (finals rs), ==_iff status s)
]

length-set_delete :
    (a : String) (xs : List String) → length (set_delete a xs) + count a xs ≡ length xs
length-set_delete a [] = refl
length-set_delete a (x ∷ xs) = ground (arith, length-set_delete a xs)

pub not_both : (s : String) → (s == "SUCCESS") ≡ true → (s == "FAILED") ≡ true → ⊥
not_both s h k =
    let same : false ≡ true =
      (==_iff "SUCCESS" "FAILED").1 (sym ((==_iff s "SUCCESS").0 h) ∙ (==_iff s "FAILED").0 k) in
    cc

finals-length :
    (rs : List JsonRpcResponse)
    → length (finals rs) ≡ count "SUCCESS" (finals rs) + count "FAILED" (finals rs)
unfolding finals
finals-length [] = refl
finals-length (r ∷ rs) = elim (Option-cases (status_of r)) [
  | inl gone ↦ ground (arith, gone, finals-length rs)
  | inr (status, found) ↦ ground (
    arith,
    found,
    finals-length rs,
    length-set_delete status (finals rs),
    count-set_delete "SUCCESS" status (finals rs),
    count-set_delete "FAILED" status (finals rs),
    ==_iff status "SUCCESS",
    ==_iff status "FAILED",
    not_both status,
  )
]

pub finals-size :
    (rs : List JsonRpcResponse)
    → length (finals rs) ≡ bit (has "SUCCESS" rs) + bit (has "FAILED" rs)
finals-size rs =
    omega (arith, finals-length rs, finals-count "SUCCESS" rs refl, finals-count "FAILED" rs refl)

find-has :
    (p : JsonRpcResponse → Bool) (rs : List JsonRpcResponse) (r : JsonRpcResponse) (s : String)
    → find p rs ≡ some r
    → opt_is (status_of r) s ≡ true
    → has s rs ≡ true
find-has p [] r s e h = absurd (ground arith)
find-has p (q ∷ rs) r s e h = elim (Bool-cases (p q)) [
  | inr no' ↦ ground (arith, no', find-has p rs r s)
  | inl yes' ↦
      let same : q ≡ r = ground (arith, yes') in
      let here : opt_is (status_of q) s ≡ true =
        subst (λ x. opt_is (status_of x) s ≡ true) (sym same) h in
      ground (arith, here)
]

find-holds :
    (p : JsonRpcResponse → Bool) (rs : List JsonRpcResponse) (r : JsonRpcResponse)
    → find p rs ≡ some r
    → p r ≡ true
find-holds p [] r e = absurd (ground arith)
find-holds p (q ∷ rs) r e = elim (Bool-cases (p q)) [
  | inr no' ↦ ground (arith, no', find-holds p rs r)
  | inl yes' ↦ let same : q ≡ r = ground (arith, yes') in subst (λ x. p x ≡ true) same yes'
]

find-clear :
    (p : JsonRpcResponse → Bool) (rs : List JsonRpcResponse) (r : JsonRpcResponse)
    → find p rs ≡ some r
    → All (λ x. x.error ≡ none) rs
    → r.error ≡ none
find-clear p [] r e h = absurd (ground arith)
find-clear p (q ∷ rs) r e h = elim (Bool-cases (p q)) [
  | inr no' ↦ find-clear p rs r (ground (arith, no')) h.1
  | inl yes' ↦ let same : q ≡ r = ground (arith, yes') in subst (λ x. x.error ≡ none) same h.0
]

find_final-none :
    (rs : List JsonRpcResponse)
    → find is_final rs ≡ none
    → (has "SUCCESS" rs ≡ false) × (has "FAILED" rs ≡ false)
find_final-none [] e = (refl, refl)
find_final-none (q ∷ rs) e = elim (Bool-cases (is_final q)) [
  | inl yes' ↦ absurd (ground (arith, yes'))
  | inr no' ↦
      let rest = find_final-none rs (ground (arith, no')) in
      (ground (arith, rest.0, no'), ground (arith, rest.1, no'))
]

-- What the gathered answers come to. `SUCCESS` and `FAILED` are the final statuses.
pub data IsReconciled (id hash : String) (rs : List JsonRpcResponse) (response : JsonRpcResponse)
    : Type 0 where
  -- The providers disagree.
  conflicting :
      has "SUCCESS" rs ≡ true
      → has "FAILED" rs ≡ true
      → response ≡ rpc_error id (negsuc 32002) (disagreement hash (finals rs))
      → IsReconciled id hash rs response
  succeeded :
      has "SUCCESS" rs ≡ true
      → has "FAILED" rs ≡ false
      → response.error ≡ none
      → status_of response ≡ some "SUCCESS"
      → IsReconciled id hash rs response
  failed :
      has "SUCCESS" rs ≡ false
      → has "FAILED" rs ≡ true
      → response.error ≡ none
      → status_of response ≡ some "FAILED"
      → IsReconciled id hash rs response
  -- Some provider answered, but none with a final status.
  undecided :
      has "SUCCESS" rs ≡ false
      → has "FAILED" rs ≡ false
      → rs ≢ []
      → response.error ≡ none
      → is_final response ≡ false
      → IsReconciled id hash rs response
  unheard :
      rs ≡ []
      → response ≡ rpc_error id (negsuc 32000) (all_failed_reconciling hash)
      → IsReconciled id hash rs response

some_status : (o : Option String) (s : String) → opt_is o s ≡ true → o ≡ some s
some_status none s h = absurd (ground arith)
some_status (some a) s h = ap some ((==_iff a s).0 h)

not_final :
    (r : JsonRpcResponse) (rs : List JsonRpcResponse) (p : JsonRpcResponse → Bool)
    → find p rs ≡ some r
    → has "SUCCESS" rs ≡ false
    → has "FAILED" rs ≡ false
    → is_final r ≡ false
not_final r rs p e s f =
    ground (arith, find-has p rs r "SUCCESS" e, find-has p rs r "FAILED" e, s, f)

-- One final status at most: `find` decides.
agreed :
    (id hash : String) (rs : List JsonRpcResponse) (r : JsonRpcResponse)
    → All (λ q. q.error ≡ none) rs
    → ltb 1 (length (finals rs)) ≡ false
    → find is_final rs ≡ some r
    → IsReconciled id hash rs r
agreed id hash rs r clear few e = elim (Bool-cases (opt_is (status_of r) "SUCCESS")) [
  | inl success ↦
      let s = find-has is_final rs r "SUCCESS" e success in
      succeeded s (ground (arith, finals-size rs, s, few)) (find-clear is_final rs r e clear)
        (some_status (status_of r) "SUCCESS" success)
  | inr other ↦
      let failure : opt_is (status_of r) "FAILED" ≡ true =
        ground (arith, find-holds is_final rs r e, other) in
      let f = find-has is_final rs r "FAILED" e failure in
      failed (ground (arith, finals-size rs, f, few)) f (find-clear is_final rs r e clear)
        (some_status (status_of r) "FAILED" failure)
]

unsettled :
    (id hash : String) (rs : List JsonRpcResponse)
    → All (λ q. q.error ≡ none) rs
    → ltb 1 (length (finals rs)) ≡ false
    → find is_final rs ≡ none
    → IsReconciled id hash rs (settle_status id hash rs)
unfolding settle_status finals
unsettled id hash [] clear few e = unheard refl refl
unsettled id hash (first ∷ others) clear few e =
    let (s, f) = find_final-none (first ∷ others) e in
    elim (Option-cases (find is_known (first ∷ others))) [
      | inr (r, found) ↦
          rw (few, e, found)
            (undecided s f (λ h. absurd (ground arith))
              (find-clear is_known (first ∷ others) r found clear)
              (not_final r (first ∷ others) is_known found s f))
      | inl gone ↦
          rw (few, e, gone)
            (undecided s f (λ h. absurd (ground arith)) clear.0 (ground (arith, s, f)))
    ]

-- From answers without an error, `reconcile` reports a final status exactly if some provider gives
-- it and none gives the other one, and an error if providers give both or if none answered.
pub settle_status-IsReconciled :
    (id hash : String) (rs : List JsonRpcResponse)
    → All (λ q. q.error ≡ none) rs
    → IsReconciled id hash rs (settle_status id hash rs)
unfolding settle_status
settle_status-IsReconciled id hash rs clear = elim (Bool-cases (ltb 1 (length (finals rs)))) [
  | inl many ↦ rw many (
      conflicting (ground (arith, finals-size rs, many)) (ground (arith, finals-size rs, many))
        refl)
  | inr few ↦ elim (Option-cases (find is_final rs)) [
    | inl gone ↦ unsettled id hash rs clear few gone
    | inr (r, found) ↦ rw (few, found) (agreed id hash rs r clear few found)
  ]
]
