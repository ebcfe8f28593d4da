-- ===== src/Search/Paging.antt =====
-- bazaar-service/src/search/cursor.ts and the paging of `list` in bazaar-service/src/search/engine.ts:
-- what cursors are accepted, and what a client that follows them is given.
use stellar_facilitator.Common.{
  ℕ, zero, suc, ◌+◌, ◌-◌, ◌≤◌, ◌<◌, ◌⊎◌, inl, inr, ◌≡◌, refl, sym, ap, subst, ◌∙◌, ◌↔◌, String,
  true, false, not, ◌&&◌, Option, none, some, List, ◌++◌, ◌==◌, ==_iff, ==_refl, string_eq, ltb,
  ltb→lt, leb, length, take, drop, length-take, length-drop, take-append-drop, drop-drop, take_all,
  arith, if-elim,
}
use stellar_facilitator.Search.{
  CursorPayload, Written, integer, text, Format, check_cursor, check_parsed, check_parsed,
  page_from, is_version, is_integer_from, integer_of, is_text, Result, returned, thrown,
  encode_cursor, decode_cursor, total_of, cursor_after, page, list,
}

-- What is read from a text that was written is what was written.
abbrev pub IsLossless : {Token : Type 0} → Format Token → Type 0
IsLossless format =
    (w : Written)
    → format.read (format.write w)
      ≡ some record { v = integer w.v; o = integer w.o; l = integer w.l; f = text w.f }

module _ {Token : Type 0} (format : Format Token) (lossless : IsLossless format) where
  checked_lem :
      (payload : CursorPayload) (expected : String)
      → decode_cursor format (encode_cursor format payload) expected
        ≡ check_cursor
            (record {
              v = integer 1;
              o = integer payload.offset;
              l = integer payload.limit;
              f = text payload.fingerprint;
            })
            expected
  unfolding encode_cursor decode_cursor check_parsed check_cursor
  checked_lem payload expected =
      ap (λ o. check_parsed o expected)
        (lossless record { v = 1; o = payload.offset; l = payload.limit; f = payload.fingerprint })

  decode-encode :
      (payload : CursorPayload)
      → 1 ≤ payload.limit
      → decode_cursor format (encode_cursor format payload) payload.fingerprint ≡ returned payload
  unfolding check_cursor is_version is_integer_from integer_of is_text
  decode-encode payload h =
      let from : leb 0 payload.offset ≡ true = ground arith in
      let sized : leb 1 payload.limit ≡ true = ground arith in
      checked_lem payload payload.fingerprint ∙ rw (from, sized, ==_refl payload.fingerprint) refl

  issued-IsChecked :
      (payload : CursorPayload) (expected : String)
      → check_cursor
          (record {
            v = integer 1;
            o = integer payload.offset;
            l = integer payload.limit;
            f = text payload.fingerprint;
          })
          expected
        ≡ returned payload
      → (1 ≤ payload.limit) × (payload.fingerprint ≡ expected)
  unfolding check_cursor is_version is_integer_from is_text
  issued-IsChecked payload expected =
      let Accepts : Result CursorPayload → Type 0 =
        λ r. r ≡ returned payload → (1 ≤ payload.limit) × (payload.fingerprint ≡ expected) in
      if-elim Accepts (not (leb 0 payload.offset && leb 1 payload.limit)) (λ t h. absurd cc)
        λ sized.
          if-elim Accepts (not (payload.fingerprint == expected)) (λ t h. absurd cc)
            λ same h. (ground arith, (==_iff payload.fingerprint expected).0 (ground (arith, same)))

  -- A cursor that was issued is accepted with its own position exactly if it was issued for a page
  -- size from 1 and for the same fingerprint.
  pub decode-encode_iff :
      (payload : CursorPayload) (expected : String)
      → (decode_cursor format (encode_cursor format payload) expected ≡ returned payload)
        ↔ ((1 ≤ payload.limit) × (payload.fingerprint ≡ expected))
  decode-encode_iff payload expected = (
    λ h. issued-IsChecked payload expected (sym (checked_lem payload expected) ∙ h),
    λ h.
        subst (λ f. decode_cursor format (encode_cursor format payload) f ≡ returned payload) h.1
          (decode-encode payload h.0),
  )

-- A client that asks for the first page, then follows the cursors, with the page size `sizes i` for
-- the page number `i`, and puts the rows together. Without fuel there is no answer.
module _ {Row Token : Type 0} (format : Format Token) (list_fingerprint : String)
    (matching : List Row) where
  abbrev pub follow : ℕ → (ℕ → ℕ) → Option Token → Option (List Row)
  follow zero sizes cursor = none
  follow (suc fuel) sizes cursor = elim (list format list_fingerprint matching cursor 0 (sizes 0)) [
    | thrown error ↦ none
    | returned response ↦ elim response.next_cursor [
      | none ↦ some response.results
      | some next ↦ elim (follow fuel (λ i. sizes (suc i)) (some next)) [
        | none ↦ none
        | some rest ↦ some (response.results ++ rest)
      ]
    ]
  ]

module _ {Row Token : Type 0} (format : Format Token) (lossless : IsLossless format)
    (list_fingerprint : String) (matching : List Row) where
  abbrev issued : ℕ → ℕ → Token
  issued limit offset =
      encode_cursor format record { offset = offset; limit = limit; fingerprint = list_fingerprint }

  abbrev rows_of : ℕ → ℕ → List Row
  rows_of limit offset = take limit (drop offset matching)

  abbrev IsLast : ℕ → ℕ → Option Token → Type 0
  IsLast limit offset next = (next ≡ none) × (rows_of limit offset ≡ drop offset matching)

  abbrev IsFollowed : ℕ → ℕ → Option Token → Type 0
  IsFollowed limit offset next =
      (next ≡ some (issued limit (offset + length (rows_of limit offset))))
      × (0 < length (rows_of limit offset))
      × (offset < length matching)

  total_positive :
      (results : List Row) (n : ℕ)
      → n < total_of format list_fingerprint matching results
      → (0 < length results) × (n < length matching)
  unfolding total_of
  total_positive results n =
      if-elim (λ total. n < total → (0 < length results) × (n < length matching))
        (ltb 0 (length results)) (λ some_row h. (ltb→lt 0 (length results) some_row, h))
        (λ no_row h. absurd (omega arith))

  last-IsWhole :
      (limit offset : ℕ)
      → 1 ≤ limit
      → ltb
          (offset + length (rows_of limit offset))
          (total_of format list_fingerprint matching (rows_of limit offset))
        ≡ false
      → length (drop offset matching) ≤ limit
  unfolding total_of
  last-IsWhole limit offset h =
      let page_size = length-take limit (drop offset matching) in
      let left = length-drop offset matching in
      if-elim
        (λ total.
          ltb (offset + length (rows_of limit offset)) total ≡ false
          → length (drop offset matching) ≤ limit)
        (ltb 0 (length (rows_of limit offset)))
        (λ some_row last. ground (arith, page_size, left, last))
        (λ no_row last. ground (arith, page_size, left, no_row))

  page_cases :
      (limit offset : ℕ)
      → 1 ≤ limit
      → IsLast limit offset (page format list_fingerprint matching limit offset).next_cursor
        ⊎ IsFollowed limit offset (page format list_fingerprint matching limit offset).next_cursor
  unfolding page cursor_after
  page_cases limit offset h =
      if-elim (λ next. IsLast limit offset next ⊎ IsFollowed limit offset next)
        (ltb (offset + length (rows_of limit offset))
          (total_of format list_fingerprint matching (rows_of limit offset)))
        (λ more.
          let known =
            total_positive (rows_of limit offset) (offset + length (rows_of limit offset)) (
              ltb→lt (offset + length (rows_of limit offset))
                (total_of format list_fingerprint matching (rows_of limit offset)) more) in
          inr (refl, known.0, omega (arith, known.1)))
        (λ last.
          inl (refl, take_all limit (drop offset matching) (last-IsWhole limit offset h last)))

  list-issued :
      (limit issuer offset : ℕ)
      → 1 ≤ issuer
      → list format list_fingerprint matching (some (issued issuer offset)) 0 limit
        ≡ returned (page format list_fingerprint matching limit offset)
  unfolding list page_from
  list-issued limit issuer offset h = ap (page_from format list_fingerprint matching limit) (
      decode-encode format lossless
        record { offset = offset; limit = issuer; fingerprint = list_fingerprint } h)

  follow_from :
      (fuel : ℕ) (sizes : ℕ → ℕ) (sized : (i : ℕ) → 1 ≤ sizes i) (cursor : Option Token)
      (offset : ℕ)
      → ((limit : ℕ)
          → list format list_fingerprint matching cursor 0 limit
            ≡ returned (page format list_fingerprint matching limit offset))
      → length matching - offset < fuel
      → follow format list_fingerprint matching fuel sizes cursor ≡ some (drop offset matching)
  unfolding page
  follow_from zero sizes sized cursor offset at enough = absurd (omega arith)
  follow_from (suc fuel) sizes sized cursor offset at enough =
      elim (page_cases (sizes 0) offset (sized 0)) [
        | inl (stop, all) ↦ rw (follow, at (sizes 0), stop) (ap some all)
        | inr (next, nonempty, within) ↦
            let last = offset + length (rows_of (sizes 0) offset) in
            let rest =
              follow_from fuel (λ i. sizes (suc i)) (λ i. sized (suc i))
                (some (issued (sizes 0) last)) last
                (λ limit. list-issued limit (sizes 0) last (sized 0)) (omega arith) in
            let whole =
              ap (λ xs. rows_of (sizes 0) offset ++ xs)
                (sym (drop-drop offset (length (rows_of (sizes 0) offset)) matching))
              ∙ take-append-drop (sizes 0) (drop offset matching) in
            rw (follow, at (sizes 0), next, rest) (ap some whole)
      ]

  -- A client that follows the cursors, with any page sizes from 1, is given each matching row once,
  -- in the order of the query, after at most one page more than there are rows.
  pub follow_lists_all :
      (sizes : ℕ → ℕ)
      → ((i : ℕ) → 1 ≤ sizes i)
      → follow format list_fingerprint matching (suc (length matching)) sizes none ≡ some matching
  unfolding list
  follow_lists_all sizes sized =
      follow_from (suc (length matching)) sizes sized none 0 (λ limit. refl) (omega arith)
