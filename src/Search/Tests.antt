-- ===== src/Search/Tests.antt =====
-- bazaar-service/src/search: cursors and pages of a small catalog, and the properties at them.
use stellar_facilitator.Common.{ℕ, zero, suc, ◌≤◌, ◌≡◌, refl, ◌↔◌, some, none, List, [], ◌∷◌, arith}
use stellar_facilitator.Search.{
  CursorPayload, Written, Parsed, integer, text, Format, returned, encode_cursor, decode_cursor,
}
use stellar_facilitator.Search.Paging.{IsLossless, decode-encode_iff, follow, follow_lists_all}

abbrev read_back : Written → Parsed
read_back w = record { v = integer w.v; o = integer w.o; l = integer w.l; f = text w.f }

-- Tokens that are the written object itself.
abbrev plain : Format Written
plain = record { write = λ w. w; read = λ w. some (read_back w) }

plain-IsLossless : IsLossless plain
plain-IsLossless w = refl

abbrev second_page : CursorPayload
second_page = record { offset = 2; limit = 2; fingerprint = "4YqkFp1" }

abbrev five_rows : List ℕ
five_rows = 10 ∷ 20 ∷ 30 ∷ 40 ∷ 50 ∷ []

abbrev two_then_one : ℕ → ℕ
two_then_one zero = 2
two_then_one (suc i) = 1

two_then_one_positive : (i : ℕ) → 1 ≤ two_then_one i
two_then_one_positive zero = omega arith
two_then_one_positive (suc i) = omega arith

decode-encode_iff_example :
    (decode_cursor plain (encode_cursor plain second_page) "4YqkFp1" ≡ returned second_page)
    ↔ ((1 ≤ 2) × (second_page.fingerprint ≡ "4YqkFp1"))
decode-encode_iff_example = decode-encode_iff plain plain-IsLossless second_page "4YqkFp1"

follow_lists_all_example : follow plain "4YqkFp1" five_rows 6 two_then_one none ≡ some five_rows
follow_lists_all_example =
    follow_lists_all plain plain-IsLossless "4YqkFp1" five_rows two_then_one two_then_one_positive
