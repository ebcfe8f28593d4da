-- ===== src/Search.antt =====
-- bazaar-service/src/search/cursor.ts and the paging of `list` in bazaar-service/src/search/engine.ts.
--
-- What the database answers is a parameter: the rows that match the filters, in the query's order.
-- `fingerprint` hashes the filters, and its value is an argument here. `Format` is a cursor's JSON in
-- base64url.
pub mod Paging
mod Tests
use stellar_facilitator.Common.{
  ℕ, ◌+◌, String, Bool, true, false, not, ◌&&◌, Option, none, some, List, ◌==◌, string_eq, nat_eq,
  if◌then◌else◌, ltb, leb, length, take, drop,
}

pub record CursorPayload : Type 0 where
  pub offset : ℕ
  pub limit : ℕ
  pub fingerprint : String

-- `CURSOR_VERSION`
abbrev pub cursor_version : ℕ
cursor_version = 1

-- The object `{ v, o, l, f }` that a cursor is written from.
pub record Written : Type 0 where
  pub v : ℕ
  pub o : ℕ
  pub l : ℕ
  pub f : String

-- What a property of the parsed value is: an integer from 0, a text, or anything else, a missing
-- property and a negative or fractional number included.
pub data Field : Type 0 where
  integer : ℕ → Field
  text : String → Field
  other_value : Field

-- The properties `v`, `o`, `l` and `f` of the parsed value.
pub record Parsed : Type 0 where
  pub v : Field
  pub o : Field
  pub l : Field
  pub f : Field

-- `JSON.stringify` with the encoding, and the decoding with `JSON.parse`, which throws where this
-- gives `none`.
pub record Format (Token : Type 0) : Type 0 where
  pub write : Written → Token
  pub read : Token → Option Parsed

pub data InvalidCursorError : Type 0 where
  malformed : InvalidCursorError
  incompatible_version : InvalidCursorError
  invalid_position : InvalidCursorError
  other_query : InvalidCursorError

pub data Result {ℓ} (A : Type ℓ) : Type ℓ where
  returned : A → Result A
  thrown : InvalidCursorError → Result A

-- `Number.isInteger(x) && x >= low`, for a bound from 0.
unfoldable pub is_integer_from : ℕ → Field → Bool
is_integer_from low (integer n) = leb low n
is_integer_from low (text s) = false
is_integer_from low other_value = false

-- The integer of a field that has one.
unfoldable pub integer_of : Field → ℕ
integer_of (integer n) = n
integer_of (text s) = 0
integer_of other_value = 0

unfoldable pub is_version : Field → Bool
is_version (integer n) = n == cursor_version
is_version (text s) = false
is_version other_value = false

unfoldable pub is_text : Field → String → Bool
is_text (text s) expected = s == expected
is_text (integer n) expected = false
is_text other_value expected = false

-- The tests of `decodeCursor` on what was parsed.
unfoldable pub check_cursor : Parsed → String → Result CursorPayload
check_cursor decoded expected =
    if not (is_version decoded.v)
    then thrown incompatible_version
    else if not (is_integer_from 0 decoded.o && is_integer_from 1 decoded.l)
    then thrown invalid_position
    else if not (is_text decoded.f expected)
    then thrown other_query
    else returned record {
      offset = integer_of decoded.o;
      limit = integer_of decoded.l;
      fingerprint = expected;
    }

unfoldable pub check_parsed : Option Parsed → String → Result CursorPayload
check_parsed none expected = thrown malformed
check_parsed (some decoded) expected = check_cursor decoded expected

module _ {Token : Type 0} (format : Format Token) where
  unfoldable pub encode_cursor : CursorPayload → Token
  encode_cursor payload =
      format.write record {
        v = cursor_version;
        o = payload.offset;
        l = payload.limit;
        f = payload.fingerprint;
      }

  unfoldable pub decode_cursor : Token → String → Result CursorPayload
  decode_cursor cursor expected = check_parsed (format.read cursor) expected

-- The fields of `SearchResponse` that the paging sets.
pub record SearchResponse (Row Token : Type 0) : Type 0 where
  pub results : List Row
  pub total : ℕ
  pub limit : ℕ
  pub offset : ℕ
  pub next_cursor : Option Token

module _ {Row Token : Type 0} (format : Format Token) (list_fingerprint : String)
    (matching : List Row) where
  -- `COUNT(*) OVER()` stands in each row, so that a page without rows has no count.
  unfoldable pub total_of : List Row → ℕ
  total_of results = if ltb 0 (length results) then length matching else 0

  -- The cursor of the page after these rows.
  unfoldable pub cursor_after : ℕ → ℕ → List Row → Option Token
  cursor_after limit offset results =
      if ltb (offset + length results) (total_of results)
      then some (
          encode_cursor format record {
            offset = offset + length results;
            limit = limit;
            fingerprint = list_fingerprint;
          })
      else none

  -- The query with its `LIMIT` and `OFFSET`, and the response.
  unfoldable pub page : ℕ → ℕ → SearchResponse Row Token
  page limit offset =
      let results = take limit (drop offset matching) in
      record {
        results = results;
        total = total_of results;
        limit = limit;
        offset = offset;
        next_cursor = cursor_after limit offset results;
      }

  -- The page at the position of the cursor, whose own page size is not used.
  unfoldable pub page_from : ℕ → Result CursorPayload → Result (SearchResponse Row Token)
  page_from limit (returned payload) = returned (page limit payload.offset)
  page_from limit (thrown error) = thrown error

  -- A cursor that is given replaces the offset. An empty one counts as missing.
  unfoldable pub list : Option Token → ℕ → ℕ → Result (SearchResponse Row Token)
  list none offset limit = returned (page limit offset)
  list (some cursor) offset limit = page_from limit (decode_cursor format cursor list_fingerprint)
