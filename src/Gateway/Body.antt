-- ===== src/Gateway/Body.antt =====
-- gateway-service/src/app.ts: `readBoundedBody` and `assertUnambiguousFraming`.
--
-- A byte is a number. A stream is the chunks it delivers, and whether it then ends or breaks off.
pub mod Content
use stellar_facilitator.Common.{
  ℕ, zero, suc, ◌+◌, String, Bool, true, false, ◌&&◌, ◌||◌, Option, none, some, List, [], ◌∷◌, ◌++◌,
  if◌then◌else◌, ltb, length, set,
}

abbrev pub Bytes : Type 0
Bytes = List ℕ

-- What of a request or a response the two functions read. `declared_length` is the number of the
-- Content-Length header, 0 without one and `none` where that is not finite.
pub record Message : Type 0 where
  pub declared_length : Option ℕ
  pub has_content_length : Bool
  pub has_transfer_encoding : Bool
  pub has_body : Bool
  pub chunks : List Bytes
  pub breaks_off : Bool

-- A body, a `GatewayHttpError` with its code, or the error of the stream.
pub data Read : Type 0 where
  read : Bytes → Read
  http_error : String → Read
  stream_error : Read

abbrev over_limit : Read
over_limit = http_error "body_limit_exceeded"

-- `new Uint8Array(total)`
unfoldable pub zeros : ℕ → Bytes
zeros zero = []
zeros (suc n) = 0 ∷ zeros n

-- `result.set(chunk, offset)`
unfoldable pub set_chunk : Bytes → ℕ → Bytes → Bytes
set_chunk result offset [] = result
set_chunk result offset (b ∷ bs) = set_chunk (set result offset b) (suc offset) bs

-- The last loop.
unfoldable pub fill : Bytes → ℕ → List Bytes → Bytes
fill result offset [] = result
fill result offset (chunk ∷ chunks) =
    fill (set_chunk result offset chunk) (offset + length chunk) chunks

-- The reading loop: the chunks kept, with their total, and those still to come.
unfoldable pub read_chunks : ℕ → Bool → List Bytes → ℕ → List Bytes → Read
read_chunks maximum breaks_off chunks total [] =
    if breaks_off then stream_error else read (fill (zeros total) 0 chunks)
read_chunks maximum breaks_off chunks total (value ∷ values) =
    let rest =
      read_chunks maximum breaks_off (chunks ++ (value ∷ [])) (total + length value) values in
    if ltb maximum (total + length value) then over_limit else rest

abbrev pub declares_more : ℕ → Option ℕ → Bool
declares_more maximum none = false
declares_more maximum (some n) = ltb maximum n

unfoldable pub read_bounded_body : ℕ → Message → Read
read_bounded_body maximum m =
    if declares_more maximum m.declared_length
    then over_limit
    else if m.has_body
    then read_chunks maximum m.breaks_off [] 0 m.chunks
    else read []

-- `none` is the `GatewayHttpError` with the code "invalid_request".
unfoldable pub assert_unambiguous_framing : Message → Bool
assert_unambiguous_framing m =
    if m.has_transfer_encoding && m.has_content_length then false else true
