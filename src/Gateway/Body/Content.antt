-- ===== src/Gateway/Body/Content.antt =====
-- gateway-service/src/app.ts: what `readBoundedBody` returns.
use mathlib.Core.List.{append-nil, append_assoc}
use stellar_facilitator.Common.{
  ℕ, zero, suc, ◌+◌, ◌≤◌, ◌≡◌, ◌↔◌, refl, sym, ap, ◌∙◌, ◌⊎◌, inl, inr, Bool, true, false, List, [],
  ◌∷◌, ◌++◌, arith, Bool-cases, ltb, if◌then◌else◌, length, length-append, set,
}
use stellar_facilitator.Gateway.Body.{
  Bytes, Message, Read, read, http_error, stream_error, zeros, set_chunk, fill, read_chunks,
  declares_more, read_bounded_body,
}

-- The chunks one after the other.
unfoldable pub concat : List Bytes → Bytes
concat [] = []
concat (c ∷ cs) = c ++ concat cs

zeros-add : (m n : ℕ) → zeros (m + n) ≡ zeros m ++ zeros n
unfolding zeros
zeros-add zero n = ap zeros (omega arith)
zeros-add (suc m) n =
    ap zeros {x = suc m + n} {y = suc (m + n)} (omega arith) ∙ ap (λ bs. 0 ∷ bs) (zeros-add m n)

concat-append : (cs ds : List Bytes) → concat (cs ++ ds) ≡ concat cs ++ concat ds
unfolding concat
concat-append [] ds = refl
concat-append (c ∷ cs) ds =
    ap (λ bs. c ++ bs) (concat-append cs ds) ∙ sym (append_assoc c (concat cs) (concat ds))

set_at : (p : Bytes) (x b : ℕ) (q : Bytes) → set (p ++ (x ∷ q)) (length p) b ≡ p ++ (b ∷ q)
set_at [] x b q = refl
set_at (y ∷ p) x b q = ap (λ bs. y ∷ bs) (set_at p x b q)

-- `p ++ (b ∷ q)` with `b` counted among what is written.
snoc : (p : Bytes) (b : ℕ) (q : Bytes) → p ++ (b ∷ q) ≡ p ++ (b ∷ []) ++ q
snoc p b q = sym (append_assoc p (b ∷ []) q)

length_snoc : (p : Bytes) (b : ℕ) → suc (length p) ≡ length (p ++ (b ∷ []))
length_snoc p b = omega (arith, length-append p (b ∷ []))

set_chunk_at :
    (p bs q : Bytes) → set_chunk (p ++ (zeros (length bs) ++ q)) (length p) bs ≡ p ++ (bs ++ q)
unfolding set_chunk zeros
set_chunk_at p [] q = refl
set_chunk_at p (b ∷ bs) q =
    ap (λ r. set_chunk r (suc (length p)) bs)
      (set_at p 0 b (zeros (length bs) ++ q) ∙ snoc p b (zeros (length bs) ++ q))
    ∙ ap (λ n. set_chunk (p ++ (b ∷ []) ++ (zeros (length bs) ++ q)) n bs) (length_snoc p b)
    ∙ set_chunk_at (p ++ (b ∷ [])) bs q
    ∙ sym (snoc p b (bs ++ q))

fill_at :
    (p : Bytes) (cs : List Bytes)
    → fill (p ++ zeros (length (concat cs))) (length p) cs ≡ p ++ concat cs
unfolding fill concat zeros
fill_at p [] = refl
fill_at p (c ∷ cs) =
    ap (λ n. fill (set_chunk (p ++ zeros n) (length p) c) (length p + length c) cs)
      (length-append c (concat cs))
    ∙ ap (λ z. fill (set_chunk (p ++ z) (length p) c) (length p + length c) cs)
        (zeros-add (length c) (length (concat cs)))
    ∙ ap (λ r. fill r (length p + length c) cs)
        (set_chunk_at p c (zeros (length (concat cs)))
          ∙ sym (append_assoc p c (zeros (length (concat cs)))))
    ∙ ap (λ n. fill (p ++ c ++ zeros (length (concat cs))) n cs) (sym (length-append p c))
    ∙ fill_at (p ++ c) cs
    ∙ append_assoc p c (concat cs)

-- What a stream with these bytes is read as.
abbrev bounded : ℕ → Bool → Bytes → Read
bounded maximum breaks_off bs =
    if ltb maximum (length bs)
    then http_error "body_limit_exceeded"
    else if breaks_off
    then stream_error
    else read bs

over_limit_early :
    (maximum : ℕ) (breaks_off : Bool) (bs cs : Bytes)
    → ltb maximum (length bs) ≡ true
    → bounded maximum breaks_off (bs ++ cs) ≡ http_error "body_limit_exceeded"
over_limit_early maximum breaks_off bs cs h =
    let long : ltb maximum (length (bs ++ cs)) ≡ true = ground (arith, h, length-append bs cs) in
    rw long refl

within_limit :
    (maximum : ℕ) (breaks_off : Bool) (bs : Bytes)
    → length bs ≤ maximum
    → bounded maximum breaks_off bs ≡ (if breaks_off then stream_error else read bs)
within_limit maximum breaks_off bs h =
    let short : ltb maximum (length bs) ≡ false = ground (arith, h) in rw short refl

one_more :
    (kept : List Bytes) (value : Bytes) → concat (kept ++ (value ∷ [])) ≡ concat kept ++ value
unfolding concat
one_more kept value =
    concat-append kept (value ∷ []) ∙ ap (λ bs. concat kept ++ bs) (append-nil value)

counted :
    (kept : List Bytes) (value : Bytes)
    → length (concat (kept ++ (value ∷ []))) ≡ length (concat kept) + length value
counted kept value = ap length (one_more kept value) ∙ length-append (concat kept) value

read_chunks_all :
    (maximum : ℕ) (breaks_off : Bool) (kept values : List Bytes)
    → length (concat kept) ≤ maximum
    → read_chunks maximum breaks_off kept (length (concat kept)) values
      ≡ bounded maximum breaks_off (concat kept ++ concat values)
unfolding read_chunks concat
read_chunks_all maximum breaks_off kept [] h =
    ap (λ bs. if breaks_off then stream_error else read bs) (fill_at [] kept)
    ∙ sym (within_limit maximum breaks_off (concat kept) h)
    ∙ ap (bounded maximum breaks_off) (sym (append-nil (concat kept)))
read_chunks_all maximum breaks_off kept (value ∷ values) h =
    elim (Bool-cases (ltb maximum (length (concat kept) + length value))) [
      | inl long ↦
          let early =
            over_limit_early maximum breaks_off (concat kept ++ value) (concat values)
              (ap (ltb maximum) (length-append (concat kept) value) ∙ long) in
          rw long (
            sym early
            ∙ ap (bounded maximum breaks_off) (append_assoc (concat kept) value (concat values)))
      | inr short ↦
          let later =
            read_chunks_all maximum breaks_off (kept ++ (value ∷ [])) values
              (ground (arith, counted kept value, short)) in
          rw short (
            ap (λ n. read_chunks maximum breaks_off (kept ++ (value ∷ [])) n values)
              (sym (counted kept value))
            ∙ later
            ∙ ap (λ bs. bounded maximum breaks_off (bs ++ concat values)) (one_more kept value)
            ∙ ap (bounded maximum breaks_off) (append_assoc (concat kept) value (concat values)))
    ]

-- What may be returned: an empty body for a message without one, and else the whole stream.
abbrev pub IsBody : Message → Bytes → Type 0
IsBody m bs =
    ((m.has_body ≡ false) × (bs ≡ []))
    ⊎ ((m.has_body ≡ true) × (m.breaks_off ≡ false) × (bs ≡ concat m.chunks))

bounded_iff :
    (maximum : ℕ) (breaks_off : Bool) (cs bs : Bytes)
    → (bounded maximum breaks_off cs ≡ read bs)
      ↔ ((length bs ≤ maximum) × (breaks_off ≡ false) × (bs ≡ cs))
bounded_iff maximum true cs bs = ground arith
bounded_iff maximum false cs bs = ground arith

-- A body is returned exactly if its declared length, where it is a number, does not exceed the
-- maximum, the bytes that arrive do not either, and the stream ends properly; it is then all the
-- bytes that arrive, in order, or nothing for a message without a body.
pub read_bounded_body_iff :
    (maximum : ℕ) (m : Message) (bs : Bytes)
    → (read_bounded_body maximum m ≡ read bs)
      ↔ ((declares_more maximum m.declared_length ≡ false) × (length bs ≤ maximum) × IsBody m bs)
unfolding read_bounded_body concat
read_bounded_body_iff maximum m bs =
    let all = read_chunks_all maximum m.breaks_off [] m.chunks (omega arith) in
    ground (arith, all, bounded_iff maximum m.breaks_off (concat m.chunks) bs)
