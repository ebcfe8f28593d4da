-- ===== src/Gateway/Store/Lines.antt =====
-- gateway-service/src/store.ts: what `readLines` makes of the lines that `append` writes.
use mathlib.Core.List.{append-nil, append_assoc}
use stellar_facilitator.Common.{
  ◌≡◌, refl, sym, ap, ◌∙◌, inl, inr, true, false, Option, none, some, List, [], ◌∷◌, ◌++◌, ◌==◌,
  nat_eq, arith, Bool-cases, filter, includes, All,
}
use stellar_facilitator.Common.Check.{pass, ◌>>=◌, attempt}
use stellar_facilitator.Gateway.Store.{
  Text, Codec, newline, split_from, split, nonempty, parse_all, append_file, read_lines, works,
}

module _ {ℓ} {A : Type ℓ} (codec : Codec A) where
  -- The text of a value is one nonempty line, and is parsed as the value again.
  abbrev pub IsReadable : A → Type ℓ
  IsReadable a =
      (nonempty (codec.stringify a) ≡ true)
      × (includes (codec.stringify a) newline ≡ false)
      × (codec.parse (codec.stringify a) ≡ some a)

  -- What the file holds after these values were appended.
  unfoldable pub file_of : List A → Text
  file_of [] = []
  file_of (a ∷ rest) = codec.stringify a ++ (newline ∷ file_of rest)

split_from_line :
    (line l text : Text)
    → includes l newline ≡ false
    → split_from line (l ++ (newline ∷ text)) ≡ (line ++ l) ∷ split_from [] text
unfolding split_from
split_from_line line [] text h = ap (λ x. x ∷ split_from [] text) (sym (append-nil line))
split_from_line line (c ∷ l) text h = elim (Bool-cases (c == newline)) [
  | inl same ↦ absurd (ground (arith, same, h))
  | inr other ↦ rw other (
      split_from_line (line ++ (c ∷ [])) l text (ground (arith, other, h))
      ∙ ap (λ x. x ∷ split_from [] text) (append_assoc line (c ∷ []) l))
]

module _ {ℓ} {A : Type ℓ} (codec : Codec A) where
  parse_line :
      (a : A) (text : Text)
      → IsReadable codec a
      → parse_all codec (filter nonempty (split (codec.stringify a ++ (newline ∷ text))))
        ≡ (parse_all codec (filter nonempty (split text)) >>= λ rest. pass (a ∷ rest))
  unfolding parse_all attempt
  parse_line a text h =
      ap (λ lines. parse_all codec (filter nonempty lines))
        (split_from_line [] (codec.stringify a) text h.1)
      ∙ rw (h.0, h.2) refl

  parse-file_of :
      (vs : List A)
      → All (IsReadable codec) vs
      → parse_all codec (filter nonempty (split (file_of codec vs))) ≡ pass vs
  unfolding file_of split_from parse_all
  parse-file_of [] h = refl
  parse-file_of (a ∷ vs) h =
      parse_line a (file_of codec vs) h.0
      ∙ ap (λ m. m >>= λ rest. pass (a ∷ rest)) (parse-file_of vs h.1)

  -- The file of a list of values: none before the first value.
  unfoldable pub store_of : List A → Option Text
  store_of [] = none
  store_of (a ∷ vs) = some (file_of codec (a ∷ vs))

  file_of-append :
      (vs : List A) (a : A)
      → file_of codec (vs ++ (a ∷ [])) ≡ file_of codec vs ++ (codec.stringify a ++ (newline ∷ []))
  unfolding file_of
  file_of-append [] a = refl
  file_of-append (v ∷ vs) a =
      ap (λ t. codec.stringify v ++ (newline ∷ t)) (file_of-append vs a)
      ∙ sym (
          append_assoc (codec.stringify v) (newline ∷ file_of codec vs)
            (codec.stringify a ++ (newline ∷ [])))

  append_file-line :
      (l contents : Text)
      → append_file (l ++ (newline ∷ [])) (some contents) ≡ some (contents ++ (l ++ (newline ∷ [])))
  unfolding append_file
  append_file-line [] contents = refl
  append_file-line (c ∷ l) contents = refl

  append_file-new : (l : Text) → append_file (l ++ (newline ∷ [])) none ≡ some (l ++ (newline ∷ []))
  unfolding append_file
  append_file-new [] = refl
  append_file-new (c ∷ l) = refl

  pub append_file-store_of :
      (vs : List A) (a : A)
      → append_file (codec.stringify a ++ (newline ∷ [])) (store_of vs) ≡ store_of (vs ++ (a ∷ []))
  unfolding store_of file_of
  append_file-store_of [] a = append_file-new (codec.stringify a)
  append_file-store_of (v ∷ vs) a =
      append_file-line (codec.stringify a) (file_of codec (v ∷ vs))
      ∙ ap some (sym (file_of-append (v ∷ vs) a))

  -- A file that was written by appending readable values is read as these values, in order.
  pub read_lines-store_of :
      (vs : List A) → All (IsReadable codec) vs → read_lines codec works (store_of vs) ≡ pass vs
  unfolding read_lines store_of
  read_lines-store_of [] h = refl
  read_lines-store_of (v ∷ vs) h = parse-file_of (v ∷ vs) h
