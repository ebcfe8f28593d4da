-- ===== src/Upto/Charge.antt =====
-- upto-scheme.ts: what `settle` sends to the network, on every path.
use stellar_facilitator.Common.{
  ℕ, String, Bool, true, ◌||◌, Option, some, List, [], ◌∷◌, ◌==◌, string_eq, includes, find,
}
use stellar_facilitator.Common.Check.{pass, attempt}
use stellar_facilitator.Upto.{
  Bytes, Credentials, address_credentials, other_credentials, AuthEntry, ParsedUptoTerms,
  PaymentPayload, PaymentRequirements, UptoStellarScheme, Sdk, Rpc,
}
use stellar_facilitator.Common.{
  ◌≡◌, refl, arith, inl, inr, ==_iff, Bool-cases, Option-cases, ◌∙◌, ap, subst,
}
use stellar_facilitator.Common.Int.{Within, Within-of_tests}
use stellar_facilitator.Common.Check.{>>=-eq-pass, refuse-eq-pass, attempt-eq-pass}
use stellar_facilitator.Upto.Settle.{
  SettleCall, Ledger, read_result_digest, require_digest, or_sign, sign_entry, sign_entries,
  build_call, is_entry_of,
}

-- The lists correspond, entry by entry.
abbrev pub Each {ℓ} : {A : Type ℓ} → (A → A → Type 0) → List A → List A → Type 0
Each R [] [] = Unit
Each R (x ∷ xs) (y ∷ ys) = R x y × Each R xs ys
Each R _ _ = ⊥

module _ (sdk : Sdk) (rpc : Rpc) (ledger : Ledger) (scheme : UptoStellarScheme) where
  -- The call charges what the request says, which is neither negative nor above the ceiling that the
  -- payer signed, with a digest of the result, from the account of the facilitator in the terms.
  pub record IsWithinTerms (p : PaymentPayload) (r : PaymentRequirements) (c : SettleCall)
      : Type 0 where
    pub charge : sdk.big_int r.amount ≡ some c.actual
    pub ceiling : Within c.actual c.terms.max_amount
    pub from : c.payer ≡ c.terms.payer
    pub source : c.source ≡ c.terms.facilitator
    pub text : String
    pub text_of : p.result_digest ≡ some text
    pub digest : sdk.sha256_digest text ≡ some c.result_digest

  require_digest_lem :
      (p : PaymentPayload) (payer : String) (d : Bytes)
      → require_digest sdk rpc ledger scheme p payer ≡ pass d
      → (text : String) × (p.result_digest ≡ some text) × (sdk.sha256_digest text ≡ some d)
  unfolding require_digest read_result_digest
  require_digest_lem p payer d e = elim (Option-cases p.result_digest) [
    | inl gone ↦ absurd (ground arith)
    | inr (text, text_of) ↦ (text, text_of, ground arith)
  ]

  pub build_call-IsWithinTerms :
      (selected : Option String) (p : PaymentPayload) (r : PaymentRequirements)
      (t : ParsedUptoTerms) (c : SettleCall)
      → build_call sdk rpc ledger scheme selected p r t ≡ pass c
      → (c.terms ≡ t) × IsWithinTerms p r c
  unfolding build_call
  build_call-IsWithinTerms selected p r t c e0 =
      let (chosen, e1) = refuse-eq-pass _ _ _ _ e0 in
      let (ours, e2) = refuse-eq-pass _ _ _ _ e1 in
      let (sequence, account, e3) = attempt-eq-pass _ _ e2 in
      let (actual, charge, e4) = attempt-eq-pass _ _ e3 in
      let (not_negative, e5) = refuse-eq-pass _ _ _ _ e4 in
      let (not_above, e6) = refuse-eq-pass _ _ _ _ e5 in
      let (d, digest_of, e7) = >>=-eq-pass (require_digest sdk rpc ledger scheme p t.payer) _ e6 in
      let (text, text_of, digest) = require_digest_lem p t.payer d digest_of in
      subst (λ (x : SettleCall). (x.terms ≡ t) × IsWithinTerms p r x) (same e7)
        (
          refl,
          record {
            charge = charge;
            ceiling = Within-of_tests actual t.max_amount not_negative not_above;
            from = refl;
            source = refl;
            text = text;
            text_of = text_of;
            digest = digest;
          },
        )
    where
      same : {a b : SettleCall} → pass a ≡ pass b → a ≡ b
      same h = cc

  -- Each entry that is sent is the payer's own, or was simulated and is sent as it came, or was
  -- simulated for one of our addresses and is sent as our signer authorized it until the deadline.
  pub data IsSentAs (c : SettleCall) (client : List AuthEntry)
      : AuthEntry → AuthEntry → Type 0 where
    own :
        {entry mine : AuthEntry}
        → find (is_entry_of c.payer) client ≡ some mine
        → is_entry_of c.payer entry ≡ true
        → IsSentAs c client entry mine
    untouched : {entry : AuthEntry} → IsSentAs c client entry entry
    ours :
        {entry done : AuthEntry} (address : String) (expiration : ℕ)
        → entry.credentials ≡ address_credentials address expiration
        → includes (c.source ∷ scheme.signing_addresses) address ≡ true
        → sdk.authorize_entry entry c.source c.terms.deadline ≡ some done
        → IsSentAs c client entry done

  or_sign-IsSentAs :
      (c : SettleCall) (client : List AuthEntry) (entry done : AuthEntry) (address : String)
      (expiration : ℕ)
      → entry.credentials ≡ address_credentials address expiration
      → or_sign sdk rpc ledger scheme c address entry ≡ pass done
      → IsSentAs c client entry done
  unfolding or_sign attempt
  or_sign-IsSentAs c client entry done address expiration h e = elim (Bool-cases test) [
    | inr other ↦ subst (IsSentAs c client entry) (ground (arith, other)) untouched
    | inl mine ↦ elim (Option-cases (sdk.authorize_entry entry c.source c.terms.deadline)) [
      | inl gone ↦ absurd (ground (arith, mine))
      | inr (x, signed) ↦
          ours address expiration h
            (ground (arith, mine, ==_iff address c.source, ==_iff c.source address))
            (ground (arith, mine))
    ]
  ]
    where
      test : Bool
      test = includes scheme.signing_addresses address || address == c.source

  sign_entry-IsSentAs :
      (c : SettleCall) (client : List AuthEntry) (entry done : AuthEntry)
      → sign_entry sdk rpc ledger scheme c client entry ≡ pass done
      → IsSentAs c client entry done
  unfolding sign_entry is_entry_of
  sign_entry-IsSentAs c client entry done e = go entry.credentials refl
    where
      go : (k : Credentials) → entry.credentials ≡ k → IsSentAs c client entry done
      go other_credentials h = subst (IsSentAs c client entry) (ground arith) untouched
      go (address_credentials address expiration) h = elim (Bool-cases (address == c.payer)) [
        | inr other ↦
            or_sign-IsSentAs c client entry done address expiration h (ground (arith, other))
        | inl payers ↦ elim (Option-cases (find (is_entry_of c.payer) client)) [
          | inl gone ↦
              or_sign-IsSentAs c client entry done address expiration h
                (ground (arith, payers, gone))
          | inr (mine, found) ↦ own (found ∙ ap some (ground (arith, payers, found))) (rw h payers)
        ]
      ]

  pub sign_entries-IsSentAs :
      (c : SettleCall) (client entries done : List AuthEntry)
      → sign_entries sdk rpc ledger scheme c client entries ≡ pass done
      → Each (IsSentAs c client) entries done
  unfolding sign_entries
  sign_entries-IsSentAs c client [] done e =
      let none_left : [] ≡ done = cc in subst (Each (IsSentAs c client) []) none_left tt
  sign_entries-IsSentAs c client (entry ∷ entries) done e0 =
      let (first, signed, e1) =
        >>=-eq-pass (sign_entry sdk rpc ledger scheme c client entry) _ e0 in
      let (others, rest, e2) =
        >>=-eq-pass (sign_entries sdk rpc ledger scheme c client entries) _ e1 in
      subst (Each (IsSentAs c client) (entry ∷ entries)) (same e2) (
        sign_entry-IsSentAs c client entry first signed,
        sign_entries-IsSentAs c client entries others rest,
      )
    where
      same : {a b : List AuthEntry} → pass a ≡ pass b → a ≡ b
      same h = cc
