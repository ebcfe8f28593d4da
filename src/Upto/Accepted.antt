-- ===== src/Upto/Accepted.antt =====
-- upto-scheme.ts: what a payment that `verify` accepts satisfies, said without the order of the
-- checks.
use stellar_facilitator.Common.{
  ℕ, String, Bool, true, false, not, Option, none, some, List, [], ◌∷◌, ◌==◌, nat_eq, string_eq,
  includes,
}
use stellar_facilitator.Common.Check.{Check, pass, ◌>>=◌}
use stellar_facilitator.Upto.{
  Bytes, AuthEntry, HostFunction, invoke_contract, other_function, Operation, invoke_host_function,
  other_operation, Transaction, ParsedUptoTerms, PaymentPayload, PaymentRequirements,
  UptoStellarScheme, Sdk, Rpc,
}
use stellar_facilitator.Common.{◌≡◌, refl, arith, ==_iff, ◌∙◌, sym, ap}
use stellar_facilitator.Common.Int.{pos, AtMost, gtb_number_iff, eqb_ℤ-sound}
use stellar_facilitator.Common.Check.{
  refuse_if, >>=-eq-pass, refuse-eq-pass, refuse_if-eq-pass, attempt-eq-pass,
}
use stellar_facilitator.Upto.Verify.{
  Invocation, single_call, settle_args, malformed_unless, decode, match_terms, check_ledger,
}

unless-eq-pass {ℓ κ} :
    {A : Type ℓ} {B : Type κ} (o : Option A) (f : A → Check B) {b : B}
    → (malformed_unless o >>= f) ≡ pass b
    → (a : A) × (o ≡ some a) × (f a ≡ pass b)
unfolding malformed_unless
unless-eq-pass none f h = absurd (ground arith)
unless-eq-pass (some a) f h = (a, refl, h)

single_call_lem :
    (ops : List Operation) (f : HostFunction) (auth : List AuthEntry)
    → single_call ops ≡ pass (f, auth)
    → ops ≡ invoke_host_function (some f) auth ∷ []
unfolding single_call
single_call_lem [] f auth e = cc
single_call_lem (other_operation ∷ ops) f auth e = cc
single_call_lem (invoke_host_function none a ∷ ops) f auth e = cc
single_call_lem (invoke_host_function (some g) a ∷ []) f auth e = ground arith
single_call_lem (invoke_host_function (some g) a ∷ (o ∷ ops)) f auth e = cc

settle_args_lem :
    (id : String) (f : HostFunction) (x y : Bytes)
    → settle_args id f ≡ pass (x, y)
    → (more : List Bytes) × (f ≡ invoke_contract id "settle" (x ∷ (y ∷ more)))
unfolding settle_args refuse_if
settle_args_lem id other_function x y e = absurd (ground arith)
settle_args_lem id (invoke_contract c n []) x y e = absurd (ground arith)
settle_args_lem id (invoke_contract c n (a ∷ [])) x y e = absurd (ground arith)
settle_args_lem id (invoke_contract c n (a ∷ (b ∷ more))) x y e =
    (more, ground (arith, ==_iff c id, ==_iff n "settle"))

pub not-false : (b : Bool) → not b ≡ false → b ≡ true
not-false true h = refl
not-false false h = cc

parts :
    (a b : Invocation)
    → pass a ≡ pass b
    → (a.transaction ≡ b.transaction)
      × (a.auth ≡ b.auth)
      × (a.payer_arg ≡ b.payer_arg)
      × (a.terms_arg ≡ b.terms_arg)
parts a b e = (cc, cc, cc, cc)

assemble :
    {t t' : Transaction} {f : HostFunction} {auth auth' : List AuthEntry} {x x' y y' : Bytes}
    {more : List Bytes} {id : String}
    → t ≡ t'
    → t.operations ≡ invoke_host_function (some f) auth ∷ []
    → f ≡ invoke_contract id "settle" (x ∷ (y ∷ more))
    → auth ≡ auth'
    → x ≡ x'
    → y ≡ y'
    → t'.operations
      ≡ invoke_host_function (some (invoke_contract id "settle" (x' ∷ (y' ∷ more)))) auth' ∷ []
assemble e o f a x y = cc

module _ (sdk : Sdk) (rpc : Rpc) (scheme : UptoStellarScheme) where
  -- The envelope names this version, scheme and network, and its transaction is one call of `settle`
  -- on the configured contract.
  pub record IsDecoded (p : PaymentPayload) (r : PaymentRequirements) (c : Invocation)
      : Type 0 where
    pub version : p.x402_version ≡ 2
    pub schemes : (p.accepted_scheme ≡ "upto") × (r.scheme ≡ "upto")
    pub network : r.network ≡ p.accepted_network
    pub on_stellar : sdk.is_stellar_network r.network ≡ true
    pub passphrase : String
    pub passphrase_of : sdk.network_passphrase r.network ≡ some passphrase
    pub text : String
    pub text_of : p.transaction ≡ some text
    pub parsed : sdk.parse_transaction text passphrase ≡ some c.transaction
    pub more : List Bytes
    pub one_call :
        c.transaction.operations
        ≡ invoke_host_function
            (some
              (invoke_contract scheme.contract_id "settle" (c.payer_arg ∷ (c.terms_arg ∷ more))))
            c.auth
          ∷ []

  pub decode-IsDecoded :
      (p : PaymentPayload) (r : PaymentRequirements) (c : Invocation)
      → decode sdk rpc scheme p r ≡ pass c
      → IsDecoded p r c
  unfolding decode
  decode-IsDecoded p r c e0 =
      let (version, e1) = refuse-eq-pass _ _ _ _ e0 in
      let (schemes, e2) = refuse-eq-pass _ _ _ _ e1 in
      let (network, e3) = refuse-eq-pass _ _ _ _ e2 in
      let (on_stellar, e4) = refuse-eq-pass _ _ _ _ e3 in
      let (passphrase, passphrase_of, e5) = attempt-eq-pass _ _ e4 in
      let (text, text_of, e6) = unless-eq-pass _ _ e5 in
      let (transaction, parsed, e7) = unless-eq-pass _ _ e6 in
      let (call, called, e8) = >>=-eq-pass (single_call transaction.operations) _ e7 in
      let (args, has_args, e9) = >>=-eq-pass (settle_args scheme.contract_id call.0) _ e8 in
      let one = single_call_lem transaction.operations call.0 call.1 called in
      let (more, named) = settle_args_lem scheme.contract_id call.0 args.0 args.1 has_args in
      let (same_t, same_auth, same_payer, same_terms) = parts _ c e9 in
      record {
        version = ground (arith, version, ==_iff p.x402_version 2);
        schemes = (
          ground (arith, schemes, ==_iff p.accepted_scheme "upto"),
          ground (arith, schemes, ==_iff r.scheme "upto"),
        );
        network =
            (==_iff r.network p.accepted_network).0
              (not-false (r.network == p.accepted_network) network);
        on_stellar = not-false (sdk.is_stellar_network r.network) on_stellar;
        passphrase = passphrase;
        passphrase_of = passphrase_of;
        text = text;
        text_of = text_of;
        parsed = parsed ∙ ap some same_t;
        more = more;
        one_call = assemble same_t one named same_auth same_payer same_terms;
      }

  -- The signed terms name the payee, the asset and the ceiling that the payload accepted, a signer of
  -- this facilitator, and a payer that is none of its signers.
  pub record IsMatching (p : PaymentPayload) (r : PaymentRequirements) (t : ParsedUptoTerms)
      : Type 0 where
    pub stranger : includes scheme.signing_addresses t.payer ≡ false
    pub recipient : t.pay_to ≡ r.pay_to
    pub asset : t.token ≡ r.asset
    pub ceiling : sdk.big_int p.accepted_amount ≡ some t.max_amount
    pub designated : includes scheme.signing_addresses t.facilitator ≡ true

  pub match_terms-IsMatching :
      (p : PaymentPayload) (r : PaymentRequirements) (t : ParsedUptoTerms) {u : Unit {0}}
      → match_terms sdk rpc scheme p r t ≡ pass u
      → IsMatching p r t
  unfolding match_terms
  match_terms-IsMatching p r t e0 =
      let (stranger, e1) = refuse-eq-pass _ _ _ _ e0 in
      let (recipient, e2) = refuse-eq-pass _ _ _ _ e1 in
      let (asset, e3) = refuse-eq-pass _ _ _ _ e2 in
      let (expected, expected_of, e4) = attempt-eq-pass _ _ e3 in
      let (ceiling, e5) = refuse-eq-pass _ _ _ _ e4 in
      let designated = refuse_if-eq-pass _ _ _ e5 in
      record {
        stranger = stranger;
        recipient = (==_iff t.pay_to r.pay_to).0 (not-false _ recipient);
        asset = (==_iff t.token r.asset).0 (not-false _ asset);
        ceiling =
            expected_of ∙ ap some (sym (eqb_ℤ-sound t.max_amount expected (not-false _ ceiling)));
        designated = not-false _ designated;
      }

  -- At the ledger that the network reports, the terms are in force; a bound that is not a number
  -- counts as met.
  pub record IsInForce (t : ParsedUptoTerms) : Type 0 where
    pub current : ℕ
    pub reported : rpc.latest_ledger ≡ some current
    pub begun : AtMost t.valid_after (some (pos current))
    pub not_over : AtMost (some (pos current)) t.deadline

  pub check_ledger-IsInForce :
      (t : ParsedUptoTerms) {u : Unit {0}} → check_ledger sdk rpc scheme t ≡ pass u → IsInForce t
  unfolding check_ledger
  check_ledger-IsInForce t e0 =
      let (current, reported, e1) = attempt-eq-pass _ _ e0 in
      let (begun, e2) = refuse-eq-pass _ _ _ _ e1 in
      let over = refuse_if-eq-pass _ _ _ e2 in
      record {
        current = current;
        reported = reported;
        begun = (gtb_number_iff t.valid_after (some (pos current))).0 begun;
        not_over = (gtb_number_iff (some (pos current)) t.deadline).0 over;
      }
