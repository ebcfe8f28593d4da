-- ===== src/Upto/Sound.antt =====
-- upto-scheme.ts: `verify` accepts only what it should, and says why it refuses.
use stellar_facilitator.Common.{
  ℕ, String, true, false, Option, none, some, List, [], ◌∷◌, nat_eq, string_eq, includes, length,
}
use stellar_facilitator.Common.Int.{ℤ, pos, add_number}
use stellar_facilitator.Common.Check.{pass, reject}
use stellar_facilitator.Upto.{
  Bytes, Credentials, address_credentials, other_credentials, AuthEntry, Transaction,
  ParsedUptoTerms, PaymentPayload, PaymentRequirements, UptoStellarScheme, SimulateSuccess,
  Simulation, sim_success, sim_error, reading, Sdk, Rpc,
}
use stellar_facilitator.Common.{
  ◌≡◌, ◌≢◌, refl, arith, ◌⊎◌, inl, inr, Option-cases, All, ◌∙◌, sym, ap, subst,
}
use stellar_facilitator.Common.Int.{AtMost, gtb_number_iff}
use stellar_facilitator.Common.Check.{
  Check-cases, refuse_if, >>=-eq-pass, refuse-eq-pass, refuse_if-eq-pass, attempt-eq-pass,
}
use stellar_facilitator.Upto.Verify.{
  Invocation, Verification, conclude, decode, parse_terms, match_terms, check_ledger,
  read_settled_state, replay_state, check_replay, apply_auth_entries, accept_simulation,
  check_simulation, check_entries, validate_auth_entries, check_terms, check_from, verify, base_fee,
  signature_expiration_ledger_tolerance,
}
use stellar_facilitator.Upto.Accepted.{
  IsDecoded, decode-IsDecoded, IsMatching, match_terms-IsMatching, IsInForce,
  check_ledger-IsInForce, not-false,
}

module _ (sdk : Sdk) (rpc : Rpc) (scheme : UptoStellarScheme) where
  -- The contract, asked by the first of our signers, says that it has not settled this id for this payer.
  pub record IsFresh (t : ParsedUptoTerms) : Type 0 where
    pub reader : String
    pub others : List String
    pub ours : scheme.signing_addresses ≡ reader ∷ others
    pub sequence : ℕ
    pub account : rpc.get_account reader ≡ some sequence
    pub not_settled :
        rpc.simulate_is_settled scheme.contract_id reader sequence t.payer t.settlement_id
        ≡ some (reading (some false))

  read_settled_state_lem :
      (reader : String) (t : ParsedUptoTerms)
      → read_settled_state sdk rpc scheme reader t ≡ some false
      → (sequence : ℕ) × (rpc.get_account reader ≡ some sequence)
        × (rpc.simulate_is_settled scheme.contract_id reader sequence t.payer t.settlement_id
            ≡ some (reading (some false)))
  unfolding read_settled_state
  read_settled_state_lem reader t e = elim (Option-cases (rpc.get_account reader)) [
    | inl gone ↦ absurd (ground arith)
    | inr (sequence, account) ↦ (sequence, account, ground arith)
  ]

  check_replay-IsFresh :
      (t : ParsedUptoTerms) {u : Unit {0}} → check_replay sdk rpc scheme t ≡ pass u → IsFresh t
  unfolding check_replay replay_state refuse_if
  check_replay-IsFresh t e = go scheme.signing_addresses refl
    where
      go : (l : List String) → scheme.signing_addresses ≡ l → IsFresh t
      go [] h = absurd (ground arith)
      go (reader ∷ rest) h =
          let (sequence, account, not_settled) = read_settled_state_lem reader t (ground arith) in
          record {
            reader = reader;
            others = rest;
            ours = h;
            sequence = sequence;
            account = account;
            not_settled = not_settled;
          }

  -- The call without authorization entries simulates, at a fee within the limit.
  pub record IsSimulated (transaction : Transaction) (sim : SimulateSuccess) : Type 0 where
    pub simulated :
        rpc.simulate (apply_auth_entries sdk rpc scheme [] transaction) ≡ some (sim_success sim)
    pub affordable :
        AtMost
          (add_number sim.min_resource_fee base_fee)
          (some (pos scheme.max_transaction_fee_stroops))

  check_simulation-IsSimulated :
      (transaction : Transaction) (t : ParsedUptoTerms) (sim : SimulateSuccess)
      → check_simulation sdk rpc scheme transaction t ≡ pass sim
      → IsSimulated transaction sim
  unfolding check_simulation accept_simulation
  check_simulation-IsSimulated transaction t sim e0 =
      let (answer, answered, e1) = attempt-eq-pass _ _ e0 in go answer answered e1
    where
      go :
          (answer : Simulation)
          → rpc.simulate (apply_auth_entries sdk rpc scheme [] transaction) ≡ some answer
          → accept_simulation sdk rpc scheme t answer ≡ pass sim
          → IsSimulated transaction sim
      go sim_error h e = absurd (ground arith)
      go (sim_success s) h e =
          let (fee, e2) = refuse-eq-pass _ _ _ _ e in
          let same : s ≡ sim = cc in
          record {
            simulated = h ∙ cc;
            affordable =
                subst
                  (λ (x : SimulateSuccess).
                    AtMost (add_number x.min_resource_fee base_fee)
                      (some (pos scheme.max_transaction_fee_stroops)))
                  same ((gtb_number_iff _ _).0 fee);
          }

  -- An entry that the payer's wallet may carry: an address's, not ours, that does not outlive the
  -- deadline by more than the tolerance.
  pub record IsForeign (max_ledger : Option ℤ) (entry : AuthEntry) : Type 0 where
    pub address : String
    pub expiration : ℕ
    pub of_address : entry.credentials ≡ address_credentials address expiration
    pub not_ours : includes scheme.signing_addresses address ≡ false
    pub expires :
        AtMost (some (pos expiration)) (add_number max_ledger signature_expiration_ledger_tolerance)

  check_entries-IsForeign :
      (payer : String) (max_ledger : Option ℤ) (entries : List AuthEntry)
      → check_entries sdk rpc scheme payer max_ledger entries ≡ pass tt
      → All (IsForeign max_ledger) entries
  unfolding check_entries
  check_entries-IsForeign payer max_ledger [] e = tt
  check_entries-IsForeign payer max_ledger (entry ∷ entries) e =
      go entry.credentials refl (check_entries-IsForeign payer max_ledger entries)
    where
      go :
          (c : Credentials)
          → entry.credentials ≡ c
          → (check_entries sdk rpc scheme payer max_ledger entries ≡ pass tt
              → All (IsForeign max_ledger) entries)
          → All (IsForeign max_ledger) (entry ∷ entries)
      go other_credentials h ih = absurd (ground arith)
      go (address_credentials address expiration) h ih =
          let (not_ours, e1) = refuse-eq-pass _ _ _ _ (rw h at e) in
          let (expires, e2) = refuse-eq-pass _ _ _ _ e1 in
          (
            record {
              address = address;
              expiration = expiration;
              of_address = h;
              not_ours = not_ours;
              expires = (gtb_number_iff (some (pos expiration)) _).0 expires;
            },
            ih e2,
          )

  -- There are authorization entries, each is foreign, and the payer has signed.
  pub record IsAuthorized (c : Invocation) (t : ParsedUptoTerms) (sim : SimulateSuccess)
      : Type 0 where
    pub present : c.auth ≢ []
    pub foreign : All (IsForeign t.deadline) c.auth
    pub signers : List String
    pub signed : sdk.already_signed c.transaction sim ≡ some signers
    pub by_payer : includes signers t.payer ≡ true

  validate-IsAuthorized :
      (c : Invocation) (t : ParsedUptoTerms) (sim : SimulateSuccess)
      → validate_auth_entries sdk rpc scheme c t sim ≡ pass tt
      → IsAuthorized c t sim
  unfolding validate_auth_entries
  validate-IsAuthorized c t sim e0 =
      let (present, e1) = refuse-eq-pass _ _ _ _ e0 in
      let (_, foreign, e2) =
        >>=-eq-pass (check_entries sdk rpc scheme t.payer t.deadline c.auth) _ e1 in
      let (signers, signed, e3) = attempt-eq-pass _ _ e2 in
      record {
        present = λ h. absurd (ground (arith, present, ap length h));
        foreign = check_entries-IsForeign t.payer t.deadline c.auth foreign;
        signers = signers;
        signed = signed;
        by_payer = not-false _ (refuse_if-eq-pass _ _ _ e3);
      }

  -- All of it.
  pub record IsAccepted (p : PaymentPayload) (r : PaymentRequirements) (t : ParsedUptoTerms)
      : Type 0 where
    pub call : Invocation
    pub decoded : IsDecoded sdk rpc scheme p r call
    pub from : sdk.native_address call.payer_arg ≡ some t.payer
    pub parsed : parse_terms sdk rpc scheme t.payer call.terms_arg ≡ pass t
    pub matching : IsMatching sdk rpc scheme p r t
    pub in_force : IsInForce sdk rpc scheme t
    pub fresh : IsFresh t
    pub sim : SimulateSuccess
    pub simulated : IsSimulated call.transaction sim
    pub authorized : IsAuthorized call t sim

  parse_terms_payer :
      (payer : String) (arg : Bytes) (t : ParsedUptoTerms)
      → parse_terms sdk rpc scheme payer arg ≡ pass t
      → t.payer ≡ payer
  unfolding parse_terms
  parse_terms_payer payer arg t e0 =
      let (raw, _, e1) = attempt-eq-pass _ _ e0 in
      let (amount, _, e2) = attempt-eq-pass _ _ e1 in cc

  check_terms_lem :
      (p : PaymentPayload) (r : PaymentRequirements) (c : Invocation) (payer : String)
      (t : ParsedUptoTerms)
      → decode sdk rpc scheme p r ≡ pass c
      → sdk.native_address c.payer_arg ≡ some payer
      → check_terms sdk rpc scheme p r c payer ≡ pass t
      → IsAccepted p r t
  unfolding check_terms
  check_terms_lem p r c payer t decoded from e0 =
      let (t', parsed, e1) = >>=-eq-pass (parse_terms sdk rpc scheme payer c.terms_arg) _ e0 in
      let (_, matching, e2) = >>=-eq-pass (match_terms sdk rpc scheme p r t') _ e1 in
      let (_, in_force, e3) = >>=-eq-pass (check_ledger sdk rpc scheme t') _ e2 in
      let (_, fresh, e4) = >>=-eq-pass (check_replay sdk rpc scheme t') _ e3 in
      let (sim, simulated, e5) =
        >>=-eq-pass (check_simulation sdk rpc scheme c.transaction t') _ e4 in
      let (_, authorized, e6) = >>=-eq-pass (validate_auth_entries sdk rpc scheme c t' sim) _ e5 in
      let same : t' ≡ t = cc in
      let payer_of = parse_terms_payer payer c.terms_arg t' parsed in
      subst (IsAccepted p r) same (record {
        call = c;
        decoded = decode-IsDecoded sdk rpc scheme p r c decoded;
        from = from ∙ ap some (sym payer_of);
        parsed = rw payer_of parsed;
        matching = match_terms-IsMatching sdk rpc scheme p r t' matching;
        in_force = check_ledger-IsInForce sdk rpc scheme t' in_force;
        fresh = check_replay-IsFresh t' fresh;
        sim = sim;
        simulated = check_simulation-IsSimulated c.transaction t' sim simulated;
        authorized = validate-IsAuthorized c t' sim authorized;
      })

  -- Accepted with the terms that satisfy all of it, or refused with a reason.
  abbrev pub Decided : PaymentPayload → PaymentRequirements → Verification → Type 0
  Decided p r v =
      ((t : ParsedUptoTerms) × IsAccepted p r t × (v ≡ conclude (some t.payer) (pass t)))
      ⊎ ((reason : String) × (payer : Option String) × (v ≡ conclude payer (reject reason payer)))

  check_from_cases :
      (p : PaymentPayload) (r : PaymentRequirements) (c : Invocation)
      → decode sdk rpc scheme p r ≡ pass c
      → Decided p r (check_from sdk rpc scheme p r c)
  unfolding check_from conclude
  check_from_cases p r c decoded = elim (Option-cases (sdk.native_address c.payer_arg)) [
    | inl gone ↦ rw (gone, check_from) (inr ("unexpected_verify_error", none, refl))
    | inr (payer, from) ↦ elim (Check-cases (check_terms sdk rpc scheme p r c payer)) [
      | inl (t, passed) ↦
          rw (from, check_from, passed)
            (inl (t, check_terms_lem p r c payer t decoded from passed, refl))
      | inr (inl (reason, named, refused)) ↦
          rw (from, check_from, refused) (inr (reason, named, refl))
      | inr (inr thrown) ↦
          rw (from, check_from, thrown) (inr ("unexpected_verify_error", some payer, refl))
    ]
  ]

  pub verify_cases :
      (p : PaymentPayload) (r : PaymentRequirements) → Decided p r (verify sdk rpc scheme p r)
  unfolding verify conclude
  verify_cases p r = elim (Check-cases (decode sdk rpc scheme p r)) [
    | inl (c, decoded) ↦ rw (decoded, verify) (check_from_cases p r c decoded)
    | inr (inl (reason, named, refused)) ↦ rw (refused, verify) (inr (reason, named, refl))
    | inr (inr thrown) ↦ rw (thrown, verify) (inr ("unexpected_verify_error", none, refl))
  ]
