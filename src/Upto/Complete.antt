-- ===== src/Upto/Complete.antt =====
-- upto-scheme.ts: `_verify` accepts every payment that satisfies its conditions.
use stellar_facilitator.Common.{
  String, Bool, true, false, not, ◌||◌, Option, some, List, [], ◌∷◌, ◌==◌, ==_iff, ==_refl, nat_eq,
  string_eq, ◌≡◌, refl, arith, ◌∙◌, sym, ap, length,
}
use stellar_facilitator.Common.Int.{ℤ, pos, gtb_number_iff, eqb_ℤ_refl}
use stellar_facilitator.Common.Check.{Check, pass, ◌>>=◌, refuse_if, attempt}
use stellar_facilitator.Upto.{
  Bytes, AuthEntry, HostFunction, invoke_contract, Operation, invoke_host_function, Transaction,
  ParsedUptoTerms, PaymentPayload, PaymentRequirements, UptoStellarScheme, Sdk, Rpc,
}
use stellar_facilitator.Upto.Verify.{
  Invocation, single_call, settle_args, malformed_unless, decode, match_terms, check_ledger,
  check_terms, verify, check_from, conclude,
}
use stellar_facilitator.Common.{◌≢◌, All, ◌↔◌, inl, inr, subst}
use stellar_facilitator.Upto.Verify.{Verification}
use stellar_facilitator.Common.Int.{add_number}
use stellar_facilitator.Upto.{SimulateSuccess}
use stellar_facilitator.Upto.Verify.{
  check_replay, replay_state, read_settled_state, check_simulation, accept_simulation, base_fee,
  check_entries, validate_auth_entries, signature_expiration_ledger_tolerance,
}
use stellar_facilitator.Upto.Sound.{
  IsFresh, IsSimulated, IsForeign, IsAuthorized, IsAccepted, verify_cases,
}
use stellar_facilitator.Upto.Accepted.{IsDecoded, IsMatching, IsInForce}

refuse_passes {ℓ} :
    {B : Type ℓ} (test : Bool) (reason : String) (payer : Option String) (f : Unit {0} → Check B)
    {b : B}
    → test ≡ false
    → f tt ≡ pass b
    → (refuse_if test reason payer >>= f) ≡ pass b
unfolding refuse_if
refuse_passes true reason payer f h e = absurd (ground (arith, h))
refuse_passes false reason payer f h e = e

refuse_if_passes :
    (test : Bool) (reason : String) (payer : Option String)
    → test ≡ false
    → refuse_if test reason payer ≡ pass tt
unfolding refuse_if
refuse_if_passes true reason payer h = absurd (ground (arith, h))
refuse_if_passes false reason payer h = refl

attempt_passes {ℓ κ} :
    {A : Type ℓ} {B : Type κ} (o : Option A) (f : A → Check B) {b : B} {a : A}
    → o ≡ some a
    → f a ≡ pass b
    → (attempt o >>= f) ≡ pass b
unfolding attempt
attempt_passes o f h e = rw h e

unless_passes {ℓ κ} :
    {A : Type ℓ} {B : Type κ} (o : Option A) (f : A → Check B) {b : B} {a : A}
    → o ≡ some a
    → f a ≡ pass b
    → (malformed_unless o >>= f) ≡ pass b
unfolding malformed_unless
unless_passes o f h e = rw h e

then_passes {ℓ κ} :
    {A : Type ℓ} {B : Type κ} (m : Check A) (f : A → Check B) {b : B} {a : A}
    → m ≡ pass a
    → f a ≡ pass b
    → (m >>= f) ≡ pass b
then_passes m f h e = rw h e

not-true : (b : Bool) → b ≡ true → not b ≡ false
not-true b h = rw h refl

same_passes : (a b : String) → a ≡ b → not (a == b) ≡ false
same_passes a b h = not-true (a == b) ((==_iff a b).1 h)

neither : (a b : Bool) → a ≡ false → b ≡ false → (a || b) ≡ false
neither a b h k = ground (arith, h, k)

call_passes :
    (ops : List Operation) (f : HostFunction) (auth : List AuthEntry)
    → ops ≡ invoke_host_function (some f) auth ∷ []
    → single_call ops ≡ pass (f, auth)
unfolding single_call
call_passes ops f auth h = rw h refl

args_pass :
    (id : String) (x y : Bytes) (more : List Bytes)
    → settle_args id (invoke_contract id "settle" (x ∷ (y ∷ more))) ≡ pass (x, y)
unfolding settle_args
args_pass id x y more =
    refuse_passes _ _ _ _ (not-true (id == id) (==_refl id)) (refuse_passes _ _ _ _ refl refl)

module _ (sdk : Sdk) (rpc : Rpc) (scheme : UptoStellarScheme) where
  match_terms_passes :
      (p : PaymentPayload) (r : PaymentRequirements) (t : ParsedUptoTerms)
      → IsMatching sdk rpc scheme p r t
      → match_terms sdk rpc scheme p r t ≡ pass tt
  unfolding match_terms
  match_terms_passes p r t m = refuse_passes _ _ _ _ m.stranger (
      refuse_passes _ _ _ _ (same_passes _ _ m.recipient) (
        refuse_passes _ _ _ _ (same_passes _ _ m.asset) (
          attempt_passes _ _ m.ceiling (
            refuse_passes _ _ _ _ (not-true _ (eqb_ℤ_refl t.max_amount))
              (refuse_if_passes _ _ _ (not-true _ m.designated))))))

  check_ledger_passes :
      (t : ParsedUptoTerms) → IsInForce sdk rpc scheme t → check_ledger sdk rpc scheme t ≡ pass tt
  unfolding check_ledger
  check_ledger_passes t f = attempt_passes _ _ f.reported (
      refuse_passes _ _ _ _ ((gtb_number_iff t.valid_after (some (pos f.current))).1 f.begun)
        (refuse_if_passes _ _ _ ((gtb_number_iff (some (pos f.current)) t.deadline).1 f.not_over)))

  check_replay_passes :
      (t : ParsedUptoTerms) → IsFresh sdk rpc scheme t → check_replay sdk rpc scheme t ≡ pass tt
  unfolding check_replay replay_state read_settled_state refuse_if
  check_replay_passes t f = ground (arith, f.ours, f.account, f.not_settled)

  check_simulation_passes :
      (transaction : Transaction) (t : ParsedUptoTerms) (sim : SimulateSuccess)
      → IsSimulated sdk rpc scheme transaction sim
      → check_simulation sdk rpc scheme transaction t ≡ pass sim
  unfolding check_simulation accept_simulation
  check_simulation_passes transaction t sim s = attempt_passes _ _ s.simulated (
      refuse_passes _ _ _ _
        ((gtb_number_iff (add_number sim.min_resource_fee base_fee)
            (some (pos scheme.max_transaction_fee_stroops))).1
          s.affordable)
        refl)

  check_entries_passes :
      (payer : String) (max_ledger : Option ℤ) (entries : List AuthEntry)
      → All (IsForeign sdk rpc scheme max_ledger) entries
      → check_entries sdk rpc scheme payer max_ledger entries ≡ pass tt
  unfolding check_entries
  check_entries_passes payer max_ledger [] h = refl
  check_entries_passes payer max_ledger (entry ∷ entries) h =
      rw (h.0.of_address, check_entries)
        (refuse_passes _ _ _ _ h.0.not_ours (
          refuse_passes _ _ _ _
            ((gtb_number_iff (some (pos h.0.expiration))
                (add_number max_ledger signature_expiration_ledger_tolerance)).1
              h.0.expires)
            (check_entries_passes payer max_ledger entries h.1)))

  some_entry : (entries : List AuthEntry) → entries ≢ [] → (length entries == 0) ≡ false
  some_entry [] h = absurd (h refl)
  some_entry (entry ∷ entries) h = ground arith

  validate_passes :
      (c : Invocation) (t : ParsedUptoTerms) (sim : SimulateSuccess)
      → IsAuthorized sdk rpc scheme c t sim
      → validate_auth_entries sdk rpc scheme c t sim ≡ pass tt
  unfolding validate_auth_entries
  validate_passes c t sim a = refuse_passes _ _ _ _ (some_entry c.auth a.present) (
      then_passes _ _ (check_entries_passes t.payer t.deadline c.auth a.foreign)
        (attempt_passes _ _ a.signed (refuse_if_passes _ _ _ (not-true _ a.by_payer))))

  decode_passes :
      (p : PaymentPayload) (r : PaymentRequirements) (c : Invocation)
      → IsDecoded sdk rpc scheme p r c
      → decode sdk rpc scheme p r ≡ pass c
  unfolding decode
  decode_passes p r c d =
      refuse_passes _ _ _ _ (not-true _ ((==_iff p.x402_version 2).1 d.version)) (
        refuse_passes _ _ _ _
          (neither _ _ (same_passes _ _ d.schemes.0) (same_passes _ _ d.schemes.1))
          (refuse_passes _ _ _ _ (same_passes _ _ d.network) (
            refuse_passes _ _ _ _ (not-true _ d.on_stellar) (
              attempt_passes _ _ d.passphrase_of (
                unless_passes _ _ d.text_of (
                  unless_passes _ _ d.parsed (
                    then_passes _ _ (call_passes _ _ _ d.one_call) (
                      then_passes _ _ (args_pass scheme.contract_id c.payer_arg c.terms_arg d.more)
                        refl))))))))

  check_terms_passes :
      (p : PaymentPayload) (r : PaymentRequirements) (t : ParsedUptoTerms)
      (a : IsAccepted sdk rpc scheme p r t)
      → check_terms sdk rpc scheme p r a.call t.payer ≡ pass t
  unfolding check_terms
  check_terms_passes p r t a = then_passes _ _ a.parsed (
      then_passes _ _ (match_terms_passes p r t a.matching) (
        then_passes _ _ (check_ledger_passes t a.in_force) (
          then_passes _ _ (check_replay_passes t a.fresh) (
            then_passes _ _ (check_simulation_passes a.call.transaction t a.sim a.simulated)
              (then_passes _ _ (validate_passes a.call t a.sim a.authorized) refl)))))

  verify_passes :
      (p : PaymentPayload) (r : PaymentRequirements) (t : ParsedUptoTerms)
      → IsAccepted sdk rpc scheme p r t
      → verify sdk rpc scheme p r ≡ conclude (some t.payer) (pass t)
  unfolding verify check_from
  verify_passes p r t a =
      rw (decode_passes p r a.call a.decoded, verify, a.from, check_from)
        (ap (conclude (some t.payer)) (check_terms_passes p r t a))

  concluded :
      (t t' : ParsedUptoTerms)
      → conclude (some t'.payer) (pass t') ≡ conclude (some t.payer) (pass t)
      → t' ≡ t
  unfolding conclude
  concluded t t' e = parts (ap (λ (v : Verification). v.parsed_terms) e)
    where
      parts : some t' ≡ some t → t' ≡ t
      parts h = cc

  IsAccepted-only :
      (p : PaymentPayload) (r : PaymentRequirements) (t : ParsedUptoTerms)
      → verify sdk rpc scheme p r ≡ conclude (some t.payer) (pass t)
      → IsAccepted sdk rpc scheme p r t
  unfolding conclude
  IsAccepted-only p r t e = elim (verify_cases sdk rpc scheme p r) [
    | inl (t', accepted, found) ↦
        subst (IsAccepted sdk rpc scheme p r) (concluded t t' (sym found ∙ e)) accepted
    | inr (reason, payer, refused) ↦
        absurd (not_valid (ap (λ (v : Verification). v.response.is_valid) (sym refused ∙ e)))
  ]
    where
      not_valid : false ≡ true → ⊥
      not_valid h = cc

  -- Verification accepts with the terms `t` exactly if: the payload is one call of `settle` on the
  -- configured contract, and `t` is what its arguments say; the terms name the payee, the asset and
  -- the ceiling of the request, a payer that is none of our signers and a facilitator that is; they
  -- are in force at the reported ledger; the contract says that they are not settled yet; the call
  -- simulates within the fee limit; and every authorization entry is foreign and in time, with the
  -- payer among those who signed.
  pub IsAccepted-iff :
      (p : PaymentPayload) (r : PaymentRequirements) (t : ParsedUptoTerms)
      → (verify sdk rpc scheme p r ≡ conclude (some t.payer) (pass t))
        ↔ IsAccepted sdk rpc scheme p r t
  IsAccepted-iff p r t = (IsAccepted-only p r t, verify_passes p r t)
