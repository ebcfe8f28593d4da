-- ===== src/Catalog/Deltas.antt =====
-- bazaar-service/src/p2p/catalog-delta.ts: `verifyCatalogDelta` and the order of deltas.
--
-- A digest is the number that its 64 hexadecimal digits say: texts of one length are ordered as
-- these numbers. The signature and the address tests of the Stellar SDK are fields of the delta.
use stellar_facilitator.Common.{
  ℕ, ◌+◌, ◌-◌, String, ◌<>◌, Bool, true, false, not, ◌&&◌, ◌||◌, Option, none, some, List, ◌==◌,
  string_eq, nat_eq, if◌then◌else◌, ltb, includes,
}
use stellar_facilitator.Common.Int.{ℤ, pos, negsuc, ltb_ℤ}
use stellar_facilitator.Catalog.{ResourceType, Metadata}

pub data DeltaOp : Type 0 where
  upsert_op revoke_op : DeltaOp

-- `delta.state`, with what the live check and the settlement check answer for it.
pub record CatalogDeltaState : Type 0 where
  pub validation_url : String
  pub resource_type : ResourceType
  pub metadata : Metadata
  pub scheme : String
  pub asset : String
  pub amount : String
  pub settlement_tx : String

pub record CatalogDelta : Type 0 where
  pub op : DeltaOp
  pub resource_url : String
  pub tool_name : String
  pub pay_to : String
  pub network : String
  pub revision : ℕ
  pub issued_at : ℕ
  pub expires_at : ℕ
  pub state : Option CatalogDeltaState
  pub signer : String
  -- `catalogDeltaDigest(delta)`
  pub digest : ℕ
  -- Whether `CatalogDeltaSchema` parses it, and its signature verifies.
  pub parses : Bool
  pub signature_valid : Bool
  -- `isValidEd25519PublicKey` of the signer and of `payTo`, and `isValidContract` of `payTo`.
  pub signer_is_key : Bool
  pub pay_to_is_key : Bool
  pub pay_to_is_contract : Bool

abbrev authorizes : Option (List String) → String → Bool
authorizes none signer = false
authorizes (some signers) signer = includes signers signer

abbrev unauthorized : Option (List String) → String → Bool
unauthorized none signer = false
unauthorized (some signers) signer = not (includes signers signer)

-- Whether the signer may speak for `payTo`.
unfoldable pub speaks_for : Option (List String) → CatalogDelta → Bool
speaks_for signers d =
    if d.pay_to_is_key
    then d.signer == d.pay_to || authorizes signers d.signer
    else if d.pay_to_is_contract
    then authorizes signers d.signer
    else true

-- With the lifetime of 24 hours and the skew of 30 seconds; the options `expected…` are not given.
unfoldable pub verify_catalog_delta : Option (List String) → ℕ → CatalogDelta → Bool
verify_catalog_delta signers now d =
    d.parses
    && not (unauthorized signers d.signer)
    && d.signer_is_key
    && speaks_for signers d
    && d.signature_valid
    && not (ltb (now + 30) d.issued_at)
    && not (ltb d.expires_at now)
    && not (ltb 86400 (d.expires_at - d.issued_at))

abbrev sub_ℤ : ℕ → ℕ → ℤ
sub_ℤ a b = if ltb a b then negsuc (b - a - 1) else pos (a - b)

unfoldable pub compare_catalog_delta : CatalogDelta → CatalogDelta → ℤ
compare_catalog_delta a b =
    if not (a.revision == b.revision)
    then sub_ℤ a.revision b.revision
    else if a.digest == b.digest
    then pos 0
    else if ltb b.digest a.digest
    then pos 1
    else negsuc 0

abbrev pub is_positive : ℤ → Bool
is_positive n = ltb_ℤ (pos 0) n

unfoldable pub should_apply_catalog_delta : Option CatalogDelta → CatalogDelta → Bool
should_apply_catalog_delta none incoming = true
should_apply_catalog_delta (some current) incoming =
    is_positive (compare_catalog_delta incoming current)

abbrev pub catalog_delta_key : CatalogDelta → String
catalog_delta_key d = d.network <> ":" <> d.pay_to <> ":" <> d.resource_url <> ":" <> d.tool_name
