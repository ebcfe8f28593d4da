-- ===== src/Catalog/Tests.antt =====
-- The catalog's theorems at concrete inputs.
use stellar_facilitator.Common.{
  ◌≤◌, inl, inr, ◌≡◌, refl, String, true, false, none, some, List, [], ◌∷◌, string_eq, map_get,
  map_set,
}
use stellar_facilitator.Catalog.{ResourceType, Metadata, CatalogResource, VerificationStatus}
use stellar_facilitator.Catalog.Extension.{
  Json, text, array, object, item, no_items, member, no_members, Text, external_text, is_external,
  to_lower_case, is_reference_key, starts_with, validate_json_spec, validate_items,
  validate_members, BazaarExtension,
}
use stellar_facilitator.Catalog.Extension.External.{IsLocal}
use stellar_facilitator.Catalog.Extension.References.{value_at, validate_json_spec-none}
use stellar_facilitator.Catalog.Deltas.{
  revoke_op, CatalogDelta, catalog_delta_key, verify_catalog_delta, speaks_for,
  should_apply_catalog_delta, compare_catalog_delta,
}
use stellar_facilitator.Catalog.Ingestion.{ingest, Action, ingests, applies, revalidates, act_all}
use stellar_facilitator.Catalog.Arbitration.{
  apply_catalog_delta, carry_out, record_delta, revoke_rows,
}
use stellar_facilitator.Catalog.Calls.{
  Catalog, empty_catalog, IngestionRequest, Outside, LivePaymentTermsResult,
}
use stellar_facilitator.Catalog.Ownership.{owner, act_all_keeps_owner}
use stellar_facilitator.Catalog.Uniqueness.{IsUnique, act_all-IsUnique}
use stellar_facilitator.Catalog.Convergence.{
  Occurs, IsSame, take_delta, take_all, take_all_converges,
}
use stellar_facilitator.Catalog.Listed.{IsAtomic, ingest-IsAtomic}

abbrev metadata : Metadata
metadata = record {
  service_name = some "Weather";
  description = "forecasts";
  mime_type = "application/json";
  tags = [];
  icon_url = none;
  route_template = none;
  input_spec = "{}";
  output_spec = none;
  extensions = "{}";
}

-- {"a": [{"$ref": "#"}]}
-- "$ref" and "#".
abbrev ref : Text
ref = 36 ∷ 114 ∷ 101 ∷ 102 ∷ []

abbrev spec : Json
spec = object (
    member (120 ∷ []) (array (item (object (member ref (text (35 ∷ [])) no_members)) no_items))
      no_members)

abbrev extension : BazaarExtension
extension = record {
  owner_signature = none;
  service_name = some (87 ∷ []);
  tags = none;
  icon_url = none;
  route_template = none;
  input_spec = some spec;
  output_spec = none;
}

validate_json_spec-none_example : (3 ≤ 16) × IsLocal (some ref) (text (35 ∷ []))
unfolding validate_json_spec validate_items validate_members starts_with is_external to_lower_case
    is_reference_key external_text value_at
validate_json_spec-none_example =
    validate_json_spec-none spec (0 ∷ 0 ∷ 0 ∷ []) (some ref) (text (35 ∷ [])) refl refl

abbrev live : LivePaymentTermsResult
live = record { valid = true; code = none; reason = none; retryable = false }

abbrev accepted : Outside
accepted = record { live_terms = live; settlement = none; throws = none; now = 1000 }

-- A listing for the recipient "GA".
abbrev request : IngestionRequest
request = record {
  resource_url = "https://a/";
  validation_url = none;
  resource_type = ResourceType.http;
  tool_name = none;
  pay_to = "GA";
  network = "stellar:testnet";
  scheme = "exact";
  asset = some "CASSET";
  amount = some "100";
  metadata = metadata;
  extension = extension;
  settlement_tx = "tx1";
}

ingest-IsAtomic_example :
    IsAtomic request accepted empty_catalog (ingest request accepted empty_catalog)
ingest-IsAtomic_example = ingest-IsAtomic request accepted empty_catalog

abbrev row : CatalogResource
row = record {
  resource_url = "https://a/";
  tool_name_key = "";
  validation_url = "https://a/";
  resource_type = ResourceType.http;
  metadata = metadata;
  pay_to = "GA";
  network = "stellar:testnet";
  scheme = "exact";
  asset = some "CASSET";
  amount = some "100";
  settlement_tx = "tx1";
  last_verified_at = some 1000;
  verification_status = VerificationStatus.verified;
  verification_reason = none;
  soft_dropped = false;
}

abbrev listed : Catalog
listed = record { resources = row ∷ []; telemetry = []; delta_state = [] }

abbrev revocation : CatalogDelta
revocation = record {
  op = revoke_op;
  resource_url = "https://a/";
  tool_name = "";
  pay_to = "GA";
  network = "stellar:testnet";
  revision = 2;
  issued_at = 1000;
  expires_at = 2000;
  state = none;
  signer = "GA";
  digest = 77;
  parses = true;
  signature_valid = true;
  signer_is_key = true;
  pay_to_is_key = true;
  pay_to_is_contract = false;
}

-- Someone else tries to take the entry, and its owner revokes it.
abbrev actions : List Action
actions =
    ingests (record request { pay_to = "GB"; settlement_tx = "tx2" }) accepted
    ∷ applies none revocation accepted
    ∷ revalidates "https://a/" "" (record live { valid = false }) 1500
    ∷ []

act_all_keeps_owner_example : owner "https://a/" "" (act_all actions listed).resources ≡ some "GA"
act_all_keeps_owner_example = act_all_keeps_owner actions listed "https://a/" "" "GA" refl

act_all-IsUnique_example :
    IsUnique (act_all (ingests request accepted ∷ actions) empty_catalog).resources
act_all-IsUnique_example = act_all-IsUnique (ingests request accepted ∷ actions)

abbrev older : CatalogDelta
older = record revocation { revision = 1; digest = 99 }

abbrev key : String
key = catalog_delta_key revocation

-- The two deltas in one order, and in the other with a repetition.
take_all_converges_example :
    IsSame
      (map_get key
        (take_all none key
          ((older, accepted) ∷ (revocation, accepted) ∷ [])
          []
          empty_catalog).1.delta_state)
      (map_get key
        (take_all none key
          ((revocation, accepted) ∷ (older, accepted) ∷ (revocation, accepted) ∷ [])
          []
          empty_catalog).1.delta_state)
unfolding take_all take_delta apply_catalog_delta verify_catalog_delta speaks_for map_get map_set
    should_apply_catalog_delta compare_catalog_delta carry_out record_delta revoke_rows
take_all_converges_example =
    take_all_converges none key ((older, accepted) ∷ (revocation, accepted) ∷ [])
      ((revocation, accepted) ∷ (older, accepted) ∷ (revocation, accepted) ∷ []) (refl, (refl, tt))
      (refl, (refl, (refl, tt))) there back
  where
    there :
        (d : CatalogDelta)
        → Occurs d (revocation ∷ older ∷ [])
        → Occurs d (revocation ∷ older ∷ revocation ∷ [])
    there d (inl same) = inl same
    there d (inr (inl same)) = inr (inl same)
    there d (inr (inr none')) = absurd none'

    back :
        (d : CatalogDelta)
        → Occurs d (revocation ∷ older ∷ revocation ∷ [])
        → Occurs d (revocation ∷ older ∷ [])
    back d (inl same) = inl same
    back d (inr (inl same)) = inr (inl same)
    back d (inr (inr (inl same))) = inl same
    back d (inr (inr (inr none'))) = absurd none'
