-- ===== src/Catalog/Ingestion.antt =====
-- bazaar-service/src/catalog/ingestion.ts: `ingest` and `revalidateStale`, and a history of calls.
--
-- Each call is one transaction, which the database runs as if alone. What other parts answer stands
-- in the call's `Outside`: the live check of the payment terms, the settlement check, and whether a
-- statement throws for a reason of its own, after which the transaction is rolled back. The texts of
-- some reasons are shortened.
use stellar_facilitator.Common.{
  ℕ, suc, String, ◌<>◌, true, false, not, ◌&&◌, Option, none, some, List, [], ◌∷◌, map, ◌==◌,
  string_eq, if◌then◌else◌,
}
use stellar_facilitator.Catalog.{
  pending, verified, quarantined, CatalogResource, is_http, is_entry, select_resource, violates,
  no_row, changed, upsert,
}
use stellar_facilitator.Catalog.Extension.{validate_extension}
use stellar_facilitator.Catalog.Deltas.{CatalogDelta}
use stellar_facilitator.Catalog.Calls.{
  owned_by_other, Catalog, IngestionRequest, IngestionResult, LivePaymentTermsResult, Outside,
  given, or_null, or_undefined, rejected, success, text_or,
}
use stellar_facilitator.Catalog.Arbitration.{apply_catalog_delta}

-- The reason for which the live terms are rejected.
unfoldable pub validate_request_live_terms :
    IngestionRequest → LivePaymentTermsResult → Option String
validate_request_live_terms request live =
    if not (is_http request.resource_type)
    then none
    else if not (given request.asset && given request.amount)
    then some
        "catalog_live_payment_terms_missing: HTTP catalog ingestion requires the settled asset and advertised amount"
    else if live.valid
    then none
    else some (or_undefined live.code <> ": " <> or_undefined live.reason)

unfoldable pub new_row : IngestionRequest → ℕ → CatalogResource
new_row request now = record {
  resource_url = request.resource_url;
  tool_name_key = text_or request.tool_name "";
  validation_url = text_or request.validation_url request.resource_url;
  resource_type = request.resource_type;
  metadata = request.metadata;
  pay_to = request.pay_to;
  network = request.network;
  scheme = request.scheme;
  asset = or_null request.asset;
  amount = or_null request.amount;
  settlement_tx = request.settlement_tx;
  last_verified_at = if is_http request.resource_type then some now else none;
  verification_status = if is_http request.resource_type then verified else pending;
  verification_reason = none;
  soft_dropped = false;
}

-- The SET list of `ingest`: the network, the scheme and the type of the old row stay.
unfoldable pub ingest_columns : CatalogResource → CatalogResource → CatalogResource
ingest_columns old new = record old {
  validation_url = new.validation_url;
  metadata = new.metadata;
  asset = new.asset;
  amount = new.amount;
  settlement_tx = new.settlement_tx;
  last_verified_at =
      if is_http new.resource_type then new.last_verified_at else old.last_verified_at;
  verification_status = if is_http new.resource_type then verified else old.verification_status;
  verification_reason = none;
  soft_dropped = false;
}

unfoldable pub count_settlement :
    String × String → List ((String × String) × ℕ) → List ((String × String) × ℕ)
count_settlement entry [] = (entry, 1) ∷ []
count_settlement entry ((e, n) ∷ rows) =
    let later = count_settlement entry rows in
    if (e.0 == entry.0) && (e.1 == entry.1) then (e, suc n) ∷ rows else (e, n) ∷ later

abbrev hijack_reason : String
hijack_reason = "metadata_hijack_detected"

-- The last statement and COMMIT.
unfoldable pub finish_listing :
    CatalogResource → Option String → List CatalogResource → Catalog → IngestionResult × Catalog
finish_listing new (some message) rows c = (rejected message, c)
finish_listing new none rows c =
    let entry : String × String = (new.resource_url, new.tool_name_key) in
    (success entry, record c { resources = rows; telemetry = count_settlement entry c.telemetry })

-- From the INSERT on. An unfinished transaction leaves the catalog as it was.
unfoldable pub store_listing : CatalogResource → Option String → Catalog → IngestionResult × Catalog
store_listing new throws c = elim (upsert ingest_columns new c.resources) [
  | violates ↦ (rejected "settlementTx has already been used to list a different resource", c)
  | no_row ↦ (rejected hijack_reason, c)
  | changed rows ↦ finish_listing new throws rows c
]

-- The reason of the first check that rejects.
unfoldable pub first_reason : List (Option String) → Option String
first_reason [] = none
first_reason (some reason ∷ reasons) = some reason
first_reason (none ∷ reasons) = first_reason reasons

unfoldable pub ingest_checked :
    Option String → IngestionRequest → Outside → Catalog → IngestionResult × Catalog
ingest_checked (some reason) request o c = (rejected reason, c)
ingest_checked none request o c =
    let new = new_row request o.now in
    if owned_by_other request.pay_to
      (select_resource new.resource_url new.tool_name_key c.resources)
    then (rejected hijack_reason, c)
    else store_listing new o.throws c

unfoldable pub ingest : IngestionRequest → Outside → Catalog → IngestionResult × Catalog
ingest request o c =
    ingest_checked
      (first_reason (
        validate_extension request.extension
        ∷ validate_request_live_terms request o.live_terms
        ∷ o.settlement
        ∷ []))
      request o c

-- The row after the live check of `revalidateStale`.
unfoldable pub revalidated : LivePaymentTermsResult → ℕ → CatalogResource → CatalogResource
revalidated live now row =
    let missing = not (given row.asset && given row.amount) in
    let code =
      if missing
      then "catalog_live_payment_terms_missing"
      else elim live.code [ none ↦ "catalog_live_payment_validation_failed" | some code ↦ code ] in
    let why =
      if missing
      then "catalog row has no stored asset or amount to revalidate"
      else elim live.reason [
        | none ↦ "live payment-term validation failed"
        | some reason ↦ reason
      ] in
    if not missing && live.valid
    then record row {
      last_verified_at = some now;
      verification_status = verified;
      verification_reason = none;
    }
    else if not missing && live.retryable
    then record row {
      verification_status = pending;
      verification_reason = some (code <> ": " <> why);
    }
    else record row {
      soft_dropped = true;
      verification_status = quarantined;
      verification_reason = some (code <> ": " <> why);
    }

abbrev pub revalidate_row :
    String → String → LivePaymentTermsResult → ℕ → CatalogResource → CatalogResource
revalidate_row url tool live now row =
    if is_entry url tool row then revalidated live now row else row

-- One turn of the loop of `revalidateStale`, for a row that the SELECT gave.
unfoldable pub revalidate : String → String → LivePaymentTermsResult → ℕ → Catalog → Catalog
revalidate url tool live now c = record c {
  resources = map (revalidate_row url tool live now) c.resources;
}

-- The calls that change the catalog.
pub data Action : Type 0 where
  ingests : IngestionRequest → Outside → Action
  applies : Option (List String) → CatalogDelta → Outside → Action
  revalidates : String → String → LivePaymentTermsResult → ℕ → Action

unfoldable pub act : Action → Catalog → Catalog
act (ingests request o) c = (ingest request o c).1
act (applies signers d o) c = (apply_catalog_delta signers d o c).1
act (revalidates url tool live now) c = revalidate url tool live now c

unfoldable pub act_all : List Action → Catalog → Catalog
act_all [] c = c
act_all (a ∷ as') c = act_all as' (act a c)
