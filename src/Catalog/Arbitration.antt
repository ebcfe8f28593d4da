-- ===== src/Catalog/Arbitration.antt =====
-- bazaar-service/src/catalog/ingestion.ts: `applyCatalogDelta`.
use stellar_facilitator.Common.{
  ℕ, String, ◌<>◌, true, false, not, ◌&&◌, Option, none, some, List, map, ◌==◌, string_eq,
  if◌then◌else◌, truthy, map_get, map_set,
}
use stellar_facilitator.Catalog.{
  pending, verified, CatalogResource, is_http, is_entry, select_resource, Upserted, violates,
  no_row, changed, upsert,
}
use stellar_facilitator.Catalog.Deltas.{
  DeltaOp, upsert_op, revoke_op, CatalogDeltaState, CatalogDelta, verify_catalog_delta,
  should_apply_catalog_delta, catalog_delta_key,
}
use stellar_facilitator.Catalog.Calls.{owned_by_other, Catalog, Outside, or_undefined}

-- The row of a delta's state.
unfoldable pub delta_row : CatalogDelta → CatalogDeltaState → ℕ → CatalogResource
delta_row d state now = record {
  resource_url = d.resource_url;
  tool_name_key = d.tool_name;
  validation_url = if truthy state.validation_url then state.validation_url else d.resource_url;
  resource_type = state.resource_type;
  metadata = state.metadata;
  pay_to = d.pay_to;
  network = d.network;
  scheme = state.scheme;
  asset = some state.asset;
  amount = some state.amount;
  settlement_tx = state.settlement_tx;
  last_verified_at = if is_http state.resource_type then some now else none;
  verification_status = if is_http state.resource_type then verified else pending;
  verification_reason = none;
  soft_dropped = false;
}

-- The SET list of `applyCatalogDelta`: the type of the old row stays.
unfoldable pub delta_columns : CatalogResource → CatalogResource → CatalogResource
delta_columns old new = record old {
  validation_url = new.validation_url;
  metadata = new.metadata;
  pay_to = new.pay_to;
  network = new.network;
  scheme = new.scheme;
  asset = new.asset;
  amount = new.amount;
  settlement_tx = new.settlement_tx;
  last_verified_at =
      if is_http new.resource_type then new.last_verified_at else old.last_verified_at;
  verification_status = if is_http new.resource_type then verified else old.verification_status;
  verification_reason = none;
  soft_dropped = false;
}

pub data DeltaResult : Type 0 where
  applied ignored : DeltaResult
  delta_rejected : String → DeltaResult

-- `UPDATE catalog_resources SET soft_dropped = true` of a revoked entry.
abbrev pub revoked : CatalogDelta → CatalogResource → CatalogResource
revoked d row =
    if is_entry d.resource_url d.tool_name row
      && (row.pay_to == d.pay_to)
      && (row.network == d.network)
    then record row { soft_dropped = true }
    else row

unfoldable pub revoke_rows : CatalogDelta → List CatalogResource → List CatalogResource
revoke_rows d rows = map (revoked d) rows

-- The last statement and COMMIT.
unfoldable pub record_delta :
    CatalogDelta → Option String → List CatalogResource → Catalog → DeltaResult × Catalog
record_delta d (some message) rows c = (delta_rejected message, c)
record_delta d none rows c = (
  applied,
  record c { resources = rows; delta_state = map_set (catalog_delta_key d) d c.delta_state },
)

unfoldable pub store_delta :
    CatalogDelta → Option String → Upserted → Catalog → DeltaResult × Catalog
store_delta d throws violates c = (delta_rejected "duplicate settlement_tx", c)
store_delta d throws no_row c = record_delta d throws c.resources c
store_delta d throws (changed rows) c = record_delta d throws rows c

unfoldable pub upsert_checked :
    Option String → CatalogDelta → CatalogDeltaState → Outside → Catalog → DeltaResult × Catalog
upsert_checked (some reason) d state o c = (delta_rejected reason, c)
upsert_checked none d state o c =
    if is_http state.resource_type && not o.live_terms.valid
    then (
      delta_rejected (or_undefined o.live_terms.code <> ": " <> or_undefined o.live_terms.reason),
      c,
    )
    else if owned_by_other d.pay_to (select_resource d.resource_url d.tool_name c.resources)
    then (delta_rejected "catalog delta would change an existing resource payTo", c)
    else store_delta d o.throws (upsert delta_columns (delta_row d state o.now) c.resources) c

-- After the arbitration.
unfoldable pub carry_out :
    CatalogDelta → DeltaOp → Option CatalogDeltaState → Outside → Catalog → DeltaResult × Catalog
carry_out d upsert_op none o c = (delta_rejected "upsert catalog delta has no state", c)
carry_out d upsert_op (some state) o c = upsert_checked o.settlement d state o c
carry_out d revoke_op state o c = record_delta d o.throws (revoke_rows d c.resources) c

unfoldable pub apply_catalog_delta :
    Option (List String) → CatalogDelta → Outside → Catalog → DeltaResult × Catalog
apply_catalog_delta signers d o c =
    if verify_catalog_delta signers o.now d
    then if should_apply_catalog_delta (map_get (catalog_delta_key d) c.delta_state) d
      then carry_out d d.op d.state o c
      else (ignored, c)
    else (delta_rejected "catalog delta is not valid", c)
