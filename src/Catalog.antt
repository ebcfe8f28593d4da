-- ===== src/Catalog.antt =====
-- bazaar-service/src/catalog/ingestion.ts and bazaar-service/src/db/schema.sql: the tables of the
-- catalog, and the statements that change them.
--
-- A table is the list of its rows. The statements do what PostgreSQL documents of them, the two
-- unique constraints of `catalog_resources` included. A resource's identifier is its position.
pub mod Deltas
pub mod Extension
pub mod Calls
pub mod Arbitration
pub mod Ingestion
pub mod Steps
pub mod Ownership
pub mod Uniqueness
pub mod Listed
pub mod Convergence
mod Tests
use stellar_facilitator.Common.{
  ℕ, suc, String, Bool, true, false, not, ◌&&◌, ◌||◌, Option, none, some, List, [], ◌∷◌, ◌++◌, map,
  ◌==◌, string_eq, if◌then◌else◌, find,
}

pub data ResourceType : Type 0 where
  http mcp : ResourceType

pub data VerificationStatus : Type 0 where
  pending verified quarantined : VerificationStatus

-- What describes a resource and is stored as it comes. The specifications are their JSON texts, and
-- the embedding is computed from the description, the name and the tags.
pub record Metadata : Type 0 where
  pub service_name : Option String
  pub description : String
  pub mime_type : String
  pub tags : List String
  pub icon_url : Option String
  pub route_template : Option String
  pub input_spec : String
  pub output_spec : Option String
  pub extensions : String

pub record CatalogResource : Type 0 where
  pub resource_url : String
  pub tool_name_key : String
  pub validation_url : String
  pub resource_type : ResourceType
  pub metadata : Metadata
  pub pay_to : String
  pub network : String
  pub scheme : String
  pub asset : Option String
  pub amount : Option String
  pub settlement_tx : String
  pub last_verified_at : Option ℕ
  pub verification_status : VerificationStatus
  pub verification_reason : Option String
  pub soft_dropped : Bool

abbrev pub is_http : ResourceType → Bool
is_http ResourceType.http = true
is_http ResourceType.mcp = false

-- The constraint `unique_resource_tool_entry`, and the one on `settlement_tx`.
abbrev pub same_entry : CatalogResource → CatalogResource → Bool
same_entry a b = (a.resource_url == b.resource_url) && (a.tool_name_key == b.tool_name_key)

abbrev pub same_settlement : CatalogResource → CatalogResource → Bool
same_settlement a b = a.settlement_tx == b.settlement_tx

abbrev pub is_entry : String → String → CatalogResource → Bool
is_entry url tool row = (row.resource_url == url) && (row.tool_name_key == tool)

-- `SELECT … WHERE resource_url = $1 AND tool_name_key = $2`
abbrev pub select_resource : String → String → List CatalogResource → Option CatalogResource
select_resource url tool rows = find (is_entry url tool) rows

-- Whether another entry has this row's settlement.
unfoldable pub settlement_taken : CatalogResource → List CatalogResource → Bool
settlement_taken new [] = false
settlement_taken new (row ∷ rows) =
    (same_settlement row new && not (same_entry row new)) || settlement_taken new rows

-- What an upsert comes to: an error of the unique constraint on `settlement_tx`, no row, or the
-- changed table.
pub data Upserted : Type 0 where
  violates : Upserted
  no_row : Upserted
  changed : List CatalogResource → Upserted

-- `UPDATE … SET … WHERE` this entry.
unfoldable pub update_entry :
    (CatalogResource → CatalogResource)
    → CatalogResource
    → List CatalogResource
    → List CatalogResource
update_entry set_columns new rows =
    map (λ row. if same_entry row new then set_columns row else row) rows

-- The statement below, once its conflicting row is found or there is none.
unfoldable pub upsert_at :
    Option CatalogResource
    → (CatalogResource → CatalogResource)
    → CatalogResource
    → List CatalogResource
    → Upserted
upsert_at none set_columns new rows =
    if settlement_taken new rows then violates else changed (rows ++ (new ∷ []))
upsert_at (some old) set_columns new rows =
    if old.pay_to == new.pay_to
    then if settlement_taken new rows then violates else changed (update_entry set_columns new rows)
    else no_row

-- `INSERT … ON CONFLICT ON CONSTRAINT unique_resource_tool_entry DO UPDATE SET …
-- WHERE catalog_resources.pay_to = EXCLUDED.pay_to`, where the function is the SET list.
unfoldable pub upsert :
    (CatalogResource → CatalogResource → CatalogResource)
    → CatalogResource
    → List CatalogResource
    → Upserted
upsert set_columns new rows =
    upsert_at (select_resource new.resource_url new.tool_name_key rows) (λ old. set_columns old new)
      new rows
