-- ===== src/Catalog/Calls.antt =====
-- bazaar-service/src/catalog/ingestion.ts: the catalog, and what its calls are given and answer.
use stellar_facilitator.Common.{
  ℕ, String, Bool, false, not, Option, none, some, List, [], ◌==◌, string_eq, if◌then◌else◌, truthy,
}
use stellar_facilitator.Catalog.{ResourceType, Metadata, CatalogResource}
use stellar_facilitator.Catalog.Extension.{BazaarExtension}
use stellar_facilitator.Catalog.Deltas.{CatalogDelta}

-- The telemetry table maps a resource to the number of its settlements, and the state of the deltas
-- maps a key to the last delta that was applied.
pub record Catalog : Type 0 where
  pub resources : List CatalogResource
  pub telemetry : List ((String × String) × ℕ)
  pub delta_state : List (String × CatalogDelta)

abbrev pub empty_catalog : Catalog
empty_catalog = record { resources = []; telemetry = []; delta_state = [] }

pub record LivePaymentTermsResult : Type 0 where
  pub valid : Bool
  pub code : Option String
  pub reason : Option String
  pub retryable : Bool

pub record IngestionRequest : Type 0 where
  pub resource_url : String
  pub validation_url : Option String
  pub resource_type : ResourceType
  pub tool_name : Option String
  pub pay_to : String
  pub network : String
  pub scheme : String
  pub asset : Option String
  pub amount : Option String
  pub metadata : Metadata
  pub extension : BazaarExtension
  pub settlement_tx : String

-- `settlement` is the reason of `verifySettlement`, where this rejects.
pub record Outside : Type 0 where
  pub live_terms : LivePaymentTermsResult
  pub settlement : Option String
  pub throws : Option String
  pub now : ℕ

pub data IngestionResult : Type 0 where
  success : String × String → IngestionResult
  rejected : String → IngestionResult

abbrev pub text_or : Option String → String → String
text_or none other = other
text_or (some s) other = if truthy s then s else other

abbrev pub given : Option String → Bool
given none = false
given (some s) = truthy s

-- `s || null`
abbrev pub or_null : Option String → Option String
or_null none = none
or_null (some s) = if truthy s then some s else none

abbrev pub or_undefined : Option String → String
or_undefined none = "undefined"
or_undefined (some s) = s

-- Whether the entry belongs to someone else.
unfoldable pub owned_by_other : String → Option CatalogResource → Bool
owned_by_other pay_to none = false
owned_by_other pay_to (some row) = not (row.pay_to == pay_to)
