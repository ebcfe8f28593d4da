-- ===== src/Catalog/Listed.antt =====
-- bazaar-service/src/catalog/ingestion.ts: what an ingestion leaves in the catalog.
use mathlib.Core.Option.{some-injective}
use stellar_facilitator.Common.{
  ℕ, ◌≡◌, refl, sym, ap, subst, ◌∙◌, inl, inr, String, Bool, true, false, Option, none, some, List,
  [], ◌∷◌, ◌++◌, ==_refl, string_eq, arith, Bool-cases, if-elim, if◌then◌else◌,
}
use stellar_facilitator.Catalog.{
  CatalogResource, same_entry, is_entry, select_resource, changed, update_entry, upsert,
}
use stellar_facilitator.Catalog.Extension.{validate_extension}
use stellar_facilitator.Catalog.Ingestion.{
  validate_request_live_terms, new_row, ingest_columns, finish_listing, store_listing, first_reason,
  ingest_checked, ingest,
}
use stellar_facilitator.Catalog.Calls.{
  owned_by_other, Catalog, IngestionRequest, Outside, IngestionResult, success, rejected, or_null,
  text_or,
}
use stellar_facilitator.Catalog.Steps.{Upserted-cases, upsert_cases}

-- A row with the terms of this request.
pub record IsRowOf (request : IngestionRequest) (row : CatalogResource) : Type 0 where
  payee : row.pay_to ≡ request.pay_to
  settlement : row.settlement_tx ≡ request.settlement_tx
  asset : row.asset ≡ or_null request.asset
  amount : row.amount ≡ or_null request.amount
  found : row.soft_dropped ≡ false

-- The checks passed, and the entry of the request is found with its terms.
abbrev pub IsListed : IngestionRequest → Outside → List CatalogResource → Type 0
IsListed request o rows =
    (validate_extension request.extension ≡ none)
    × (validate_request_live_terms request o.live_terms ≡ none)
    × (o.settlement ≡ none)
    × ((row : CatalogResource) × (select_resource request.resource_url
            (text_or request.tool_name "") rows
          ≡ some row)
        × IsRowOf request row)

-- Rejected and nothing changed, or listed.
abbrev pub IsAtomic : IngestionRequest → Outside → Catalog → IngestionResult × Catalog → Type 0
IsAtomic request o c (rejected reason, after) = after ≡ c
IsAtomic request o c (success entry, after) = IsListed request o after.resources

select-append :
    (url tool : String) (rows : List CatalogResource) (new : CatalogResource)
    → select_resource url tool rows ≡ none
    → is_entry url tool new ≡ true
    → select_resource url tool (rows ++ (new ∷ [])) ≡ some new
select-append url tool [] new gone here = rw here refl
select-append url tool (row ∷ rows) new gone here =
    let missing : is_entry url tool row ≡ false = ground (arith, gone) in
    rw missing (select-append url tool rows new (ground (arith, gone, missing)) here)

if_true : {A : Type 0} (x y : A) (b : Bool) → b ≡ true → (if b then x else y) ≡ x
if_true x y true h = refl
if_true x y false h = absurd (ground (arith, h))

select-update :
    (new old : CatalogResource) (rows : List CatalogResource)
    → select_resource new.resource_url new.tool_name_key rows ≡ some old
    → select_resource new.resource_url new.tool_name_key
        (update_entry (λ row. ingest_columns row new) new rows)
      ≡ some (ingest_columns old new)
unfolding update_entry ingest_columns
select-update new old [] h = absurd (ground (arith, h))
select-update new old (row ∷ rows) h = elim (Bool-cases (same_entry row new)) [
  | inl here ↦
      let mine = some-injective row old (
        sym (
          if_true (some row) (select_resource new.resource_url new.tool_name_key rows)
            (same_entry row new) here)
        ∙ h) in
      rw here (rw here (ap (λ r. some (ingest_columns r new)) mine))
  | inr other ↦
      let later = select-update new old rows (ground (arith, h, other)) in rw other (rw other later)
]

-- The row that the upsert leaves for the entry of this request.
stored :
    (request : IngestionRequest) (now : ℕ) (rows after : List CatalogResource)
    → upsert ingest_columns (new_row request now) rows ≡ changed after
    → (row : CatalogResource) × (select_resource request.resource_url
          (text_or request.tool_name "")
          after
        ≡ some row)
      × IsRowOf request row
unfolding new_row ingest_columns
stored request now rows after done =
    let new = new_row request now in
    elim (upsert_cases ingest_columns new rows after done) [
      | inl (gone, free, appended) ↦ (
        new,
        subst (λ rs. select_resource new.resource_url new.tool_name_key rs ≡ some new)
            (sym appended)
            (select-append new.resource_url new.tool_name_key rows new gone
              (ground (arith, ==_refl new.resource_url, ==_refl new.tool_name_key))),
        record { payee = refl; settlement = refl; asset = refl; amount = refl; found = refl },
      )
      | inr (old, found, mine, free, updated) ↦ (
        ingest_columns old new,
        subst
            (λ rs.
              select_resource new.resource_url new.tool_name_key rs ≡ some (ingest_columns old new))
            (sym updated) (select-update new old rows found),
        record { payee = mine; settlement = refl; asset = refl; amount = refl; found = refl },
      )
    ]

-- What the checks answered when none gave a reason.
first_reason-none :
    (a b c : Option String)
    → first_reason (a ∷ b ∷ c ∷ []) ≡ none
    → (a ≡ none) × (b ≡ none) × (c ≡ none)
unfolding first_reason
first_reason-none none none none h = (refl, refl, refl)
first_reason-none (some a) b c h = absurd (ground (arith, h))
first_reason-none none (some b) c h = absurd (ground (arith, h))
first_reason-none none none (some c) h = absurd (ground (arith, h))

module _ (request : IngestionRequest) (o : Outside) (c : Catalog) where
  finish_listing-IsAtomic :
      (throws : Option String) (rows : List CatalogResource)
      → IsListed request o rows
      → IsAtomic request o c (finish_listing (new_row request o.now) throws rows c)
  unfolding finish_listing
  finish_listing-IsAtomic (some message) rows h = refl
  finish_listing-IsAtomic none rows h = h

  store_listing-IsAtomic :
      (throws : Option String)
      → validate_extension request.extension ≡ none
      → validate_request_live_terms request o.live_terms ≡ none
      → o.settlement ≡ none
      → IsAtomic request o c (store_listing (new_row request o.now) throws c)
  unfolding store_listing
  store_listing-IsAtomic throws e l s =
      elim (Upserted-cases (upsert ingest_columns (new_row request o.now) c.resources)) [
        | inl (inl bad) ↦ rw (bad, store_listing) refl
        | inl (inr bad) ↦ rw (bad, store_listing) refl
        | inr (rows, done) ↦
            rw (done, store_listing)
              (finish_listing-IsAtomic throws rows
                (e, l, s, stored request o.now c.resources rows done))
      ]

  ingest_checked-IsAtomic :
      (reason : Option String)
      → (reason ≡ none
          → (validate_extension request.extension ≡ none)
            × (validate_request_live_terms request o.live_terms ≡ none)
            × (o.settlement ≡ none))
      → IsAtomic request o c (ingest_checked reason request o c)
  unfolding ingest_checked
  ingest_checked-IsAtomic (some reason) h = refl
  ingest_checked-IsAtomic none h =
      if-elim (IsAtomic request o c)
        (owned_by_other request.pay_to (
          select_resource (new_row request o.now).resource_url (new_row request o.now).tool_name_key
            c.resources))
        (λ _. refl) (λ _. store_listing-IsAtomic o.throws (h refl).0 (h refl).1 (h refl).2)

  -- An ingestion is atomic: if it is rejected, for whatever reason, the catalog is as before; if it
  -- succeeds, the extension, the live terms and the settlement were accepted, and the entry of the
  -- request is found with its recipient, settlement, asset and amount, and is not dropped.
  pub ingest-IsAtomic : IsAtomic request o c (ingest request o c)
  unfolding ingest
  ingest-IsAtomic =
      ingest_checked-IsAtomic
        (first_reason (
          validate_extension request.extension
          ∷ validate_request_live_terms request o.live_terms
          ∷ o.settlement
          ∷ []))
        (first_reason-none (validate_extension request.extension)
          (validate_request_live_terms request o.live_terms) o.settlement)
