-- ===== src/Catalog/Steps.antt =====
-- bazaar-service/src/catalog/ingestion.ts: how a call changes the table.
use stellar_facilitator.Common.{
  ℕ, ◌≡◌, refl, sym, ◌⊎◌, inl, inr, String, false, not, ◌&&◌, Option, none, some, List, [], ◌∷◌,
  ◌++◌, map, ◌==◌, ==_iff, string_eq, arith, if-elim, if-eq-cases, if◌then◌else◌, map_get,
}
use stellar_facilitator.Catalog.{
  is_http, CatalogResource, select_resource, settlement_taken, Upserted, violates, no_row, changed,
  update_entry, upsert_at, upsert,
}
use stellar_facilitator.Catalog.Deltas.{
  DeltaOp, upsert_op, revoke_op, CatalogDeltaState, CatalogDelta, verify_catalog_delta,
  should_apply_catalog_delta, catalog_delta_key,
}
use stellar_facilitator.Catalog.Ingestion.{
  finish_listing, ingest_checked, revalidate_row, new_row, ingest_columns, store_listing, ingest,
  revalidated, revalidate, Action, ingests, applies, revalidates, act,
}
use stellar_facilitator.Catalog.Arbitration.{
  DeltaResult, store_delta, upsert_checked, revoked, delta_row, delta_columns, revoke_rows,
  record_delta, carry_out, apply_catalog_delta,
}
use stellar_facilitator.Catalog.Calls.{
  owned_by_other, IngestionResult, Catalog, IngestionRequest, Outside, LivePaymentTermsResult,
}

changed_injective :
    (xs ys : List CatalogResource) → ◌≡◌ {A = Upserted} (changed xs) (changed ys) → xs ≡ ys
changed_injective xs ys h = cc

upsert_at_cases :
    (o : Option CatalogResource) (f : CatalogResource → CatalogResource) (new : CatalogResource)
    (rows changed_rows : List CatalogResource)
    → upsert_at o f new rows ≡ changed changed_rows
    → ((o ≡ none) × (settlement_taken new rows ≡ false) × (changed_rows ≡ rows ++ (new ∷ [])))
      ⊎ ((old : CatalogResource) × (o ≡ some old)
          × (old.pay_to ≡ new.pay_to)
          × (settlement_taken new rows ≡ false)
          × (changed_rows ≡ update_entry f new rows))
unfolding upsert_at
upsert_at_cases none f new rows changed_rows done =
    elim (if-eq-cases (settlement_taken new rows) violates (changed (rows ++ (new ∷ []))) done) [
      | inl (taken, bad) ↦ absurd (ground (arith, bad))
      | inr (free, same) ↦ inl (refl, free, sym (changed_injective _ _ same))
    ]
upsert_at_cases (some old) f new rows changed_rows done =
    elim (if-eq-cases (old.pay_to == new.pay_to)
      (if settlement_taken new rows then violates else changed (update_entry f new rows)) no_row
      done) [
        | inr (other, bad) ↦ absurd (ground (arith, bad))
        | inl (mine, rest) ↦
            elim (if-eq-cases (settlement_taken new rows) violates
              (changed (update_entry f new rows)) rest) [
                | inl (taken, bad) ↦ absurd (ground (arith, bad))
                | inr (free, same) ↦ inr (
                  old,
                  refl,
                  (==_iff old.pay_to new.pay_to).0 mine,
                  free,
                  sym (changed_injective _ _ same),
                )
              ]
      ]

-- How a table is changed: a row more, or an update of the entry with the same owner.
pub upsert_cases :
    (set_columns : CatalogResource → CatalogResource → CatalogResource) (new : CatalogResource)
    (rows changed_rows : List CatalogResource)
    → upsert set_columns new rows ≡ changed changed_rows
    → ((select_resource new.resource_url new.tool_name_key rows ≡ none)
        × (settlement_taken new rows ≡ false)
        × (changed_rows ≡ rows ++ (new ∷ [])))
      ⊎ ((old : CatalogResource) × (select_resource new.resource_url new.tool_name_key rows
            ≡ some old)
          × (old.pay_to ≡ new.pay_to)
          × (settlement_taken new rows ≡ false)
          × (changed_rows ≡ update_entry (λ old. set_columns old new) new rows))
unfolding upsert
upsert_cases set_columns new rows changed_rows done =
    upsert_at_cases (select_resource new.resource_url new.tool_name_key rows)
      (λ old. set_columns old new) new rows changed_rows done

-- A change of a row that leaves its entry and its owner.
pub record IsFaithful (f : CatalogResource → CatalogResource) : Type 0 where
  pub same_url : (row : CatalogResource) → (f row).resource_url ≡ row.resource_url
  pub same_tool : (row : CatalogResource) → (f row).tool_name_key ≡ row.tool_name_key
  pub same_payee : (row : CatalogResource) → (f row).pay_to ≡ row.pay_to
  pub same_tx : (row : CatalogResource) → (f row).settlement_tx ≡ row.settlement_tx

-- What a call does to the table: nothing, an upsert, or an update of rows that leaves what they are
-- looked up by.
abbrev pub IsTableStep : List CatalogResource → List CatalogResource → Type 0
IsTableStep rows after =
    (after ≡ rows)
    ⊎ (((new : CatalogResource) × (upsert ingest_columns new rows ≡ changed after))
        ⊎ (((new : CatalogResource) × (upsert delta_columns new rows ≡ changed after))
            ⊎ ((f : CatalogResource → CatalogResource) × IsFaithful f × (after ≡ map f rows))))

pub Upserted-cases :
    (u : Upserted)
    → ((u ≡ violates) ⊎ (u ≡ no_row)) ⊎ ((rows : List CatalogResource) × (u ≡ changed rows))
Upserted-cases violates = inl (inl refl)
Upserted-cases no_row = inl (inr refl)
Upserted-cases (changed rows) = inr (rows, refl)

-- A call that changes nothing in the table.
abbrev unchanged : (rows : List CatalogResource) → IsTableStep rows rows
unchanged rows = inl refl

finish_listing-IsTableStep :
    (new : CatalogResource) (throws : Option String) (rows : List CatalogResource) (c : Catalog)
    → upsert ingest_columns new c.resources ≡ changed rows
    → IsTableStep c.resources (finish_listing new throws rows c).1.resources
unfolding finish_listing
finish_listing-IsTableStep new (some message) rows c done = unchanged c.resources
finish_listing-IsTableStep new none rows c done = inr (inl (new, done))

store_listing-IsTableStep :
    (new : CatalogResource) (throws : Option String) (c : Catalog)
    → IsTableStep c.resources (store_listing new throws c).1.resources
unfolding store_listing
store_listing-IsTableStep new throws c =
    elim (Upserted-cases (upsert ingest_columns new c.resources)) [
      | inl (inl bad) ↦ rw (bad, store_listing) (unchanged c.resources)
      | inl (inr bad) ↦ rw (bad, store_listing) (unchanged c.resources)
      | inr (rows, done) ↦
          rw (done, store_listing) (finish_listing-IsTableStep new throws rows c done)
    ]

ingest_checked-IsTableStep :
    (reason : Option String) (request : IngestionRequest) (o : Outside) (c : Catalog)
    → IsTableStep c.resources (ingest_checked reason request o c).1.resources
unfolding ingest_checked
ingest_checked-IsTableStep (some reason) request o c = unchanged c.resources
ingest_checked-IsTableStep none request o c =
    if-elim (λ (r : IngestionResult × Catalog). IsTableStep c.resources r.1.resources)
      (owned_by_other request.pay_to (
        select_resource (new_row request o.now).resource_url (new_row request o.now).tool_name_key
          c.resources))
      (λ _. unchanged c.resources)
      (λ _. store_listing-IsTableStep (new_row request o.now) o.throws c)

record_delta-IsTableStep :
    (d : CatalogDelta) (throws : Option String) (rows : List CatalogResource) (c : Catalog)
    → IsTableStep c.resources rows
    → IsTableStep c.resources (record_delta d throws rows c).1.resources
unfolding record_delta
record_delta-IsTableStep d (some message) rows c h = unchanged c.resources
record_delta-IsTableStep d none rows c h = h

store_delta-IsTableStep :
    (d : CatalogDelta) (throws : Option String) (new : CatalogResource) (u : Upserted) (c : Catalog)
    → upsert delta_columns new c.resources ≡ u
    → IsTableStep c.resources (store_delta d throws u c).1.resources
unfolding store_delta
store_delta-IsTableStep d throws new violates c done = unchanged c.resources
store_delta-IsTableStep d throws new no_row c done =
    record_delta-IsTableStep d throws c.resources c (unchanged c.resources)
store_delta-IsTableStep d throws new (changed rows) c done =
    record_delta-IsTableStep d throws rows c (inr (inr (inl (new, done))))

upsert_checked-IsTableStep :
    (reason : Option String) (d : CatalogDelta) (state : CatalogDeltaState) (o : Outside)
    (c : Catalog)
    → IsTableStep c.resources (upsert_checked reason d state o c).1.resources
unfolding upsert_checked
upsert_checked-IsTableStep (some reason) d state o c = unchanged c.resources
upsert_checked-IsTableStep none d state o c =
    if-elim (λ (r : DeltaResult × Catalog). IsTableStep c.resources r.1.resources)
      (is_http state.resource_type && not o.live_terms.valid) (λ _. unchanged c.resources)
      (λ _.
        if-elim (λ (r : DeltaResult × Catalog). IsTableStep c.resources r.1.resources)
          (owned_by_other d.pay_to (select_resource d.resource_url d.tool_name c.resources))
          (λ _. unchanged c.resources)
          (λ _. store_delta-IsTableStep d o.throws (delta_row d state o.now) _ c refl))

revoked-IsFaithful : (d : CatalogDelta) → IsFaithful (revoked d)
revoked-IsFaithful d = record {
  same_url = λ row. ground arith;
  same_tool = λ row. ground arith;
  same_payee = λ row. ground arith;
  same_tx = λ row. ground arith;
}

carry_out-IsTableStep :
    (d : CatalogDelta) (op : DeltaOp) (state : Option CatalogDeltaState) (o : Outside) (c : Catalog)
    → IsTableStep c.resources (carry_out d op state o c).1.resources
unfolding carry_out revoke_rows
carry_out-IsTableStep d upsert_op none o c = unchanged c.resources
carry_out-IsTableStep d upsert_op (some state) o c =
    upsert_checked-IsTableStep o.settlement d state o c
carry_out-IsTableStep d revoke_op state o c =
    record_delta-IsTableStep d o.throws (revoke_rows d c.resources) c
      (inr (inr (inr (revoked d, revoked-IsFaithful d, refl))))

revalidate_row-IsFaithful :
    (url tool : String) (live : LivePaymentTermsResult) (now : ℕ)
    → IsFaithful (revalidate_row url tool live now)
unfolding revalidated
revalidate_row-IsFaithful url tool live now = record {
  same_url = λ row. ground arith;
  same_tool = λ row. ground arith;
  same_payee = λ row. ground arith;
  same_tx = λ row. ground arith;
}

pub act-IsTableStep : (a : Action) (c : Catalog) → IsTableStep c.resources (act a c).resources
unfolding act ingest apply_catalog_delta revalidate
act-IsTableStep (ingests request o) c = ingest_checked-IsTableStep _ request o c
act-IsTableStep (revalidates url tool live now) c = inr (
    inr (inr (revalidate_row url tool live now, revalidate_row-IsFaithful url tool live now, refl)))
act-IsTableStep (applies signers d o) c =
    if-elim (λ (r : DeltaResult × Catalog). IsTableStep c.resources r.1.resources)
      (verify_catalog_delta signers o.now d)
      (λ _.
        if-elim (λ (r : DeltaResult × Catalog). IsTableStep c.resources r.1.resources)
          (should_apply_catalog_delta (map_get (catalog_delta_key d) c.delta_state) d)
          (λ _. carry_out-IsTableStep d d.op d.state o c) (λ _. unchanged c.resources))
      (λ _. unchanged c.resources)
