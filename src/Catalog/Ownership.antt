-- ===== src/Catalog/Ownership.antt =====
-- bazaar-service/src/catalog/ingestion.ts: whose resource an entry is.
use stellar_facilitator.Common.{
  ◌≡◌, refl, sym, ap, subst, ◌∙◌, inl, inr, String, false, ◌&&◌, Option, none, some, List, [], ◌∷◌,
  ◌++◌, map, ◌==◌, ==_iff, string_eq, arith, Bool-cases,
}
use stellar_facilitator.Catalog.{
  CatalogResource, same_entry, is_entry, select_resource, changed, update_entry, upsert,
}
use stellar_facilitator.Catalog.Ingestion.{ingest_columns, Action, act, act_all}
use stellar_facilitator.Catalog.Arbitration.{delta_columns}
use stellar_facilitator.Catalog.Calls.{Catalog}
use stellar_facilitator.Catalog.Steps.{IsFaithful, IsTableStep, upsert_cases, act-IsTableStep}

abbrev payee : Option CatalogResource → Option String
payee none = none
payee (some row) = some row.pay_to

-- Whose the entry of this address and tool is, if there is one.
abbrev pub owner : String → String → List CatalogResource → Option String
owner url tool rows = payee (select_resource url tool rows)

owner-map :
    (f : CatalogResource → CatalogResource) (url tool : String) (rows : List CatalogResource)
    → IsFaithful f
    → owner url tool (map f rows) ≡ owner url tool rows
owner-map f url tool [] h = refl
owner-map f url tool (row ∷ rows) h =
    ground (arith, h.same_url row, h.same_tool row, h.same_payee row, owner-map f url tool rows h)

owner-append :
    (url tool p : String) (rows : List CatalogResource) (new : CatalogResource)
    → owner url tool rows ≡ some p
    → owner url tool (rows ++ (new ∷ [])) ≡ some p
owner-append url tool p [] new h = absurd (ground (arith, h))
owner-append url tool p (row ∷ rows) new h = ground (arith, h, owner-append url tool p rows new)

-- A SET list that leaves the entry, and the owner where the new row has the same.
record IsOwnerPreserving (set_columns : CatalogResource → CatalogResource → CatalogResource)
    : Type 0 where
  keeps_url : (old new : CatalogResource) → (set_columns old new).resource_url ≡ old.resource_url
  keeps_tool : (old new : CatalogResource) → (set_columns old new).tool_name_key ≡ old.tool_name_key
  keeps_payee :
      (old new : CatalogResource)
      → old.pay_to ≡ new.pay_to
      → (set_columns old new).pay_to ≡ old.pay_to

ingest_columns-IsOwnerPreserving : IsOwnerPreserving ingest_columns
unfolding ingest_columns
ingest_columns-IsOwnerPreserving = record {
  keeps_url = λ old new. refl;
  keeps_tool = λ old new. refl;
  keeps_payee = λ old new h. refl;
}

delta_columns-IsOwnerPreserving : IsOwnerPreserving delta_columns
unfolding delta_columns
delta_columns-IsOwnerPreserving = record {
  keeps_url = λ old new. refl;
  keeps_tool = λ old new. refl;
  keeps_payee = λ old new h. sym h;
}

module _ (set_columns : CatalogResource → CatalogResource → CatalogResource)
    (keeps : IsOwnerPreserving set_columns) where
  owner-update_other :
      (url tool : String) (new : CatalogResource) (rows : List CatalogResource)
      → ((new.resource_url == url) && (new.tool_name_key == tool)) ≡ false
      → owner url tool (update_entry (λ old. set_columns old new) new rows) ≡ owner url tool rows
  unfolding update_entry
  owner-update_other url tool new [] h = refl
  owner-update_other url tool new (row ∷ rows) h =
      let later = owner-update_other url tool new rows h in
      elim (Bool-cases (same_entry row new)) [
        | inr other ↦ rw other (ground (arith, later))
        | inl same ↦
            let hidden : is_entry url tool row ≡ false = ground (
              arith,
              same,
              h,
              ==_iff row.resource_url new.resource_url,
              ==_iff row.tool_name_key new.tool_name_key,
            ) in
            rw (same, keeps.keeps_url row new, keeps.keeps_tool row new, hidden) later
      ]

  owner-update :
      (url tool : String) (new : CatalogResource) (rows : List CatalogResource)
      → owner new.resource_url new.tool_name_key rows ≡ some new.pay_to
      → owner url tool (update_entry (λ old. set_columns old new) new rows) ≡ owner url tool rows
  unfolding update_entry
  owner-update url tool new [] h = refl
  owner-update url tool new (row ∷ rows) h = elim (Bool-cases (same_entry row new)) [
    | inr other ↦
        let later = owner-update url tool new rows (ground (arith, other, h)) in
        rw other (ground (arith, later))
    | inl same ↦
        let mine : row.pay_to ≡ new.pay_to = ground (arith, same, h) in
        elim (Bool-cases (is_entry url tool row)) [
          | inl there ↦
              rw (same, keeps.keeps_url row new, keeps.keeps_tool row new, there)
                (ap some (keeps.keeps_payee row new mine))
          | inr hidden ↦
              let apart : ((new.resource_url == url) && (new.tool_name_key == tool)) ≡ false =
                ground (
                  arith,
                  same,
                  hidden,
                  ==_iff row.resource_url new.resource_url,
                  ==_iff row.tool_name_key new.tool_name_key,
                ) in
              rw (same, keeps.keeps_url row new, keeps.keeps_tool row new, hidden)
                (owner-update_other url tool new rows apart)
        ]
  ]

  -- A changed table has the owners that the table had.
  owner-upsert :
      (url tool p : String) (new : CatalogResource) (rows changed_rows : List CatalogResource)
      → upsert set_columns new rows ≡ changed changed_rows
      → owner url tool rows ≡ some p
      → owner url tool changed_rows ≡ some p
  owner-upsert url tool p new rows changed_rows done h =
      elim (upsert_cases set_columns new rows changed_rows done) [
        | inl (gone, free, appended) ↦
            subst (λ rs. owner url tool rs ≡ some p) (sym appended)
              (owner-append url tool p rows new h)
        | inr (old, found, mine, free, updated) ↦
            subst (λ rs. owner url tool rs ≡ some p) (sym updated)
              (owner-update url tool new rows (ap payee found ∙ ap some mine) ∙ h)
      ]

owner_step :
    (url tool p : String) (rows after : List CatalogResource)
    → IsTableStep rows after
    → owner url tool rows ≡ some p
    → owner url tool after ≡ some p
owner_step url tool p rows after (inl same) h =
    subst (λ rs. owner url tool rs ≡ some p) (sym same) h
owner_step url tool p rows after (inr (inl (new, done))) h =
    owner-upsert ingest_columns ingest_columns-IsOwnerPreserving url tool p new rows after done h
owner_step url tool p rows after (inr (inr (inl (new, done)))) h =
    owner-upsert delta_columns delta_columns-IsOwnerPreserving url tool p new rows after done h
owner_step url tool p rows after (inr (inr (inr (f, faithful, same)))) h =
    subst (λ rs. owner url tool rs ≡ some p) (sym same) (owner-map f url tool rows faithful ∙ h)

-- Once an address and tool are listed for a recipient, they stay listed for this recipient in every
-- history of ingestions, deltas and revalidations, whoever calls and whatever the checks answer.
pub act_all_keeps_owner :
    (actions : List Action) (c : Catalog) (url tool p : String)
    → owner url tool c.resources ≡ some p
    → owner url tool (act_all actions c).resources ≡ some p
unfolding act_all
act_all_keeps_owner [] c url tool p h = h
act_all_keeps_owner (a ∷ actions) c url tool p h =
    act_all_keeps_owner actions (act a c) url tool p
      (owner_step url tool p c.resources (act a c).resources (act-IsTableStep a c) h)
