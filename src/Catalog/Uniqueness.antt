-- ===== src/Catalog/Uniqueness.antt =====
-- bazaar-service/src/catalog/ingestion.ts: one entry for an address and tool, and one for a
-- settlement.
use stellar_facilitator.Common.{
  ◌≡◌, refl, sym, subst, inl, inr, false, not, ◌&&◌, none, List, [], ◌∷◌, ◌++◌, map, ==_iff,
  string_eq, arith, Bool-cases, if◌then◌else◌, All, All-snoc,
}
use stellar_facilitator.Catalog.{
  CatalogResource, same_entry, same_settlement, select_resource, settlement_taken, changed,
  update_entry, upsert,
}
use stellar_facilitator.Catalog.Ingestion.{ingest_columns, Action, act, act_all}
use stellar_facilitator.Catalog.Arbitration.{delta_columns}
use stellar_facilitator.Catalog.Calls.{Catalog, empty_catalog}
use stellar_facilitator.Catalog.Steps.{IsFaithful, IsTableStep, upsert_cases, act-IsTableStep}

-- Two rows for different entries and different settlements.
abbrev pub Apart : CatalogResource → CatalogResource → Type 0
Apart a b = (same_entry b a ≡ false) × (same_settlement b a ≡ false)

-- Any two rows are apart.
abbrev pub IsUnique : List CatalogResource → Type 0
IsUnique [] = Unit
IsUnique (row ∷ rows) = All (Apart row) rows × IsUnique rows

-- No row but that of the same entry has the settlement of the new row.
abbrev Free : CatalogResource → CatalogResource → Type 0
Free new row = (same_settlement row new && not (same_entry row new)) ≡ false

IsUnique-append :
    (rows : List CatalogResource) (new : CatalogResource)
    → IsUnique rows
    → select_resource new.resource_url new.tool_name_key rows ≡ none
    → settlement_taken new rows ≡ false
    → IsUnique (rows ++ (new ∷ []))
unfolding settlement_taken
IsUnique-append [] new h gone free = (tt, tt)
IsUnique-append (row ∷ rows) new h gone free =
    let missing : same_entry row new ≡ false = ground (arith, gone) in
    let rest : select_resource new.resource_url new.tool_name_key rows ≡ none =
      ground (arith, gone, missing) in
    let apart : Apart row new = ground (
      arith,
      missing,
      free,
      ==_iff row.resource_url new.resource_url,
      ==_iff row.tool_name_key new.tool_name_key,
      ==_iff new.resource_url row.resource_url,
      ==_iff new.tool_name_key row.tool_name_key,
      ==_iff row.settlement_tx new.settlement_tx,
      ==_iff new.settlement_tx row.settlement_tx,
    ) in
    (
      All-snoc (Apart row) rows new h.0 apart,
      IsUnique-append rows new h.1 rest (ground (arith, free)),
    )

-- A SET list that leaves the entry and takes the settlement of the new row.
record IsEntryPreserving (set_columns : CatalogResource → CatalogResource → CatalogResource)
    : Type 0 where
  keeps_url : (old new : CatalogResource) → (set_columns old new).resource_url ≡ old.resource_url
  keeps_tool : (old new : CatalogResource) → (set_columns old new).tool_name_key ≡ old.tool_name_key
  takes_tx : (old new : CatalogResource) → (set_columns old new).settlement_tx ≡ new.settlement_tx

module _ (set_columns : CatalogResource → CatalogResource → CatalogResource)
    (keeps : IsEntryPreserving set_columns) (new : CatalogResource) where
  abbrev updated : CatalogResource → CatalogResource
  updated row = if same_entry row new then set_columns row new else row

  Apart-updated :
      (a b : CatalogResource) → Apart a b → Free new a → Free new b → Apart (updated a) (updated b)
  Apart-updated a b h free_a free_b = elim (Bool-cases (same_entry a new)) [
    | inl here ↦ elim (Bool-cases (same_entry b new)) [
      | inl there ↦ absurd (
          ground (
            arith,
            h.0,
            here,
            there,
            ==_iff a.resource_url new.resource_url,
            ==_iff a.tool_name_key new.tool_name_key,
            ==_iff b.resource_url new.resource_url,
            ==_iff b.tool_name_key new.tool_name_key,
            ==_iff b.resource_url a.resource_url,
            ==_iff b.tool_name_key a.tool_name_key,
          ))
      | inr other ↦
          rw (here, other, keeps.keeps_url a new, keeps.keeps_tool a new, keeps.takes_tx a new)
            (h.0, ground (arith, free_b, other))
    ]
    | inr elsewhere ↦ elim (Bool-cases (same_entry b new)) [
      | inr other ↦ rw (elsewhere, other) h
      | inl there ↦
          rw (elsewhere, there, keeps.keeps_url b new, keeps.keeps_tool b new, keeps.takes_tx b new)
            (
              h.0,
              ground (
                arith,
                free_a,
                elsewhere,
                ==_iff a.settlement_tx new.settlement_tx,
                ==_iff new.settlement_tx a.settlement_tx,
              ),
            )
    ]
  ]

  All-Apart-updated :
      (a : CatalogResource) (rows : List CatalogResource)
      → All (Apart a) rows
      → Free new a
      → settlement_taken new rows ≡ false
      → All (Apart (updated a)) (map updated rows)
  unfolding settlement_taken
  All-Apart-updated a [] h free_a free = tt
  All-Apart-updated a (row ∷ rows) h free_a free = (
    Apart-updated a row h.0 free_a (ground (arith, free)),
    All-Apart-updated a rows h.1 free_a (ground (arith, free)),
  )

  IsUnique-updated :
      (rows : List CatalogResource)
      → IsUnique rows
      → settlement_taken new rows ≡ false
      → IsUnique (map updated rows)
  unfolding settlement_taken
  IsUnique-updated [] h free = tt
  IsUnique-updated (row ∷ rows) h free = (
    All-Apart-updated row rows h.0 (ground (arith, free)) (ground (arith, free)),
    IsUnique-updated rows h.1 (ground (arith, free)),
  )

  IsUnique-upsert :
      (rows after : List CatalogResource)
      → IsUnique rows
      → upsert set_columns new rows ≡ changed after
      → IsUnique after
  unfolding update_entry
  IsUnique-upsert rows after h done = elim (upsert_cases set_columns new rows after done) [
    | inl (gone, free, appended) ↦
        subst IsUnique (sym appended) (IsUnique-append rows new h gone free)
    | inr (old, found, mine, free, same) ↦ subst IsUnique (sym same) (IsUnique-updated rows h free)
  ]

All-Apart-map :
    (f : CatalogResource → CatalogResource) (a : CatalogResource) (rows : List CatalogResource)
    → IsFaithful f
    → All (Apart a) rows
    → All (Apart (f a)) (map f rows)
All-Apart-map f a [] faithful h = tt
All-Apart-map f a (row ∷ rows) faithful h = (
  rw
      (
        faithful.same_url row,
        faithful.same_tool row,
        faithful.same_tx row,
        faithful.same_url a,
        faithful.same_tool a,
        faithful.same_tx a,
      )
      h.0,
  All-Apart-map f a rows faithful h.1,
)

IsUnique-map :
    (f : CatalogResource → CatalogResource) (rows : List CatalogResource)
    → IsFaithful f
    → IsUnique rows
    → IsUnique (map f rows)
IsUnique-map f [] faithful h = tt
IsUnique-map f (row ∷ rows) faithful h =
    (All-Apart-map f row rows faithful h.0, IsUnique-map f rows faithful h.1)

ingest_columns-IsEntryPreserving : IsEntryPreserving ingest_columns
unfolding ingest_columns
ingest_columns-IsEntryPreserving = record {
  keeps_url = λ old new. refl;
  keeps_tool = λ old new. refl;
  takes_tx = λ old new. refl;
}

delta_columns-IsEntryPreserving : IsEntryPreserving delta_columns
unfolding delta_columns
delta_columns-IsEntryPreserving = record {
  keeps_url = λ old new. refl;
  keeps_tool = λ old new. refl;
  takes_tx = λ old new. refl;
}

IsUnique-step :
    (rows after : List CatalogResource) → IsTableStep rows after → IsUnique rows → IsUnique after
IsUnique-step rows after (inl same) h = subst IsUnique (sym same) h
IsUnique-step rows after (inr (inl (new, done))) h =
    IsUnique-upsert ingest_columns ingest_columns-IsEntryPreserving new rows after h done
IsUnique-step rows after (inr (inr (inl (new, done)))) h =
    IsUnique-upsert delta_columns delta_columns-IsEntryPreserving new rows after h done
IsUnique-step rows after (inr (inr (inr (f, faithful, same)))) h =
    subst IsUnique (sym same) (IsUnique-map f rows faithful h)

act_all_kept :
    (actions : List Action) (c : Catalog)
    → IsUnique c.resources
    → IsUnique (act_all actions c).resources
unfolding act_all
act_all_kept [] c h = h
act_all_kept (a ∷ actions) c h =
    act_all_kept actions (act a c)
      (IsUnique-step c.resources (act a c).resources (act-IsTableStep a c) h)

-- In every history that starts with an empty catalog, any two entries have different addresses or
-- tools, and no two are backed by the same settlement.
pub act_all-IsUnique : (actions : List Action) → IsUnique (act_all actions empty_catalog).resources
act_all-IsUnique actions = act_all_kept actions empty_catalog tt
