-- ===== src/Catalog/Convergence.antt =====
-- bazaar-service/src/catalog/ingestion.ts and p2p/catalog-delta.ts: peers that took the same deltas
-- hold the same one, in whatever order and however often these came.
use stellar_facilitator.Common.{
  ◌≤◌, ◌<◌, ◌≡◌, refl, sym, ap, subst, ◌∙◌, ◌⊎◌, inl, inr, String, true, false, not, ◌&&◌, Option,
  none, some, List, [], ◌∷◌, ==_iff, string_eq, nat_eq, arith, if-elim, if◌then◌else◌, All, map_get,
  map_set, map_get-map_set,
}
use stellar_facilitator.Catalog.{
  CatalogResource, is_http, select_resource, Upserted, violates, no_row, changed,
}
use stellar_facilitator.Catalog.Deltas.{
  DeltaOp, upsert_op, revoke_op, CatalogDeltaState, CatalogDelta, verify_catalog_delta,
  compare_catalog_delta, should_apply_catalog_delta, catalog_delta_key,
}
use stellar_facilitator.Catalog.Arbitration.{
  DeltaResult, applied, ignored, delta_rejected, revoke_rows, record_delta, store_delta,
  upsert_checked, carry_out, apply_catalog_delta,
}
use stellar_facilitator.Catalog.Calls.{owned_by_other, Catalog, empty_catalog, Outside}

-- The order of revisions, and of digests where the revisions are equal.
abbrev Le : CatalogDelta → CatalogDelta → Type 0
Le a b = (a.revision < b.revision) ⊎ ((a.revision ≡ b.revision) × (a.digest ≤ b.digest))

abbrev pub Occurs : CatalogDelta → List CatalogDelta → Type 0
Occurs d [] = ⊥
Occurs d (x ∷ xs) = (x ≡ d) ⊎ Occurs d xs

-- The greatest of these deltas, or none of none.
abbrev IsTop : List CatalogDelta → Option CatalogDelta → Type 0
IsTop xs none = xs ≡ []
IsTop xs (some top) = Occurs top xs × All (λ d. Le d top) xs

Le_refl : (d : CatalogDelta) → Le d d
Le_refl d = inr (refl, omega arith)

Le_trans : (a b c : CatalogDelta) → Le a b → Le b c → Le a c
Le_trans a b c h k = ground (arith, h, k)

should_apply-true :
    (current incoming : CatalogDelta)
    → should_apply_catalog_delta (some current) incoming ≡ true
    → Le current incoming
unfolding should_apply_catalog_delta compare_catalog_delta
should_apply-true current incoming h = ground (arith, h)

should_apply-false :
    (current incoming : CatalogDelta)
    → should_apply_catalog_delta (some current) incoming ≡ false
    → Le incoming current
unfolding should_apply_catalog_delta compare_catalog_delta
should_apply-false current incoming h = ground (arith, h)

All-Le :
    (xs : List CatalogDelta) (a b : CatalogDelta)
    → Le a b
    → All (λ d. Le d a) xs
    → All (λ d. Le d b) xs
All-Le [] a b h k = tt
All-Le (x ∷ xs) a b h k = (Le_trans x a b k.0 h, All-Le xs a b h k.1)

-- One more delta.
IsTop-next :
    (xs : List CatalogDelta) (o : Option CatalogDelta) (d : CatalogDelta)
    → IsTop xs o
    → IsTop (d ∷ xs) (if should_apply_catalog_delta o d then some d else o)
unfolding should_apply_catalog_delta
IsTop-next xs none d h = (inl refl, (Le_refl d, subst (λ ys. All (λ x. Le x d) ys) (sym h) tt))
IsTop-next xs (some top) d h =
    if-elim (IsTop (d ∷ xs)) (should_apply_catalog_delta (some top) d)
      (λ newer. (inl refl, (Le_refl d, All-Le xs top d (should_apply-true top d newer) h.1)))
      (λ older. (inr h.0, (should_apply-false top d older, h.1)))

-- A call that is applied records its delta, and any other leaves the state of the deltas.
abbrev IsRecorded : CatalogDelta → Catalog → DeltaResult × Catalog → Type 0
IsRecorded d c (applied, after) = after.delta_state ≡ map_set (catalog_delta_key d) d c.delta_state
IsRecorded d c (ignored, after) = ⊥
IsRecorded d c (delta_rejected reason, after) = after.delta_state ≡ c.delta_state

record_delta-IsRecorded :
    (d : CatalogDelta) (throws : Option String) (rows : List CatalogResource) (c : Catalog)
    → IsRecorded d c (record_delta d throws rows c)
unfolding record_delta
record_delta-IsRecorded d (some message) rows c = refl
record_delta-IsRecorded d none rows c = refl

store_delta-IsRecorded :
    (d : CatalogDelta) (throws : Option String) (u : Upserted) (c : Catalog)
    → IsRecorded d c (store_delta d throws u c)
unfolding store_delta
store_delta-IsRecorded d throws violates c = refl
store_delta-IsRecorded d throws no_row c = record_delta-IsRecorded d throws c.resources c
store_delta-IsRecorded d throws (changed rows) c = record_delta-IsRecorded d throws rows c

upsert_checked-IsRecorded :
    (reason : Option String) (d : CatalogDelta) (state : CatalogDeltaState) (o : Outside)
    (c : Catalog)
    → IsRecorded d c (upsert_checked reason d state o c)
unfolding upsert_checked
upsert_checked-IsRecorded (some reason) d state o c = refl
upsert_checked-IsRecorded none d state o c =
    if-elim (IsRecorded d c) (is_http state.resource_type && not o.live_terms.valid) (λ _. refl)
      (λ _.
        if-elim (IsRecorded d c)
          (owned_by_other d.pay_to (select_resource d.resource_url d.tool_name c.resources))
          (λ _. refl) (λ _. store_delta-IsRecorded d o.throws _ c))

carry_out-IsRecorded :
    (d : CatalogDelta) (op : DeltaOp) (state : Option CatalogDeltaState) (o : Outside) (c : Catalog)
    → IsRecorded d c (carry_out d op state o c)
unfolding carry_out
carry_out-IsRecorded d upsert_op none o c = refl
carry_out-IsRecorded d upsert_op (some state) o c =
    upsert_checked-IsRecorded o.settlement d state o c
carry_out-IsRecorded d revoke_op state o c =
    record_delta-IsRecorded d o.throws (revoke_rows d c.resources) c

-- The deltas taken so far with one more call: one that is rejected is not taken.
unfoldable pub take_delta : DeltaResult → CatalogDelta → List CatalogDelta → List CatalogDelta
take_delta applied d taken = d ∷ taken
take_delta ignored d taken = d ∷ taken
take_delta (delta_rejected reason) d taken = taken

module _ (signers : Option (List String)) (key : String) where
  -- What a call does to the greatest delta of its key.
  abbrev IsTaken : CatalogDelta → List CatalogDelta → DeltaResult × Catalog → Type 0
  IsTaken d taken r = IsTop (take_delta r.0 d taken) (map_get key r.1.delta_state)

  recorded-IsTaken :
      (d : CatalogDelta) (taken : List CatalogDelta) (c : Catalog) (r : DeltaResult × Catalog)
      → catalog_delta_key d ≡ key
      → should_apply_catalog_delta (map_get key c.delta_state) d ≡ true
      → IsTop taken (map_get key c.delta_state)
      → IsRecorded d c r
      → IsTaken d taken r
  unfolding take_delta
  recorded-IsTaken d taken c (applied, after) same newer h k =
      let held : map_get key after.delta_state ≡ some d =
        ap (map_get key) k
        ∙ map_get-map_set key (catalog_delta_key d) d c.delta_state
        ∙ rw ((==_iff (catalog_delta_key d) key).1 same) refl in
      let next = IsTop-next taken (map_get key c.delta_state) d h in
      subst (IsTop (d ∷ taken)) (sym held) (
        subst (λ b. IsTop (d ∷ taken) (if b then some d else map_get key c.delta_state)) newer next)
  recorded-IsTaken d taken c (ignored, after) same newer h k = absurd k
  recorded-IsTaken d taken c (delta_rejected reason, after) same newer h k =
      subst (λ m. IsTop taken (map_get key m)) (sym k) h

  ignored-IsTaken :
      (d : CatalogDelta) (taken : List CatalogDelta) (c : Catalog)
      → map_get (catalog_delta_key d) c.delta_state ≡ map_get key c.delta_state
      → should_apply_catalog_delta (map_get (catalog_delta_key d) c.delta_state) d ≡ false
      → IsTop taken (map_get key c.delta_state)
      → IsTop (d ∷ taken) (map_get key c.delta_state)
  ignored-IsTaken d taken c at older h =
      subst (λ b. IsTop (d ∷ taken) (if b then some d else map_get key c.delta_state))
        (ap (λ m. should_apply_catalog_delta m d) (sym at) ∙ older)
        (IsTop-next taken (map_get key c.delta_state) d h)

  apply-IsTaken :
      (d : CatalogDelta) (o : Outside) (taken : List CatalogDelta) (c : Catalog)
      → catalog_delta_key d ≡ key
      → IsTop taken (map_get key c.delta_state)
      → IsTaken d taken (apply_catalog_delta signers d o c)
  unfolding apply_catalog_delta take_delta
  apply-IsTaken d o taken c same h =
      let at : map_get (catalog_delta_key d) c.delta_state ≡ map_get key c.delta_state =
        ap (λ k. map_get k c.delta_state) same in
      if-elim (IsTaken d taken) (verify_catalog_delta signers o.now d)
        (λ _.
          if-elim (IsTaken d taken)
            (should_apply_catalog_delta (map_get (catalog_delta_key d) c.delta_state) d)
            (λ newer.
              recorded-IsTaken d taken c (carry_out d d.op d.state o c) same
                (ap (λ m. should_apply_catalog_delta m d) (sym at) ∙ newer) h
                (carry_out-IsRecorded d d.op d.state o c))
            (λ older. ignored-IsTaken d taken c at older h))
        (λ _. h)

  -- A peer's history of deltas: those it took, the last one first, and its catalog.
  unfoldable pub take_all :
      List (CatalogDelta × Outside) → List CatalogDelta → Catalog → List CatalogDelta × Catalog
  take_all [] taken c = (taken, c)
  take_all ((d, o) ∷ calls) taken c =
      let r = apply_catalog_delta signers d o c in take_all calls (take_delta r.0 d taken) r.1

  take_all-IsTop :
      (calls : List (CatalogDelta × Outside)) (taken : List CatalogDelta) (c : Catalog)
      → All (λ (call : CatalogDelta × Outside). catalog_delta_key call.0 ≡ key) calls
      → IsTop taken (map_get key c.delta_state)
      → IsTop (take_all calls taken c).0 (map_get key (take_all calls taken c).1.delta_state)
  unfolding take_all
  take_all-IsTop [] taken c same h = h
  take_all-IsTop ((d, o) ∷ calls) taken c same h =
      let r = apply_catalog_delta signers d o c in
      take_all-IsTop calls (take_delta r.0 d taken) r.1 same.1 (apply-IsTaken d o taken c same.0 h)

All_occurs :
    (P : CatalogDelta → Type 0) (xs : List CatalogDelta) (d : CatalogDelta)
    → All P xs
    → Occurs d xs
    → P d
All_occurs P [] d h k = absurd k
All_occurs P (x ∷ xs) d h (inl same) = subst P same h.0
All_occurs P (x ∷ xs) d h (inr later) = All_occurs P xs d h.1 later

-- The same revision with the same digest, or nothing on both sides.
abbrev pub IsSame : Option CatalogDelta → Option CatalogDelta → Type 0
IsSame none none = Unit
IsSame (some a) (some b) = (a.revision ≡ b.revision) × (a.digest ≡ b.digest)
IsSame _ _ = ⊥

tops_agree :
    (xs ys : List CatalogDelta) (o q : Option CatalogDelta)
    → IsTop xs o
    → IsTop ys q
    → ((d : CatalogDelta) → Occurs d xs → Occurs d ys)
    → ((d : CatalogDelta) → Occurs d ys → Occurs d xs)
    → IsSame o q
tops_agree xs ys none none h k f g = tt
tops_agree xs ys none (some b) h k f g = absurd (subst (Occurs b) h (g b k.0))
tops_agree xs ys (some a) none h k f g = absurd (subst (Occurs a) k (f a h.0))
tops_agree xs ys (some a) (some b) h k f g =
    let below = All_occurs (λ d. Le d b) ys a k.1 (f a h.0) in
    let above = All_occurs (λ d. Le d a) xs b h.1 (g b k.0) in ground (arith, below, above)

-- Two peers with the same authorized signers, empty at first, that received deltas of one key and
-- rejected none but those that the other did not take either, hold the same delta for this key: the
-- same revision with the same digest, in whatever order and however often the deltas came.
pub take_all_converges :
    (signers : Option (List String)) (key : String) (xs ys : List (CatalogDelta × Outside))
    → All (λ (call : CatalogDelta × Outside). catalog_delta_key call.0 ≡ key) xs
    → All (λ (call : CatalogDelta × Outside). catalog_delta_key call.0 ≡ key) ys
    → ((d : CatalogDelta)
        → Occurs d (take_all signers key xs [] empty_catalog).0
        → Occurs d (take_all signers key ys [] empty_catalog).0)
    → ((d : CatalogDelta)
        → Occurs d (take_all signers key ys [] empty_catalog).0
        → Occurs d (take_all signers key xs [] empty_catalog).0)
    → IsSame
        (map_get key (take_all signers key xs [] empty_catalog).1.delta_state)
        (map_get key (take_all signers key ys [] empty_catalog).1.delta_state)
unfolding map_get
take_all_converges signers key xs ys kx ky f g =
    tops_agree (take_all signers key xs [] empty_catalog).0
      (take_all signers key ys [] empty_catalog).0 _ _
      (take_all-IsTop signers key xs [] empty_catalog kx refl)
      (take_all-IsTop signers key ys [] empty_catalog ky refl) f g
