-- ===== src/Channel/Keys.antt =====
-- channel/pool.ts: the map of channels, read by key.
use stellar_facilitator.Common.{
  ℕ, ◌≡◌, refl, sym, ap, subst, ◌∙◌, ◌⊎◌, inl, inr, String, Bool, true, Option, none, some, List,
  [], ◌∷◌, ◌==◌, ==_iff, ==_refl, string_eq, if◌then◌else◌, arith, Bool-cases, Option-cases, find,
  filter, leb,
}
use stellar_facilitator.Channel.{
  ChannelAccount, is_available, update, least_recent, cooled, process_cooldowns,
}

-- The channel under a key.
abbrev pub channel_at : String → List ChannelAccount → Option ChannelAccount
channel_at key cs = find (λ c. c.public_key == key) cs

-- Each key stands once.
abbrev pub IsMap : List ChannelAccount → Type 0
IsMap [] = Unit
IsMap (c ∷ cs) = (channel_at c.public_key cs ≡ none) × IsMap cs

-- The change leaves the key.
abbrev pub KeepsKey : (ChannelAccount → ChannelAccount) → Type 0
KeepsKey change = (c : ChannelAccount) → (change c).public_key ≡ c.public_key

abbrev pub changed_at :
    Bool → (ChannelAccount → ChannelAccount) → Option ChannelAccount → Option ChannelAccount
changed_at same change none = none
changed_at same change (some c) = if same then some (change c) else some c

pub channel_at-update :
    (key k : String) (change : ChannelAccount → ChannelAccount) (cs : List ChannelAccount)
    → KeepsKey change
    → channel_at key (update k change cs) ≡ changed_at (k == key) change (channel_at key cs)
unfolding update
channel_at-update key k change [] keeps = refl
channel_at-update key k change (c ∷ cs) keeps = ground (
  arith,
  channel_at-update key k change cs keeps,
  keeps c,
  ==_iff c.public_key k,
  ==_iff c.public_key key,
  ==_iff k key,
)

pub update-IsMap :
    (k : String) (change : ChannelAccount → ChannelAccount) (cs : List ChannelAccount)
    → KeepsKey change
    → IsMap cs
    → IsMap (update k change cs)
unfolding update
update-IsMap k change [] keeps h = tt
update-IsMap k change (c ∷ cs) keeps h = elim (Bool-cases (c.public_key == k)) [
  | inl same ↦ rw same (subst (λ key. channel_at key cs ≡ none) (sym (keeps c)) h.0, h.1)
  | inr other ↦ rw other (
    channel_at-update c.public_key k change cs keeps
        ∙ ap (changed_at (k == c.public_key) change) h.0,
    update-IsMap k change cs keeps h.1,
  )
]

abbrev IsIn : ChannelAccount → List ChannelAccount → Type 0
IsIn c [] = ⊥
IsIn c (d ∷ ds) = (d ≡ c) ⊎ IsIn c ds

least_recent-IsIn :
    (cs : List ChannelAccount) (c : ChannelAccount) → least_recent cs ≡ some c → IsIn c cs
unfolding least_recent
least_recent-IsIn [] c h = absurd (ground arith)
least_recent-IsIn (d ∷ ds) c h = elim (Option-cases (least_recent ds)) [
  | inl gone ↦ inl (ground (arith, gone))
  | inr (e, found) ↦ elim (Bool-cases (leb d.last_used_at e.last_used_at)) [
    | inl first ↦ inl (ground (arith, found, first))
    | inr later ↦ inr (least_recent-IsIn ds c (found ∙ ap some (ground (arith, found, later))))
  ]
]

filter-IsIn :
    (p : ChannelAccount → Bool) (cs : List ChannelAccount) (c : ChannelAccount)
    → IsIn c (filter p cs)
    → IsIn c cs × (p c ≡ true)
filter-IsIn p [] c h = absurd h
filter-IsIn p (d ∷ ds) c h = elim (Bool-cases (p d)) [
  | inr no' ↦
      let skipped : filter p (d ∷ ds) ≡ filter p ds = ground (arith, no') in
      let rest = filter-IsIn p ds c (subst (λ xs. IsIn c xs) skipped h) in (inr rest.0, rest.1)
  | inl yes' ↦
      let kept : filter p (d ∷ ds) ≡ d ∷ filter p ds = ground (arith, yes') in
      let here : IsIn c (d ∷ filter p ds) = subst (λ xs. IsIn c xs) kept h in
      elim here [
        | inl same ↦ (inl same, subst (λ x. p x ≡ true) same yes')
        | inr later ↦ let rest = filter-IsIn p ds c later in (inr rest.0, rest.1)
      ]
]

IsIn-channel_at :
    (cs : List ChannelAccount) (c : ChannelAccount)
    → IsMap cs
    → IsIn c cs
    → channel_at c.public_key cs ≡ some c
IsIn-channel_at [] c h m = absurd m
IsIn-channel_at (d ∷ ds) c h (inl same) =
    subst (λ x. channel_at x.public_key (d ∷ ds) ≡ some x) same
      (ground (arith, ==_refl d.public_key))
IsIn-channel_at (d ∷ ds) c h (inr later) =
    ground (arith, IsIn-channel_at ds c h.1 later, h.0, ==_iff d.public_key c.public_key)

-- The channel that is taken is the one under its key, and it is available.
pub least_recent-found :
    (cs : List ChannelAccount) (c : ChannelAccount)
    → IsMap cs
    → least_recent (filter is_available cs) ≡ some c
    → (channel_at c.public_key cs ≡ some c) × (is_available c ≡ true)
least_recent-found cs c h e =
    let inside = filter-IsIn is_available cs c (least_recent-IsIn (filter is_available cs) c e) in
    (IsIn-channel_at cs c h inside.0, inside.1)

pub channel_at-process_cooldowns :
    (key : String) (cooldown_ms now : ℕ) (cs : List ChannelAccount)
    → channel_at key (process_cooldowns cooldown_ms now cs)
      ≡ changed_at true (cooled cooldown_ms now) (channel_at key cs)
unfolding process_cooldowns
channel_at-process_cooldowns key cooldown_ms now [] = refl
channel_at-process_cooldowns key cooldown_ms now (c ∷ cs) =
    ground (arith, channel_at-process_cooldowns key cooldown_ms now cs)

pub process_cooldowns-IsMap :
    (cooldown_ms now : ℕ) (cs : List ChannelAccount)
    → IsMap cs
    → IsMap (process_cooldowns cooldown_ms now cs)
unfolding process_cooldowns
process_cooldowns-IsMap cooldown_ms now [] h = tt
process_cooldowns-IsMap cooldown_ms now (c ∷ cs) h = (
  subst (λ key. channel_at key (process_cooldowns cooldown_ms now cs) ≡ none) (sym same_key)
      (channel_at-process_cooldowns c.public_key cooldown_ms now cs
        ∙ ap (changed_at true (cooled cooldown_ms now)) h.0),
  process_cooldowns-IsMap cooldown_ms now cs h.1,
)
  where
    same_key : (cooled cooldown_ms now c).public_key ≡ c.public_key
    same_key = ground arith
