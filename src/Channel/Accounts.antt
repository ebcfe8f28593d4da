-- ===== src/Channel/Accounts.antt =====
-- channel/pool.ts: every grant of a channel is returned before the next one.
use stellar_facilitator.Common.{
  ℕ, suc, ◌+◌, ◌≤◌, ◌≡◌, sym, subst, inl, inr, String, Bool, true, false, some, List, [], ◌∷◌, ◌==◌,
  ==_iff, string_eq, nat_eq, if◌then◌else◌, arith, Bool-cases, leb, ◌&&◌, Option-cases,
}
use stellar_facilitator.Channel.{
  ChannelAccount, ChannelAccountState, available, in_use, cooldown, error, Outcome, granted,
  ChannelAccountPool, is_cooling, update, cooled, process_cooldowns,
}
use stellar_facilitator.Channel.Keys.{
  channel_at, IsMap, KeepsKey, channel_at-update, update-IsMap, channel_at-process_cooldowns,
  process_cooldowns-IsMap,
}

-- How often the channel has been granted.
abbrev pub grants : String → List (ℕ × Outcome) → ℕ
grants key [] = 0
grants key ((request, outcome) ∷ rest) = elim outcome [
  | granted k ↦ if k == key then suc (grants key rest) else grants key rest
  | _ ↦ grants key rest
]

-- A channel that is in use has been granted once more than it has been returned, and a channel that
-- is not has been returned as often as granted; one that has failed may have done so in use.
abbrev pub IsAccountedIn : ChannelAccountState → ℕ → ℕ → Type 0
IsAccountedIn in_use count n = n ≡ suc count
IsAccountedIn error count n = (count ≤ n) × (n ≤ suc count)
IsAccountedIn available count n = n ≡ count
IsAccountedIn cooldown count n = n ≡ count

abbrev pub IsAccounted : ChannelAccount → ℕ → Type 0
IsAccounted c n = IsAccountedIn c.state c.transaction_count n

pub record IsBooked (cs : List ChannelAccount) (os : List (ℕ × Outcome)) : Type 0 where
  pub keyed : IsMap cs
  pub accounted :
      (key : String) (c : ChannelAccount)
      → channel_at key cs ≡ some c
      → IsAccounted c (grants key os)

pub update-IsBooked :
    (k : String) (change : ChannelAccount → ChannelAccount) (cs : List ChannelAccount)
    (os os' : List (ℕ × Outcome))
    → KeepsKey change
    → ((key : String) → (k == key) ≡ false → grants key os' ≡ grants key os)
    → ((c : ChannelAccount)
        → channel_at k cs ≡ some c
        → IsAccounted c (grants k os)
        → IsAccounted (change c) (grants k os'))
    → IsBooked cs os
    → IsBooked (update k change cs) os'
update-IsBooked k change cs os os' keeps others own h = record {
  keyed = update-IsMap k change cs keeps h.keyed;
  accounted = λ key c found. elim (Option-cases (channel_at key cs)) [
    | inl gone ↦ absurd (ground (arith, channel_at-update key k change cs keeps, gone, found))
    | inr (d, there) ↦ elim (Bool-cases (k == key)) [
      | inr other ↦
          let same : d ≡ c =
            ground (arith, channel_at-update key k change cs keeps, there, found, other) in
          subst (λ x. IsAccounted x (grants key os')) same
            (subst (IsAccounted d) (sym (others key other)) (h.accounted key d there))
      | inl own_key ↦
          let same : change d ≡ c =
            ground (arith, channel_at-update key k change cs keeps, there, found, own_key) in
          let key_of : k ≡ key = (==_iff k key).0 own_key in
          subst (λ x. IsAccounted x (grants key os')) same
            (subst (λ x. IsAccounted (change d) (grants x os')) key_of
              (own d (subst (λ x. channel_at x cs ≡ some d) (sym key_of) there)
                (subst (λ x. IsAccounted d (grants x os)) (sym key_of) (h.accounted key d there))))
    ]
  ];
}

abbrev state_is_cooling : ChannelAccountState → Bool
state_is_cooling state = elim state [ cooldown ↦ true | _ ↦ false ]

abbrev state_is_in_use : ChannelAccountState → Bool
state_is_in_use state = elim state [ in_use ↦ true | _ ↦ false ]

abbrev state_is_available : ChannelAccountState → Bool
state_is_available state = elim state [ available ↦ true | _ ↦ false ]

of_cooling :
    (state : ChannelAccountState) (count n : ℕ)
    → state_is_cooling state ≡ true
    → IsAccountedIn state count n
    → n ≡ count
of_cooling cooldown count n e h = h
of_cooling available count n e h = h
of_cooling in_use count n e h = cc
of_cooling error count n e h = cc

pub of_in_use :
    (state : ChannelAccountState) (count n : ℕ)
    → state_is_in_use state ≡ true
    → IsAccountedIn state count n
    → n ≡ suc count
of_in_use in_use count n e h = h
of_in_use cooldown count n e h = cc
of_in_use available count n e h = cc
of_in_use error count n e h = cc

pub of_available :
    (state : ChannelAccountState) (count n : ℕ)
    → state_is_available state ≡ true
    → IsAccountedIn state count n
    → n ≡ count
of_available available count n e h = h
of_available cooldown count n e h = h
of_available in_use count n e h = cc
of_available error count n e h = cc

pub in_any_state :
    (state : ChannelAccountState) (count n : ℕ)
    → IsAccountedIn state count n
    → (count ≤ n) × (n ≤ suc count)
in_any_state in_use count n h = (omega (arith, h), omega (arith, h))
in_any_state cooldown count n h = (omega (arith, h), omega (arith, h))
in_any_state available count n h = (omega (arith, h), omega (arith, h))
in_any_state error count n h = h

and-left : (a b : Bool) → (a && b) ≡ true → a ≡ true
and-left a b h = ground arith

cooled-IsAccounted :
    (cooldown_ms now n : ℕ) (c : ChannelAccount)
    → IsAccounted c n
    → IsAccounted (cooled cooldown_ms now c) n
cooled-IsAccounted cooldown_ms now n c h =
    elim (Bool-cases (is_cooling c && leb (cooldown_ms + c.last_used_at) now)) [
      | inl done' ↦ rw done' (of_cooling c.state c.transaction_count n (and-left _ _ done') h)
      | inr kept ↦ rw kept h
    ]

pub cooldowns-IsBooked :
    (cooldown_ms now : ℕ) (cs : List ChannelAccount) (os : List (ℕ × Outcome))
    → IsBooked cs os
    → IsBooked (process_cooldowns cooldown_ms now cs) os
cooldowns-IsBooked cooldown_ms now cs os h = record {
  keyed = process_cooldowns-IsMap cooldown_ms now cs h.keyed;
  accounted = λ key c found. elim (Option-cases (channel_at key cs)) [
    | inl gone ↦
        absurd (ground (arith, channel_at-process_cooldowns key cooldown_ms now cs, gone, found))
    | inr (d, there) ↦
        let same : cooled cooldown_ms now d ≡ c =
          ground (arith, channel_at-process_cooldowns key cooldown_ms now cs, there, found) in
        subst (λ x. IsAccounted x (grants key os)) same
          (cooled-IsAccounted cooldown_ms now (grants key os) d (h.accounted key d there))
  ];
}

-- An outcome that grants nothing.
pub ungranted-IsBooked :
    (cs : List ChannelAccount) (os os' : List (ℕ × Outcome))
    → ((key : String) → grants key os' ≡ grants key os)
    → IsBooked cs os
    → IsBooked cs os'
ungranted-IsBooked cs os os' same h = record {
  keyed = h.keyed;
  accounted = λ key c found. subst (IsAccounted c) (sym (same key)) (h.accounted key c found);
}

abbrev pub IsBookedPool : ChannelAccountPool → Type 0
IsBookedPool s = IsBooked s.channels s.outcomes
