-- ===== src/Keychain/KeyState/Marks.antt =====
-- Merging two copies of the marks, and the safety margin of `statePlusOne`, in the order of marks.
use tezsign.Prelude.{ℕ, ◌+◌, ◌<◌, ◌^◌, ◌≡◌, ◌⊎◌, arith, Option, none, some}
use tezsign.Keychain.Kinds.{
  SignKind, block, preattestation, attestation, HighWatermark, KindState, AtLeast, Above,
}
use tezsign.Keychain.KeyState.{
  KeyState, state_of, get_level, get_round, merge_kind, merge_key_states, state_plus_one,
}

-- The mark that an entry stands for; a missing entry is the zero mark.
abbrev pub mark_of : Option KindState → HighWatermark
mark_of st = record { level = get_level st; round = get_round st }

abbrev pub mark_at : Option KeyState → SignKind → HighWatermark
mark_at ks kind = mark_of (state_of ks kind)

merge_kind_max :
    (a b : Option KindState)
    → AtLeast (mark_of a) (merge_kind a b)
      × AtLeast (mark_of b) (merge_kind a b)
      × ((merge_kind a b ≡ mark_of a) ⊎ (merge_kind a b ≡ mark_of b))
unfolding merge_kind
merge_kind_max none none = ground arith
merge_kind_max none (some b) = ground arith
merge_kind_max (some a) none = ground arith
merge_kind_max (some a) (some b) = ground arith

-- The merge holds, for every kind, the greater of the two marks: it is at least both, and it is one
-- of them.
pub merge_key_states_max :
    (a b : Option KeyState) (kind : SignKind)
    → let merged = mark_at (some (merge_key_states a b)) kind in
      AtLeast (mark_at a kind) merged
      × AtLeast (mark_at b kind) merged
      × ((merged ≡ mark_at a kind) ⊎ (merged ≡ mark_at b kind))
unfolding merge_key_states
merge_key_states_max a b block = merge_kind_max (state_of a block) (state_of b block)
merge_key_states_max a b preattestation =
    merge_kind_max (state_of a preattestation) (state_of b preattestation)
merge_key_states_max a b attestation =
    merge_kind_max (state_of a attestation) (state_of b attestation)

-- `statePlusOne` lies above every mark of the level it starts from, whatever the round, as long as
-- the level is not the last uint64.
pub state_plus_one-Above :
    (base : Option KeyState) (kind : SignKind) (round : ℕ)
    → get_level (state_of base kind) + 1 < 2 ^ 64
    → Above
        (record { level = get_level (state_of base kind); round = round })
        (mark_at (some (state_plus_one base)) kind)
unfolding state_plus_one
state_plus_one-Above base block round h = ground arith
state_plus_one-Above base preattestation round h = ground arith
state_plus_one-Above base attestation round h = ground arith
