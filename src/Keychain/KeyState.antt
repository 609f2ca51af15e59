-- ===== src/Keychain/KeyState.antt =====
-- keychain/key_hwm_file.go, first part: the marks of a key as they are written to its file. A
-- `*KeyState` that may be nil is an `Option`, and so is each entry of its map.
pub mod Marks
pub mod RoundTrip
use tezsign.Prelude.{
  ℕ, ◌+◌, ◌-◌, ◌%◌, ◌^◌, Bool, true, false, not, ◌&&◌, ◌||◌, List, [], ◌∷◌, ◌++◌, Option, none,
  some, length, take, drop, replicate, ltb, ◌==◌, if◌then◌else◌,
}
use tezsign.Prelude.Bytes.{put_be64, get_be64, put_be32, get_be32, bytes_eq, codes}
use tezsign.Keychain.Kinds.{
  SignKind, block, preattestation, attestation, HighWatermark, KindState, zero_watermark,
  to_key_state, ByKind, get_kind, for_all_kinds,
}

abbrev pub key_state_slot_size : ℕ
key_state_slot_size = 100

abbrev pub key_state_slot_data_size : ℕ
key_state_slot_data_size = key_state_slot_size - 4

abbrev pub key_state_file_size : ℕ
key_state_file_size = 200

abbrev pub key_state_nonce_size : ℕ
key_state_nonce_size = 12

abbrev pub key_state_plain_size : ℕ
key_state_plain_size = 68

abbrev pub key_state_magic : List ℕ
key_state_magic = codes "HWM1"

-- The map of a `KeyState`, by kind.
abbrev pub KeyState : Type 0
KeyState = ByKind (Option KindState)

unfoldable pub new_empty_key_state : KeyState
new_empty_key_state = for_all_kinds (λ kind. none)

unfoldable pub new_zero_key_state : KeyState
new_zero_key_state = for_all_kinds (λ kind. some (record { level = 0; round = 0 }))

abbrev pub is_some_state : Option KindState → Bool
is_some_state none = false
is_some_state (some st) = true

unfoldable pub ensure_key_state : Option KeyState → KeyState
unfolding new_zero_key_state
ensure_key_state none = new_zero_key_state
ensure_key_state (some ks) =
    if is_some_state ks.for_block
      || is_some_state ks.for_preattestation
      || is_some_state ks.for_attestation
    then ks
    else new_zero_key_state

-- `ks.ByKind[int32(kind)]`, nil where `ks` is.
abbrev pub state_of : Option KeyState → SignKind → Option KindState
state_of none kind = none
state_of (some ks) kind = get_kind ks kind

-- GetLevel and GetRound answer 0 on nil.
abbrev pub get_level : Option KindState → ℕ
get_level none = 0
get_level (some st) = st.level

abbrev pub get_round : Option KindState → ℕ
get_round none = 0
get_round (some st) = st.round

-- One round of the loop of `mergeKeyStates`.
unfoldable pub merge_kind : Option KindState → Option KindState → HighWatermark
merge_kind primary none = record { level = get_level primary; round = get_round primary }
merge_kind primary (some st) =
    let best : HighWatermark = record { level = get_level primary; round = get_round primary } in
    let candidate : HighWatermark = record { level = st.level; round = st.round } in
    if ltb best.level candidate.level
      || (best.level == candidate.level && ltb best.round candidate.round)
    then candidate
    else best

unfoldable pub merge_key_states : Option KeyState → Option KeyState → KeyState
unfolding merge_kind to_key_state
merge_key_states primary secondary =
    for_all_kinds
      (λ kind. some (to_key_state (merge_kind (state_of primary kind) (state_of secondary kind))))

-- `level + 1` is a uint64.
unfoldable pub state_plus_one : Option KeyState → KeyState
state_plus_one base =
    for_all_kinds
      (λ kind. some (record { level = (get_level (state_of base kind) + 1) % 2 ^ 64; round = 0 }))

unfoldable pub slot_is_zero : List ℕ → Bool
slot_is_zero [] = true
slot_is_zero (b ∷ bs) = if not (b == 0) then false else slot_is_zero bs

-- Level and round of one kind, twelve bytes.
unfoldable pub encode_kind : Option KindState → List ℕ
encode_kind st = put_be64 (get_level st) ++ put_be32 (get_round st)

unfoldable pub encode_key_state_plain : Option KeyState → ℕ → List ℕ
unfolding encode_kind
encode_key_state_plain ks seq =
    key_state_magic
    ++ (put_be64 seq
        ++ (encode_kind (state_of ks block)
            ++ (encode_kind (state_of ks preattestation)
                ++ (encode_kind (state_of ks attestation)
                    ++ replicate (key_state_plain_size - 48) 0))))

-- `offset` runs over 12, 24 and 36.
unfoldable pub decode_kind : List ℕ → ℕ → KindState
decode_kind src offset = record {
  level = get_be64 (drop offset src);
  round = get_be32 (drop (offset + 8) src);
}

-- Both errors wrap ErrKeyStateCorrupted.
unfoldable pub decode_key_state_plain : List ℕ → Option (KeyState × ℕ)
unfolding decode_kind
decode_key_state_plain src =
    if not (length src == key_state_plain_size)
    then none
    else if not (bytes_eq (take 4 src) key_state_magic)
    then none
    else some (
      record {
        for_block = some (decode_kind src 12);
        for_preattestation = some (decode_kind src 24);
        for_attestation = some (decode_kind src 36);
      },
      get_be64 (drop 4 src),
    )
