-- ===== src/Keychain/HwmFile.antt =====
-- keychain/key_hwm_file.go, second part: the two slots of the file that holds a key's marks, how
-- they are read back, and the worker that writes them in turn.
pub mod Slots
pub mod Recovery
pub mod Choice
use tezsign.Prelude.{
  ℕ, ◌+◌, ◌-◌, ◌*◌, ◌%◌, Bool, true, false, not, ◌&&◌, ◌||◌, List, [], ◌∷◌, ◌++◌, Option, none,
  some, length, take, drop, replicate, ltb, leb, ◌==◌, if◌then◌else◌,
}
use tezsign.Prelude.Bytes.{put_be32, get_be32, codes}
use tezsign.Keychain.Crypto.{Gcm, is_aes_key, checksum_ieee}
use tezsign.Keychain.KeyState.{
  KeyState, key_state_slot_size, key_state_slot_data_size, key_state_file_size,
  key_state_nonce_size, new_zero_key_state, ensure_key_state, merge_key_states, state_plus_one,
  slot_is_zero, encode_key_state_plain, decode_key_state_plain,
}

-- `corrupted` stands for every error that wraps ErrKeyStateCorrupted.
pub data HwmError : Type 0 where
  corrupted bad_slot_size bad_sealed_size bad_key no_random bad_dek_length : HwmError
  os_error : HwmError

pub data Result {ℓ} (A : Type ℓ) : Type ℓ where
  ok : A → Result A
  err : HwmError → Result A

-- The associated data: "state|id=" + id + "|tz4=" + tz4
unfoldable pub state_aad : List ℕ → List ℕ → List ℕ
state_aad id tz4 = codes "state|id=" ++ (id ++ (codes "|tz4=" ++ tz4))

pub record Decoded : Type 0 where
  pub ks : KeyState
  pub seq : ℕ
  pub missing : Bool

pub record Loaded : Type 0 where
  pub ks : KeyState
  pub seq : ℕ
  pub missing : Bool
  pub corrupted_slot : Bool

-- `(nil, 0, missing, corrupted, err)` is `load_failed err missing corrupted`.
pub data LoadResult : Type 0 where
  loaded : Loaded → LoadResult
  load_failed : HwmError → Bool → Bool → LoadResult

-- errors.Is(err, ErrKeyStateCorrupted)
abbrev pub is_corrupted : Result Decoded → Bool
is_corrupted (ok d) = false
is_corrupted (err corrupted) = true
is_corrupted (err e) = false

-- ReadAt of a whole slot: an error if the file ends before it.
unfoldable pub read_at : List ℕ → ℕ → Option (List ℕ)
read_at file off =
    if ltb (length file) (off + key_state_slot_size)
    then none
    else some (take key_state_slot_size (drop off file))

-- WriteAt of a whole slot; a file that ends before it is filled up with zeros.
unfoldable pub write_at : List ℕ → List ℕ → ℕ → List ℕ
write_at file slot off =
    take off (file ++ replicate (off - length file) 0) ++ (slot ++ drop (off + length slot) file)

module _ (gcm : Gcm) (dek id tz4 : List ℕ) where
  -- `nonce` is what the random source gives, `none` if reading it fails. The result is the slot's
  -- new content.
  unfoldable pub encode_key_state_slot :
      List ℕ → Option (List ℕ) → Option KeyState → ℕ → Result (List ℕ)
  encode_key_state_slot slot none ks seq =
      if not (length slot == key_state_slot_size)
      then err bad_slot_size
      else if not (is_aes_key dek)
      then err bad_key
      else err no_random
  encode_key_state_slot slot (some nonce) ks seq =
      let sealed = nonce ++ gcm.seal dek nonce (encode_key_state_plain ks seq) (state_aad id tz4) in
      if not (length slot == key_state_slot_size)
      then err bad_slot_size
      else if not (is_aes_key dek)
      then err bad_key
      else if not (length sealed == key_state_slot_data_size)
      then err bad_sealed_size
      else ok (sealed ++ put_be32 (checksum_ieee sealed))

  -- The end of `decodeKeyStateSlot`, behind `gcm.Open`.
  unfoldable pub decode_opened : Option (List ℕ) → Result Decoded
  decode_opened none = err corrupted
  decode_opened (some plain) = elim (decode_key_state_plain plain) [
    | none ↦ err corrupted
    | some (ks, seq) ↦ ok (record { ks = ks; seq = seq; missing = false })
  ]

  unfoldable pub decode_key_state_slot : List ℕ → Result Decoded
  decode_key_state_slot slot =
      let payload = take key_state_slot_data_size slot in
      if not (length slot == key_state_slot_size)
      then err bad_slot_size
      else if slot_is_zero slot
      then ok (record { ks = new_zero_key_state; seq = 0; missing = true })
      else if not (checksum_ieee payload == get_be32 (drop key_state_slot_data_size slot))
      then err corrupted
      else if not (is_aes_key dek)
      then err bad_key
      else decode_opened (
          gcm.unseal dek (take key_state_nonce_size payload) (drop key_state_nonce_size payload)
            (state_aad id tz4))

-- The `switch` of `readDoubleBufferKeyState`, over what the two slots decode to.
unfoldable pub choose_state : Result Decoded → Result Decoded → LoadResult
choose_state (ok a) (ok b) =
    if a.missing && b.missing
    then loaded
        (record { ks = new_zero_key_state; seq = 0; missing = true; corrupted_slot = false })
    else if a.missing
    then loaded (record { ks = b.ks; seq = b.seq; missing = false; corrupted_slot = false })
    else if b.missing
    then loaded (record { ks = a.ks; seq = a.seq; missing = false; corrupted_slot = false })
    else if ltb b.seq a.seq
    then loaded (record { ks = a.ks; seq = a.seq; missing = false; corrupted_slot = false })
    else if ltb a.seq b.seq
    then loaded (record { ks = b.ks; seq = b.seq; missing = false; corrupted_slot = false })
    else loaded (record {
      ks = merge_key_states (some a.ks) (some b.ks);
      seq = a.seq;
      missing = false;
      corrupted_slot = false;
    })
choose_state (ok a) (err e) =
    if a.missing
    then loaded (record {
      ks = new_zero_key_state;
      seq = 0;
      missing = false;
      corrupted_slot = is_corrupted (err e);
    })
    else loaded (record {
      ks = state_plus_one (some a.ks);
      seq = a.seq;
      missing = false;
      corrupted_slot = is_corrupted (err e);
    })
choose_state (err e) (ok b) =
    if b.missing
    then loaded (record {
      ks = new_zero_key_state;
      seq = 0;
      missing = false;
      corrupted_slot = is_corrupted (err e);
    })
    else loaded (record {
      ks = state_plus_one (some b.ks);
      seq = b.seq;
      missing = false;
      corrupted_slot = is_corrupted (err e);
    })
choose_state (err e) (err f) = load_failed e false (is_corrupted (err e) || is_corrupted (err f))

-- The `switch` of `chooseNextKeyHWMFileSlot`: the sequence numbers are 0 where a slot is bad.
abbrev pub is_bad : Result Decoded → Bool
is_bad (ok d) = d.missing
is_bad (err e) = true

abbrev pub seq_of : Result Decoded → ℕ
seq_of (ok d) = d.seq
seq_of (err e) = 0

unfoldable pub choose_slot : Result Decoded → Result Decoded → ℕ
choose_slot a b =
    if is_bad a && not (is_bad b)
    then 0
    else if is_bad b && not (is_bad a)
    then 1
    else if leb (seq_of a) (seq_of b)
    then 0
    else 1

module _ (gcm : Gcm) (dek id tz4 : List ℕ) where
  unfoldable pub read_double_buffer_key_state : List ℕ → LoadResult
  read_double_buffer_key_state file = elim (read_at file 0) [
    | none ↦ load_failed corrupted false false
    | some slot_a ↦ elim (read_at file key_state_slot_size) [
      | none ↦ load_failed corrupted false false
      | some slot_b ↦
          choose_state (decode_key_state_slot gcm dek id tz4 slot_a)
            (decode_key_state_slot gcm dek id tz4 slot_b)
    ]
  ]

  unfoldable pub choose_next_key_hwm_file_slot : List ℕ → ℕ
  choose_next_key_hwm_file_slot file = elim (read_at file 0) [
    | none ↦ 0
    | some slot_a ↦ elim (read_at file key_state_slot_size) [
      | none ↦ 1
      | some slot_b ↦
          choose_slot (decode_key_state_slot gcm dek id tz4 slot_a)
            (decode_key_state_slot gcm dek id tz4 slot_b)
    ]
  ]
