-- ===== src/Keychain/Tests/Lives.antt =====
-- A life of a key: it is unlocked with no file, signs, loses power while it writes, and is unlocked
-- again.
use tezsign.Prelude.{
  ℕ, ◌≡◌, refl, arith, Bool, true, false, List, [], ◌∷◌, ◌++◌, some, All, replicate,
}
use mathlib.Core.Path.{subst}
use tezsign.Prelude.Bytes.{get_be32, get_be64, put_be64, bytes_eq}
use tezsign.Keychain.Kinds.{HighWatermark, ByKind, get_kind, AtLeast, to_key_state, every_kind}
use tezsign.Keychain.Decode.{
  decode_consensus, uint32_at, non_negative, decode_and_validate_sign_payload, decode_by_tag,
  byte_at,
}
use tezsign.Keychain.Crypto.{is_aes_key, checksum_ieee}
use tezsign.Keychain.KeyState.{
  KeyState, encode_kind, encode_key_state_plain, decode_kind, decode_key_state_plain, slot_is_zero,
  new_zero_key_state, ensure_key_state, state_plus_one,
}
use tezsign.Keychain.HwmFile.{
  encode_key_state_slot, state_aad, read_at, write_at, err, corrupted, decode_opened,
  decode_key_state_slot, choose_state, choose_slot, read_double_buffer_key_state,
  choose_next_key_hwm_file_slot,
}
use tezsign.Keychain.HwmFile.Slots.{sealed_slot}
use tezsign.Keychain.HwmWorker.{
  HwmFile, new_key_hwm_file, open_key_hwm_file, init_key_hwm_file, write_mirrored_key_state,
  read_key_hwm_state, persist_async, wait_persist, worker_round,
}
use tezsign.Keychain.HwmWorker.Fresh.{no_faults}
use tezsign.Keychain.Key.{
  new_gkey, sign_decoded, sign_payload, sign_persisted, finish_sign, sign_with_secret, rises,
  key_state_snapshot, sign_and_update, apply_key_state, close_hwm_file, close_open_file,
  clear_sensitive_material, reset_watermarks,
}
use tezsign.Keychain.Key.Signing.{mark_of_payload}
use tezsign.Keychain.Key.History.{Signed}
use tezsign.Keychain.Key.Unlock.{unlock, unlock_opened, install}
use tezsign.Keychain.Key.Life.{
  Life, IsWiped, IsBounded, unlocked, Step, Reach, here, next, unlock_step, sign_step, torn_step,
  start, Climbing,
}
use tezsign.Keychain.Key.Life.Safety.{Reach-Climbing}
use tezsign.Keychain.Tests.Setup.{unseal_open, open_cipher, plain_signer}
use tezsign.Keychain.Tests.Decoding.{vote_bytes, vote_payload}
use tezsign.Keychain.Tests.States.{some_key, some_nonce, key_id, address}
use tezsign.Keychain.Tests.Requests.{stored}

abbrev Steps : Life → List Signed → Life → Type 0
Steps l new l' = Step open_cipher plain_signer key_id stored l new l'

-- The marks of a key that has signed one pre-attestation.
abbrev marks : ℕ → ℕ → ByKind HighWatermark
marks level round = record {
  for_block = record { level = 0; round = 0 };
  for_preattestation = record { level = level; round = round };
  for_attestation = record { level = 0; round = 0 };
}

abbrev states : ℕ → ℕ → KeyState
states level round = record {
  for_block = some (record { level = 0; round = 0 });
  for_preattestation = some (record { level = level; round = round });
  for_attestation = some (record { level = 0; round = 0 });
}

abbrev slot : ℕ → ℕ → ℕ → List ℕ
slot level round seq =
    sealed_slot open_cipher some_key key_id address some_nonce (some (states level round)) seq

-- An unlocked key with its file.
abbrev alive : ByKind HighWatermark → ℕ → ℕ → Bool → List ℕ → Life
alive m seq next_slot bad file = record {
  key = record {
    dek = some some_key;
    enc_secret = some stored.enc_secret;
    data_nonce = some stored.data_nonce;
    bl_pubkey = stored.bl_pubkey;
    tz4 = address;
    watermark = m;
    hwm_file = some (record { file = file; next_slot = next_slot; responses = [] });
    hwm_seq = seq;
    hwm_corrupted = bad;
  };
  disk = some file;
}

abbrev unborn : Life
unborn = start open_cipher plain_signer key_id stored

abbrev born : Life
born = alive (marks 0 0) 0 0 false (slot 0 0 0 ++ slot 0 0 0)

abbrev signed : Life
signed = alive (marks 7 1) 1 1 false (slot 7 1 1 ++ slot 0 0 0)

abbrev torn_slot : List ℕ
torn_slot = replicate 100 9

abbrev dead : Life
dead = record { key = new_gkey stored.bl_pubkey address; disk = some (slot 7 1 1 ++ torn_slot) }

birth :
    unlocked (
      unlock open_cipher key_id
        (some stored)
        no_faults
        (some some_nonce)
        false
        unborn.disk
        unborn.key)
    ≡ born
unfolding unlock unlock_opened install new_gkey open_key_hwm_file init_key_hwm_file
    write_mirrored_key_state read_key_hwm_state encode_key_state_slot encode_key_state_plain
    encode_kind put_be64 state_aad is_aes_key new_zero_key_state ensure_key_state apply_key_state
    close_hwm_file close_open_file clear_sensitive_material reset_watermarks new_key_hwm_file
    write_at
birth = refl

abbrev vote_signed : Signed
vote_signed = record { payload = vote_payload; signature = 0 ∷ vote_bytes }

signing : Steps born (vote_signed ∷ []) signed
unfolding sign_and_update sign_decoded sign_payload sign_persisted finish_sign sign_with_secret
    decode_and_validate_sign_payload decode_by_tag byte_at decode_consensus uint32_at non_negative
    get_be32 is_aes_key rises unseal_open key_state_snapshot to_key_state persist_async worker_round
    wait_persist encode_key_state_slot encode_key_state_plain encode_kind put_be64 state_aad
    write_at
signing = sign_step born vote_bytes some_nonce refl refl

torn_slot_unreadable :
    decode_key_state_slot open_cipher some_key key_id address torn_slot ≡ err corrupted
unfolding decode_key_state_slot slot_is_zero get_be32 checksum_ieee
torn_slot_unreadable = refl

tearing : Steps signed [] dead
unfolding write_at encode_key_state_plain encode_kind put_be64 state_aad
tearing = torn_step signed _ torn_slot corrupted refl refl torn_slot_unreadable

abbrev reborn : Life
reborn =
    alive
      (record {
        for_block = record { level = 1; round = 0 };
        for_preattestation = record { level = 8; round = 0 };
        for_attestation = record { level = 1; round = 0 };
      })
      1 1 true (slot 7 1 1 ++ torn_slot)

rebirth :
    unlocked
      (unlock open_cipher key_id (some stored) no_faults (some some_nonce) false dead.disk dead.key)
    ≡ reborn
unfolding unlock unlock_opened install new_gkey open_key_hwm_file read_key_hwm_state
    read_double_buffer_key_state read_at decode_key_state_slot slot_is_zero get_be32 get_be64
    checksum_ieee is_aes_key unseal_open decode_opened decode_key_state_plain decode_kind bytes_eq
    choose_state choose_slot choose_next_key_hwm_file_slot state_plus_one apply_key_state
    close_hwm_file close_open_file clear_sensitive_material reset_watermarks new_key_hwm_file
    encode_key_state_plain encode_kind put_be64 state_aad
rebirth = refl

born-IsBounded : IsBounded born.key
born-IsBounded = record {
  level = every_kind _ (omega arith) (omega arith) (omega arith);
  round = every_kind _ (omega arith) (omega arith) (omega arith);
  seq = omega arith;
}

signed-IsBounded : IsBounded signed.key
signed-IsBounded = record {
  level = every_kind _ (omega arith) (omega arith) (omega arith);
  round = every_kind _ (omega arith) (omega arith) (omega arith);
  seq = omega arith;
}

dead-IsBounded : IsBounded dead.key
unfolding new_gkey
dead-IsBounded = record {
  level = every_kind _ (omega arith) (omega arith) (omega arith);
  round = every_kind _ (omega arith) (omega arith) (omega arith);
  seq = omega arith;
}

reborn-IsBounded : IsBounded reborn.key
reborn-IsBounded = record {
  level = every_kind _ (omega arith) (omega arith) (omega arith);
  round = every_kind _ (omega arith) (omega arith) (omega arith);
  seq = omega arith;
}

birth_step : Steps unborn [] born
birth_step = subst (Steps unborn []) birth (unlock_step unborn some_nonce false refl)

rebirth_step : Steps dead [] reborn
rebirth_step = subst (Steps dead []) rebirth (unlock_step dead some_nonce false refl)

life : Reach open_cipher plain_signer key_id stored (vote_signed ∷ []) reborn
life =
    next
      (next (next (next here birth_step born-IsBounded) signing signed-IsBounded) tearing
        dead-IsBounded)
      rebirth_step reborn-IsBounded

Reach-Climbing_example :
    Climbing (vote_signed ∷ [])
    × ((h : HwmFile)
        → reborn.key.hwm_file ≡ some h
        → (IsWiped reborn.key → ⊥)
        → All
            (λ x.
              AtLeast (mark_of_payload x.payload) (get_kind reborn.key.watermark x.payload.kind))
            (vote_signed ∷ []))
Reach-Climbing_example =
    Reach-Climbing open_cipher plain_signer key_id stored (vote_signed ∷ []) reborn refl life
