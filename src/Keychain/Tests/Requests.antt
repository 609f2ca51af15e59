-- ===== src/Keychain/Tests/Requests.antt =====
-- Runs of keychain/keys.go on one unlocked key.
use tezsign.Prelude.{◌⊎◌, true, ◌≡◌, refl, arith, false, List, [], ◌∷◌, none, some, All, replicate}
use tezsign.Prelude.Bytes.{codes, get_be32, put_be64}
use tezsign.Keychain.Kinds.{SignKind, block, preattestation, attestation, to_key_state, get_kind}
use tezsign.Keychain.Decode.{
  decode_consensus, uint32_at, non_negative, decode_and_validate_sign_payload, decode_by_tag,
  byte_at,
}
use tezsign.Keychain.Crypto.{is_aes_key}
use tezsign.Keychain.KeyState.{encode_kind, encode_key_state_plain}
use tezsign.Keychain.KeyState.RoundTrip.{IsEncodable}
use tezsign.Keychain.HwmFile.{encode_key_state_slot, state_aad, read_double_buffer_key_state}
use tezsign.Keychain.HwmFile.Recovery.{LoadCovers, HasRoom}
use tezsign.Keychain.HwmWorker.{persist_async, wait_persist, worker_round}
use tezsign.Keychain.Key.{
  GKey, Env, ok, sign_decoded, sign_payload, sign_persisted, finish_sign, sign_with_secret, rises,
  key_state_snapshot, sign_and_update,
}
use tezsign.Keychain.Key.Level.{LevelPost, set_level, set_level_post}
use tezsign.Keychain.Key.History.{
  Request, sign, level, lock, signatures, signatures-Rising, Rising, AboveMark,
}
use tezsign.Keychain.Key.Durable.{IsDurable, sign_survives}
use tezsign.Keychain.Key.{new_gkey, is_unlocked}
use tezsign.Keychain.Key.Unlock.{Secrets, unlock, populate_status}
use tezsign.Keychain.HwmWorker.Fresh.{no_faults}
use tezsign.Keychain.Key.Unlock.Reopen.{Reopened, unlock_covers}
use tezsign.Keychain.Key.Unlock.Status.{IsDamaged, Reported, populate_status_covers}
use tezsign.Keychain.Ring
use tezsign.Keychain.Ring.{Keys, key_not_found, ring_sign, ring_delete}
use tezsign.Keychain.Ring.Operations.{SignedWith, NoKey, ring_sign_cases}
use tezsign.Keychain.Tests.Setup.{unseal_open, open_cipher, plain_signer, wide_signer}
use tezsign.Keychain.Tests.Decoding.{vote_bytes}
use tezsign.Keychain.Tests.States.{
  old_marks, old_marks-HasRoom, some_key, some_nonce, key_id, address, old_marks-IsEncodable,
  current_file, current_file-IsCurrent, some_key-is_aes_key,
}

abbrev pub unlocked_key : GKey
unlocked_key = record {
  dek = some some_key;
  enc_secret = some (replicate 48 0);
  data_nonce = some some_nonce;
  bl_pubkey = codes "BLpk";
  tz4 = address;
  watermark = record {
    for_block = record { level = 5; round = 0 };
    for_preattestation = record { level = 6; round = 2 };
    for_attestation = record { level = 6; round = 1 };
  };
  hwm_file = some current_file;
  hwm_seq = 41;
  hwm_corrupted = false;
}

abbrev pub sound_write : Env
sound_write = record { nonce = some some_nonce; write_fault = none }

-- A vote, the same vote again, a raised level after a failed write, and a lock.
abbrev history : List Request
history =
    sign vote_bytes sound_write
    ∷ sign vote_bytes sound_write
    ∷ level 9 (record { nonce = some some_nonce; write_fault = some [] })
    ∷ lock false
    ∷ []

signatures-Rising_example :
    Rising (signatures open_cipher plain_signer key_id history unlocked_key)
    × ((kind : SignKind)
        → All
            (AboveMark kind (get_kind unlocked_key.watermark kind))
            (signatures open_cipher plain_signer key_id history unlocked_key))
signatures-Rising_example = signatures-Rising open_cipher plain_signer key_id history unlocked_key

set_level_post_example :
    LevelPost unlocked_key 9 (set_level open_cipher key_id sound_write unlocked_key 9)
set_level_post_example = set_level_post open_cipher key_id sound_write unlocked_key 9

unlocked_key-IsDurable : IsDurable open_cipher key_id some_key unlocked_key
unfolding key_state_snapshot
unlocked_key-IsDurable = record {
  h = current_file;
  is_open = refl;
  has_dek = refl;
  current = current_file-IsCurrent;
  answered = refl;
}

pub signed_vote :
    (sign_and_update open_cipher plain_signer key_id vote_bytes sound_write unlocked_key).1
    ≡ ok (0 ∷ vote_bytes)
unfolding sign_and_update sign_decoded sign_payload sign_persisted finish_sign sign_with_secret
    decode_and_validate_sign_payload decode_by_tag byte_at decode_consensus uint32_at non_negative
    get_be32 is_aes_key rises unseal_open key_state_snapshot to_key_state persist_async worker_round
    wait_persist encode_key_state_slot encode_key_state_plain encode_kind put_be64 state_aad
signed_vote = refl

pub signed_wide :
    (sign_and_update open_cipher wide_signer key_id vote_bytes sound_write unlocked_key).1
    ≡ ok (replicate 96 0)
unfolding sign_and_update sign_decoded sign_payload sign_persisted finish_sign sign_with_secret
    decode_and_validate_sign_payload decode_by_tag byte_at decode_consensus uint32_at non_negative
    get_be32 is_aes_key rises unseal_open key_state_snapshot to_key_state persist_async worker_round
    wait_persist encode_key_state_slot encode_key_state_plain encode_kind put_be64 state_aad
signed_wide = refl

signed_vote-HasRoom : HasRoom (
    key_state_snapshot
      (sign_and_update open_cipher plain_signer key_id vote_bytes sound_write unlocked_key).0)
unfolding sign_and_update sign_decoded sign_payload sign_persisted finish_sign sign_with_secret
    decode_and_validate_sign_payload decode_by_tag byte_at decode_consensus uint32_at non_negative
    get_be32 is_aes_key rises unseal_open key_state_snapshot to_key_state persist_async worker_round
    wait_persist encode_key_state_slot encode_key_state_plain encode_kind put_be64 state_aad
signed_vote-HasRoom block = omega arith
signed_vote-HasRoom preattestation = omega arith
signed_vote-HasRoom attestation = omega arith

snapshot-IsEncodable : IsEncodable (some (key_state_snapshot unlocked_key)) 41
unfolding key_state_snapshot to_key_state
snapshot-IsEncodable = old_marks-IsEncodable

sign_survives_example :
    let after =
      (sign_and_update open_cipher plain_signer key_id vote_bytes sound_write unlocked_key).0 in
    (d : IsDurable open_cipher key_id some_key after) × LoadCovers
      (key_state_snapshot after)
      (read_double_buffer_key_state open_cipher some_key key_id after.tz4 d.h.file)
sign_survives_example =
    sign_survives open_cipher plain_signer key_id vote_bytes some_key some_nonce (0 ∷ vote_bytes)
      none unlocked_key refl some_key-is_aes_key unlocked_key-IsDurable snapshot-IsEncodable
      (omega arith) signed_vote-HasRoom signed_vote

abbrev pub stored : Secrets
stored = record {
  dek = some_key;
  enc_secret = replicate 48 0;
  data_nonce = some_nonce;
  bl_pubkey = codes "BLpk";
  tz4 = address;
}

new_gkey_closed : (new_gkey (codes "BLpk") address).hwm_file ≡ none
unfolding new_gkey
new_gkey_closed = refl

-- The key was restarted: its marks are those of a new key, until it is unlocked.
unlock_covers_example : Reopened old_marks current_file.file (
    unlock open_cipher key_id
      (some stored)
      no_faults
      none
      false
      (some current_file.file)
      (new_gkey (codes "BLpk") address))
unlock_covers_example =
    unlock_covers open_cipher key_id stored (new_gkey (codes "BLpk") address) false old_marks 41
      current_file none refl old_marks-HasRoom current_file-IsCurrent new_gkey_closed

unlocked_key-HasRoom : HasRoom (key_state_snapshot unlocked_key)
unfolding key_state_snapshot to_key_state
unlocked_key-HasRoom block = omega arith
unlocked_key-HasRoom preattestation = omega arith
unlocked_key-HasRoom attestation = omega arith

unlocked_key-is_unlocked : is_unlocked unlocked_key ≡ true
unfolding is_unlocked
unlocked_key-is_unlocked = refl

populate_status_covers_example :
    Reported
      (IsDamaged open_cipher some_key key_id unlocked_key.tz4 unlocked_key-IsDurable.h.file)
      (key_state_snapshot unlocked_key)
      (populate_status open_cipher key_id unlocked_key)
populate_status_covers_example =
    populate_status_covers open_cipher key_id unlocked_key some_key refl unlocked_key-HasRoom
      unlocked_key-IsDurable unlocked_key-is_unlocked

abbrev pub two_keys : Keys
two_keys = (codes "other", new_gkey [] (codes "tz4b")) ∷ (key_id, unlocked_key) ∷ []

ring_sign_cases_example :
    SignedWith open_cipher plain_signer address vote_bytes sound_write two_keys
      (ring_sign open_cipher plain_signer address vote_bytes sound_write two_keys)
    ⊎ (NoKey address two_keys
        × (ring_sign open_cipher plain_signer address vote_bytes sound_write two_keys
            ≡ (two_keys, Ring.err key_not_found)))
ring_sign_cases_example =
    ring_sign_cases open_cipher plain_signer address vote_bytes sound_write two_keys
