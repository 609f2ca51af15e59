-- ===== src/Keychain/Key.antt =====
-- keychain/keys.go: one key on the device, its marks in memory, and the operations that sign, raise
-- the level, unlock, lock and report. The per-key mutex makes each operation one step. A slice that
-- may be nil is an `Option`; wiping memory has no effect that the model could show.
pub mod Signing
pub mod Level
pub mod History
pub mod Persisting
pub mod Durable
pub mod Unlock
pub mod Life
use tezsign.Prelude.{
  ℕ, ◌+◌, ◌%◌, ◌^◌, Bool, true, false, not, ◌&&◌, ◌||◌, List, ◌++◌, Option, none, some, length, ltb,
  leb, ◌==◌, if◌then◌else◌,
}
use tezsign.Prelude.Bytes.{codes}
use tezsign.Keychain.Kinds.{
  SignKind, block, preattestation, attestation, HighWatermark, KindState, zero_watermark,
  to_key_state, ByKind, get_kind, set_kind, for_all_kinds,
}
use tezsign.Keychain.Decode
use tezsign.Keychain.Decode.{Payload, decode_and_validate_sign_payload}
use tezsign.Keychain.Crypto.{Gcm, is_aes_key}
use tezsign.Keychain.KeyState.{KeyState}
use tezsign.Keychain.HwmFile.{HwmError, LoadResult, loaded, load_failed, corrupted}
use tezsign.Keychain.HwmWorker.{
  HwmFile, Faults, OpenResult, opened, open_failed, open_key_hwm_file, persist_async, wait_persist,
  persist, load,
}

pub record GKey : Type 0 where
  pub dek : Option (List ℕ)
  pub enc_secret : Option (List ℕ)
  pub data_nonce : Option (List ℕ)
  pub bl_pubkey : List ℕ
  pub tz4 : List ℕ
  pub watermark : ByKind HighWatermark
  pub hwm_file : Option HwmFile
  pub hwm_seq : ℕ
  pub hwm_corrupted : Bool

-- What the signing key's library does with a 32-byte secret: `FromLEndian` accepts it or not, and
-- `SignCompressed` signs.
pub record Bls : Type 0 where
  pub valid_scalar : List ℕ → Bool
  pub sign_compressed : List ℕ → List ℕ → List ℕ

pub data SignError : Type 0 where
  bad_payload key_locked hwm_not_open state_corrupted stale_watermark : SignError
  bad_key corrupted_secret secret_length invalid_scalar level_too_low close_failed : SignError
  bad_dek : SignError
  open_state : HwmError → SignError
  store_failed : SignError
  persist_state : HwmError → SignError

-- `no_return`: the call panics, or blocks for ever.
pub data Reply {ℓ} (A : Type ℓ) : Type ℓ where
  ok : A → Reply A
  err : SignError → Reply A
  no_return : Reply A

-- The random bytes and the outcome of the one write that an operation makes.
pub record Env : Type 0 where
  pub nonce : Option (List ℕ)
  pub write_fault : Option (List ℕ)

unfoldable pub new_watermarks : ByKind HighWatermark
new_watermarks = for_all_kinds (λ kind. zero_watermark)

unfoldable pub new_gkey : List ℕ → List ℕ → GKey
unfolding new_watermarks
new_gkey bl_pubkey tz4 = record {
  dek = none;
  enc_secret = none;
  data_nonce = none;
  bl_pubkey = bl_pubkey;
  tz4 = tz4;
  watermark = new_watermarks;
  hwm_file = none;
  hwm_seq = 0;
  hwm_corrupted = false;
}

unfoldable pub reset_watermarks : GKey → GKey
reset_watermarks k = record k { watermark = for_all_kinds (λ kind. zero_watermark) }

abbrev pub watermark_of : Option KindState → HighWatermark
watermark_of none = zero_watermark
watermark_of (some st) = record { level = st.level; round = st.round }

-- The marks are reset first, and then set where the state has an entry.
unfoldable pub apply_key_state : Option KeyState → GKey → GKey
unfolding reset_watermarks
apply_key_state none k = reset_watermarks k
apply_key_state (some ks) k = record (reset_watermarks k) {
  watermark = for_all_kinds (λ kind. watermark_of (get_kind ks kind));
}

unfoldable pub key_state_snapshot : GKey → KeyState
unfolding to_key_state
key_state_snapshot k = for_all_kinds (λ kind. some (to_key_state (get_kind k.watermark kind)))

unfoldable pub clear_sensitive_material : GKey → GKey
clear_sensitive_material k = record k {
  dek = none;
  enc_secret = none;
  data_nonce = none;
  hwm_seq = 0;
}

-- Closing waits for the worker, which ends unless it is itself waiting with an answer. `fails` is
-- the error of the operating system, after which the file is closed all the same.
unfoldable pub close_open_file : Bool → GKey → Option HwmFile → GKey × Reply (Unit {0})
close_open_file fails k none = (k, ok tt)
close_open_file fails k (some h) =
    if ltb (length h.responses) 2
    then (record k { hwm_file = none }, if fails then err close_failed else ok tt)
    else (k, no_return)

unfoldable pub close_hwm_file : Bool → GKey → GKey × Reply (Unit {0})
unfolding close_open_file
close_hwm_file fails k = close_open_file fails k k.hwm_file

unfoldable pub lock_key : Bool → GKey → GKey × Reply (Unit {0})
unfolding clear_sensitive_material close_hwm_file
lock_key fails k = close_hwm_file fails (clear_sensitive_material k)

abbrev pub is_some {ℓ} : {A : Type ℓ} → Option A → Bool
is_some none = false
is_some (some a) = true

unfoldable pub is_unlocked : GKey → Bool
is_unlocked k = is_some k.dek && is_some k.enc_secret && is_some k.data_nonce && is_some k.hwm_file

-- The rule of the watermark: a higher level, or a higher round of the same level.
unfoldable pub rises : HighWatermark → ℕ → ℕ → Bool
rises prev level round = ltb prev.level level || (level == prev.level && ltb prev.round round)

-- "bl=" + blPubkey + "|tz4=" + tz4
unfoldable pub secret_aad : GKey → List ℕ
secret_aad k = codes "bl=" ++ (k.bl_pubkey ++ (codes "|tz4=" ++ k.tz4))

-- What happens behind `waitPersist`.
unfoldable pub finish_sign :
    GKey → Payload → ℕ → List ℕ → Option (Option HwmError × HwmFile) → GKey × Reply (List ℕ)
finish_sign k p next_seq sig none = (k, no_return)
finish_sign k p next_seq sig (some (some e, h)) =
    (record k { hwm_file = some h }, err (persist_state e))
finish_sign k p next_seq sig (some (none, h)) = (
  record k {
    watermark = set_kind k.watermark p.kind (record { level = p.level; round = p.round });
    hwm_file = some h;
    hwm_seq = next_seq;
    hwm_corrupted = false;
  },
  ok sig,
)

-- From `nextState` on, with the request already taken by the worker if it is `some`.
unfoldable pub sign_persisted :
    GKey → Payload → ℕ → Reply (List ℕ) → Option HwmFile → GKey × Reply (List ℕ)
unfolding finish_sign
sign_persisted k p next_seq signed none = (k, no_return)
sign_persisted k p next_seq (ok sig) (some h) = finish_sign k p next_seq sig (wait_persist h)
sign_persisted k p next_seq (err e) (some h) = (record k { hwm_file = some h }, err e)
sign_persisted k p next_seq no_return (some h) = (k, no_return)

module _ (gcm : Gcm) (bls : Bls) where
  -- The secret is opened and used between `persistAsync` and `waitPersist`.
  unfoldable pub sign_with_secret : GKey → List ℕ → List ℕ → List ℕ → List ℕ → Reply (List ℕ)
  sign_with_secret k dek enc_secret data_nonce sign_bytes =
      if not (is_aes_key dek)
      then err bad_key
      else elim (gcm.unseal dek data_nonce enc_secret (secret_aad k)) [
        | none ↦ err corrupted_secret
        | some le ↦
            if not (length le == 32)
            then err secret_length
            else if not (bls.valid_scalar le)
            then err invalid_scalar
            else ok (bls.sign_compressed le sign_bytes)
      ]

  unfoldable pub sign_payload :
      List ℕ → Env → GKey → Payload → List ℕ → List ℕ → List ℕ → HwmFile → GKey × Reply (List ℕ)
  unfolding sign_persisted
  sign_payload key_id env k p dek enc_secret data_nonce h =
      let next_state =
        set_kind (key_state_snapshot k) p.kind
          (some (record { level = p.level; round = p.round })) in
      let next_seq = (k.hwm_seq + 1) % 2 ^ 64 in
      let prev = get_kind k.watermark p.kind in
      if k.hwm_corrupted
      then (k, err state_corrupted)
      else if not (rises prev p.level p.round)
      then (k, err stale_watermark)
      else sign_persisted k p next_seq (sign_with_secret k dek enc_secret data_nonce p.sign_bytes)
          (persist_async gcm dek key_id k.tz4 env.nonce env.write_fault next_state next_seq h)

  -- The nil checks, in the order of the source.
  unfoldable pub sign_decoded :
      List ℕ
      → Env
      → GKey
      → Payload
      → Option (List ℕ)
      → Option (List ℕ)
      → Option (List ℕ)
      → Option HwmFile
      → GKey × Reply (List ℕ)
  sign_decoded key_id env k p (some dek) (some enc_secret) (some data_nonce) (some h) =
      sign_payload key_id env k p dek enc_secret data_nonce h
  sign_decoded key_id env k p (some dek) (some enc_secret) (some data_nonce) none =
      (k, err hwm_not_open)
  sign_decoded key_id env k p _ _ _ _ = (k, err key_locked)

  unfoldable pub sign_and_update : List ℕ → List ℕ → Env → GKey → GKey × Reply (List ℕ)
  unfolding sign_decoded
  sign_and_update key_id raw env k = elim (decode_and_validate_sign_payload raw) [
    | Decode.ok p ↦ sign_decoded key_id env k p k.dek k.enc_secret k.data_nonce k.hwm_file
    | Decode.err e ↦ (k, err bad_payload)
    | Decode.panic ↦ (k, no_return)
  ]
