-- ===== src/Keychain/Key/Signing.antt =====
-- What one call of `signAndUpdate` does to the marks, on every branch.
use tezsign.Prelude.{
  ℕ, ◌+◌, ◌%◌, ◌^◌, ◌≡◌, refl, true, false, if_rule, not-false, arith, List, Option, none, some,
}
use tezsign.Keychain.Kinds.{HighWatermark, get_kind, set_kind, Above}
use tezsign.Keychain.Decode
use tezsign.Keychain.Decode.{Payload, Outcome, decode_and_validate_sign_payload}
use tezsign.Keychain.Crypto.{Gcm}
use tezsign.Keychain.HwmFile.{HwmError}
use tezsign.Keychain.HwmWorker.{HwmFile, persist_async, wait_persist}
use tezsign.Keychain.Key.{
  GKey, Bls, Reply, ok, err, no_return, bad_payload, Env, rises, key_state_snapshot, finish_sign,
  sign_persisted, sign_payload, sign_decoded, sign_and_update,
}

abbrev pub mark_of_payload : Payload → HighWatermark
mark_of_payload p = record { level = p.level; round = p.round }

pub Above-of_rises :
    (m : HighWatermark) (l r : ℕ) → rises m l r ≡ true → Above m (record { level = l; round = r })
unfolding rises
Above-of_rises m l r h = ground arith

-- The worker was asked to write the marks with the payload's in place of the one of its kind, under the
-- next number, and answered without an error.
pub record IsPersisted (gcm : Gcm) (key_id : List ℕ) (env : Env) (k : GKey) (p : Payload)
    (k' : GKey) : Type 0 where
  pub dek : List ℕ
  pub before : HwmFile
  pub served : HwmFile
  pub after : HwmFile
  pub has_dek : k.dek ≡ some dek
  pub is_open : k.hwm_file ≡ some before
  pub is_asked :
      persist_async gcm dek key_id k.tz4 env.nonce env.write_fault
        (set_kind
          (key_state_snapshot k)
          p.kind
          (some (record { level = p.level; round = p.round })))
        ((k.hwm_seq + 1) % 2 ^ 64)
        before
      ≡ some served
  pub is_acknowledged : wait_persist served ≡ some (none, after)
  pub is_kept : k'.hwm_file ≡ some after

-- The result of a call on a payload that decodes, for each kind of result.
abbrev pub SignedPost : Gcm → List ℕ → Env → GKey → Payload → GKey × Reply (List ℕ) → Type 0
SignedPost gcm key_id env k p (k', ok sig) =
    Above (get_kind k.watermark p.kind) (mark_of_payload p)
    × (k.hwm_corrupted ≡ false)
    × (k'.watermark ≡ set_kind k.watermark p.kind (mark_of_payload p))
    × (k'.hwm_corrupted ≡ false)
    × IsPersisted gcm key_id env k p k'
SignedPost gcm key_id env k p (k', err e) =
    (k'.watermark ≡ k.watermark) × (k'.hwm_corrupted ≡ k.hwm_corrupted)
SignedPost gcm key_id env k p (k', no_return) = k' ≡ k

module _ (gcm : Gcm) (bls : Bls) (key_id : List ℕ) (env : Env) (k : GKey) (p : Payload) where
  abbrev asked : List ℕ → HwmFile → Option HwmFile
  asked dek h =
      persist_async gcm dek key_id k.tz4 env.nonce env.write_fault
        (set_kind (key_state_snapshot k) p.kind
          (some (record { level = p.level; round = p.round })))
        ((k.hwm_seq + 1) % 2 ^ 64) h

  module _ (dek : List ℕ) (h : HwmFile) (has_dek : k.dek ≡ some dek) (is_open : k.hwm_file ≡ some h)
      (up : Above (get_kind k.watermark p.kind) (mark_of_payload p))
      (sound : k.hwm_corrupted ≡ false) where
    finish_post :
        (next_seq : ℕ) (sig : List ℕ) (served : HwmFile)
        (answer : Option (Option HwmError × HwmFile))
        → asked dek h ≡ some served
        → wait_persist served ≡ answer
        → SignedPost gcm key_id env k p (finish_sign k p next_seq sig answer)
    unfolding finish_sign
    finish_post next_seq sig served none a e = refl
    finish_post next_seq sig served (some (some x, g)) a e = (refl, refl)
    finish_post next_seq sig served (some (none, g)) a e = (
      up,
      sound,
      refl,
      refl,
      record {
        dek = dek;
        before = h;
        served = served;
        after = g;
        has_dek = has_dek;
        is_open = is_open;
        is_asked = a;
        is_acknowledged = e;
        is_kept = refl;
      },
    )

    persisted_post :
        (next_seq : ℕ) (signed : Reply (List ℕ)) (taken : Option HwmFile)
        → asked dek h ≡ taken
        → SignedPost gcm key_id env k p (sign_persisted k p next_seq signed taken)
    unfolding sign_persisted
    persisted_post next_seq signed none a = refl
    persisted_post next_seq (ok sig) (some served) a =
        finish_post next_seq sig served (wait_persist served) a refl
    persisted_post next_seq (err e) (some served) a = (refl, refl)
    persisted_post next_seq no_return (some served) a = refl

  payload_post :
      (dek enc_secret data_nonce : List ℕ) (h : HwmFile)
      → k.dek ≡ some dek
      → k.hwm_file ≡ some h
      → SignedPost gcm key_id env k p
          (sign_payload gcm bls key_id env k p dek enc_secret data_nonce h)
  unfolding sign_payload
  payload_post dek enc_secret data_nonce h has_dek is_open =
      if_rule (SignedPost gcm key_id env k p) _ _ _ (λ bad. (refl, refl))
        λ sound.
          if_rule (SignedPost gcm key_id env k p) _ _ _ (λ stale. (refl, refl))
            λ up.
              persisted_post dek h has_dek is_open
                (Above-of_rises _ p.level p.round (not-false _ up)) sound _ _ _ refl

  decoded_post :
      (dek enc_secret data_nonce : Option (List ℕ)) (h : Option HwmFile)
      → k.dek ≡ dek
      → k.hwm_file ≡ h
      → SignedPost gcm key_id env k p
          (sign_decoded gcm bls key_id env k p dek enc_secret data_nonce h)
  unfolding sign_decoded
  decoded_post (some dek) (some enc_secret) (some data_nonce) (some h) d o =
      payload_post dek enc_secret data_nonce h d o
  decoded_post (some dek) (some enc_secret) (some data_nonce) none d o = (refl, refl)
  decoded_post _ _ _ _ d o = (refl, refl)

-- The result of a call, whether the payload decodes or not.
abbrev pub SignPost : Gcm → List ℕ → Env → GKey → Outcome Payload → GKey × Reply (List ℕ) → Type 0
SignPost gcm key_id env k (Decode.ok p) r = SignedPost gcm key_id env k p r
SignPost gcm key_id env k (Decode.err e) r = r ≡ (k, err bad_payload)
SignPost gcm key_id env k Decode.panic r = r ≡ (k, no_return)

pub sign_and_update_post :
    (gcm : Gcm) (bls : Bls) (key_id raw : List ℕ) (env : Env) (k : GKey)
    → SignPost gcm key_id env k
        (decode_and_validate_sign_payload raw)
        (sign_and_update gcm bls key_id raw env k)
unfolding sign_and_update
sign_and_update_post gcm bls key_id raw env k = go (decode_and_validate_sign_payload raw)
  where
    go :
        (o : Outcome Payload)
        → SignPost gcm key_id env k o (elim o [
          | Decode.ok p ↦
              sign_decoded gcm bls key_id env k p k.dek k.enc_secret k.data_nonce k.hwm_file
          | Decode.err e ↦ (k, err bad_payload)
          | Decode.panic ↦ (k, no_return)
        ])
    go (Decode.ok p) =
        decoded_post gcm bls key_id env k p k.dek k.enc_secret k.data_nonce k.hwm_file refl refl
    go (Decode.err e) = refl
    go Decode.panic = refl
