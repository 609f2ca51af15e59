-- ===== src/Keychain/Key/Life/Signing.antt =====
-- A signature released by a ready key: the new marks are on the file, and the key is ready again.
use tezsign.Prelude.{
  ℕ, ◌+◌, [], ◌%◌, ◌^◌, ◌<◌, ◌≡◌, inl, inr, refl, sym, arith, true, false, not, List, Option, none,
  some, if_rule, length, ◌==◌, if◌then◌else◌,
}
use mathlib.Core.Path.{subst, subst₂}
use tezsign.Keychain.Kinds.{get_kind, set_kind}
use tezsign.Keychain.Decode
use tezsign.Keychain.Decode.{Payload, Outcome, decode_and_validate_sign_payload}
use tezsign.Keychain.Decode.Layout.{decode_sound}
use tezsign.Keychain.Crypto.{Gcm, is_aes_key}
use tezsign.Keychain.KeyState.{KeyState}
use tezsign.Keychain.KeyState.RoundTrip.{IsEncodable}
use tezsign.Keychain.HwmFile.Recovery.{HasRoom}
use tezsign.Keychain.HwmWorker.{HwmFile, worker_round, persist_async}
use tezsign.Keychain.Key.Persisting.{taken, answer, snapshot_set, filled_set, IsEncodable-set}
use tezsign.Keychain.Key.{
  GKey, Bls, SignError, Reply, ok, err, no_return, bad_payload, state_corrupted, stale_watermark,
  bad_key, corrupted_secret, secret_length, invalid_scalar, Env, rises, secret_aad,
  key_state_snapshot, finish_sign, sign_persisted, sign_with_secret, sign_payload, sign_decoded,
  sign_and_update,
}
use tezsign.Keychain.Key.Life.{secret_fails, is_secret_error}
use tezsign.Keychain.Key.Life.Ready.{IsReady, Lasting, served-IsReady}

abbrev IsSecretReply : Reply (List ℕ) → Type 0
IsSecretReply (ok sig) = Unit {0}
IsSecretReply (err e) = is_secret_error e ≡ true
IsSecretReply no_return = Unit {0}

sign_with_secret_lem :
    (gcm : Gcm) (bls : Bls) (k : GKey) (dek enc_secret data_nonce bytes : List ℕ)
    → IsSecretReply (sign_with_secret gcm bls k dek enc_secret data_nonce bytes)
unfolding sign_with_secret
sign_with_secret_lem gcm bls k dek enc_secret data_nonce bytes =
    if_rule IsSecretReply (not (is_aes_key dek)) (err bad_key) _ (λ _. refl)
      λ _. go (gcm.unseal dek data_nonce enc_secret (secret_aad k))
  where
    go :
        (o : Option (List ℕ))
        → IsSecretReply (elim o [
          | none ↦ err corrupted_secret
          | some le ↦
              if not (length le == 32)
              then err secret_length
              else if not (bls.valid_scalar le)
              then err invalid_scalar
              else ok (bls.sign_compressed le bytes)
        ])
    go none = refl
    go (some le) =
        if_rule IsSecretReply (not (length le == 32)) (err secret_length)
          (if not (bls.valid_scalar le)
            then err invalid_scalar
            else ok (bls.sign_compressed le bytes))
          (λ _. refl)
          λ _.
            if_rule IsSecretReply (not (bls.valid_scalar le)) (err invalid_scalar)
              (ok (bls.sign_compressed le bytes)) (λ _. refl) λ _. tt

module _ (gcm : Gcm) (id dek : List ℕ) where
  -- A call's outcome, with the errors of the secret set apart.
  abbrev pub Signs : GKey → GKey × Reply (List ℕ) → Type 0
  Signs k r = Lasting gcm id dek k (λ reply. secret_fails reply ≡ true) r

  refused : (k : GKey) (e : SignError) → Signs k (k, err e)
  refused k e = record { outcome = inr (inl (refl, λ a h. absurd (cc))) }

  stuck : (k : GKey) → Signs k (k, no_return)
  stuck k = record { outcome = inr (inl (refl, λ a h. absurd (cc))) }

  module _ (floor : KeyState) (k : GKey) (p : Payload) (random : List ℕ)
      (r : IsReady gcm id dek floor k) where
    abbrev next_state : KeyState
    next_state =
        set_kind (key_state_snapshot k) p.kind (some (record { level = p.level; round = p.round }))

    abbrev served : HwmFile
    served = worker_round gcm dek id k.tz4 (some random) none next_state (k.hwm_seq + 1) r.h

    module _ (hn : length random ≡ 12) (key : is_aes_key dek ≡ true)
        (fits : IsEncodable (some next_state) (k.hwm_seq + 1)) where
      released_Signs :
          (sig : List ℕ) → Signs k (sign_persisted k p (k.hwm_seq + 1) (ok sig) (some served))
      unfolding sign_persisted finish_sign
      released_Signs sig =
          rw (answer gcm id dek k.tz4 random next_state (k.hwm_seq + 1) r.h hn key r.answered)
            (record {
              outcome = inr (
                  inr (
                    refl,
                    λ room.
                        served-IsReady gcm id dek floor next_state k _ r random hn key fits
                          (filled_set k p.kind _) (subst HasRoom marks room) refl refl refl refl
                          marks,
                  ));
            })
        where
          g : HwmFile
          g = record { file = served.file; next_slot = served.next_slot; responses = [] }

          marks :
              key_state_snapshot (record k {
                watermark =
                    set_kind k.watermark p.kind (record { level = p.level; round = p.round });
                hwm_file = some g;
                hwm_seq = k.hwm_seq + 1;
                hwm_corrupted = false;
              })
              ≡ next_state
          marks =
              snapshot_set k p.kind (record { level = p.level; round = p.round }) (some g)
                (k.hwm_seq + 1)

      persisted_Signs :
          (signed : Reply (List ℕ))
          → IsSecretReply signed
          → Signs k (
              sign_persisted k p
                (k.hwm_seq + 1)
                signed
                (persist_async gcm dek id k.tz4 (some random) none next_state (k.hwm_seq + 1) r.h))
      persisted_Signs signed honest =
          rw (taken gcm id dek k.tz4 random next_state (k.hwm_seq + 1) r.h r.answered)
            (go signed honest)
        where
          go :
              (q : Reply (List ℕ))
              → IsSecretReply q
              → Signs k (sign_persisted k p (k.hwm_seq + 1) q (some served))
          go (ok sig) _ = released_Signs sig
          go (err e) bad = unfold sign_persisted in record { outcome = inl bad }
          go no_return _ = unfold sign_persisted in stuck k

  module _ (bls : Bls) (floor : KeyState) (k : GKey) (random : List ℕ)
      (r : IsReady gcm id dek floor k) (hn : length random ≡ 12) (key : is_aes_key dek ≡ true)
      (room : k.hwm_seq + 1 < 2 ^ 64)
      (fits : IsEncodable (some (key_state_snapshot k)) k.hwm_seq) where
    abbrev env : Env
    env = record { nonce = some random; write_fault = none }

    abbrev attempt : Payload → List ℕ → List ℕ → ℕ → GKey × Reply (List ℕ)
    attempt p enc_secret data_nonce seq =
        sign_persisted k p seq (sign_with_secret gcm bls k dek enc_secret data_nonce p.sign_bytes) (
          persist_async gcm dek id k.tz4 (some random) none (next_state floor k p random r) seq r.h)

    payload_Signs :
        (p : Payload) (enc_secret data_nonce : List ℕ)
        → IsEncodable (some (next_state floor k p random r)) (k.hwm_seq + 1)
        → Signs k (sign_payload gcm bls id env k p dek enc_secret data_nonce r.h)
    unfolding sign_payload
    payload_Signs p enc_secret data_nonce wide =
        if_rule (Signs k) k.hwm_corrupted (k, err state_corrupted)
          (if not (rises (get_kind k.watermark p.kind) p.level p.round)
            then (k, err stale_watermark)
            else attempt p enc_secret data_nonce ((k.hwm_seq + 1) % 2 ^ 64))
          (λ bad. refused k _)
          λ _.
            if_rule (Signs k) (not (rises (get_kind k.watermark p.kind) p.level p.round))
              (k, err stale_watermark) (attempt p enc_secret data_nonce ((k.hwm_seq + 1) % 2 ^ 64))
              (λ stale. refused k _)
              λ _.
                subst (λ seq. Signs k (attempt p enc_secret data_nonce seq))
                  (no_wrap k.hwm_seq room)
                  (persisted_Signs floor k p random r hn key wide _
                    (sign_with_secret_lem gcm bls k dek enc_secret data_nonce p.sign_bytes))
      where
        no_wrap : (n : ℕ) → n + 1 < 2 ^ 64 → n + 1 ≡ (n + 1) % 2 ^ 64
        no_wrap n h = omega arith

    decoded_Signs :
        (p : Payload) (enc_secret data_nonce : Option (List ℕ))
        → IsEncodable (some (next_state floor k p random r)) (k.hwm_seq + 1)
        → Signs k (sign_decoded gcm bls id env k p (some dek) enc_secret data_nonce (some r.h))
    unfolding sign_decoded
    decoded_Signs p (some es) (some dn) wide = payload_Signs p es dn wide
    decoded_Signs p none dn wide = refused k _
    decoded_Signs p (some es) none wide = refused k _

    pub sign-Signs : (raw : List ℕ) → Signs k (sign_and_update gcm bls id raw env k)
    unfolding sign_and_update
    sign-Signs raw = go (decode_and_validate_sign_payload raw) refl
      where
        go :
            (o : Outcome Payload)
            → decode_and_validate_sign_payload raw ≡ o
            → Signs k (elim o [
              | Decode.ok p ↦
                  sign_decoded gcm bls id env k p k.dek k.enc_secret k.data_nonce k.hwm_file
              | Decode.err e ↦ (k, err bad_payload)
              | Decode.panic ↦ (k, no_return)
            ])
        go (Decode.ok p) e =
            let (tag, hl, hr, same) = decode_sound raw p e in
            subst₂ (λ a f. Signs k (sign_decoded gcm bls id env k p a k.enc_secret k.data_nonce f))
              (sym r.has_dek) (sym r.is_open)
              (decoded_Signs p k.enc_secret k.data_nonce (
                IsEncodable-set (key_state_snapshot k) p.kind _ k.hwm_seq fits (omega arith)
                  (omega arith) room))
        go (Decode.err x) e = refused k _
        go Decode.panic e = stuck k

  abbrev pub Idle : GKey → GKey × Reply (List ℕ) → Type 0
  Idle k r = (r.0 ≡ k) × ((sig : List ℕ) → r.1 ≡ ok sig → ⊥)

  nothing : (k : GKey) (e : SignError) → Idle k (k, err e)
  nothing k e = (refl, λ a h. absurd (cc))

  -- A key whose file is known to be corrupted signs nothing.
  pub sign_flagged :
      (bls : Bls) (raw : List ℕ) (env : Env) (k : GKey)
      → k.hwm_corrupted ≡ true
      → Idle k (sign_and_update gcm bls id raw env k)
  unfolding sign_and_update
  sign_flagged bls raw env k e = go (decode_and_validate_sign_payload raw)
    where
      refused :
          (p : Payload) (a es dn : Option (List ℕ)) (f : Option HwmFile)
          → Idle k (sign_decoded gcm bls id env k p a es dn f)
      refused p (some a) (some es) (some dn) (some h) =
          unfold sign_decoded sign_payload in
          if_rule (Idle k) k.hwm_corrupted _ _ (λ _. nothing k _) λ sound. absurd (cc (e, sound))
      refused p (some a) (some es) (some dn) none = unfold sign_decoded in nothing k _
      refused p (some a) (some es) none f = unfold sign_decoded in nothing k _
      refused p (some a) none dn f = unfold sign_decoded in nothing k _
      refused p none es dn f = unfold sign_decoded in nothing k _

      go :
          (o : Outcome Payload)
          → Idle k (elim o [
            | Decode.ok p ↦
                sign_decoded gcm bls id env k p k.dek k.enc_secret k.data_nonce k.hwm_file
            | Decode.err e ↦ (k, err bad_payload)
            | Decode.panic ↦ (k, no_return)
          ])
      go (Decode.ok p) = refused p k.dek k.enc_secret k.data_nonce k.hwm_file
      go (Decode.err x) = nothing k _
      go Decode.panic = (refl, λ a h. absurd (cc))

  -- A key with no open file signs nothing.
  pub sign_shut :
      (bls : Bls) (raw : List ℕ) (env : Env) (k : GKey)
      → k.hwm_file ≡ none
      → Idle k (sign_and_update gcm bls id raw env k)
  unfolding sign_and_update
  sign_shut bls raw env k e = go (decode_and_validate_sign_payload raw)
    where
      shut :
          (p : Payload) (a es dn : Option (List ℕ))
          → Idle k (sign_decoded gcm bls id env k p a es dn none)
      shut p (some a) (some es) (some dn) = unfold sign_decoded in nothing k _
      shut p (some a) (some es) none = unfold sign_decoded in nothing k _
      shut p (some a) none dn = unfold sign_decoded in nothing k _
      shut p none es dn = unfold sign_decoded in nothing k _

      go :
          (o : Outcome Payload)
          → Idle k (elim o [
            | Decode.ok p ↦
                sign_decoded gcm bls id env k p k.dek k.enc_secret k.data_nonce k.hwm_file
            | Decode.err e ↦ (k, err bad_payload)
            | Decode.panic ↦ (k, no_return)
          ])
      go (Decode.ok p) =
          subst (λ f. Idle k (sign_decoded gcm bls id env k p k.dek k.enc_secret k.data_nonce f))
            (sym e) (shut p k.dek k.enc_secret k.data_nonce)
      go (Decode.err x) = nothing k _
      go Decode.panic = (refl, λ a h. absurd (cc))
