-- ===== src/Keychain/Key/Durable.antt =====
-- A released signature is on the disk: its mark survives a power cut that follows.
use tezsign.Prelude.{
  ℕ, ◌+◌, ◌%◌, ◌^◌, ◌<◌, ◌≡◌, refl, sym, ap, ◌∙◌, arith, Bool, true, not, List, [], ◌∷◌, ◌++◌,
  Option, none, some, if_rule, length, if◌then◌else◌,
}
use mathlib.Core.Path.{subst₂}
use tezsign.Keychain.Kinds.{get_kind, set_kind}
use tezsign.Keychain.Decode
use tezsign.Keychain.Decode.{Payload, Outcome, decode_and_validate_sign_payload}
use tezsign.Keychain.Decode.Layout.{decode_sound}
use tezsign.Keychain.Crypto.{Gcm, is_aes_key}
use tezsign.Keychain.KeyState.{KeyState}
use tezsign.Keychain.KeyState.RoundTrip.{IsEncodable}
use tezsign.Keychain.HwmFile.{HwmError, os_error, read_double_buffer_key_state}
use tezsign.Keychain.HwmFile.Slots.{encode_key_state_slot-sealed}
use tezsign.Keychain.Key.Signing.{SignPost, sign_and_update_post}
use tezsign.Keychain.HwmFile.Recovery.{LoadCovers, HasRoom}
use tezsign.Keychain.HwmWorker.{HwmFile, blank_slot, worker_round, persist_async, wait_persist}
use tezsign.Keychain.HwmWorker.Durable.{IsCurrent, IsCurrent-covers, worker_round-Replaced}
use tezsign.Keychain.Key.Persisting.{
  same_slots, taken, answer, snapshot_set, filled_set, IsEncodable-set,
}
use tezsign.Keychain.Key.{
  GKey, Bls, SignError, Reply, ok, err, no_return, bad_payload, state_corrupted, stale_watermark,
  Env, rises, key_state_snapshot, sign_persisted, sign_with_secret, sign_payload, sign_decoded,
  sign_and_update,
}

module _ (gcm : Gcm) (id dek : List ℕ) where
  -- The file of an unlocked key between two requests: it holds the marks and the number that are in
  -- memory, and no answer is waiting.
  pub record IsDurable (k : GKey) : Type 0 where
    pub h : HwmFile
    pub is_open : k.hwm_file ≡ some h
    pub has_dek : k.dek ≡ some dek
    pub current : IsCurrent gcm dek id k.tz4 (key_state_snapshot k) k.hwm_seq h
    pub answered : h.responses ≡ []

  -- What is known of a reply: with a signature the key is durable again, with its new marks.
  pub record DurablePost (r : GKey × Reply (List ℕ)) : Type 0 where
    pub durable : (sig : List ℕ) → r.1 ≡ ok sig → IsDurable r.0

  nothing : (k : GKey) (e : SignError) → DurablePost (k, err e)
  nothing k e = record { durable = λ sig h. absurd (cc) }

  stuck : (k : GKey) → DurablePost (k, no_return)
  stuck k = record { durable = λ sig h. absurd (cc) }

  module _ (k : GKey) (p : Payload) (nonce : List ℕ) (d : IsDurable k) where
    abbrev next_state : KeyState
    next_state =
        set_kind (key_state_snapshot k) p.kind (some (record { level = p.level; round = p.round }))

    abbrev served : HwmFile
    served = worker_round gcm dek id k.tz4 (some nonce) none next_state (k.hwm_seq + 1) d.h

    served_durable :
        (sig : List ℕ)
        → length nonce ≡ 12
        → is_aes_key dek ≡ true
        → IsEncodable (some next_state) (k.hwm_seq + 1)
        → DurablePost (sign_persisted k p (k.hwm_seq + 1) (ok sig) (some served))
    unfolding sign_persisted
    served_durable sig hn key fits =
        let g : HwmFile = record {
          file = served.file;
          next_slot = served.next_slot;
          responses = [];
        } in
        let a = answer gcm id dek k.tz4 nonce next_state (k.hwm_seq + 1) d.h hn key d.answered in
        rw a (record {
          durable = λ s e. record {
            h = g;
            is_open = refl;
            has_dek = d.has_dek;
            current =
                rw
                  (snapshot_set k p.kind (record { level = p.level; round = p.round }) (some g)
                    (k.hwm_seq + 1))
                  (same_slots gcm id dek k.tz4 next_state (k.hwm_seq + 1) served g refl refl (
                    (worker_round-Replaced gcm dek id k.tz4 (key_state_snapshot k) next_state
                      k.hwm_seq (k.hwm_seq + 1) d.h nonce hn key fits (filled_set k p.kind _)
                      (omega arith) d.current).current));
            answered = refl;
          };
        })

    persisted_durable :
        (signed : Reply (List ℕ))
        → length nonce ≡ 12
        → is_aes_key dek ≡ true
        → IsEncodable (some next_state) (k.hwm_seq + 1)
        → DurablePost (
            sign_persisted k p
              (k.hwm_seq + 1)
              signed
              (persist_async gcm dek id k.tz4 (some nonce) none next_state (k.hwm_seq + 1) d.h))
    persisted_durable signed hn key fits =
        rw (taken gcm id dek k.tz4 nonce next_state (k.hwm_seq + 1) d.h d.answered) (go signed)
      where
        go : (r : Reply (List ℕ)) → DurablePost (sign_persisted k p (k.hwm_seq + 1) r (some served))
        go (ok sig) = served_durable sig hn key fits
        go (err e) = unfold sign_persisted in nothing _ e
        go no_return = unfold sign_persisted in stuck k

  module _ (bls : Bls) (k : GKey) (nonce : List ℕ) (d : IsDurable k) where
    abbrev sound_env : Env
    sound_env = record { nonce = some nonce; write_fault = none }

    abbrev attempt : Payload → List ℕ → List ℕ → GKey × Reply (List ℕ)
    attempt p enc_secret data_nonce =
        sign_persisted k p ((k.hwm_seq + 1) % 2 ^ 64)
          (sign_with_secret gcm bls k dek enc_secret data_nonce p.sign_bytes)
          (persist_async gcm dek id k.tz4 (some nonce) none (next_state k p nonce d)
            ((k.hwm_seq + 1) % 2 ^ 64) d.h)

    payload_durable :
        (p : Payload) (enc_secret data_nonce : List ℕ)
        → length nonce ≡ 12
        → is_aes_key dek ≡ true
        → k.hwm_seq + 1 < 2 ^ 64
        → IsEncodable (some (next_state k p nonce d)) (k.hwm_seq + 1)
        → DurablePost (sign_payload gcm bls id sound_env k p dek enc_secret data_nonce d.h)
    unfolding sign_payload
    payload_durable p enc_secret data_nonce hn key room fits =
        if_rule DurablePost k.hwm_corrupted (k, err state_corrupted)
          (if not (rises (get_kind k.watermark p.kind) p.level p.round)
            then (k, err stale_watermark)
            else attempt p enc_secret data_nonce)
          (λ bad. nothing k _)
          λ _.
            if_rule DurablePost (not (rises (get_kind k.watermark p.kind) p.level p.round))
              (k, err stale_watermark) (attempt p enc_secret data_nonce) (λ stale. nothing k _)
              λ _. rw (no_wrap k.hwm_seq room) (persisted_durable k p nonce d _ hn key fits)
      where
        no_wrap : (n : ℕ) → n + 1 < 2 ^ 64 → (n + 1) % 2 ^ 64 ≡ n + 1
        no_wrap n h = omega arith

    decoded_durable :
        (p : Payload) (enc_secret data_nonce : Option (List ℕ))
        → length nonce ≡ 12
        → is_aes_key dek ≡ true
        → k.hwm_seq + 1 < 2 ^ 64
        → IsEncodable (some (next_state k p nonce d)) (k.hwm_seq + 1)
        → DurablePost
            (sign_decoded gcm bls id sound_env k p (some dek) enc_secret data_nonce (some d.h))
    unfolding sign_decoded
    decoded_durable p (some es) (some dn) hn key room fits =
        payload_durable p es dn hn key room fits
    decoded_durable p none dn hn key room fits = nothing k _
    decoded_durable p (some es) none hn key room fits = nothing k _

    sign_post :
        (raw : List ℕ)
        → length nonce ≡ 12
        → is_aes_key dek ≡ true
        → k.hwm_seq + 1 < 2 ^ 64
        → IsEncodable (some (key_state_snapshot k)) k.hwm_seq
        → DurablePost (sign_and_update gcm bls id raw sound_env k)
    unfolding sign_and_update
    sign_post raw hn key room fits = go (decode_and_validate_sign_payload raw) refl
      where
        go :
            (o : Outcome Payload)
            → decode_and_validate_sign_payload raw ≡ o
            → DurablePost (elim o [
              | Decode.ok p ↦
                  sign_decoded gcm bls id sound_env k p k.dek k.enc_secret k.data_nonce k.hwm_file
              | Decode.err e ↦ (k, err bad_payload)
              | Decode.panic ↦ (k, no_return)
            ])
        go (Decode.ok p) e =
            let (tag, hl, hr, same) = decode_sound raw p e in
            subst₂
              (λ a f.
                DurablePost (sign_decoded gcm bls id sound_env k p a k.enc_secret k.data_nonce f))
              (sym d.has_dek) (sym d.is_open)
              (decoded_durable p k.enc_secret k.data_nonce hn key room (
                IsEncodable-set (key_state_snapshot k) p.kind _ k.hwm_seq fits (omega arith)
                  (omega arith) room))
        go (Decode.err x) e = nothing k _
        go Decode.panic e = stuck k

abbrev answer_of : Option HwmFile → Option (Option HwmError × HwmFile)
answer_of none = none
answer_of (some h) = wait_persist h

abbrev waiting : Option HwmFile → List (Option HwmError)
waiting none = []
waiting (some h) = h.responses

abbrev is_key : Option (List ℕ) → Bool
is_key none = true
is_key (some dek) = is_aes_key dek

-- A write that fails is answered with an error.
unacknowledged :
    (gcm : Gcm) (dek id tz4 nonce torn : List ℕ) (ks : KeyState) (seq : ℕ)
    (h served after : HwmFile)
    → length nonce ≡ 12
    → is_aes_key dek ≡ true
    → h.responses ≡ []
    → persist_async gcm dek id tz4 (some nonce) (some torn) ks seq h ≡ some served
    → wait_persist served ≡ some (none, after)
    → ⊥
unacknowledged gcm dek id tz4 nonce torn ks seq h served after hn key answered taken given =
    refused w is_error (ap answer_of (sym asked ∙ taken) ∙ given)
  where
    w : HwmFile
    w = worker_round gcm dek id tz4 (some nonce) (some torn) ks seq h

    asked : persist_async gcm dek id tz4 (some nonce) (some torn) ks seq h ≡ some w
    asked = unfold persist_async in rw (answered, persist_async) refl

    is_error : w.responses ≡ some os_error ∷ []
    is_error =
        unfold worker_round in
        rw
          (
            encode_key_state_slot-sealed gcm dek id tz4 blank_slot nonce (some ks) seq refl hn key,
            worker_round,
          )
          (ap (λ rs. rs ++ (some os_error ∷ [])) answered)

    refused :
        (g : HwmFile) → g.responses ≡ some os_error ∷ [] → wait_persist g ≡ some (none, after) → ⊥
    refused g e x = unfold wait_persist in absurd (cc)

-- A key between two requests releases no signature when its write fails.
no_release :
    (gcm : Gcm) (id dek nonce torn sig : List ℕ) (k : GKey) (o : Outcome Payload)
    (r : GKey × Reply (List ℕ))
    → length nonce ≡ 12
    → is_aes_key dek ≡ true
    → IsDurable gcm id dek k
    → SignPost gcm id (record { nonce = some nonce; write_fault = some torn }) k o r
    → r.1 ≡ ok sig
    → ⊥
no_release gcm id dek nonce torn sig k (Decode.ok p) (k', ok s) hn key d (up, sound, e, f, w) is =
    unacknowledged gcm w.dek id k.tz4 nonce torn _ _ w.before w.served w.after hn
      (ap is_key (sym w.has_dek ∙ d.has_dek) ∙ key)
      (ap waiting (sym w.is_open ∙ d.is_open) ∙ d.answered) w.is_asked w.is_acknowledged
no_release gcm id dek nonce torn sig k (Decode.ok p) (k', err x) hn key d post is = cc
no_release gcm id dek nonce torn sig k (Decode.ok p) (k', no_return) hn key d post is = cc
no_release gcm id dek nonce torn sig k (Decode.err x) r hn key d post is = cc (ap (λ t. t.1) post)
no_release gcm id dek nonce torn sig k Decode.panic r hn key d post is = cc (ap (λ t. t.1) post)

-- On a key whose file holds its marks and its number as it should between two requests, with a
-- 12-byte nonce, a DEK of an AES size, marks and a number that fit their words, a number that is not
-- the last uint64, and no level after the call that is, whether the write fails or not: when
-- `signAndUpdate` releases a signature, the file again holds the marks and the number of the key,
-- and loading it succeeds with marks that are at least the key's.
pub sign_survives :
    (gcm : Gcm) (bls : Bls) (id raw dek nonce sig : List ℕ) (fault : Option (List ℕ)) (k : GKey)
    → let r =
        sign_and_update gcm bls id raw (record { nonce = some nonce; write_fault = fault }) k in
      length nonce ≡ 12
      → is_aes_key dek ≡ true
      → IsDurable gcm id dek k
      → IsEncodable (some (key_state_snapshot k)) k.hwm_seq
      → k.hwm_seq + 1 < 2 ^ 64
      → HasRoom (key_state_snapshot r.0)
      → r.1 ≡ ok sig
      → (d : IsDurable gcm id dek r.0) × LoadCovers
          (key_state_snapshot r.0)
          (read_double_buffer_key_state gcm dek id r.0.tz4 d.h.file)
sign_survives gcm bls id raw dek nonce sig none k hn key d fits room levels signed =
    let after = (sign_post gcm id dek bls k nonce d raw hn key room fits).durable sig signed in
    (after, IsCurrent-covers gcm dek id _ _ _ after.h levels after.current)
sign_survives gcm bls id raw dek nonce sig (some torn) k hn key d fits room levels signed = absurd (
    no_release gcm id dek nonce torn sig k (decode_and_validate_sign_payload raw) _ hn key d
      (sign_and_update_post gcm bls id raw (record { nonce = some nonce; write_fault = some torn })
        k)
      signed)
