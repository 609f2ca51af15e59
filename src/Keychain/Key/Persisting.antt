-- ===== src/Keychain/Key/Persisting.antt =====
-- The steps of a request to the worker, and of the marks that go with it, on a file with no answer
-- waiting.
use tezsign.Prelude.{
  ℕ, ◌+◌, ◌^◌, ◌<◌, ◌≡◌, refl, ap, sym, ◌∙◌, arith, true, false, List, [], ◌∷◌, ◌++◌, Option, none,
  some, length,
}
use tezsign.Keychain.Kinds.{
  SignKind, block, preattestation, attestation, HighWatermark, KindState, set_kind,
}
use tezsign.Keychain.Crypto.{Gcm, is_aes_key}
use tezsign.Keychain.KeyState.{KeyState}
use tezsign.Keychain.KeyState.RoundTrip.{IsEncodable, filled}
use tezsign.Keychain.HwmWorker.{HwmFile, worker_round, persist_async, wait_persist}
use tezsign.Keychain.HwmWorker.Durable.{IsCurrent, worker_round_lem}
use tezsign.Keychain.Key.{GKey, key_state_snapshot}

pub wait_one :
    (w : HwmFile)
    → w.responses ≡ none ∷ []
    → wait_persist w
      ≡ some (none, record { file = w.file; next_slot = w.next_slot; responses = [] })
unfolding wait_persist
wait_one w e = ground arith

pub snapshot_set :
    (k : GKey) (kind : SignKind) (mark : HighWatermark) (h : Option HwmFile) (seq : ℕ)
    → key_state_snapshot (record k {
      watermark = set_kind k.watermark kind mark;
      hwm_file = h;
      hwm_seq = seq;
      hwm_corrupted = false;
    })
      ≡ set_kind
          (key_state_snapshot k)
          kind
          (some (record { level = mark.level; round = mark.round }))
unfolding key_state_snapshot
snapshot_set k block mark h seq = refl
snapshot_set k preattestation mark h seq = refl
snapshot_set k attestation mark h seq = refl

pub filled_set :
    (k : GKey) (kind : SignKind) (st : KindState)
    → filled (some (set_kind (key_state_snapshot k) kind (some st)))
      ≡ set_kind (key_state_snapshot k) kind (some st)
unfolding key_state_snapshot
filled_set k block st = refl
filled_set k preattestation st = refl
filled_set k attestation st = refl

pub IsEncodable-set :
    (ks : KeyState) (kind : SignKind) (st : KindState) (seq : ℕ)
    → IsEncodable (some ks) seq
    → st.level < 2 ^ 64
    → st.round < 2 ^ 32
    → seq + 1 < 2 ^ 64
    → IsEncodable (some (set_kind ks kind (some st))) (seq + 1)
IsEncodable-set ks block st seq e l r s = ground (arith, e)
IsEncodable-set ks preattestation st seq e l r s = ground (arith, e)
IsEncodable-set ks attestation st seq e l r s = ground (arith, e)

module _ (gcm : Gcm) (id dek : List ℕ) where
  pub same_slots :
      (tz4 : List ℕ) (ks : KeyState) (seq : ℕ) (g h : HwmFile)
      → g.file ≡ h.file
      → g.next_slot ≡ h.next_slot
      → IsCurrent gcm dek id tz4 ks seq g
      → IsCurrent gcm dek id tz4 ks seq h
  same_slots tz4 ks seq g h f n c = record {
    slot_a = c.slot_a;
    slot_b = c.slot_b;
    length_a = c.length_a;
    length_b = c.length_b;
    whole = sym f ∙ c.whole;
    side = rw n at c.side;
  }

  pub taken :
      (tz4 nonce : List ℕ) (ks : KeyState) (seq : ℕ) (h : HwmFile)
      → h.responses ≡ []
      → persist_async gcm dek id tz4 (some nonce) none ks seq h
        ≡ some (worker_round gcm dek id tz4 (some nonce) none ks seq h)
  unfolding persist_async
  taken tz4 nonce ks seq h e = rw (e, persist_async) refl

  -- The answer that is received is the one to this request.
  pub answer :
      (tz4 nonce : List ℕ) (ks : KeyState) (seq : ℕ) (h : HwmFile)
      → length nonce ≡ 12
      → is_aes_key dek ≡ true
      → h.responses ≡ []
      → let w = worker_round gcm dek id tz4 (some nonce) none ks seq h in
        wait_persist w
        ≡ some (none, record { file = w.file; next_slot = w.next_slot; responses = [] })
  answer tz4 nonce ks seq h hn key e = wait_one _ (
      ap (λ w. w.responses) (worker_round_lem gcm dek id tz4 ks seq h nonce hn key)
      ∙ ap (λ rs. rs ++ (none ∷ [])) e)
