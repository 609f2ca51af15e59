-- ===== src/Keychain/Key/Life/Levels.antt =====
-- A level raised on a ready key: the new marks are on the file, and the key is ready again.
use tezsign.Prelude.{
  ℕ, ◌+◌, ◌%◌, ◌^◌, ◌<◌, ◌≡◌, inl, inr, refl, sym, arith, true, List, [], Option, none, some,
  if_rule, length,
}
use mathlib.Core.Path.{subst, subst₂}
use tezsign.Keychain.Kinds.{block, for_all_kinds, to_key_state}
use tezsign.Keychain.Crypto.{Gcm, is_aes_key}
use tezsign.Keychain.KeyState.{KeyState}
use tezsign.Keychain.KeyState.RoundTrip.{IsEncodable}
use tezsign.Keychain.HwmWorker.{HwmFile, worker_round, persist}
use tezsign.Keychain.Key.Persisting.{taken, answer}
use tezsign.Keychain.Key.{GKey, Reply, err, level_too_low, Env, key_state_snapshot}
use tezsign.Keychain.Key.Level.{finish_level, too_low, set_level_open, set_level}
use tezsign.Keychain.Key.Life.Ready.{IsReady, Lasting, served-IsReady}

abbrev raised : ℕ → KeyState
raised level = for_all_kinds (λ kind. some (record { level = level; round = 0 }))

raised-IsEncodable :
    (level seq : ℕ) → level < 2 ^ 64 → seq < 2 ^ 64 → IsEncodable (some (raised level)) seq
raised-IsEncodable level seq l s = ground arith

module _ (gcm : Gcm) (id dek : List ℕ) where
  abbrev pub Raises : GKey → GKey × Reply (Unit {0}) → Type 0
  Raises k r = Lasting gcm id dek k (λ reply. ⊥) r

  module _ (floor : KeyState) (k : GKey) (level : ℕ) (random : List ℕ)
      (r : IsReady gcm id dek floor k) (hn : length random ≡ 12) (key : is_aes_key dek ≡ true)
      (room : k.hwm_seq + 1 < 2 ^ 64) where
    abbrev served : HwmFile
    served = worker_round gcm dek id k.tz4 (some random) none (raised level) (k.hwm_seq + 1) r.h

    abbrev g : HwmFile
    g = record { file = served.file; next_slot = served.next_slot; responses = [] }

    persist_lem :
        persist gcm dek id k.tz4 (some random) none (raised level) (k.hwm_seq + 1) r.h
        ≡ some (none, g)
    unfolding persist
    persist_lem =
        rw (taken gcm id dek k.tz4 random (raised level) (k.hwm_seq + 1) r.h r.answered, persist)
          (answer gcm id dek k.tz4 random (raised level) (k.hwm_seq + 1) r.h hn key r.answered)

    finish_Raises : Raises k (finish_level k level (k.hwm_seq + 1) (some (none, g)))
    unfolding finish_level key_state_snapshot to_key_state
    finish_Raises = record {
      outcome = inr (
          inr (
            refl,
            λ levels.
                served-IsReady gcm id dek floor (raised level) k _ r random hn key
                  (raised-IsEncodable level (k.hwm_seq + 1) (below (levels block)) room) refl levels
                  refl refl refl refl refl,
          ));
    }
      where
        below : {n : ℕ} → n + 1 < 2 ^ 64 → n < 2 ^ 64
        below h = omega arith

    open_Raises : Raises k (
        set_level_open gcm id
          (record { nonce = some random; write_fault = none })
          k
          level
          (some dek)
          (some r.h))
    unfolding set_level_open
    open_Raises =
        if_rule (Raises k) (too_low k.watermark level) (k, err level_too_low)
          (finish_level k level ((k.hwm_seq + 1) % 2 ^ 64) (
            persist gcm dek id k.tz4 (some random) none (raised level) ((k.hwm_seq + 1) % 2 ^ 64)
              r.h))
          (λ _. record { outcome = inr (inl (refl, λ a h. absurd (cc))) })
          λ _.
            subst
              (λ seq. Raises k (
                finish_level k level seq
                  (persist gcm dek id k.tz4 (some random) none (raised level) seq r.h)))
              (no_wrap k.hwm_seq room)
              (subst (λ a. Raises k (finish_level k level (k.hwm_seq + 1) a)) (sym persist_lem)
                finish_Raises)
      where
        no_wrap : (n : ℕ) → n + 1 < 2 ^ 64 → n + 1 ≡ (n + 1) % 2 ^ 64
        no_wrap n h = omega arith

    pub set_level-Raises :
        Raises k (set_level gcm id (record { nonce = some random; write_fault = none }) k level)
    unfolding set_level
    set_level-Raises =
        subst₂
          (λ a f. Raises k (
            set_level_open gcm id (record { nonce = some random; write_fault = none }) k level a f))
          (sym r.has_dek) (sym r.is_open) open_Raises

  pub set_level_shut :
      (env : Env) (k : GKey) (level : ℕ) → k.hwm_file ≡ none → (set_level gcm id env k level).0 ≡ k
  unfolding set_level set_level_open
  set_level_shut env k level e =
      subst (λ f. (set_level_open gcm id env k level k.dek f).0 ≡ k) (sym e) (go k.dek)
    where
      go : (a : Option (List ℕ)) → (set_level_open gcm id env k level a none).0 ≡ k
      go none = refl
      go (some a) = refl
