-- ===== src/Keychain/Key/Life.antt =====
-- The life of a key and its file, as a step relation (keychain/keys.go over keychain/key_hwm_file.go):
-- unlocks, locks, signatures, raised levels, statuses, power cuts and torn writes. Not among the steps
-- are writes that fail while the program goes on, after which the worker turns to the slot that is known
-- to be good, secrets that cannot be opened, and a set level on a key
-- whose marks a status has made zero.
pub mod Ready
pub mod Signing
pub mod Levels
pub mod Steps
pub mod Reopening
pub mod Log
pub mod Safety
use tezsign.Prelude.{
  ℕ, ◌+◌, ◌*◌, ◌^◌, ◌<◌, ◌≡◌, Bool, true, false, List, [], ◌∷◌, ◌++◌, Option, none, some, length,
  All,
}
use tezsign.Keychain.Kinds.{SignKind, get_kind, Above, zero_watermark, for_all_kinds}
use tezsign.Keychain.Decode.{decode_and_validate_sign_payload}
use tezsign.Keychain.Crypto.{Gcm}
use tezsign.Keychain.HwmFile.{HwmError, err, decode_key_state_slot, write_at}
use tezsign.Keychain.HwmWorker.{HwmFile}
use tezsign.Keychain.HwmWorker.Fresh.{no_faults}
use tezsign.Keychain.Key
use tezsign.Keychain.Key.{
  GKey, Bls, Reply, SignError, ok, no_return, bad_key, corrupted_secret, secret_length,
  invalid_scalar, Env, new_gkey, lock_key, sign_and_update,
}
use tezsign.Keychain.Key.Signing.{mark_of_payload}
use tezsign.Keychain.Key.Level.{set_level}
use tezsign.Keychain.Key.History.{Signed, released}
use tezsign.Keychain.Key.Unlock.{Secrets, KeyStatus, unlock, populate_status}

-- A key in memory, and the content of its file, `none` where there is no file yet.
pub record Life : Type 0 where
  pub key : GKey
  pub disk : Option (List ℕ)

-- The content of the file, by the open file if there is one.
abbrev pub file_left : Option HwmFile → Option (List ℕ) → Option (List ℕ)
file_left none disk = disk
file_left (some h) disk = some h.file

abbrev pub settle : Life → GKey → Life
settle l k = record { key = k; disk = file_left k.hwm_file l.disk }

abbrev pub unlocked : Option (List ℕ) × (GKey × Reply (Unit {0})) → Life
unlocked (disk, (k, reply)) = record { key = k; disk = disk }

-- The errors of the secret, which leave a request to the file without a receiver for its answer.
abbrev pub is_secret_error : SignError → Bool
is_secret_error bad_key = true
is_secret_error corrupted_secret = true
is_secret_error secret_length = true
is_secret_error invalid_scalar = true
is_secret_error e = false

abbrev pub secret_fails : Reply (List ℕ) → Bool
secret_fails (ok sig) = false
secret_fails (Key.err e) = is_secret_error e
secret_fails no_return = false

-- Marked as corrupted, so that it signs nothing, and with zero marks: a status that finds a corrupted slot
-- leaves the key so, until a level is set or the file is read again.
pub record IsWiped (k : GKey) : Type 0 where
  pub flagged : k.hwm_corrupted ≡ true
  pub zero_marks : k.watermark ≡ for_all_kinds (λ kind. zero_watermark)

-- Words of the machine, with room for one more level and one more number.
pub record IsBounded (k : GKey) : Type 0 where
  pub level : (kind : SignKind) → (get_kind k.watermark kind).level + 1 < 2 ^ 64
  pub round : (kind : SignKind) → (get_kind k.watermark kind).round < 2 ^ 32
  pub seq : k.hwm_seq + 1 < 2 ^ 64

module _ (gcm : Gcm) (bls : Bls) (id : List ℕ) (s : Secrets) where
  -- A restart: keys are locked, and all that is left is the file.
  abbrev pub restarted : GKey
  restarted = new_gkey s.bl_pubkey s.tz4

  abbrev pub start : Life
  start = record { key = restarted; disk = none }

  abbrev pub signs : List ℕ → List ℕ → GKey → GKey × Reply (List ℕ)
  signs raw random k =
      sign_and_update gcm bls id raw (record { nonce = some random; write_fault = none }) k

  abbrev pub levels : ℕ → List ℕ → GKey → GKey × Reply (Unit {0})
  levels level random k =
      set_level gcm id (record { nonce = some random; write_fault = none }) k level

  -- A step, with the signatures that it releases. A `torn_step` is a power cut in the middle of the
  -- write of a slot; a cut behind the write is the whole step and then a `cut_step`.
  pub data Step : Life → List Signed → Life → Type 0 where
    unlock_step :
        (l : Life) (random : List ℕ) (close_fails : Bool)
        → length random ≡ 12
        → Step l []
            (unlocked (unlock gcm id (some s) no_faults (some random) close_fails l.disk l.key))
    lock_step : (l : Life) (fails : Bool) → Step l [] (settle l (lock_key fails l.key).0)
    sign_step :
        (l : Life) (raw random : List ℕ)
        → length random ≡ 12
        → secret_fails (signs raw random l.key).1 ≡ false
        → Step l
            (released (decode_and_validate_sign_payload raw) (signs raw random l.key).1 [])
            (settle l (signs raw random l.key).0)
    level_step :
        (l : Life) (level : ℕ) (random : List ℕ)
        → length random ≡ 12
        → (IsWiped l.key → ⊥)
        → Step l [] (settle l (levels level random l.key).0)
    status_step : (l : Life) → Step l [] (settle l (populate_status gcm id l.key).0)
    cut_step : (l : Life) → Step l [] (record l { key = restarted })
    torn_step :
        (l : Life) (h : HwmFile) (torn : List ℕ) (e : HwmError)
        → l.key.hwm_file ≡ some h
        → length torn ≡ 100
        → decode_key_state_slot gcm s.dek id s.tz4 torn ≡ err e
        → Step l []
            (record { key = restarted; disk = some (write_at h.file torn (h.next_slot * 100)) })

  -- The lives that steps lead to, with all released signatures, the newest first.
  pub data Reach : List Signed → Life → Type 0 where
    here : Reach [] start
    next :
        {l l' : Life} {log new : List Signed}
        → Reach log l
        → Step l new l'
        → IsBounded l'.key
        → Reach (new ++ log) l'

-- Each signature lies above all earlier ones of its kind.
abbrev pub Climbing : List Signed → Type 0
Climbing [] = Unit {0}
Climbing (x ∷ log) =
    All
      (λ old.
        old.payload.kind ≡ x.payload.kind
        → Above (mark_of_payload old.payload) (mark_of_payload x.payload))
      log
    × Climbing log
