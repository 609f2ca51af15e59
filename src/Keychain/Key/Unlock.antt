-- ===== src/Keychain/Key/Unlock.antt =====
-- `unlock` and `populateStatus` of keychain/keys.go: the marks are read from the file.
pub mod Reopen
pub mod Status
use tezsign.Prelude.{
  ℕ, Bool, true, false, not, List, Option, none, some, length, ◌==◌, ◌&&◌, if◌then◌else◌,
}
use tezsign.Keychain.Kinds.{HighWatermark, ByKind, zero_watermark, for_all_kinds}
use tezsign.Keychain.Crypto.{Gcm}
use tezsign.Keychain.KeyState.{KeyState}
use tezsign.Keychain.HwmFile.{HwmError, corrupted, LoadResult, loaded, load_failed}
use tezsign.Keychain.HwmWorker.{
  HwmFile, Faults, OpenResult, opened, open_failed, open_key_hwm_file, load,
}
use tezsign.Keychain.Key.{
  GKey, Reply, ok, err, no_return, bad_dek, open_state, store_failed, close_hwm_file,
  clear_sensitive_material, apply_key_state, reset_watermarks, is_unlocked,
}

-- What the store's `unlock` returns with no error.
pub record Secrets : Type 0 where
  pub dek : List ℕ
  pub enc_secret : List ℕ
  pub data_nonce : List ℕ
  pub bl_pubkey : List ℕ
  pub tz4 : List ℕ

-- errors.Is(err, ErrKeyStateCorrupted)
abbrev pub is_state_corrupted : HwmError → Bool
is_state_corrupted corrupted = true
is_state_corrupted e = false

unfoldable pub mark_hwm_corrupted : Bool → GKey → GKey
mark_hwm_corrupted b k = record k { hwm_corrupted = b }

-- Under the lock of the key, once the file is open: the old file is closed, with its error only
-- logged, and everything is replaced.
unfoldable pub install :
    Secrets → HwmFile → KeyState → ℕ → Bool → GKey × Reply (Unit {0}) → GKey × Reply (Unit {0})
unfolding clear_sensitive_material apply_key_state
install s h ks seq c (k, no_return) = (k, no_return)
install s h ks seq c (k, _) = (
  apply_key_state (some ks) (record (clear_sensitive_material k) {
    dek = some s.dek;
    enc_secret = some s.enc_secret;
    data_nonce = some s.data_nonce;
    bl_pubkey = s.bl_pubkey;
    tz4 = s.tz4;
    hwm_file = some h;
    hwm_seq = seq;
    hwm_corrupted = c;
  }),
  ok tt,
)

unfoldable pub unlock_opened : Secrets → Bool → GKey → OpenResult → GKey × Reply (Unit {0})
unfolding install close_hwm_file mark_hwm_corrupted
unlock_opened s close_fails k (opened h ks seq c) =
    install s h ks seq c (close_hwm_file close_fails k)
unlock_opened s close_fails k (open_failed e c) =
    (if is_state_corrupted e then mark_hwm_corrupted true k else k, err (open_state e))

-- The disk is the file's content, `none` where there is no file, and is returned as it is left.
unfoldable pub unlock :
    Gcm
    → List ℕ
    → Option Secrets
    → Faults
    → Option (List ℕ)
    → Bool
    → Option (List ℕ)
    → GKey
    → Option (List ℕ) × (GKey × Reply (Unit {0}))
unfolding unlock_opened
unlock gcm id none faults _ close_fails disk k = (disk, (k, err store_failed))
unlock gcm id (some s) faults nonce close_fails disk k =
    if not (length s.dek == 32)
    then (disk, (k, err bad_dek))
    else let (left, r) = open_key_hwm_file gcm s.dek id s.tz4 faults nonce disk in
      (left, unlock_opened s close_fails k r)

-- The fields of a KeyStatus that a key fills in; the others are read from the store.
pub record KeyStatus : Type 0 where
  pub state_corrupted : Bool
  pub unlocked : Bool
  pub marks : ByKind HighWatermark

abbrev pub blank_status : KeyStatus
blank_status = record {
  state_corrupted = false;
  unlocked = false;
  marks = for_all_kinds (λ kind. zero_watermark);
}

-- What an unlocked key makes of the marks that are read.
unfoldable pub refresh : GKey → LoadResult → GKey
unfolding reset_watermarks apply_key_state
refresh k (load_failed e missing c) =
    if is_state_corrupted e then record k { hwm_corrupted = true } else k
refresh k (loaded l) =
    if l.corrupted_slot
    then reset_watermarks (record k { hwm_seq = l.seq; hwm_corrupted = true })
    else if l.missing
    then record (reset_watermarks (record k { hwm_corrupted = false })) { hwm_seq = 0 }
    else apply_key_state (some l.ks) (record k { hwm_seq = l.seq; hwm_corrupted = false })

unfoldable pub report : Bool → GKey → KeyStatus
report unlocked k =
    if k.hwm_corrupted && unlocked
    then record blank_status { state_corrupted = true }
    else if not unlocked
    then blank_status
    else record { state_corrupted = false; unlocked = true; marks = k.watermark }

unfoldable pub populate_status_open :
    Gcm → List ℕ → GKey → Option (List ℕ) → Option HwmFile → GKey × KeyStatus
unfolding refresh report
populate_status_open gcm id k (some dek) (some h) =
    if is_unlocked k
    then (let k' = refresh k (load gcm dek id k.tz4 h) in (k', report true k'))
    else (k, report false k)
populate_status_open gcm id k _ _ = (k, report false k)

unfoldable pub populate_status : Gcm → List ℕ → GKey → GKey × KeyStatus
unfolding populate_status_open
populate_status gcm id k = populate_status_open gcm id k k.dek k.hwm_file
