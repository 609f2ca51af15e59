-- ===== src/Keychain/Store.antt =====
-- keychain/store.go: what is kept on disk under the master password. A JSON file is the value that is
-- marshalled in it, a directory is a map; the time of creation is left out. The random bytes and the
-- outcomes of the system's calls are arguments, and so is Argon2id.
pub mod Index
pub mod Keys
pub mod Seed
pub mod Sealing
use tezsign.Prelude.{
  ℕ, ◌+◌, ◌*◌, ◌%◌, ◌^◌, ◌≡◌, Bool, true, false, not, ◌&&◌, ◌||◌, List, [], ◌∷◌, ◌++◌, Option, none,
  some, length, take, drop, get_or, ltb, ◌==◌, if◌then◌else◌,
}
use tezsign.Prelude.Bytes.{codes}
use tezsign.Prelude.Maps.{Map, lookup, insert, delete}
use tezsign.Keychain.Crypto.{Gcm, is_aes_key}
use tezsign.Keychain.Bundle.{
  KeyBundle, encode_bundle, decode_bundle, Decoded, bundle, short, panics,
}
use tezsign.Keychain.Key.Unlock.{Secrets}

pub record Argon2Params : Type 0 where
  pub time : ℕ
  pub memory : ℕ
  pub threads : ℕ
  pub key_len : ℕ

pub record MasterFile : Type 0 where
  pub version : ℕ
  pub salt : List ℕ
  pub params : Argon2Params
  pub next_index : ℕ

pub record KeyMeta : Type 0 where
  pub version : ℕ
  pub key_id : List ℕ
  pub tz4 : List ℕ
  pub bl_pubkey : List ℕ
  pub pop : List ℕ
  pub wrap_nonce : List ℕ
  pub data_nonce : List ℕ

-- The directory of a key: meta.json, encrypted.bin and level2.bin.
pub record KeyDir : Type 0 where
  pub meta : Option KeyMeta
  pub bin : Option (List ℕ)
  pub state : Option (List ℕ)

-- The directory of the store: master.json, seed.bin and keys.
pub record FileStore : Type 0 where
  pub master : Option MasterFile
  pub seed : Option (List ℕ)
  pub keys : Map KeyDir

pub data StoreError : Type 0 where
  file_error already_initialized key_exists id_required bad_kek bad_bundle bad_password : StoreError
  seed_too_short seed_corrupted seed_length : StoreError

pub data StoreResult {ℓ} (A : Type ℓ) : Type ℓ where
  ok : A → StoreResult A
  err : StoreError → StoreResult A
  panic : StoreResult A

infixl 5 ◌>>=◌
abbrev pub ◌>>=◌ {ℓ κ} :
    {A : Type ℓ} {B : Type κ} → StoreResult A → (A → StoreResult B) → StoreResult B
ok a >>= f = f a
err e >>= f = err e
panic >>= f = panic

-- golang.org/x/crypto/argon2: `id_key password salt params`, as long as it is asked to be.
pub record Kdf : Type 0 where
  pub id_key : List ℕ → List ℕ → Argon2Params → List ℕ
  pub length-id_key :
      (password salt : List ℕ) (p : Argon2Params) → length (id_key password salt p) ≡ p.key_len

-- How `writeBytesSync` ends. The file is renamed from a temporary one, and is the old one or the new
-- one; the error may come behind the rename.
pub data WriteOutcome : Type 0 where
  written not_written not_synced : WriteOutcome

unfoldable pub write_sync {ℓ} : {A : Type ℓ} → WriteOutcome → A → Option A → Option A
write_sync not_written a old = old
write_sync _ a old = some a

unfoldable pub write_result : WriteOutcome → StoreResult (Unit {0})
write_result written = ok tt
write_result _ = err file_error

abbrev pub from_file {ℓ} : {A : Type ℓ} → Option A → StoreResult A
from_file none = err file_error
from_file (some a) = ok a

abbrev pub blank_dir : KeyDir
blank_dir = record { meta = none; bin = none; state = none }

unfoldable pub key_dir : FileStore → List ℕ → KeyDir
key_dir s id = elim (lookup id s.keys) [ none ↦ blank_dir | some d ↦ d ]

unfoldable pub set_dir : FileStore → List ℕ → KeyDir → FileStore
set_dir s id d = record s { keys = insert id d s.keys }

abbrev pub is_some {ℓ} : {A : Type ℓ} → Option A → Bool
is_some none = false
is_some (some a) = true

unfoldable pub has_key : FileStore → List ℕ → Bool
unfolding key_dir
has_key s id = is_some (key_dir s id).meta

unfoldable pub read_key_meta : FileStore → List ℕ → StoreResult KeyMeta
unfolding key_dir
read_key_meta s id = from_file (key_dir s id).meta

unfoldable pub read_master : FileStore → StoreResult MasterFile
read_master s = from_file s.master

-- byte(version) and the salt.
unfoldable pub master_aad : MasterFile → List ℕ
master_aad mf = mf.version % 256 ∷ mf.salt

-- `argon2.IDKey` panics with no pass or no thread.
unfoldable pub derive_kek : Kdf → List ℕ → FileStore → StoreResult (List ℕ × MasterFile)
unfolding read_master
derive_kek kdf password s = do
  mf ← read_master s
  if mf.params.time == 0 || mf.params.threads == 0
      then panic
      else ok (kdf.id_key password mf.salt mf.params, mf)

-- cipher.AEAD's Open and Seal panic unless the nonce has 12 bytes.
unfoldable pub open_sealed :
    Gcm → StoreError → List ℕ → List ℕ → List ℕ → List ℕ → StoreResult (List ℕ)
open_sealed gcm e key nonce ct aad =
    if not (is_aes_key key)
    then err bad_kek
    else if not (length nonce == 12)
    then panic
    else elim (gcm.unseal key nonce ct aad) [ none ↦ err e | some plain ↦ ok plain ]

unfoldable pub seal_with : Gcm → List ℕ → List ℕ → List ℕ → List ℕ → StoreResult (List ℕ)
seal_with gcm key nonce plain aad =
    if not (is_aes_key key)
    then err bad_kek
    else if not (length nonce == 12)
    then panic
    else ok (gcm.seal key nonce plain aad)

-- "id=" + id + "|tz4=" + tz4
unfoldable pub wrap_aad : List ℕ → List ℕ → List ℕ
wrap_aad id tz4 = codes "id=" ++ (id ++ (codes "|tz4=" ++ tz4))

-- "bl=" + blPubkey + "|tz4=" + tz4
unfoldable pub data_aad : List ℕ → List ℕ → List ℕ
data_aad bl_pubkey tz4 = codes "bl=" ++ (bl_pubkey ++ (codes "|tz4=" ++ tz4))

-- `stat_fails`: master.json is there, and asking for it fails all the same.
unfoldable pub init_master :
    Bool → List ℕ → WriteOutcome → FileStore → FileStore × StoreResult (Unit {0})
unfolding write_sync write_result
init_master stat_fails salt outcome s =
    if is_some s.master && not stat_fails then (s, err already_initialized) else (
      record s {
        master =
            write_sync outcome
              (record {
                version = 1;
                salt = salt;
                params = record { time = 3; memory = 64 * 1024; threads = 4; key_len = 32 };
                next_index = 1;
              })
              s.master;
      },
      write_result outcome,
    )

-- `seed.bin` is there and can be read, or not, and is then missing or not.
unfoldable pub init_info : Bool → Bool → FileStore → StoreResult (Bool × Bool)
init_info stat_fails open_fails s = if stat_fails then err file_error else elim s.seed [
  | none ↦ ok (is_some s.master, false)
  | some bs ↦
      if open_fails
      then err file_error
      else elim bs [ [] ↦ ok (is_some s.master, false) | b ∷ rest ↦ ok (is_some s.master, b == 1) ]
]
