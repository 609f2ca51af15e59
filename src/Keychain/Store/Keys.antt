-- ===== src/Keychain/Store/Keys.antt =====
-- keychain/store.go: a key is created, opened with the master password, and removed.
pub mod RoundTrip
pub mod Frame
pub mod Errors
use tezsign.Prelude.{ℕ, Bool, not, List, [], ◌∷◌, some, if◌then◌else◌}
use tezsign.Prelude.Maps.{delete}
use tezsign.Keychain.Crypto.{Gcm}
use tezsign.Keychain.Store.{
  KeyMeta, KeyDir, FileStore, StoreResult, ok, err, panic, ◌>>=◌, Kdf, file_error, key_exists,
  id_required, bad_bundle, bad_password, WriteOutcome, written, not_written, not_synced, write_sync,
  write_result, from_file, key_dir, set_dir, has_key, read_key_meta, derive_kek, open_sealed,
  seal_with, wrap_aad, data_aad,
}
use tezsign.Keychain.Bundle.{
  KeyBundle, encode_bundle, Decoded, decode_bundle, bundle, short, panics,
}
use tezsign.Keychain.Key.Unlock.{Secrets}

-- What the random source gives for one key.
pub record KeyRandom : Type 0 where
  pub dek : List ℕ
  pub wrap_nonce : List ℕ
  pub data_nonce : List ℕ

-- How making the directory and writing the two files end.
pub record KeyWrites : Type 0 where
  pub mkdir : Bool
  pub meta : WriteOutcome
  pub bin : WriteOutcome

module _ (gcm : Gcm) (kdf : Kdf) where
  -- What `createKey` is to write, of a key with this name, secret, public key, address and proof.
  unfoldable pub sealed_key :
      KeyRandom
      → List ℕ
      → List ℕ
      → List ℕ
      → List ℕ
      → List ℕ
      → List ℕ
      → FileStore
      → StoreResult (KeyMeta × List ℕ)
  unfolding derive_kek seal_with wrap_aad data_aad
  sealed_key r id password sk bl_pubkey tz4 pop s = do
    (kek, mf) ← derive_kek kdf password s
    wrapped ← seal_with gcm kek r.wrap_nonce r.dek (wrap_aad id tz4)
    secret ← seal_with gcm r.dek r.data_nonce sk (data_aad bl_pubkey tz4)
    ok (
      record {
        version = 1;
        key_id = id;
        tz4 = tz4;
        bl_pubkey = bl_pubkey;
        pop = pop;
        wrap_nonce = r.wrap_nonce;
        data_nonce = r.data_nonce;
      },
      encode_bundle (record { wrapped_dek = wrapped; enc_secret = secret }),
    )

  -- meta.json is written first, with the outcome of the last argument, and encrypted.bin only when
  -- that succeeded.
  unfoldable pub write_files :
      WriteOutcome
      → List ℕ
      → FileStore
      → KeyMeta
      → List ℕ
      → WriteOutcome
      → FileStore × StoreResult (Unit {0})
  unfolding set_dir key_dir write_sync write_result
  write_files bin_write id s meta bin written =
      let d = key_dir s id in
      (
        set_dir s id (record d { meta = some meta; bin = write_sync bin_write bin d.bin }),
        write_result bin_write,
      )
  write_files bin_write id s meta bin not_written = (s, err file_error)
  write_files bin_write id s meta bin not_synced =
      (set_dir s id (record (key_dir s id) { meta = some meta }), err file_error)

  unfoldable pub write_key :
      KeyWrites
      → List ℕ
      → FileStore
      → StoreResult (KeyMeta × List ℕ)
      → FileStore × StoreResult (Unit {0})
  unfolding write_files
  write_key w id s (err e) = (s, err e)
  write_key w id s panic = (s, panic)
  write_key w id s (ok (meta, bin)) = write_files w.bin id s meta bin w.meta

  unfoldable pub create_key :
      KeyRandom
      → KeyWrites
      → List ℕ
      → List ℕ
      → List ℕ
      → List ℕ
      → List ℕ
      → List ℕ
      → FileStore
      → FileStore × StoreResult (Unit {0})
  unfolding has_key set_dir key_dir sealed_key write_key
  create_key r w [] password sk bl_pubkey tz4 pop s = (s, err id_required)
  create_key r w (c ∷ cs) password sk bl_pubkey tz4 pop s =
      let id = c ∷ cs in
      let s' = set_dir s id (key_dir s id) in
      if has_key s id
      then (s, err key_exists)
      else if not w.mkdir
      then (s, err file_error)
      else write_key w id s' (sealed_key r id password sk bl_pubkey tz4 pop s')

  abbrev pub from_bundle : Decoded → StoreResult KeyBundle
  from_bundle (bundle b) = ok b
  from_bundle short = err bad_bundle
  from_bundle panics = panic

  -- `unlock`, over what is in the directory of the key.
  unfoldable pub unlock_dir : List ℕ → List ℕ → FileStore → KeyDir → StoreResult Secrets
  unfolding derive_kek open_sealed wrap_aad
  unlock_dir id password s d = do
    meta ← from_file d.meta
    raw ← from_file d.bin
    b ← from_bundle (decode_bundle raw)
    (kek, mf) ← derive_kek kdf password s
    dek ← open_sealed gcm bad_password kek meta.wrap_nonce b.wrapped_dek (wrap_aad id meta.tz4)
    ok (record {
      dek = dek;
      enc_secret = b.enc_secret;
      data_nonce = meta.data_nonce;
      bl_pubkey = meta.bl_pubkey;
      tz4 = meta.tz4;
    })

  unfoldable pub unlock_key : List ℕ → List ℕ → FileStore → StoreResult Secrets
  unfolding unlock_dir
  unlock_key id password s = unlock_dir id password s (key_dir s id)

-- `os.RemoveAll` succeeds, or leaves some of the directory.
pub data Removal : Type 0 where
  removed : Removal
  left : KeyDir → Removal

unfoldable pub remove_key : Removal → List ℕ → FileStore → FileStore × StoreResult (Unit {0})
unfolding set_dir
remove_key r [] s = (s, err id_required)
remove_key removed (c ∷ cs) s = (record s { keys = delete (c ∷ cs) s.keys }, ok tt)
remove_key (left d) (c ∷ cs) s = (set_dir s (c ∷ cs) d, err file_error)
