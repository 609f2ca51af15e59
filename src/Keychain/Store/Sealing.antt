-- ===== src/Keychain/Store/Sealing.antt =====
-- Sealing and opening under the key that Argon2id makes of the master password.
use tezsign.Prelude.{ℕ, ◌≡◌, refl, true, false, ◌||◌, List, some, length, ◌==◌}
use tezsign.Keychain.Crypto.{Gcm, is_aes_key}
use tezsign.Keychain.Store.{
  MasterFile, FileStore, StoreError, ok, Kdf, read_master, derive_kek, open_sealed, seal_with,
}

module _ (gcm : Gcm) (kdf : Kdf) (password : List ℕ) (mf : MasterFile) where
  abbrev pub kek : List ℕ
  kek = kdf.id_key password mf.salt mf.params

  -- A master file that Argon2id accepts and that gives a key for AES.
  pub record IsUsable (s : FileStore) : Type 0 where
    pub is_master : s.master ≡ some mf
    pub runs : (mf.params.time == 0) || (mf.params.threads == 0) ≡ false
    pub aes : is_aes_key kek ≡ true

  pub derive_lem : (s : FileStore) → IsUsable s → derive_kek kdf password s ≡ ok (kek, mf)
  unfolding derive_kek read_master
  derive_lem s u = rw (u.is_master) (rw (u.runs) refl)

  pub seal_lem :
      (key nonce plain aad : List ℕ)
      → is_aes_key key ≡ true
      → length nonce ≡ 12
      → seal_with gcm key nonce plain aad ≡ ok (gcm.seal key nonce plain aad)
  unfolding seal_with
  seal_lem key nonce plain aad hk hn = rw (hk, hn) refl

  pub open_lem :
      (e : StoreError) (key nonce plain aad : List ℕ)
      → is_aes_key key ≡ true
      → length nonce ≡ 12
      → open_sealed gcm e key nonce (gcm.seal key nonce plain aad) aad ≡ ok plain
  unfolding open_sealed
  open_lem e key nonce plain aad hk hn = rw (hk, hn) (rw (gcm.unseal-seal key nonce plain aad) refl)
