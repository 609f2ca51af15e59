-- ===== src/Keychain/Store/Seed.antt =====
-- keychain/store.go: the seed of the deterministic keys, under the master password.
pub mod RoundTrip
pub mod Size
use tezsign.Prelude.{
  ℕ, ◌+◌, Bool, not, List, ◌∷◌, ◌++◌, length, take, drop, get_or, ltb, ◌==◌, if◌then◌else◌,
}
use tezsign.Keychain.Crypto.{Gcm}
use tezsign.Keychain.Store.{
  FileStore, StoreResult, ok, err, panic, ◌>>=◌, Kdf, seed_too_short, seed_corrupted, seed_length,
  WriteOutcome, write_sync, write_result, from_file, read_master, master_aad, derive_kek,
  open_sealed, seal_with,
}

module _ (gcm : Gcm) (kdf : Kdf) where
  unfoldable pub sealed_seed : List ℕ → List ℕ → List ℕ → FileStore → StoreResult (List ℕ)
  unfolding derive_kek seal_with master_aad
  sealed_seed seed nonce password s = do
    (kek, mf) ← derive_kek kdf password s
    seal_with gcm kek nonce seed (master_aad mf)

  -- One byte for the flag, the nonce, and the seed under the key of the password.
  unfoldable pub store_seed :
      List ℕ
      → WriteOutcome
      → Bool
      → FileStore
      → StoreResult (List ℕ)
      → FileStore × StoreResult (Unit {0})
  unfolding write_sync write_result
  store_seed nonce outcome enabled s (err e) = (s, err e)
  store_seed nonce outcome enabled s panic = (s, panic)
  store_seed nonce outcome enabled s (ok ct) = (
    record s { seed = write_sync outcome ((if enabled then 1 else 0) ∷ (nonce ++ ct)) s.seed },
    write_result outcome,
  )

  unfoldable pub write_seed :
      List ℕ
      → List ℕ
      → WriteOutcome
      → List ℕ
      → Bool
      → FileStore
      → FileStore × StoreResult (Unit {0})
  unfolding sealed_seed store_seed
  write_seed seed nonce outcome password enabled s =
      store_seed nonce outcome enabled s (sealed_seed seed nonce password s)

  unfoldable pub read_seed : List ℕ → FileStore → StoreResult (Bool × List ℕ)
  unfolding read_master derive_kek open_sealed master_aad
  read_seed password s = do
    bs ← from_file s.seed
    if ltb (length bs) (1 + 12 + 16) then err seed_too_short else (do
      (kek, mf) ← derive_kek kdf password s
      seed ← open_sealed gcm seed_corrupted kek (take 12 (drop 1 bs)) (drop 13 bs) (master_aad mf)
      if not (length seed == 32) then err seed_length else ok (get_or bs 0 0 == 1, seed))
