-- ===== src/Keychain/Store/Seed/RoundTrip.antt =====
-- The seed is read back under the password that it was written under.
use tezsign.Prelude.{
  ℕ, ◌≡◌, refl, ap, ◌∙◌, arith, Bool, List, ◌∷◌, ◌++◌, some, length, ◌==◌, if◌then◌else◌,
  length-append, take-append_exact, drop-append_exact, ltb-false,
}
use tezsign.Keychain.Crypto.{Gcm}
use tezsign.Keychain.Store.{
  MasterFile, FileStore, ok, err, Kdf, written, not_written, file_error, write_sync, write_result,
  master_aad,
}
use tezsign.Keychain.Store.Seed.{sealed_seed, store_seed, write_seed, read_seed}
use tezsign.Keychain.Store.Sealing.{kek, IsUsable, derive_lem, seal_lem}

module _ (gcm : Gcm) (kdf : Kdf) (password : List ℕ) (mf : MasterFile) where
  module _ (s : FileStore) (seed nonce : List ℕ) (enabled : Bool) where
    abbrev pub ct : List ℕ
    ct = gcm.seal (kek gcm kdf password mf) nonce seed (master_aad mf)

    abbrev pub seed_file : List ℕ
    seed_file = (if enabled then 1 else 0) ∷ (nonce ++ ct)

    abbrev pub seeded : FileStore
    seeded = record s { seed = some seed_file }

    seeded-IsUsable : IsUsable gcm kdf password mf s → IsUsable gcm kdf password mf seeded
    seeded-IsUsable u = record { is_master = u.is_master; runs = u.runs; aes = u.aes }

    pub write_seed_lem :
        IsUsable gcm kdf password mf s
        → length nonce ≡ 12
        → write_seed gcm kdf seed nonce written password enabled s ≡ (seeded, ok tt)
    unfolding write_seed sealed_seed
    write_seed_lem u hn = rw (derive_lem gcm kdf password mf s u) (
        rw
          (seal_lem gcm kdf password mf (kek gcm kdf password mf) nonce seed (master_aad mf) u.aes
            hn)
          stored)
      where
        stored : store_seed gcm kdf nonce written enabled s (ok ct) ≡ (seeded, ok tt)
        stored = unfold store_seed write_sync write_result in refl

    -- A write that fails leaves the seed that was there.
    pub write_seed_unwritten :
        IsUsable gcm kdf password mf s
        → length nonce ≡ 12
        → write_seed gcm kdf seed nonce not_written password enabled s ≡ (s, err file_error)
    unfolding write_seed sealed_seed
    write_seed_unwritten u hn = rw (derive_lem gcm kdf password mf s u) (
        rw
          (seal_lem gcm kdf password mf (kek gcm kdf password mf) nonce seed (master_aad mf) u.aes
            hn)
          unstored)
      where
        unstored : store_seed gcm kdf nonce not_written enabled s (ok ct) ≡ (s, err file_error)
        unstored = unfold store_seed write_sync write_result in refl

    flag : (if enabled then 1 else 0) == 1 ≡ enabled
    flag = ground arith

    pub read_seed_lem :
        IsUsable gcm kdf password mf s
        → length nonce ≡ 12
        → length seed ≡ 32
        → read_seed gcm kdf password seeded ≡ ok (enabled, seed)
    unfolding read_seed
    read_seed_lem u hn hs =
        rw
          (
            ltb-false (length seed_file) 29 (
                omega (
                  arith,
                  length-append nonce ct,
                  gcm.length-seal (kek gcm kdf password mf) nonce seed (master_aad mf),
                )),
            derive_lem gcm kdf password mf seeded (seeded-IsUsable u),
            take-append_exact 12 nonce ct hn,
            drop-append_exact 12 nonce ct hn,
          )
          (rw (u.aes, hn)
            (rw (gcm.unseal-seal (kek gcm kdf password mf) nonce seed (master_aad mf))
              (rw hs (ap (λ b. ok (b, seed)) flag))))

  -- With a master file that can be used, a 12-byte nonce and a write that succeeds, a seed of 32 bytes
  -- is read back under the same password, with its flag.
  pub read_seed-write_seed :
      (s : FileStore) (seed nonce : List ℕ) (enabled : Bool)
      → IsUsable gcm kdf password mf s
      → length nonce ≡ 12
      → length seed ≡ 32
      → let r = write_seed gcm kdf seed nonce written password enabled s in
        (r.1 ≡ ok tt) × (read_seed gcm kdf password r.0 ≡ ok (enabled, seed))
  read_seed-write_seed s seed nonce enabled u hn hs =
      let e = write_seed_lem s seed nonce enabled u hn in
      (
        ap (λ r. r.1) e,
        ap (λ r. read_seed gcm kdf password r.0) e ∙ read_seed_lem s seed nonce enabled u hn hs,
      )
