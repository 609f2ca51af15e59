-- ===== src/Keychain/Store/Keys/RoundTrip.antt =====
-- A key is unlocked, and signs, as it was created.
use tezsign.Prelude.{
  ℕ, ◌+◌, ◌≡◌, refl, ap, sym, ◌∙◌, arith, true, false, List, [], ◌∷◌, some, length, append-nil,
}
use tezsign.Prelude.Maps.{lookup, lookup-insert}
use tezsign.Keychain.Crypto.{Gcm, is_aes_key}
use tezsign.Keychain.Bundle.{
  KeyBundle, encode_bundle, decode_bundle, bundle, decode_bundle-encode_bundle,
}
use tezsign.Keychain.Key.Unlock.{Secrets}
use tezsign.Keychain.Store.{
  MasterFile, KeyMeta, KeyDir, FileStore, ok, Kdf, bad_password, written, write_sync, write_result,
  key_dir, set_dir, has_key, wrap_aad, data_aad,
}
use tezsign.Keychain.Store.Keys.{
  KeyRandom, KeyWrites, sealed_key, write_files, write_key, create_key, unlock_dir, unlock_key,
}
use tezsign.Keychain.Store.Sealing.{kek, IsUsable, derive_lem, seal_lem, open_lem}
use tezsign.Keychain.Key
use tezsign.Keychain.Key.{GKey, Bls, secret_aad, sign_with_secret}

module _ (gcm : Gcm) (kdf : Kdf) (password : List ℕ) (mf : MasterFile) where
  module _ (r : KeyRandom) (w : KeyWrites) (c : ℕ) (cs sk bl_pubkey tz4 pop : List ℕ)
      (s : FileStore) where
    abbrev id : List ℕ
    id = c ∷ cs

    abbrev made : FileStore
    made = set_dir s id (key_dir s id)

    abbrev parts : KeyBundle
    parts = record {
      wrapped_dek = gcm.seal (kek gcm kdf password mf) r.wrap_nonce r.dek (wrap_aad id tz4);
      enc_secret = gcm.seal r.dek r.data_nonce sk (data_aad bl_pubkey tz4);
    }

    abbrev new_meta : KeyMeta
    new_meta = record {
      version = 1;
      key_id = id;
      tz4 = tz4;
      bl_pubkey = bl_pubkey;
      pop = pop;
      wrap_nonce = r.wrap_nonce;
      data_nonce = r.data_nonce;
    }

    abbrev new_dir : KeyDir
    new_dir = record {
      meta = some new_meta;
      bin = some (encode_bundle parts);
      state = (key_dir made id).state;
    }

    abbrev after : FileStore
    after = set_dir made id new_dir

    -- The random source gives what it is asked for.
    pub record IsSound : Type 0 where
      pub dek_size : length r.dek ≡ 32
      pub wrap_size : length r.wrap_nonce ≡ 12
      pub data_size : length r.data_nonce ≡ 12
      pub sk_size : length sk ≡ 32
      pub makes : w.mkdir ≡ true
      pub meta_written : w.meta ≡ written
      pub bin_written : w.bin ≡ written

    made-IsUsable : IsUsable gcm kdf password mf s → IsUsable gcm kdf password mf made
    unfolding set_dir
    made-IsUsable u = record { is_master = u.is_master; runs = u.runs; aes = u.aes }

    after-IsUsable : IsUsable gcm kdf password mf s → IsUsable gcm kdf password mf after
    unfolding set_dir
    after-IsUsable u = record { is_master = u.is_master; runs = u.runs; aes = u.aes }

    dek_aes : IsSound → is_aes_key r.dek ≡ true
    unfolding is_aes_key
    dek_aes x = rw (x.dek_size) refl

    sealed_lem :
        IsUsable gcm kdf password mf s
        → IsSound
        → sealed_key gcm kdf r id password sk bl_pubkey tz4 pop made
          ≡ ok (new_meta, encode_bundle parts)
    unfolding sealed_key
    sealed_lem u x = rw (derive_lem gcm kdf password mf made (made-IsUsable u)) (
        rw
          (seal_lem gcm kdf password mf (kek gcm kdf password mf) r.wrap_nonce r.dek
            (wrap_aad id tz4) u.aes x.wrap_size)
          (rw
            (seal_lem gcm kdf password mf r.dek r.data_nonce sk (data_aad bl_pubkey tz4) (dek_aes x)
              x.data_size)
            refl))

    written_lem :
        IsSound → write_key gcm kdf w id made (ok (new_meta, encode_bundle parts)) ≡ (after, ok tt)
    unfolding write_key write_files write_sync write_result
    written_lem x = rw (x.meta_written, x.bin_written) refl

    create_lem :
        IsUsable gcm kdf password mf s
        → IsSound
        → has_key s id ≡ false
        → create_key gcm kdf r w id password sk bl_pubkey tz4 pop s ≡ (after, ok tt)
    unfolding create_key
    create_lem u x fresh = rw (fresh, x.makes) (rw (sealed_lem u x) (written_lem x))

    found : lookup id after.keys ≡ some new_dir
    unfolding set_dir
    found = lookup-insert id new_dir made.keys

    pub has_key-after : has_key after id ≡ true
    unfolding has_key key_dir
    has_key-after = rw (found, key_dir) refl

    reads_bundle : IsSound → decode_bundle (encode_bundle parts) ≡ bundle parts
    reads_bundle x =
        ap decode_bundle (sym (append-nil (encode_bundle parts)))
        ∙ decode_bundle-encode_bundle parts [] (omega (arith, wrapped, x.dek_size))
            (omega (arith, secret, x.sk_size))
      where
        wrapped : length parts.wrapped_dek ≡ length r.dek + 16
        wrapped = gcm.length-seal (kek gcm kdf password mf) r.wrap_nonce r.dek (wrap_aad id tz4)

        secret : length parts.enc_secret ≡ length sk + 16
        secret = gcm.length-seal r.dek r.data_nonce sk (data_aad bl_pubkey tz4)

    after_dir : key_dir after id ≡ new_dir
    unfolding key_dir
    after_dir = rw (found, key_dir) refl

    abbrev pub secrets : Secrets
    secrets = record {
      dek = r.dek;
      enc_secret = parts.enc_secret;
      data_nonce = r.data_nonce;
      bl_pubkey = bl_pubkey;
      tz4 = tz4;
    }

    unlock_dir_lem :
        IsUsable gcm kdf password mf s
        → IsSound
        → unlock_dir gcm kdf id password after new_dir ≡ ok secrets
    unfolding unlock_dir
    unlock_dir_lem u x = rw (reads_bundle x) (
        rw (derive_lem gcm kdf password mf after (after-IsUsable u)) (
          rw
            (open_lem gcm kdf password mf bad_password (kek gcm kdf password mf) r.wrap_nonce r.dek
              (wrap_aad id tz4) u.aes x.wrap_size)
            refl))

    pub unlock_lem :
        IsUsable gcm kdf password mf s → IsSound → unlock_key gcm kdf id password after ≡ ok secrets
    unfolding unlock_key
    unlock_lem u x = ap (unlock_dir gcm kdf id password after) after_dir ∙ unlock_dir_lem u x

    -- A key that is created in a store with a master file that can be used, under a name that no key
    -- has, with random bytes and a secret of the sizes that the code asks for, and writes that succeed:
    -- the call succeeds, the store has the key, and unlocking it under the same password gives the DEK,
    -- the sealed secret, the public key and the address that it was created with.
    pub unlock_key-create_key :
        IsUsable gcm kdf password mf s
        → IsSound
        → has_key s id ≡ false
        → let made = create_key gcm kdf r w id password sk bl_pubkey tz4 pop s in
          (made.1 ≡ ok tt)
          × (has_key made.0 id ≡ true)
          × (unlock_key gcm kdf id password made.0 ≡ ok secrets)
    unlock_key-create_key u x fresh =
        let e = create_lem u x fresh in
        (
          ap (λ t. t.1) e,
          ap (λ t. has_key t.0 id) e ∙ has_key-after,
          ap (λ t. unlock_key gcm kdf id password t.0) e ∙ unlock_lem u x,
        )

    secret_signs :
        (bls : Bls) (k : GKey) (bytes : List ℕ)
        → IsSound
        → bls.valid_scalar sk ≡ true
        → sign_with_secret gcm bls
            (record k { bl_pubkey = bl_pubkey; tz4 = tz4 })
            secrets.dek
            secrets.enc_secret
            secrets.data_nonce
            bytes
          ≡ Key.ok (bls.sign_compressed sk bytes)
    unfolding sign_with_secret secret_aad data_aad
    secret_signs bls k bytes x valid = rw (dek_aes x) (
        rw (gcm.unseal-seal r.dek r.data_nonce sk (data_aad bl_pubkey tz4))
          (rw (x.sk_size, valid) refl))

    -- What the store's `unlock` returns, with the signature of a key that has its public key and address.
    pub record Unlocks (bls : Bls) (k : GKey) (bytes : List ℕ) (made : FileStore) : Type 0 where
      pub found : Secrets
      pub unlocked : unlock_key gcm kdf id password made ≡ ok found
      pub signs :
          sign_with_secret gcm bls
            (record k { bl_pubkey = found.bl_pubkey; tz4 = found.tz4 })
            found.dek
            found.enc_secret
            found.data_nonce
            bytes
          ≡ Key.ok (bls.sign_compressed sk bytes)

    -- A key is created in a store with a master file that can be used, under a name that no key has, with
    -- random bytes and a secret of the sizes that the code asks for, and writes that succeed. Then the
    -- store's `unlock` under the same password succeeds, and what it returns is enough to sign: any key,
    -- once it has the public key and the address that it returns, signs any bytes with the DEK, the sealed
    -- secret and the nonce that it returns, by the secret that the key was created with, if the library
    -- takes that secret.
    pub created_key_signs :
        (bls : Bls) (k : GKey) (bytes : List ℕ)
        → IsUsable gcm kdf password mf s
        → IsSound
        → has_key s id ≡ false
        → bls.valid_scalar sk ≡ true
        → Unlocks bls k bytes (create_key gcm kdf r w id password sk bl_pubkey tz4 pop s).0
    created_key_signs bls k bytes u x fresh valid = record {
      found = secrets;
      unlocked = (unlock_key-create_key u x fresh).2;
      signs = secret_signs bls k bytes x valid;
    }
