-- ===== src/Keychain/Store/Keys/Errors.antt =====
-- Which errors creating a key in the store has.
use tezsign.Prelude.{
  ℕ, ◌≡◌, ◌≢◌, false, not, ◌||◌, List, [], ◌∷◌, Option, none, some, length, if_rule, if◌then◌else◌,
  ◌==◌,
}
use tezsign.Keychain.Crypto.{Gcm, is_aes_key}
use tezsign.Keychain.Store.{
  MasterFile, KeyMeta, FileStore, StoreResult, ok, err, panic, ◌>>=◌, Kdf, key_exists, bad_kek,
  file_error, WriteOutcome, written, not_written, not_synced, from_file, key_dir, set_dir, has_key,
  write_result, read_master, derive_kek, seal_with,
}
use tezsign.Keychain.Store.Keys.{
  KeyRandom, KeyWrites, sealed_key, write_files, write_key, create_key,
}

-- The store's `createKey` reports ErrKeyExists for a key that is there, and for no other reason.
pub record IsOther {ℓ} {A : Type ℓ} (r : StoreResult A) : Type ℓ where
  pub other : r ≢ err key_exists

IsOther-ok {ℓ} : {A : Type ℓ} (a : A) → IsOther (ok a)
IsOther-ok a = record { other = λ e. cc }

IsOther-bind {ℓ κ} :
    {A : Type ℓ} {B : Type κ} (r : StoreResult A) (f : A → StoreResult B)
    → IsOther r
    → ((a : A) → IsOther (f a))
    → IsOther (◌>>=◌ r f)
IsOther-bind (ok a) f h g = g a
IsOther-bind (err e) f h g = record { other = λ x. h.other (cc) }
IsOther-bind panic f h g = record { other = λ x. cc }

derive_kek-IsOther :
    (kdf : Kdf) (password : List ℕ) (s : FileStore) → IsOther (derive_kek kdf password s)
unfolding derive_kek read_master
derive_kek-IsOther kdf password s = go s.master
  where
    go :
        (m : Option MasterFile)
        → IsOther {A = List ℕ × MasterFile} (
            from_file m >>= λ mf.
            if mf.params.time == 0 || mf.params.threads == 0
            then panic
            else ok (kdf.id_key password mf.salt mf.params, mf))
    go none = record { other = λ e. cc }
    go (some mf) =
        if_rule IsOther ((mf.params.time == 0) || (mf.params.threads == 0)) panic
          (ok (kdf.id_key password mf.salt mf.params, mf)) (λ _. record { other = λ e. cc })
          λ _. record { other = λ e. cc }

seal_with-IsOther :
    (gcm : Gcm) (key nonce plain aad : List ℕ) → IsOther (seal_with gcm key nonce plain aad)
unfolding seal_with
seal_with-IsOther gcm key nonce plain aad =
    if_rule IsOther (not (is_aes_key key)) (err bad_kek) _ (λ _. record { other = λ e. cc })
      λ _.
        if_rule IsOther (not (length nonce == 12)) panic (ok _) (λ _. record { other = λ e. cc })
          λ _. record { other = λ e. cc }

module _ (gcm : Gcm) (kdf : Kdf) (r : KeyRandom) (w : KeyWrites) where
  sealed_key-IsOther :
      (id password sk bl tz4 pop : List ℕ) (s : FileStore)
      → IsOther (sealed_key gcm kdf r id password sk bl tz4 pop s)
  unfolding sealed_key
  sealed_key-IsOther id password sk bl tz4 pop s =
      IsOther-bind (derive_kek kdf password s) _ (derive_kek-IsOther kdf password s) λ km.
        IsOther-bind (seal_with gcm km.0 r.wrap_nonce r.dek _) _ (seal_with-IsOther gcm _ _ _ _)
          λ wrapped.
            IsOther-bind (seal_with gcm r.dek r.data_nonce sk _) _ (seal_with-IsOther gcm _ _ _ _)
              λ secret. IsOther-ok _

  write_key-IsOther :
      (id : List ℕ) (s : FileStore) (x : StoreResult (KeyMeta × List ℕ))
      → IsOther x
      → IsOther (write_key gcm kdf w id s x).1
  unfolding write_key write_files write_result
  write_key-IsOther id s (err e) h = record { other = λ q. h.other (cc) }
  write_key-IsOther id s panic h = record { other = λ q. cc }
  write_key-IsOther id s (ok (meta, bin)) h = go w.meta w.bin
    where
      go : (o b : WriteOutcome) → IsOther (write_files gcm kdf b id s meta bin o).1
      go written written = IsOther-ok tt
      go written not_written = record { other = λ q. cc }
      go written not_synced = record { other = λ q. cc }
      go not_written b = record { other = λ q. cc }
      go not_synced b = record { other = λ q. cc }

  pub create_key-IsOther :
      (id password sk bl tz4 pop : List ℕ) (s : FileStore)
      → has_key s id ≡ false
      → IsOther (create_key gcm kdf r w id password sk bl tz4 pop s).1
  unfolding create_key
  create_key-IsOther [] password sk bl tz4 pop s free = record { other = λ q. cc }
  create_key-IsOther (c ∷ cs) password sk bl tz4 pop s free =
      let s' = set_dir s (c ∷ cs) (key_dir s (c ∷ cs)) in
      rw free (
        if_rule (λ (t : FileStore × StoreResult (Unit {0})). IsOther t.1) (not w.mkdir)
          (s, err file_error)
          (write_key gcm kdf w (c ∷ cs) s'
            (sealed_key gcm kdf r (c ∷ cs) password sk bl tz4 pop s'))
          (λ _. record { other = λ q. cc })
          λ _.
            write_key-IsOther (c ∷ cs) s' _ (sealed_key-IsOther (c ∷ cs) password sk bl tz4 pop s'))
