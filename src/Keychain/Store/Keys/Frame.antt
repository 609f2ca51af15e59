-- ===== src/Keychain/Store/Keys/Frame.antt =====
-- Creating a key never touches a key that is there.
use tezsign.Prelude.{
  ℕ, ◌≡◌, refl, ap, ◌∙◌, true, false, not, List, [], ◌∷◌, some, if_rule, Bool-cases, inl, inr,
}
use tezsign.Prelude.Bytes.{bytes_eq, bytes_eq→eq}
use tezsign.Prelude.Maps.{lookup-insert, lookup-insert_other}
use tezsign.Keychain.Crypto.{Gcm}
use tezsign.Keychain.Store.{
  KeyMeta, KeyDir, FileStore, StoreError, StoreResult, id_required, ok, err, panic, Kdf,
  WriteOutcome, written, not_written, not_synced, file_error, key_exists, key_dir, set_dir, has_key,
}
use tezsign.Keychain.Store.Keys.{
  KeyRandom, KeyWrites, sealed_key, write_files, write_key, create_key,
}

-- The key `id'` is as it was, and so are the master file and the seed.
pub record Untouched (s : FileStore) (id' : List ℕ) (r : FileStore × StoreResult (Unit {0}))
    : Type 0 where
  pub same_dir : key_dir r.0 id' ≡ key_dir s id'
  pub same_master : r.0.master ≡ s.master
  pub same_seed : r.0.seed ≡ s.seed

key_dir-set_dir_other :
    (s : FileStore) (id id' : List ℕ) (d : KeyDir)
    → bytes_eq id id' ≡ false
    → key_dir (set_dir s id d) id' ≡ key_dir s id'
unfolding key_dir set_dir
key_dir-set_dir_other s id id' d ne = rw (lookup-insert_other id id' d s.keys ne, key_dir) refl

module _ (s : FileStore) (id id' : List ℕ) (ne : bytes_eq id id' ≡ false) where
  same : (e : StoreResult (Unit {0})) → Untouched s id' (s, e)
  same e = record { same_dir = refl; same_master = refl; same_seed = refl }

  set : (d : KeyDir) (e : StoreResult (Unit {0})) → Untouched s id' (set_dir s id d, e)
  set d e = record {
    same_dir = key_dir-set_dir_other s id id' d ne;
    same_master = unfold set_dir in refl;
    same_seed = unfold set_dir in refl;
  }

  set_twice :
      (d d' : KeyDir) (e : StoreResult (Unit {0}))
      → Untouched s id' (set_dir (set_dir s id d) id d', e)
  set_twice d d' e = record {
    same_dir =
        key_dir-set_dir_other (set_dir s id d) id id' d' ne ∙ key_dir-set_dir_other s id id' d ne;
    same_master = unfold set_dir in refl;
    same_seed = unfold set_dir in refl;
  }

  write_key-Untouched :
      (gcm : Gcm) (kdf : Kdf) (w : KeyWrites) (d : KeyDir) (r : StoreResult (KeyMeta × List ℕ))
      → Untouched s id' (write_key gcm kdf w id (set_dir s id d) r)
  unfolding write_key write_files
  write_key-Untouched gcm kdf w d (err e) = set d (err e)
  write_key-Untouched gcm kdf w d panic = set d panic
  write_key-Untouched gcm kdf w d (ok (meta, bin)) = go w.meta
    where
      go :
          (o : WriteOutcome)
          → Untouched s id' (write_files gcm kdf w.bin id (set_dir s id d) meta bin o)
      go written = set_twice d _ _
      go not_written = set d _
      go not_synced = set_twice d _ _

-- Creating a key, however it ends, leaves every key that the store has as it was, and the master file
-- and the seed too.
pub create_key_keeps :
    (gcm : Gcm) (kdf : Kdf) (r : KeyRandom) (w : KeyWrites)
    (id password sk bl_pubkey tz4 pop id' : List ℕ) (s : FileStore)
    → has_key s id' ≡ true
    → Untouched s id' (create_key gcm kdf r w id password sk bl_pubkey tz4 pop s)
unfolding create_key
create_key_keeps gcm kdf r w [] password sk bl_pubkey tz4 pop id' s there = record {
  same_dir = refl;
  same_master = refl;
  same_seed = refl;
}
create_key_keeps gcm kdf r w (c ∷ cs) password sk bl_pubkey tz4 pop id' s there =
    if_rule (Untouched s id') (has_key s (c ∷ cs)) (s, err key_exists) _
      (λ _. record { same_dir = refl; same_master = refl; same_seed = refl })
      λ fresh.
        if_rule (Untouched s id') (not w.mkdir) (s, err file_error) _
          (λ _. record { same_dir = refl; same_master = refl; same_seed = refl })
          λ _. write_key-Untouched s (c ∷ cs) id' (differs fresh) gcm kdf w _ _
  where
    differs : has_key s (c ∷ cs) ≡ false → bytes_eq (c ∷ cs) id' ≡ false
    differs fresh = elim (Bool-cases (bytes_eq (c ∷ cs) id')) [
      | inl e ↦ absurd (cc (there, fresh, ap (has_key s) (bytes_eq→eq (c ∷ cs) id' e)))
      | inr f ↦ f
    ]

-- A success is for a name that no key had, and the key has it then.
pub record Created (s : FileStore) (id : List ℕ) (r : FileStore × StoreResult (Unit {0}))
    : Type 0 where
  pub was_free : r.1 ≡ ok tt → has_key s id ≡ false
  pub is_there : r.1 ≡ ok tt → has_key r.0 id ≡ true

failing : (s s' : FileStore) (id : List ℕ) (e : StoreError) → Created s id (s', err e)
failing s s' id e = record { was_free = λ h. absurd (cc); is_there = λ h. absurd (cc) }

has_key-set_dir :
    (s : FileStore) (id : List ℕ) (d : KeyDir) (meta : KeyMeta)
    → d.meta ≡ some meta
    → has_key (set_dir s id d) id ≡ true
unfolding has_key key_dir set_dir
has_key-set_dir s id d meta e = rw (lookup-insert id d s.keys, key_dir) (rw e refl)

write_key-Created :
    (gcm : Gcm) (kdf : Kdf) (w : KeyWrites) (s s' : FileStore) (id : List ℕ)
    (r : StoreResult (KeyMeta × List ℕ))
    → has_key s id ≡ false
    → Created s id (write_key gcm kdf w id s' r)
unfolding write_key write_files
write_key-Created gcm kdf w s s' id (err e) fresh = failing s s' id e
write_key-Created gcm kdf w s s' id panic fresh = record {
  was_free = λ h. absurd (cc);
  is_there = λ h. absurd (cc);
}
write_key-Created gcm kdf w s s' id (ok (meta, bin)) fresh = go w.meta
  where
    go : (o : WriteOutcome) → Created s id (write_files gcm kdf w.bin id s' meta bin o)
    go written = record { was_free = λ _. fresh; is_there = λ _. has_key-set_dir s' id _ meta refl }
    go not_written = failing s s' id _
    go not_synced = failing s _ id _

pub create_key-Created :
    (gcm : Gcm) (kdf : Kdf) (r : KeyRandom) (w : KeyWrites)
    (id password sk bl_pubkey tz4 pop : List ℕ) (s : FileStore)
    → Created s id (create_key gcm kdf r w id password sk bl_pubkey tz4 pop s)
unfolding create_key
create_key-Created gcm kdf r w [] password sk bl_pubkey tz4 pop s = failing s s [] id_required
create_key-Created gcm kdf r w (c ∷ cs) password sk bl_pubkey tz4 pop s =
    if_rule (Created s (c ∷ cs)) (has_key s (c ∷ cs)) (s, err key_exists) _
      (λ _. failing s s (c ∷ cs) key_exists)
      λ fresh.
        if_rule (Created s (c ∷ cs)) (not w.mkdir) (s, err file_error) _
          (λ _. failing s s (c ∷ cs) file_error)
          λ _.
            let s' = set_dir s (c ∷ cs) (key_dir s (c ∷ cs)) in
            write_key-Created gcm kdf w s s' (c ∷ cs)
              (sealed_key gcm kdf r (c ∷ cs) password sk bl_pubkey tz4 pop s') fresh
