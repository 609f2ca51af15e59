-- ===== src/Keychain/Tests/Stores.antt =====
-- Runs of the store, and of the creation of keys.
use tezsign.Keychain.Create.Library.{signer_library}
use tezsign.Keychain.Create.Library.Sound.{IsSignerSafe, ring_create-IsSignerSafe}
use tezsign.Signer.Tests.{constant, plain_text, open_library, accepting, always_finds}
use tezsign.Prelude.{
  ℕ, ◌≡◌, ◌≢◌, refl, arith, true, false, List, [], ◌∷◌, ◌++◌, none, some, replicate,
  length-replicate,
}
use tezsign.Prelude.Bytes.{codes, bytes_eq}
use tezsign.Prelude.Maps.{lookup}
use tezsign.Keychain.Crypto.{is_aes_key}
use tezsign.Keychain.Key.{new_gkey}
use tezsign.Keychain.Store.{
  MasterFile, KeyDir, FileStore, ok, Kdf, written, not_written, not_synced, key_dir, has_key,
}
use tezsign.Keychain.Store.Sealing.{IsUsable}
use tezsign.Keychain.Store.Keys.{KeyRandom, KeyWrites, create_key, unlock_key}
use tezsign.Keychain.Store.Keys.RoundTrip.{
  IsSound, secrets, unlock_key-create_key, Unlocks, created_key_signs,
}
use tezsign.Keychain.Store.Keys.Frame.{Untouched, create_key_keeps}
use tezsign.Keychain.Store.Index.Rising.{RisesFrom, reserve_all, reserve_all-RisesFrom}
use tezsign.Keychain.Create.{RingState, KeyPair, Signer, CreateWorld, out_of_fuel, ring_create}
use tezsign.Keychain.Create.Fresh.{CreatePost, ring_create_post}
use tezsign.Keychain.Create.Ends.{ring_create_ends}
use tezsign.Keychain.Tests.Setup.{open_cipher, plain_signer}
use tezsign.Keychain.Tests.States.{some_key, some_nonce}

-- A derivation as long as it is asked for, that hides nothing.
abbrev pub weak_kdf : Kdf
weak_kdf = record {
  id_key = λ password salt p. replicate p.key_len 7;
  length-id_key = λ password salt p. length-replicate p.key_len 7;
}

abbrev master : MasterFile
master = record {
  version = 1;
  salt = replicate 16 4;
  params = record { time = 3; memory = 65536; threads = 4; key_len = 32 };
  next_index = 1;
}

abbrev old_dir : KeyDir
old_dir = record {
  meta = some (record {
    version = 1;
    key_id = codes "key1";
    tz4 = codes "tz4c";
    bl_pubkey = codes "BLpk1";
    pop = [];
    wrap_nonce = some_nonce;
    data_nonce = some_nonce;
  });
  bin = some (1 ∷ []);
  state = some (2 ∷ []);
}

abbrev disk : FileStore
disk = record { master = some master; seed = none; keys = (codes "key1", old_dir) ∷ [] }

disk-IsUsable : IsUsable open_cipher weak_kdf (codes "pw") master disk
unfolding is_aes_key
disk-IsUsable = record { is_master = refl; runs = refl; aes = refl }

abbrev random : KeyRandom
random = record { dek = some_key; wrap_nonce = some_nonce; data_nonce = some_nonce }

abbrev all_written : KeyWrites
all_written = record { mkdir = true; meta = written; bin = written }

abbrev half_written : KeyWrites
half_written = record { mkdir = true; meta = written; bin = not_written }

abbrev pub secret_bytes : List ℕ
secret_bytes = replicate 32 5

sound :
    IsSound open_cipher weak_kdf
      (codes "pw")
      master
      random
      all_written
      107
      (50 ∷ [])
      secret_bytes
      (codes "BLpk2")
      (codes "tz4d")
      []
      disk
sound = record {
  dek_size = refl;
  wrap_size = refl;
  data_size = refl;
  sk_size = refl;
  makes = refl;
  meta_written = refl;
  bin_written = refl;
}

k2_free : has_key disk (codes "k2") ≡ false
unfolding has_key key_dir lookup bytes_eq
k2_free = refl

key1_there : has_key disk (codes "key1") ≡ true
unfolding has_key key_dir lookup bytes_eq
key1_there = refl

unlock_key-create_key_example :
    let made =
      create_key open_cipher weak_kdf random all_written
        (codes "k2")
        (codes "pw")
        secret_bytes
        (codes "BLpk2")
        (codes "tz4d")
        []
        disk in
    (made.1 ≡ ok tt)
    × (has_key made.0 (codes "k2") ≡ true)
    × (unlock_key open_cipher weak_kdf (codes "k2") (codes "pw") made.0
        ≡ ok (
            secrets open_cipher weak_kdf
              (codes "pw")
              master
              random
              all_written
              107
              (50 ∷ [])
              secret_bytes
              (codes "BLpk2")
              (codes "tz4d")
              []
              disk))
unlock_key-create_key_example =
    unlock_key-create_key open_cipher weak_kdf (codes "pw") master random all_written 107 (50 ∷ [])
      secret_bytes (codes "BLpk2") (codes "tz4d") [] disk disk-IsUsable sound k2_free

created_key_signs_example :
    Unlocks open_cipher weak_kdf
      (codes "pw")
      master
      random
      all_written
      107
      (50 ∷ [])
      secret_bytes
      (codes "BLpk2")
      (codes "tz4d")
      []
      disk
      plain_signer
      (new_gkey [] [])
      (17 ∷ [])
      (create_key open_cipher weak_kdf random all_written
        (codes "k2")
        (codes "pw")
        secret_bytes
        (codes "BLpk2")
        (codes "tz4d")
        []
        disk).0
created_key_signs_example =
    created_key_signs open_cipher weak_kdf (codes "pw") master random all_written 107 (50 ∷ [])
      secret_bytes (codes "BLpk2") (codes "tz4d") [] disk plain_signer (new_gkey [] []) (17 ∷ [])
      disk-IsUsable sound k2_free refl

-- The second file of a new key is not written.
create_key_keeps_example : Untouched disk (codes "key1") (
    create_key open_cipher weak_kdf random half_written
      (codes "k2")
      (codes "pw")
      secret_bytes
      (codes "BLpk2")
      (codes "tz4d")
      []
      disk)
create_key_keeps_example =
    create_key_keeps open_cipher weak_kdf random half_written (codes "k2") (codes "pw") secret_bytes
      (codes "BLpk2") (codes "tz4d") [] (codes "key1") disk key1_there

reserve_all-RisesFrom_example : RisesFrom 1 (
    reserve_all
      ((true, written) ∷ (true, not_written) ∷ (true, not_synced) ∷ (true, written) ∷ [])
      disk)
reserve_all-RisesFrom_example =
    reserve_all-RisesFrom
      ((true, written) ∷ (true, not_written) ∷ (true, not_synced) ∷ (true, written) ∷ []) disk
      master refl (omega arith) (omega arith)

abbrev pair : KeyPair
pair = record { secret = secret_bytes; pubkey_bytes = 3 ∷ []; bl_pubkey = codes "BLpk2" }

abbrev pub library : Signer
library = record {
  generate_hd = λ salt seed index. some pair;
  generate_random = λ bytes. pair;
  tz4_from = λ bytes. codes "tz4d";
  sign_pop = λ p. some (9 ∷ []);
}

abbrev pub found : CreateWorld
found = record {
  random = random;
  key_bytes = 8 ∷ [];
  writes = all_written;
  lists = true;
  index_write = written;
}

-- The seed is stored, and the name key1 is taken.
abbrev pub ring : RingState
ring = record {
  keys = [];
  next_id = 0;
  store = record disk { seed = some (0 ∷ (some_nonce ++ (replicate 32 6 ++ replicate 16 0))) };
}

ring_create_post_example :
    CreatePost ring (ring_create open_cipher weak_kdf library found 2 [] (codes "pw") ring)
ring_create_post_example =
    ring_create_post open_cipher weak_kdf library found 2 [] (codes "pw") ring

ring_create_ends_example :
    (ring_create open_cipher weak_kdf library found 2 [] (codes "pw") ring).1 ≢ out_of_fuel
ring_create_ends_example =
    ring_create_ends open_cipher weak_kdf library found 2 [] (codes "pw") ring (omega arith)
      (omega arith)

ring_create-IsSignerSafe_example :
    IsSignerSafe
      (ring_create open_cipher weak_kdf
        (signer_library constant open_library plain_text 1)
        found
        2
        []
        (codes "pw")
        ring).1
ring_create-IsSignerSafe_example =
    ring_create-IsSignerSafe open_cipher weak_kdf found constant open_library plain_text accepting 1
      2 [] (codes "pw") ring always_finds
