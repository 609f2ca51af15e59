-- ===== src/Keychain/Ring.antt =====
-- The map of keys (`Keys` of keychain/keys.go) and the operations of keychain/keyring.go on it.
-- `lifecycleMu` and the locks of the keys make each operation one step. Go's map has no fixed order:
-- a loop over it runs in the order of the list. A key is shared by pointer with the map, so that what
-- an operation does to it is written back under its id.
pub mod Operations
pub mod Status
use tezsign.Prelude.{ℕ, ◌<◌, Bool, true, false, List, [], ◌∷◌, Option, none, some, if◌then◌else◌}
use tezsign.Prelude.Bytes.{bytes_eq}
use tezsign.Prelude.Maps.{Map, lookup, insert, delete}
use tezsign.Keychain.Crypto.{Gcm}
use tezsign.Keychain.HwmWorker.{Faults}
use tezsign.Keychain.Key
use tezsign.Keychain.Key.{
  GKey, Bls, SignError, Reply, Env, new_gkey, lock_key, close_hwm_file, clear_sensitive_material,
  sign_and_update,
}
use tezsign.Keychain.Key.Level.{set_level}
use tezsign.Keychain.Key.Unlock.{Secrets, unlock}

pub data RingError : Type 0 where
  key_not_found unknown_key ring_key_locked already_present invalid_key_id remove_failed : RingError
  key_error : SignError → RingError

pub data RingReply {ℓ} (A : Type ℓ) : Type ℓ where
  ok : A → RingReply A
  err : RingError → RingReply A
  no_return : RingReply A

abbrev pub Keys : Type 0
Keys = Map GKey

-- What a reply of a key is for the caller of the ring.
unfoldable pub from_key {ℓ} : {A : Type ℓ} → Reply A → RingReply A
from_key (Key.ok a) = ok a
from_key (Key.err e) = err (key_error e)
from_key Key.no_return = no_return

-- The entry of `id` has changed.
unfoldable pub update : List ℕ → GKey → Keys → Keys
update id key [] = []
update id key ((i, k) ∷ rest) =
    let more = update id key rest in if bytes_eq i id then (i, key) ∷ more else (i, k) ∷ more

unfoldable pub keys_insert : List ℕ → GKey → Keys → Keys × Bool
keys_insert id key keys = elim (lookup id keys) [
  | some k ↦ (keys, false)
  | none ↦ (insert id key keys, true)
]

unfoldable pub load_and_delete : List ℕ → Keys → Keys × Option GKey
load_and_delete id keys = elim (lookup id keys) [
  | none ↦ (keys, none)
  | some k ↦ (delete id keys, some k)
]

-- `Range` with the function of `getByTz4`: the first key with this address.
unfoldable pub get_by_tz4 : List ℕ → Keys → Option (List ℕ × GKey)
get_by_tz4 tz4 [] = none
get_by_tz4 tz4 ((id, k) ∷ rest) =
    let more = get_by_tz4 tz4 rest in if bytes_eq k.tz4 tz4 then some (id, k) else more

-- `dispose`: the error of closing is only logged.
unfoldable pub dispose : Bool → GKey → GKey × Reply (Unit {0})
unfolding clear_sensitive_material close_hwm_file
dispose close_fails k = close_hwm_file close_fails (clear_sensitive_material k)

module _ (gcm : Gcm) where
  unfoldable pub ring_sign : Bls → List ℕ → List ℕ → Env → Keys → Keys × RingReply (List ℕ)
  unfolding get_by_tz4 update from_key
  ring_sign bls tz4 raw env keys = elim (get_by_tz4 tz4 keys) [
    | none ↦ (keys, err key_not_found)
    | some (id, k) ↦
        let (k', r) = sign_and_update gcm bls id raw env k in (update id k' keys, from_key r)
  ]

  -- `has_key`: the store holds a key of this name.
  unfoldable pub ring_set_level : Bool → List ℕ → ℕ → Env → Keys → Keys × RingReply (Unit {0})
  unfolding update from_key
  ring_set_level has_key id level env keys = elim (lookup id keys) [
    | none ↦ (keys, if has_key then err ring_key_locked else err unknown_key)
    | some k ↦ let (k', r) = set_level gcm id env k level in (update id k' keys, from_key r)
  ]

  -- A key that is not in the map is put there once it is unlocked. The disk is that of this key.
  unfoldable pub insert_unlocked :
      List ℕ → Keys → GKey × Reply (Unit {0}) → Keys × RingReply (Unit {0})
  unfolding keys_insert from_key
  insert_unlocked id keys (k, Key.ok u) =
      let (keys', fresh) = keys_insert id k keys in
      if fresh then (keys', ok tt) else (keys', err already_present)
  insert_unlocked id keys (k, r) = (keys, from_key r)

  unfoldable pub ring_unlock :
      List ℕ
      → Option Secrets
      → Faults
      → Option (List ℕ)
      → Bool
      → Option (List ℕ)
      → Keys
      → Option (List ℕ) × (Keys × RingReply (Unit {0}))
  unfolding insert_unlocked update from_key
  ring_unlock id found faults random close_fails disk keys = elim (lookup id keys) [
    | none ↦
        let (disk', r) = unlock gcm id found faults random close_fails disk (new_gkey [] []) in
        (disk', insert_unlocked id keys r)
    | some k ↦
        let (disk', (k', r)) = unlock gcm id found faults random close_fails disk k in
        (disk', (update id k' keys, from_key r))
  ]

unfoldable pub ring_lock : Bool → List ℕ → Keys → Keys × RingReply (Unit {0})
unfolding update from_key
ring_lock close_fails id keys = elim (lookup id keys) [
  | none ↦ (keys, err unknown_key)
  | some k ↦ let (k', r) = lock_key close_fails k in (update id k' keys, from_key r)
]

-- Behind `dispose`, whose call may not return: the store removes the key's directory, or fails to.
unfoldable pub after_dispose : Bool → Keys → Reply (Unit {0}) → Keys × RingReply (Unit {0})
after_dispose removed keys Key.no_return = (keys, no_return)
after_dispose removed keys r = (keys, if removed then ok tt else err remove_failed)

unfoldable pub remove_loaded : Bool → Bool → Keys × Option GKey → Keys × RingReply (Unit {0})
unfolding dispose after_dispose
remove_loaded removed close_fails (keys, none) = after_dispose removed keys (Key.ok tt)
remove_loaded removed close_fails (keys, some k) =
    after_dispose removed keys (dispose close_fails k).1

-- `id` is the name after `normalizeID`.
unfoldable pub ring_delete : Bool → Bool → Bool → List ℕ → Keys → Keys × RingReply (Unit {0})
unfolding load_and_delete remove_loaded
ring_delete has_key removed close_fails [] keys = (keys, err invalid_key_id)
ring_delete has_key removed close_fails (c ∷ id) keys =
    if has_key
    then remove_loaded removed close_fails (load_and_delete (c ∷ id) keys)
    else (keys, err key_not_found)
