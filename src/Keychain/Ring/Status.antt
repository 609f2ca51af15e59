-- ===== src/Keychain/Ring/Status.antt =====
-- `Status`, `VerifyMasterPassword` and `resolveKeyIDByTZ4` of keychain/keyring.go: the ring over its
-- store.
use tezsign.Prelude.{
  ℕ, ◌≡◌, refl, Bool, true, List, [], ◌∷◌, Option, none, some, map, if◌then◌else◌, leb, ◌==◌, ◌&&◌,
  ◌||◌,
}
use mathlib.Core.Path.{ap₂}
use tezsign.Prelude.Bytes.{bytes_eq}
use tezsign.Prelude.Maps.{lookup}
use tezsign.Keychain.Crypto.{Gcm}
use tezsign.Keychain.Key.Unlock.{KeyStatus, blank_status, populate_status}
use tezsign.Keychain.Ring.{Keys, update}
use tezsign.Keychain.Store.{KeyMeta, FileStore, StoreResult, ok, err, panic, Kdf, read_key_meta}
use tezsign.Keychain.Store.Index.{list}
use tezsign.Keychain.Store.Seed.{read_seed}

-- A KeyStatus: what is read from the store, and what a key in memory fills in.
pub record KeyEntry : Type 0 where
  pub key_id : List ℕ
  pub tz4 : List ℕ
  pub bl_pubkey : List ℕ
  pub pop : List ℕ
  pub status : KeyStatus

-- The fields are empty where meta.json cannot be read.
unfoldable pub entry_of : List ℕ → StoreResult KeyMeta → KeyStatus → KeyEntry
entry_of id (ok meta) st = record {
  key_id = id;
  tz4 = meta.tz4;
  bl_pubkey = meta.bl_pubkey;
  pop = meta.pop;
  status = st;
}
entry_of id r st = record { key_id = id; tz4 = []; bl_pubkey = []; pop = []; status = st }

unfoldable pub status_one : Gcm → List ℕ → Keys → Keys × KeyStatus
unfolding update
status_one gcm id keys = elim (lookup id keys) [
  | none ↦ (keys, blank_status)
  | some k ↦ let (k', st) = populate_status gcm id k in (update id k' keys, st)
]

unfoldable pub status_each : Gcm → FileStore → List (List ℕ) → Keys → Keys × List KeyEntry
unfolding status_one entry_of
status_each gcm s [] keys = (keys, [])
status_each gcm s (id ∷ ids) keys =
    let (keys', st) = status_one gcm id keys in
    let (keys'', rest) = status_each gcm s ids keys' in
    (keys'', entry_of id (read_key_meta s id) st ∷ rest)

-- Nothing is reported when the directory cannot be read.
unfoldable pub ring_status : Gcm → Bool → FileStore → Keys → Keys × List KeyEntry
unfolding list status_each
ring_status gcm lists s keys = elim (list lists s) [
  | ok ids ↦ status_each gcm s ids keys
  | err e ↦ (keys, [])
  | panic ↦ (keys, [])
]

-- The seed is wiped, and only the error is left of it.
unfoldable pub verify_master_password : Gcm → Kdf → List ℕ → FileStore → StoreResult (Unit {0})
verify_master_password gcm kdf password s = elim (read_seed gcm kdf password s) [
  | ok r ↦ ok tt
  | err e ↦ err e
  | panic ↦ panic
]

-- A string of ASCII spaces only.
unfoldable pub is_blank : List ℕ → Bool
is_blank [] = true
is_blank (c ∷ cs) = (c == 32 || (leb 9 c && leb c 13)) && is_blank cs

-- The first key in the store with this address; one whose file cannot be read is passed over.
unfoldable pub first_with_tz4 : List ℕ → FileStore → List (List ℕ) → Option (List ℕ)
first_with_tz4 tz4 s [] = none
first_with_tz4 tz4 s (id ∷ ids) =
    let rest = first_with_tz4 tz4 s ids in
    elim (read_key_meta s id) [
      | ok meta ↦ if bytes_eq meta.tz4 tz4 then some id else rest
      | err e ↦ rest
      | panic ↦ rest
    ]

unfoldable pub resolve_key_id_by_tz4 : List ℕ → Bool → FileStore → Option (List ℕ)
unfolding is_blank list first_with_tz4
resolve_key_id_by_tz4 tz4 lists s =
    if is_blank tz4
    then none
    else elim (list lists s) [ ok ids ↦ first_with_tz4 tz4 s ids | err e ↦ none | panic ↦ none ]

entry_name :
    (id : List ℕ) (r : StoreResult KeyMeta) (st : KeyStatus) → (entry_of id r st).key_id ≡ id
unfolding entry_of
entry_name id (ok meta) st = refl
entry_name id (err e) st = refl
entry_name id panic st = refl

-- A status has one entry for each key that the store lists, in order.
pub status_each_names :
    (gcm : Gcm) (s : FileStore) (ids : List (List ℕ)) (keys : Keys)
    → map (λ e. e.key_id) (status_each gcm s ids keys).1 ≡ ids
unfolding status_each
status_each_names gcm s [] keys = refl
status_each_names gcm s (id ∷ ids) keys =
    let r = status_one gcm id keys in
    ap₂ (λ x xs. x ∷ xs) (entry_name id (read_key_meta s id) r.1) (status_each_names gcm s ids r.0)
