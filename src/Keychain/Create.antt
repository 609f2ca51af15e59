-- ===== src/Keychain/Create.antt =====
-- `CreateKey` of keychain/keyring.go: the choice of a name, of a random or a derived key, and the loop
-- over automatic names. `lifecycleMu` makes it one step.
pub mod Names
pub mod Fresh
pub mod Ends
pub mod Library
use tezsign.Prelude.{
  ℕ, zero, suc, ◌+◌, ◌/◌, ◌%◌, ◌^◌, Bool, true, false, not, ◌&&◌, ◌||◌, List, [], ◌∷◌, ◌++◌, Option,
  none, some, length, ltb, leb, ◌==◌, if◌then◌else◌,
}
use tezsign.Prelude.Bytes.{codes}
use tezsign.Keychain.Crypto.{Gcm}
use tezsign.Keychain.Key.{GKey, new_gkey}
use tezsign.Keychain.Ring.{Keys, keys_insert}
use tezsign.Keychain.Store
use tezsign.Keychain.Store.{
  FileStore, StoreError, StoreResult, Kdf, WriteOutcome, key_exists, has_key, read_master,
}
use tezsign.Keychain.Store.Index.{next_deterministic_index}
use tezsign.Keychain.Store.Keys.{KeyRandom, KeyWrites, create_key}
use tezsign.Keychain.Store.Seed.{read_seed}

-- What the ring keeps, with its store.
pub record RingState : Type 0 where
  pub keys : Keys
  pub next_id : ℕ
  pub store : FileStore

pub record KeyPair : Type 0 where
  pub secret : List ℕ
  pub pubkey_bytes : List ℕ
  pub bl_pubkey : List ℕ

-- The package signer: `GenerateHDKey`, `GenerateRandomKey`, `Tz4FromBLPubkeyBytes`, which is empty on
-- an error, and `SignPoPCompressed`.
pub record Signer : Type 0 where
  pub generate_hd : List ℕ → List ℕ → ℕ → Option KeyPair
  pub generate_random : List ℕ → KeyPair
  pub tz4_from : List ℕ → List ℕ
  pub sign_pop : KeyPair → Option (List ℕ)

-- What a call finds: the random bytes, and the outcomes of the system's calls.
pub record CreateWorld : Type 0 where
  pub random : KeyRandom
  pub key_bytes : List ℕ
  pub writes : KeyWrites
  pub lists : Bool
  pub index_write : WriteOutcome

pub data CreateError : Type 0 where
  invalid_key_id exists derive_failed pop_failed : CreateError
  store_failed : StoreError → CreateError

pub data CreateReply : Type 0 where
  created : List ℕ → List ℕ → List ℕ → CreateReply
  failed : CreateError → CreateReply
  panics out_of_fuel : CreateReply

-- Random keys, or keys derived from the salt of the master file and the seed.
pub data Mode : Type 0 where
  random_mode : Mode
  deterministic_mode : List ℕ → List ℕ → Mode

-- [a-z0-9_-]
unfoldable pub is_id_char : ℕ → Bool
is_id_char c = (leb 97 c && leb c 122) || (leb 48 c && leb c 57) || (c == 95) || (c == 45)

unfoldable pub all_id_chars : List ℕ → Bool
unfolding is_id_char
all_id_chars [] = true
all_id_chars (c ∷ cs) = is_id_char c && all_id_chars cs

-- ^[a-z0-9_-]{1,64}$
unfoldable pub is_valid_id : List ℕ → Bool
unfolding all_id_chars
is_valid_id id = leb 1 (length id) && leb (length id) 64 && all_id_chars id

-- %d, with fuel for the digits.
unfoldable pub decimal_digits : ℕ → ℕ → List ℕ
decimal_digits zero n = []
decimal_digits (suc fuel) n =
    let rest = decimal_digits fuel (n / 10) in
    if ltb n 10 then (48 + n) ∷ [] else rest ++ ((48 + n % 10) ∷ [])

-- "key%d" of a uint64, which has at most twenty digits.
unfoldable pub auto_id : ℕ → List ℕ
unfolding decimal_digits
auto_id n = codes "key" ++ decimal_digits 20 n

abbrev pub is_empty : List ℕ → Bool
is_empty [] = true
is_empty (c ∷ cs) = false

-- The end of a round: the call ends, or the next round begins, with the index that is reserved.
pub data Round : Type 0 where
  ends : RingState → CreateReply → Round
  again : RingState → Option ℕ → Round

-- The key of a round, or how the call ends without one.
pub data Material : Type 0 where
  material : KeyPair → Material
  no_material : CreateError → Material
  material_panics : Material

module _ (gcm : Gcm) (kdf : Kdf) (lib : Signer) (w : CreateWorld) where
  -- The index of a derived key: reserved once for a call.
  unfoldable pub reserve_once : Option ℕ → FileStore → FileStore × StoreResult ℕ
  unfolding next_deterministic_index
  reserve_once (some index) s = (s, Store.ok index)
  reserve_once none s = next_deterministic_index w.lists w.index_write s

  -- Behind `nextDeterministicIndex`.
  unfoldable pub derived :
      List ℕ → List ℕ → Option ℕ → FileStore × StoreResult ℕ → FileStore × (Option ℕ × Material)
  derived salt seed reserved (s, Store.err e) = (s, (reserved, no_material (store_failed e)))
  derived salt seed reserved (s, Store.panic) = (s, (reserved, material_panics))
  derived salt seed reserved (s, Store.ok index) = (
    s,
    (
      some index,
      elim (lib.generate_hd salt seed index) [
        | none ↦ no_material derive_failed
        | some pair ↦ material pair
      ],
    ),
  )

  unfoldable pub pick_pair : Mode → Option ℕ → FileStore → FileStore × (Option ℕ × Material)
  unfolding reserve_once derived
  pick_pair random_mode reserved s = (s, (reserved, material (lib.generate_random w.key_bytes)))
  pick_pair (deterministic_mode salt seed) reserved s =
      derived salt seed reserved (reserve_once reserved s)

  -- Behind the store's `createKey`; `id` is the name that was asked for.
  unfoldable pub after_create :
      List ℕ → List ℕ → KeyPair → Option ℕ → RingState → FileStore × StoreResult (Unit {0}) → Round
  unfolding keys_insert
  after_create id candidate pair reserved st (s, Store.ok u) =
      let tz4 = lib.tz4_from pair.pubkey_bytes in
      let (keys, fresh) = keys_insert candidate (new_gkey pair.bl_pubkey tz4) st.keys in
      ends (record st { keys = keys; store = s })
        (if fresh then created candidate pair.bl_pubkey tz4 else failed exists)
  after_create id candidate pair reserved st (s, Store.err key_exists) =
      if is_empty id
      then again (record st { store = s }) reserved
      else ends (record st { store = s }) (failed exists)
  after_create id candidate pair reserved st (s, Store.err e) =
      ends (record st { store = s }) (failed (store_failed e))
  after_create id candidate pair reserved st (s, Store.panic) =
      ends (record st { store = s }) panics

  unfoldable pub store_pair :
      List ℕ → List ℕ → List ℕ → RingState → FileStore × (Option ℕ × Material) → Round
  unfolding create_key after_create
  store_pair id candidate password st (s, (reserved, no_material e)) =
      ends (record st { store = s }) (failed e)
  store_pair id candidate password st (s, (reserved, material_panics)) =
      ends (record st { store = s }) panics
  store_pair id candidate password st (s, (reserved, material pair)) = elim (lib.sign_pop pair) [
    | none ↦ ends (record st { store = s }) (failed pop_failed)
    | some pop ↦ after_create id candidate pair reserved st (
        create_key gcm kdf w.random w.writes candidate password pair.secret pair.bl_pubkey
          (lib.tz4_from pair.pubkey_bytes) pop s)
  ]

  -- One round, for a candidate that is chosen already.
  unfoldable pub try_candidate : Mode → List ℕ → List ℕ → List ℕ → Option ℕ → RingState → Round
  unfolding pick_pair store_pair
  try_candidate mode id candidate password reserved st =
      if has_key st.store candidate
      then (if is_empty id then again st reserved else ends st (failed exists))
      else store_pair id candidate password st (pick_pair mode reserved st.store)

  unfoldable pub create_round : Mode → List ℕ → List ℕ → Option ℕ → RingState → Round
  unfolding try_candidate auto_id
  create_round mode [] password reserved st =
      let n = (st.next_id + 1) % 2 ^ 64 in
      try_candidate mode [] (auto_id n) password reserved (record st { next_id = n })
  create_round mode (c ∷ cs) password reserved st =
      try_candidate mode (c ∷ cs) (c ∷ cs) password reserved st

  unfoldable pub create_loop :
      ℕ → Mode → List ℕ → List ℕ → Option ℕ → RingState → RingState × CreateReply
  unfolding create_round
  create_loop zero mode id password reserved st = (st, out_of_fuel)
  create_loop (suc fuel) mode id password reserved st =
      elim (create_round mode id password reserved st) [
        | ends st' reply ↦ (st', reply)
        | again st' reserved' ↦ create_loop fuel mode id password reserved' st'
      ]

  -- Behind `readSeed`: with derived keys the master file is read for its salt.
  unfoldable pub choose_mode : FileStore → StoreResult (Bool × List ℕ) → StoreResult Mode
  unfolding read_master
  choose_mode s (Store.err e) = Store.err e
  choose_mode s Store.panic = Store.panic
  choose_mode s (Store.ok (false, seed)) = Store.ok random_mode
  choose_mode s (Store.ok (true, seed)) =
      Store.◌>>=◌ (read_master s) (λ mf. Store.ok (deterministic_mode mf.salt seed))

  unfoldable pub with_mode :
      ℕ → List ℕ → List ℕ → RingState → StoreResult Mode → RingState × CreateReply
  unfolding create_loop
  with_mode fuel id password st (Store.err e) = (st, failed (store_failed e))
  with_mode fuel id password st Store.panic = (st, panics)
  with_mode fuel id password st (Store.ok mode) = create_loop fuel mode id password none st

  -- `id` is the name after `normalizeID`.
  unfoldable pub ring_create : ℕ → List ℕ → List ℕ → RingState → RingState × CreateReply
  unfolding is_valid_id choose_mode with_mode read_seed
  ring_create fuel id password st =
      if not (is_empty id) && not (is_valid_id id)
      then (st, failed invalid_key_id)
      else with_mode fuel id password st
          (choose_mode st.store (read_seed gcm kdf password st.store))
