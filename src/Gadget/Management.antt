-- ===== src/Gadget/Management.antt =====
-- app/gadget/gadget.go, the requests of the management interface that work on the store: new keys, the
-- status, and the set-up of the master password.
pub mod SetUp
use tezsign.Prelude.{
  ℕ, suc, Bool, true, false, List, [], ◌∷◌, ◌++◌, Option, none, some, if◌then◌else◌,
}
use tezsign.Prelude.Bytes.{codes}
use tezsign.Keychain.Crypto.{Gcm}
use tezsign.Keychain.Ring.Status.{KeyEntry, ring_status}
use tezsign.Keychain.Store.{
  FileStore, StoreResult, ok, err, panic, Kdf, WriteOutcome, init_master, init_info,
}
use tezsign.Keychain.Store.Seed.{write_seed}
use tezsign.Keychain.Create.{
  RingState, Signer, CreateWorld, CreateReply, created, failed, panics, out_of_fuel, ring_create,
}

-- A NewKeyPerKeyResult.
pub record NewKeyResult : Type 0 where
  pub key_id : List ℕ
  pub bl_pubkey : List ℕ
  pub tz4 : List ℕ
  pub ok_flag : Bool

-- The answers; `no_answer` if the handler panics or does not return.
pub data Answer : Type 0 where
  new_keys : List NewKeyResult → Answer
  status : List KeyEntry → Answer
  init_info_answer : Bool → Bool → Answer
  error_answer : ℕ → Answer
  ok_answer no_answer : Answer

-- Without a name, one key with an automatic name is made.
abbrev pub wanted_ids : List (List ℕ) → List (List ℕ)
wanted_ids [] = [] ∷ []
wanted_ids (id ∷ ids) = id ∷ ids

-- A failure reports the name that was asked for, since CreateKey returns none.
unfoldable pub new_key_result : List ℕ → CreateReply → Option NewKeyResult
new_key_result alias (created id bl_pubkey tz4) =
    some (record { key_id = id; bl_pubkey = bl_pubkey; tz4 = tz4; ok_flag = true })
new_key_result alias (failed e) =
    some (record { key_id = alias; bl_pubkey = []; tz4 = []; ok_flag = false })
new_key_result alias panics = none
new_key_result alias out_of_fuel = none

module _ (gcm : Gcm) (kdf : Kdf) (lib : Signer) where
  -- The world is one for each key, in order, and `normalize_id` is strings.ToLower of
  -- strings.TrimSpace.
  unfoldable pub new_each :
      (List ℕ → List ℕ)
      → (ℕ → CreateWorld)
      → ℕ
      → ℕ
      → List ℕ
      → List (List ℕ)
      → RingState
      → RingState × Option (List NewKeyResult)
  unfolding new_key_result
  new_each normalize_id worlds i fuel pass [] st = (st, some [])
  new_each normalize_id worlds i fuel pass (alias ∷ rest) st =
      let (st', reply) = ring_create gcm kdf lib (worlds i) fuel (normalize_id alias) pass st in
      let more = new_each normalize_id worlds (suc i) fuel pass rest st' in
      elim (new_key_result alias reply) [
        | none ↦ (st', none)
        | some r ↦ (more.0, elim (more.1) [ none ↦ none | some rs ↦ some (r ∷ rs) ])
      ]

  unfoldable pub new_keys_answer : RingState × Option (List NewKeyResult) → RingState × Answer
  new_keys_answer (st, none) = (st, no_answer)
  new_keys_answer (st, some rs) = (st, new_keys rs)

  unfoldable pub handle_new_keys :
      (List ℕ → List ℕ)
      → (ℕ → CreateWorld)
      → ℕ
      → List (List ℕ)
      → List ℕ
      → RingState
      → RingState × Answer
  unfolding new_each new_keys_answer
  handle_new_keys normalize_id worlds fuel ids pass st =
      new_keys_answer (new_each normalize_id worlds 0 fuel pass (wanted_ids ids) st)

  unfoldable pub handle_status : Bool → RingState → RingState × Answer
  unfolding ring_status
  handle_status lists st =
      let (keys, entries) = ring_status gcm lists st.store st.keys in
      (record st { keys = keys }, status entries)

  -- Behind `InitMaster`: the seed is written under the password.
  unfoldable pub with_master :
      List ℕ
      → List ℕ
      → WriteOutcome
      → List ℕ
      → Bool
      → FileStore × StoreResult (Unit {0})
      → FileStore × Answer
  unfolding write_seed
  with_master seed nonce outcome pass det (s, err e) = (s, error_answer 61)
  with_master seed nonce outcome pass det (s, panic) = (s, no_answer)
  with_master seed nonce outcome pass det (s, ok u) =
      let (s', r) = write_seed gcm kdf seed nonce outcome pass det s in
      (s', elim r [ ok v ↦ ok_answer | err e ↦ error_answer 62 | panic ↦ no_answer ])

  unfoldable pub handle_init_master :
      Bool
      → List ℕ
      → WriteOutcome
      → List ℕ
      → List ℕ
      → WriteOutcome
      → Bool
      → List ℕ
      → FileStore
      → FileStore × Answer
  unfolding init_master with_master
  handle_init_master stat_fails salt master_write seed nonce seed_write det [] s =
      (s, error_answer 60)
  handle_init_master stat_fails salt master_write seed nonce seed_write det (c ∷ pass) s =
      with_master seed nonce seed_write (c ∷ pass) det (init_master stat_fails salt master_write s)

unfoldable pub handle_init_info : Bool → Bool → FileStore → Answer
unfolding init_info
handle_init_info stat_fails open_fails s = elim (init_info stat_fails open_fails s) [
  | ok (master, det) ↦ init_info_answer master det
  | err e ↦ error_answer 70
  | panic ↦ no_answer
]
