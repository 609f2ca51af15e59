-- ===== src/Keychain/Create/Ends.antt =====
-- The loop over automatic names ends.
use tezsign.Prelude.{
  ℕ, zero, suc, ◌+◌, ◌%◌, ◌^◌, ◌<◌, ◌≡◌, ◌≢◌, inl, inr, refl, sym, ◌∙◌, arith, Bool, true, false,
  not, ◌&&◌, List, [], ◌∷◌, Option, none, some, length, if_rule, if◌then◌else◌, Bool-cases,
}
use mathlib.Core.Path.{subst}
use tezsign.Prelude.Bytes.{bytes_eq}
use tezsign.Prelude.Maps.{Map, lookup, delete, lookup-delete_other}
use tezsign.Keychain.Crypto.{Gcm}
use tezsign.Keychain.Key.{new_gkey}
use tezsign.Keychain.Ring.{keys_insert}
use tezsign.Keychain.Store
use tezsign.Keychain.Store.{
  MasterFile, KeyMeta, KeyDir, FileStore, StoreResult, StoreError, Kdf, key_exists, bad_kek,
  WriteOutcome, written, not_written, not_synced, key_dir, has_key, write_result, read_master,
  derive_kek, seal_with, is_some,
}
use tezsign.Keychain.Store.Keys.{create_key}
use tezsign.Keychain.Store.Keys.Errors.{IsOther, create_key-IsOther}
use tezsign.Keychain.Store.Seed.{read_seed}
use tezsign.Keychain.Create.{
  RingState, KeyPair, Signer, CreateWorld, CreateReply, created, failed, out_of_fuel, exists,
  invalid_key_id, pop_failed, Mode, is_valid_id, is_empty, auto_id, Round, ends, again, Material,
  material, no_material, material_panics, pick_pair, after_create, store_pair, try_candidate,
  create_round, create_loop, choose_mode, with_mode, ring_create,
}
use tezsign.Keychain.Create.Names.{auto_id-injective, length-delete_lt}
use tezsign.Keychain.Create.Fresh.{key_dir-same, has_key-same, pick_pair_keys}

-- A round ends the call, or the candidate is taken, and nothing has changed.
abbrev Turn : RingState → List ℕ → List ℕ → Round → Type 0
Turn st id candidate (ends st' reply) = reply ≢ out_of_fuel
Turn st id candidate (again st' reserved) =
    (is_empty id ≡ true) × (has_key st.store candidate ≡ true) × (st' ≡ st)

record IsTurn (st : RingState) (id candidate : List ℕ) (r : Round) : Type 0 where
  turn : Turn st id candidate r

module _ (gcm : Gcm) (kdf : Kdf) (lib : Signer) (w : CreateWorld) where
  after_create-IsTurn :
      (id candidate : List ℕ) (pair : KeyPair) (reserved : Option ℕ) (st : RingState)
      (r : FileStore × StoreResult (Unit {0}))
      → IsOther r.1
      → IsTurn st id candidate (after_create gcm kdf lib w id candidate pair reserved st r)
  unfolding after_create keys_insert
  after_create-IsTurn id candidate pair reserved st (s, Store.ok u) h = record {
    turn =
        replies
          (keys_insert candidate (new_gkey pair.bl_pubkey (lib.tz4_from pair.pubkey_bytes))
            st.keys).1;
  }
    where
      replies :
          (fresh : Bool)
          → (if fresh
              then created candidate pair.bl_pubkey (lib.tz4_from pair.pubkey_bytes)
              else failed exists)
            ≢ out_of_fuel
      replies true e = cc
      replies false e = cc
  after_create-IsTurn id candidate pair reserved st (s, Store.err key_exists) h =
      absurd (h.other refl)
  after_create-IsTurn id candidate pair reserved st (s, Store.err _) h = record { turn = λ e. cc }
  after_create-IsTurn id candidate pair reserved st (s, Store.panic) h = record { turn = λ e. cc }

  store_pair-IsTurn :
      (id candidate password : List ℕ) (st : RingState) (p : FileStore × (Option ℕ × Material))
      → has_key p.0 candidate ≡ false
      → IsTurn st id candidate (store_pair gcm kdf lib w id candidate password st p)
  unfolding store_pair
  store_pair-IsTurn id candidate password st (s, (reserved, no_material x)) free = record {
    turn = λ e. cc;
  }
  store_pair-IsTurn id candidate password st (s, (reserved, material_panics)) free = record {
    turn = λ e. cc;
  }
  store_pair-IsTurn id candidate password st (s, (reserved, material pair)) free =
      go (lib.sign_pop pair)
    where
      tz4 : List ℕ
      tz4 = lib.tz4_from pair.pubkey_bytes

      made : List ℕ → FileStore × StoreResult (Unit {0})
      made pop =
          create_key gcm kdf w.random w.writes candidate password pair.secret pair.bl_pubkey tz4 pop
            s

      go :
          (o : Option (List ℕ))
          → IsTurn st id candidate (elim o [
            | none ↦ ends (record st { store = s }) (failed pop_failed)
            | some pop ↦ after_create gcm kdf lib w id candidate pair reserved st (made pop)
          ])
      go none = record { turn = λ e. cc }
      go (some pop) = after_create-IsTurn id candidate pair reserved st (made pop) (
          create_key-IsOther gcm kdf w.random w.writes candidate password pair.secret pair.bl_pubkey
            tz4 pop s free)

  try_candidate-IsTurn :
      (mode : Mode) (id candidate password : List ℕ) (reserved : Option ℕ) (st : RingState)
      → IsTurn st id candidate (try_candidate gcm kdf lib w mode id candidate password reserved st)
  unfolding try_candidate
  try_candidate-IsTurn mode id candidate password reserved st =
      let p = pick_pair gcm kdf lib w mode reserved st.store in
      if_rule (IsTurn st id candidate) (has_key st.store candidate)
        (if is_empty id then again st reserved else ends st (failed exists))
        (store_pair gcm kdf lib w id candidate password st p)
        (λ taken.
          if_rule (IsTurn st id candidate) (is_empty id) (again st reserved)
            (ends st (failed exists)) (λ auto. record { turn = (auto, taken, refl) })
            λ _. record { turn = λ e. cc })
        λ free. store_pair-IsTurn id candidate password st p (
          has_key-same st.store p.0 candidate (
            key_dir-same p.0 st.store candidate
              (pick_pair_keys gcm kdf lib w mode reserved st.store))
          ∙ free)

  -- All automatic names that are still to be tried and are taken are in the map.
  abbrev Listed : RingState → Map KeyDir → Type 0
  Listed st m =
      (j : ℕ)
      → st.next_id < j
      → j < 2 ^ 64
      → has_key st.store (auto_id j) ≡ true
      → is_some (lookup (auto_id j) m) ≡ true

  -- What is left to try when the next name was taken.
  Listed-delete :
      (st : RingState) (m : Map KeyDir) (n : ℕ)
      → n ≡ st.next_id + 1
      → n < 2 ^ 64
      → Listed st m
      → Listed (record st { next_id = n }) (delete (auto_id n) m)
  Listed-delete st m n e small listed j above below taken =
      rw (lookup-delete_other (auto_id n) (auto_id j) m different)
        (listed j (omega arith) below taken)
    where
      different : bytes_eq (auto_id n) (auto_id j) ≡ false
      different = elim (Bool-cases (bytes_eq (auto_id n) (auto_id j))) [
        | inl same ↦ absurd (omega (arith, auto_id-injective n j small below same))
        | inr f ↦ f
      ]

  some_of : {A : Type 0} (o : Option A) → is_some o ≡ true → (a : A) × (o ≡ some a)
  some_of none h = absurd (cc)
  some_of (some a) h = (a, refl)

  explicit_ends :
      (fuel : ℕ) (mode : Mode) (c : ℕ) (cs password : List ℕ) (reserved : Option ℕ) (st : RingState)
      → (create_loop gcm kdf lib w (suc fuel) mode (c ∷ cs) password reserved st).1 ≢ out_of_fuel
  unfolding create_loop create_round
  explicit_ends fuel mode c cs password reserved st =
      go (try_candidate gcm kdf lib w mode (c ∷ cs) (c ∷ cs) password reserved st)
        (try_candidate-IsTurn mode (c ∷ cs) (c ∷ cs) password reserved st)
    where
      go :
          (r : Round)
          → IsTurn st (c ∷ cs) (c ∷ cs) r
          → (elim r as (λ _. RingState × CreateReply) [
            | ends st' reply ↦ (st', reply)
            | again st' reserved' ↦
                create_loop gcm kdf lib w fuel mode (c ∷ cs) password reserved' st'
          ]).1
            ≢ out_of_fuel
      go (ends st' reply) t = t.turn
      go (again st' reserved') t = absurd (cc (t.turn).0)

  auto_step :
      (fuel : ℕ) (mode : Mode) (password : List ℕ) (st : RingState) (m : Map KeyDir) (n : ℕ)
      (r : Round)
      → n ≡ st.next_id + 1
      → n + fuel < 2 ^ 64
      → length m < suc fuel
      → Listed st m
      → IsTurn (record st { next_id = n }) [] (auto_id n) r
      → ((reserved : Option ℕ) (st' : RingState) (m' : Map KeyDir)
          → length m' < fuel
          → st'.next_id + fuel < 2 ^ 64
          → Listed st' m'
          → (create_loop gcm kdf lib w fuel mode [] password reserved st').1 ≢ out_of_fuel)
      → (elim r as (λ _. RingState × CreateReply) [
        | ends st' reply ↦ (st', reply)
        | again st' reserved' ↦ create_loop gcm kdf lib w fuel mode [] password reserved' st'
      ]).1
        ≢ out_of_fuel
  auto_step fuel mode password st m n (ends st' reply) e room short listed t more = t.turn
  auto_step fuel mode password st m n (again st' reserved') e room short listed t more =
      let (auto, taken, same) = t.turn in
      let (d, found) =
        some_of (lookup (auto_id n) m) (listed n (omega arith) (omega arith) taken) in
      subst (λ x. (create_loop gcm kdf lib w fuel mode [] password reserved' x).1 ≢ out_of_fuel)
        (sym same)
        (more reserved' (record st { next_id = n }) (delete (auto_id n) m)
          (omega (arith, length-delete_lt (auto_id n) d m found)) room
          (Listed-delete st m n e (omega arith) listed))

  auto_ends :
      (fuel : ℕ) (mode : Mode) (password : List ℕ) (reserved : Option ℕ) (st : RingState)
      (m : Map KeyDir)
      → length m < fuel
      → st.next_id + fuel < 2 ^ 64
      → Listed st m
      → (create_loop gcm kdf lib w fuel mode [] password reserved st).1 ≢ out_of_fuel
  unfolding create_loop create_round
  auto_ends zero mode password reserved st m short room listed = absurd (omega arith)
  auto_ends (suc fuel) mode password reserved st m short room listed =
      let n = (st.next_id + 1) % 2 ^ 64 in
      auto_step fuel mode password st m n _ (omega arith) (omega arith) short listed
        (try_candidate-IsTurn mode [] (auto_id n) password reserved (record st { next_id = n }))
        (λ reserved' st' m'. auto_ends fuel mode password reserved' st' m')

  all-Listed : (st : RingState) → Listed st st.store.keys
  unfolding has_key key_dir
  all-Listed st j above below taken = go (lookup (auto_id j) st.store.keys) taken
    where
      go :
          (o : Option KeyDir)
          → is_some (elim o as (λ _. KeyDir) [ none ↦ Store.blank_dir | some d ↦ d ]).meta ≡ true
          → is_some o ≡ true
      go none h = absurd (cc)
      go (some d) h = refl

  loop_ends :
      (fuel : ℕ) (mode : Mode) (id password : List ℕ) (st : RingState)
      → length st.store.keys < fuel
      → st.next_id + fuel < 2 ^ 64
      → (create_loop gcm kdf lib w fuel mode id password none st).1 ≢ out_of_fuel
  loop_ends fuel mode [] password st short room =
      auto_ends fuel mode password none st st.store.keys short room (all-Listed st)
  loop_ends zero mode (c ∷ cs) password st short room = absurd (omega arith)
  loop_ends (suc fuel) mode (c ∷ cs) password st short room =
      explicit_ends fuel mode c cs password none st

-- With one round more than there are directories in the store, `CreateKey` ends, for a name that is
-- asked for and for an automatic one, as long as the counter of automatic names does not wrap.
pub ring_create_ends :
    (gcm : Gcm) (kdf : Kdf) (lib : Signer) (w : CreateWorld) (fuel : ℕ) (id password : List ℕ)
    (st : RingState)
    → length st.store.keys < fuel
    → st.next_id + fuel < 2 ^ 64
    → (ring_create gcm kdf lib w fuel id password st).1 ≢ out_of_fuel
unfolding ring_create with_mode
ring_create_ends gcm kdf lib w fuel id password st short room =
    if_rule (λ (r : RingState × CreateReply). r.1 ≢ out_of_fuel)
      (not (is_empty id) && not (is_valid_id id)) (st, failed invalid_key_id)
      (with_mode gcm kdf lib w fuel id password st chosen) (λ _ e. cc) λ _. go chosen
  where
    chosen : StoreResult Mode
    chosen = choose_mode gcm kdf lib w st.store (read_seed gcm kdf password st.store)

    go : (m : StoreResult Mode) → (with_mode gcm kdf lib w fuel id password st m).1 ≢ out_of_fuel
    go (Store.err e) = λ e. cc
    go Store.panic = λ e. cc
    go (Store.ok mode) = loop_ends gcm kdf lib w fuel mode id password st short room
