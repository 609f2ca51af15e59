-- ===== src/Keychain/Create/Library/Sound.antt =====
-- `CreateKey` over the package signer: the derivation of a key and its proof of possession never fail.
use tezsign.Prelude.{
  ℕ, zero, suc, ◌≢◌, refl, Bool, true, false, not, ◌&&◌, List, [], ◌∷◌, Option, none, some,
  if◌then◌else◌, if_rule,
}
use tezsign.Keychain.Crypto.{Gcm}
use tezsign.Keychain.Key.{new_gkey}
use tezsign.Keychain.Ring.{keys_insert}
use tezsign.Keychain.Store
use tezsign.Keychain.Store.{
  MasterFile, FileStore, StoreError, StoreResult, Kdf, key_exists, has_key, read_master,
}
use tezsign.Keychain.Store.Keys.{create_key}
use tezsign.Keychain.Store.Seed.{read_seed}
use tezsign.Keychain.Store.Seed.Size.{IsSeed, read_seed-IsSeed}
use tezsign.Keychain.Create.{
  RingState, KeyPair, CreateWorld, exists, pop_failed, CreateReply, created, failed, Mode,
  deterministic_mode, is_valid_id, is_empty, Round, ends, again, Material, material, no_material,
  material_panics, pick_pair, after_create, store_pair, try_candidate, create_round, create_loop,
  choose_mode, with_mode, ring_create,
}
use tezsign.Signer.Scalar.{Hash, Blst}
use tezsign.Signer.Text.{Base58}
use tezsign.Signer.Hd.Derives.{IsAccepting, Finds}
use tezsign.Keychain.Create.Library.Picked.{
  IsOfStore, lib, IsPicked, IsSeeded, pick_pair-IsPicked, sign_pop-some,
}

abbrev pub IsSignerSafe : CreateReply → Type 0
IsSignerSafe (failed e) = IsOfStore e
IsSignerSafe r = Unit

abbrev RoundSound : Round → Type 0
RoundSound (ends st r) = IsSignerSafe r
RoundSound (again st reserved) = Unit

record IsSoundRound (r : Round) : Type 0 where
  sound : RoundSound r

record IsSoundReply (r : RingState × CreateReply) : Type 0 where
  sound : IsSignerSafe r.1

module _ (gcm : Gcm) (kdf : Kdf) (w : CreateWorld) (h : Hash) (l : Blst) (b : Base58)
    (accepting : IsAccepting l) (salts : ℕ) where
  after_create-IsSoundRound :
      (id candidate : List ℕ) (pair : KeyPair) (reserved : Option ℕ) (st : RingState)
      (r : FileStore × StoreResult (Unit {0}))
      → IsSoundRound (
          after_create gcm kdf
            (lib gcm kdf w h l b accepting salts)
            w
            id
            candidate
            pair
            reserved
            st
            r)
  unfolding after_create
  after_create-IsSoundRound id candidate pair reserved st (s, Store.ok u) = record {
    sound = go (keys_insert candidate (new_gkey pair.bl_pubkey tz4) st.keys).1;
  }
    where
      tz4 : List ℕ
      tz4 = (lib gcm kdf w h l b accepting salts).tz4_from pair.pubkey_bytes

      go :
          (fresh : Bool)
          → IsSignerSafe (if fresh then created candidate pair.bl_pubkey tz4 else failed exists)
      go true = tt
      go false = tt
  after_create-IsSoundRound id candidate pair reserved st (s, Store.err key_exists) =
      if_rule IsSoundRound (is_empty id) _ _ (λ _. record { sound = tt }) λ _. record { sound = tt }
  after_create-IsSoundRound id candidate pair reserved st (s, Store.err _) = record { sound = tt }
  after_create-IsSoundRound id candidate pair reserved st (s, Store.panic) = record { sound = tt }

  store_pair-IsSoundRound :
      (id candidate password : List ℕ) (st : RingState) (s : FileStore) (reserved : Option ℕ)
      (m : Material)
      → (IsPicked gcm kdf w h l b accepting salts) m
      → IsSoundRound (
          store_pair gcm kdf
            (lib gcm kdf w h l b accepting salts)
            w
            id
            candidate
            password
            st
            (s, (reserved, m)))
  unfolding store_pair
  store_pair-IsSoundRound id candidate password st s reserved (no_material e) x = record {
    sound = x.picked;
  }
  store_pair-IsSoundRound id candidate password st s reserved material_panics x = record {
    sound = tt;
  }
  store_pair-IsSoundRound id candidate password st s reserved (material pair) x =
      go ((lib gcm kdf w h l b accepting salts).sign_pop pair)
        ((sign_pop-some gcm kdf w h l b accepting salts) pair x.picked)
    where
      made : List ℕ → FileStore × StoreResult (Unit {0})
      made pop =
          create_key gcm kdf w.random w.writes candidate password pair.secret pair.bl_pubkey
            ((lib gcm kdf w h l b accepting salts).tz4_from pair.pubkey_bytes) pop s

      go :
          (o : Option (List ℕ))
          → o ≢ none
          → IsSoundRound (elim o [
            | none ↦ ends (record st { store = s }) (failed pop_failed)
            | some pop ↦
                after_create gcm kdf
                  (lib gcm kdf w h l b accepting salts)
                  w
                  id
                  candidate
                  pair
                  reserved
                  st
                  (made pop)
          ])
      go none ne = absurd (ne refl)
      go (some pop) ne = after_create-IsSoundRound id candidate pair reserved st (made pop)

  try_candidate-IsSoundRound :
      (mode : Mode) (id candidate password : List ℕ) (reserved : Option ℕ) (st : RingState)
      → (IsSeeded gcm kdf w h l b accepting salts) mode
      → IsSoundRound (
          try_candidate gcm kdf
            (lib gcm kdf w h l b accepting salts)
            w
            mode
            id
            candidate
            password
            reserved
            st)
  unfolding try_candidate
  try_candidate-IsSoundRound mode id candidate password reserved st seeded =
      let p = pick_pair gcm kdf (lib gcm kdf w h l b accepting salts) w mode reserved st.store in
      if_rule IsSoundRound (has_key st.store candidate)
        (if is_empty id then again st reserved else ends st (failed exists))
        (store_pair gcm kdf (lib gcm kdf w h l b accepting salts) w id candidate password st p)
        (λ taken.
          if_rule IsSoundRound (is_empty id) (again st reserved) (ends st (failed exists))
            (λ auto. record { sound = tt }) λ _. record { sound = tt })
        λ free.
          store_pair-IsSoundRound id candidate password st p.0 p.1.0 p.1.1
            ((pick_pair-IsPicked gcm kdf w h l b accepting salts) mode reserved st.store seeded)

  create_round-IsSoundRound :
      (mode : Mode) (id password : List ℕ) (reserved : Option ℕ) (st : RingState)
      → (IsSeeded gcm kdf w h l b accepting salts) mode
      → IsSoundRound (
          create_round gcm kdf (lib gcm kdf w h l b accepting salts) w mode id password reserved st)
  unfolding create_round
  create_round-IsSoundRound mode [] password reserved st seeded =
      try_candidate-IsSoundRound mode [] _ password reserved _ seeded
  create_round-IsSoundRound mode (c ∷ cs) password reserved st seeded =
      try_candidate-IsSoundRound mode (c ∷ cs) (c ∷ cs) password reserved st seeded

  create_loop-IsSoundReply :
      (fuel : ℕ) (mode : Mode) (id password : List ℕ) (reserved : Option ℕ) (st : RingState)
      → (IsSeeded gcm kdf w h l b accepting salts) mode
      → IsSoundReply (
          create_loop gcm kdf
            (lib gcm kdf w h l b accepting salts)
            w
            fuel
            mode
            id
            password
            reserved
            st)
  unfolding create_loop
  create_loop-IsSoundReply zero mode id password reserved st seeded = record { sound = tt }
  create_loop-IsSoundReply (suc fuel) mode id password reserved st seeded =
      go (create_round gcm kdf (lib gcm kdf w h l b accepting salts) w mode id password reserved st)
        (create_round-IsSoundRound mode id password reserved st seeded)
        (λ reserved' st'. create_loop-IsSoundReply fuel mode id password reserved' st' seeded)
    where
      go :
          (r : Round)
          → IsSoundRound r
          → ((reserved' : Option ℕ) (st' : RingState)
              → IsSoundReply (
                  create_loop gcm kdf
                    (lib gcm kdf w h l b accepting salts)
                    w
                    fuel
                    mode
                    id
                    password
                    reserved'
                    st'))
          → IsSoundReply (elim r [
            | ends st' reply ↦ (st', reply)
            | again st' reserved' ↦
                create_loop gcm kdf
                  (lib gcm kdf w h l b accepting salts)
                  w
                  fuel
                  mode
                  id
                  password
                  reserved'
                  st'
          ])
      go (ends st' reply) x more = record { sound = x.sound }
      go (again st' reserved') x more = more reserved' st'

  abbrev ResultSeeded : StoreResult Mode → Type 0
  ResultSeeded (Store.ok mode) = (IsSeeded gcm kdf w h l b accepting salts) mode
  ResultSeeded r = Unit

  choose_mode_lem :
      (s : FileStore) (r : StoreResult (Bool × List ℕ))
      → ((salt : List ℕ) → Finds h l accepting salts salt)
      → IsSeed r
      → ResultSeeded (choose_mode gcm kdf (lib gcm kdf w h l b accepting salts) w s r)
  unfolding choose_mode
  choose_mode_lem s (Store.err e) found x = tt
  choose_mode_lem s Store.panic found x = tt
  choose_mode_lem s (Store.ok (false, seed)) found x = tt
  choose_mode_lem s (Store.ok (true, seed)) found x = go (read_master s)
    where
      go :
          (r : StoreResult MasterFile)
          → ResultSeeded (Store.◌>>=◌ r (λ mf. Store.ok (deterministic_mode mf.salt seed)))
      go (Store.ok mf) = (x.size, found mf.salt)
      go (Store.err e) = tt
      go Store.panic = tt

  with_mode-IsSoundReply :
      (fuel : ℕ) (id password : List ℕ) (st : RingState) (r : StoreResult Mode)
      → ResultSeeded r
      → IsSoundReply
          (with_mode gcm kdf (lib gcm kdf w h l b accepting salts) w fuel id password st r)
  unfolding with_mode
  with_mode-IsSoundReply fuel id password st (Store.ok mode) x =
      create_loop-IsSoundReply fuel mode id password none st x
  with_mode-IsSoundReply fuel id password st (Store.err e) x = record { sound = tt }
  with_mode-IsSoundReply fuel id password st Store.panic x = record { sound = tt }

  -- With a library that takes every scalar of the field but zero, and hashes that give a candidate for every
  -- salt and key bytes: whatever the store holds, CreateKey never fails in the derivation of a key, nor
  -- in its proof of possession.
  pub ring_create-IsSignerSafe :
      (fuel : ℕ) (id password : List ℕ) (st : RingState)
      → ((salt : List ℕ) → Finds h l accepting salts salt)
      → IsSignerSafe
          (ring_create gcm kdf (lib gcm kdf w h l b accepting salts) w fuel id password st).1
  unfolding ring_create
  ring_create-IsSignerSafe fuel id password st found =
      (if_rule IsSoundReply (not (is_empty id) && not (is_valid_id id)) _ _
        (λ _. record { sound = tt })
        λ _. with_mode-IsSoundReply fuel id password st _ (
          choose_mode_lem st.store (read_seed gcm kdf password st.store) found
            (read_seed-IsSeed gcm kdf password st.store))).sound
