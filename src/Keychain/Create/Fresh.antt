-- ===== src/Keychain/Create/Fresh.antt =====
-- A key that is created takes a free name, and leaves all other keys as they were.
use tezsign.Prelude.{
  ℕ, zero, suc, ◌+◌, ◌%◌, ◌^◌, ◌≡◌, inl, inr, refl, ap, sym, ◌∙◌, Bool, true, false, not, ◌&&◌,
  List, [], ◌∷◌, Option, none, some, if_rule, if◌then◌else◌, Bool-cases,
}
use tezsign.Prelude.Maps.{lookup, insert, lookup-insert}
use tezsign.Keychain.Crypto.{Gcm}
use tezsign.Keychain.Key.{GKey, new_gkey}
use tezsign.Keychain.Ring.{Keys, keys_insert}
use tezsign.Keychain.Store
use tezsign.Keychain.Store.{
  KeyDir, FileStore, StoreResult, StoreError, Kdf, key_exists, key_dir, has_key, is_some,
}
use tezsign.Keychain.Store.Index.{reserve, next_deterministic_index, reserved_index}
use tezsign.Keychain.Store.Keys.{create_key}
use tezsign.Keychain.Store.Keys.Frame.{create_key_keeps, create_key-Created}
use tezsign.Keychain.Store.Seed.{read_seed}
use tezsign.Keychain.Create.{
  RingState, KeyPair, Signer, CreateWorld, CreateReply, created, failed, panics, out_of_fuel,
  exists, invalid_key_id, pop_failed, Mode, random_mode, deterministic_mode, is_valid_id, is_empty,
  auto_id, Round, ends, again, Material, material, no_material, material_panics, reserve_once,
  derived, pick_pair, after_create, store_pair, try_candidate, create_round, create_loop,
  choose_mode, with_mode, ring_create,
}

-- Every key of the first store is in the second as it was.
abbrev pub Keeps : FileStore → FileStore → Type 0
Keeps s s' = (id : List ℕ) → has_key s id ≡ true → key_dir s' id ≡ key_dir s id

pub has_key-same :
    (s s' : FileStore) (id : List ℕ) → key_dir s' id ≡ key_dir s id → has_key s' id ≡ has_key s id
unfolding has_key
has_key-same s s' id e = ap (λ d. is_some d.meta) e

Keeps-trans : (a b c : FileStore) → Keeps a b → Keeps b c → Keeps a c
Keeps-trans a b c f g id h = g id (has_key-same a b id (f id h) ∙ h) ∙ f id h

-- A name that is free in the second store was free in the first.
free_before :
    (a b : FileStore) (id : List ℕ) → Keeps a b → has_key b id ≡ false → has_key a id ≡ false
free_before a b id k free = elim (Bool-cases (has_key a id)) [
  | inl h ↦ absurd (cc (has_key-same a b id (k id h), h, free))
  | inr f ↦ f
]

pub key_dir-same : (s t : FileStore) (id : List ℕ) → s.keys ≡ t.keys → key_dir s id ≡ key_dir t id
unfolding key_dir
key_dir-same s t id e = rw e refl

-- What the end of a call says of the ring and the store that it began with.
abbrev pub ReplyPost : RingState → RingState → CreateReply → Type 0
ReplyPost st st' (created id bl_pubkey tz4) =
    (has_key st.store id ≡ false)
    × (lookup id st.keys ≡ none)
    × (has_key st'.store id ≡ true)
    × (lookup id st'.keys ≡ some (new_gkey bl_pubkey tz4))
ReplyPost st st' (failed e) = st'.keys ≡ st.keys
ReplyPost st st' panics = st'.keys ≡ st.keys
ReplyPost st st' out_of_fuel = st'.keys ≡ st.keys

abbrev pub CreatePost : RingState → RingState × CreateReply → Type 0
CreatePost st (st', reply) = Keeps st.store st'.store × ReplyPost st st' reply

-- The same for a round, with the state that the next one begins with.
abbrev RoundPost : RingState → Round → Type 0
RoundPost st (ends st' reply) = CreatePost st (st', reply)
RoundPost st (again st' reserved) = Keeps st.store st'.store × (st'.keys ≡ st.keys)

record IsRound (st : RingState) (r : Round) : Type 0 where
  post : RoundPost st r

abbrev Inserted : List ℕ → GKey → Keys → Keys × Bool → Type 0
Inserted id k keys (keys', true) = (lookup id keys ≡ none) × (lookup id keys' ≡ some k)
Inserted id k keys (keys', false) = keys' ≡ keys

keys_insert-Inserted :
    (id : List ℕ) (k : GKey) (keys : Keys) → Inserted id k keys (keys_insert id k keys)
unfolding keys_insert
keys_insert-Inserted id k keys = go (lookup id keys) refl
  where
    go :
        (o : Option GKey)
        → lookup id keys ≡ o
        → Inserted id k keys (elim o [ some g ↦ (keys, false) | none ↦ (insert id k keys, true) ])
    go none e = (e, lookup-insert id k keys)
    go (some g) e = refl

reserve_keys : (o : _) (s : FileStore) (r : _) → (reserve o s r).0.keys ≡ s.keys
unfolding reserve
reserve_keys o s (Store.ok r) = refl
reserve_keys o s (Store.err e) = refl
reserve_keys o s Store.panic = refl

module _ (gcm : Gcm) (kdf : Kdf) (lib : Signer) (w : CreateWorld) where
  derived_keys :
      (salt seed : List ℕ) (reserved : Option ℕ) (r : FileStore × StoreResult ℕ)
      → (derived gcm kdf lib w salt seed reserved r).0.keys ≡ r.0.keys
  unfolding derived
  derived_keys salt seed reserved (s, Store.ok i) = refl
  derived_keys salt seed reserved (s, Store.err e) = refl
  derived_keys salt seed reserved (s, Store.panic) = refl

  reserve_once_keys :
      (reserved : Option ℕ) (s : FileStore)
      → (reserve_once gcm kdf lib w reserved s).0.keys ≡ s.keys
  unfolding reserve_once next_deterministic_index
  reserve_once_keys (some i) s = refl
  reserve_once_keys none s = reserve_keys w.index_write s (reserved_index w.lists s)

  pub pick_pair_keys :
      (mode : Mode) (reserved : Option ℕ) (s : FileStore)
      → (pick_pair gcm kdf lib w mode reserved s).0.keys ≡ s.keys
  unfolding pick_pair
  pick_pair_keys random_mode reserved s = refl
  pick_pair_keys (deterministic_mode salt seed) reserved s =
      derived_keys salt seed reserved (reserve_once gcm kdf lib w reserved s)
      ∙ reserve_once_keys reserved s

  ends_with :
      (st : RingState) (s : FileStore) (id bl_pubkey tz4 : List ℕ) (r : Keys × Bool)
      → Keeps st.store s
      → has_key st.store id ≡ false
      → has_key s id ≡ true
      → Inserted id (new_gkey bl_pubkey tz4) st.keys r
      → RoundPost st (
          ends
            (record st { keys = r.0; store = s })
            (if r.1 then created id bl_pubkey tz4 else failed exists))
  ends_with st s id bl_pubkey tz4 (keys, true) keeps free there (none_there, found) =
      (keeps, (free, none_there, there, found))
  ends_with st s id bl_pubkey tz4 (keys, false) keeps free there same = (keeps, same)

  after_create-IsRound :
      (id candidate : List ℕ) (pair : KeyPair) (reserved : Option ℕ) (st : RingState)
      (r : FileStore × StoreResult (Unit {0}))
      → Keeps st.store r.0
      → has_key st.store candidate ≡ false
      → (r.1 ≡ Store.ok tt → has_key r.0 candidate ≡ true)
      → IsRound st (after_create gcm kdf lib w id candidate pair reserved st r)
  unfolding after_create keys_insert
  after_create-IsRound id candidate pair reserved st (s, Store.ok u) keeps free there = record {
    post =
        ends_with st s candidate pair.bl_pubkey (lib.tz4_from pair.pubkey_bytes) _ keeps free
          (there refl) (keys_insert-Inserted candidate _ st.keys);
  }
  after_create-IsRound id candidate pair reserved st (s, Store.err key_exists) keeps free there =
      if_rule (IsRound st) (is_empty id) (again (record st { store = s }) reserved)
        (ends (record st { store = s }) (failed exists)) (λ _. record { post = (keeps, refl) })
        λ _. record { post = (keeps, refl) }
  after_create-IsRound id candidate pair reserved st (s, Store.err _) keeps free there = record {
    post = (keeps, refl);
  }
  after_create-IsRound id candidate pair reserved st (s, Store.panic) keeps free there = record {
    post = (keeps, refl);
  }

  same_keys : (s t : FileStore) → s.keys ≡ t.keys → Keeps t s
  same_keys s t e id h = key_dir-same s t id e

  -- The store that a candidate is made in has the keys of the ring's.
  store_pair-IsRound :
      (id candidate password : List ℕ) (st : RingState) (p : FileStore × (Option ℕ × Material))
      → p.0.keys ≡ st.store.keys
      → has_key st.store candidate ≡ false
      → IsRound st (store_pair gcm kdf lib w id candidate password st p)
  unfolding store_pair
  store_pair-IsRound id candidate password st (s, (reserved, no_material x)) e free = record {
    post = (same_keys s st.store e, refl);
  }
  store_pair-IsRound id candidate password st (s, (reserved, material_panics)) e free = record {
    post = (same_keys s st.store e, refl);
  }
  store_pair-IsRound id candidate password st (s, (reserved, material pair)) e free =
      go (lib.sign_pop pair)
    where
      tz4 : List ℕ
      tz4 = lib.tz4_from pair.pubkey_bytes

      made : List ℕ → FileStore × StoreResult (Unit {0})
      made pop =
          create_key gcm kdf w.random w.writes candidate password pair.secret pair.bl_pubkey tz4 pop
            s

      keeps : (pop : List ℕ) → Keeps s (made pop).0
      keeps pop id' h =
          (create_key_keeps gcm kdf w.random w.writes candidate password pair.secret pair.bl_pubkey
            tz4 pop id' s h).same_dir

      go :
          (o : Option (List ℕ))
          → IsRound st (elim o [
            | none ↦ ends (record st { store = s }) (failed pop_failed)
            | some pop ↦ after_create gcm kdf lib w id candidate pair reserved st (made pop)
          ])
      go none = record { post = (same_keys s st.store e, refl) }
      go (some pop) =
          after_create-IsRound id candidate pair reserved st (made pop)
            (Keeps-trans st.store s (made pop).0 (same_keys s st.store e) (keeps pop)) free
            (create_key-Created gcm kdf w.random w.writes candidate password pair.secret
              pair.bl_pubkey tz4 pop s).is_there

  try_candidate-IsRound :
      (mode : Mode) (id candidate password : List ℕ) (reserved : Option ℕ) (st : RingState)
      → IsRound st (try_candidate gcm kdf lib w mode id candidate password reserved st)
  unfolding try_candidate
  try_candidate-IsRound mode id candidate password reserved st =
      if_rule (IsRound st) (has_key st.store candidate)
        (if is_empty id then again st reserved else ends st (failed exists))
        (store_pair gcm kdf lib w id candidate password st
          (pick_pair gcm kdf lib w mode reserved st.store))
        (λ _.
          if_rule (IsRound st) (is_empty id) (again st reserved) (ends st (failed exists))
            (λ _. record { post = (λ id' h. refl, refl) })
            λ _. record { post = (λ id' h. refl, refl) })
        λ free.
          store_pair-IsRound id candidate password st _ (pick_pair_keys mode reserved st.store) free

  -- The counter of automatic names has no part in the post.
  recount :
      (st : RingState) (n : ℕ) (r : Round) → IsRound (record st { next_id = n }) r → IsRound st r
  recount st n (ends st' (created id bl tz4)) x = record { post = x.post }
  recount st n (ends st' (failed e)) x = record { post = x.post }
  recount st n (ends st' panics) x = record { post = x.post }
  recount st n (ends st' out_of_fuel) x = record { post = x.post }
  recount st n (again st' reserved) x = record { post = x.post }

  create_round-IsRound :
      (mode : Mode) (id password : List ℕ) (reserved : Option ℕ) (st : RingState)
      → IsRound st (create_round gcm kdf lib w mode id password reserved st)
  unfolding create_round
  create_round-IsRound mode [] password reserved st =
      let n = (st.next_id + 1) % 2 ^ 64 in
      recount st n _
        (try_candidate-IsRound mode [] (auto_id n) password reserved (record st { next_id = n }))
  create_round-IsRound mode (c ∷ cs) password reserved st =
      try_candidate-IsRound mode (c ∷ cs) (c ∷ cs) password reserved st

  -- Rounds that go on lead back to where they began, for what the post says.
  from_first :
      (st st' : RingState) (r : RingState × CreateReply)
      → Keeps st.store st'.store
      → st'.keys ≡ st.keys
      → CreatePost st' r
      → CreatePost st r
  from_first st st' (st'', created id bl tz4) k e (k', (free, none_there, there, found)) = (
    Keeps-trans st.store st'.store st''.store k k',
    (free_before st.store st'.store id k free, ap (lookup id) (sym e) ∙ none_there, there, found),
  )
  from_first st st' (st'', failed x) k e (k', e') =
      (Keeps-trans st.store st'.store st''.store k k', e' ∙ e)
  from_first st st' (st'', panics) k e (k', e') =
      (Keeps-trans st.store st'.store st''.store k k', e' ∙ e)
  from_first st st' (st'', out_of_fuel) k e (k', e') =
      (Keeps-trans st.store st'.store st''.store k k', e' ∙ e)

  create_loop_post :
      (fuel : ℕ) (mode : Mode) (id password : List ℕ) (reserved : Option ℕ) (st : RingState)
      → CreatePost st (create_loop gcm kdf lib w fuel mode id password reserved st)
  unfolding create_loop
  create_loop_post zero mode id password reserved st = (λ id' h. refl, refl)
  create_loop_post (suc fuel) mode id password reserved st =
      after_round st (create_round gcm kdf lib w mode id password reserved st)
        (create_round-IsRound mode id password reserved st)
        (λ reserved' st'. create_loop_post fuel mode id password reserved' st')
    where
      after_round :
          (st : RingState) (r : Round)
          → IsRound st r
          → ((reserved' : Option ℕ) (st' : RingState)
              → CreatePost st' (create_loop gcm kdf lib w fuel mode id password reserved' st'))
          → CreatePost st (elim r [
            | ends st' reply ↦ (st', reply)
            | again st' reserved' ↦ create_loop gcm kdf lib w fuel mode id password reserved' st'
          ])
      after_round st (ends st' reply) x more = x.post
      after_round st (again st' reserved') x more =
          from_first st st' (create_loop gcm kdf lib w fuel mode id password reserved' st')
            (x.post).0 (x.post).1 (more reserved' st')

-- However a call of `CreateKey` ends, the keys that the store had are as they were. When it reports a
-- key, no key had that name, in the store or in memory, and now the store has it, and the ring holds it
-- locked with the reported public key and address; when it does not, the ring holds the keys it held.
pub ring_create_post :
    (gcm : Gcm) (kdf : Kdf) (lib : Signer) (w : CreateWorld) (fuel : ℕ) (id password : List ℕ)
    (st : RingState)
    → CreatePost st (ring_create gcm kdf lib w fuel id password st)
unfolding ring_create with_mode
ring_create_post gcm kdf lib w fuel id password st =
    if_rule (CreatePost st) (not (is_empty id) && not (is_valid_id id)) (st, failed invalid_key_id)
      (with_mode gcm kdf lib w fuel id password st chosen) (λ _. (λ id' h. refl, refl))
      λ _. go chosen
  where
    chosen : StoreResult Mode
    chosen = choose_mode gcm kdf lib w st.store (read_seed gcm kdf password st.store)

    go : (m : StoreResult Mode) → CreatePost st (with_mode gcm kdf lib w fuel id password st m)
    go (Store.err e) = (λ id' h. refl, refl)
    go Store.panic = (λ id' h. refl, refl)
    go (Store.ok mode) = create_loop_post gcm kdf lib w fuel mode id password none st
