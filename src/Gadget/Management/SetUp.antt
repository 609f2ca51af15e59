-- ===== src/Gadget/Management/SetUp.antt =====
-- The set-up of the master password, whole and half.
use tezsign.Prelude.{
  ℕ, ◌≡◌, ◌⊎◌, inl, inr, refl, ap, sym, ◌∙◌, if_rule, not, ◌&&◌, Bool, true, false, List, ◌∷◌, none,
  some, length, ◌==◌, if◌then◌else◌,
}
use mathlib.Core.Path.{subst}
use tezsign.Keychain.Crypto.{Gcm, is_aes_key}
use tezsign.Keychain.Ring.Status.{verify_master_password}
use tezsign.Keychain.Store.{
  MasterFile, FileStore, ok, Kdf, WriteOutcome, written, not_written, write_sync, write_result,
  init_master, init_info, file_error,
}
use tezsign.Keychain.Store.Sealing.{IsUsable}
use tezsign.Keychain.Store.Seed.{read_seed}
use tezsign.Keychain.Store.Seed.RoundTrip.{
  seeded, write_seed_lem, write_seed_unwritten, read_seed_lem,
}
use tezsign.Keychain.Create.{
  RingState, Signer, CreateWorld, CreateReply, failed, store_failed, invalid_key_id, is_empty,
  is_valid_id, choose_mode, with_mode, ring_create,
}
use tezsign.Gadget.Management.{
  init_info_answer, error_answer, ok_answer, with_master, handle_init_master, handle_init_info,
}

-- A call of `CreateKey` that fails: for want of a seed, or of a valid name.
abbrev pub CannotCreate : CreateReply → Type 0
CannotCreate reply = (reply ≡ failed (store_failed file_error)) ⊎ (reply ≡ failed invalid_key_id)

module _ (gcm : Gcm) (kdf : Kdf) (lib : Signer) (s : FileStore) (salt : List ℕ) where
  abbrev fresh_master : MasterFile
  fresh_master = record {
    version = 1;
    salt = salt;
    params = record { time = 3; memory = 65536; threads = 4; key_len = 32 };
    next_index = 1;
  }

  abbrev initialised : FileStore
  initialised = record s { master = some fresh_master }

  init_master_lem :
      (stat_fails : Bool)
      → s.master ≡ none
      → init_master stat_fails salt written s ≡ (initialised, ok tt)
  unfolding init_master write_sync write_result
  init_master_lem stat_fails e = rw e refl

  initialised-IsUsable : (password : List ℕ) → IsUsable gcm kdf password fresh_master initialised
  unfolding is_aes_key
  initialised-IsUsable password = record {
    is_master = refl;
    runs = refl;
    aes = rw (kdf.length-id_key password salt fresh_master.params) refl;
  }

  module _ (seed nonce : List ℕ) (det : Bool) (c : ℕ) (pass : List ℕ) where
    abbrev whole : FileStore
    whole = seeded gcm kdf (c ∷ pass) fresh_master initialised seed nonce det

    info_whole : handle_init_info false false whole ≡ init_info_answer true det
    unfolding handle_init_info init_info
    info_whole = ap (init_info_answer true) (flag det)
      where
        flag : (b : Bool) → ((if b then 1 else 0) == 1) ≡ b
        flag true = refl
        flag false = refl

    set_up_lem :
        (stat_fails : Bool)
        → s.master ≡ none
        → length nonce ≡ 12
        → handle_init_master gcm kdf lib stat_fails salt written seed nonce written det (c ∷ pass) s
          ≡ (whole, ok_answer)
    unfolding handle_init_master
    set_up_lem stat_fails e hn =
        ap (with_master gcm kdf lib seed nonce written (c ∷ pass) det)
          (init_master_lem stat_fails e)
        ∙ stored
      where
        stored :
            with_master gcm kdf lib seed nonce written (c ∷ pass) det (initialised, ok tt)
            ≡ (whole, ok_answer)
        stored =
            unfold with_master in
            rw
              (write_seed_lem gcm kdf (c ∷ pass) fresh_master initialised seed nonce det
                (initialised-IsUsable (c ∷ pass)) hn)
              refl

    verify_whole :
        length nonce ≡ 12
        → length seed ≡ 32
        → verify_master_password gcm kdf (c ∷ pass) whole ≡ ok tt
    unfolding verify_master_password
    verify_whole hn hs =
        rw
          (
            read_seed_lem gcm kdf (c ∷ pass) fresh_master initialised seed nonce det
                (initialised-IsUsable (c ∷ pass)) hn hs,
            verify_master_password,
          )
          refl

    -- On a store with no master file, with a password, a 12-byte nonce, a seed of 32 bytes and writes
    -- that succeed: the set-up succeeds, the master password is then verified, and the device reports
    -- that the master file is there, and whether keys are derived.
    pub init_info-init_master :
        (stat_fails : Bool)
        → s.master ≡ none
        → length nonce ≡ 12
        → length seed ≡ 32
        → let r =
            handle_init_master gcm kdf lib stat_fails salt written seed nonce written det
              (c ∷ pass)
              s in
          (r.1 ≡ ok_answer)
          × (handle_init_info false false r.0 ≡ init_info_answer true det)
          × (verify_master_password gcm kdf (c ∷ pass) r.0 ≡ ok tt)
    init_info-init_master stat_fails e hn hs =
        let x = set_up_lem stat_fails e hn in
        (
          ap (λ r. r.1) x,
          ap (λ r. handle_init_info false false r.0) x ∙ info_whole,
          ap (λ r. verify_master_password gcm kdf (c ∷ pass) r.0) x ∙ verify_whole hn hs,
        )

    half_lem :
        (stat_fails : Bool)
        → s.master ≡ none
        → length nonce ≡ 12
        → handle_init_master gcm kdf lib stat_fails salt written seed nonce not_written det
            (c ∷ pass)
            s
          ≡ (initialised, error_answer 62)
    unfolding handle_init_master
    half_lem stat_fails e hn =
        ap (with_master gcm kdf lib seed nonce not_written (c ∷ pass) det)
          (init_master_lem stat_fails e)
        ∙ unwritten
      where
        unwritten :
            with_master gcm kdf lib seed nonce not_written (c ∷ pass) det (initialised, ok tt)
            ≡ (initialised, error_answer 62)
        unwritten =
            unfold with_master in
            rw
              (write_seed_unwritten gcm kdf (c ∷ pass) fresh_master initialised seed nonce det
                (initialised-IsUsable (c ∷ pass)) hn)
              refl

    -- A later call of the set-up, with anything.
    again_refused :
        (salt' seed' nonce' : List ℕ) (master_write seed_write : WriteOutcome) (det' : Bool)
        (c' : ℕ) (pass' : List ℕ)
        → handle_init_master gcm kdf lib false salt' master_write seed' nonce' seed_write det'
            (c' ∷ pass')
            initialised
          ≡ (initialised, error_answer 61)
    unfolding handle_init_master with_master init_master
    again_refused salt' seed' nonce' master_write seed_write det' c' pass' = refl

    no_seed :
        (w : CreateWorld) (fuel : ℕ) (id password : List ℕ) (st : RingState)
        → st.store.seed ≡ none
        → CannotCreate (ring_create gcm kdf lib w fuel id password st).1
    unfolding ring_create choose_mode with_mode read_seed
    no_seed w fuel id password st e =
        if_rule (λ (r : RingState × CreateReply). CannotCreate r.1)
          (not (is_empty id) && not (is_valid_id id)) _ _ (λ invalid. inr refl)
          λ valid. rw e (inl refl)

    -- On a store with no master file and no seed, with a password and a 12-byte nonce, when the master
    -- file is written and the seed is not: the set-up answers error 62; every later one, with any
    -- password, while the system can tell that the master file is there, answers error 61 and changes
    -- nothing; and every later creation of a key, of any name and under any password, fails, for want of
    -- the seed or because the name is not valid.
    pub half_set_up :
        (stat_fails : Bool) (w : CreateWorld) (fuel : ℕ) (id password : List ℕ) (st : RingState)
        → s.master ≡ none
        → s.seed ≡ none
        → length nonce ≡ 12
        → let r =
            handle_init_master gcm kdf lib stat_fails salt written seed nonce not_written det
              (c ∷ pass)
              s in
          (r.1 ≡ error_answer 62)
          × ((salt' seed' nonce' : List ℕ) (master_write seed_write : WriteOutcome) (det' : Bool)
                (c' : ℕ) (pass' : List ℕ)
              → handle_init_master gcm kdf lib false salt' master_write seed' nonce' seed_write det'
                  (c' ∷ pass')
                  r.0
                ≡ (r.0, error_answer 61))
          × CannotCreate (ring_create gcm kdf lib w fuel id password (record st { store = r.0 })).1
    half_set_up stat_fails w fuel id password st e e' hn =
        let x = half_lem stat_fails e hn in
        let after = ap (λ r. r.0) x in
        (
          ap (λ r. r.1) x,
          λ salt' seed' nonce' mw sw det' c' pass'.
              subst
                (λ t.
                  handle_init_master gcm kdf lib false salt' mw seed' nonce' sw det' (c' ∷ pass') t
                  ≡ (t, error_answer 61))
                (sym after) (again_refused salt' seed' nonce' mw sw det' c' pass'),
          no_seed w fuel id password
              (record st {
                store =
                    (handle_init_master gcm kdf lib stat_fails salt written seed nonce not_written
                      det (c ∷ pass) s).0;
              })
              (ap (λ t. t.seed) after ∙ e'),
        )
