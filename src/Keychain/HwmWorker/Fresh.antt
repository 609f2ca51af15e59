-- ===== src/Keychain/HwmWorker/Fresh.antt =====
-- The file that opening makes where there is none: both of its slots hold zero marks.
use tezsign.Prelude.{
  ℕ, ◌≡◌, inr, inl, refl, ap, ◌∙◌, arith, List, [], ◌++◌, none, some, length, false, true,
}
use tezsign.Keychain.Kinds.{block, preattestation, attestation}
use tezsign.Keychain.Crypto.{Gcm, is_aes_key}
use tezsign.Keychain.KeyState.{KeyState, new_zero_key_state, ensure_key_state}
use tezsign.Keychain.KeyState.RoundTrip.{IsEncodable, filled}
use tezsign.Keychain.HwmFile.{ok, Loaded, loaded}
use tezsign.Keychain.HwmFile.Slots.{
  sealed_slot, length-sealed_slot, encode_key_state_slot-sealed, decode_slot-sealed,
}
use tezsign.Keychain.HwmFile.Recovery.{Covers, HasRoom, write_first, write_second}
use tezsign.Keychain.HwmFile.Choice.{IsGood}
use tezsign.Keychain.HwmWorker.{
  HwmFile, Faults, opened, blank_slot, new_key_hwm_file, write_mirrored_key_state,
  read_key_hwm_state, init_key_hwm_file, open_key_hwm_file,
}
use tezsign.Keychain.HwmWorker.Durable.{decoded}
use tezsign.Keychain.HwmWorker.Guard.{IsGuarded}

abbrev pub no_faults : Faults
no_faults = record {
  open_read = false;
  open_write = false;
  stat = false;
  truncate = false;
  write_a = none;
  write_b = none;
  sync = false;
  sync_dir = false;
}

zero-HasRoom : HasRoom new_zero_key_state
unfolding new_zero_key_state
zero-HasRoom block = omega arith
zero-HasRoom preattestation = omega arith
zero-HasRoom attestation = omega arith

zero-IsEncodable : IsEncodable (some new_zero_key_state) 0
unfolding new_zero_key_state
zero-IsEncodable = ground arith

zero-filled : filled (some new_zero_key_state) ≡ new_zero_key_state
unfolding new_zero_key_state
zero-filled = refl

module _ (gcm : Gcm) (dek id tz4 random : List ℕ) where
  abbrev zero_slot : List ℕ
  zero_slot = sealed_slot gcm dek id tz4 random (some new_zero_key_state) 0

  abbrev pub fresh_file : HwmFile
  fresh_file = new_key_hwm_file (zero_slot ++ zero_slot) 0

  module _ (hn : length random ≡ 12) (hd : length dek ≡ 32) where
    aes : is_aes_key dek ≡ true
    unfolding is_aes_key
    aes = rw hd refl

    len : length zero_slot ≡ 100
    len = length-sealed_slot gcm dek id tz4 random (some new_zero_key_state) 0 hn

    mirrored :
        (a b : List ℕ)
        → length a ≡ 100
        → length b ≡ 100
        → write_mirrored_key_state gcm dek id tz4 no_faults
            (some random)
            (a ++ b)
            new_zero_key_state
            0
          ≡ (zero_slot ++ zero_slot, none)
    unfolding write_mirrored_key_state
    mirrored a b ha hb =
        rw
          (
            encode_key_state_slot-sealed gcm dek id tz4 blank_slot random (some new_zero_key_state)
                0 refl hn aes,
            write_mirrored_key_state,
          )
          (rw (write_first a b zero_slot ha len)
            (rw (write_second zero_slot b zero_slot len hb len) refl))

    abbrev absent : Loaded
    absent = record { ks = new_zero_key_state; seq = 0; missing = true; corrupted_slot = false }

    reads_absent : read_key_hwm_state gcm dek id tz4 no_faults none ≡ loaded absent
    unfolding read_key_hwm_state
    reads_absent = rw (hd, read_key_hwm_state) refl

    init_absent :
        init_key_hwm_file gcm dek id tz4 no_faults (some random) [] absent
        ≡ (zero_slot ++ zero_slot, opened fresh_file new_zero_key_state 0 false)
    unfolding init_key_hwm_file ensure_key_state new_zero_key_state
    init_absent =
        let e = mirrored blank_slot blank_slot refl refl in
        rw (e, init_key_hwm_file)
          (ap (λ w. (w.0, opened (new_key_hwm_file w.0 0) new_zero_key_state 0 false)) e)

    pub open_fresh :
        open_key_hwm_file gcm dek id tz4 no_faults (some random) none
        ≡ (some (zero_slot ++ zero_slot), opened fresh_file new_zero_key_state 0 false)
    unfolding open_key_hwm_file
    open_fresh = rw (reads_absent, open_key_hwm_file) (rw init_absent refl)

    reads_zero :
        decoded gcm dek id tz4 zero_slot
        ≡ ok (record { ks = new_zero_key_state; seq = 0; missing = false })
    reads_zero =
        decode_slot-sealed gcm dek id tz4 random (some new_zero_key_state) 0 hn aes zero-IsEncodable
        ∙ ap (λ k. ok (record { ks = k; seq = 0; missing = false })) zero-filled

    module _ (floor : KeyState) (cov : Covers floor new_zero_key_state) where
      zero_good : IsGood floor 0 (decoded gcm dek id tz4 zero_slot)
      zero_good = record {
        ks = new_zero_key_state;
        holds = reads_zero;
        covers = cov;
        room = zero-HasRoom;
      }

      pub fresh-IsGuarded : IsGuarded gcm dek id tz4 floor 0 fresh_file
      unfolding new_key_hwm_file
      fresh-IsGuarded = record {
        slot_a = zero_slot;
        slot_b = zero_slot;
        length_a = len;
        length_b = len;
        whole = refl;
        side = inl (refl, zero_good, rw reads_zero (inr (inr (cov, zero-HasRoom))));
      }
