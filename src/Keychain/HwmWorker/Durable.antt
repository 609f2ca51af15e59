-- ===== src/Keychain/HwmWorker/Durable.antt =====
-- The file between two requests, a request that is served, and a power cut in the middle of one.
use tezsign.Prelude.{
  ℕ, ◌*◌, ◌≤◌, ◌≡◌, ◌⊎◌, inl, inr, refl, ap, sym, ◌∙◌, true, false, List, [], ◌∷◌, ◌++◌, none, some,
  length, bit_xor,
}
use mathlib.Core.Path.{ap₂, subst}
use tezsign.Keychain.Crypto.{Gcm, is_aes_key}
use tezsign.Keychain.KeyState.{KeyState}
use tezsign.Keychain.KeyState.RoundTrip.{IsEncodable, filled}
use tezsign.Keychain.HwmFile.{
  Result, ok, Decoded, decode_key_state_slot, read_double_buffer_key_state, choose_state, write_at,
}
use tezsign.Keychain.HwmFile.Slots.{
  sealed_slot, length-sealed_slot, encode_key_state_slot-sealed, decode_slot-sealed,
}
use tezsign.Keychain.HwmFile.Recovery.{
  IsHarmless, LoadCovers, HasRoom, choose_state_covers, read_slots, write_first, write_second,
}
use tezsign.Keychain.HwmWorker.{HwmFile, blank_slot, worker_round}

module _ (gcm : Gcm) (dek id tz4 : List ℕ) where
  abbrev pub decoded : List ℕ → Result Decoded
  decoded slot = decode_key_state_slot gcm dek id tz4 slot

  abbrev pub Holds : KeyState → ℕ → List ℕ → Type 0
  Holds ks seq slot = decoded slot ≡ ok (record { ks = ks; seq = seq; missing = false })

  -- The slot that is not written next holds the marks `ks` under the number `seq`, and the slot that
  -- is written next is harmless beside it.
  pub record IsCurrent (ks : KeyState) (seq : ℕ) (h : HwmFile) : Type 0 where
    pub slot_a : List ℕ
    pub slot_b : List ℕ
    pub length_a : length slot_a ≡ 100
    pub length_b : length slot_b ≡ 100
    pub whole : h.file ≡ slot_a ++ slot_b
    pub side :
        ((h.next_slot ≡ 0) × Holds ks seq slot_b × IsHarmless ks seq (decoded slot_a))
        ⊎ ((h.next_slot ≡ 1) × Holds ks seq slot_a × IsHarmless ks seq (decoded slot_b))

  -- The write of a whole slot, to either side.
  pub written_a :
      (h : HwmFile) (a b t : List ℕ)
      → h.file ≡ a ++ b
      → h.next_slot ≡ 0
      → length a ≡ 100
      → length t ≡ 100
      → write_at h.file t (h.next_slot * 100) ≡ t ++ b
  written_a h a b t whole n la lt =
      ap₂ (λ f k. write_at f t (k * 100)) whole n ∙ write_first a b t la lt

  pub written_b :
      (h : HwmFile) (a b t : List ℕ)
      → h.file ≡ a ++ b
      → h.next_slot ≡ 1
      → length a ≡ 100
      → length b ≡ 100
      → length t ≡ 100
      → write_at h.file t (h.next_slot * 100) ≡ a ++ t
  written_b h a b t whole n la lb lt =
      ap₂ (λ f k. write_at f t (k * 100)) whole n ∙ write_second a b t la lb lt

  covers_either :
      (ks : KeyState) (seq : ℕ) (good other : List ℕ)
      → HasRoom ks
      → Holds ks seq good
      → IsHarmless ks seq (decoded other)
      → LoadCovers ks (choose_state (decoded good) (decoded other))
        × LoadCovers ks (choose_state (decoded other) (decoded good))
  covers_either ks seq good other room g h =
      rw g (choose_state_covers ks seq (decoded other) room h)

  -- Loading a file whose slot not written next holds `ks` succeeds, with marks that cover `ks`,
  -- when no level is the last uint64.
  pub IsCurrent-covers :
      (ks : KeyState) (seq : ℕ) (h : HwmFile)
      → HasRoom ks
      → IsCurrent ks seq h
      → LoadCovers ks (read_double_buffer_key_state gcm dek id tz4 h.file)
  IsCurrent-covers ks seq h room c =
      rw (c.whole)
        (rw (read_slots gcm dek id tz4 c.slot_a c.slot_b c.length_a c.length_b) (go c.side))
    where
      go :
          ((h.next_slot ≡ 0) × Holds ks seq c.slot_b × IsHarmless ks seq (decoded c.slot_a))
            ⊎ ((h.next_slot ≡ 1) × Holds ks seq c.slot_a × IsHarmless ks seq (decoded c.slot_b))
          → LoadCovers ks (choose_state (decoded c.slot_a) (decoded c.slot_b))
      go (inl (n, g, x)) = (covers_either ks seq c.slot_b c.slot_a room g x).1
      go (inr (n, g, x)) = (covers_either ks seq c.slot_a c.slot_b room g x).0

  -- When a slot holds the marks `ks`, with no level that is the last uint64, and a write of the
  -- other slot leaves 100 bytes that cannot be read, or that are all zero, or that hold a number
  -- not above the kept one, or marks that cover `ks`, then loading the file succeeds with marks
  -- that cover `ks`.
  pub torn_write_covers :
      (ks : KeyState) (seq : ℕ) (h : HwmFile) (torn : List ℕ)
      → HasRoom ks
      → IsCurrent ks seq h
      → length torn ≡ 100
      → IsHarmless ks seq (decoded torn)
      → LoadCovers ks
          (read_double_buffer_key_state gcm dek id tz4 (write_at h.file torn (h.next_slot * 100)))
  torn_write_covers ks seq h torn room c len x = go c.side
    where
      go :
          ((h.next_slot ≡ 0) × Holds ks seq c.slot_b × IsHarmless ks seq (decoded c.slot_a))
            ⊎ ((h.next_slot ≡ 1) × Holds ks seq c.slot_a × IsHarmless ks seq (decoded c.slot_b))
          → LoadCovers ks (
              read_double_buffer_key_state gcm dek id tz4
                (write_at h.file torn (h.next_slot * 100)))
      go (inl (n, g, _)) = rw (written_a h c.slot_a c.slot_b torn c.whole n c.length_a len) (
          rw (read_slots gcm dek id tz4 torn c.slot_b len c.length_b)
            (covers_either ks seq c.slot_b torn room g x).1)
      go (inr (n, g, _)) =
          rw (written_b h c.slot_a c.slot_b torn c.whole n c.length_a c.length_b len) (
            rw (read_slots gcm dek id tz4 c.slot_a torn c.length_a len)
              (covers_either ks seq c.slot_a torn room g x).0)

  pub worker_round_lem :
      (ks' : KeyState) (seq' : ℕ) (h : HwmFile) (nonce : List ℕ)
      → length nonce ≡ 12
      → is_aes_key dek ≡ true
      → worker_round gcm dek id tz4 (some nonce) none ks' seq' h ≡ record {
        file =
            write_at h.file (sealed_slot gcm dek id tz4 nonce (some ks') seq') (h.next_slot * 100);
        next_slot = bit_xor h.next_slot 1;
        responses = h.responses ++ (none ∷ []);
      }
  unfolding worker_round
  worker_round_lem ks' seq' h nonce hn key = rw (
    encode_key_state_slot-sealed gcm dek id tz4 blank_slot nonce (some ks') seq' refl hn key,
    worker_round,
  )

  -- The new marks are current, and the slot that is written next still holds the old ones.
  pub record Replaced (ks : KeyState) (seq : ℕ) (ks' : KeyState) (seq' : ℕ) (h : HwmFile)
      : Type 0 where
    pub current : IsCurrent ks' seq' h
    pub old_kept :
        ((h.next_slot ≡ 0) × Holds ks seq current.slot_a)
        ⊎ ((h.next_slot ≡ 1) × Holds ks seq current.slot_b)

  -- When the slot not written next holds the marks `ks` under the number `seq`, and the worker serves a
  -- request for complete marks that fit their words and for a number not below, with a 12-byte nonce, a
  -- DEK of an AES size and a write that does not fail, then one slot holds the new marks under the new
  -- number, and the other slot, which is the next one to be written, still holds `ks` under `seq`.
  pub worker_round-Replaced :
      (ks ks' : KeyState) (seq seq' : ℕ) (h : HwmFile) (nonce : List ℕ)
      → length nonce ≡ 12
      → is_aes_key dek ≡ true
      → IsEncodable (some ks') seq'
      → filled (some ks') ≡ ks'
      → seq ≤ seq'
      → IsCurrent ks seq h
      → Replaced ks seq ks' seq' (worker_round gcm dek id tz4 (some nonce) none ks' seq' h)
  worker_round-Replaced ks ks' seq seq' h nonce hn key fits full le c =
      subst (Replaced ks seq ks' seq') (sym (worker_round_lem ks' seq' h nonce hn key)) (go c.side)
    where
      slot : List ℕ
      slot = sealed_slot gcm dek id tz4 nonce (some ks') seq'

      len : length slot ≡ 100
      len = length-sealed_slot gcm dek id tz4 nonce (some ks') seq' hn

      good : Holds ks' seq' slot
      good =
          decode_slot-sealed gcm dek id tz4 nonce (some ks') seq' hn key fits
          ∙ ap (λ k. ok (record { ks = k; seq = seq'; missing = false })) full

      older : (s : List ℕ) → Holds ks seq s → IsHarmless ks' seq' (decoded s)
      older s g = rw g (inr (inl le))

      go :
          ((h.next_slot ≡ 0) × Holds ks seq c.slot_b × IsHarmless ks seq (decoded c.slot_a))
            ⊎ ((h.next_slot ≡ 1) × Holds ks seq c.slot_a × IsHarmless ks seq (decoded c.slot_b))
          → Replaced ks seq ks' seq' (record {
            file = write_at h.file slot (h.next_slot * 100);
            next_slot = bit_xor h.next_slot 1;
            responses = h.responses ++ (none ∷ []);
          })
      go (inl (n, g, _)) = record {
        current = record {
          slot_a = slot;
          slot_b = c.slot_b;
          length_a = len;
          length_b = c.length_b;
          whole = written_a h c.slot_a c.slot_b slot c.whole n c.length_a len;
          side = inr (ap (λ k. bit_xor k 1) n, good, older c.slot_b g);
        };
        old_kept = inr (ap (λ k. bit_xor k 1) n, g);
      }
      go (inr (n, g, _)) = record {
        current = record {
          slot_a = c.slot_a;
          slot_b = slot;
          length_a = c.length_a;
          length_b = len;
          whole = written_b h c.slot_a c.slot_b slot c.whole n c.length_a c.length_b len;
          side = inl (ap (λ k. bit_xor k 1) n, good, older c.slot_a g);
        };
        old_kept = inl (ap (λ k. bit_xor k 1) n, g);
      }
