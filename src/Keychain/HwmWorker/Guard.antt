-- ===== src/Keychain/HwmWorker/Guard.antt =====
-- A file of two slots that cannot lead below a floor of marks: while it is open, written, torn by a
-- power cut, and opened again.
use tezsign.Prelude.{
  ℕ, ◌*◌, ◌%◌, ◌≤◌, ◌<◌, ◌≡◌, ◌⊎◌, inl, inr, refl, ap, sym, ◌∙◌, arith, true, false, List, ◌++◌,
  none, some, length, length-append, bit_xor,
}
use mathlib.Core.Path.{subst}
use tezsign.Keychain.Crypto.{Gcm, is_aes_key}
use tezsign.Keychain.KeyState.{KeyState}
use tezsign.Keychain.KeyState.RoundTrip.{IsEncodable, filled}
use tezsign.Keychain.HwmFile.{
  HwmError, Result, ok, err, Decoded, Loaded, loaded, read_double_buffer_key_state,
  choose_next_key_hwm_file_slot, choose_slot, choose_state, write_at,
}
use tezsign.Keychain.HwmFile.Slots.{sealed_slot, length-sealed_slot, decode_slot-sealed}
use tezsign.Keychain.HwmFile.Recovery.{
  Covers, HasRoom, Covers-refl, read_slots, read_first, read_second,
}
use tezsign.Keychain.HwmFile.Choice.{IsGood, IsIdle, Picked, choose_slot_keeps_good}
use tezsign.Keychain.HwmWorker.{HwmFile, worker_round, new_key_hwm_file}
use tezsign.Keychain.HwmWorker.Durable.{decoded, written_a, written_b, worker_round_lem}

module _ (gcm : Gcm) (dek id tz4 : List ℕ) where
  abbrev sees : List ℕ → Result Decoded
  sees slot = decoded gcm dek id tz4 slot

  -- The open file: the slot not written next is good, and the other is idle.
  pub record IsGuarded (floor : KeyState) (seq : ℕ) (h : HwmFile) : Type 0 where
    pub slot_a : List ℕ
    pub slot_b : List ℕ
    pub length_a : length slot_a ≡ 100
    pub length_b : length slot_b ≡ 100
    pub whole : h.file ≡ slot_a ++ slot_b
    pub side :
        ((h.next_slot ≡ 0) × IsGood floor seq (sees slot_b) × IsIdle floor seq (sees slot_a))
        ⊎ ((h.next_slot ≡ 1) × IsGood floor seq (sees slot_a) × IsIdle floor seq (sees slot_b))

  -- The file that nobody has open: one of its slots is good, and the other is idle.
  pub record IsKept (floor : KeyState) (file : List ℕ) : Type 0 where
    pub slot_a : List ℕ
    pub slot_b : List ℕ
    pub length_a : length slot_a ≡ 100
    pub length_b : length slot_b ≡ 100
    pub whole : file ≡ slot_a ++ slot_b
    pub seq : ℕ
    pub side :
        (IsGood floor seq (sees slot_b) × IsIdle floor seq (sees slot_a))
        ⊎ (IsGood floor seq (sees slot_a) × IsIdle floor seq (sees slot_b))

  pub closing :
      (floor : KeyState) (seq : ℕ) (h : HwmFile) → IsGuarded floor seq h → IsKept floor h.file
  closing floor seq h g = record {
    slot_a = g.slot_a;
    slot_b = g.slot_b;
    length_a = g.length_a;
    length_b = g.length_b;
    whole = g.whole;
    seq = seq;
    side = elim (g.side) [ inl (n, x, y) ↦ inl (x, y) | inr (n, x, y) ↦ inr (x, y) ];
  }

  -- A write of the slot that is next, in its two places.
  record IsWritten (floor : KeyState) (seq : ℕ) (h : HwmFile) (t file : List ℕ) : Type 0 where
    slot_a : List ℕ
    slot_b : List ℕ
    length_a : length slot_a ≡ 100
    length_b : length slot_b ≡ 100
    whole : file ≡ slot_a ++ slot_b
    side :
        ((h.next_slot ≡ 0) × (slot_a ≡ t) × IsGood floor seq (sees slot_b))
        ⊎ ((h.next_slot ≡ 1) × (slot_b ≡ t) × IsGood floor seq (sees slot_a))

  writing :
      (floor : KeyState) (seq : ℕ) (h : HwmFile) (t : List ℕ)
      → IsGuarded floor seq h
      → length t ≡ 100
      → IsWritten floor seq h t (write_at h.file t (h.next_slot * 100))
  writing floor seq h t g lt = elim (g.side) [
    | inl (n, x, _) ↦ record {
      slot_a = t;
      slot_b = g.slot_b;
      length_a = lt;
      length_b = g.length_b;
      whole = written_a gcm dek id tz4 h g.slot_a g.slot_b t g.whole n g.length_a lt;
      side = inl (n, refl, x);
    }
    | inr (n, x, _) ↦ record {
      slot_a = g.slot_a;
      slot_b = t;
      length_a = g.length_a;
      length_b = lt;
      whole = written_b gcm dek id tz4 h g.slot_a g.slot_b t g.whole n g.length_a g.length_b lt;
      side = inr (n, refl, x);
    }
  ]

  -- A power cut in the middle of a write leaves a slot that cannot be read.
  pub tearing :
      (floor : KeyState) (seq : ℕ) (h : HwmFile) (torn : List ℕ) (e : HwmError)
      → IsGuarded floor seq h
      → length torn ≡ 100
      → sees torn ≡ err e
      → IsKept floor (write_at h.file torn (h.next_slot * 100))
  tearing floor seq h torn e g len bad =
      let w = writing floor seq h torn g len in
      record {
        slot_a = w.slot_a;
        slot_b = w.slot_b;
        length_a = w.length_a;
        length_b = w.length_b;
        whole = w.whole;
        seq = seq;
        side = elim (w.side) [
          | inl (n, t, x) ↦ inl (x, unreadable w.slot_a t)
          | inr (n, t, x) ↦ inr (x, unreadable w.slot_b t)
        ];
      }
    where
      unreadable : (s : List ℕ) → s ≡ torn → IsIdle floor seq (sees s)
      unreadable s t = subst (IsIdle floor seq) (sym (ap sees t ∙ bad)) tt

  -- A request that is served: the marks that were written are the new floor.
  pub serving :
      (floor ks' : KeyState) (seq seq' : ℕ) (h : HwmFile) (nonce : List ℕ)
      → length nonce ≡ 12
      → is_aes_key dek ≡ true
      → IsEncodable (some ks') seq'
      → filled (some ks') ≡ ks'
      → HasRoom ks'
      → seq < seq'
      → IsGuarded floor seq h
      → IsGuarded ks' seq' (worker_round gcm dek id tz4 (some nonce) none ks' seq' h)
  serving floor ks' seq seq' h nonce hn key fits full room lt g =
      subst (IsGuarded ks' seq') (sym (worker_round_lem gcm dek id tz4 ks' seq' h nonce hn key))
        (record {
          slot_a = w.slot_a;
          slot_b = w.slot_b;
          length_a = w.length_a;
          length_b = w.length_b;
          whole = w.whole;
          side = elim (w.side) [
            | inl (n, t, x) ↦ inr (ap (λ k. bit_xor k 1) n, newest w.slot_a t, older w.slot_b x)
            | inr (n, t, x) ↦ inl (ap (λ k. bit_xor k 1) n, newest w.slot_b t, older w.slot_a x)
          ];
        })
    where
      slot : List ℕ
      slot = sealed_slot gcm dek id tz4 nonce (some ks') seq'

      w : IsWritten floor seq h slot (write_at h.file slot (h.next_slot * 100))
      w = writing floor seq h slot g (length-sealed_slot gcm dek id tz4 nonce (some ks') seq' hn)

      newest : (s : List ℕ) → s ≡ slot → IsGood ks' seq' (sees s)
      newest s t = record {
        ks = ks';
        holds =
            ap sees t
            ∙ decode_slot-sealed gcm dek id tz4 nonce (some ks') seq' hn key fits
            ∙ ap (λ k. ok (record { ks = k; seq = seq'; missing = false })) full;
        covers = Covers-refl ks';
        room = room;
      }

      older : (s : List ℕ) → IsGood floor seq (sees s) → IsIdle ks' seq' (sees s)
      older s x = subst (IsIdle ks' seq') (sym x.holds) (inr (inl lt))

  -- What opening a kept file finds.
  pub record IsReopened (floor : KeyState) (file : List ℕ) : Type 0 where
    pub l : Loaded
    pub reads : read_double_buffer_key_state gcm dek id tz4 file ≡ loaded l
    pub there : l.missing ≡ false
    pub covers : Covers floor l.ks
    pub seq : ℕ
    pub below : seq ≤ l.seq
    pub guarded :
        IsGuarded floor seq
          (new_key_hwm_file file (choose_next_key_hwm_file_slot gcm dek id tz4 file))
    pub size : length file ≡ 200

  choose_next-append :
      (a b : List ℕ)
      → length a ≡ 100
      → length b ≡ 100
      → choose_next_key_hwm_file_slot gcm dek id tz4 (a ++ b) ≡ choose_slot (sees a) (sees b)
  unfolding choose_next_key_hwm_file_slot
  choose_next-append a b ha hb =
      rw (read_first a b ha hb, choose_next_key_hwm_file_slot) (rw (read_second a b ha hb) refl)

  pub reopening : (floor : KeyState) (file : List ℕ) → IsKept floor file → IsReopened floor file
  unfolding new_key_hwm_file
  reopening floor file k = record {
    l = p.l;
    reads =
        ap (read_double_buffer_key_state gcm dek id tz4) k.whole
        ∙ read_slots gcm dek id tz4 k.slot_a k.slot_b k.length_a k.length_b
        ∙ p.is_loaded;
    there = p.there;
    covers = p.covers;
    seq = p.seq;
    below = p.below;
    guarded = record {
      slot_a = k.slot_a;
      slot_b = k.slot_b;
      length_a = k.length_a;
      length_b = k.length_b;
      whole = k.whole;
      side = elim (p.side) [
        | inl (n, x, y) ↦ inl (ap (λ m. m % 2) (next ∙ n), x, y)
        | inr (n, x, y) ↦ inr (ap (λ m. m % 2) (next ∙ n), x, y)
      ];
    };
    size =
        ap length k.whole ∙ omega (arith, length-append k.slot_a k.slot_b, k.length_a, k.length_b);
  }
    where
      next :
          choose_next_key_hwm_file_slot gcm dek id tz4 file
          ≡ choose_slot (sees k.slot_a) (sees k.slot_b)
      next =
          ap (choose_next_key_hwm_file_slot gcm dek id tz4) k.whole
          ∙ choose_next-append k.slot_a k.slot_b k.length_a k.length_b

      p :
          Picked floor k.seq
            (sees k.slot_a)
            (sees k.slot_b)
            (choose_state (sees k.slot_a) (sees k.slot_b))
            (choose_slot (sees k.slot_a) (sees k.slot_b))
      p = elim (k.side) [
        | inl (x, y) ↦ (choose_slot_keeps_good floor k.seq _ _ x y).1
        | inr (x, y) ↦ (choose_slot_keeps_good floor k.seq _ _ x y).0
      ]

  -- What a status finds in an open file.
  pub record IsRead (floor : KeyState) (seq : ℕ) (h : HwmFile) : Type 0 where
    pub l : Loaded
    pub reads : read_double_buffer_key_state gcm dek id tz4 h.file ≡ loaded l
    pub there : l.missing ≡ false
    pub covers : Covers floor l.ks
    pub below : seq ≤ l.seq

  pub reading :
      (floor : KeyState) (seq : ℕ) (h : HwmFile) → IsGuarded floor seq h → IsRead floor seq h
  reading floor seq h g = record {
    l = p.l;
    reads =
        ap (read_double_buffer_key_state gcm dek id tz4) g.whole
        ∙ read_slots gcm dek id tz4 g.slot_a g.slot_b g.length_a g.length_b
        ∙ p.is_loaded;
    there = p.there;
    covers = p.covers;
    below = p.at_least;
  }
    where
      p :
          Picked floor seq
            (sees g.slot_a)
            (sees g.slot_b)
            (choose_state (sees g.slot_a) (sees g.slot_b))
            (choose_slot (sees g.slot_a) (sees g.slot_b))
      p = elim (g.side) [
        | inl (n, x, y) ↦ (choose_slot_keeps_good floor seq _ _ x y).1
        | inr (n, x, y) ↦ (choose_slot_keeps_good floor seq _ _ x y).0
      ]
