-- ===== src/Keychain/HwmFile/Choice.antt =====
-- Which slot `readDoubleBufferKeyState` takes and which one `chooseNextKeyHWMFileSlot` gives up, when
-- one slot holds marks that cover a floor and the other cannot lead below it.
use tezsign.Prelude.{ℕ, ◌≤◌, ◌<◌, ◌≡◌, ◌⊎◌, Bool, some, inl, inr, refl, sym, arith, true, false}
use mathlib.Core.Path.{subst}
use tezsign.Keychain.KeyState.{KeyState, state_plus_one, merge_key_states}
use tezsign.Keychain.HwmFile.{
  Result, ok, err, HwmError, Decoded, Loaded, LoadResult, loaded, choose_state, choose_slot,
}
use tezsign.Keychain.HwmFile.Recovery.{Covers, HasRoom, plus_one-Covers, merge_left, merge_right}

pub Covers-trans : (a b c : KeyState) → Covers a b → Covers b c → Covers a c
Covers-trans a b c f g kind = ground (arith, f kind, g kind)

-- A readable slot with the number `seq`, whose marks cover the floor and leave room.
pub record IsGood (floor : KeyState) (seq : ℕ) (r : Result Decoded) : Type 0 where
  pub ks : KeyState
  pub holds : r ≡ ok (record { ks = ks; seq = seq; missing = false })
  pub covers : Covers floor ks
  pub room : HasRoom ks

-- A slot beside it: unreadable, never written, older, or with marks that cover the floor as well.
abbrev pub IsIdle : KeyState → ℕ → Result Decoded → Type 0
IsIdle floor seq (err e) = Unit {0}
IsIdle floor seq (ok d) = (d.missing ≡ true) ⊎ ((d.seq < seq) ⊎ (Covers floor d.ks × HasRoom d.ks))

-- What is read, and the slot that is to be written next: the other one is good again.
pub record Picked (floor : KeyState) (least : ℕ) (a b : Result Decoded) (r : LoadResult) (next : ℕ)
    : Type 0 where
  pub l : Loaded
  pub is_loaded : r ≡ loaded l
  pub there : l.missing ≡ false
  pub covers : Covers floor l.ks
  pub at_least : least ≤ l.seq
  pub seq : ℕ
  pub below : seq ≤ l.seq
  pub side :
      ((next ≡ 0) × IsGood floor seq b × IsIdle floor seq a)
      ⊎ ((next ≡ 1) × IsGood floor seq a × IsIdle floor seq b)

abbrev slot : KeyState → ℕ → Bool → Result Decoded
slot ks seq missing = ok (record { ks = ks; seq = seq; missing = missing })

-- What holds of the two slots, in the order in which they stand.
abbrev Picks : KeyState → ℕ → Result Decoded → Result Decoded → Type 0
Picks floor least a b = Picked floor least a b (choose_state a b) (choose_slot a b)

module _ (floor ks : KeyState) (seq : ℕ) (c : Covers floor ks) (room : HasRoom ks) where
  good : IsGood floor seq (slot ks seq false)
  good = record { ks = ks; holds = refl; covers = c; room = room }

  raised : Covers floor (state_plus_one (some ks))
  raised = Covers-trans floor ks _ c (plus_one-Covers ks room)

  beside_unreadable :
      (e : HwmError)
      → Picks floor seq (slot ks seq false) (err e) × Picks floor seq (err e) (slot ks seq false)
  unfolding choose_state choose_slot
  beside_unreadable e = (
    record {
      l = _;
      is_loaded = refl;
      there = refl;
      covers = raised;
      at_least = omega arith;
      seq = seq;
      below = omega arith;
      side = inr (refl, good, tt);
    },
    record {
      l = _;
      is_loaded = refl;
      there = refl;
      covers = raised;
      at_least = omega arith;
      seq = seq;
      below = omega arith;
      side = inl (refl, good, tt);
    },
  )

  beside_blank :
      (ks' : KeyState) (seq' : ℕ)
      → Picks floor seq (slot ks seq false) (slot ks' seq' true)
        × Picks floor seq (slot ks' seq' true) (slot ks seq false)
  unfolding choose_state choose_slot
  beside_blank ks' seq' = (
    record {
      l = _;
      is_loaded = refl;
      there = refl;
      covers = c;
      at_least = omega arith;
      seq = seq;
      below = omega arith;
      side = inr (refl, good, inl refl);
    },
    record {
      l = _;
      is_loaded = refl;
      there = refl;
      covers = c;
      at_least = omega arith;
      seq = seq;
      below = omega arith;
      side = inl (refl, good, inl refl);
    },
  )

  beside_older :
      (ks' : KeyState) (seq' : ℕ)
      → seq' < seq
      → Picks floor seq (slot ks seq false) (slot ks' seq' false)
        × Picks floor seq (slot ks' seq' false) (slot ks seq false)
  unfolding choose_state choose_slot
  beside_older ks' seq' lt = (
    record {
      l = record { ks = ks; seq = seq; missing = false; corrupted_slot = false };
      is_loaded = ground arith;
      there = refl;
      covers = c;
      at_least = omega arith;
      seq = seq;
      below = omega arith;
      side = inr (ground arith, good, inr (inl lt));
    },
    record {
      l = record { ks = ks; seq = seq; missing = false; corrupted_slot = false };
      is_loaded = ground arith;
      there = refl;
      covers = c;
      at_least = omega arith;
      seq = seq;
      below = omega arith;
      side = inl (ground arith, good, inr (inl lt));
    },
  )

  module _ (ks' : KeyState) (seq' : ℕ) (c' : Covers floor ks') (room' : HasRoom ks') where
    beside_newer :
        seq < seq'
        → Picks floor seq (slot ks seq false) (slot ks' seq' false)
          × Picks floor seq (slot ks' seq' false) (slot ks seq false)
    unfolding choose_state choose_slot
    beside_newer lt = (
      record {
        l = record { ks = ks'; seq = seq'; missing = false; corrupted_slot = false };
        is_loaded = ground arith;
        there = refl;
        covers = c';
        at_least = omega arith;
        seq = seq';
        below = omega arith;
        side = inl (
          ground arith,
          record { ks = ks'; holds = refl; covers = c'; room = room' },
          inr (inl lt),
        );
      },
      record {
        l = record { ks = ks'; seq = seq'; missing = false; corrupted_slot = false };
        is_loaded = ground arith;
        there = refl;
        covers = c';
        at_least = omega arith;
        seq = seq';
        below = omega arith;
        side = inr (
          ground arith,
          record { ks = ks'; holds = refl; covers = c'; room = room' },
          inr (inl lt),
        );
      },
    )

    beside_equal :
        seq ≡ seq'
        → Picks floor seq (slot ks seq false) (slot ks' seq' false)
          × Picks floor seq (slot ks' seq' false) (slot ks seq false)
    unfolding choose_state choose_slot
    beside_equal e = (
      record {
        l = record {
          ks = merge_key_states (some ks) (some ks');
          seq = seq;
          missing = false;
          corrupted_slot = false;
        };
        is_loaded = ground arith;
        there = refl;
        covers = Covers-trans floor ks _ c (merge_left ks ks');
        at_least = omega arith;
        seq = seq';
        below = omega arith;
        side = inl (
          ground arith,
          record { ks = ks'; holds = refl; covers = c'; room = room' },
          inr (inr (c, room)),
        );
      },
      record {
        l = record {
          ks = merge_key_states (some ks') (some ks);
          seq = seq';
          missing = false;
          corrupted_slot = false;
        };
        is_loaded = ground arith;
        there = refl;
        covers = Covers-trans floor ks _ c (merge_right ks' ks);
        at_least = omega arith;
        seq = seq;
        below = omega arith;
        side = inl (ground arith, good, inr (inr (c', room')));
      },
    )

    beside_covering :
        Picks floor seq (slot ks seq false) (slot ks' seq' false)
        × Picks floor seq (slot ks' seq' false) (slot ks seq false)
    beside_covering = elim (order seq seq') [
      | inl lt ↦ beside_newer lt
      | inr (inl e) ↦ beside_equal e
      | inr (inr gt) ↦ beside_older ks' seq' gt
    ]
      where
        order : (m n : ℕ) → (m < n) ⊎ ((m ≡ n) ⊎ (n < m))
        order m n = ground arith

  beside :
      (other : Result Decoded)
      → IsIdle floor seq other
      → Picks floor seq (slot ks seq false) other × Picks floor seq other (slot ks seq false)
  beside (err e) _ = beside_unreadable e
  beside (ok d) (inl m) =
      subst
        (λ b.
          let d' = ok (record { ks = d.ks; seq = d.seq; missing = b }) in
          Picks floor seq (slot ks seq false) d' × Picks floor seq d' (slot ks seq false))
        (sym m) (beside_blank d.ks d.seq)
  beside (ok d) (inr h) = go d.missing h
    where
      go :
          (missing : Bool)
          → (d.seq < seq) ⊎ (Covers floor d.ks × HasRoom d.ks)
          → Picks floor seq (slot ks seq false) (slot d.ks d.seq missing)
            × Picks floor seq (slot d.ks d.seq missing) (slot ks seq false)
      go true h = beside_blank d.ks d.seq
      go false (inl lt) = beside_older d.ks d.seq lt
      go false (inr (c', room')) = beside_covering d.ks d.seq c' room'

-- When one slot can be read and holds marks that cover the floor, with no level that is the last
-- uint64, and the other cannot be read, was never written, is older or holds such marks too, then,
-- whichever comes first, marks that cover the floor are read, and the slot to be written next is
-- one beside which the other is again such a slot, with a number not above the one that is read,
-- which is not below that of the slot that could be read.
pub choose_slot_keeps_good :
    (floor : KeyState) (seq : ℕ) (good other : Result Decoded)
    → IsGood floor seq good
    → IsIdle floor seq other
    → Picked floor seq good other (choose_state good other) (choose_slot good other)
      × Picked floor seq other good (choose_state other good) (choose_slot other good)
choose_slot_keeps_good floor seq r other g idle =
    subst (λ x. Picks floor seq x other × Picks floor seq other x) (sym g.holds)
      (beside floor g.ks seq g.covers g.room other idle)
