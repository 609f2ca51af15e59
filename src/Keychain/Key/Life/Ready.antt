-- ===== src/Keychain/Key/Life/Ready.antt =====
-- An unlocked key between two requests, with a file that cannot lead below a floor of marks.
use tezsign.Prelude.{
  ℕ, ◌+◌, ◌≤◌, ◌<◌, ◌≡◌, ◌⊎◌, refl, sym, ◌∙◌, arith, true, List, [], none, some, length,
}
use mathlib.Core.Path.{subst₂}
use tezsign.Keychain.Crypto.{Gcm, is_aes_key}
use tezsign.Keychain.KeyState.{KeyState}
use tezsign.Keychain.KeyState.RoundTrip.{IsEncodable, filled}
use tezsign.Keychain.HwmFile.Recovery.{Covers, HasRoom, Covers-refl}
use tezsign.Keychain.HwmWorker.{HwmFile, worker_round}
use tezsign.Keychain.HwmWorker.Guard.{IsGuarded, serving}
use tezsign.Keychain.Key.{GKey, Reply, ok, key_state_snapshot}

module _ (gcm : Gcm) (id dek : List ℕ) where
  -- An unlocked key between two requests: its file and its marks are not below the floor, and its
  -- number is not below that of the file.
  pub record IsReady (floor : KeyState) (k : GKey) : Type 0 where
    pub h : HwmFile
    pub is_open : k.hwm_file ≡ some h
    pub has_dek : k.dek ≡ some dek
    pub answered : h.responses ≡ []
    pub covers : Covers floor (key_state_snapshot k)
    pub seq : ℕ
    pub below : seq ≤ k.hwm_seq
    pub guarded : IsGuarded gcm dek id k.tz4 floor seq h

  -- Receiving an answer changes neither the slots nor which one is next.
  reguarded :
      (tz4 : List ℕ) (floor : KeyState) (seq : ℕ) (w g : HwmFile)
      → g.file ≡ w.file
      → g.next_slot ≡ w.next_slot
      → IsGuarded gcm dek id tz4 floor seq w
      → IsGuarded gcm dek id tz4 floor seq g
  reguarded tz4 floor seq w g f n x = record {
    slot_a = x.slot_a;
    slot_b = x.slot_b;
    length_a = x.length_a;
    length_b = x.length_b;
    whole = f ∙ x.whole;
    side = rw (sym n) at x.side;
  }

  -- A request that is served, and its answer received, makes the key ready for the marks written.
  pub served-IsReady :
      (floor ks : KeyState) (k k' : GKey) (r : IsReady floor k) (random : List ℕ)
      → let w = worker_round gcm dek id k.tz4 (some random) none ks (k.hwm_seq + 1) r.h in
        length random ≡ 12
        → is_aes_key dek ≡ true
        → IsEncodable (some ks) (k.hwm_seq + 1)
        → filled (some ks) ≡ ks
        → HasRoom ks
        → k'.hwm_file ≡ some (record { file = w.file; next_slot = w.next_slot; responses = [] })
        → k'.dek ≡ k.dek
        → k'.tz4 ≡ k.tz4
        → k'.hwm_seq ≡ k.hwm_seq + 1
        → key_state_snapshot k' ≡ ks
        → IsReady (key_state_snapshot k') k'
  served-IsReady floor ks k k' r random hn key fits full room file dek' tz4' seq' marks =
      let w = worker_round gcm dek id k.tz4 (some random) none ks (k.hwm_seq + 1) r.h in
      let g : HwmFile = record { file = w.file; next_slot = w.next_slot; responses = [] } in
      record {
        h = g;
        is_open = file;
        has_dek = dek' ∙ r.has_dek;
        answered = refl;
        covers = Covers-refl (key_state_snapshot k');
        seq = k.hwm_seq + 1;
        below = same seq';
        guarded =
            subst₂ (λ t m. IsGuarded gcm dek id t m (k.hwm_seq + 1) g) (sym tz4') (sym marks)
              (reguarded k.tz4 ks (k.hwm_seq + 1) w g refl refl (
                serving gcm dek id k.tz4 floor ks r.seq (k.hwm_seq + 1) r.h random hn key fits full
                  room (rises r.below) r.guarded));
      }
    where
      rises : {m n : ℕ} → m ≤ n → m < n + 1
      rises h = omega arith

      same : {m n : ℕ} → m ≡ n → n ≤ m
      same e = omega arith

-- What is known of a call: its reply is bad, or it leaves the key alone and does not succeed, or it
-- leaves the key ready for its new marks.
pub record Lasting {ℓ} {A : Type ℓ} (gcm : Gcm) (id dek : List ℕ) (k : GKey)
    (bad : Reply A → Type 0) (r : GKey × Reply A) : Type ℓ where
  pub outcome :
      bad r.1
      ⊎ (((r.0 ≡ k) × ((a : A) → r.1 ≡ ok a → ⊥))
          ⊎ ((r.0.tz4 ≡ k.tz4)
              × (HasRoom (key_state_snapshot r.0)
                  → IsReady gcm id dek (key_state_snapshot r.0) r.0)))
