-- ===== src/Keychain/Key/Life/Reopening.antt =====
-- The steps that read the file: an unlock, with or without a file, and a status.
use tezsign.Prelude.{
  ℕ, ◌≤◌, ◌≡◌, inl, inr, refl, sym, ap, ◌∙◌, arith, Bool, true, false, List, [], Option, none, some,
  length, if_rule,
}
use mathlib.Core.Path.{subst, subst₂}
use tezsign.Keychain.Crypto.{Gcm}
use tezsign.Keychain.KeyState.{KeyState, new_zero_key_state}
use tezsign.Keychain.HwmFile.{Loaded, loaded, choose_next_key_hwm_file_slot}
use tezsign.Keychain.HwmFile.Recovery.{Covers}
use tezsign.Keychain.HwmWorker.{HwmFile, opened, new_key_hwm_file, open_key_hwm_file, load}
use tezsign.Keychain.HwmWorker.Fresh.{no_faults, fresh_file, open_fresh, fresh-IsGuarded}
use tezsign.Keychain.HwmWorker.Guard.{IsGuarded, reopening, reading}
use tezsign.Keychain.Key.{
  GKey, ok, close_hwm_file, close_open_file, clear_sensitive_material, apply_key_state,
  reset_watermarks, key_state_snapshot, is_unlocked,
}
use tezsign.Keychain.Key.Unlock.{
  Secrets, KeyStatus, unlock, unlock_opened, install, refresh, populate_status_open,
  populate_status,
}
use tezsign.Keychain.Key.Unlock.Reopen.{applied-Covers, open_key_hwm_file_whole}
use tezsign.Keychain.Key.Life.{Life, settle, unlocked}
use tezsign.Keychain.Key.Life.Steps.{
  IsKeptDisk, IsOpen, IsHeld, held_open, IsSafe, flagged-IsSafe, ready-IsSafe, same-IsSafe,
  HasQuietFile, safe-HasQuietFile, safe-IsKeptDisk,
}

module _ (gcm : Gcm) (id : List ℕ) (s : Secrets) where
  -- What an unlock installs, whatever the key was before.
  abbrev installed : GKey → HwmFile → KeyState → ℕ → Bool → GKey
  installed k h ks seq c = apply_key_state (some ks) (record k {
    dek = some s.dek;
    enc_secret = some s.enc_secret;
    data_nonce = some s.data_nonce;
    bl_pubkey = s.bl_pubkey;
    tz4 = s.tz4;
    hwm_file = some h;
    hwm_seq = seq;
    hwm_corrupted = c;
  })

  installed-IsOpen :
      (floor ks : KeyState) (k : GKey) (h : HwmFile) (n seq : ℕ) (c : Bool)
      → h.responses ≡ []
      → Covers floor ks
      → n ≤ seq
      → IsGuarded gcm s.dek id s.tz4 floor n h
      → IsOpen gcm id s floor (record { key = installed k h ks seq c; disk = some h.file })
  unfolding apply_key_state key_state_snapshot
  installed-IsOpen floor ks k h n seq c quiet cov le g = record {
    ready = record {
      h = h;
      is_open = refl;
      has_dek = refl;
      answered = quiet;
      covers = applied-Covers floor ks k cov;
      seq = n;
      below = le;
      guarded = g;
    };
    same_tz4 = refl;
    on_disk = refl;
  }

  install_lem :
      (cf : Bool) (k : GKey) (f : Option HwmFile) (h : HwmFile) (ks : KeyState) (seq : ℕ) (c : Bool)
      → HasQuietFile gcm id s f
      → install s h ks seq c (close_open_file cf k f) ≡ (installed k h ks seq c, ok tt)
  unfolding install close_open_file clear_sensitive_material apply_key_state
  install_lem cf k none h ks seq c quiet = refl
  install_lem true k (some g) h ks seq c quiet = rw (quiet, close_open_file) refl
  install_lem false k (some g) h ks seq c quiet = rw (quiet, close_open_file) refl

  unlock_opens :
      (l : Life) (random : List ℕ) (cf : Bool) (left : Option (List ℕ)) (h : HwmFile)
      (ks : KeyState) (seq : ℕ) (c : Bool)
      → length s.dek ≡ 32
      → HasQuietFile gcm id s l.key.hwm_file
      → open_key_hwm_file gcm s.dek id s.tz4 no_faults (some random) l.disk
        ≡ (left, opened h ks seq c)
      → unlocked (unlock gcm id (some s) no_faults (some random) cf l.disk l.key)
        ≡ record { key = installed l.key h ks seq c; disk = left }
  unfolding unlock unlock_opened close_hwm_file
  unlock_opens l random cf left h ks seq c hd quiet e =
      rw (hd, unlock)
        (rw (e, unlock) (rw (install_lem cf l.key l.key.hwm_file h ks seq c quiet) refl))

  pub unlock-IsSafe :
      (floor : KeyState) (l : Life) (random : List ℕ) (cf : Bool)
      → length s.dek ≡ 32
      → length random ≡ 12
      → IsSafe gcm id s floor l
      → IsSafe gcm id s floor
          (unlocked (unlock gcm id (some s) no_faults (some random) cf l.disk l.key))
  unfolding new_key_hwm_file
  unlock-IsSafe floor l random cf hd hn safe =
      go l.disk refl (safe-IsKeptDisk gcm id s floor l safe)
    where
      quiet : HasQuietFile gcm id s l.key.hwm_file
      quiet = safe-HasQuietFile gcm id s floor l safe

      go :
          (disk : Option (List ℕ))
          → l.disk ≡ disk
          → IsKeptDisk gcm id s floor disk
          → IsSafe gcm id s floor
              (unlocked (unlock gcm id (some s) no_faults (some random) cf l.disk l.key))
      go none e cov =
          let file = fresh_file gcm s.dek id s.tz4 random in
          subst (IsSafe gcm id s floor)
            (sym (
              unlock_opens l random cf (some file.file) file new_zero_key_state 0 false hd quiet (
                ap (open_key_hwm_file gcm s.dek id s.tz4 no_faults (some random)) e
                ∙ open_fresh gcm s.dek id s.tz4 random hn hd)))
            (inl (
              installed-IsOpen floor new_zero_key_state l.key file 0 0 false refl cov (omega arith)
                (fresh-IsGuarded gcm s.dek id s.tz4 random hn hd floor cov)))
      go (some file) e kept =
          let r = reopening gcm s.dek id s.tz4 floor file kept in
          let h = new_key_hwm_file file (choose_next_key_hwm_file_slot gcm s.dek id s.tz4 file) in
          subst (IsSafe gcm id s floor)
            (sym (
              unlock_opens l random cf (some file) h r.l.ks r.l.seq r.l.corrupted_slot hd quiet (
                ap (open_key_hwm_file gcm s.dek id s.tz4 no_faults (some random)) e
                ∙ open_key_hwm_file_whole gcm s.dek id s.tz4 file (some random) r.l hd r.size
                    r.reads r.there)))
            (inl (
              installed-IsOpen floor r.l.ks l.key h r.seq r.l.seq r.l.corrupted_slot refl r.covers
                r.below r.guarded))

  refresh-IsSafe :
      (floor : KeyState) (l : Life) (o : IsHeld gcm id s floor l) (x : Loaded)
      → x.missing ≡ false
      → Covers floor x.ks
      → o.seq ≤ x.seq
      → IsSafe gcm id s floor (settle l (refresh l.key (loaded x)))
  unfolding refresh apply_key_state reset_watermarks key_state_snapshot
  refresh-IsSafe floor l o x there cov le =
      let base : GKey = record l.key { hwm_seq = x.seq; hwm_corrupted = false } in
      let k : GKey = apply_key_state (some x.ks) base in
      if_rule (λ k'. IsSafe gcm id s floor (settle l k')) x.corrupted_slot _ _
        (λ bad.
          flagged-IsSafe gcm id s floor l _
            (record {
              h = o.h;
              is_open = o.is_open;
              has_dek = o.has_dek;
              answered = o.answered;
              seq = o.seq;
              guarded = o.guarded;
              same_tz4 = o.same_tz4;
            })
            (record { flagged = refl; zero_marks = refl }))
        λ _. rw there (
          ready-IsSafe gcm id s floor l k
            (record {
              h = o.h;
              is_open = o.is_open;
              has_dek = o.has_dek;
              answered = o.answered;
              covers = applied-Covers floor x.ks base cov;
              seq = o.seq;
              below = le;
              guarded = o.guarded;
            })
            o.same_tz4)

  status_held :
      (floor : KeyState) (l : Life)
      → IsSafe gcm id s floor l
      → IsHeld gcm id s floor l
      → length s.dek ≡ 32
      → IsSafe gcm id s floor (settle l (populate_status gcm id l.key).0)
  unfolding populate_status
  status_held floor l safe o hd =
      subst₂ (λ a f. IsSafe gcm id s floor (settle l (populate_status_open gcm id l.key a f).0))
        (sym o.has_dek) (sym o.is_open) opened
    where
      opened :
          IsSafe gcm id s floor
            (settle l (populate_status_open gcm id l.key (some s.dek) (some o.h)).0)
      opened =
          let x = reading gcm s.dek id l.key.tz4 floor o.seq o.h o.guarded in
          unfold populate_status_open in
          if_rule (λ (r : GKey × KeyStatus). IsSafe gcm id s floor (settle l r.0))
            (is_unlocked l.key) _ _
            (λ _.
              unfold load in
              rw hd (rw (x.reads) (refresh-IsSafe floor l o x.l x.there x.covers x.below)))
            λ _. same-IsSafe gcm id s floor l safe

  status_shut :
      (floor : KeyState) (l : Life) (dek : Option (List ℕ))
      → IsSafe gcm id s floor l
      → IsSafe gcm id s floor (settle l (populate_status_open gcm id l.key dek none).0)
  unfolding populate_status_open
  status_shut floor l none safe = same-IsSafe gcm id s floor l safe
  status_shut floor l (some dek) safe = same-IsSafe gcm id s floor l safe

  pub status_IsSafe :
      (floor : KeyState) (l : Life)
      → length s.dek ≡ 32
      → IsSafe gcm id s floor l
      → IsSafe gcm id s floor (settle l (populate_status gcm id l.key).0)
  unfolding populate_status
  status_IsSafe floor l hd (inl o) = status_held floor l (inl o) (held_open gcm id s floor l o) hd
  status_IsSafe floor l hd (inr (inl f)) = status_held floor l (inr (inl f)) f.held hd
  status_IsSafe floor l hd (inr (inr c)) =
      subst
        (λ f. IsSafe gcm id s floor (settle l (populate_status_open gcm id l.key l.key.dek f).0))
        (sym c.closed) (status_shut floor l l.key.dek (inr (inr c)))
