-- ===== src/Keychain/Key/Unlock/Reopen.antt =====
-- The marks of a file that was left by a locked key, or at a power cut, are taken up again.
use tezsign.Prelude.{
  ℕ, ◌≡◌, refl, ap, sym, ◌∙◌, arith, Bool, true, false, List, Option, none, some, length,
  length-append,
}
use mathlib.Core.Path.{subst}
use tezsign.Keychain.Kinds.{AtLeast, KindState, to_key_state, block, preattestation, attestation}
use tezsign.Keychain.Crypto.{Gcm}
use tezsign.Keychain.KeyState.{KeyState}
use tezsign.Keychain.HwmFile.{
  Loaded, LoadResult, loaded, load_failed, read_double_buffer_key_state,
  choose_next_key_hwm_file_slot,
}
use tezsign.Keychain.KeyState.Marks.{mark_of, mark_at}
use tezsign.Keychain.HwmFile.Recovery.{Covers, LoadCovers, HasRoom}
use tezsign.Keychain.HwmWorker.{
  HwmFile, OpenResult, opened, new_key_hwm_file, read_key_hwm_state, open_key_hwm_file,
}
use tezsign.Keychain.HwmWorker.Fresh.{no_faults}
use tezsign.Keychain.HwmWorker.Durable.{IsCurrent, IsCurrent-covers}
use tezsign.Keychain.Key.{
  GKey, watermark_of, Reply, ok, key_state_snapshot, apply_key_state, is_unlocked, close_hwm_file,
  close_open_file,
}
use tezsign.Keychain.Key.Unlock.{Secrets, unlock, unlock_opened, install}

module _ (gcm : Gcm) (dek id tz4 : List ℕ) where
  length-current :
      (ks : KeyState) (seq : ℕ) (h : HwmFile)
      → IsCurrent gcm dek id tz4 ks seq h
      → length h.file ≡ 200
  length-current ks seq h c =
      ap length c.whole ∙ omega (arith, length-append c.slot_a c.slot_b, c.length_a, c.length_b)

  abbrev reopened : List ℕ → Loaded → OpenResult
  reopened file l =
      opened (new_key_hwm_file file (choose_next_key_hwm_file_slot gcm dek id tz4 file)) l.ks l.seq
        l.corrupted_slot

  read_key_hwm_state_lem :
      (file : List ℕ)
      → length dek ≡ 32
      → read_key_hwm_state gcm dek id tz4 no_faults (some file)
        ≡ read_double_buffer_key_state gcm dek id tz4 file
  unfolding read_key_hwm_state
  read_key_hwm_state_lem file hd = ground arith

  pub open_key_hwm_file_whole :
      (file : List ℕ) (random : Option (List ℕ)) (l : Loaded)
      → length dek ≡ 32
      → length file ≡ 200
      → read_double_buffer_key_state gcm dek id tz4 file ≡ loaded l
      → l.missing ≡ false
      → open_key_hwm_file gcm dek id tz4 no_faults random (some file) ≡ (some file, reopened file l)
  unfolding open_key_hwm_file
  open_key_hwm_file_whole file random l hd hf e there =
      rw (read_key_hwm_state_lem file hd ∙ e, open_key_hwm_file) (ground arith)

applied_mark :
    (st : Option KindState) → mark_of (some (to_key_state (watermark_of st))) ≡ mark_of st
unfolding to_key_state
applied_mark none = refl
applied_mark (some st) = refl

pub applied-Covers :
    (ks ks' : KeyState) (k : GKey)
    → Covers ks ks'
    → Covers ks (key_state_snapshot (apply_key_state (some ks') k))
unfolding key_state_snapshot apply_key_state
applied-Covers ks ks' k c block =
    subst (AtLeast (mark_at (some ks) block)) (sym (applied_mark ks'.for_block)) (c block)
applied-Covers ks ks' k c preattestation =
    subst (AtLeast (mark_at (some ks) preattestation)) (sym (applied_mark ks'.for_preattestation))
      (c preattestation)
applied-Covers ks ks' k c attestation =
    subst (AtLeast (mark_at (some ks) attestation)) (sym (applied_mark ks'.for_attestation))
      (c attestation)

-- What an unlock is to achieve on the file's content `file`.
pub record Reopened (ks : KeyState) (file : List ℕ)
    (r : Option (List ℕ) × (GKey × Reply (Unit {0}))) : Type 0 where
  pub unchanged : r.0 ≡ some file
  pub succeeds : r.1.1 ≡ ok tt
  pub ready : is_unlocked r.1.0 ≡ true
  pub covers : Covers ks (key_state_snapshot r.1.0)

module _ (gcm : Gcm) (id : List ℕ) (s : Secrets) (k : GKey) (close_fails : Bool) where
  unlock_lem :
      (file : List ℕ) (random : Option (List ℕ)) (r : OpenResult)
      → length s.dek ≡ 32
      → open_key_hwm_file gcm s.dek id s.tz4 no_faults random (some file) ≡ (some file, r)
      → unlock gcm id (some s) no_faults random close_fails (some file) k
        ≡ (some file, unlock_opened s close_fails k r)
  unfolding unlock
  unlock_lem file random r hd e = rw (hd, e) refl

  closed : k.hwm_file ≡ none → close_hwm_file close_fails k ≡ (k, ok tt)
  unfolding close_hwm_file close_open_file
  closed e = rw e refl

  install-Covers :
      (ks ks' : KeyState) (file : List ℕ) (h : HwmFile) (seq : ℕ) (c : Bool)
      → Covers ks ks'
      → k.hwm_file ≡ none
      → Reopened ks file (some file, unlock_opened s close_fails k (opened h ks' seq c))
  unfolding unlock_opened install key_state_snapshot apply_key_state is_unlocked
  install-Covers ks ks' file h seq c cov e = rw (closed e) (record {
    unchanged = refl;
    succeeds = refl;
    ready = refl;
    covers = applied-Covers ks ks' k cov;
  })

  -- Unlocking a key whose file is not open, with no fault of the file system, on a file whose slot
  -- not written next holds the marks `ks` beside a harmless one, with a DEK of 32 bytes and no level
  -- that is the last uint64: the call succeeds, leaves the file as it is, and leaves the key
  -- unlocked with marks that cover `ks`.
  pub unlock_covers :
      (ks : KeyState) (seq : ℕ) (h : HwmFile) (random : Option (List ℕ))
      → length s.dek ≡ 32
      → HasRoom ks
      → IsCurrent gcm s.dek id s.tz4 ks seq h
      → k.hwm_file ≡ none
      → Reopened ks h.file (unlock gcm id (some s) no_faults random close_fails (some h.file) k)
  unlock_covers ks seq h random hd room current e =
      go (read_double_buffer_key_state gcm s.dek id s.tz4 h.file) refl
        (IsCurrent-covers gcm s.dek id s.tz4 ks seq h room current)
    where
      go :
          (r : LoadResult)
          → read_double_buffer_key_state gcm s.dek id s.tz4 h.file ≡ r
          → LoadCovers ks r
          → Reopened ks h.file (unlock gcm id (some s) no_faults random close_fails (some h.file) k)
      go (load_failed x m c) is lc = absurd lc.covered
      go (loaded l) is lc =
          subst (Reopened ks h.file)
            (sym (
              unlock_lem h.file random _ hd (
                open_key_hwm_file_whole gcm s.dek id s.tz4 h.file random l hd
                  (length-current gcm s.dek id s.tz4 ks seq h current) is lc.covered.1)))
            (install-Covers ks l.ks h.file _ l.seq l.corrupted_slot lc.covered.0 e)
