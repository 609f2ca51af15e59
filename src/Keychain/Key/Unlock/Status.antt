-- ===== src/Keychain/Key/Unlock/Status.antt =====
-- `populateStatus` reads the marks of an unlocked key from its file again.
use tezsign.Prelude.{
  ℕ, ◌≡◌, ◌⊎◌, inl, inr, refl, ap, sym, ◌∙◌, arith, Bool, true, false, List, ◌++◌, some, length,
  if_rule,
}
use mathlib.Core.Path.{subst, subst₂}
use tezsign.Keychain.Crypto.{Gcm}
use tezsign.Keychain.KeyState.{KeyState}
use tezsign.Keychain.HwmFile.{
  HwmError, Result, ok, err, Decoded, LoadResult, loaded, load_failed, choose_state,
  decode_key_state_slot, read_double_buffer_key_state,
}
use tezsign.Keychain.HwmFile.Recovery.{Covers, LoadCovers, HasRoom, read_slots}
use tezsign.Keychain.HwmWorker.{load}
use tezsign.Keychain.HwmWorker.Durable.{IsCurrent-covers}
use tezsign.Keychain.Key.{GKey, key_state_snapshot, apply_key_state, reset_watermarks, is_unlocked}
use tezsign.Keychain.Key.Durable.{IsDurable}
use tezsign.Keychain.Key.Unlock.{
  KeyStatus, blank_status, refresh, report, populate_status_open, populate_status,
}
use tezsign.Keychain.Key.Unlock.Reopen.{applied-Covers}

-- A slot that cannot be read.
abbrev Fails : Result Decoded → Type 0
Fails r = (e : HwmError) × (r ≡ err e)

-- The file is two slots, and one of them cannot be read.
pub record IsDamaged (gcm : Gcm) (dek id tz4 file : List ℕ) : Type 0 where
  pub slot_a : List ℕ
  pub slot_b : List ℕ
  pub whole : file ≡ slot_a ++ slot_b
  pub length_a : length slot_a ≡ 100
  pub length_b : length slot_b ≡ 100
  pub unreadable :
      Fails (decode_key_state_slot gcm dek id tz4 slot_a)
      ⊎ Fails (decode_key_state_slot gcm dek id tz4 slot_b)

-- Either the file is damaged, which is what `Damage` says, and that is found and reported, or the key
-- has marks that cover `ks`, and these are reported.
pub record Reported (Damage : Type 0) (ks : KeyState) (r : GKey × KeyStatus) : Type 0 where
  pub outcome :
      (Damage × (r.0.hwm_corrupted ≡ true) × (r.1 ≡ record blank_status { state_corrupted = true }))
      ⊎ ((r.0.hwm_corrupted ≡ false)
          × Covers ks (key_state_snapshot r.0)
          × (r.1 ≡ record { state_corrupted = false; unlocked = true; marks = r.0.watermark }))

abbrev flagged : LoadResult → Bool
flagged (loaded l) = l.corrupted_slot
flagged (load_failed e m c) = c

-- A damage is found only where a slot cannot be read.
choose_state-flagged :
    (x y : Result Decoded) → flagged (choose_state x y) ≡ true → Fails x ⊎ Fails y
unfolding choose_state
choose_state-flagged (err e) y f = inl (e, refl)
choose_state-flagged (ok a) (err e) f = inr (e, refl)
choose_state-flagged (ok a) (ok b) f = absurd (ground (arith, f))

refresh-Reported :
    (Damage : Type 0) (ks : KeyState) (k : GKey) (r : LoadResult)
    → (flagged r ≡ true → Damage)
    → LoadCovers ks r
    → Reported Damage ks (refresh k r, report true (refresh k r))
unfolding refresh report reset_watermarks apply_key_state key_state_snapshot
refresh-Reported Damage ks k (load_failed e m c) damage lc = absurd lc.covered
refresh-Reported Damage ks k (loaded l) damage lc =
    if_rule (λ k'. Reported Damage ks (k', report true k')) l.corrupted_slot _ _
      (λ bad. record { outcome = inl (damage bad, refl, refl) })
      λ good.
        rw (lc.covered.1)
          (record { outcome = inr (refl, applied-Covers ks l.ks k lc.covered.0, refl) })

module _ (gcm : Gcm) (id : List ℕ) (k : GKey) where
  -- For an unlocked key whose file holds its marks and its number as it should between two requests,
  -- with a DEK of 32 bytes and no level that is the last uint64: a status either finds that a slot of
  -- the file cannot be read, reports that, and keeps the key from signing, which it does only where a
  -- slot cannot be read, or it reports the marks that it leaves in the key, and these are at least the
  -- marks before.
  pub populate_status_covers :
      (dek : List ℕ)
      → length dek ≡ 32
      → HasRoom (key_state_snapshot k)
      → (d : IsDurable gcm id dek k) → is_unlocked k ≡ true
      → Reported
          (IsDamaged gcm dek id k.tz4 d.h.file)
          (key_state_snapshot k)
          (populate_status gcm id k)
  unfolding populate_status
  populate_status_covers dek hd room d up =
      subst₂ (λ a f. Reported Damaged (key_state_snapshot k) (populate_status_open gcm id k a f))
        (sym d.has_dek) (sym d.is_open) opened
    where
      Damaged : Type 0
      Damaged = IsDamaged gcm dek id k.tz4 d.h.file

      file_state : LoadResult
      file_state = read_double_buffer_key_state gcm dek id k.tz4 d.h.file

      loads : load gcm dek id k.tz4 d.h ≡ file_state
      loads = unfold load in ground arith

      damage : flagged file_state ≡ true → Damaged
      damage f = record {
        slot_a = d.current.slot_a;
        slot_b = d.current.slot_b;
        whole = d.current.whole;
        length_a = d.current.length_a;
        length_b = d.current.length_b;
        unreadable = choose_state-flagged _ _ (sym (ap flagged chosen) ∙ f);
      }
        where
          chosen :
              file_state
              ≡ choose_state
                  (decode_key_state_slot gcm dek id k.tz4 d.current.slot_a)
                  (decode_key_state_slot gcm dek id k.tz4 d.current.slot_b)
          chosen =
              ap (read_double_buffer_key_state gcm dek id k.tz4) d.current.whole
              ∙ read_slots gcm dek id k.tz4 d.current.slot_a d.current.slot_b d.current.length_a
                  d.current.length_b

      opened :
          Reported Damaged
            (key_state_snapshot k)
            (populate_status_open gcm id k (some dek) (some d.h))
      opened =
          unfold populate_status_open in
          rw up (
            refresh-Reported Damaged (key_state_snapshot k) k _
              (subst (λ r. flagged r ≡ true → Damaged) (sym loads) damage)
              (subst (LoadCovers (key_state_snapshot k)) (sym loads)
                (IsCurrent-covers gcm dek id k.tz4 _ _ d.h room d.current)))
