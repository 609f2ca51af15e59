-- ===== src/Keychain/Key/Life/Steps.antt =====
-- A life that cannot lead below a floor of marks, and the steps that sign nothing: unlocking,
-- locking, reporting a status, and a power cut.
use tezsign.Prelude.{
  ℕ, ◌*◌, ◌≡◌, ◌⊎◌, inl, inr, refl, ap, sym, ◌∙◌, Bool, List, [], Option, none, some, length,
}
use mathlib.Core.Path.{subst, subst₂}
use tezsign.Keychain.Crypto.{Gcm}
use tezsign.Keychain.KeyState.{KeyState, new_zero_key_state}
use tezsign.Keychain.HwmFile
use tezsign.Keychain.HwmFile.{
  HwmError, Loaded, LoadResult, loaded, load_failed, decode_key_state_slot,
  read_double_buffer_key_state, write_at,
}
use tezsign.Keychain.HwmFile.Recovery.{Covers}
use tezsign.Keychain.HwmWorker.{HwmFile}
use tezsign.Keychain.HwmWorker.Guard.{IsKept, IsGuarded, closing, tearing}
use tezsign.Keychain.Key.{
  GKey, Bls, new_gkey, lock_key, close_hwm_file, close_open_file, clear_sensitive_material,
}
use tezsign.Keychain.Key.Unlock.{Secrets}
use tezsign.Keychain.Key.Life.{Life, IsWiped, file_left, settle, restarted}
use tezsign.Keychain.Key.Life.Ready.{IsReady}

module _ (gcm : Gcm) (id : List ℕ) (s : Secrets) where
  -- No file yet, with a floor of zero marks, or a file that is kept.
  abbrev pub IsKeptDisk : KeyState → Option (List ℕ) → Type 0
  IsKeptDisk floor none = Covers floor new_zero_key_state
  IsKeptDisk floor (some file) = IsKept gcm s.dek id s.tz4 floor file

  pub record IsOpen (floor : KeyState) (l : Life) : Type 0 where
    pub ready : IsReady gcm id s.dek floor l.key
    pub same_tz4 : l.key.tz4 ≡ s.tz4
    pub on_disk : l.disk ≡ some ready.h.file

  -- An open file that is kept, whatever the marks of the key are.
  pub record IsHeld (floor : KeyState) (l : Life) : Type 0 where
    pub h : HwmFile
    pub is_open : l.key.hwm_file ≡ some h
    pub has_dek : l.key.dek ≡ some s.dek
    pub answered : h.responses ≡ []
    pub seq : ℕ
    pub guarded : IsGuarded gcm s.dek id l.key.tz4 floor seq h
    pub same_tz4 : l.key.tz4 ≡ s.tz4

  pub held_open : (floor : KeyState) (l : Life) → IsOpen floor l → IsHeld floor l
  held_open floor l o = record {
    h = o.ready.h;
    is_open = o.ready.is_open;
    has_dek = o.ready.has_dek;
    answered = o.ready.answered;
    seq = o.ready.seq;
    guarded = o.ready.guarded;
    same_tz4 = o.same_tz4;
  }

  -- A status has found a corrupted slot.
  pub record IsFlagged (floor : KeyState) (l : Life) : Type 0 where
    pub held : IsHeld floor l
    pub on_disk : l.disk ≡ some held.h.file
    pub wiped : IsWiped l.key

  pub record IsShut (floor : KeyState) (l : Life) : Type 0 where
    pub closed : l.key.hwm_file ≡ none
    pub kept : IsKeptDisk floor l.disk

  abbrev pub IsSafe : KeyState → Life → Type 0
  IsSafe floor l = IsOpen floor l ⊎ (IsFlagged floor l ⊎ IsShut floor l)

  held-IsKeptDisk :
      (floor : KeyState) (l : Life) (o : IsHeld floor l)
      → l.disk ≡ some o.h.file
      → IsKeptDisk floor l.disk
  held-IsKeptDisk floor l o on_disk = subst (IsKeptDisk floor) (sym on_disk) (
      subst (λ t. IsKept gcm s.dek id t floor o.h.file) o.same_tz4
        (closing gcm s.dek id l.key.tz4 floor o.seq o.h o.guarded))

  pub safe-IsKeptDisk : (floor : KeyState) (l : Life) → IsSafe floor l → IsKeptDisk floor l.disk
  unfolding held_open
  safe-IsKeptDisk floor l (inl o) = held-IsKeptDisk floor l (held_open floor l o) o.on_disk
  safe-IsKeptDisk floor l (inr (inl f)) = held-IsKeptDisk floor l f.held f.on_disk
  safe-IsKeptDisk floor l (inr (inr c)) = c.kept

  pub cut_IsSafe :
      (bls : Bls) (floor : KeyState) (l : Life)
      → IsSafe floor l
      → IsSafe floor (record l { key = restarted gcm bls id s })
  unfolding new_gkey
  cut_IsSafe bls floor l safe =
      inr (inr (record { closed = refl; kept = safe-IsKeptDisk floor l safe }))

  same_file : {g h : HwmFile} → some g ≡ some h → g ≡ h
  same_file e = cc

  pub torn_IsSafe :
      (bls : Bls) (floor : KeyState) (l : Life) (h : HwmFile) (torn : List ℕ) (e : HwmError)
      → l.key.hwm_file ≡ some h
      → length torn ≡ 100
      → decode_key_state_slot gcm s.dek id s.tz4 torn ≡ HwmFile.err e
      → IsSafe floor l
      → IsSafe floor (record {
        key = restarted gcm bls id s;
        disk = some (write_at h.file torn (h.next_slot * 100));
      })
  unfolding new_gkey
  torn_IsSafe bls floor l h torn e is_h len bad safe = go safe
    where
      held :
          IsHeld floor l
          → IsSafe floor (record {
            key = restarted gcm bls id s;
            disk = some (write_at h.file torn (h.next_slot * 100));
          })
      held o = inr (
          inr (record {
            closed = refl;
            kept =
                tearing gcm s.dek id s.tz4 floor o.seq h torn e
                  (subst₂ (λ t f. IsGuarded gcm s.dek id t floor o.seq f) o.same_tz4
                    (same_file (sym o.is_open ∙ is_h)) o.guarded)
                  len bad;
          }))

      go :
          IsSafe floor l
          → IsSafe floor (record {
            key = restarted gcm bls id s;
            disk = some (write_at h.file torn (h.next_slot * 100));
          })
      go (inl o) = held (held_open floor l o)
      go (inr (inl f)) = held f.held
      go (inr (inr c)) = absurd (cc (is_h, c.closed))

  -- No answer is waiting at the file of the key, if it has one open.
  abbrev pub HasQuietFile : Option HwmFile → Type 0
  HasQuietFile none = Unit {0}
  HasQuietFile (some h) = h.responses ≡ []

  pub safe-HasQuietFile :
      (floor : KeyState) (l : Life) → IsSafe floor l → HasQuietFile l.key.hwm_file
  safe-HasQuietFile floor l (inl o) = subst HasQuietFile (sym o.ready.is_open) o.ready.answered
  safe-HasQuietFile floor l (inr (inl f)) = subst HasQuietFile (sym f.held.is_open) f.held.answered
  safe-HasQuietFile floor l (inr (inr c)) = subst HasQuietFile (sym c.closed) tt

  closed_by :
      (fails : Bool) (k : GKey) (f : Option HwmFile)
      → k.hwm_file ≡ f
      → HasQuietFile f
      → (close_open_file fails k f).0.hwm_file ≡ none
  unfolding close_open_file
  closed_by fails k none e quiet = e
  closed_by fails k (some h) e quiet = rw (quiet, close_open_file) refl

  pub lock_IsSafe :
      (floor : KeyState) (l : Life) (fails : Bool)
      → IsSafe floor l
      → IsSafe floor (settle l (lock_key fails l.key).0)
  unfolding lock_key close_hwm_file clear_sensitive_material
  lock_IsSafe floor l fails safe =
      let shut =
        closed_by fails (clear_sensitive_material l.key) l.key.hwm_file refl
          (safe-HasQuietFile floor l safe) in
      inr (inr (record { closed = shut; kept = rw shut (safe-IsKeptDisk floor l safe) }))

  -- A key that is ready, or that was left alone, with the content of its file.
  pub ready-IsSafe :
      (floor : KeyState) (l : Life) (k : GKey)
      → IsReady gcm id s.dek floor k
      → k.tz4 ≡ s.tz4
      → IsSafe floor (settle l k)
  ready-IsSafe floor l k r e =
      inl (record { ready = r; same_tz4 = e; on_disk = ap (λ f. file_left f l.disk) r.is_open })

  pub flagged-IsSafe :
      (floor : KeyState) (l : Life) (k : GKey)
      → IsHeld floor (settle l k)
      → IsWiped k
      → IsSafe floor (settle l k)
  flagged-IsSafe floor l k o w =
      inr (inl (record { held = o; on_disk = ap (λ f. file_left f l.disk) o.is_open; wiped = w }))

  held_settled : (floor : KeyState) (l : Life) → IsHeld floor l → IsHeld floor (settle l l.key)
  held_settled floor l o = record {
    h = o.h;
    is_open = o.is_open;
    has_dek = o.has_dek;
    answered = o.answered;
    seq = o.seq;
    guarded = o.guarded;
    same_tz4 = o.same_tz4;
  }

  pub same-IsSafe : (floor : KeyState) (l : Life) → IsSafe floor l → IsSafe floor (settle l l.key)
  same-IsSafe floor l (inl o) = ready-IsSafe floor l l.key o.ready o.same_tz4
  same-IsSafe floor l (inr (inl f)) =
      flagged-IsSafe floor l l.key (held_settled floor l f.held) f.wiped
  same-IsSafe floor l (inr (inr c)) = inr (
      inr (record {
        closed = c.closed;
        kept = subst (λ f. IsKeptDisk floor (file_left f l.disk)) (sym c.closed) c.kept;
      }))
