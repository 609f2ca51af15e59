-- ===== src/Keychain/Key/Level.antt =====
-- `setLevel` of keychain/keys.go: the operator raises the level of all three kinds at once.
use tezsign.Prelude.{
  ℕ, ◌+◌, ◌%◌, ◌^◌, ◌<◌, ◌≡◌, refl, arith, Bool, false, ◌||◌, List, Option, none, some, leb,
  if◌then◌else◌, if_rule,
}
use tezsign.Keychain.Kinds.{
  SignKind, block, preattestation, attestation, HighWatermark, ByKind, get_kind, for_all_kinds,
}
use tezsign.Keychain.Crypto.{Gcm}
use tezsign.Keychain.HwmFile.{HwmError}
use tezsign.Keychain.HwmWorker.{HwmFile, persist}
use tezsign.Keychain.Key.{
  GKey, Reply, ok, err, no_return, Env, key_locked, hwm_not_open, level_too_low, persist_state,
}

-- Behind the answer of `persist`; `some` is an error of the write.
unfoldable pub finish_level :
    GKey → ℕ → ℕ → Option (Option HwmError × HwmFile) → GKey × Reply (Unit {0})
finish_level k level next_seq none = (k, no_return)
finish_level k level next_seq (some (some e, h)) =
    (record k { hwm_file = some h }, err (persist_state e))
finish_level k level next_seq (some (none, h)) = (
  record k {
    watermark = for_all_kinds (λ kind. record { level = level; round = 0 });
    hwm_file = some h;
    hwm_seq = next_seq;
    hwm_corrupted = false;
  },
  ok tt,
)

-- `level <= current` for one of the kinds.
unfoldable pub too_low : ByKind HighWatermark → ℕ → Bool
too_low marks level =
    leb level marks.for_block.level
    || leb level marks.for_preattestation.level
    || leb level marks.for_attestation.level

module _ (gcm : Gcm) where
  unfoldable pub set_level_open :
      List ℕ → Env → GKey → ℕ → Option (List ℕ) → Option HwmFile → GKey × Reply (Unit {0})
  set_level_open id env k level none file = (k, err key_locked)
  set_level_open id env k level (some dek) none = (k, err hwm_not_open)
  set_level_open id env k level (some dek) (some h) =
      let next_state = for_all_kinds (λ kind. some (record { level = level; round = 0 })) in
      let next_seq = (k.hwm_seq + 1) % 2 ^ 64 in
      if too_low k.watermark level
      then (k, err level_too_low)
      else finish_level k level next_seq
          (persist gcm dek id k.tz4 env.nonce env.write_fault next_state next_seq h)

  unfoldable pub set_level : List ℕ → Env → GKey → ℕ → GKey × Reply (Unit {0})
  unfolding set_level_open
  set_level id env k level = set_level_open id env k level k.dek k.hwm_file

-- The marks after a call of `setLevel`, for each kind of result.
abbrev pub LevelPost : GKey → ℕ → GKey × Reply (Unit {0}) → Type 0
LevelPost k level (k', ok u) =
    ((kind : SignKind) → (get_kind k.watermark kind).level < level)
    × (k'.watermark ≡ for_all_kinds (λ kind. record { level = level; round = 0 }))
LevelPost k level (k', err e) = k'.watermark ≡ k.watermark
LevelPost k level (k', no_return) = k' ≡ k

above_all :
    (marks : ByKind HighWatermark) (level : ℕ)
    → too_low marks level ≡ false
    → (kind : SignKind) → (get_kind marks kind).level < level
unfolding too_low
above_all marks level h block = ground arith
above_all marks level h preattestation = ground arith
above_all marks level h attestation = ground arith

finish_level_post :
    (k : GKey) (level next_seq : ℕ) (answer : Option (Option HwmError × HwmFile))
    → ((kind : SignKind) → (get_kind k.watermark kind).level < level)
    → LevelPost k level (finish_level k level next_seq answer)
unfolding finish_level
finish_level_post k level next_seq none up = refl
finish_level_post k level next_seq (some (some e, h)) up = refl
finish_level_post k level next_seq (some (none, h)) up = (up, refl)

-- `setLevel` succeeds only above the level of every kind, and then sets the marks of all of them to
-- that level and round 0; with an error, or with no return, every mark is as it was.
pub set_level_post :
    (gcm : Gcm) (id : List ℕ) (env : Env) (k : GKey) (level : ℕ)
    → LevelPost k level (set_level gcm id env k level)
unfolding set_level
set_level_post gcm id env k level = go k.dek k.hwm_file
  where
    go :
        (dek : Option (List ℕ)) (file : Option HwmFile)
        → LevelPost k level (set_level_open gcm id env k level dek file)
    go none file = refl
    go (some dek) none = refl
    go (some dek) (some h) =
        if_rule (LevelPost k level) _ _ _ (λ low. refl)
          λ up. finish_level_post k level _ _ (above_all k.watermark level up)
