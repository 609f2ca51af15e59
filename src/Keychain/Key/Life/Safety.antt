-- ===== src/Keychain/Key/Life/Safety.antt =====
-- The invariant of a key's life: what it signed, against the marks that it keeps and those on its file.
use tezsign.Prelude.{
  ℕ, ◌≡◌, inl, inr, refl, sym, arith, true, false, List, [], ◌++◌, ◌∙◌, some, none, length, All,
}
use mathlib.Core.Path.{subst}
use tezsign.Keychain.Kinds.{AtLeast, get_kind, every_kind}
use tezsign.Keychain.Decode
use tezsign.Keychain.Decode.{Payload, Outcome, decode_and_validate_sign_payload}
use tezsign.Keychain.Crypto.{Gcm, is_aes_key}
use tezsign.Keychain.KeyState.{KeyState, new_zero_key_state}
use tezsign.Keychain.HwmFile.Recovery.{Covers-refl}
use tezsign.Keychain.HwmWorker.{HwmFile}
use tezsign.Keychain.Key.{GKey, Bls, Reply, ok, err, no_return, key_state_snapshot, new_gkey}
use tezsign.Keychain.Key.Signing.{mark_of_payload, sign_and_update_post}
use tezsign.Keychain.Key.Level.{set_level_post}
use tezsign.Keychain.Key.History.{Signed, released, level_Grows}
use tezsign.Keychain.Key.Unlock.{Secrets}
use tezsign.Keychain.Key.Life.{
  Life, settle, IsWiped, IsBounded, secret_fails, start, signs, levels, Step, unlock_step,
  lock_step, sign_step, level_step, status_step, cut_step, torn_step, Reach, here, next, Climbing,
}
use tezsign.Keychain.Key.Life.Signing.{sign-Signs, sign_shut, sign_flagged}
use tezsign.Keychain.Key.Life.Levels.{set_level-Raises, set_level_shut}
use tezsign.Keychain.Key.Life.Steps.{
  IsOpen, IsSafe, same-IsSafe, ready-IsSafe, lock_IsSafe, cut_IsSafe, torn_IsSafe,
}
use tezsign.Keychain.Key.Life.Reopening.{unlock-IsSafe, status_IsSafe}
use tezsign.Keychain.Key.Life.Log.{
  IsLogged-lift, Grows-Covers, bounded-HasRoom, bounded-IsEncodable, LogsOn, signed-LogsOn,
  marks_kept,
}

module _ (gcm : Gcm) (bls : Bls) (id : List ℕ) (s : Secrets) (hd : length s.dek ≡ 32) where
  -- A floor of marks that no step can lead below, and that covers the log.
  record Inv (log : List Signed) (l : Life) : Type 0 where
    floor : KeyState
    safe : IsSafe gcm id s floor l
    logs : LogsOn floor log

  aes : is_aes_key s.dek ≡ true
  unfolding is_aes_key
  aes = rw hd refl

  keep : (log : List Signed) (l l' : Life) (i : Inv log l) → IsSafe gcm id s i.floor l' → Inv log l'
  keep log l l' i safe = record { floor = i.floor; safe = safe; logs = i.logs }

  untouched :
      (log : List Signed) (l : Life) (k : GKey) (i : Inv log l) → k ≡ l.key → Inv log (settle l k)
  untouched log l k i same = keep log l (settle l k) i (
      subst (λ k. IsSafe gcm id s i.floor (settle l k)) (sym same)
        (same-IsSafe gcm id s i.floor l i.safe))

  -- The floor of an unlocked key is below its marks.
  on_marks :
      (log : List Signed) (l : Life) (i : Inv log l)
      → IsOpen gcm id s i.floor l
      → LogsOn (key_state_snapshot l.key) log
  on_marks log l i o = (IsLogged-lift i.floor _ log o.ready.covers i.logs.0, i.logs.1)

  level-Inv :
      (log : List Signed) (l : Life) (level : ℕ) (random : List ℕ)
      → length random ≡ 12
      → (IsWiped l.key → ⊥)
      → IsBounded l.key
      → IsBounded (levels gcm bls id s level random l.key).0
      → Inv log l
      → Inv log (settle l (levels gcm bls id s level random l.key).0)
  level-Inv log l level random hn kept b b' i = go i.safe
    where
      r : GKey × Reply (Unit {0})
      r = levels gcm bls id s level random l.key

      grown : LogsOn (key_state_snapshot l.key) log → LogsOn (key_state_snapshot r.0) log
      grown (all, climbing) = (
        IsLogged-lift _ _ log
            (Grows-Covers l.key r.0 (
              level_Grows l.key r.0 level r.1 (
                set_level_post gcm id (record { nonce = some random; write_fault = none }) l.key
                  level)))
            all,
        climbing,
      )

      go : IsSafe gcm id s i.floor l → Inv log (settle l r.0)
      go (inr (inl f)) = absurd (kept f.wiped)
      go (inr (inr c)) = untouched log l r.0 i (set_level_shut gcm id s.dek _ l.key level c.closed)
      go (inl o) =
          elim ((set_level-Raises gcm id s.dek i.floor l.key level random o.ready hn aes
            b.seq).outcome) [
              | inl bad ↦ absurd bad
              | inr (inl (same, _)) ↦ untouched log l r.0 i same
              | inr (inr (same, ready)) ↦ record {
                floor = key_state_snapshot r.0;
                safe =
                    ready-IsSafe gcm id s (key_state_snapshot r.0) l r.0
                      (ready (bounded-HasRoom r.0 b')) (same ∙ o.same_tz4);
                logs = grown (on_marks log l i o);
              }
            ]

  sign-Inv :
      (log : List Signed) (l : Life) (raw random : List ℕ)
      → length random ≡ 12
      → secret_fails (signs gcm bls id s raw random l.key).1 ≡ false
      → IsBounded l.key
      → IsBounded (signs gcm bls id s raw random l.key).0
      → Inv log l
      → let r = signs gcm bls id s raw random l.key in
        Inv (released (decode_and_validate_sign_payload raw) r.1 [] ++ log) (settle l r.0)
  sign-Inv log l raw random hn fine b b' i = go i.safe
    where
      r : GKey × Reply (List ℕ)
      r = signs gcm bls id s raw random l.key

      new : List Signed
      new = released (decode_and_validate_sign_payload raw) r.1 []

      quiet :
          (o : Outcome Payload) (reply : Reply (List ℕ))
          → ((sig : List ℕ) → reply ≡ ok sig → ⊥)
          → released o reply [] ≡ []
      quiet (Decode.ok p) (ok sig) not_ok = absurd (not_ok sig refl)
      quiet (Decode.ok p) (err e) not_ok = refl
      quiet (Decode.ok p) no_return not_ok = refl
      quiet (Decode.err e) reply not_ok = refl
      quiet Decode.panic reply not_ok = refl

      refused : r.0 ≡ l.key → ((sig : List ℕ) → r.1 ≡ ok sig → ⊥) → Inv (new ++ log) (settle l r.0)
      refused same not_ok =
          subst (λ n. Inv (n ++ log) (settle l r.0))
            (sym (quiet (decode_and_validate_sign_payload raw) r.1 not_ok))
            (untouched log l r.0 i same)

      go : IsSafe gcm id s i.floor l → Inv (new ++ log) (settle l r.0)
      go (inr (inl f)) =
          let idle =
            sign_flagged gcm id s.dek bls raw (record { nonce = some random; write_fault = none })
              l.key f.wiped.flagged in
          refused idle.0 idle.1
      go (inr (inr c)) =
          let idle =
            sign_shut gcm id s.dek bls raw (record { nonce = some random; write_fault = none })
              l.key c.closed in
          refused idle.0 idle.1
      go (inl o) =
          elim ((sign-Signs gcm id s.dek bls i.floor l.key random o.ready hn aes b.seq
            (bounded-IsEncodable l.key b) raw).outcome) [
              | inl bad ↦ absurd (cc (bad, fine))
              | inr (inl (same, not_ok)) ↦ refused same not_ok
              | inr (inr (same, ready)) ↦ record {
                floor = key_state_snapshot r.0;
                safe =
                    ready-IsSafe gcm id s (key_state_snapshot r.0) l r.0
                      (ready (bounded-HasRoom r.0 b')) (same ∙ o.same_tz4);
                logs =
                    signed-LogsOn gcm id (record { nonce = some random; write_fault = none }) l.key
                      r.0 (decode_and_validate_sign_payload raw) r.1 log
                      (sign_and_update_post gcm bls id raw
                        (record { nonce = some random; write_fault = none }) l.key)
                      (on_marks log l i o);
              }
            ]

  Step-Inv :
      (log : List Signed) (l : Life) (new : List Signed) (l' : Life)
      → Step gcm bls id s l new l'
      → IsBounded l.key
      → IsBounded l'.key
      → Inv log l
      → Inv (new ++ log) l'
  Step-Inv log _ _ _ (unlock_step l random cf hn) b b' i =
      keep log l _ i (unlock-IsSafe gcm id s i.floor l random cf hd hn i.safe)
  Step-Inv log _ _ _ (lock_step l fails) b b' i =
      keep log l _ i (lock_IsSafe gcm id s i.floor l fails i.safe)
  Step-Inv log _ _ _ (sign_step l raw random hn fine) b b' i =
      sign-Inv log l raw random hn fine b b' i
  Step-Inv log _ _ _ (level_step l level random hn kept) b b' i =
      level-Inv log l level random hn kept b b' i
  Step-Inv log _ _ _ (status_step l) b b' i =
      keep log l _ i (status_IsSafe gcm id s i.floor l hd i.safe)
  Step-Inv log _ _ _ (cut_step l) b b' i = keep log l _ i (cut_IsSafe gcm id s bls i.floor l i.safe)
  Step-Inv log _ _ _ (torn_step l h torn e is_h len bad) b b' i =
      keep log l _ i (torn_IsSafe gcm id s bls i.floor l h torn e is_h len bad i.safe)

  start-IsBounded : IsBounded (start gcm bls id s).key
  unfolding new_gkey
  start-IsBounded = record {
    level = every_kind _ (omega arith) (omega arith) (omega arith);
    round = every_kind _ (omega arith) (omega arith) (omega arith);
    seq = omega arith;
  }

  Reach-Inv :
      (log : List Signed) (l : Life) → Reach gcm bls id s log l → IsBounded l.key × Inv log l
  unfolding new_gkey
  Reach-Inv _ _ here = (
    start-IsBounded,
    record {
      floor = new_zero_key_state;
      safe = inr (inr (record { closed = refl; kept = Covers-refl new_zero_key_state }));
      logs = (tt, tt);
    },
  )
  Reach-Inv _ _ (next {l} {l'} {log} {new} r st b') =
      let (b, i) = Reach-Inv log l r in (b', Step-Inv log l new l' st b b' i)

  reach_marks :
      (log : List Signed) (l : Life) (h : HwmFile)
      → Inv log l
      → l.key.hwm_file ≡ some h
      → (IsWiped l.key → ⊥)
      → All (λ x. AtLeast (mark_of_payload x.payload) (get_kind l.key.watermark x.payload.kind)) log
  reach_marks log l h i e kept = elim (i.safe) [
    | inl o ↦ marks_kept l.key log (on_marks log l i o).0
    | inr rest ↦ elim rest [ inl f ↦ absurd (kept f.wiped) | inr c ↦ absurd (cc (e, c.closed)) ]
  ]

-- Over any sequence of unlocks, locks, requests to sign, statuses, power cuts, power cuts that tear the
-- slot being written so that it cannot be read, and set levels, but none on a key that is marked as
-- corrupted and has zero marks, as a status that finds a corrupted slot leaves it, from a key with no
-- file, with a DEK of 32 bytes, random sources, writes and secrets that do not fail, and marks and numbers
-- that stay below the last word: each released signature lies above every earlier one of its kind, by
-- level and then by round, and while the key is unlocked, and is not left so by a status, none lies above
-- the mark that the key keeps for its kind.
pub Reach-Climbing :
    (gcm : Gcm) (bls : Bls) (id : List ℕ) (s : Secrets) (log : List Signed) (l : Life)
    → length s.dek ≡ 32
    → Reach gcm bls id s log l
    → Climbing log
      × ((h : HwmFile)
          → l.key.hwm_file ≡ some h
          → (IsWiped l.key → ⊥)
          → All
              (λ x. AtLeast (mark_of_payload x.payload) (get_kind l.key.watermark x.payload.kind))
              log)
Reach-Climbing gcm bls id s log l hd r =
    let i = (Reach-Inv gcm bls id s hd log l r).1 in
    (i.logs.1, λ h e kept. reach_marks gcm bls id s hd log l h i e kept)
