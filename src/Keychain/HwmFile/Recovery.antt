-- ===== src/Keychain/HwmFile/Recovery.antt =====
-- What `readDoubleBufferKeyState` recovers when one slot is sound and the other is not the newest.
use tezsign.Prelude.{
  ℕ, ◌+◌, ◌≤◌, ◌<◌, ◌^◌, ◌≡◌, ◌⊎◌, inl, inr, refl, ap, ◌∙◌, arith, Bool, true, false, ◌&&◌, List,
  ◌++◌, some, length, take, drop, if_rule, length-append, append-nil, append_assoc, drop_all,
  take-append_exact, drop-append_exact, take_all, ltb, ltb-false,
}
use mathlib.Core.Path.{ap₂}
use tezsign.Keychain.Kinds.{SignKind, AtLeast, get_kind}
use tezsign.Keychain.Crypto.{Gcm}
use tezsign.Keychain.KeyState.{KeyState, state_plus_one, merge_key_states, get_level}
use tezsign.Keychain.KeyState.Marks.{mark_at, merge_key_states_max, state_plus_one-Above}
use tezsign.Keychain.HwmFile.{
  Result, ok, err, Decoded, Loaded, LoadResult, loaded, load_failed, choose_state, read_at,
  write_at, decode_key_state_slot, read_double_buffer_key_state,
}

-- The marks of `new` are, kind by kind, at least those of `old`.
abbrev pub Covers : KeyState → KeyState → Type 0
Covers old new = (kind : SignKind) → AtLeast (mark_at (some old) kind) (mark_at (some new) kind)

-- The load succeeds, with marks that cover `ks` and that were not missing.
abbrev pub CoveredBy : KeyState → LoadResult → Type 0
CoveredBy ks (loaded l) = Covers ks l.ks × (l.missing ≡ false)
CoveredBy ks (load_failed e missing corrupted_slot) = ⊥

pub record LoadCovers (ks : KeyState) (r : LoadResult) : Type 0 where
  pub covered : CoveredBy ks r

-- No level is the last uint64, so that `statePlusOne` does not wrap.
abbrev pub HasRoom : KeyState → Type 0
HasRoom ks = (kind : SignKind) → get_level (get_kind ks kind) + 1 < 2 ^ 64

-- A slot beside the sound one: unreadable, never written, not newer, or with marks that cover it.
abbrev pub IsHarmless : KeyState → ℕ → Result Decoded → Type 0
IsHarmless ks seq (err e) = Unit {0}
IsHarmless ks seq (ok d) = (d.missing ≡ true) ⊎ ((d.seq ≤ seq) ⊎ Covers ks d.ks)

pub Covers-refl : (ks : KeyState) → Covers ks ks
Covers-refl ks kind = ground arith

pub plus_one-Covers : (ks : KeyState) → HasRoom ks → Covers ks (state_plus_one (some ks))
plus_one-Covers ks room kind =
    elim (state_plus_one-Above (some ks) kind (mark_at (some ks) kind).round (room kind)) [
      | inl h ↦ inl h
      | inr (e, h) ↦ inr (e, omega arith)
    ]

pub merge_left : (a b : KeyState) → Covers a (merge_key_states (some a) (some b))
merge_left a b kind = (merge_key_states_max (some a) (some b) kind).0

pub merge_right : (a b : KeyState) → Covers b (merge_key_states (some a) (some b))
merge_right a b kind = (merge_key_states_max (some a) (some b) kind).1

covering :
    {ks : KeyState} (l : Loaded) → l.missing ≡ false → Covers ks l.ks → LoadCovers ks (loaded l)
covering l there c = record { covered = (c, there) }

abbrev sound : KeyState → ℕ → Decoded
sound ks seq = record { ks = ks; seq = seq; missing = false }

newer-Covers :
    (ks : KeyState) (seq : ℕ) (d : Decoded)
    → IsHarmless ks seq (ok d)
    → d.missing ≡ false
    → ltb seq d.seq ≡ true
    → Covers ks d.ks
newer-Covers ks seq d (inl m) there newer = absurd (cc)
newer-Covers ks seq d (inr (inl le)) there newer = absurd (ground arith)
newer-Covers ks seq d (inr (inr c)) there newer = c

and_false : (b : Bool) → b && false ≡ true → ⊥
and_false true h = cc
and_false false h = cc

sound_first :
    (ks : KeyState) (seq : ℕ) (d : Decoded)
    → IsHarmless ks seq (ok d)
    → LoadCovers ks (choose_state (ok (sound ks seq)) (ok d))
unfolding choose_state
sound_first ks seq d h =
    if_rule (LoadCovers ks) _ _ _ (λ m. covering _ refl (Covers-refl ks))
      λ there.
        if_rule (LoadCovers ks) (ltb d.seq seq) _ _ (λ older. covering _ refl (Covers-refl ks))
          λ _.
            if_rule (LoadCovers ks) (ltb seq d.seq) _ _
              (λ up. covering _ refl (newer-Covers ks seq d h there up))
              λ _. covering _ refl (merge_left ks d.ks)

sound_second :
    (ks : KeyState) (seq : ℕ) (d : Decoded)
    → IsHarmless ks seq (ok d)
    → LoadCovers ks (choose_state (ok d) (ok (sound ks seq)))
unfolding choose_state
sound_second ks seq d h =
    if_rule (LoadCovers ks) _ _ _ (λ both. absurd (and_false d.missing both))
      λ _.
        if_rule (LoadCovers ks) _ _ _ (λ m. covering _ refl (Covers-refl ks))
          λ there.
            if_rule (LoadCovers ks) (ltb seq d.seq) _ _
              (λ up. covering _ refl (newer-Covers ks seq d h there up))
              λ _.
                if_rule (LoadCovers ks) (ltb d.seq seq) _ _
                  (λ older. covering _ refl (Covers-refl ks))
                  λ _. covering _ refl (merge_right d.ks ks)

-- When one slot holds the marks `ks`, with no level that is the last uint64, and the other cannot
-- be read, was never written, is not newer or holds marks that cover `ks`, then, whichever of the
-- two comes first, the choice succeeds with marks that cover `ks`.
pub choose_state_covers :
    (ks : KeyState) (seq : ℕ) (other : Result Decoded)
    → HasRoom ks
    → IsHarmless ks seq other
    → LoadCovers ks (choose_state (ok (sound ks seq)) other)
      × LoadCovers ks (choose_state other (ok (sound ks seq)))
choose_state_covers ks seq (ok d) room h = (sound_first ks seq d h, sound_second ks seq d h)
choose_state_covers ks seq (err e) room h =
    unfold choose_state in
    (covering _ refl (plus_one-Covers ks room), covering _ refl (plus_one-Covers ks room))

-- A file of two slots.
pub read_first : (a b : List ℕ) → length a ≡ 100 → length b ≡ 100 → read_at (a ++ b) 0 ≡ some a
unfolding read_at
read_first a b ha hb =
    rw (ltb-false (length (a ++ b)) 100 (omega (arith, length-append a b)))
      (ap some (take-append_exact 100 a b ha))

pub read_second : (a b : List ℕ) → length a ≡ 100 → length b ≡ 100 → read_at (a ++ b) 100 ≡ some b
unfolding read_at
read_second a b ha hb =
    rw (ltb-false (length (a ++ b)) 200 (omega (arith, length-append a b)))
      (ap some (ap (take 100) (drop-append_exact 100 a b ha) ∙ take_all 100 b (omega arith)))

pub write_first :
    (a b t : List ℕ) → length a ≡ 100 → length t ≡ 100 → write_at (a ++ b) t 0 ≡ t ++ b
unfolding write_at
write_first a b t ha ht =
    ap (λ n. t ++ drop n (a ++ b)) (at_end (length t) ht)
    ∙ ap (λ l. t ++ l) (drop-append_exact 100 a b ha)
  where
    at_end : (n : ℕ) → n ≡ 100 → 0 + n ≡ 100
    at_end n e = omega arith

pub write_second :
    (a b t : List ℕ)
    → length a ≡ 100
    → length b ≡ 100
    → length t ≡ 100
    → write_at (a ++ b) t 100 ≡ a ++ t
unfolding write_at
write_second a b t ha hb ht =
    ap₂ (λ l r. l ++ (t ++ r)) (ap (take 100) (append_assoc a b _) ∙ take-append_exact 100 a _ ha)
      (ap (λ n. drop n (a ++ b)) (at_end (length t) ht)
        ∙ drop_all 200 (a ++ b) (omega (arith, length-append a b)))
    ∙ ap (λ l. a ++ l) (append-nil t)
  where
    at_end : (n : ℕ) → n ≡ 100 → 100 + n ≡ 200
    at_end n e = omega arith

module _ (gcm : Gcm) (dek id tz4 : List ℕ) where
  pub read_slots :
      (a b : List ℕ)
      → length a ≡ 100
      → length b ≡ 100
      → read_double_buffer_key_state gcm dek id tz4 (a ++ b)
        ≡ choose_state
            (decode_key_state_slot gcm dek id tz4 a)
            (decode_key_state_slot gcm dek id tz4 b)
  unfolding read_double_buffer_key_state
  read_slots a b ha hb =
      rw (read_first a b ha hb, read_double_buffer_key_state) (rw (read_second a b ha hb) refl)
