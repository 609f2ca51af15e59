-- ===== src/Gadget/Limiter/Window.antt =====
-- No window of time holds more attempts that are let through than the limit.
use tezsign.Prelude.{
  ℕ, ◌+◌, ◌-◌, ◌≤◌, ◌≡◌, refl, sym, ap, ◌∙◌, arith, false, Bool-cases, inl, inr, List, [], ◌∷◌,
  ◌++◌, length, length-append, ltb, leb, if_rule, if◌then◌else◌,
}
use mathlib.Core.Path.{subst, subst₂}
use tezsign.Gadget.Limiter.{
  AttemptLimiter, Verdict, allowed, throttled, panics, new_attempt_limiter, valid, refuse, allow,
}

-- The attempts let through, with one more if the verdict is that.
abbrev pub granted : List ℕ → ℕ → Verdict → List ℕ
granted gs now allowed = gs ++ (now ∷ [])
granted gs now (throttled wait) = gs
granted gs now panics = gs

-- Calls at the given times, one after another: the attempts that are let through, in order.
unfoldable pub run : List ℕ → AttemptLimiter → List ℕ → AttemptLimiter × List ℕ
run [] l gs = (l, gs)
run (now ∷ later) l gs = let (l', v) = allow now l in run later l' (granted gs now v)

-- Times that never go back, from `t` on, and the last of them.
abbrev pub Ordered : ℕ → List ℕ → Type 0
Ordered t [] = Unit {0}
Ordered t (now ∷ later) = (t ≤ now) × Ordered now later

abbrev pub last_of : ℕ → List ℕ → ℕ
last_of t [] = t
last_of t (now ∷ later) = last_of now later

valid-append : (w t : ℕ) (xs ys : List ℕ) → valid w t (xs ++ ys) ≡ valid w t xs ++ valid w t ys
unfolding valid
valid-append w t [] ys = refl
valid-append w t (x ∷ xs) ys = elim (Bool-cases (ltb t (x + w))) [
  | inl i ↦ rw i (ap (λ l. x ∷ l) (valid-append w t xs ys))
  | inr o ↦ rw o (valid-append w t xs ys)
]

-- What is outside the window stays outside.
valid-later : (w t now : ℕ) (xs : List ℕ) → t ≤ now → valid w now (valid w t xs) ≡ valid w now xs
unfolding valid
valid-later w t now [] le = refl
valid-later w t now (x ∷ xs) le = elim (Bool-cases (ltb t (x + w))) [
  | inl i ↦ rw i (elim (Bool-cases (ltb now (x + w))) [
    | inl j ↦ rw j (ap (λ l. x ∷ l) (valid-later w t now xs le))
    | inr j ↦ rw j (valid-later w t now xs le)
  ])
  | inr o ↦
      let gone : ltb now (x + w) ≡ false = ground arith in rw (o, gone) (valid-later w t now xs le)
]

length-valid : (w t : ℕ) (xs : List ℕ) → length (valid w t xs) ≤ length xs
unfolding valid
length-valid w t [] = omega arith
length-valid w t (x ∷ xs) = ground (arith, length-valid w t xs)

-- The limiter, with the window `w` and the limit `m`, keeps the attempts of `gs` that are in the
-- window at `t`, within its limit.
pub record Tracks (w m t : ℕ) (gs : List ℕ) (l : AttemptLimiter) : Type 0 where
  pub window_is : l.window ≡ w
  pub max_is : l.max ≡ m
  pub kept : valid w t l.attempts ≡ valid w t gs
  pub bounded : length l.attempts ≤ m

granted-refuse : (gs : List ℕ) (w now : ℕ) (xs : List ℕ) → granted gs now (refuse w now xs) ≡ gs
unfolding refuse
granted-refuse gs w now [] = refl
granted-refuse gs w now (x ∷ xs) =
    if_rule (λ v. granted gs now v ≡ gs) (ltb (x + w) now) _ _ (λ t. refl) (λ f. refl)

module _ (w m t now : ℕ) (gs attempts : List ℕ) where
  abbrev limiter : AttemptLimiter
  limiter = record { window = w; max = m; attempts = attempts }

  kept_later : t ≤ now → valid w t attempts ≡ valid w t gs → valid w now attempts ≡ valid w now gs
  kept_later le e =
      sym (valid-later w t now attempts le) ∙ ap (valid w now) e ∙ valid-later w t now gs le

  -- What a call makes of the limiter and of the attempts let through.
  abbrev pub Step : AttemptLimiter × Verdict → Type 0
  Step (l, v) = Tracks w m now (granted gs now v) l

  allow-Tracks :
      t ≤ now → valid w t attempts ≡ valid w t gs → length attempts ≤ m → Step (allow now limiter)
  unfolding allow
  allow-Tracks le e fits =
      let kept_now : List ℕ = valid w now attempts in
      if_rule Step (leb m (length kept_now)) _ _
        (λ full.
          subst (λ g. Tracks w m now g (record limiter { attempts = kept_now }))
            (sym (granted-refuse gs w now kept_now))
            (record {
              window_is = refl;
              max_is = refl;
              kept = valid-later w now now attempts (omega arith) ∙ kept_later le e;
              bounded = omega (arith, length-valid w now attempts);
            }))
        λ room. record {
          window_is = refl;
          max_is = refl;
          kept =
              valid-append w now kept_now (now ∷ [])
              ∙ ap (λ xs. xs ++ valid w now (now ∷ []))
                  (valid-later w now now attempts (omega arith) ∙ kept_later le e)
              ∙ sym (valid-append w now gs (now ∷ []));
          bounded = ground (arith, length-append kept_now (now ∷ []));
        }

run-Tracks :
    (w m t : ℕ) (calls gs : List ℕ) (l : AttemptLimiter)
    → Ordered t calls
    → Tracks w m t gs l
    → Tracks w m (last_of t calls) (run calls l gs).1 (run calls l gs).0
unfolding run
run-Tracks w m t [] gs l o tr = tr
run-Tracks w m t (now ∷ later) gs l (le, o) tr =
    let (l', v) = allow now l in
    run-Tracks w m now later (granted gs now v) l' o (
      subst₂ (λ w' m'. Tracks w' m' now (granted gs now v) l') tr.window_is tr.max_is
        (allow-Tracks l.window l.max t now gs l.attempts le
          (subst (λ w'. valid w' t l.attempts ≡ valid w' t gs) (sym tr.window_is) tr.kept)
          (omega (arith, tr.bounded, tr.max_is))))

-- How many of these times lie less than `w` before `t`.
abbrev pub count_within : ℕ → ℕ → List ℕ → ℕ
count_within w t [] = 0
count_within w t (x ∷ xs) =
    let rest = count_within w t xs in if ltb t (x + w) then rest + 1 else rest

length-valid_count : (w t : ℕ) (xs : List ℕ) → length (valid w t xs) ≡ count_within w t xs
unfolding valid
length-valid_count w t [] = refl
length-valid_count w t (x ∷ xs) = ground (arith, length-valid_count w t xs)

-- Over any calls at times that never go back, from a new limiter on: of the attempts that were let
-- through, at most `max` lie less than the window before the last call.
pub grants_bounded :
    (max window t : ℕ) (calls : List ℕ)
    → Ordered t calls
    → count_within window (last_of t calls) (run calls (new_attempt_limiter max window) []).1 ≤ max
unfolding new_attempt_limiter
grants_bounded max window t calls o =
    let start : Tracks window max t [] (new_attempt_limiter max window) = record {
      window_is = refl;
      max_is = refl;
      kept = refl;
      bounded = omega arith;
    } in
    let tr = run-Tracks window max t calls [] (new_attempt_limiter max window) o start in
    omega (
      arith,
      length-valid_count window (last_of t calls) (run calls (new_attempt_limiter max window) []).1,
      ap length tr.kept,
      tr.bounded,
      length-valid window (last_of t calls)
          (run calls (new_attempt_limiter max window) []).0.attempts,
    )

wait_of : Verdict → ℕ
wait_of (throttled wait) = wait
wait_of allowed = 0
wait_of panics = 0

-- Once the wait is over, the attempt that was waited for is outside the window.
first_gone :
    (w now wait x : ℕ) (xs : List ℕ) → refuse w now (x ∷ xs) ≡ throttled wait → x + w ≤ now + wait
unfolding refuse wait_of
first_gone w now wait x xs e = elim (Bool-cases (ltb (x + w) now)) [
  | inl past ↦ ground arith
  | inr still ↦ let is : x + w - now ≡ wait = ap wait_of (rw still at e) in omega arith
]

room_after_wait :
    (w m now wait : ℕ) (xs : List ℕ)
    → length xs ≤ m
    → refuse w now xs ≡ throttled wait
    → leb m (length (valid w (now + wait) xs)) ≡ false
unfolding valid
room_after_wait w m now wait [] fits e = absurd (unfold refuse in cc)
room_after_wait w m now wait (x ∷ xs) fits e =
    ground (arith, first_gone w now wait x xs e, length-valid w (now + wait) xs)

-- When no more attempts are kept than the limit, an attempt that is refused with a wait is let
-- through if it is made again once that wait is over.
pub allow_after_wait :
    (now wait : ℕ) (l : AttemptLimiter)
    → length l.attempts ≤ l.max
    → (allow now l).1 ≡ throttled wait
    → (allow (now + wait) (allow now l).0).1 ≡ allowed
unfolding allow
allow_after_wait now wait l fits e =
    let kept_now : List ℕ = valid l.window now l.attempts in
    elim (Bool-cases (leb l.max (length kept_now))) [
      | inl full ↦
          let refused : refuse l.window now kept_now ≡ throttled wait = rw full at e in
          rw full (
            rw
              (room_after_wait l.window l.max now wait kept_now
                (omega (arith, length-valid l.window now l.attempts)) refused)
              refl)
      | inr room ↦ absurd (cc (rw room at e))
    ]
