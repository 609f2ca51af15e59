-- ===== src/Gadget/Limiter.antt =====
-- app/gadget/limiter.go: how many attempts to unlock are let through within a window of time. Times
-- and durations are numbers of nanoseconds, from the start of a clock that is never turned back; the
-- comparison with `now - window` is written without the subtraction.
pub mod Window
use tezsign.Prelude.{ℕ, zero, ◌+◌, ◌-◌, Bool, List, [], ◌∷◌, ◌++◌, length, ltb, leb, if◌then◌else◌}

pub record AttemptLimiter : Type 0 where
  pub window : ℕ
  pub max : ℕ
  pub attempts : List ℕ

unfoldable pub new_attempt_limiter : ℕ → ℕ → AttemptLimiter
new_attempt_limiter max window = record { window = window; max = max; attempts = [] }

-- `panics`: the first attempt of an empty list is asked for.
pub data Verdict : Type 0 where
  allowed panics : Verdict
  throttled : ℕ → Verdict

-- The attempts that are inside the window at `now`.
unfoldable pub valid : ℕ → ℕ → List ℕ → List ℕ
valid window now [] = []
valid window now (ts ∷ rest) =
    let more = valid window now rest in if ltb now (ts + window) then ts ∷ more else more

unfoldable pub refuse : ℕ → ℕ → List ℕ → Verdict
refuse window now [] = panics
refuse window now (ts ∷ rest) =
    if ltb (ts + window) now then throttled 0 else throttled (ts + window - now)

unfoldable pub allow : ℕ → AttemptLimiter → AttemptLimiter × Verdict
unfolding valid refuse
allow now l =
    let kept = valid l.window now l.attempts in
    if leb l.max (length kept)
    then (record l { attempts = kept }, refuse l.window now kept)
    else (record l { attempts = kept ++ (now ∷ []) }, allowed)
