-- ===== src/Broker/Session/Loops.antt =====
-- The write loop and the read loop of broker/broker.go, and `isRetryable`.
use tezsign.Prelude.{
  ℕ, zero, suc, ◌+◌, ◌<◌, ◌≡◌, refl, arith, Bool, true, false, ◌||◌, List, [], ◌∷◌, Option, none,
  some, replicate, ltb, if◌then◌else◌, if_rule,
}
use tezsign.Broker.Wire.{payload_type_retry}
use tezsign.Broker.Stash.{Stash, Message, write, process_stash}
use tezsign.Broker.Session.{Session, WriteResult, blocks, write_frame}

-- The values of syscall.Errno that are looked for.
pub data Errno : Type 0 where
  eagain eintr eio enodev eproto eshutdown ebadmsg etimedout : Errno
  other_errno : ℕ → Errno

pub data IoError : Type 0 where
  io_eof io_unexpected_eof other_error : IoError
  errno : Errno → IoError

unfoldable pub is_retryable_errno : Errno → Bool
is_retryable_errno (other_errno n) = false
is_retryable_errno e = true

-- errors.Is(err, io.EOF) || errors.Is(err, io.ErrUnexpectedEOF), over the errors that are wrapped.
unfoldable pub is_eof : List IoError → Bool
is_eof [] = false
is_eof (io_eof ∷ es) = true
is_eof (io_unexpected_eof ∷ es) = true
is_eof (e ∷ es) = is_eof es

-- errors.As(err, &errno) finds the first Errno.
unfoldable pub first_errno_retryable : List IoError → Bool
unfolding is_retryable_errno
first_errno_retryable [] = false
first_errno_retryable (errno e ∷ es) = is_retryable_errno e
first_errno_retryable (e ∷ es) = first_errno_retryable es

-- An error is the list of the errors that it wraps; nil is the empty list.
unfoldable pub is_retryable : List IoError → Bool
unfolding is_eof first_errno_retryable
is_retryable es = is_eof es || first_errno_retryable es

abbrev pub max_retryable_write_retries : ℕ
max_retryable_write_retries = 1

-- What one call of WriteContext comes to: with an error, whether the broker is cancelled by then.
pub data Attempt : Type 0 where
  written : Attempt
  failed : List IoError → Bool → Attempt

pub data WriteEnd : Type 0 where
  sent dropped stopped cancels : WriteEnd

-- One time round the loop `writeAttempt`, with what follows if it goes round again; with how the
-- loop ends comes the number of attempts.
unfoldable pub after_attempt : Attempt → ℕ → ℕ → Option (WriteEnd × ℕ) → Option (WriteEnd × ℕ)
unfolding is_retryable
after_attempt written n retries again = some (sent, n + 1)
after_attempt (failed es cancelled) n retries again =
    if cancelled
    then some (stopped, n + 1)
    else if is_retryable es
    then (if ltb retries max_retryable_write_retries then again else some (dropped, n + 1))
    else some (cancels, n + 1)

-- The loop, over the outcome of each attempt. `none`: it is still running.
unfoldable pub write_attempts : ℕ → (ℕ → Attempt) → ℕ → ℕ → Option (WriteEnd × ℕ)
unfolding after_attempt
write_attempts zero outcome n retries = none
write_attempts (suc fuel) outcome n retries =
    after_attempt (outcome n) n retries (write_attempts fuel outcome (n + 1) (retries + 1))

-- A round of the write loop, with a frame of the queue or a keep-alive frame.
unfoldable pub write_round : ℕ → (ℕ → Attempt) → Session → Session × Option (WriteEnd × ℕ)
unfolding write_attempts
write_round fuel outcome s = elim (write_attempts fuel outcome 0 0) [
  | some (cancels, n) ↦ (record s { is_cancelled = true }, some (cancels, n))
  | r ↦ (s, r)
]

-- The loop has ended: how, and after how many attempts.
pub record Ended (outcome : ℕ → Attempt) (r : Option (WriteEnd × ℕ)) : Type 0 where
  pub how : WriteEnd
  pub last : ℕ
  pub is_end : r ≡ some (how, last + 1)
  pub at_most_two : last < 2
  pub is_sent : how ≡ sent → outcome last ≡ written
  pub is_dropped : how ≡ dropped → last ≡ 1

module _ (outcome : ℕ → Attempt) where
  second_ends :
      (a : Attempt) (again : Option (WriteEnd × ℕ))
      → outcome 1 ≡ a
      → Ended outcome (after_attempt a 1 1 again)
  unfolding after_attempt
  second_ends written again e = record {
    how = sent;
    last = 1;
    is_end = refl;
    at_most_two = omega arith;
    is_sent = λ _. e;
    is_dropped = λ d. refl;
  }
  second_ends (failed es c) again e =
      if_rule (Ended outcome) c _ _
        (λ t. record {
          how = stopped;
          last = 1;
          is_end = refl;
          at_most_two = omega arith;
          is_sent = λ h. absurd (cc);
          is_dropped = λ d. refl;
        })
        λ f.
          if_rule (Ended outcome) (is_retryable es) _ _
            (λ t. record {
              how = dropped;
              last = 1;
              is_end = refl;
              at_most_two = omega arith;
              is_sent = λ h. absurd (cc);
              is_dropped = λ d. refl;
            })
            λ f. record {
              how = cancels;
              last = 1;
              is_end = refl;
              at_most_two = omega arith;
              is_sent = λ h. absurd (cc);
              is_dropped = λ d. refl;
            }

  first_ends :
      (a : Attempt) (again : Option (WriteEnd × ℕ))
      → outcome 0 ≡ a
      → Ended outcome again
      → Ended outcome (after_attempt a 0 0 again)
  unfolding after_attempt
  first_ends written again e next = record {
    how = sent;
    last = 0;
    is_end = refl;
    at_most_two = omega arith;
    is_sent = λ _. e;
    is_dropped = λ h. absurd (cc);
  }
  first_ends (failed es c) again e next =
      if_rule (Ended outcome) c _ _
        (λ t. record {
          how = stopped;
          last = 0;
          is_end = refl;
          at_most_two = omega arith;
          is_sent = λ h. absurd (cc);
          is_dropped = λ h. absurd (cc);
        })
        λ f.
          if_rule (Ended outcome) (is_retryable es) _ _ (λ t. next)
            λ f. record {
              how = cancels;
              last = 0;
              is_end = refl;
              at_most_two = omega arith;
              is_sent = λ h. absurd (cc);
              is_dropped = λ h. absurd (cc);
            }

  -- Whatever the attempts come to, the loop ends after at most two of them; a frame counts as sent
  -- only if the last attempt wrote it, and it is dropped only at the second.
  pub write_attempts-Ended :
      (fuel : ℕ) → Ended outcome (write_attempts (suc (suc fuel)) outcome 0 0)
  unfolding write_attempts
  write_attempts-Ended fuel = first_ends (outcome 0) _ refl (second_ends (outcome 1) _ refl)

-- A round of the read loop: what was read is written to the stash, whose messages are cut from it,
-- and then the error is looked at. `fuel` is for the loop over the stash; `none`: it does not end.
-- `waits`: the retry message waits for room in the queue, and so does the loop.
pub data ReadEnd : Type 0 where
  reads_on waits stops cancelled : ReadEnd

unfoldable pub after_retry : Session × WriteResult → Session × ReadEnd
after_retry (s, blocks) = (s, waits)
after_retry (s, r) = (s, reads_on)

unfoldable pub after_read : List IoError → Session → Session × ReadEnd
unfolding is_retryable write_frame after_retry
after_read [] s = (s, reads_on)
after_read (e ∷ es) s =
    if is_retryable (e ∷ es)
    then after_retry (write_frame s.is_cancelled payload_type_retry (replicate 16 0) [] s)
    else if s.is_cancelled
    then (s, stops)
    else (record s { is_cancelled = true }, cancelled)

unfoldable pub read_round :
    ℕ
    → List ℕ
    → List IoError
    → Stash
    → Session
    → Option (Stash × (List Message × (Session × ReadEnd)))
unfolding after_read
read_round fuel [] es st s = some (st, ([], after_read es s))
read_round fuel (b ∷ bs) es st s = elim (process_stash fuel (write st (b ∷ bs))) [
  | none ↦ none
  | some (st', ms) ↦ some (st', (ms, after_read es s))
]
